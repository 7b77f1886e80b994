-- ===== src/Aml/Value/Status.antt =====
-- aml/src/value.rs: `StatusObject` and `AmlValue::as_status`.
use acpi_rs.Prelude.{
  ℕ, ◌/◌, ◌^◌, ◌<◌, ◌≤◌, ◌==◌, ◌≡◌, refl, ◌∙◌, Bool, true, not, ok, err, if◌then◌else◌, arith,
}
use acpi_rs.BitField.{BitField}
use acpi_rs.BitField.Pack.{five_flags, get_bit-five_flags}
use acpi_rs.Aml.Types.{Result, invalid_status_object}
use acpi_rs.Aml.Value.{AmlValue, integer}

pub record StatusObject : Type 0 where
  pub present : Bool
  pub enabled : Bool
  pub show_in_ui : Bool
  pub functional : Bool
  pub battery_present : Bool

-- `StatusObject::default`.
abbrev pub default_status : StatusObject
default_status = record {
  present = true;
  enabled = true;
  show_in_ui = true;
  functional = true;
  battery_present = true;
}

module _ ⦃bits : BitField⦄ where
  unfoldable pub as_status : AmlValue → Result StatusObject
  as_status (integer value) =
      if not (bits.get_bits value 5 64 == 0)
      then err invalid_status_object
      else ok (record {
        present = bits.get_bit value 0;
        enabled = bits.get_bit value 1;
        show_in_ui = bits.get_bit value 2;
        functional = bits.get_bit value 3;
        battery_present = bits.get_bit value 4;
      })
  as_status _ = err invalid_status_object

-- The integer that a `_STA` method returns for a status, by the ACPI specification.
abbrev pub status_value : StatusObject → ℕ
status_value s = five_flags s.present s.enabled s.show_in_ui s.functional s.battery_present

module _ ⦃bits : BitField⦄ where
  -- as_status reads back the integer that stands for a status, and rejects every 64-bit integer
  -- that has a bit above the five.
  pub as_status-status_value :
      (s : StatusObject) (n : ℕ)
      → 32 ≤ n
      → n < 2 ^ 64
      → (as_status (integer (status_value s)) ≡ ok s)
        × (as_status (integer n) ≡ err invalid_status_object)
  unfolding as_status
  as_status-status_value s n h k =
      let (p, q, r, t, u, v) =
        get_bit-five_flags s.present s.enabled s.show_in_ui s.functional s.battery_present in
      let high : bits.get_bits n 5 64 ≡ n / 2 ^ 5 =
        bits.get_bits_lem n 5 64 (omega arith) ∙ (omega (arith, k)) in
      (rw (p, q, r, t, u, v) refl, rw high (ground (arith, h)))
