-- ===== src/Aml/Value/Flags.antt =====
-- aml/src/value.rs: `RegionSpace`, `FieldFlags`, `MethodFlags`. Flags are their byte.
use acpi_rs.Prelude.{
  ℕ, ◌+◌, ◌*◌, ◌/◌, ◌%◌, ◌^◌, ◌<◌, ◌≤◌, leb, ◌==◌, ◌≡◌, ap, ◌∙◌, Bool, true, false, ok, err,
  if◌then◌else◌, ◌>>◌, assert, arith,
}
use acpi_rs.BitField.{BitField}
use acpi_rs.Aml.Types.{Result, invalid_field_flags}

pub data RegionSpace : Type 0 where
  system_memory system_io pci_config embedded_control smbus system_cmos : RegionSpace
  pci_bar_target ipmi general_purpose_io generic_serial_bus : RegionSpace
  oem_defined : ℕ → RegionSpace

-- `FieldAccessType`.
pub data FieldAccessType : Type 0 where
  any byte word dword qword buffer : FieldAccessType

-- `FieldUpdateRule`.
pub data FieldUpdateRule : Type 0 where
  preserve write_as_ones write_as_zeros : FieldUpdateRule

module _ ⦃bits : BitField⦄ where
  unfoldable pub access_type : ℕ → Result FieldAccessType
  access_type flags =
      let t = bits.get_bits flags 0 4 in
      if t == 0
      then ok any
      else if t == 1
      then ok byte
      else if t == 2
      then ok word
      else if t == 3
      then ok dword
      else if t == 4
      then ok qword
      else if t == 5
      then ok buffer
      else err invalid_field_flags

  unfoldable pub lock_rule : ℕ → Bool
  lock_rule flags = bits.get_bit flags 4

  unfoldable pub field_update_rule : ℕ → Result FieldUpdateRule
  field_update_rule flags =
      let r = bits.get_bits flags 5 7 in
      if r == 0
      then ok preserve
      else if r == 1
      then ok write_as_ones
      else if r == 2
      then ok write_as_zeros
      else err invalid_field_flags

  -- `MethodFlags::new`.
  unfoldable pub method_flags : ℕ → Bool → ℕ → Result ℕ
  method_flags arg_count serialize sync_level =
      assert (leb arg_count 7)
      >> (assert (leb sync_level 15)
          >> ok (
              bits.set_bits (bits.set_bit (bits.set_bits 0 0 3 arg_count) 3 serialize) 4 8
                sync_level))

  -- `MethodFlags::arg_count`, `serialize` and `sync_level`.
  unfoldable pub flags_arg_count : ℕ → ℕ
  flags_arg_count flags = bits.get_bits flags 0 3

  unfoldable pub flags_serialize : ℕ → Bool
  flags_serialize flags = bits.get_bit flags 3

  unfoldable pub flags_sync_level : ℕ → ℕ
  flags_sync_level flags = bits.get_bits flags 4 8

  packed :
      (a s : ℕ) (b : Bool)
      → a < 8
      → s < 16
      → bits.set_bits (bits.set_bit (bits.set_bits 0 0 3 a) 3 b) 4 8 s
        ≡ a + (if b then 8 else 0) + s * 16
  packed a s b h k =
      let first : bits.set_bits 0 0 3 a ≡ a =
        bits.set_bits_lem 0 0 3 a (omega arith) h ∙ (omega arith) in
      let second : bits.set_bit a 3 b ≡ a + (if b then 8 else 0) =
        bits.set_bit_lem a 3 b ∙ (ground (arith, h)) in
      rw (first, second)
        (bits.set_bits_lem (a + (if b then 8 else 0)) 4 8 s (omega arith) k
          ∙ (ground (arith, h, k)))

  -- For at most 7 arguments and a level of at most 15, `MethodFlags::new` gives a byte from which the
  -- three accessors read back what went in.
  pub method_flags-read :
      (arg_count sync_level : ℕ) (serialize : Bool)
      → arg_count ≤ 7
      → sync_level ≤ 15
      → (f : ℕ) × (method_flags arg_count serialize sync_level ≡ ok f)
        × (f < 256)
        × (flags_arg_count f ≡ arg_count)
        × (flags_serialize f ≡ serialize)
        × (flags_sync_level f ≡ sync_level)
  unfolding method_flags flags_arg_count flags_serialize flags_sync_level
  method_flags-read a s b h k =
      let f = a + (if b then 8 else 0) + s * 16 in
      (
        f,
        rw (leb-true a 7 h)
            (rw (leb-true s 15 k) (ap ok (packed a s b (omega (arith, h)) (omega (arith, k))))),
        ground (arith, h, k),
        bits.get_bits_lem f 0 3 (omega arith) ∙ (ground (arith, h)),
        bits.get_bit_lem f 3 ∙ (bit_3 b),
        bits.get_bits_lem f 4 8 (omega arith) ∙ (ground (arith, h, k)),
      )
    where
      leb-true : (x y : ℕ) → x ≤ y → leb x y ≡ true
      leb-true x y e = ground arith

      bit_3 : (c : Bool) → ((a + (if c then 8 else 0) + s * 16) / 2 ^ 3 % 2 == 1) ≡ c
      bit_3 true = ground (arith, h)
      bit_3 false = ground (arith, h)
