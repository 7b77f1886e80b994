-- ===== src/BitField.antt =====
-- The crate `bit_field`, which the sources call: reads and writes of bits of an unsigned integer, with
-- what its documentation says of them. Bit 0 is the least significant one, and ranges are half-open.
-- `is_range` says which ranges of an integer of some width it accepts; it panics on the others, and
-- where a value that is to be written does not fit its range.
pub mod Pack
use acpi_rs.Prelude.{
  ℕ, ◌+◌, ◌-◌, ◌*◌, ◌/◌, ◌%◌, ◌^◌, ◌≤◌, ◌<◌, ltb, ◌==◌, ◌≡◌, Bool, true, false, ◌&&◌, if◌then◌else◌,
  Outcome, ok, panic,
}

pub record BitField : Type 0 where
  pub get_bit : ℕ → ℕ → Bool
  pub get_bits : ℕ → ℕ → ℕ → ℕ
  pub set_bit : ℕ → ℕ → Bool → ℕ
  pub set_bits : ℕ → ℕ → ℕ → ℕ → ℕ
  pub is_range : ℕ → ℕ → ℕ → Bool
  pub get_bit_lem : (x i : ℕ) → get_bit x i ≡ (x / 2 ^ i % 2 == 1)
  pub get_bits_lem : (x lo hi : ℕ) → lo < hi → get_bits x lo hi ≡ x / 2 ^ lo % 2 ^ (hi - lo)
  pub set_bit_lem :
      (x i : ℕ) (b : Bool)
      → set_bit x i b ≡ x % 2 ^ i + (if b then 2 ^ i else 0) + x / 2 ^ (i + 1) * 2 ^ (i + 1)
  pub set_bits_lem :
      (x lo hi v : ℕ)
      → lo < hi
      → v < 2 ^ (hi - lo)
      → set_bits x lo hi v ≡ x % 2 ^ lo + v * 2 ^ lo + x / 2 ^ hi * 2 ^ hi
  pub is_range-inside : (width lo hi : ℕ) → lo < hi → hi ≤ width → is_range width lo hi ≡ true
  pub is_range-outside : (width lo hi : ℕ) → width < hi → is_range width lo hi ≡ false

module _ ⦃bits : BitField⦄ where
  -- `x.get_bits(lo..hi)` for bounds that are computed, on an integer of `width` bits.
  unfoldable pub read_range : {E : Type 0} → ℕ → ℕ → ℕ → ℕ → Outcome E ℕ
  read_range width x lo hi = if bits.is_range width lo hi then ok (bits.get_bits x lo hi) else panic

  -- `x.set_bits(lo..hi, v)`.
  unfoldable pub write_range : {E : Type 0} → ℕ → ℕ → ℕ → ℕ → ℕ → Outcome E ℕ
  write_range width x lo hi v =
      if bits.is_range width lo hi && ltb v (2 ^ (hi - lo))
      then ok (bits.set_bits x lo hi v)
      else panic
