-- ===== src/Tests/Bits.antt =====
-- The shifts and masks that the interface `BitField` asks for.
use acpi_rs.Prelude.{
  ◌+◌, ◌-◌, ◌*◌, ◌/◌, ◌%◌, ◌^◌, ◌<◌, ◌≤◌, ℕ, ltb, leb, ◌==◌, ◌≡◌, ◌&&◌, true, false, if◌then◌else◌,
  refl, arith,
}
use acpi_rs.BitField.{BitField}

pub inside : (width lo hi : ℕ) → lo < hi → hi ≤ width → (ltb lo hi && leb hi width) ≡ true
inside width lo hi h k = ground arith

pub outside : (width lo hi : ℕ) → width < hi → (ltb lo hi && leb hi width) ≡ false
outside width lo hi h = ground arith

instance abbrev pub shifts : BitField
shifts = record {
  get_bit = λ x i. x / 2 ^ i % 2 == 1;
  get_bits = λ x lo hi. x / 2 ^ lo % 2 ^ (hi - lo);
  set_bit = λ x i b. x % 2 ^ i + (if b then 2 ^ i else 0) + x / 2 ^ (i + 1) * 2 ^ (i + 1);
  set_bits = λ x lo hi v. x % 2 ^ lo + v * 2 ^ lo + x / 2 ^ hi * 2 ^ hi;
  is_range = λ width lo hi. ltb lo hi && leb hi width;
  get_bit_lem = λ x i. refl;
  get_bits_lem = λ x lo hi h. refl;
  set_bit_lem = λ x i b. refl;
  set_bits_lem = λ x lo hi v h k. refl;
  is_range-inside = inside;
  is_range-outside = outside;
}
