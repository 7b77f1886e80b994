-- ===== src/Aml/Context/Regions/Preserve.antt =====
-- aml/src/value.rs: what `write_field` writes for a field that is to preserve the other bits.
use native.Mathlib.Nat.{mod-lt, div-eq_of_lt}
use acpi_rs.Prelude.{ℕ, ◌+◌, ◌-◌, ◌*◌, ◌/◌, ◌%◌, ◌^◌, ◌<◌, ◌≤◌, ◌≡◌, refl, lt→ltb, ok, arith}
use acpi_rs.BitField.{BitField, read_range, write_range}
use acpi_rs.Bytes.Bits.{BitVec, pow_pos}
use acpi_rs.Aml.Value.{integer, field}
use acpi_rs.Aml.Value.Flags.{preserve, field_update_rule}
use acpi_rs.Aml.Context.{Handler, Context}
use acpi_rs.Aml.Context.Regions.{
  access_size, field_integer, integer_of, reader, as_integer, read_field, write_region,
  initial_value, write_field,
}

module _ ⦃bits : BitField⦄ where
  read_range-low :
      {E : Type 0} (x n : ℕ) → 0 < n → n ≤ 64 → read_range {E = E} 64 x 0 n ≡ ok (x % 2 ^ n)
  unfolding read_range
  read_range-low x n h k =
      let low : x / 2 ^ 0 ≡ x = omega arith in
      let size : n - 0 ≡ n = omega arith in
      rw (bits.is_range-inside 64 0 n h k) (rw (bits.get_bits_lem x 0 n h) (rw (low, size) refl))

  -- Where nothing is left of the old bits, the new value is all there is.
  write_range-low :
      {E : Type 0} (x n v : ℕ)
      → 0 < n
      → n ≤ 64
      → x < 2 ^ n
      → v < 2 ^ n
      → write_range {E = E} 64 x 0 n v ≡ ok v
  unfolding write_range
  write_range-low x n v h k small fits =
      let size : n - 0 ≡ n = omega arith in
      let none_left : x / 2 ^ n ≡ 0 = div-eq_of_lt small in
      let all_of : x % 2 ^ 0 + v * 2 ^ 0 + 0 * 2 ^ n ≡ v = omega arith in
      rw (bits.is_range-inside 64 0 n h k) (
        rw (size, lt→ltb v (2 ^ n) fits)
          (rw (bits.set_bits_lem x 0 n v h (rw size fits)) (rw (none_left, all_of) refl)))

module _ {W : Type 0} ⦃bits : BitField⦄ ⦃bv : BitVec⦄ ⦃h : Handler W⦄ where
  -- A write to a field with the update rule Preserve writes the new value to the region and zeros to
  -- the other bits of the access, whatever the region held.
  pub write_field-preserve :
      (c : Context W) (region flags offset len size raw v : ℕ)
      → field_update_rule flags ≡ ok preserve
      → access_size c region flags len ≡ ok size
      → reader c region offset size ≡ ok raw
      → 0 < len
      → len ≤ 64
      → v < 2 ^ len
      → write_field c (field region flags offset len) (integer v)
        ≡ write_region c region offset size v
  unfolding write_field initial_value read_field field_integer as_integer integer_of
  write_field-preserve c region flags offset len size raw v rule sized held some_bits few fits =
      let low = mod-lt raw (pow_pos len) in
      rw rule (
        rw sized (
          rw held (
            rw (read_range-low raw len some_bits few)
              (rw (write_range-low (raw % 2 ^ len) len v some_bits few low fits) refl))))
