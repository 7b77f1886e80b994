-- ===== src/Aml/Value/BufferFields.antt =====
-- aml/src/value.rs: `read_buffer_field` and `write_buffer_field`. Offsets and lengths are in bits; sums
-- wrap at 2^64 as release builds have them.
pub mod Splice
pub mod Laws
use acpi_rs.Prelude.{
  ℕ, ◌+◌, ◌-◌, ◌*◌, ◌%◌, ◌^◌, min, ltb, leb, ◌==◌, Bool, false, ◌&&◌, List, [], ◌∷◌, ◌++◌, length,
  take, drop, set, replicate, ok, err, panic, ◌>>=◌, if◌then◌else◌,
}
use acpi_rs.Bytes.{le_bytes}
use acpi_rs.Bytes.Bits.{BitVec}
use acpi_rs.Bytes.Slices.{slice}
use acpi_rs.Aml.Types.{
  AmlType, Result, buffer_field_indexes_out_of_bounds, incompatible_value_conversion,
  type_cannot_be_written_to_buffer_field,
}
use acpi_rs.Aml.Value.{AmlValue, boolean, integer, buffer, buffer_field, type_of}
use acpi_rs.Aml.Value.Buffers.{Buffers, bytes_of, allocate, put_bytes}

-- `bits[lo..hi].copy_from_bitslice(source)`, which panics out of bounds.
unfoldable pub overwrite : List Bool → ℕ → ℕ → List Bool → Result (List Bool)
overwrite bits lo hi source =
    if leb lo hi && leb hi (length bits)
    then ok (take lo bits ++ (source ++ drop hi bits))
    else panic

-- A source of bits into `len` bits at an offset: what it does not fill is set to zeros.
unfoldable pub copy_extended : List Bool → ℕ → ℕ → List Bool → Result (List Bool)
unfolding overwrite
copy_extended bits offset len source =
    let bits_to_copy = min len (length source) in
    let middle = (offset + bits_to_copy) % 2 ^ 64 in
    overwrite bits offset middle (take bits_to_copy source) >>= λ copied.
    overwrite copied middle ((offset + len) % 2 ^ 64) (replicate (len - bits_to_copy) false)

abbrev pub as_buffer_value : ℕ × Buffers → Result AmlValue × Buffers
as_buffer_value (a, store) = (ok (buffer a), store)

module _ ⦃bv : BitVec⦄ where
  -- The bits of a field, where they lie in the buffer.
  unfoldable pub read_bits : Buffers → ℕ → ℕ → ℕ → Result (List Bool)
  unfolding slice
  read_bits store a offset len =
      let bytes = bytes_of store a in
      let last = (offset + len) % 2 ^ 64 in
      if ltb (length bytes * 8) last
      then err buffer_field_indexes_out_of_bounds
      else slice (bv.view_bits bytes) offset last

  -- More than 64 bits are a new buffer.
  unfoldable pub field_value : Buffers → ℕ → ℕ → List Bool → Result AmlValue × Buffers
  field_value store offset len bits =
      if ltb 64 len
      then as_buffer_value (allocate store (bv.copied (offset % 8) bits))
      else (ok (integer (bv.viewed_integer (bits ++ replicate (64 - len) false))), store)

  unfoldable pub read_buffer_field : Buffers → AmlValue → Result AmlValue × Buffers
  unfolding type_of
  read_buffer_field store (buffer_field a offset len) = elim (read_bits store a offset len) [
    | ok bits ↦ field_value store offset len bits
    | err e ↦ (err e, store)
    | panic ↦ (panic, store)
  ]
  read_buffer_field store v =
      (err (incompatible_value_conversion (type_of v) AmlType.buffer_field), store)

  -- The bits of the buffer after a write. A buffer that is written into a field of itself is locked
  -- twice.
  unfoldable pub written_bits : Buffers → ℕ → ℕ → ℕ → AmlValue → Result (List Bool)
  unfolding copy_extended type_of
  written_bits store a offset len (integer value) =
      copy_extended (bv.view_bits (bytes_of store a)) offset len (bv.view_bits (le_bytes 8 value))
  written_bits store a offset len (boolean value) =
      let bits = bv.view_bits (bytes_of store a) in
      if ltb offset (length bits) then ok (set bits offset value) else panic
  written_bits store a offset len (buffer b) =
      if a == b
      then panic
      else copy_extended (bv.view_bits (bytes_of store a)) offset len
          (bv.view_bits (bytes_of store b))
  written_bits store a offset len v = err (type_cannot_be_written_to_buffer_field (type_of v))

  unfoldable pub write_buffer_field : Buffers → AmlValue → AmlValue → Result (Unit {0}) × Buffers
  unfolding type_of
  write_buffer_field store (buffer_field a offset len) value =
      elim (written_bits store a offset len value) [
        | ok bits ↦ (ok tt, put_bytes store a (bv.viewed_bytes (length (bytes_of store a)) bits))
        | err e ↦ (err e, store)
        | panic ↦ (panic, store)
      ]
  write_buffer_field store v value =
      (err (incompatible_value_conversion (type_of v) AmlType.buffer_field), store)
