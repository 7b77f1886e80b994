-- ===== src/Aml/Context/Convert.antt =====
-- aml/src/value.rs: `as_buffer`, `as_string`, `as_type` and `cmp`, which take the context. Where a wide
-- buffer field is read, a buffer is allocated.
use acpi_rs.Prelude.{
  ℕ, compare, Ordering, ◌==◌, Bool, false, List, [], ◌∷◌, ok, err, panic, ◌>>=◌, if◌then◌else◌,
}
use acpi_rs.BitField.{BitField}
use acpi_rs.Bytes.Bits.{BitVec}
use acpi_rs.Aml.Types.{
  AmlType, Result, incompatible_value_conversion, type_cannot_be_compared, then,
}
use acpi_rs.Aml.Value.{AmlValue, integer, string, field, buffer, buffer_field, type_of, type_eq}
use acpi_rs.Aml.Value.Buffers.{Buffers, bytes_of}
use acpi_rs.Aml.Value.BufferFields.{read_buffer_field}
use acpi_rs.Aml.Context.{Handler, Context}
use acpi_rs.Aml.Context.Regions.{as_integer, read_field}

-- The order of slices and of texts: lexicographic.
unfoldable pub cmp_bytes : List ℕ → List ℕ → Ordering
cmp_bytes [] [] = Ordering.eq
cmp_bytes [] (y ∷ ys) = Ordering.lt
cmp_bytes (x ∷ xs) [] = Ordering.gt
cmp_bytes (x ∷ xs) (y ∷ ys) = (then) (compare x y) (cmp_bytes xs ys)

-- What is not a buffer and holds no field.
unfoldable pub plain_buffer : AmlValue → Result ℕ
unfolding type_of
plain_buffer (buffer a) = ok a
plain_buffer v = err (incompatible_value_conversion (type_of v) AmlType.buffer)

unfoldable pub plain_string : AmlValue → Result (List ℕ)
unfolding type_of
plain_string (string text) = ok text
plain_string v = err (incompatible_value_conversion (type_of v) AmlType.string)

-- The comparison of two locked buffers: a buffer is not locked twice.
unfoldable pub cmp_buffers : Buffers → ℕ → ℕ → Result Ordering
unfolding cmp_bytes
cmp_buffers store a b =
    if a == b then panic else ok (cmp_bytes (bytes_of store a) (bytes_of store b))

-- Reading this value locks the buffer.
unfoldable pub locks : AmlValue → ℕ → Bool
locks (buffer_field b offset len) a = b == a
locks v a = false

abbrev pub with_buffers : {A B : Type 0} → (A → Result B) → Result A × Buffers → Result B × Buffers
with_buffers f (r, store) = (r >>= f, store)

module _ {W : Type 0} ⦃bits : BitField⦄ ⦃bv : BitVec⦄ ⦃h : Handler W⦄ where
  unfoldable pub as_buffer : Context W → AmlValue → Result ℕ × Buffers
  unfolding plain_buffer
  as_buffer c (field region flags offset len) =
      (read_field c (field region flags offset len) >>= plain_buffer, c.buffers)
  as_buffer c (buffer_field a offset len) =
      with_buffers plain_buffer (read_buffer_field c.buffers (buffer_field a offset len))
  as_buffer c v = (plain_buffer v, c.buffers)

  unfoldable pub as_string : Context W → AmlValue → Result (List ℕ)
  unfolding plain_string
  as_string c (field region flags offset len) =
      read_field c (field region flags offset len) >>= plain_string
  as_string c v = plain_string v

  -- The `match` of `as_type`.
  unfoldable pub convert : Context W → AmlType → AmlValue → Result AmlValue × Buffers
  unfolding type_of
  convert c AmlType.integer v = (as_integer c v >>= λ n. ok (integer n), c.buffers)
  convert c AmlType.buffer v = with_buffers (λ a. ok (buffer a)) (as_buffer c v)
  convert c AmlType.field_unit v = (panic, c.buffers)
  convert c typ v = (err (incompatible_value_conversion (type_of v) typ), c.buffers)

  unfoldable pub as_type : Context W → AmlValue → AmlType → Result AmlValue × Buffers
  unfolding type_of type_eq convert
  as_type c v desired =
      if type_eq (type_of v) desired then (ok v, c.buffers) else convert c desired v

  -- The buffer of `other`, read while that of `self` is locked, and the comparison.
  unfoldable pub cmp_with_buffer :
      Context W → AmlValue → Result ℕ × Buffers → Result Ordering × Buffers
  unfolding cmp_buffers locks
  cmp_with_buffer c other (r, store) =
      let second = as_buffer (record c { buffers = store }) other in
      elim r [
        | ok a ↦
            if locks other a then (panic, store) else with_buffers (cmp_buffers second.1 a) second
        | err e ↦ (err e, store)
        | panic ↦ (panic, store)
      ]

  -- `cmp`, by the type of `self` or of what it reads as.
  unfoldable pub cmp_as : Context W → AmlType → AmlValue → AmlValue → Result Ordering × Buffers
  unfolding cmp_with_buffer cmp_bytes
  cmp_as c AmlType.integer self other =
      (as_integer c self >>= λ m. as_integer c other >>= λ n. ok (compare m n), c.buffers)
  cmp_as c AmlType.buffer self other = cmp_with_buffer c other (as_buffer c self)
  cmp_as c AmlType.string self other =
      (as_string c self >>= λ s. as_string c other >>= λ t. ok (cmp_bytes s t), c.buffers)
  cmp_as c typ self other = (err (type_cannot_be_compared typ), c.buffers)

  unfoldable pub cmp : Context W → AmlValue → AmlValue → Result Ordering × Buffers
  unfolding cmp_as type_of
  cmp c (field region flags offset len) other =
      let self = field region flags offset len in
      elim (read_field c self) [
        | ok v ↦ cmp_as c (type_of v) self other
        | err e ↦ (err e, c.buffers)
        | panic ↦ (panic, c.buffers)
      ]
  cmp c self other = cmp_as c (type_of self) self other
