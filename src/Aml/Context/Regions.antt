-- ===== src/Aml/Context/Regions.antt =====
-- aml/src/lib.rs: `read_region` and `write_region`; aml/src/value.rs: the conversions that read
-- fields. An address of 64 bits fits `usize`.
pub mod Preserve
use acpi_rs.Prelude.{
  ℕ, zero, suc, ◌+◌, ◌-◌, ◌*◌, ◌%◌, ◌^◌, max, ltb, leb, ◌==◌, Bool, true, false, ◌&&◌, ◌||◌, List,
  [], ◌∷◌, length, take, ◌++◌, replicate, Option, some, none, Outcome, ok, err, panic, ◌>>=◌, ◌>>◌,
  if◌then◌else◌,
}
use acpi_rs.BitField.{BitField, read_range, write_range}
use acpi_rs.Bytes.Bits.{BitVec}
use acpi_rs.Aml.Types.{
  AmlType, AmlName, AmlError, Result, value_does_not_exist, field_region_is_not_op_region,
  field_invalid_address, field_invalid_access_size, incompatible_value_conversion,
}
use acpi_rs.Aml.Name.Text.{from_str}
use acpi_rs.Aml.Namespace
use acpi_rs.Aml.Namespace.{Namespace}
use acpi_rs.Aml.Value.{
  AmlValue, codes, boolean, integer, string, op_region, field, buffer, buffer_field, type_of,
}
use acpi_rs.Aml.Value.Flags.{
  RegionSpace, system_memory, system_io, pci_config, FieldAccessType, any, byte, word, dword, qword,
  access_type, FieldUpdateRule, preserve, write_as_ones, write_as_zeros, field_update_rule,
}
use acpi_rs.Aml.Value.Buffers.{Buffers, bytes_of}
use acpi_rs.Aml.Value.BufferFields.{read_bits}
use acpi_rs.Aml.Context.{Handler, Context, settled, unwrap}

-- How a region is read: its handle, the offset and the length.
abbrev pub Reader : Type 0
Reader = ℕ → ℕ → ℕ → Result ℕ

-- The fold of `as_integer` over the first bytes of a buffer, the last of them first.
unfoldable pub fold_bytes : List ℕ → ℕ
fold_bytes [] = 0
fold_bytes (b ∷ bs) = (fold_bytes bs * 2 ^ 8 % 2 ^ 64 + b) % 2 ^ 64

unfoldable pub first_bytes : List ℕ → List ℕ
first_bytes bytes = if ltb 8 (length bytes) then take 8 bytes else bytes

-- `try_into` to an unsigned integer below `limit`.
unfoldable pub narrow : ℕ → ℕ → Result ℕ
narrow limit n = if ltb n limit then ok n else err field_invalid_address

-- The region's space, offset and parent device.
unfoldable pub region_parts : AmlValue → Result (RegionSpace × ℕ × Option AmlName)
region_parts (op_region space offset length parent) = ok (space, offset, parent)
region_parts v = err field_region_is_not_op_region

unfoldable pub is_simple_space : RegionSpace → Bool
is_simple_space system_memory = true
is_simple_space system_io = true
is_simple_space pci_config = true
is_simple_space _ = false

unfoldable pub minimum_access_size : FieldAccessType → ℕ
minimum_access_size word = 16
minimum_access_size dword = 32
minimum_access_size qword = 64
minimum_access_size _ = 8

-- `u64::next_power_of_two`: the first power from `p` on that is at least `n`; above 2^63 it is 0, as
-- release builds have it.
unfoldable pub power_from : ℕ → ℕ → ℕ → ℕ
power_from zero p n = 0
power_from (suc fuel) p n = let rest = power_from fuel (2 * p) n in if leb n p then p else rest

unfoldable pub next_power_of_two : ℕ → ℕ
unfolding power_from
next_power_of_two n = power_from 64 1 n

-- Whether a region can be read in accesses of this many bits.
unfoldable pub is_access : Bool → ℕ → Bool
is_access wide n = n == 8 || n == 16 || n == 32 || (wide && n == 64)

module _ {W : Type 0} ⦃bits : BitField⦄ ⦃bv : BitVec⦄ ⦃h : Handler W⦄ where
  -- The access size of a field: what `read_field` and `write_field` have in common.
  unfoldable pub access_size : Context W → ℕ → ℕ → ℕ → Result ℕ
  unfolding region_parts is_simple_space minimum_access_size next_power_of_two
  access_size c region flags len = do
    v ← Namespace.get c.namespace region
    (space, _, _) ← region_parts v
    if is_simple_space space
        then (do
          typ ← access_type flags
          ok (max (minimum_access_size typ) (next_power_of_two len)))
        else panic

  -- The integer that a field reads as, from the region.
  unfoldable pub field_integer : Reader → Context W → ℕ → ℕ → ℕ → ℕ → Result ℕ
  field_integer read c region flags offset len = do
    size ← access_size c region flags len
    raw ← read region offset size
    read_range 64 raw 0 len

  -- `as_integer`; the buffer that a wide buffer field is read into is dropped again.
  unfoldable pub integer_of : Reader → Context W → AmlValue → Result ℕ
  unfolding type_of first_bytes fold_bytes
  integer_of read c (integer value) = ok value
  integer_of read c (boolean value) = ok (if value then 2 ^ 64 - 1 else 0)
  integer_of read c (buffer a) = ok (fold_bytes (first_bytes (bytes_of c.buffers a)))
  integer_of read c (field region flags offset len) = field_integer read c region flags offset len
  integer_of read c (buffer_field a offset len) = read_bits c.buffers a offset len >>= λ bs. ok (
      if ltb 64 len
      then fold_bytes (first_bytes (bv.copied (offset % 8) bs))
      else bv.viewed_integer (bs ++ replicate (64 - len) false))
  integer_of read c v = err (incompatible_value_conversion (type_of v) AmlType.integer)

  -- The value of a name that is searched for from the parent device; where the name is missing, the
  -- default, if there is one.
  unfoldable pub number_at : Reader → Context W → List ℕ → Option ℕ → AmlName → Result ℕ
  unfolding from_str
  number_at read c text default parent = unwrap (from_str text) >>= λ name.
      elim (settled (Namespace.search c.namespace name parent)) [
        | ok (_, handle) ↦ Namespace.get c.namespace handle >>= integer_of read c
        | err (value_does_not_exist p) ↦ elim default [
          | some n ↦ ok n
          | none ↦ err (value_does_not_exist p)
        ]
        | err e ↦ err e
        | panic ↦ panic
      ]

  -- The segment, bus, device and function of a PCI region.
  unfoldable pub pci_address : Reader → Context W → Option AmlName → Result (ℕ × ℕ × ℕ × ℕ)
  pci_address read c none = panic
  pci_address read c (some parent) = do
    seg_value ← number_at read c (codes "_SEG") (some 0) parent
    seg ← narrow (2 ^ 16) seg_value
    bbn_value ← number_at read c (codes "_BBN") (some 0) parent
    bbn ← narrow (2 ^ 8) bbn_value
    adr ← number_at read c (codes "_ADR") none parent
    ok (seg, bbn, bits.get_bits adr 16 24, bits.get_bits adr 0 8)

  -- The accesses to each space, once the region is known.
  unfoldable pub read_space : Reader → Context W → RegionSpace → Option AmlName → ℕ → ℕ → Result ℕ
  unfolding narrow is_access pci_address
  read_space read c system_memory parent address len =
      if is_access true len
      then ok (h.read_memory len address c.machine)
      else err field_invalid_access_size
  read_space read c system_io parent address len = narrow (2 ^ 16) address >>= λ port.
      if is_access false len
      then ok (h.read_io len port c.machine)
      else err field_invalid_access_size
  read_space read c pci_config parent address len = do
    (seg, bbn, device, function) ← pci_address read c parent
    offset ← narrow (2 ^ 16) address
    if is_access false len
        then ok (h.read_pci len seg bbn device function offset c.machine)
        else err field_invalid_access_size
  read_space read c _ parent address len = panic

  -- `read_region`. The integers of a PCI device may be fields of another region; each region that is
  -- entered this way takes one unit of fuel.
  unfoldable pub read_region : ℕ → Context W → Reader
  unfolding region_parts
  read_region zero c region offset len = panic
  read_region (suc fuel) c region offset len = do
    v ← Namespace.get c.namespace region
    (space, base, parent) ← region_parts v
    read_space (read_region fuel c) c space parent ((base + offset) % 2 ^ 64) len

  -- A chain of more regions than there are objects comes back to one of them, and does not end.
  unfoldable pub reader : Context W → Reader
  reader c = read_region (length c.namespace.object_map + 1) c

  unfoldable pub as_integer : Context W → AmlValue → Result ℕ
  unfolding integer_of
  as_integer c v = integer_of (reader c) c v

  unfoldable pub read_field : Context W → AmlValue → Result AmlValue
  unfolding type_of
  read_field c (field region flags offset len) =
      field_integer (reader c) c region flags offset len >>= λ n. ok (integer n)
  read_field c v = err (incompatible_value_conversion (type_of v) AmlType.field_unit)

  unfoldable pub write_space : Context W → RegionSpace → Option AmlName → ℕ → ℕ → ℕ → Result W
  unfolding narrow is_access pci_address
  write_space c system_memory parent address len value =
      if is_access true len
      then ok (h.write_memory len address (value % 2 ^ len) c.machine)
      else err field_invalid_access_size
  write_space c system_io parent address len value = narrow (2 ^ 16) address >>= λ port.
      if is_access false len
      then ok (h.write_io len port (value % 2 ^ len) c.machine)
      else err field_invalid_access_size
  write_space c pci_config parent address len value = do
    (seg, bbn, device, function) ← pci_address (reader c) c parent
    offset ← narrow (2 ^ 16) address
    if is_access false len
        then ok (h.write_pci len seg bbn device function offset (value % 2 ^ len) c.machine)
        else err field_invalid_access_size
  write_space c _ parent address len value = panic

  -- `write_region`: the machine after the write.
  unfoldable pub write_region : Context W → ℕ → ℕ → ℕ → ℕ → Result W
  unfolding region_parts write_space
  write_region c region offset len value = do
    v ← Namespace.get c.namespace region
    (space, base, parent) ← region_parts v
    write_space c space parent ((base + offset) % 2 ^ 64) len value

  -- What `write_field` starts from, by the update rule of the field.
  unfoldable pub initial_value : Context W → FieldUpdateRule → AmlValue → Result ℕ
  initial_value c preserve self = read_field c self >>= as_integer c
  initial_value c write_as_ones self = ok (2 ^ 64 - 1)
  initial_value c write_as_zeros self = ok 0

  unfoldable pub write_field : Context W → AmlValue → AmlValue → Result W
  unfolding type_of initial_value
  write_field c (field region flags offset len) value = do
    rule ← field_update_rule flags
    before ← initial_value c rule (field region flags offset len)
    size ← access_size c region flags len
    n ← as_integer c value
    after ← write_range 64 before 0 len n
    write_region c region offset size after
  write_field c v value = err (incompatible_value_conversion (type_of v) AmlType.field_unit)
