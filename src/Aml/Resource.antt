-- ===== src/Aml/Resource.antt =====
-- aml/src/resource.rs: the resources of a device, read from the bytes of their descriptors.
-- `unimplemented!` and `unreachable!` are panics.
pub mod Types
pub mod Encode
pub mod RoundTrip
pub mod Loop
pub mod Truncated
use acpi_rs.Prelude.{
  ℕ, zero, suc, ◌+◌, ◌*◌, ltb, leb, ◌==◌, Bool, true, false, not, ◌&&◌, ◌||◌, List, [], ◌∷◌, ◌++◌,
  length, ok, err, panic, ◌>>=◌, ◌>>◌, assert, if◌then◌else◌, Option, some, none, drop,
}
use acpi_rs.BitField.{BitField}
use acpi_rs.Bytes.Slices.{LittleEndian, index, slice, split_at, next_chunk}
use acpi_rs.Aml.Types.{
  AmlType, AmlError, Result, reserved_resource_type, resource_descriptor_too_short,
  resource_descriptor_too_long, incompatible_value_conversion,
}
use acpi_rs.Aml.Resource.Types.{
  InterruptTrigger, edge, level, InterruptPolarity, active_high, active_low, SpaceType,
  memory_range, io_range, bus_number_range, DecodeType, additive, subtractive,
  AddressSpaceDescriptor, MemoryRange, fixed_location, IrqDescriptor, DmaSpeed, compatibility_mode,
  type_a, type_b, type_f, DmaTransfer, only_8_bit, both_8_and_16_bit, only_16_bit, DmaDescriptor,
  IoPortDescriptor, Resource, irq_resource, address_space, memory, io_port, dma,
}
use acpi_rs.Aml.Value.Buffers.{Buffers, bytes_of}
use acpi_rs.Aml.Value.{AmlValue, buffer, type_of}

-- The two tests of a length that must be met exactly.
unfoldable pub check_length : List ℕ → ℕ → Result (Unit {0})
check_length bytes n =
    if ltb (length bytes) n
    then err resource_descriptor_too_short
    else if ltb n (length bytes)
    then err resource_descriptor_too_long
    else ok tt

unfoldable pub space_type : ℕ → Result SpaceType
space_type byte =
    if byte == 0
    then ok memory_range
    else if byte == 1
    then ok io_range
    else if byte == 2
    then ok bus_number_range
    else if leb byte 191
    then err reserved_resource_type
    else panic

abbrev pub trigger_of : Bool → InterruptTrigger
trigger_of is_edge = if is_edge then edge else level

abbrev pub polarity_of : Bool → InterruptPolarity
polarity_of is_low = if is_low then active_low else active_high

unfoldable pub dma_speed : ℕ → Result DmaSpeed
dma_speed n =
    if n == 0
    then ok compatibility_mode
    else if n == 1
    then ok type_a
    else if n == 2
    then ok type_b
    else if n == 3
    then ok type_f
    else panic

unfoldable pub dma_transfer : ℕ → Result DmaTransfer
dma_transfer n =
    if n == 0
    then ok only_8_bit
    else if n == 1
    then ok both_8_and_16_bit
    else if n == 2
    then ok only_16_bit
    else panic

module _ ⦃bits : BitField⦄ ⦃le : LittleEndian⦄ where
  unfoldable pub fixed_memory_descriptor : List ℕ → Result Resource
  unfolding check_length index slice
  fixed_memory_descriptor bytes = do
    check_length bytes 12
    information ← index bytes 3
    base ← slice bytes 4 8
    range ← slice bytes 8 12
    ok (memory (fixed_location (bits.get_bit information 0) (le.read_u32 base) (le.read_u32 range)))

  -- The size of `T` is an argument.
  unfoldable pub address_space_descriptor : ℕ → List ℕ → Result Resource
  unfolding index space_type next_chunk slice
  address_space_descriptor size bytes =
      if ltb (length bytes) (6 + size * 5) then err resource_descriptor_too_short else do
        type_byte ← index bytes 3
        kind ← space_type type_byte
        general_flags ← index bytes 4
        fields ← slice bytes 6 (length bytes)
        (granularity_bytes, rest_1) ← next_chunk size fields
        (min_bytes, rest_2) ← next_chunk size rest_1
        (max_bytes, rest_3) ← next_chunk size rest_2
        (offset_bytes, rest_4) ← next_chunk size rest_3
        (length_bytes, _) ← next_chunk size rest_4
        ok (
            address_space (record {
              resource_type = kind;
              is_maximum_address_fixed = bits.get_bit general_flags 3;
              is_minimum_address_fixed = bits.get_bit general_flags 2;
              decode_type = if bits.get_bit general_flags 1 then subtractive else additive;
              granularity = le.read_uint granularity_bytes size;
              address_range = (le.read_uint min_bytes size, le.read_uint max_bytes size);
              translation_offset = le.read_uint offset_bytes size;
              space_length = le.read_uint length_bytes size;
            }))

  -- The two arms of `irq_format_descriptor` that succeed: without and with the byte of information.
  unfoldable pub irq_without_information : List ℕ → Result Resource
  unfolding slice
  irq_without_information bytes = do
    mask ← slice bytes 1 3
    ok (
        irq_resource (record {
          is_consumer = false;
          trigger = edge;
          polarity = active_high;
          is_shared = false;
          is_wake_capable = false;
          irq = le.read_u16 mask;
        }))

  unfoldable pub irq_with_information : List ℕ → Result Resource
  unfolding slice index
  irq_with_information bytes = do
    mask ← slice bytes 1 3
    information ← index bytes 3
    ok (
        irq_resource (record {
          is_consumer = false;
          trigger = trigger_of (bits.get_bit information 0);
          polarity = polarity_of (bits.get_bit information 3);
          is_shared = bits.get_bit information 4;
          is_wake_capable = bits.get_bit information 5;
          irq = le.read_u16 mask;
        }))

  unfoldable pub irq_format_descriptor : List ℕ → Result Resource
  unfolding irq_without_information irq_with_information
  irq_format_descriptor bytes =
      if leb (length bytes) 2
      then err resource_descriptor_too_short
      else if length bytes == 3
      then irq_without_information bytes
      else if length bytes == 4
      then irq_with_information bytes
      else err resource_descriptor_too_long

  unfoldable pub dma_format_descriptor : List ℕ → Result Resource
  unfolding check_length index dma_speed dma_transfer
  dma_format_descriptor bytes = do
    check_length bytes 3
    mask ← index bytes 1
    options ← index bytes 2
    speeds ← dma_speed (bits.get_bits options 5 7)
    let master = bits.get_bit options 2
    preference ← dma_transfer (bits.get_bits options 0 2)
    ok (
        dma (record {
          channel_mask = mask;
          supported_speeds = speeds;
          is_bus_master = master;
          transfer_type_preference = preference;
        }))

  unfoldable pub io_port_descriptor : List ℕ → Result Resource
  unfolding check_length index slice
  io_port_descriptor bytes = do
    check_length bytes 8
    information ← index bytes 1
    min_bytes ← slice bytes 2 4
    max_bytes ← slice bytes 4 6
    alignment ← index bytes 6
    count ← index bytes 7
    ok (
        io_port (record {
          decodes_full_address = bits.get_bit information 0;
          port_range = (le.read_u16 min_bytes, le.read_u16 max_bytes);
          base_alignment = alignment;
          port_count = count;
        }))

  unfoldable pub extended_interrupt_descriptor : List ℕ → Result Resource
  unfolding index
  extended_interrupt_descriptor bytes =
      if ltb (length bytes) 9 then err resource_descriptor_too_short else do
        number_of_interrupts ← index bytes 4
        assert (number_of_interrupts == 1)
        b0 ← index bytes 5
        b1 ← index bytes 6
        b2 ← index bytes 7
        b3 ← index bytes 8
        flags ← index bytes 3
        ok (
            irq_resource (record {
              is_consumer = bits.get_bit flags 0;
              trigger = trigger_of (bits.get_bit flags 1);
              polarity = polarity_of (bits.get_bit flags 2);
              is_shared = bits.get_bit flags 3;
              is_wake_capable = bits.get_bit flags 4;
              irq = le.read_u32 (b0 ∷ b1 ∷ b2 ∷ b3 ∷ []);
            }))

  -- The `match` on the type of a large descriptor.
  unfoldable pub large_descriptor : ℕ → List ℕ → Result Resource
  large_descriptor typ bytes =
      if typ == 0x06
      then fixed_memory_descriptor bytes
      else if typ == 0x07
      then address_space_descriptor 4 bytes
      else if typ == 0x08
      then address_space_descriptor 2 bytes
      else if typ == 0x09
      then extended_interrupt_descriptor bytes
      else if typ == 0x0a
      then address_space_descriptor 8 bytes
      else if typ == 0 || (leb 0x13 typ && leb typ 0x7f)
      then err reserved_resource_type
      else panic

  -- The `match` on the type of a small descriptor; `none` is the end tag.
  unfoldable pub small_descriptor : ℕ → List ℕ → Result (Option Resource)
  small_descriptor typ bytes =
      if leb typ 0x03 || (leb 0x0b typ && leb typ 0x0d)
      then err reserved_resource_type
      else if typ == 0x04
      then (irq_format_descriptor bytes >>= λ r. ok (some r))
      else if typ == 0x05
      then (dma_format_descriptor bytes >>= λ r. ok (some r))
      else if typ == 0x08
      then (io_port_descriptor bytes >>= λ r. ok (some r))
      else if typ == 0x0f
      then ok none
      else panic

  -- `return Ok((None, &[]))` at the end tag, and otherwise the resource with the bytes that remain.
  abbrev pub with_rest : List ℕ → Option Resource → Result (Option Resource × List ℕ)
  with_rest remaining none = ok (none, [])
  with_rest remaining (some r) = ok (some r, remaining)

  -- The two branches of `resource_descriptor`, with the first byte.
  unfoldable pub large_item : ℕ → List ℕ → Result (Option Resource × List ℕ)
  unfolding slice split_at large_descriptor
  large_item first bytes = do
    length_bytes ← slice bytes 1 3
    (descriptor_bytes, remaining) ← split_at bytes (le.read_u16 length_bytes + 3)
    descriptor ← large_descriptor (bits.get_bits first 0 7) descriptor_bytes
    ok (some descriptor, remaining)

  unfoldable pub small_item : ℕ → List ℕ → Result (Option Resource × List ℕ)
  unfolding split_at small_descriptor
  small_item first bytes = do
    (descriptor_bytes, remaining) ← split_at bytes (bits.get_bits first 0 3 + 1)
    descriptor ← small_descriptor (bits.get_bits first 3 7) descriptor_bytes
    with_rest remaining descriptor

  unfoldable pub resource_descriptor : List ℕ → Result (Option Resource × List ℕ)
  unfolding index large_item small_item
  resource_descriptor bytes = do
    first ← index bytes 0
    if bits.get_bit first 7 then large_item first bytes else small_item first bytes

  -- The loop of `resource_descriptor_list`, with what it has pushed; `none` says that the fuel ran
  -- out.
  unfoldable pub descriptors_from : ℕ → List Resource → List ℕ → Option (Result (List Resource))
  descriptors_from zero found bytes = none
  descriptors_from (suc fuel) found [] = some (ok found)
  descriptors_from (suc fuel) found (b ∷ bs) = elim (resource_descriptor (b ∷ bs)) [
    | ok (some r, rest) ↦ descriptors_from fuel (found ++ r ∷ []) rest
    | ok (none, rest) ↦ some (ok found)
    | err e ↦ some (err e)
    | panic ↦ some panic
  ]

  -- `resource_descriptor_list`: a round for each byte and one to stop.
  unfoldable pub resource_descriptor_list : Buffers → AmlValue → Option (Result (List Resource))
  unfolding type_of
  resource_descriptor_list store (buffer a) =
      let bytes = bytes_of store a in descriptors_from (length bytes + 1) [] bytes
  resource_descriptor_list store v =
      some (err (incompatible_value_conversion (type_of v) AmlType.buffer))
