-- ===== src/Aml/Resource/Encode.antt =====
-- aml/src/resource.rs: the descriptors of resources as the ACPI specification lays them out, and that
-- the parsers read them back.
use acpi_rs.Prelude.{
  ℕ, ◌+◌, ◌*◌, ◌^◌, ◌<◌, leb, ◌≡◌, refl, ◌∙◌, Bool, true, false, List, [], ◌∷◌, ◌++◌, length,
  length-append, drop, take-append_length, drop-append_length, ok, if◌then◌else◌, some, arith,
}
use acpi_rs.BitField.{BitField}
use acpi_rs.BitField.Pack.{five_flags, get_bit-five_flags}
use acpi_rs.Bytes.{le_bytes, from_le_bytes, from_le_bytes-le_bytes}
use acpi_rs.Bytes.Slices.{LittleEndian, index, slice, split_at}
use acpi_rs.Aml.Resource.Types.{
  InterruptTrigger, edge, level, InterruptPolarity, active_high, active_low, SpaceType,
  memory_range, io_range, bus_number_range, DecodeType, additive, subtractive,
  AddressSpaceDescriptor, fixed_location, IrqDescriptor, DmaSpeed, compatibility_mode, type_a,
  type_b, type_f, DmaTransfer, only_8_bit, both_8_and_16_bit, only_16_bit, DmaDescriptor,
  IoPortDescriptor, Resource, irq_resource, address_space, memory, io_port, dma,
}
use acpi_rs.Aml.Resource.{
  space_type, dma_speed, dma_transfer, fixed_memory_descriptor, address_space_descriptor,
  dma_format_descriptor, io_port_descriptor, extended_interrupt_descriptor, large_descriptor,
  small_descriptor, resource_descriptor,
}

abbrev pub is_edge : InterruptTrigger → Bool
is_edge edge = true
is_edge level = false

abbrev pub is_low : InterruptPolarity → Bool
is_low active_low = true
is_low active_high = false

abbrev pub space_byte : SpaceType → ℕ
space_byte memory_range = 0
space_byte io_range = 1
space_byte bus_number_range = 2

abbrev pub is_subtractive : DecodeType → Bool
is_subtractive subtractive = true
is_subtractive additive = false

abbrev pub speed_bits : DmaSpeed → ℕ
speed_bits compatibility_mode = 0
speed_bits type_a = 1
speed_bits type_b = 2
speed_bits type_f = 3

abbrev pub transfer_bits : DmaTransfer → ℕ
transfer_bits only_8_bit = 0
transfer_bits both_8_and_16_bit = 1
transfer_bits only_16_bit = 2

-- The body of a QWord address space descriptor.
abbrev pub space_body : AddressSpaceDescriptor → List ℕ
space_body d =
    space_byte d.resource_type
    ∷ five_flags false (is_subtractive d.decode_type) d.is_minimum_address_fixed
        d.is_maximum_address_fixed false
    ∷ 0
    ∷ (le_bytes 8 d.granularity
        ++ (le_bytes 8 d.address_range.0
            ++ (le_bytes 8 d.address_range.1
                ++ (le_bytes 8 d.translation_offset ++ le_bytes 8 d.space_length))))

-- An interrupt is written as an Extended Interrupt Descriptor, an address space as a QWord one.
abbrev pub encode : Resource → List ℕ
encode (irq_resource d) =
    0x89
    ∷ 6
    ∷ 0
    ∷ five_flags d.is_consumer (is_edge d.trigger) (is_low d.polarity) d.is_shared d.is_wake_capable
    ∷ 1
    ∷ le_bytes 4 d.irq
encode (address_space d) = 0x8a ∷ 43 ∷ 0 ∷ space_body d
encode (memory (fixed_location is_writable base range)) =
    0x86
    ∷ 9
    ∷ 0
    ∷ five_flags is_writable false false false false
    ∷ (le_bytes 4 base ++ le_bytes 4 range)
encode (io_port d) =
    0x47
    ∷ five_flags d.decodes_full_address false false false false
    ∷ (le_bytes 2 d.port_range.0
        ++ (le_bytes 2 d.port_range.1 ++ d.base_alignment ∷ d.port_count ∷ []))
encode (dma d) =
    0x2a
    ∷ d.channel_mask
    ∷ (transfer_bits d.transfer_type_preference
        + (if d.is_bus_master then 4 else 0)
        + speed_bits d.supported_speeds * 32)
    ∷ []

-- Every number fits its field.
abbrev pub IsEncodable : Resource → Type 0
IsEncodable (irq_resource d) = d.irq < 2 ^ 32
IsEncodable (address_space d) =
    (d.granularity < 2 ^ 64)
    × (d.address_range.0 < 2 ^ 64)
    × (d.address_range.1 < 2 ^ 64)
    × (d.translation_offset < 2 ^ 64)
    × (d.space_length < 2 ^ 64)
IsEncodable (memory (fixed_location w base range)) = (base < 2 ^ 32) × (range < 2 ^ 32)
IsEncodable (io_port d) = (d.port_range.0 < 2 ^ 16) × (d.port_range.1 < 2 ^ 16)
IsEncodable (dma d) = Unit {0}

slice_1_3 :
    {E : Type 0} (a b c : ℕ) (xs : List ℕ) → slice {E = E} (a ∷ b ∷ c ∷ xs) 1 3 ≡ ok (b ∷ c ∷ [])
unfolding slice
slice_1_3 a b c xs = ground arith

split_at-append :
    {E : Type 0} (xs rest : List ℕ) (n : ℕ)
    → n ≡ length xs
    → split_at {E = E} (xs ++ rest) n ≡ ok (xs, rest)
unfolding split_at
split_at-append xs rest n h = rw h (
    let test : leb (length xs) (length (xs ++ rest)) ≡ true =
      ground (arith, length-append xs rest) in
    rw test (rw (take-append_length xs rest, drop-append_length xs rest) refl))

read_uint-le_bytes : ⦃le : LittleEndian⦄ (x : ℕ) → x < 2 ^ 64 → le.read_uint (le_bytes 8 x) 8 ≡ x
read_uint-le_bytes ⦃le⦄ x h =
    le.read_uint_lem (le_bytes 8 x) 8 (omega arith) (omega arith) refl
    ∙ from_le_bytes-le_bytes 8 x (omega (arith, h))

read_u32-le_bytes : ⦃le : LittleEndian⦄ (x : ℕ) → x < 2 ^ 32 → le.read_u32 (le_bytes 4 x) ≡ x
read_u32-le_bytes ⦃le⦄ x h =
    le.read_u32_lem (le_bytes 4 x) refl ∙ from_le_bytes-le_bytes 4 x (omega (arith, h))

read_u16-le_bytes : ⦃le : LittleEndian⦄ (x : ℕ) → x < 2 ^ 16 → le.read_u16 (le_bytes 2 x) ≡ x
read_u16-le_bytes ⦃le⦄ x h =
    le.read_u16_lem (le_bytes 2 x) refl ∙ from_le_bytes-le_bytes 2 x (omega (arith, h))

module _ ⦃bits : BitField⦄ ⦃le : LittleEndian⦄ where
  resource_descriptor-large :
      (t lo hi : ℕ) (body rest : List ℕ) (r : Resource)
      → t < 128
      → length body ≡ lo + 256 * hi
      → large_descriptor t ((128 + t) ∷ lo ∷ hi ∷ body) ≡ ok r
      → resource_descriptor (((128 + t) ∷ lo ∷ hi ∷ body) ++ rest) ≡ ok (some r, rest)
  unfolding resource_descriptor index from_le_bytes
  resource_descriptor-large t lo hi body rest r small len h =
      let big : bits.get_bit (128 + t) 7 ≡ true =
        bits.get_bit_lem (128 + t) 7 ∙ (ground (arith, small)) in
      let typ : bits.get_bits (128 + t) 0 7 ≡ t =
        bits.get_bits_lem (128 + t) 0 7 (omega arith) ∙ (omega (arith, small)) in
      let size : le.read_u16 (lo ∷ hi ∷ []) + 3 ≡ length ((128 + t) ∷ lo ∷ hi ∷ body) =
        omega (arith, len, le.read_u16_lem (lo ∷ hi ∷ []) refl) in
      rw big (
        rw (slice_1_3 (128 + t) lo hi (body ++ rest)) (
          rw
            (split_at-append ((128 + t) ∷ lo ∷ hi ∷ body) rest (le.read_u16 (lo ∷ hi ∷ []) + 3)
              size)
            (rw typ (rw h refl))))

  resource_descriptor-small :
      (t n : ℕ) (body rest : List ℕ) (r : Resource)
      → t < 16
      → n < 8
      → length body ≡ n
      → small_descriptor t ((t * 8 + n) ∷ body) ≡ ok (some r)
      → resource_descriptor (((t * 8 + n) ∷ body) ++ rest) ≡ ok (some r, rest)
  unfolding resource_descriptor index
  resource_descriptor-small t n body rest r few small len h =
      let lead = t * 8 + n in
      let is_small : bits.get_bit lead 7 ≡ false =
        bits.get_bit_lem lead 7 ∙ (ground (arith, few, small)) in
      let count : bits.get_bits lead 0 3 ≡ n =
        bits.get_bits_lem lead 0 3 (omega arith) ∙ (omega (arith, small)) in
      let typ : bits.get_bits lead 3 7 ≡ t =
        bits.get_bits_lem lead 3 7 (omega arith) ∙ (omega (arith, few, small)) in
      let size : n + 1 ≡ length (lead ∷ body) = omega (arith, len) in
      rw is_small
        (rw count (rw (split_at-append (lead ∷ body) rest (n + 1) size) (rw typ (rw h refl))))

  -- Each descriptor, without what follows it.
  extended_interrupt-encode :
      (d : IrqDescriptor)
      → d.irq < 2 ^ 32
      → extended_interrupt_descriptor (encode (irq_resource d)) ≡ ok (irq_resource d)
  unfolding extended_interrupt_descriptor
  extended_interrupt-encode d h =
      let (p, q, r, s, t, _) =
        get_bit-five_flags d.is_consumer (is_edge d.trigger) (is_low d.polarity) d.is_shared
          d.is_wake_capable in
      rw (p, q, r, s, t) (rw (read_u32-le_bytes d.irq h) (ground (arith)))

  fixed_memory-encode :
      (w : Bool) (base range : ℕ)
      → base < 2 ^ 32
      → range < 2 ^ 32
      → fixed_memory_descriptor (encode (memory (fixed_location w base range)))
        ≡ ok (memory (fixed_location w base range))
  unfolding fixed_memory_descriptor
  fixed_memory-encode w base range h k =
      let p = (get_bit-five_flags w false false false false).0 in
      rw p (rw (read_u32-le_bytes base h) (rw (read_u32-le_bytes range k) refl))

  io_port-encode :
      (d : IoPortDescriptor)
      → d.port_range.0 < 2 ^ 16
      → d.port_range.1 < 2 ^ 16
      → io_port_descriptor (encode (io_port d)) ≡ ok (io_port d)
  unfolding io_port_descriptor
  io_port-encode d h k =
      let p = (get_bit-five_flags d.decodes_full_address false false false false).0 in
      rw p (rw (read_u16-le_bytes d.port_range.0 h) (rw (read_u16-le_bytes d.port_range.1 k) refl))

  module _ (m : Bool) (t s : ℕ) (ht : t < 3) (hs : s < 4) where
    dma_bits :
        let x = t + (if m then 4 else 0) + s * 32 in
        (bits.get_bits x 0 2 ≡ t) × (bits.get_bit x 2 ≡ m) × (bits.get_bits x 5 7 ≡ s)
    dma_bits =
        let x = t + (if m then 4 else 0) + s * 32 in
        (
          bits.get_bits_lem x 0 2 (omega arith) ∙ (ground (arith, ht)),
          bits.get_bit_lem x 2 ∙ (ground (arith, ht)),
          bits.get_bits_lem x 5 7 (omega arith) ∙ (ground (arith, ht, hs)),
        )

  speed_bits-below : (s : DmaSpeed) → speed_bits s < 4
  speed_bits-below s = ground arith

  transfer_bits-below : (t : DmaTransfer) → transfer_bits t < 3
  transfer_bits-below t = ground arith

  dma_speed-speed_bits : (s : DmaSpeed) → dma_speed (speed_bits s) ≡ ok s
  unfolding dma_speed
  dma_speed-speed_bits s = ground arith

  dma_transfer-transfer_bits : (t : DmaTransfer) → dma_transfer (transfer_bits t) ≡ ok t
  unfolding dma_transfer
  dma_transfer-transfer_bits t = ground arith

  dma-encode : (d : DmaDescriptor) → dma_format_descriptor (encode (dma d)) ≡ ok (dma d)
  unfolding dma_format_descriptor
  dma-encode d =
      let t = d.transfer_type_preference in
      let s = d.supported_speeds in
      let (p, q, r) =
        dma_bits d.is_bus_master (transfer_bits t) (speed_bits s) (transfer_bits-below t)
          (speed_bits-below s) in
      rw (r, q, p) (rw (dma_speed-speed_bits s) (rw (dma_transfer-transfer_bits t) refl))

  space_type-space_byte : (t : SpaceType) → space_type (space_byte t) ≡ ok t
  unfolding space_type
  space_type-space_byte t = ground arith

  address_space-encode :
      (d : AddressSpaceDescriptor)
      → IsEncodable (address_space d)
      → address_space_descriptor 8 (encode (address_space d)) ≡ ok (address_space d)
  unfolding address_space_descriptor
  address_space-encode d h =
      let (_, p, q, r, _, _) =
        get_bit-five_flags false (is_subtractive d.decode_type) d.is_minimum_address_fixed
          d.is_maximum_address_fixed false in
      rw (space_type-space_byte d.resource_type) (
        rw (p, q, r)
          (rw (read_uint-le_bytes d.granularity h.0) (
            rw (read_uint-le_bytes d.address_range.0 h.1) (
              rw (read_uint-le_bytes d.address_range.1 h.2) (
                rw (read_uint-le_bytes d.translation_offset h.3)
                  (rw (read_uint-le_bytes d.space_length h.4) (ground arith)))))))

  -- The parser reads back the descriptor of every resource whose numbers fit their fields, and leaves
  -- the bytes that follow.
  pub resource_descriptor-encode :
      (r : Resource) (rest : List ℕ)
      → IsEncodable r
      → resource_descriptor (encode r ++ rest) ≡ ok (some r, rest)
  unfolding large_descriptor small_descriptor
  resource_descriptor-encode (irq_resource d) rest h =
      let r = irq_resource d in
      resource_descriptor-large 9 6 0 (drop 3 (encode r)) rest r (omega arith) refl
        (extended_interrupt-encode d h)
  resource_descriptor-encode (address_space d) rest h =
      let r = address_space d in
      resource_descriptor-large 10 43 0 (drop 3 (encode r)) rest r (omega arith) refl
        (address_space-encode d h)
  resource_descriptor-encode (memory (fixed_location w base range)) rest h =
      let r = memory (fixed_location w base range) in
      resource_descriptor-large 6 9 0 (drop 3 (encode r)) rest r (omega arith) refl
        (fixed_memory-encode w base range h.0 h.1)
  resource_descriptor-encode (io_port d) rest h =
      let r = io_port d in
      resource_descriptor-small 8 7 (drop 1 (encode r)) rest r (omega arith) (omega arith) refl
        (rw (io_port-encode d h.0 h.1) refl)
  resource_descriptor-encode (dma d) rest h =
      let r = dma d in
      resource_descriptor-small 5 2 (drop 1 (encode r)) rest r (omega arith) (omega arith) refl
        (rw (dma-encode d) refl)
