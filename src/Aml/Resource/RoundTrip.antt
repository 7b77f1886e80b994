-- ===== src/Aml/Resource/RoundTrip.antt =====
-- aml/src/resource.rs: a buffer of descriptors and the list of its resources.
use acpi_rs.Prelude.{
  ℕ, zero, suc, ◌+◌, ◌<◌, ◌≡◌, refl, ◌∙◌, List, [], ◌∷◌, ◌++◌, append_assoc, append-nil, length,
  length-append, panic, ok, some, none, arith,
}
use acpi_rs.BitField.{BitField}
use acpi_rs.Bytes.Slices.{LittleEndian}
use acpi_rs.Aml.Value.{buffer}
use acpi_rs.Aml.Value.Buffers.{Buffers, bytes_of}
use acpi_rs.Aml.Resource.Types.{
  Resource, irq_resource, address_space, memory, fixed_location, io_port, dma,
}
use acpi_rs.Aml.Resource.Encode.{encode, IsEncodable, resource_descriptor-encode}
use acpi_rs.Aml.Resource.{resource_descriptor, descriptors_from, resource_descriptor_list}

-- The descriptors of a list of resources, and the end tag with its checksum.
unfoldable pub encode_list : List Resource → ℕ → List ℕ
encode_list [] checksum = 0x79 ∷ checksum ∷ []
encode_list (r ∷ rs) checksum = encode r ++ encode_list rs checksum

abbrev pub AllEncodable : List Resource → Type 0
AllEncodable [] = Unit {0}
AllEncodable (r ∷ rs) = IsEncodable r × AllEncodable rs

length-encode_list :
    (rs : List Resource) (checksum : ℕ) → length rs < length (encode_list rs checksum)
unfolding encode_list
length-encode_list [] checksum = omega arith
length-encode_list (r ∷ rs) checksum = omega (
  arith,
  length-encode_list rs checksum,
  length-append (encode r) (encode_list rs checksum),
  some_bytes r,
)
  where
    some_bytes : (r : Resource) → 0 < length (encode r)
    some_bytes (irq_resource d) = omega arith
    some_bytes (address_space d) = omega arith
    some_bytes (memory (fixed_location w b n)) = omega arith
    some_bytes (io_port d) = omega arith
    some_bytes (dma d) = omega arith

module _ ⦃bits : BitField⦄ ⦃le : LittleEndian⦄ where
  resource_descriptor-end :
      (checksum : ℕ) → resource_descriptor (0x79 ∷ checksum ∷ []) ≡ ok (none, [])
  unfolding resource_descriptor
  resource_descriptor-end checksum =
      rw (bits.get_bit_lem 0x79 7, bits.get_bits_lem 0x79 0 3 (omega arith))
        (rw (bits.get_bits_lem 0x79 3 7 (omega arith)) refl)

  resource_descriptor-empty : resource_descriptor [] ≡ panic
  unfolding resource_descriptor
  resource_descriptor-empty = refl

  descriptors_from-step :
      (fuel : ℕ) (found : List Resource) (bytes rest : List ℕ) (r : Resource)
      → resource_descriptor bytes ≡ ok (some r, rest)
      → descriptors_from (suc fuel) found bytes ≡ descriptors_from fuel (found ++ r ∷ []) rest
  unfolding descriptors_from
  descriptors_from-step fuel found [] rest r h = cc (h, resource_descriptor-empty)
  descriptors_from-step fuel found (b ∷ bs) rest r h = rw (h, descriptors_from) refl

  descriptors_from-encode_list :
      (fuel : ℕ) (found rs : List Resource) (checksum : ℕ)
      → length rs < fuel
      → AllEncodable rs
      → descriptors_from fuel found (encode_list rs checksum) ≡ some (ok (found ++ rs))
  unfolding encode_list
  descriptors_from-encode_list zero found rs checksum h k = elim h [ ]
  descriptors_from-encode_list (suc fuel) found [] checksum h k =
      unfold descriptors_from in
      rw (resource_descriptor-end checksum, descriptors_from) (rw (append-nil found) refl)
  descriptors_from-encode_list (suc fuel) found (r ∷ rs) checksum h k =
      descriptors_from-step fuel found (encode (r) ++ encode_list rs checksum)
        (encode_list rs checksum) r (resource_descriptor-encode r (encode_list rs checksum) k.0)
      ∙ descriptors_from-encode_list fuel (found ++ r ∷ []) rs checksum (omega (arith, h)) k.1
      ∙ (rw (append_assoc found (r ∷ []) rs) refl)

  -- A buffer that holds the descriptors of any number of resources, whose numbers fit their fields,
  -- and the end tag is read back as the list of those resources.
  pub resource_descriptor_list-encode_list :
      (store : Buffers) (a : ℕ) (rs : List Resource) (checksum : ℕ)
      → bytes_of store a ≡ encode_list rs checksum
      → AllEncodable rs
      → resource_descriptor_list store (buffer a) ≡ some (ok rs)
  unfolding resource_descriptor_list
  resource_descriptor_list-encode_list store a rs checksum h k = rw h (
      descriptors_from-encode_list (length (encode_list rs checksum) + 1) [] rs checksum
        (omega (arith, length-encode_list rs checksum)) k)
