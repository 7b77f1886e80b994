-- ===== src/Aml/Resource/Truncated.antt =====
-- aml/src/resource.rs: buffers that end inside a descriptor.
use acpi_rs.Prelude.{
  ℕ, suc, ◌+◌, ◌*◌, ◌%◌, ◌<◌, leb, ◌≡◌, refl, ◌∙◌, true, false, List, [], ◌∷◌, length, panic, arith,
}
use acpi_rs.BitField.{BitField}
use acpi_rs.Bytes.{from_le_bytes}
use acpi_rs.Bytes.Slices.{LittleEndian, split_at}
use acpi_rs.Aml.Resource.{resource_descriptor, large_item, small_item}

split_at-short : {E : Type 0} (xs : List ℕ) (n : ℕ) → length xs < n → split_at {E = E} xs n ≡ panic
unfolding split_at
split_at-short xs n h = ground (arith, h)

module _ ⦃bits : BitField⦄ ⦃le : LittleEndian⦄ where
  -- A buffer that ends before its first descriptor does, as the length in the descriptor says, makes
  -- resource_descriptor panic: for a small descriptor, and for a large one whose length is there.
  pub resource_descriptor-truncated :
      (b t lo hi : ℕ) (bs body : List ℕ)
      → b < 128
      → length bs < b % 8
      → t < 128
      → length body < lo + 256 * hi
      → (resource_descriptor (b ∷ bs) ≡ panic)
        × (resource_descriptor ((128 + t) ∷ lo ∷ hi ∷ body) ≡ panic)
  unfolding resource_descriptor large_item small_item from_le_bytes
  resource_descriptor-truncated b t lo hi bs body hb short ht few =
      let is_small : bits.get_bit b 7 ≡ false = bits.get_bit_lem b 7 ∙ (ground (arith, hb)) in
      let is_large : bits.get_bit (128 + t) 7 ≡ true =
        bits.get_bit_lem (128 + t) 7 ∙ (ground (arith, ht)) in
      let count : bits.get_bits b 0 3 ≡ b % 8 =
        bits.get_bits_lem b 0 3 (omega arith) ∙ (omega arith) in
      let n = le.read_u16 (lo ∷ hi ∷ []) + 3 in
      let room : leb 3 (suc (suc (suc (length body)))) ≡ true = ground arith in
      (
        rw is_small (
            rw (split_at-short (b ∷ bs) (bits.get_bits b 0 3 + 1) (omega (arith, count, short)))
              refl),
        rw is_large (
            rw room (
              rw
                (split_at-short ((128 + t) ∷ lo ∷ hi ∷ body) n
                  (omega (arith, few, le.read_u16_lem (lo ∷ hi ∷ []) refl)))
                refl)),
      )
