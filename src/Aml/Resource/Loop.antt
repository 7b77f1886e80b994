-- ===== src/Aml/Resource/Loop.antt =====
-- aml/src/resource.rs: the loop over the descriptors of a buffer ends, on every buffer.
use acpi_rs.Prelude.{
  ℕ, zero, suc, ◌+◌, ◌<◌, ◌≡◌, refl, sym, List, [], ◌∷◌, ◌++◌, length, length-drop, ok, err, panic,
  Option, some, none, arith, >>=-eq-ok, Outcome-cases, Bool-cases, inl, inr,
}
use acpi_rs.BitField.{BitField}
use acpi_rs.Bytes.Slices.{LittleEndian, slice, split_at}
use acpi_rs.Aml.Types.{Result}
use acpi_rs.Aml.Value.{AmlValue, buffer}
use acpi_rs.Aml.Value.Buffers.{Buffers, bytes_of}
use acpi_rs.Aml.Resource.Types.{Resource}
use acpi_rs.Aml.Resource.{
  large_item, small_item, large_descriptor, small_descriptor, resource_descriptor, descriptors_from,
  resource_descriptor_list, with_rest,
}

split_at-shorter :
    {E : Type 0} (xs : List ℕ) (p : List ℕ × List ℕ) (n : ℕ)
    → 0 < n
    → split_at {E = E} xs n ≡ ok p
    → length p.1 < length xs
unfolding split_at
split_at-shorter xs p n h k = ground (arith, length-drop n xs)

module _ ⦃bits : BitField⦄ ⦃le : LittleEndian⦄ where
  large_item-shorter :
      (first : ℕ) (bytes rest : List ℕ) (r : Resource)
      → large_item first bytes ≡ ok (some r, rest)
      → length rest < length bytes
  unfolding large_item
  large_item-shorter first bytes rest r h =
      let (length_bytes, _, h1) = >>=-eq-ok (slice bytes 1 3) _ h in
      let n = le.read_u16 length_bytes + 3 in
      let (pair, e, h2) = >>=-eq-ok (split_at bytes n) _ h1 in
      let (d, _, h3) = >>=-eq-ok (large_descriptor (bits.get_bits first 0 7) pair.0) _ h2 in
      let same : pair.1 ≡ rest = cc (h3) in
      rw (sym same) (split_at-shorter bytes pair n (omega arith) e)

  small_item-shorter :
      (first : ℕ) (bytes rest : List ℕ) (r : Resource)
      → small_item first bytes ≡ ok (some r, rest)
      → length rest < length bytes
  unfolding small_item
  small_item-shorter first bytes rest r h =
      let n = bits.get_bits first 0 3 + 1 in
      let (pair, e, h1) = >>=-eq-ok (split_at bytes n) _ h in
      let (d, _, h2) = >>=-eq-ok (small_descriptor (bits.get_bits first 3 7) pair.0) _ h1 in
      let same : pair.1 ≡ rest = with_rest-some d pair.1 rest r h2 in
      rw (sym same) (split_at-shorter bytes pair n (omega arith) e)
    where
      with_rest-some :
          (d : Option Resource) (xs ys : List ℕ) (s : Resource)
          → with_rest xs d ≡ ok (some s, ys)
          → xs ≡ ys
      with_rest-some none xs ys s k = cc
      with_rest-some (some q) xs ys s k = cc

  -- A resource consumes at least one byte.
  resource_descriptor-shorter :
      (b : ℕ) (bs rest : List ℕ) (r : Resource)
      → resource_descriptor (b ∷ bs) ≡ ok (some r, rest)
      → length rest < length (b ∷ bs)
  unfolding resource_descriptor
  resource_descriptor-shorter b bs rest r h = elim (Bool-cases (bits.get_bit b 7)) [
    | inl e ↦ large_item-shorter b (b ∷ bs) rest r (rw e at h)
    | inr e ↦ small_item-shorter b (b ∷ bs) rest r (rw e at h)
  ]

  descriptors_from-total :
      (fuel : ℕ) (found : List Resource) (bytes : List ℕ)
      → length bytes < fuel
      → (r : Result (List Resource)) × (descriptors_from fuel found bytes ≡ some r)
  unfolding descriptors_from
  descriptors_from-total zero found bytes h = elim h [ ]
  descriptors_from-total (suc fuel) found [] h = (ok found, refl)
  descriptors_from-total (suc fuel) found (b ∷ bs) h =
      elim (Outcome-cases (resource_descriptor (b ∷ bs))) [
        | inl ((some r, rest), e) ↦
            let shorter = resource_descriptor-shorter b bs rest r e in
            rw (e, descriptors_from)
              (descriptors_from-total fuel (found ++ r ∷ []) rest (omega (arith, h, shorter)))
        | inl ((none, rest), e) ↦ rw (e, descriptors_from) (ok found, refl)
        | inr (inl (x, e)) ↦ rw (e, descriptors_from) (err x, refl)
        | inr (inr e) ↦ rw (e, descriptors_from) (panic, refl)
      ]

  -- resource_descriptor_list ends on every value and every buffer: a round for each byte, and one to
  -- stop, are enough.
  pub resource_descriptor_list-total :
      (store : Buffers) (v : AmlValue)
      → (r : Result (List Resource)) × (resource_descriptor_list store v ≡ some r)
  unfolding resource_descriptor_list
  resource_descriptor_list-total store (buffer a) =
      descriptors_from-total (length (bytes_of store a) + 1) [] (bytes_of store a) (omega arith)
  resource_descriptor_list-total store _ = (_, refl)
