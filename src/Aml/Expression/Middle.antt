-- ===== src/Aml/Expression/Middle.antt =====
-- aml/src/expression.rs: the part of a buffer that `def_mid` copies.
use acpi_rs.Prelude.{
  ℕ, ◌+◌, ◌-◌, ◌%◌, ◌^◌, ◌<◌, ◌≤◌, leb, ◌≡◌, refl, sym, ap, Bool-cases, inl, inr, true, List, [],
  ◌∷◌, zero, suc, length, length-drop, take, drop, ok, arith,
}
use acpi_rs.Aml.Types.{AmlError}
use acpi_rs.Bytes.Slices.{slice}
use acpi_rs.Aml.Expression.Operations.{mid}

take-all : (n : ℕ) (xs : List ℕ) → length xs ≤ n → take n xs ≡ xs
take-all zero [] h = refl
take-all zero (x ∷ xs) h = absurd (omega (arith, h))
take-all (suc n) [] h = refl
take-all (suc n) (x ∷ xs) h = ap (λ t. x ∷ t) (take-all n xs (omega (arith, h)))

drop-all : (n : ℕ) (xs : List ℕ) → length xs ≤ n → drop n xs ≡ []
drop-all zero [] h = refl
drop-all zero (x ∷ xs) h = absurd (omega (arith, h))
drop-all (suc n) [] h = refl
drop-all (suc n) (x ∷ xs) h = drop-all n xs (omega (arith, h))

slice-take :
    (xs : List ℕ) (index len : ℕ)
    → index + len ≤ length xs
    → slice {E = AmlError} xs index (index + len) ≡ ok (take len (drop index xs))
unfolding slice
slice-take xs index len h =
    let first : leb index (index + len) ≡ true = ground arith in
    let last : leb (index + len) (length xs) ≡ true = ground arith in
    let size : index + len - index ≡ len = omega arith in rw (first, last, size) refl

-- Mid gives the bytes from an index on, `len` of them at most, if the sum of both does not overflow.
pub mid-take :
    (bytes : List ℕ) (index len : ℕ)
    → index + len < 2 ^ 64
    → mid bytes index len ≡ ok (take len (drop index bytes))
unfolding mid
mid-take bytes index len h =
    let small : (index + len) % 2 ^ 64 ≡ index + len = omega (arith, h) in
    rw small (elim (Bool-cases (leb (length bytes) index)) [
      | inl e ↦
          let empty : drop index bytes ≡ [] = drop-all index bytes (ground (arith, e)) in
          rw (e, empty) (ap ok (sym (take-all len [] (omega arith))))
      | inr e ↦ rw e (elim (Bool-cases (leb (length bytes) (index + len))) [
        | inl f ↦ rw f (
            ap ok
              (sym (take-all len (drop index bytes) (ground (arith, f, length-drop index bytes)))))
        | inr f ↦ rw f (slice-take bytes index len (ground (arith, f)))
      ])
    ])
