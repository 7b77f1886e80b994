-- ===== src/Map.antt =====
-- `alloc::collections::BTreeMap`, which the namespace keeps its levels, values and objects in: the
-- entries in the order of their keys. `Ord` is what the map asks of a key's comparison.
use acpi_rs.Prelude.{ℕ, compare, Ordering, ◌≡◌, refl, List, [], ◌∷◌, Option, some, none, arith}
use acpi_rs.Aml.Types.{NameSeg, cmp_seg, cmp_seg_refl, eq_of_cmp_seg}

pub record Ord {ℓ} (K : Type ℓ) : Type ℓ where
  pub cmp : K → K → Ordering
  pub cmp_refl : (a : K) → cmp a a ≡ Ordering.eq
  pub eq_of_cmp : (a b : K) → cmp a b ≡ Ordering.eq → a ≡ b

-- The first value if the keys compared equal, the second if not.
abbrev pub on_eq {ℓ} : {A : Type ℓ} → Ordering → A → A → A
on_eq Ordering.lt x y = y
on_eq Ordering.eq x y = x
on_eq Ordering.gt x y = y

module _ {ℓ κ} {K : Type ℓ} {V : Type κ} ⦃o : Ord K⦄ where
  unfoldable pub get : K → List (K × V) → Option V
  get k [] = none
  get k ((j, v) ∷ m) = on_eq (o.cmp k j) (some v) (get k m)

  unfoldable pub insert : K → V → List (K × V) → List (K × V)
  insert k v [] = (k, v) ∷ []
  insert k v ((j, w) ∷ m) = elim (o.cmp k j) [
    | Ordering.lt ↦ (k, v) ∷ (j, w) ∷ m
    | Ordering.eq ↦ (k, v) ∷ m
    | Ordering.gt ↦ (j, w) ∷ insert k v m
  ]

  pub get-insert :
      (k j : K) (v : V) (m : List (K × V))
      → get k (insert j v m) ≡ on_eq (o.cmp k j) (some v) (get k m)
  unfolding get insert
  get-insert k j v [] = refl
  get-insert k j v ((i, w) ∷ m) = ground (
    arith,
    o.eq_of_cmp j i,
    o.eq_of_cmp k i,
    o.eq_of_cmp k j,
    o.cmp_refl j,
    o.cmp_refl i,
    get-insert k j v m,
  )

  pub get-insert_self : (k : K) (v : V) (m : List (K × V)) → get k (insert k v m) ≡ some v
  get-insert_self k v m = rw (get-insert k k v m, o.cmp_refl k)

pub nat_cmp_refl : (a : ℕ) → compare a a ≡ Ordering.eq
nat_cmp_refl a = ground arith

pub eq_of_nat_cmp : (a b : ℕ) → compare a b ≡ Ordering.eq → a ≡ b
eq_of_nat_cmp a b h = ground arith

instance abbrev pub nat_ord : Ord ℕ
nat_ord = record { cmp = compare; cmp_refl = nat_cmp_refl; eq_of_cmp = eq_of_nat_cmp }

instance abbrev pub seg_ord : Ord NameSeg
seg_ord = record { cmp = cmp_seg; cmp_refl = cmp_seg_refl; eq_of_cmp = eq_of_cmp_seg }
