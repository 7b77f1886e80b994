-- ===== src/Aml/Level/Growth.antt =====
-- aml/src/namespace.rs: which handles a walk through the tree with `&mut` can leave behind, for any
-- path that it is given.
use acpi_rs.Prelude.{
  ℕ, ◌≡◌, refl, sym, ap, ◌∙◌, ◌⊎◌, inl, inr, List, [], ◌∷◌, ◌++◌, some, ok, err, panic, >>=-eq-ok,
  Ordering, arith, Option-cases,
}
use acpi_rs.Aml.Types.{
  NameSeg, cmp_seg, eq_of_cmp_seg, NameComponent, root, prefix, segment, AmlName, Result,
}
use acpi_rs.Aml.Name.{root_name}
use acpi_rs.Map
use acpi_rs.Map.{on_eq, seg_ord}
use acpi_rs.Aml.Level.{
  Level, children_of, find_child, set_child, descend, descend_mut, split_path, get_level_for_path,
  get_level_for_path_mut,
}
use acpi_rs.Aml.Level.Laws.{level_at}
use acpi_rs.Aml.Level.Handles.{handle_at, handle_at-set_child, handle_at-child, values_of-set_child}

-- Every handle of the new level was at the same path in the old one, or is allowed by `P`.
abbrev pub AddsOnly : (ℕ → Type 0) → Level → Level → Type 0
AddsOnly P old next =
    (qs : List NameSeg) (q : NameSeg) (h : ℕ)
    → handle_at qs q next ≡ some h
    → (handle_at qs q old ≡ some h) ⊎ P h

-- A path that starts with another child than the one rewritten is as it was.
pub on_eq-cases {ℓ} :
    {A : Type ℓ} (c s : NameSeg) (x y : A) {z : A}
    → on_eq (cmp_seg c s) x y ≡ z
    → ((c ≡ s) × (x ≡ z)) ⊎ (y ≡ z)
on_eq-cases c s x y {z = z} h = go (cmp_seg c s) refl h
  where
    go : (o : Ordering) → cmp_seg c s ≡ o → on_eq o x y ≡ z → ((c ≡ s) × (x ≡ z)) ⊎ (y ≡ z)
    go Ordering.lt e k = inr k
    go Ordering.eq e k = inl (eq_of_cmp_seg c s e, k)
    go Ordering.gt e k = inr k

set_child-AddsOnly :
    (P : ℕ → Type 0) (s : NameSeg) (x l next : Level)
    → find_child s (children_of l) ≡ some next
    → AddsOnly P next x
    → AddsOnly P l (set_child s x l)
unfolding handle_at
set_child-AddsOnly P s x l next e adds [] q h k =
    inl (ap (Map.get q) (sym (values_of-set_child s x l)) ∙ k)
set_child-AddsOnly P s x l next e adds (c ∷ cs) q h k =
    elim (on_eq-cases c s _ _ (sym (handle_at-set_child s x l next c cs q e) ∙ k)) [
      | inr old ↦ inl old
      | inl (same, new) ↦ elim (adds cs q h new) [
        | inl old ↦
            inl (
              handle_at-child c cs q l next (ap (λ t. find_child t (children_of l)) same ∙ e) ∙ old)
        | inr allowed ↦ inr allowed
      ]
    ]

module _ {ℓ} {A : Type ℓ} (P : ℕ → Type 0) where
  descend_mut-AddsOnly :
      (l : Level) (walked : AmlName) (cs : List NameComponent) (act : Level → Result A × Level)
      → ((x : Level) → AddsOnly P x (act x).1)
      → AddsOnly P l (descend_mut l walked cs act).1
  unfolding descend_mut
  descend_mut-AddsOnly l walked [] act adds = adds l
  descend_mut-AddsOnly l walked (root ∷ cs) act adds = λ qs q h k. inl k
  descend_mut-AddsOnly l walked (prefix ∷ cs) act adds = λ qs q h k. inl k
  descend_mut-AddsOnly l walked (segment s ∷ cs) act adds =
      elim (Option-cases (find_child s (children_of l))) [
        | inl e ↦ rw (e, descend_mut) (λ qs q h k. inl k)
        | inr (next, e) ↦
            rw (e, descend_mut)
              (set_child-AddsOnly P s _ l next e
                (descend_mut-AddsOnly next (walked ++ segment s ∷ []) cs act adds))
      ]

  -- A walk with `&mut` leaves only handles that were there or that its action adds.
  pub get_level_for_path_mut-AddsOnly :
      (l : Level) (path : AmlName) (act : Level → NameSeg → Result A × Level)
      → ((x : Level) (s : NameSeg) → AddsOnly P x (act x s).1)
      → AddsOnly P l (get_level_for_path_mut l path act).1
  unfolding get_level_for_path_mut
  get_level_for_path_mut-AddsOnly l path act adds = go (split_path path)
    where
      go :
          (r : Result (List NameComponent × NameSeg))
          → AddsOnly P l
              (elim r as (λ _. Result A × Level) [
                | ok (levels, last) ↦ descend_mut l (root ∷ []) levels (λ x. act x last)
                | err e ↦ (err e, l)
                | panic ↦ (panic, l)
              ]).1
      go (ok (levels, last)) =
          descend_mut-AddsOnly l (root ∷ []) levels (λ x. act x last) (λ x. adds x last)
      go (err e) = λ qs q h k. inl k
      go panic = λ qs q h k. inl k

-- A level that the walk reaches stands at some path of segments.
descend_reached :
    (l : Level) (walked : AmlName) (cs : List NameComponent) (m : Level)
    → descend l walked cs ≡ ok m
    → (ss : List NameSeg) × (level_at ss l ≡ some m)
unfolding descend level_at
descend_reached l walked [] m h = ([], ground arith)
descend_reached l walked (root ∷ cs) m h = cc
descend_reached l walked (prefix ∷ cs) m h = cc
descend_reached l walked (segment s ∷ cs) m h = elim (Option-cases (find_child s (children_of l))) [
  | inl e ↦ cc (rw (e, descend) at h)
  | inr (next, e) ↦
      let (ss, found) =
        descend_reached next (walked ++ segment s ∷ []) cs m (rw (e, descend) at h) in
      (s ∷ ss, rw (e, level_at) found)
]

pub get_level_for_path_reached :
    (l : Level) (path : AmlName) (m : Level) (s : NameSeg)
    → get_level_for_path l path ≡ ok (m, s)
    → (ss : List NameSeg) × (level_at ss l ≡ some m)
unfolding get_level_for_path
get_level_for_path_reached l path m s h =
    let (split, at_split, rest) = >>=-eq-ok (split_path path) _ h in
    let (found, at_found, same) = >>=-eq-ok (descend l root_name split.0) _ rest in
    let (ss, reached) = descend_reached l root_name split.0 found at_found in
    (ss, ground (arith, reached, same))
