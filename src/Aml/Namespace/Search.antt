-- ===== src/Aml/Namespace/Search.antt =====
-- aml/src/namespace.rs: the loop of `Namespace::search` ends, and finds the nearest scope upwards
-- that has the name.
use acpi_rs.Prelude.{
  ℕ, suc, ◌≡◌, refl, sym, ap, ◌∙◌, true, List, [], ◌∷◌, ◌++◌, length, length-append, Option, some,
  none, ok, err, Option-cases, inl, inr, arith,
}
use acpi_rs.Aml.Types.{NameSeg, root, segment, AmlName, AmlError, Result, value_does_not_exist}
use acpi_rs.Map.{seg_ord}
use acpi_rs.Aml.Name.{
  is_absolute, is_normal, parent, parent_of, normalize, from_name_seg, search_rules_apply,
}
use acpi_rs.Aml.Name.Resolve.{parent-resolve}
use acpi_rs.Aml.Level.{Level}
use acpi_rs.Aml.Level.Laws.{level_at, absolute, map-push}
use acpi_rs.Aml.Level.Handles.{handle_at, handle_at-level_at, handle_at_missing}
use acpi_rs.Aml.Namespace.{Namespace, look_in, next_scope, climb, search}
use acpi_rs.Aml.Namespace.Values.{
  get_level_for_path-found, get_level_for_path-missing, is_normal-segments,
}

-- The segments of a scope, which `nearest` has from the innermost one outwards.
abbrev pub from_top : List NameSeg → List NameSeg
from_top [] = []
from_top (r ∷ rs) = from_top rs ++ r ∷ []

-- The innermost scope that has a handle under the name, with the handle.
unfoldable pub nearest : Level → NameSeg → List NameSeg → Option (List NameSeg × ℕ)
nearest l s [] = elim (handle_at [] s l) [ some h ↦ some ([], h) | none ↦ none ]
nearest l s (r ∷ rs) = elim (handle_at (from_top (r ∷ rs)) s l) [
  | some h ↦ some (from_top (r ∷ rs), h)
  | none ↦ nearest l s rs
]

-- What `search` returns for it.
abbrev pub found_in : NameSeg → Option (List NameSeg × ℕ) → Result (AmlName × ℕ)
found_in s (some (qs, h)) = ok (absolute (qs ++ s ∷ []), h)
found_in s none = err (value_does_not_exist (from_name_seg s))

absolute-push :
    (qs : List NameSeg) (s : NameSeg) → absolute (qs ++ s ∷ []) ≡ absolute qs ++ segment s ∷ []
absolute-push qs s = ap (λ t. root ∷ t) (map-push qs s)

absolute-is_absolute : (qs : List NameSeg) → is_absolute (absolute qs) ≡ true
unfolding is_absolute
absolute-is_absolute qs = refl

absolute-is_normal : (qs : List NameSeg) → is_normal (absolute qs) ≡ true
unfolding is_normal
absolute-is_normal qs = is_normal-segments qs

length-absolute : (rs : List NameSeg) → length (absolute (from_top rs)) ≡ suc (length rs)
length-absolute [] = refl
length-absolute (r ∷ rs) =
    ap length (absolute-push (from_top rs) r)
    ∙ (length-append (absolute (from_top rs)) (segment r ∷ [])
        ∙ (omega (arith, length-absolute rs)))

-- One round looks the name up in its scope.
found_at : List NameSeg → NameSeg → Option ℕ → Option (AmlName × ℕ)
found_at qs s none = none
found_at qs s (some h) = some (absolute (qs ++ s ∷ []), h)

look_in-handle_at {ℓ} :
    {V : Type ℓ} (ns : Namespace V) (s : NameSeg) (qs : List NameSeg)
    → look_in ns (from_name_seg s) (absolute qs) ≡ ok (found_at qs s (handle_at qs s ns.root_level))
unfolding look_in found_at
look_in-handle_at ns s qs =
    let resolved =
      (parent-resolve s (absolute qs) (absolute-is_absolute qs) (absolute-is_normal qs)).0 in
    rw (resolved ∙ ap ok (sym (absolute-push qs s)))
      (elim (Option-cases (level_at qs ns.root_level)) [
        | inl e ↦
            let (p, missing) = get_level_for_path-missing qs s ns.root_level e in
            ground (arith, missing, handle_at_missing qs s ns.root_level e)
        | inr (m, e) ↦ ground (
          arith,
          get_level_for_path-found qs s ns.root_level m e,
          handle_at-level_at qs s ns.root_level m e,
        )
      ])

next_scope-push :
    (qs : List NameSeg) (r : NameSeg) (x : AmlError)
    → next_scope (absolute (qs ++ r ∷ [])) x ≡ ok (absolute qs)
unfolding next_scope
next_scope-push qs r x =
    let up = (parent-resolve r (absolute qs) (absolute-is_absolute qs) (absolute-is_normal qs)).1 in
    rw (ap parent (absolute-push qs r) ∙ up, next_scope) refl

next_scope-root : (x : AmlError) → next_scope (absolute []) x ≡ err x
unfolding next_scope parent parent_of normalize is_normal
next_scope-root x = refl

climb-nearest {ℓ} :
    {V : Type ℓ} (ns : Namespace V) (s : NameSeg) (rs : List NameSeg)
    → climb
        (look_in ns (from_name_seg s))
        (value_does_not_exist (from_name_seg s))
        (suc (length rs))
        (absolute (from_top rs))
      ≡ some (found_in s (nearest ns.root_level s rs))
unfolding climb nearest found_at
climb-nearest ns s [] = elim (Option-cases (handle_at [] s ns.root_level)) [
  | inl e ↦
      let round = look_in-handle_at ns s [] ∙ ap (λ t. ok (found_at [] s t)) e in
      rw (round, climb)
        (rw (next_scope-root (value_does_not_exist (from_name_seg s)), climb)
          (rw (e, nearest) refl))
  | inr (h, e) ↦
      let round = look_in-handle_at ns s [] ∙ ap (λ t. ok (found_at [] s t)) e in
      rw (round, climb) (rw (e, nearest) refl)
]
climb-nearest ns s (r ∷ rs) = elim (Option-cases (handle_at (from_top (r ∷ rs)) s ns.root_level)) [
  | inl e ↦
      let round =
        look_in-handle_at ns s (from_top (r ∷ rs))
        ∙ ap (λ t. ok (found_at (from_top (r ∷ rs)) s t)) e in
      rw (round, climb)
        (rw (next_scope-push (from_top rs) r (value_does_not_exist (from_name_seg s)), climb)
          (rw (e, nearest) (climb-nearest ns s rs)))
  | inr (h, e) ↦
      let round =
        look_in-handle_at ns s (from_top (r ∷ rs))
        ∙ ap (λ t. ok (found_at (from_top (r ∷ rs)) s t)) e in
      rw (round, climb) (rw (e, nearest) refl)
]

module _ {ℓ} {V : Type ℓ} where
  -- `search` for a single segment, from any scope of segments, ends. It returns the handle and the
  -- full path in the innermost scope that has the name, and fails with `ValueDoesNotExist` when no
  -- scope up to the root has it.
  pub search-nearest :
      (ns : Namespace V) (s : NameSeg) (rs : List NameSeg)
      → search ns (from_name_seg s) (absolute (from_top rs))
        ≡ some (found_in s (nearest ns.root_level s rs))
  unfolding search search_rules_apply is_absolute
  search-nearest ns s rs = rw (length-absolute rs) (climb-nearest ns s rs)
