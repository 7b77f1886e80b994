-- ===== src/Aml/Level/Handles.antt =====
-- aml/src/namespace.rs: the handles that the tree of levels holds, by path, and how a change at one
-- level shows in them.
use acpi_rs.Prelude.{
  ℕ, ◌≡◌, refl, sym, subst, ap, ◌∙◌, inl, inr, Bool, true, false, ◌&&◌, List, [], ◌∷◌, Option, some,
  none, arith, Option-cases, if◌then◌else◌,
}
use mathlib.Core.Option.{some-injective}
use acpi_rs.Aml.Types.{NameSeg, cmp_seg, seg_eq, eq_of_cmp_seg, seg_eq_iff, seg_eq_refl}
use acpi_rs.Map
use acpi_rs.Map.{on_eq, seg_ord}
use acpi_rs.Aml.Level.{Level, level, children_of, values_of, find_child, set_child}
use acpi_rs.Aml.Level.Laws.{level_at, update_at, find_child-set_child}

-- The handle that the name `s` has in the level at `ss`.
unfoldable pub handle_at : List NameSeg → NameSeg → Level → Option ℕ
handle_at [] s l = Map.get s (values_of l)
handle_at (c ∷ cs) s l = elim (find_child c (children_of l)) [
  | none ↦ none
  | some next ↦ handle_at cs s next
]

unfoldable pub path_eq : List NameSeg → List NameSeg → Bool
path_eq [] [] = true
path_eq [] (t ∷ ts) = false
path_eq (s ∷ ss) [] = false
path_eq (s ∷ ss) (t ∷ ts) = seg_eq s t && path_eq ss ts

pub values_of-set_child : (s : NameSeg) (l m : Level) → values_of (set_child s l m) ≡ values_of m
unfolding set_child
values_of-set_child s l (level t cs vs) = refl

-- A level read through its parent, where the parent has one child rewritten.
pub handle_at-set_child :
    (s : NameSeg) (x l next : Level) (c : NameSeg) (cs : List NameSeg) (q : NameSeg)
    → find_child s (children_of l) ≡ some next
    → handle_at (c ∷ cs) q (set_child s x l)
      ≡ on_eq (cmp_seg c s) (handle_at cs q x) (handle_at (c ∷ cs) q l)
unfolding handle_at
handle_at-set_child s x l next c cs q h = ground (arith, find_child-set_child c s x l h)

none-ne-some {ℓ} : {A : Type ℓ} {a : A} → ¬ (◌≡◌ {A = Option A} none (some a))
none-ne-some e = cc

pub handle_at-child :
    (c : NameSeg) (cs : List NameSeg) (q : NameSeg) (l next : Level)
    → find_child c (children_of l) ≡ some next
    → handle_at (c ∷ cs) q l ≡ handle_at cs q next
unfolding handle_at
handle_at-child c cs q l next h = rw (h, handle_at)

pub handle_at_children :
    (c : NameSeg) (cs : List NameSeg) (q : NameSeg) (l m : Level)
    → children_of l ≡ children_of m
    → handle_at (c ∷ cs) q l ≡ handle_at (c ∷ cs) q m
unfolding handle_at
handle_at_children c cs q l m h = rw (h, handle_at)

-- The level at the end of a path that has one, through its first step.
pub level_at-child :
    (s : NameSeg) (ss : List NameSeg) (l m : Level)
    → level_at (s ∷ ss) l ≡ some m
    → (next : Level) × (find_child s (children_of l) ≡ some next) × (level_at ss next ≡ some m)
unfolding level_at
level_at-child s ss l m h = elim (Option-cases (find_child s (children_of l))) [
  | inl e ↦ absurd (none-ne-some (sym (rw (e, level_at)) ∙ h))
  | inr (next, e) ↦ (next, e, rw (e, level_at) at h)
]

pub update_at-child :
    (s : NameSeg) (ss : List NameSeg) (f : Level → Level) (l next : Level)
    → find_child s (children_of l) ≡ some next
    → update_at (s ∷ ss) f l ≡ set_child s (update_at ss f next) l
unfolding update_at
update_at-child s ss f l next e = rw (e, update_at)

pub handle_at-update_at_child :
    (s : NameSeg) (ss : List NameSeg) (f : Level → Level) (l next : Level) (c : NameSeg)
    (cs : List NameSeg) (q : NameSeg)
    → find_child s (children_of l) ≡ some next
    → handle_at (c ∷ cs) q (update_at (s ∷ ss) f l)
      ≡ on_eq (cmp_seg c s) (handle_at cs q (update_at ss f next)) (handle_at (c ∷ cs) q l)
handle_at-update_at_child s ss f l next c cs q e =
    ap (handle_at (c ∷ cs) q) (update_at-child s ss f l next e)
    ∙ handle_at-set_child s (update_at ss f next) l next c cs q e

pub values_of-update_at_child :
    (s : NameSeg) (ss : List NameSeg) (f : Level → Level) (l next : Level)
    → find_child s (children_of l) ≡ some next
    → values_of (update_at (s ∷ ss) f l) ≡ values_of l
values_of-update_at_child s ss f l next e =
    ap values_of (update_at-child s ss f l next e) ∙ values_of-set_child s (update_at ss f next) l

-- Where a level's own values change and its children do not, the handle at a path is the one that
-- the changed level gives if the path leads there, and the old one if not.
pub handle_at-update_at :
    (ss : List NameSeg) (f : Level → Level) (l m : Level) (qs : List NameSeg) (q : NameSeg)
    → level_at ss l ≡ some m
    → children_of (f m) ≡ children_of m
    → handle_at qs q (update_at ss f l)
      ≡ (if path_eq qs ss then Map.get q (values_of (f m)) else handle_at qs q l)
unfolding level_at update_at path_eq handle_at seg_eq
handle_at-update_at [] f l m [] q h k = let same : l ≡ m = some-injective l m h in rw same
handle_at-update_at [] f l m (c ∷ cs) q h k =
    let same : l ≡ m = some-injective l m h in
    handle_at_children c cs q (f l) l (subst (λ x. children_of (f x) ≡ children_of x) (sym same) k)
handle_at-update_at (s ∷ ss) f l m [] q h k =
    let (next, e, rest) = level_at-child s ss l m h in
    ap (Map.get q) (values_of-update_at_child s ss f l next e)
handle_at-update_at (s ∷ ss) f l m (c ∷ cs) q h k =
    let (next, e, rest) = level_at-child s ss l m h in
    ground (
      arith,
      handle_at-update_at_child s ss f l next c cs q e,
      handle_at-update_at ss f next m cs q rest k,
      handle_at-child c cs q l next,
      eq_of_cmp_seg c s,
    )

pub handle_at-level_at :
    (ss : List NameSeg) (s : NameSeg) (l m : Level)
    → level_at ss l ≡ some m
    → handle_at ss s l ≡ Map.get s (values_of m)
unfolding level_at handle_at
handle_at-level_at [] s l m h = ap (λ x. Map.get s (values_of x)) (some-injective l m h)
handle_at-level_at (c ∷ cs) s l m h =
    let (next, e, rest) = level_at-child c cs l m h in
    handle_at-child c cs s l next e ∙ handle_at-level_at cs s next m rest

pub handle_at_missing :
    (ss : List NameSeg) (s : NameSeg) (l : Level) → level_at ss l ≡ none → handle_at ss s l ≡ none
unfolding level_at handle_at
handle_at_missing [] s l h = cc
handle_at_missing (c ∷ cs) s l h = elim (Option-cases (find_child c (children_of l))) [
  | inl e ↦ rw (e, handle_at)
  | inr (next, e) ↦ rw (e, handle_at) (handle_at_missing cs s next (rw (e, level_at) at h))
]

pub path_eq_refl : (ss : List NameSeg) → path_eq ss ss ≡ true
unfolding path_eq
path_eq_refl [] = refl
path_eq_refl (s ∷ ss) = rw (seg_eq_refl s) (path_eq_refl ss)

pub path_eq→eq : (qs ss : List NameSeg) → path_eq qs ss ≡ true → qs ≡ ss
unfolding path_eq
path_eq→eq [] [] h = refl
path_eq→eq [] (t ∷ ts) h = cc
path_eq→eq (s ∷ ss) [] h = cc
path_eq→eq (s ∷ ss) (t ∷ ts) h = ground (arith, (seg_eq_iff s t).0, path_eq→eq ss ts)
