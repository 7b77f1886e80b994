-- ===== src/Aml/Level/Laws.antt =====
-- aml/src/namespace.rs: what a change at one level leaves of the others. Paths here are lists of
-- segments from the root, as `get_level_for_path` walks them.
use acpi_rs.Prelude.{
  ◌≡◌, refl, sym, ap, ◌∙◌, List, [], ◌∷◌, ◌++◌, map, Option, some, none, ok, err, arith,
  get_last?-push, drop_last-push, Option-cases, inl, inr,
}
use mathlib.Core.Option.{some-injective}
use acpi_rs.Aml.Types.{
  NameSeg, cmp_seg, cmp_seg_refl, eq_of_cmp_seg, NameComponent, root, segment, AmlName, Result,
  level_does_not_exist,
}
use acpi_rs.Map.{on_eq}
use acpi_rs.Aml.Level.{
  Level, level, Children, child, no_children, children_of, find_child, insert_child, remove_child,
  set_child, write_child, split_path, split_tail, descend, descend_mut,
}

pub find_child-insert_child :
    (s t : NameSeg) (l : Level) (cs : Children)
    → find_child s (insert_child t l cs) ≡ on_eq (cmp_seg s t) (some l) (find_child s cs)
unfolding find_child insert_child
find_child-insert_child s t l no_children = refl
find_child-insert_child s t l (child u m cs) = ground (
  arith,
  eq_of_cmp_seg t u,
  eq_of_cmp_seg s u,
  eq_of_cmp_seg s t,
  cmp_seg_refl t,
  cmp_seg_refl u,
  find_child-insert_child s t l cs,
)

pub find_child-remove_child :
    (s t : NameSeg) (cs : Children)
    → find_child s (remove_child t cs) ≡ on_eq (cmp_seg s t) none (find_child s cs)
unfolding find_child remove_child
find_child-remove_child s t no_children = ground arith
find_child-remove_child s t (child u m cs) = ground (
  arith,
  eq_of_cmp_seg t u,
  eq_of_cmp_seg s u,
  eq_of_cmp_seg s t,
  cmp_seg_refl t,
  find_child-remove_child s t cs,
)

find_child-write_child :
    (s t : NameSeg) (l : Level) (cs : Children) (m : Level)
    → find_child t cs ≡ some m
    → find_child s (write_child t l cs) ≡ on_eq (cmp_seg s t) (some l) (find_child s cs)
unfolding find_child write_child
find_child-write_child s t l no_children m h = cc
find_child-write_child s t l (child u x cs) m h = ground (
  arith,
  eq_of_cmp_seg t u,
  eq_of_cmp_seg s u,
  eq_of_cmp_seg s t,
  cmp_seg_refl t,
  cmp_seg_refl u,
  find_child-write_child s t l cs m,
)

pub find_child-set_child :
    (s t : NameSeg) (l m : Level) {c : Level}
    → find_child t (children_of m) ≡ some c
    → find_child s (children_of (set_child t l m))
      ≡ on_eq (cmp_seg s t) (some l) (find_child s (children_of m))
unfolding set_child
find_child-set_child s t l (level typ cs vs) {c = c} h = find_child-write_child s t l cs c h

-- Writing back what was read changes nothing.
write_child_same :
    (t : NameSeg) (cs : Children) (m : Level) → find_child t cs ≡ some m → write_child t m cs ≡ cs
unfolding find_child write_child
write_child_same t no_children m h = cc
write_child_same t (child u x cs) m h = ground (arith, write_child_same t cs m)

set_child_same :
    (t : NameSeg) (l : Level) {m : Level}
    → find_child t (children_of l) ≡ some m
    → set_child t m l ≡ l
unfolding set_child
set_child_same t (level typ cs vs) {m = m} h = rw (write_child_same t cs m h)

-- The level at a path, and the change of one level in the tree.
unfoldable pub level_at : List NameSeg → Level → Option Level
level_at [] l = some l
level_at (s ∷ ss) l = elim (find_child s (children_of l)) [
  | none ↦ none
  | some next ↦ level_at ss next
]

unfoldable pub update_at : List NameSeg → (Level → Level) → Level → Level
update_at [] f l = f l
update_at (s ∷ ss) f l = elim (find_child s (children_of l)) [
  | none ↦ l
  | some next ↦ set_child s (update_at ss f next) l
]

-- The components of an absolute path through these segments.
abbrev pub absolute : List NameSeg → AmlName
absolute ss = root ∷ map segment ss

pub map-push :
    (ss : List NameSeg) (s : NameSeg)
    → map segment (ss ++ s ∷ []) ≡ map segment ss ++ segment s ∷ []
map-push [] s = refl
map-push (t ∷ ss) s = ap (λ cs. segment t ∷ cs) (map-push ss s)

split_tail-push :
    (cs : List NameComponent) (s : NameSeg) → split_tail (cs ++ segment s ∷ []) ≡ ok (cs, s)
unfolding split_tail
split_tail-push cs s =
    rw (get_last?-push cs (segment s), split_tail) (rw (drop_last-push cs (segment s)))

pub split_path-absolute :
    (ss : List NameSeg) (s : NameSeg)
    → split_path (absolute (ss ++ s ∷ [])) ≡ ok (map segment ss, s)
unfolding split_path
split_path-absolute ss s = ap split_tail (map-push ss s) ∙ split_tail-push (map segment ss) s

none-ne-some {ℓ} : {A : Type ℓ} {a : A} → ¬ (◌≡◌ {A = Option A} none (some a))
none-ne-some e = cc

-- The walk finds the level that stands at the path, or reports a level that is missing.
pub descend-level_at :
    (l : Level) (walked : AmlName) (ss : List NameSeg) (m : Level)
    → level_at ss l ≡ some m
    → descend l walked (map segment ss) ≡ ok m
unfolding level_at descend
descend-level_at l walked [] m h = ground arith
descend-level_at l walked (s ∷ ss) m h = elim (Option-cases (find_child s (children_of l))) [
  | inl e ↦ absurd (none-ne-some (sym (rw (e, level_at)) ∙ h))
  | inr (next, e) ↦
      rw (e, descend)
        (descend-level_at next (walked ++ segment s ∷ []) ss m (rw (e, level_at) at h))
]

pub descend_mut-level_at {ℓ} :
    {A : Type ℓ} (l : Level) (walked : AmlName) (ss : List NameSeg) (act : Level → Result A × Level)
    (m : Level)
    → level_at ss l ≡ some m
    → descend_mut l walked (map segment ss) act ≡ ((act m).0, update_at ss (λ x. (act x).1) l)
unfolding level_at descend_mut update_at
descend_mut-level_at l walked [] act m h = let same : l ≡ m = some-injective l m h in rw (← same)
descend_mut-level_at l walked (s ∷ ss) act m h =
    elim (Option-cases (find_child s (children_of l))) [
      | inl e ↦ absurd (none-ne-some (sym (rw (e, level_at)) ∙ h))
      | inr (next, e) ↦
          let inner =
            descend_mut-level_at next (walked ++ segment s ∷ []) ss act m (rw (e, level_at) at h) in
          rw (e, descend_mut, update_at) (rw inner)
    ]

-- Where the level is missing, the walk reports the first missing prefix and changes nothing.
pub descend_mut-missing {ℓ} :
    {A : Type ℓ} (l : Level) (walked : AmlName) (ss : List NameSeg) (act : Level → Result A × Level)
    → level_at ss l ≡ none
    → (p : AmlName) × (descend_mut l walked (map segment ss) act
        ≡ (err (level_does_not_exist p), l))
      × (descend l walked (map segment ss) ≡ err (level_does_not_exist p))
unfolding level_at descend descend_mut
descend_mut-missing l walked [] act h = absurd (none-ne-some (sym h))
descend_mut-missing l walked (s ∷ ss) act h = elim (Option-cases (find_child s (children_of l))) [
  | inl e ↦ (walked ++ segment s ∷ [], rw (e, descend_mut), rw (e, descend))
  | inr (next, e) ↦
      let (p, inner, seen) =
        descend_mut-missing next (walked ++ segment s ∷ []) ss act (rw (e, level_at) at h) in
      (p, rw (e, descend_mut) (rw (inner, set_child_same s l e)), rw (e, descend) seen)
]
