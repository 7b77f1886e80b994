-- ===== src/Aml/Namespace/Actions.antt =====
-- aml/src/namespace.rs: what `add_level`, `remove_level` and `add_value` do to the level of their
-- path, in the handles below it.
use acpi_rs.Prelude.{ℕ, ◌≡◌, refl, sym, ◌∙◌, inl, inr, List, [], ◌∷◌, Option, some, none, arith}
use mathlib.Core.Option.{some-injective}
use acpi_rs.Aml.Types.{NameSeg, cmp_seg, AmlName}
use acpi_rs.Map
use acpi_rs.Map.{on_eq, nat_ord, seg_ord}
use acpi_rs.Aml.Level.{
  Level, level, Children, LevelType, new_level, find_child, insert_child, remove_child,
}
use acpi_rs.Aml.Level.Laws.{find_child-insert_child, find_child-remove_child}
use acpi_rs.Aml.Level.Handles.{handle_at}
use acpi_rs.Aml.Level.Growth.{AddsOnly, on_eq-cases}
use acpi_rs.Aml.Namespace.{new, bind_value}

pub none-ne-some {ℓ} : {A : Type ℓ} {a : A} → ¬ (◌≡◌ {A = Option A} none (some a))
none-ne-some e = cc

pub handle_at-new_level :
    (typ : LevelType) (qs : List NameSeg) (q : NameSeg) → handle_at qs q (new_level typ) ≡ none
unfolding handle_at Map.get find_child
handle_at-new_level typ [] q = refl
handle_at-new_level typ (c ∷ cs) q = refl

-- The handles below a level that gains an empty child, and below one that loses a child.
pub handle_at-insert_child :
    (t : LevelType) (cs : Children) (vs : List (NameSeg × ℕ)) (last : NameSeg) (typ : LevelType)
    (c : NameSeg) (qs : List NameSeg) (q : NameSeg)
    → handle_at (c ∷ qs) q (level t (insert_child last (new_level typ) cs) vs)
      ≡ on_eq (cmp_seg c last) none (handle_at (c ∷ qs) q (level t cs vs))
unfolding handle_at
handle_at-insert_child t cs vs last typ c qs q =
    ground (arith, find_child-insert_child c last (new_level typ) cs, handle_at-new_level typ qs q)

pub handle_at-remove_child :
    (t : LevelType) (cs : Children) (vs : List (NameSeg × ℕ)) (last c : NameSeg) (qs : List NameSeg)
    (q : NameSeg)
    → handle_at (c ∷ qs) q (level t (remove_child last cs) vs)
      ≡ on_eq (cmp_seg c last) none (handle_at (c ∷ qs) q (level t cs vs))
unfolding handle_at
handle_at-remove_child t cs vs last c qs q = ground (arith, find_child-remove_child c last cs)

pub bind_value-AddsOnly :
    (p : AmlName) (h : ℕ) (last : NameSeg) (l : Level)
    → AddsOnly (λ k. k ≡ h) l (bind_value p h last l).1
unfolding bind_value handle_at
bind_value-AddsOnly p h last (level t cs vs) [] q k e =
    elim (on_eq-cases q last _ _ (sym (Map.get-insert q last h vs) ∙ e)) [
      | inl (same, new) ↦ inr (sym (some-injective h k new))
      | inr old ↦ inl old
    ]
bind_value-AddsOnly p h last (level t cs vs) (c ∷ qs) q k e = inl e
