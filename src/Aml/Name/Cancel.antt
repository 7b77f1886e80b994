-- ===== src/Aml/Name/Cancel.antt =====
-- aml/src/namespace.rs, `AmlName::normalize`: the left-to-right fold against a description that
-- reads the path from its right end.
use acpi_rs.Prelude.{
  ℕ, zero, suc, ◌≡◌, refl, sym, ◌∙◌, ◌⊎◌, inl, inr, true, List, [], ◌∷◌, ◌++◌, append-nil,
  append_assoc, Option, some, none, ok, err, get_last?, get_last?-push, drop_last-push, Bool-cases,
  drop, length, leb, if◌then◌else◌, arith,
}
use acpi_rs.Aml.Types.{
  NameSeg, NameComponent, root, prefix, segment, AmlName, invalid_normalized_name, Result,
}
use acpi_rs.Aml.Name.{is_normal, normalize, normalize_fold, normalize_step, step_up}

-- Of a path whose part right of this component leaves `k` prefixes to be answered and keeps `r`: a
-- segment is struck out by a prefix to its right, and a prefix cannot reach over a root.
unfoldable pub cancel_step : NameComponent → ℕ × AmlName → Option (ℕ × AmlName)
cancel_step prefix (k, r) = some (suc k, r)
cancel_step (segment s) (zero, r) = some (zero, segment s ∷ r)
cancel_step (segment s) (suc k, r) = some (k, r)
cancel_step root (zero, r) = some (zero, root ∷ r)
cancel_step root (suc k, r) = none

unfoldable pub cancel_onto : NameComponent → Option (ℕ × AmlName) → Option (ℕ × AmlName)
unfolding cancel_step
cancel_onto c none = none
cancel_onto c (some (k, r)) = cancel_step c (k, r)

unfoldable pub cancel : AmlName → Option (ℕ × AmlName)
unfolding cancel_onto
cancel [] = some (zero, [])
cancel (c ∷ cs) = cancel_onto c (cancel cs)

-- The path's normal form, or the error that carries the path: some prefix is left unanswered.
unfoldable pub cancelled : AmlName → Option (ℕ × AmlName) → Result AmlName
cancelled whole (some (zero, r)) = ok r
cancelled whole _ = err (invalid_normalized_name whole)

-- A base on which no prefix can act, under the segments pushed since, the last one first.
abbrev build : AmlName → List NameSeg → AmlName
build base [] = base
build base (s ∷ st) = build base st ++ segment s ∷ []

abbrev IsBlocked : AmlName → Type 0
IsBlocked base = (get_last? base ≡ none) ⊎ (get_last? base ≡ some root)

outcome_at : AmlName → AmlName → List NameSeg → Option (ℕ × AmlName) → Result AmlName
outcome_at whole base st none = err (invalid_normalized_name whole)
outcome_at whole base st (some (k, r)) =
    if leb k (length st)
    then ok (build base (drop k st) ++ r)
    else err (invalid_normalized_name whole)

outcome_at-segment :
    (whole base : AmlName) (st : List NameSeg) (s : NameSeg) (o : Option (ℕ × AmlName))
    → outcome_at whole base (s ∷ st) o ≡ outcome_at whole base st (cancel_onto (segment s) o)
unfolding outcome_at cancel_onto
outcome_at-segment whole base st s none = refl
outcome_at-segment whole base st s (some (zero, r)) =
    ground (arith, append_assoc (build base st) (segment s ∷ []) r)
outcome_at-segment whole base st s (some (suc k, r)) = ground arith

outcome_at-root :
    (whole base : AmlName) (st : List NameSeg) (o : Option (ℕ × AmlName))
    → outcome_at whole (build base st ++ root ∷ []) [] o
      ≡ outcome_at whole base st (cancel_onto root o)
unfolding outcome_at cancel_onto
outcome_at-root whole base st none = refl
outcome_at-root whole base st (some (zero, r)) =
    ground (arith, append_assoc (build base st) (root ∷ []) r)
outcome_at-root whole base st (some (suc k, r)) = ground arith

outcome_at-prefix :
    (whole base : AmlName) (st : List NameSeg) (s : NameSeg) (o : Option (ℕ × AmlName))
    → outcome_at whole base st o ≡ outcome_at whole base (s ∷ st) (cancel_onto prefix o)
unfolding outcome_at cancel_onto
outcome_at-prefix whole base st s none = refl
outcome_at-prefix whole base st s (some (k, r)) = ground arith

outcome_at-stuck :
    (whole base : AmlName) (o : Option (ℕ × AmlName))
    → outcome_at whole base [] (cancel_onto prefix o) ≡ err (invalid_normalized_name whole)
unfolding outcome_at cancel_onto
outcome_at-stuck whole base none = refl
outcome_at-stuck whole base (some (k, r)) = ground arith

step_up-stuck :
    (whole base : AmlName)
    → IsBlocked base
    → step_up whole base (get_last? base) ≡ err (invalid_normalized_name whole)
unfolding step_up
step_up-stuck whole base (inl e) = rw e
step_up-stuck whole base (inr e) = rw e

normalize_fold-outcome :
    (whole base : AmlName) (st : List NameSeg) (cs : AmlName)
    → IsBlocked base
    → normalize_fold whole (build base st) cs ≡ outcome_at whole base st (cancel cs)
unfolding normalize_fold normalize_step cancel outcome_at
normalize_fold-outcome whole base st [] b = ground (arith, append-nil (build base st))
normalize_fold-outcome whole base st (segment s ∷ cs) b =
    normalize_fold-outcome whole base (s ∷ st) cs b ∙ outcome_at-segment whole base st s (cancel cs)
normalize_fold-outcome whole base st (root ∷ cs) b =
    normalize_fold-outcome whole (build base st ++ root ∷ []) [] cs
      (inr (get_last?-push (build base st) root))
    ∙ outcome_at-root whole base st (cancel cs)
normalize_fold-outcome whole base [] (prefix ∷ cs) b =
    rw (step_up-stuck whole base b) (sym (outcome_at-stuck whole base (cancel cs)))
normalize_fold-outcome whole base (s ∷ st) (prefix ∷ cs) b =
    rw (get_last?-push (build base st) (segment s), drop_last-push (build base st) (segment s))
      (normalize_fold-outcome whole base st cs b ∙ outcome_at-prefix whole base st s (cancel cs))

-- A normal path is its own normal form.
pub cancel-is_normal : (p : AmlName) → is_normal p ≡ true → cancel p ≡ some (zero, p)
unfolding is_normal cancel
cancel-is_normal [] h = refl
cancel-is_normal (prefix ∷ cs) h = cc
cancel-is_normal (root ∷ cs) h = rw (cancel-is_normal cs h)
cancel-is_normal (segment s ∷ cs) h = rw (cancel-is_normal cs h)

-- For every path, `normalize` gives the path's right-to-left cancellation; where that leaves a
-- prefix unanswered it fails with `InvalidNormalizedName` of the path, and it never panics.
pub normalize-cancel : (p : AmlName) → normalize p ≡ cancelled p (cancel p)
unfolding normalize cancelled outcome_at
normalize-cancel p = elim (Bool-cases (is_normal p)) [
  | inl normal ↦ rw (normal, cancel-is_normal p normal)
  | inr other ↦ rw other (normalize_fold-outcome p [] [] p (inl refl) ∙ at_start p (cancel p))
]
  where
    at_start :
        (whole : AmlName) (o : Option (ℕ × AmlName)) → outcome_at whole [] [] o ≡ cancelled whole o
    at_start whole none = refl
    at_start whole (some (zero, r)) = refl
    at_start whole (some (suc k, r)) = ground arith
