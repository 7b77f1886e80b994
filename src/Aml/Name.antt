-- ===== src/Aml/Name.antt =====
-- aml/src/namespace.rs, `impl AmlName`: paths of the namespace and how they are normalized,
-- resolved and cut to their parent.
pub mod Cancel
pub mod Resolve
pub mod Text
use acpi_rs.Prelude.{
  ℕ, zero, suc, ◌≡◌, refl, Bool, true, false, not, List, [], ◌∷◌, ◌++◌, Option, some, none, Outcome,
  ok, err, panic, ◌>>=◌, if◌then◌else◌, get_last?, drop_last,
}
use acpi_rs.Aml.Types.{
  NameSeg, NameComponent, root, prefix, segment, AmlName, AmlError, invalid_normalized_name,
  root_has_no_parent, Result,
}

-- `AmlName::root`.
abbrev pub root_name : AmlName
root_name = root ∷ []

-- `AmlName::from_name_seg`.
abbrev pub from_name_seg : NameSeg → AmlName
from_name_seg s = segment s ∷ []

-- `AmlName::is_normal`: no component is a prefix.
unfoldable pub is_normal : AmlName → Bool
is_normal [] = true
is_normal (prefix ∷ cs) = false
is_normal (root ∷ cs) = is_normal cs
is_normal (segment s ∷ cs) = is_normal cs

-- `AmlName::is_absolute`.
unfoldable pub is_absolute : AmlName → Bool
is_absolute (root ∷ cs) = true
is_absolute _ = false

-- `AmlName::search_rules_apply`.
unfoldable pub search_rules_apply : AmlName → Bool
search_rules_apply (segment s ∷ []) = true
search_rules_apply _ = false

-- The `NameComponent::Prefix` arm of `normalize`'s closure, by the last element of `name`. `whole`
-- is `self`, which the error carries.
unfoldable pub step_up : AmlName → AmlName → Option NameComponent → Result AmlName
step_up whole name (some (segment s)) = ok (drop_last name)
step_up whole name _ = err (invalid_normalized_name whole)

-- The closure that `normalize` folds with.
unfoldable pub normalize_step : AmlName → AmlName → NameComponent → Result AmlName
unfolding step_up
normalize_step whole name (segment s) = ok (name ++ segment s ∷ [])
normalize_step whole name root = ok (name ++ root ∷ [])
normalize_step whole name prefix = step_up whole name (get_last? name)

-- `try_fold`: the first error ends the fold.
unfoldable pub normalize_fold : AmlName → AmlName → List NameComponent → Result AmlName
normalize_fold whole name [] = ok name
normalize_fold whole name (c ∷ cs) =
    normalize_step whole name c >>= λ name'. normalize_fold whole name' cs

-- `AmlName::normalize`.
unfoldable pub normalize : AmlName → Result AmlName
normalize self = if is_normal self then ok self else normalize_fold self [] self

-- The match of `parent`, by the last component of the normalized path.
unfoldable pub parent_of : AmlName → Option NameComponent → Result AmlName
parent_of normalized none = err root_has_no_parent
parent_of normalized (some root) = err root_has_no_parent
parent_of normalized (some (segment s)) = ok (drop_last normalized)
parent_of normalized (some prefix) = panic

-- `AmlName::parent`.
unfoldable pub parent : AmlName → Result AmlName
unfolding parent_of
parent self = normalize self >>= λ normalized. parent_of normalized (get_last? normalized)

-- `AmlName::resolve`: the scope must be absolute; an absolute path is returned as it is.
unfoldable pub resolve : AmlName → AmlName → Result AmlName
resolve self scope =
    if is_absolute scope
    then if is_absolute self then ok self else normalize (scope ++ self)
    else panic
