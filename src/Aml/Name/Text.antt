-- ===== src/Aml/Name/Text.antt =====
-- aml/src/namespace.rs: `AmlName::from_str` and `AmlName::as_string`. Texts are lists of bytes.
pub mod RoundTrip
use acpi_rs.Prelude.{
  ℕ, Bool, true, false, not, ◌&&◌, List, [], ◌∷◌, ◌++◌, length, ◌==◌, if◌then◌else◌, ok, err, ◌>>=◌,
}
use acpi_rs.Aml.Types.{
  NameComponent, root, prefix, segment, AmlName, Result, empty_names_are_invalid,
}
use acpi_rs.Aml.Segment.{seg_from_str, seg_bytes}

abbrev pub backslash : ℕ
backslash = 92

abbrev pub caret : ℕ
caret = b'^'

abbrev pub dot : ℕ
dot = b'.'

abbrev pub cons_head : ℕ → List (List ℕ) → List (List ℕ)
cons_head c [] = (c ∷ []) ∷ []
cons_head c (part ∷ parts) = (c ∷ part) ∷ parts

-- `str::split` at one character: the empty text has one empty part.
unfoldable pub split : ℕ → List ℕ → List (List ℕ)
split b [] = [] ∷ []
split b (c ∷ cs) = if c == b then [] ∷ split b cs else cons_head c (split b cs)

-- The body of the loop of `from_str` over one part: a component for each leading `^`, then the
-- segment.
unfoldable pub push_part : AmlName → List ℕ → Result AmlName
push_part components [] = seg_from_str [] >>= λ s. ok (components ++ segment s ∷ [])
push_part components (c ∷ part) =
    let inner = push_part (components ++ prefix ∷ []) part in
    if c == caret then inner else seg_from_str (c ∷ part) >>= λ s. ok (components ++ segment s ∷ [])

unfoldable pub push_parts : AmlName → List (List ℕ) → Result AmlName
push_parts components [] = ok components
push_parts components (part ∷ parts) = push_part components part >>= λ cs. push_parts cs parts

-- What follows the leading backslash, if there was one.
unfoldable pub from_rest : AmlName → List ℕ → Result AmlName
from_rest components [] = ok components
from_rest components (c ∷ cs) = push_parts components (split dot (c ∷ cs))

-- `AmlName::from_str`.
unfoldable pub from_str : List ℕ → Result AmlName
unfolding from_rest push_parts push_part split seg_from_str
from_str [] = err empty_names_are_invalid
from_str (c ∷ cs) = if c == backslash then from_rest (root ∷ []) cs else from_rest [] (c ∷ cs)

-- What the closure of `as_string`'s fold appends for a component.
abbrev pub component_text : NameComponent → List ℕ
component_text root = backslash ∷ []
component_text prefix = caret ∷ []
component_text (segment s) = seg_bytes s ++ dot ∷ []

unfoldable pub fold_text : List ℕ → AmlName → List ℕ
fold_text name [] = name
fold_text name (c ∷ cs) = fold_text (name ++ component_text c) cs

abbrev pub trim_onto : ℕ → ℕ → List ℕ → List ℕ
trim_onto b c [] = if c == b then [] else c ∷ []
trim_onto b c (d ∷ ds) = c ∷ d ∷ ds

-- `str::trim_end_matches` of one character.
unfoldable pub trim_end : ℕ → List ℕ → List ℕ
trim_end b [] = []
trim_end b (c ∷ cs) = trim_onto b c (trim_end b cs)

-- `AmlName::as_string`.
unfoldable pub as_string : AmlName → List ℕ
unfolding fold_text trim_end
as_string name = trim_end dot (fold_text [] name)
