-- ===== src/Aml/Name/Text/RoundTrip.antt =====
-- aml/src/namespace.rs: `AmlName::from_str` reads back what `AmlName::as_string` writes.
use acpi_rs.Prelude.{
  ℕ, ◌≡◌, refl, sym, ap, ◌∙◌, Bool, true, false, List, [], ◌∷◌, ◌++◌, append-nil, append_assoc,
  ◌==◌, Bool-cases, inl, inr, ok,
}
use acpi_rs.Aml.Types.{NameSeg, NameComponent, root, prefix, segment, AmlName}
use acpi_rs.Aml.Segment.{
  seg_bytes, IsValidSeg, name_char_ne_dot, lead_name_char_plain, seg_from_str-seg_bytes,
}
use acpi_rs.Aml.Name.Text.{
  backslash, caret, dot, cons_head, split, push_part, push_parts, from_rest, from_str,
  component_text, fold_text, trim_end, trim_onto, as_string,
}

-- Components with no root whose segments are valid and whose last one is a segment; where there is
-- none at all, `empty` says whether that will do.
abbrev pub IsBody : Bool → AmlName → Type 0
IsBody true [] = Unit {0}
IsBody false [] = ⊥
IsBody empty (root ∷ cs) = ⊥
IsBody empty (prefix ∷ cs) = IsBody false cs
IsBody empty (segment s ∷ cs) = IsValidSeg s × IsBody true cs

-- A name that can be written: a root, or nothing, before such components.
abbrev pub IsPrintable : AmlName → Type 0
IsPrintable (root ∷ cs) = IsBody true cs
IsPrintable [] = ⊥
IsPrintable (prefix ∷ cs) = IsBody false (prefix ∷ cs)
IsPrintable (segment s ∷ cs) = IsBody false (segment s ∷ cs)

-- The text with the segments joined by dots.
joined : AmlName → List ℕ
joined [] = []
joined (root ∷ cs) = backslash ∷ joined cs
joined (prefix ∷ cs) = caret ∷ joined cs
joined (segment s ∷ []) = seg_bytes s
joined (segment s ∷ c ∷ cs) = seg_bytes s ++ dot ∷ joined (c ∷ cs)

-- The text with a dot behind every segment.
texts : AmlName → List ℕ
texts [] = []
texts (c ∷ cs) = component_text c ++ texts cs

fold_text-texts : (name : List ℕ) (cs : AmlName) → fold_text name cs ≡ name ++ texts cs
unfolding fold_text texts
fold_text-texts name [] = sym (append-nil name)
fold_text-texts name (c ∷ cs) =
    fold_text-texts (name ++ component_text c) cs ∙ append_assoc name (component_text c) (texts cs)

trim_onto_plain : (c : ℕ) (cs : List ℕ) → (c == dot) ≡ false → trim_onto dot c cs ≡ c ∷ cs
trim_onto_plain c [] h = rw h
trim_onto_plain c (d ∷ ds) h = refl

trim_end_plain :
    (c : ℕ) (cs : List ℕ) → (c == dot) ≡ false → trim_end dot (c ∷ cs) ≡ c ∷ trim_end dot cs
unfolding trim_end
trim_end_plain c cs h = trim_onto_plain c (trim_end dot cs) h

trim_end-seg :
    (s : NameSeg) (cs : List ℕ)
    → IsValidSeg s
    → trim_end dot (seg_bytes s ++ cs) ≡ seg_bytes s ++ trim_end dot cs
trim_end-seg s cs v = rw (
  trim_end_plain s.byte_0 (s.byte_1 ∷ s.byte_2 ∷ s.byte_3 ∷ cs) (lead_name_char_plain _ v.lead).0,
  trim_end_plain s.byte_1 (s.byte_2 ∷ s.byte_3 ∷ cs) (name_char_ne_dot _ v.name_1),
  trim_end_plain s.byte_2 (s.byte_3 ∷ cs) (name_char_ne_dot _ v.name_2),
  trim_end_plain s.byte_3 cs (name_char_ne_dot _ v.name_3),
)

-- Joined components start with some byte.
joined-cons :
    (c : NameComponent) (cs : AmlName) → (d : ℕ) × (ds : List ℕ) × (joined (c ∷ cs) ≡ d ∷ ds)
unfolding joined
joined-cons root cs = (_, _, refl)
joined-cons prefix cs = (_, _, refl)
joined-cons (segment s) [] = (_, _, refl)
joined-cons (segment s) (c ∷ cs) = (_, _, refl)

trim_end_inner :
    (cs : List ℕ) (d : ℕ) (ds : List ℕ)
    → trim_end dot cs ≡ d ∷ ds
    → trim_end dot (dot ∷ cs) ≡ dot ∷ trim_end dot cs
unfolding trim_end
trim_end_inner cs d ds e = rw e

trim_end-texts :
    (empty : Bool) (cs : AmlName) → IsBody empty cs → trim_end dot (texts cs) ≡ joined cs
unfolding texts joined
trim_end-texts empty [] b = unfold trim_end in refl
trim_end-texts empty (root ∷ cs) b = absurd b
trim_end-texts empty (prefix ∷ cs) b =
    trim_end_plain caret (texts cs) refl ∙ ap (λ t. caret ∷ t) (trim_end-texts false cs b)
trim_end-texts empty (segment s ∷ []) b = trim_end-seg s (dot ∷ []) b.0 ∙ (unfold trim_end in refl)
trim_end-texts empty (segment s ∷ c ∷ cs) b =
    let (d, ds, starts) = joined-cons c cs in
    let inner = trim_end-texts true (c ∷ cs) b.1 in
    trim_end-seg s (dot ∷ texts (c ∷ cs)) b.0
    ∙ ap (λ t. seg_bytes s ++ t)
        (trim_end_inner (texts (c ∷ cs)) d ds (inner ∙ starts) ∙ ap (λ t. dot ∷ t) inner)

split_plain :
    (c : ℕ) (cs : List ℕ) → (c == dot) ≡ false → split dot (c ∷ cs) ≡ cons_head c (split dot cs)
unfolding split
split_plain c cs h = rw h

split-cons :
    (cs : List ℕ) → (part : List ℕ) × (parts : List (List ℕ)) × (split dot cs ≡ part ∷ parts)
unfolding split
split-cons [] = (_, _, refl)
split-cons (c ∷ cs) = elim (Bool-cases (c == dot)) [
  | inl e ↦ ([], split dot cs, rw e)
  | inr e ↦ let (part, parts, h) = split-cons cs in (c ∷ part, parts, rw (e, h))
]

-- A segment's bytes come before the first part of what follows them.
split-seg :
    (s : NameSeg) (cs part : List ℕ) (parts : List (List ℕ))
    → IsValidSeg s
    → split dot cs ≡ part ∷ parts
    → split dot (seg_bytes s ++ cs) ≡ (seg_bytes s ++ part) ∷ parts
split-seg s cs part parts v e = rw (
  split_plain s.byte_0 (s.byte_1 ∷ s.byte_2 ∷ s.byte_3 ∷ cs) (lead_name_char_plain _ v.lead).0,
  split_plain s.byte_1 (s.byte_2 ∷ s.byte_3 ∷ cs) (name_char_ne_dot _ v.name_1),
  split_plain s.byte_2 (s.byte_3 ∷ cs) (name_char_ne_dot _ v.name_2),
  split_plain s.byte_3 cs (name_char_ne_dot _ v.name_3),
  e,
)

push_part-seg :
    (acc : AmlName) (s : NameSeg)
    → IsValidSeg s
    → push_part acc (seg_bytes s) ≡ ok (acc ++ segment s ∷ [])
unfolding push_part
push_part-seg acc s v = rw ((lead_name_char_plain _ v.lead).1, seg_from_str-seg_bytes s v)

push_parts-prefix :
    (acc : AmlName) (text : List ℕ)
    → push_parts acc (split dot (caret ∷ text)) ≡ push_parts (acc ++ prefix ∷ []) (split dot text)
unfolding push_parts push_part
push_parts-prefix acc text =
    let (part, parts, h) = split-cons text in rw (split_plain caret text refl, h)

push_parts_last :
    (acc : AmlName) (s : NameSeg)
    → IsValidSeg s
    → push_parts acc (split dot (seg_bytes s)) ≡ ok (acc ++ segment s ∷ [])
unfolding push_parts
push_parts_last acc s v = rw (split-seg s [] [] [] v (unfold split in refl), push_part-seg acc s v)

push_parts-dot :
    (acc : AmlName) (s : NameSeg) (text : List ℕ)
    → IsValidSeg s
    → push_parts acc (split dot (seg_bytes s ++ dot ∷ text))
      ≡ push_parts (acc ++ segment s ∷ []) (split dot text)
unfolding push_parts
push_parts-dot acc s text v =
    rw
      (split-seg s (dot ∷ text) [] (split dot text) v (unfold split in refl), push_part-seg acc s v)

-- Reading the parts of a joined body appends its components.
push_parts-joined :
    (acc : AmlName) (empty : Bool) (c : NameComponent) (cs : AmlName)
    → IsBody empty (c ∷ cs)
    → push_parts acc (split dot (joined (c ∷ cs))) ≡ ok (acc ++ c ∷ cs)
unfolding joined
push_parts-joined acc empty root cs b = absurd b
push_parts-joined acc empty prefix [] b = absurd b
push_parts-joined acc empty prefix (c ∷ cs) b =
    push_parts-prefix acc (joined (c ∷ cs))
    ∙ push_parts-joined (acc ++ prefix ∷ []) false c cs b
    ∙ ap ok (append_assoc acc (prefix ∷ []) (c ∷ cs))
push_parts-joined acc empty (segment s) [] b = push_parts_last acc s b.0
push_parts-joined acc empty (segment s) (c ∷ cs) b =
    push_parts-dot acc s (joined (c ∷ cs)) b.0
    ∙ push_parts-joined (acc ++ segment s ∷ []) true c cs b.1
    ∙ ap ok (append_assoc acc (segment s ∷ []) (c ∷ cs))

as_string-body :
    (c : NameComponent) (cs : AmlName)
    → IsBody false (c ∷ cs)
    → as_string (c ∷ cs) ≡ joined (c ∷ cs)
unfolding as_string
as_string-body c cs b =
    ap (trim_end dot) (fold_text-texts [] (c ∷ cs)) ∙ trim_end-texts false (c ∷ cs) b

as_string-root : (cs : AmlName) → IsBody true cs → as_string (root ∷ cs) ≡ backslash ∷ joined cs
unfolding as_string texts
as_string-root cs b =
    ap (trim_end dot) (fold_text-texts [] (root ∷ cs))
    ∙ trim_end_plain backslash (texts cs) refl
    ∙ ap (λ t. backslash ∷ t) (trim_end-texts true cs b)

from_rest-joined :
    (acc : AmlName) (empty : Bool) (c : NameComponent) (cs : AmlName)
    → IsBody empty (c ∷ cs)
    → from_rest acc (joined (c ∷ cs)) ≡ ok (acc ++ c ∷ cs)
unfolding from_rest
from_rest-joined acc empty c cs b =
    let (d, ds, starts) = joined-cons c cs in
    rw starts (rw starts at (push_parts-joined acc empty c cs b))

-- A body does not start with a backslash.
joined_plain :
    (c : NameComponent) (cs : AmlName)
    → IsBody false (c ∷ cs)
    → from_str (joined (c ∷ cs)) ≡ from_rest [] (joined (c ∷ cs))
unfolding from_str joined
joined_plain root cs b = absurd b
joined_plain prefix cs b = refl
joined_plain (segment s) [] b = rw (lead_name_char_plain _ b.0.lead).2
joined_plain (segment s) (c ∷ cs) b = rw (lead_name_char_plain _ b.0.lead).2

from_str-root : (text : List ℕ) → from_str (backslash ∷ text) ≡ from_rest (root ∷ []) text
unfolding from_str
from_str-root text = refl

-- Reading the text of a name gives the name back, for every name that is an optional root and then
-- components without a root whose segments are valid and whose last one is a segment (only behind
-- a root may there be none).
pub from_str-as_string : (name : AmlName) → IsPrintable name → from_str (as_string name) ≡ ok name
unfolding joined
from_str-as_string [] b = absurd b
from_str-as_string (root ∷ []) b =
    ap from_str (as_string-root [] b) ∙ from_str-root [] ∙ (unfold from_rest in refl)
from_str-as_string (root ∷ c ∷ cs) b =
    ap from_str (as_string-root (c ∷ cs) b)
    ∙ from_str-root (joined (c ∷ cs))
    ∙ from_rest-joined (root ∷ []) true c cs b
from_str-as_string (prefix ∷ cs) b =
    ap from_str (as_string-body prefix cs b)
    ∙ joined_plain prefix cs b
    ∙ from_rest-joined [] false prefix cs b
from_str-as_string (segment s ∷ cs) b =
    ap from_str (as_string-body (segment s) cs b)
    ∙ joined_plain (segment s) cs b
    ∙ from_rest-joined [] false (segment s) cs b
