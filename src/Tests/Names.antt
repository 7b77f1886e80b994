-- ===== src/Tests/Names.antt =====
-- aml/src/name_object.rs and aml/src/namespace.rs: names.
use acpi_rs.Prelude.{◌≡◌, refl, [], ◌∷◌, ok}
use acpi_rs.Aml.Types.{NameSeg, seg, root, prefix, segment, AmlName}
use acpi_rs.Aml.Segment.{
  seg_from_str, IsValidSeg, seg_from_str-IsValidSeg, is_name_char, is_lead_name_char, is_digit_char,
}
use acpi_rs.Aml.Name.{
  is_normal, is_absolute, normalize, normalize_fold, normalize_step, step_up, resolve,
}
use acpi_rs.Aml.Name.Cancel.{cancel, cancelled, normalize-cancel}
use acpi_rs.Aml.Name.Text.{from_str, as_string}
use acpi_rs.Aml.Name.Text.RoundTrip.{IsPrintable, from_str-as_string}

abbrev foo : NameSeg
foo = seg b'F' b'O' b'O' b'_'

abbrev bar : NameSeg
bar = seg b'B' b'A' b'R' b'9'

-- `\FOO_.^.BAR9`.
abbrev zigzag : AmlName
zigzag = root ∷ segment foo ∷ prefix ∷ segment bar ∷ []

abbrev in_root : AmlName
in_root = root ∷ segment bar ∷ []

normalize-cancel_example : normalize zigzag ≡ cancelled zigzag (cancel zigzag)
normalize-cancel_example = normalize-cancel zigzag

zigzag_normalized : normalize zigzag ≡ ok in_root
unfolding normalize is_normal normalize_fold normalize_step step_up
zigzag_normalized = refl

bar_resolved : resolve (segment bar ∷ []) (root ∷ []) ≡ ok in_root
unfolding resolve is_absolute normalize is_normal
bar_resolved = refl

foo_text : seg_from_str (b'F' ∷ b'O' ∷ b'O' ∷ []) ≡ ok foo
unfolding seg_from_str is_name_char is_lead_name_char is_digit_char
foo_text = refl

bar_text : seg_from_str (b'B' ∷ b'A' ∷ b'R' ∷ b'9' ∷ []) ≡ ok bar
unfolding seg_from_str is_name_char is_lead_name_char is_digit_char
bar_text = refl

bar-IsValidSeg : IsValidSeg bar
bar-IsValidSeg = seg_from_str-IsValidSeg (b'B' ∷ b'A' ∷ b'R' ∷ b'9' ∷ []) bar bar_text

-- `^FOO_.BAR9`.
abbrev relative : AmlName
relative = prefix ∷ segment foo ∷ segment bar ∷ []

relative-IsPrintable : IsPrintable relative
relative-IsPrintable =
    (seg_from_str-IsValidSeg (b'F' ∷ b'O' ∷ b'O' ∷ []) foo foo_text, (bar-IsValidSeg, tt))

from_str-as_string_example : from_str (as_string relative) ≡ ok relative
from_str-as_string_example = from_str-as_string relative relative-IsPrintable
