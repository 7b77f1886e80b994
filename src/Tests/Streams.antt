-- ===== src/Tests/Streams.antt =====
-- aml/src/parser.rs, aml/src/pkg_length.rs, aml/src/name_object.rs: streams. The instances of
-- `BitField` and `DebugContext` show that what they ask for can be had.
use acpi_rs.Prelude.{ℕ, ◌≡◌, refl, [], ◌∷◌, ◌++◌, arith}
use acpi_rs.Tests.Bits.{shifts}
use acpi_rs.Aml.Types.{NameSeg, seg, segment, prefix}
use acpi_rs.Aml.Segment.{IsValidSeg, is_lead_name_char, is_name_char, is_digit_char}
use acpi_rs.Aml.Parsing.{parsed, feed, take_to_end_of_pkglength}
use acpi_rs.Aml.Parsing.Progress.{Progress}
use acpi_rs.Aml.Parsing.Scope.{DebugContext, DebugVerbosity}
use acpi_rs.Aml.PkgLength.{pkg_length}
use acpi_rs.Aml.PkgLength.Encode.{w0, pkg_bytes, take_to_end_of_pkglength-pkg_bytes}
use acpi_rs.Aml.NameString.{name_string}
use acpi_rs.Aml.NameString.Encode.{up, name_bytes, IsName, name_string-name_bytes}
use acpi_rs.Aml.NameString.Progress.{name_string-IsAdvancing}

-- A context of the indentation alone.
record Indented : Type 0 where
  indent : ℕ

instance abbrev indented : DebugContext Indented
indented = record {
  debug_verbosity = λ c. DebugVerbosity.all;
  scope_indent = λ c. c.indent;
  set_scope_indent = λ n c. record { indent = n };
  debug_verbosity-set = λ n c. refl;
  scope_indent-set = λ n c. refl;
  set-set = λ m n c. refl;
  set-scope_indent = λ c. refl;
}

abbrev context : Indented
context = record { indent = 4 }

-- See the test `test_pkg_length`.
take_to_end_of_pkglength-pkg_bytes_example :
    feed {V = ℕ} pkg_length take_to_end_of_pkglength
      (pkg_bytes w0 5 ++ ((1 ∷ 2 ∷ 3 ∷ 4 ∷ []) ++ 0xff ∷ []))
      context
    ≡ parsed (0xff ∷ []) context (1 ∷ 2 ∷ 3 ∷ 4 ∷ [])
take_to_end_of_pkglength-pkg_bytes_example =
    take_to_end_of_pkglength-pkg_bytes w0 (1 ∷ 2 ∷ 3 ∷ 4 ∷ []) (0xff ∷ []) context (omega arith)
      (omega arith)

abbrev abcd : NameSeg
abcd = seg b'A' b'B' b'C' b'D'

abcd-IsValidSeg : IsValidSeg abcd
unfolding is_lead_name_char is_name_char is_digit_char
abcd-IsValidSeg = record { lead = refl; name_1 = refl; name_2 = refl; name_3 = refl }

-- See the test `test_prefix_path`.
two_up-IsName : IsName (up 2) (abcd ∷ [])
two_up-IsName = record {
  valid = (abcd-IsValidSeg, tt);
  count = omega arith;
  some_segment = λ e f. cc;
}

name_string-name_bytes_example :
    name_string {V = ℕ} (name_bytes (up 2) (abcd ∷ []) ++ 0x70 ∷ []) context
    ≡ parsed (0x70 ∷ []) context (prefix ∷ prefix ∷ segment abcd ∷ [])
name_string-name_bytes_example =
    name_string-name_bytes (up 2) (abcd ∷ []) (0x70 ∷ []) context two_up-IsName (omega arith)

name_string-IsAdvancing_example : Progress 1 (0x2f ∷ []) (name_string {V = ℕ} (0x2f ∷ []) context)
name_string-IsAdvancing_example = name_string-IsAdvancing ℕ (0x2f ∷ []) context
