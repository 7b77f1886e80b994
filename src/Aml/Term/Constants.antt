-- ===== src/Aml/Term/Constants.antt =====
-- aml/src/term_object.rs: `computational_data`.
use acpi_rs.Prelude.{ℕ, ◌==◌, List, [], ◌∷◌, Option, some, none, ok, if◌then◌else◌}
use acpi_rs.BitField.{BitField}
use acpi_rs.Bytes.{is_utf8}
use acpi_rs.Bytes.Bits.{BitVec}
use acpi_rs.Aml.Types.{wrong_parser, unterminated_string_constant, invalid_string_constant}
use acpi_rs.Aml.Parsing
use acpi_rs.Aml.Parsing.{ParseResult, parsed, failed, failure, and_then, choice}
use acpi_rs.Aml.Parsing.Scope.{DebugVerbosity, comment_scope}
use acpi_rs.Aml.Opcode.{ext_opcode}
use acpi_rs.Aml.Opcode.Terms.{
  byte_const, word_const, dword_const, qword_const, string_prefix, zero_op, one_op, ones_op,
  ext_revision_op,
}
use acpi_rs.Aml.Value.{AmlValue, integer, string, zero_value, one_value, ones_value}
use acpi_rs.Aml.Context.{Handler, context_debug}
use acpi_rs.Aml.Action.{P}
use acpi_rs.Aml.Expression.{def_buffer}

abbrev pub aml_interpreter_revision : ℕ
aml_interpreter_revision = 0

-- The bytes before the first zero and those after it.
unfoldable pub split_at_nul : List ℕ → Option (List ℕ × List ℕ)
split_at_nul [] = none
split_at_nul (b ∷ bs) =
    if b == 0
    then some ([], bs)
    else elim (split_at_nul bs) [ some (text, rest) ↦ some (b ∷ text, rest) | none ↦ none ]

module _ {W : Type 0} where
  unfoldable pub string_parser : P W AmlValue
  unfolding split_at_nul
  string_parser input c = elim (split_at_nul input) [
    | some (text, rest) ↦
        if is_utf8 text
        then parsed rest c (string text)
        else failed input c (failure invalid_string_constant)
    | none ↦ failed input c (failure unterminated_string_constant)
  ]

  abbrev pub integer_const : P W ℕ → P W AmlValue
  integer_const parser = Parsing.map parser (λ value. ok (integer value))

  -- `const_parser`, after the opcode.
  unfoldable pub constant : ℕ → List ℕ → P W AmlValue
  unfolding string_parser
  constant op input rest c =
      if op == byte_const
      then integer_const Parsing.take rest c
      else if op == word_const
      then integer_const (Parsing.take_uint 2) rest c
      else if op == dword_const
      then integer_const (Parsing.take_uint 4) rest c
      else if op == qword_const
      then integer_const (Parsing.take_uint 8) rest c
      else if op == string_prefix
      then string_parser rest c
      else if op == zero_op
      then parsed rest c zero_value
      else if op == one_op
      then parsed rest c one_value
      else if op == ones_op
      then parsed rest c ones_value
      else failed input c (failure wrong_parser)

  unfoldable pub const_parser : P W AmlValue
  unfolding constant
  const_parser input c =
      and_then (Parsing.take input c) (λ rest after op. constant op input rest after)

  unfoldable pub revision : P W AmlValue
  revision = Parsing.map (ext_opcode ext_revision_op) (λ _. ok (integer aml_interpreter_revision))

  unfoldable pub computational_data :
      ⦃bits : BitField⦄ ⦃bv : BitVec⦄ ⦃h : Handler W⦄ → P W AmlValue → P W AmlValue
  computational_data term_arg =
      comment_scope DebugVerbosity.all_scopes
        (choice (revision ∷ const_parser ∷ def_buffer term_arg ∷ []))
