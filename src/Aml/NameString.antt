-- ===== src/Aml/NameString.antt =====
-- aml/src/name_object.rs and aml/src/misc.rs: the parsers of names and of the objects that stand
-- where a name may.
pub mod Encode
pub mod Progress
use acpi_rs.Prelude.{
  ℕ, suc, ◌+◌, ◌==◌, Bool, true, false, List, [], ◌∷◌, ◌++◌, map, length, replicate, Outcome, ok,
  err, panic, if◌then◌else◌,
}
use acpi_rs.Aml.Types.{
  AmlError, unexpected_end_of_stream, empty_names_are_invalid, NameSeg, seg, NameComponent, root,
  prefix, segment, AmlName,
}
use acpi_rs.Aml.Segment.{is_lead_name_char, is_name_char}
use acpi_rs.Aml.Parsing
use acpi_rs.Aml.Parsing.{
  ParseResult, parsed, failed, Propagate, failure, Parser, and_then, or_restore, then_next, choice,
  consume, n_of, take_while,
}
use acpi_rs.Aml.Parsing.Scope.{DebugContext, DebugVerbosity, comment_scope}
use acpi_rs.Aml.Opcode.{
  opcode, ext_opcode, null_name_code, dual_name_prefix, multi_name_prefix, root_char, prefix_char,
  ext_debug_op, local0_op, arg0_op,
}

-- `Target`.
pub data Target : Type 0 where
  null : Target
  name : AmlName → Target
  debug : Target
  arg local : ℕ → Target

-- What `name_string` asks of a path with neither root nor prefix.
unfoldable pub not_empty : {V : Type 0} → AmlName → Outcome (Propagate V) AmlName
not_empty path = if length path == 0 then err (failure empty_names_are_invalid) else ok path

module _ {C V : Type 0} where
  -- Its `?` return the stream at the byte that is wrong, not the one before the segment.
  unfoldable pub name_seg : Parser C V NameSeg
  name_seg input context =
      and_then (consume is_lead_name_char input context) (λ input_1 context_1 char_1.
        and_then (consume is_name_char input_1 context_1) (λ input_2 context_2 char_2.
          and_then (consume is_name_char input_2 context_2) (λ input_3 context_3 char_3.
            and_then (consume is_name_char input_3 context_3) (λ input_4 context_4 char_4.
              parsed input_4 context_4 (seg char_1 char_2 char_3 char_4)))))

  unfoldable pub null_name : Parser C V AmlName
  null_name = Parsing.map (opcode null_name_code) (λ _. ok [])

  unfoldable pub dual_name_path : Parser C V AmlName
  dual_name_path =
      Parsing.map (then_next (then_next (opcode dual_name_prefix) name_seg) name_seg)
        (λ ((_, first), second). ok (segment first ∷ segment second ∷ []))

  unfoldable pub multi_name_path : Parser C V AmlName
  multi_name_path input context =
      and_then (then_next (opcode multi_name_prefix) Parsing.take input context)
        (λ rest after (_, seg_count).
          or_restore input (n_of name_seg seg_count rest after)
            (λ last final name_segs. parsed last final (map segment name_segs)))

  unfoldable pub name_path : Parser C V AmlName
  name_path = choice (
      null_name
      ∷ dual_name_path
      ∷ multi_name_path
      ∷ Parsing.map name_seg (λ s. ok (segment s ∷ []))
      ∷ [])

  unfoldable pub root_name_string : Parser C V AmlName
  root_name_string =
      Parsing.map (then_next (opcode root_char) name_path) (λ (_, path). ok (root ∷ path))

  unfoldable pub prefix_path : Parser C V AmlName
  prefix_path =
      Parsing.map (then_next (take_while (opcode prefix_char)) name_path)
        (λ (num_prefix_chars, path). ok (replicate num_prefix_chars prefix ++ path))

  -- The parser inside the comments of `name_string`, by the first byte.
  unfoldable pub name_string_body : Parser C V AmlName
  name_string_body [] context = failed [] context (failure unexpected_end_of_stream)
  name_string_body (first_char ∷ rest) context =
      if first_char == root_char
      then root_name_string (first_char ∷ rest) context
      else if first_char == prefix_char
      then prefix_path (first_char ∷ rest) context
      else Parsing.map name_path not_empty (first_char ∷ rest) context

  unfoldable pub debug_obj : Parser C V (Unit {0})
  debug_obj = ext_opcode ext_debug_op

module _ {C V : Type 0} ⦃d : DebugContext C⦄ where
  unfoldable pub name_string : Parser C V AmlName
  name_string = comment_scope DebugVerbosity.all_scopes name_string_body

  -- `local_parser` and `arg_parser`.
  unfoldable pub numbered_parser : ℕ → ℕ → Parser C V ℕ
  numbered_parser i code =
      Parsing.map (then_next (opcode code) (comment_scope DebugVerbosity.all_scopes Parsing.id))
        (λ _. ok i)

  unfoldable pub local_obj : Parser C V ℕ
  local_obj = choice (
      numbered_parser 0 0x60
      ∷ numbered_parser 1 0x61
      ∷ numbered_parser 2 0x62
      ∷ numbered_parser 3 0x63
      ∷ numbered_parser 4 0x64
      ∷ numbered_parser 5 0x65
      ∷ numbered_parser 6 0x66
      ∷ numbered_parser 7 0x67
      ∷ [])

  unfoldable pub arg_obj : Parser C V ℕ
  arg_obj = choice (
      numbered_parser 0 0x68
      ∷ numbered_parser 1 0x69
      ∷ numbered_parser 2 0x6a
      ∷ numbered_parser 3 0x6b
      ∷ numbered_parser 4 0x6c
      ∷ numbered_parser 5 0x6d
      ∷ numbered_parser 6 0x6e
      ∷ [])

  unfoldable pub simple_name : Parser C V Target
  simple_name = comment_scope DebugVerbosity.all_scopes (
      choice (
        Parsing.map arg_obj (λ arg_num. ok (arg arg_num))
        ∷ Parsing.map local_obj (λ local_num. ok (local local_num))
        ∷ Parsing.map name_string (λ path. ok (name path))
        ∷ []))

  unfoldable pub super_name : Parser C V Target
  super_name =
      comment_scope DebugVerbosity.all_scopes
        (choice (Parsing.map debug_obj (λ _. ok debug) ∷ simple_name ∷ []))

  unfoldable pub target : Parser C V Target
  target =
      comment_scope DebugVerbosity.all_scopes
        (choice (Parsing.map null_name (λ _. ok null) ∷ super_name ∷ []))
