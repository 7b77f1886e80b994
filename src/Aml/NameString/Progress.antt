-- ===== src/Aml/NameString/Progress.antt =====
-- aml/src/name_object.rs and aml/src/misc.rs: the parsers of names end and consume at least a byte.
use acpi_rs.Prelude.{ℕ, ◌≤◌, ◌+◌, ◌*◌, [], ◌∷◌, arith, ◌==◌, Bool-cases, inl, inr}
use acpi_rs.Aml.Segment.{is_lead_name_char, is_name_char}
use acpi_rs.Aml.Parsing
use acpi_rs.Aml.Parsing.{
  ParseResult, parsed, Parser, and_then, consume, then_next, n_of, choice, take_while,
}
use acpi_rs.Aml.Parsing.Progress.{
  IsAdvancing, Reaches-refl, Progress-weaken, and_then-Progress, and_then-within, or_restore-within,
  Reaches-weaken, Reaches-trans, map-IsAdvancing, then_next-IsAdvancing, consume-IsAdvancing,
  take-IsAdvancing,
}
use acpi_rs.Aml.Parsing.Loops.{n_of-IsAdvancing, choice-IsAdvancing, take_while-IsAdvancing}
use acpi_rs.Aml.Parsing.Scope.{DebugContext, DebugVerbosity, comment_scope-IsAdvancing}
use acpi_rs.Aml.Opcode.{
  opcode, opcode-IsAdvancing, null_name_code, dual_name_prefix, multi_name_prefix, root_char,
  prefix_char,
}
use acpi_rs.Aml.NameString.{
  name_seg, null_name, dual_name_path, multi_name_path, name_path, root_name_string, prefix_path,
  name_string_body, name_string, not_empty,
}

module _ (C V : Type 0) where
  name_seg-IsAdvancing : IsAdvancing {C = C} {V = V} 4 name_seg
  unfolding name_seg
  name_seg-IsAdvancing input context =
      and_then-Progress 1 3 input (consume is_lead_name_char input context) _
        (consume-IsAdvancing C V is_lead_name_char input context)
        (λ input_1 context_1 char_1.
          and_then-Progress 1 2 input_1 (consume is_name_char input_1 context_1) _
            (consume-IsAdvancing C V is_name_char input_1 context_1)
            (λ input_2 context_2 char_2.
              and_then-Progress 1 1 input_2 (consume is_name_char input_2 context_2) _
                (consume-IsAdvancing C V is_name_char input_2 context_2)
                (λ input_3 context_3 char_3.
                  and_then-Progress 1 0 input_3 (consume is_name_char input_3 context_3) _
                    (consume-IsAdvancing C V is_name_char input_3 context_3)
                    (λ input_4 context_4 char_4. Reaches-refl input_4))))

  weaken-IsAdvancing :
      {R : Type 0} (m n : ℕ) (p : Parser C V R) → m ≤ n → IsAdvancing n p → IsAdvancing m p
  weaken-IsAdvancing m n p h k input context =
      Progress-weaken m n input (p input context) h (k input context)

  null_name-IsAdvancing : IsAdvancing {C = C} {V = V} 1 null_name
  unfolding null_name
  null_name-IsAdvancing =
      map-IsAdvancing 1 (opcode null_name_code) _ (opcode-IsAdvancing C V null_name_code)

  dual_name_path-IsAdvancing : IsAdvancing {C = C} {V = V} 9 dual_name_path
  unfolding dual_name_path
  dual_name_path-IsAdvancing =
      map-IsAdvancing 9 (then_next (then_next (opcode dual_name_prefix) name_seg) name_seg) _ (
        then_next-IsAdvancing 5 4 (then_next (opcode dual_name_prefix) name_seg) name_seg
          (then_next-IsAdvancing 1 4 (opcode dual_name_prefix) name_seg
            (opcode-IsAdvancing C V dual_name_prefix) name_seg-IsAdvancing)
          name_seg-IsAdvancing)

  multi_name_path-IsAdvancing : IsAdvancing {C = C} {V = V} 2 multi_name_path
  unfolding multi_name_path
  multi_name_path-IsAdvancing input context =
      and_then-within 2 2 input (then_next (opcode multi_name_prefix) Parsing.take input context) _
        (then_next-IsAdvancing 1 1 (opcode multi_name_prefix) Parsing.take
          (opcode-IsAdvancing C V multi_name_prefix) (take-IsAdvancing C V) input context)
        (λ rest after (_, seg_count) reached.
          or_restore-within 0 2 input rest (n_of name_seg seg_count rest after) _
            (Progress-weaken 0 (seg_count * 4) rest _ (omega arith)
              (n_of-IsAdvancing name_seg 4 seg_count name_seg-IsAdvancing rest after))
            (λ last final segs further.
              Reaches-weaken 2 (2 + 0) input last (omega arith)
                (Reaches-trans 2 0 input rest last reached further)))

  name_path-IsAdvancing : IsAdvancing {C = C} {V = V} 1 name_path
  unfolding name_path
  name_path-IsAdvancing = choice-IsAdvancing 1 _ (
    null_name-IsAdvancing,
    (
      weaken-IsAdvancing 1 9 dual_name_path (omega arith) dual_name_path-IsAdvancing,
      (
        weaken-IsAdvancing 1 2 multi_name_path (omega arith) multi_name_path-IsAdvancing,
        (
          map-IsAdvancing 1 name_seg _
              (weaken-IsAdvancing 1 4 name_seg (omega arith) name_seg-IsAdvancing),
          tt,
        ),
      ),
    ),
  )

  name_string_body-IsAdvancing : IsAdvancing {C = C} {V = V} 1 name_string_body
  unfolding name_string_body root_name_string prefix_path
  name_string_body-IsAdvancing [] context = Reaches-refl []
  name_string_body-IsAdvancing (b ∷ bs) context = elim (Bool-cases (b == root_char)) [
    | inl e ↦ rw e (
        weaken-IsAdvancing 1 2 _ (omega arith)
          (map-IsAdvancing 2 (then_next (opcode root_char) name_path) _ (
            then_next-IsAdvancing 1 1 (opcode root_char) name_path
              (opcode-IsAdvancing C V root_char) name_path-IsAdvancing))
          (b ∷ bs) context)
    | inr e ↦ elim (Bool-cases (b == prefix_char)) [
      | inl f ↦ rw e (
          rw f (
            map-IsAdvancing 1 (then_next (take_while (opcode prefix_char)) name_path) _
              (then_next-IsAdvancing 0 1 (take_while (opcode prefix_char)) name_path
                (take_while-IsAdvancing (opcode prefix_char) (opcode-IsAdvancing C V prefix_char))
                name_path-IsAdvancing)
              (b ∷ bs) context))
      | inr f ↦
          rw e (rw f (map-IsAdvancing 1 name_path not_empty name_path-IsAdvancing (b ∷ bs) context))
    ]
  ]

module _ {C : Type 0} ⦃d : DebugContext C⦄ (V : Type 0) where
  -- On every stream and context, `name_string` ends: it succeeds with the stream after at least
  -- one consumed byte, fails with a stream that is what is left of the input, or panics.
  pub name_string-IsAdvancing : IsAdvancing {C = C} {V = V} 1 name_string
  unfolding name_string
  name_string-IsAdvancing =
      comment_scope-IsAdvancing DebugVerbosity.all_scopes 1 name_string_body
        (name_string_body-IsAdvancing C V)
