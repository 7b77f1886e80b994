-- ===== src/Aml/Term/Dispatch.antt =====
-- aml/src/term_object.rs and expression.rs: which parser `term_arg` gets to by the
-- first byte of the stream.
use acpi_rs.Prelude.{
  ℕ, zero, suc, ◌+◌, ◌^◌, ◌<◌, ltb, ◌≡◌, refl, ap, List, ◌∷◌, ◌++◌, length, false, arith, ok,
}
use acpi_rs.BitField.{BitField}
use acpi_rs.Bytes.{le_bytes, from_le_bytes-le_bytes}
use acpi_rs.Bytes.Bits.{BitVec}
use acpi_rs.Aml.Types.{Result}
use acpi_rs.Aml.NameString.{arg_obj, local_obj, numbered_parser}
use acpi_rs.Aml.Parsing
use acpi_rs.Aml.Parsing.{parsed, and_then, choice, recover, then_next, map_with_context, finish}
use acpi_rs.Aml.Parsing.Scope.{comment_scope, enter_scope, leave_scope, is_shown}
use acpi_rs.Aml.Opcode.{opcode, ext_opcode}
use acpi_rs.Aml.Value.{AmlValue, integer}
use acpi_rs.Aml.Context.{Handler, Context, context_debug}
use acpi_rs.Aml.Context.Store.{current_arg, local_value}
use acpi_rs.Aml.Action.{act}
use acpi_rs.Aml.Expression.{
  def_package, expression_opcode, def_increment, def_add, def_and, def_buffer, def_concat,
  def_concat_res, def_l_or, left_shift, def_l_equal, def_l_greater, def_l_less, def_l_greater_equal,
  def_l_less_equal, def_l_not_equal, def_mid, def_decrement,
}
use acpi_rs.Aml.Term.{Terms, term_arg_with, data_object, expression}
use acpi_rs.Aml.Term.Constants.{computational_data, const_parser, constant, revision}
use acpi_rs.Aml.Term.Outcomes.{quiet, Ends, Ends-scoped, Ends-finish}
use acpi_rs.Aml.Term.Eval.{Operator, plus, meet, shift_up, shift_down, code_of}
use acpi_rs.Aml.Term.Operators.{parser_of}

module _ {W : Type 0} ⦃bits : BitField⦄ ⦃bv : BitVec⦄ ⦃h : Handler W⦄
    (call_native : ℕ → Context W → Result AmlValue × Context W) (t : Terms W) where
  -- How the first byte of an operator leads to its parser: the alternatives before it fail.
  pub term_arg-operator :
      (op : Operator) (c : Context W) (xs rest : List ℕ) (x : Result AmlValue)
      → Ends (parser_of t op (code_of op ∷ xs) (quiet c)) rest (quiet c) x
      → Ends (term_arg_with call_native t (code_of op ∷ xs) (quiet c)) rest (quiet c) x
  unfolding term_arg_with data_object expression expression_opcode def_package computational_data
      const_parser constant revision comment_scope enter_scope leave_scope is_shown choice recover
      and_then then_next opcode ext_opcode Parsing.map map_with_context finish arg_obj local_obj
      numbered_parser def_add def_and def_buffer def_concat def_concat_res def_increment
      def_decrement def_l_equal def_l_greater def_l_less def_l_greater_equal def_l_less_equal
      def_l_not_equal def_l_or def_mid left_shift Parsing.take Parsing.discard_result code_of
  term_arg-operator plus c xs rest x k =
      Ends-scoped (0x72 ∷ xs) rest c _ x _
        (Ends-scoped (0x72 ∷ xs) rest c (parser_of t plus (0x72 ∷ xs) (quiet c)) x _ k)
  term_arg-operator meet c xs rest x k =
      Ends-scoped (0x7b ∷ xs) rest c _ x _
        (Ends-scoped (0x7b ∷ xs) rest c (parser_of t meet (0x7b ∷ xs) (quiet c)) x _ k)
  term_arg-operator shift_up c xs rest x k =
      Ends-scoped (0x79 ∷ xs) rest c _ x _
        (Ends-scoped (0x79 ∷ xs) rest c (parser_of t shift_up (0x79 ∷ xs) (quiet c)) x _ k)
  term_arg-operator shift_down c xs rest x k =
      Ends-scoped (0x7a ∷ xs) rest c _ x _
        (Ends-scoped (0x7a ∷ xs) rest c (parser_of t shift_down (0x7a ∷ xs) (quiet c)) x _ k)

  pub term_arg-either :
      (c : Context W) (xs rest : List ℕ) (x : Result AmlValue)
      → Ends (def_l_or t.term_arg (0x91 ∷ xs) (quiet c)) rest (quiet c) x
      → Ends (term_arg_with call_native t (0x91 ∷ xs) (quiet c)) rest (quiet c) x
  unfolding term_arg_with data_object expression expression_opcode def_package computational_data
      const_parser constant revision comment_scope enter_scope leave_scope is_shown choice recover
      and_then then_next opcode ext_opcode Parsing.map map_with_context finish arg_obj local_obj
      numbered_parser def_add def_and def_buffer def_concat def_concat_res def_increment
      def_decrement def_l_equal def_l_greater def_l_less def_l_greater_equal def_l_less_equal
      def_l_not_equal def_l_or def_mid left_shift Parsing.take Parsing.discard_result code_of
  term_arg-either c xs rest x k =
      Ends-scoped (0x91 ∷ xs) rest c _ x _
        (Ends-scoped (0x91 ∷ xs) rest c (def_l_or t.term_arg (0x91 ∷ xs) (quiet c)) x _ k)

  pub term_arg-argument :
      (n : ℕ) (c : Context W) (rest : List ℕ)
      → n < 7
      → Ends
          (term_arg_with call_native t ((0x68 + n) ∷ rest) (quiet c))
          rest
          (quiet c)
          (current_arg (quiet c) n)
  unfolding term_arg_with data_object expression expression_opcode def_package computational_data
      const_parser constant revision comment_scope enter_scope leave_scope is_shown choice recover
      and_then then_next opcode ext_opcode Parsing.map map_with_context finish arg_obj local_obj
      numbered_parser def_add def_and def_buffer def_concat def_concat_res def_increment
      def_decrement def_l_equal def_l_greater def_l_less def_l_greater_equal def_l_less_equal
      def_l_not_equal def_l_or def_mid left_shift Parsing.take Parsing.discard_result Parsing.id act
  term_arg-argument zero c rest l =
      Ends-scoped (0x68 ∷ rest) rest c _ (current_arg (quiet c) 0) _
        (Ends-finish (0x68 ∷ rest) rest (quiet c) (current_arg (quiet c) 0))
  term_arg-argument (suc zero) c rest l =
      Ends-scoped (0x69 ∷ rest) rest c _ (current_arg (quiet c) 1) _
        (Ends-finish (0x69 ∷ rest) rest (quiet c) (current_arg (quiet c) 1))
  term_arg-argument (suc (suc zero)) c rest l =
      Ends-scoped (0x6a ∷ rest) rest c _ (current_arg (quiet c) 2) _
        (Ends-finish (0x6a ∷ rest) rest (quiet c) (current_arg (quiet c) 2))
  term_arg-argument (suc (suc (suc zero))) c rest l =
      Ends-scoped (0x6b ∷ rest) rest c _ (current_arg (quiet c) 3) _
        (Ends-finish (0x6b ∷ rest) rest (quiet c) (current_arg (quiet c) 3))
  term_arg-argument (suc (suc (suc (suc zero)))) c rest l =
      Ends-scoped (0x6c ∷ rest) rest c _ (current_arg (quiet c) 4) _
        (Ends-finish (0x6c ∷ rest) rest (quiet c) (current_arg (quiet c) 4))
  term_arg-argument (suc (suc (suc (suc (suc zero))))) c rest l =
      Ends-scoped (0x6d ∷ rest) rest c _ (current_arg (quiet c) 5) _
        (Ends-finish (0x6d ∷ rest) rest (quiet c) (current_arg (quiet c) 5))
  term_arg-argument (suc (suc (suc (suc (suc (suc zero)))))) c rest l =
      Ends-scoped (0x6e ∷ rest) rest c _ (current_arg (quiet c) 6) _
        (Ends-finish (0x6e ∷ rest) rest (quiet c) (current_arg (quiet c) 6))
  term_arg-argument n c rest l = absurd (omega (arith, l))

  pub term_arg-variable :
      (n : ℕ) (c : Context W) (rest : List ℕ)
      → n < 8
      → Ends
          (term_arg_with call_native t ((0x60 + n) ∷ rest) (quiet c))
          rest
          (quiet c)
          (local_value (quiet c) n)
  unfolding term_arg_with data_object expression expression_opcode def_package computational_data
      const_parser constant revision comment_scope enter_scope leave_scope is_shown choice recover
      and_then then_next opcode ext_opcode Parsing.map map_with_context finish arg_obj local_obj
      numbered_parser def_add def_and def_buffer def_concat def_concat_res def_increment
      def_decrement def_l_equal def_l_greater def_l_less def_l_greater_equal def_l_less_equal
      def_l_not_equal def_l_or def_mid left_shift Parsing.take Parsing.discard_result Parsing.id act
  term_arg-variable zero c rest l =
      Ends-scoped (0x60 ∷ rest) rest c _ (local_value (quiet c) 0) _
        (Ends-finish (0x60 ∷ rest) rest (quiet c) (local_value (quiet c) 0))
  term_arg-variable (suc zero) c rest l =
      Ends-scoped (0x61 ∷ rest) rest c _ (local_value (quiet c) 1) _
        (Ends-finish (0x61 ∷ rest) rest (quiet c) (local_value (quiet c) 1))
  term_arg-variable (suc (suc zero)) c rest l =
      Ends-scoped (0x62 ∷ rest) rest c _ (local_value (quiet c) 2) _
        (Ends-finish (0x62 ∷ rest) rest (quiet c) (local_value (quiet c) 2))
  term_arg-variable (suc (suc (suc zero))) c rest l =
      Ends-scoped (0x63 ∷ rest) rest c _ (local_value (quiet c) 3) _
        (Ends-finish (0x63 ∷ rest) rest (quiet c) (local_value (quiet c) 3))
  term_arg-variable (suc (suc (suc (suc zero)))) c rest l =
      Ends-scoped (0x64 ∷ rest) rest c _ (local_value (quiet c) 4) _
        (Ends-finish (0x64 ∷ rest) rest (quiet c) (local_value (quiet c) 4))
  term_arg-variable (suc (suc (suc (suc (suc zero))))) c rest l =
      Ends-scoped (0x65 ∷ rest) rest c _ (local_value (quiet c) 5) _
        (Ends-finish (0x65 ∷ rest) rest (quiet c) (local_value (quiet c) 5))
  term_arg-variable (suc (suc (suc (suc (suc (suc zero)))))) c rest l =
      Ends-scoped (0x66 ∷ rest) rest c _ (local_value (quiet c) 6) _
        (Ends-finish (0x66 ∷ rest) rest (quiet c) (local_value (quiet c) 6))
  term_arg-variable (suc (suc (suc (suc (suc (suc (suc zero))))))) c rest l =
      Ends-scoped (0x67 ∷ rest) rest c _ (local_value (quiet c) 7) _
        (Ends-finish (0x67 ∷ rest) rest (quiet c) (local_value (quiet c) 7))
  term_arg-variable n c rest l = absurd (omega (arith, l))

  take_uint-le_bytes :
      (n : ℕ) (rest : List ℕ) (c : Context W)
      → n < 2 ^ 64
      → Parsing.take_uint {V = AmlValue} 8 (le_bytes 8 n ++ rest) c ≡ parsed rest c n
  unfolding Parsing.take_uint
  take_uint-le_bytes n rest c l =
      let longer : ltb (length (le_bytes 8 n ++ rest)) 8 ≡ false = ground arith in
      rw longer (ap (parsed rest c) (from_le_bytes-le_bytes 8 n (omega (arith, l))))

  pub term_arg-constant :
      (n : ℕ) (c : Context W) (rest : List ℕ)
      → n < 2 ^ 64
      → Ends
          (term_arg_with call_native t (0x0e ∷ le_bytes 8 n ++ rest) (quiet c))
          rest
          (quiet c)
          (ok (integer n))
  unfolding term_arg_with data_object expression expression_opcode def_package computational_data
      const_parser constant revision comment_scope enter_scope leave_scope is_shown choice recover
      and_then then_next opcode ext_opcode Parsing.map map_with_context finish arg_obj local_obj
      numbered_parser def_add def_and def_buffer def_concat def_concat_res def_increment
      def_decrement def_l_equal def_l_greater def_l_less def_l_greater_equal def_l_less_equal
      def_l_not_equal def_l_or def_mid left_shift Parsing.take Parsing.discard_result
  term_arg-constant n c rest l = rw (take_uint-le_bytes n rest (quiet c) l) refl
