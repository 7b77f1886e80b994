-- ===== src/Aml/Term/Returns.antt =====
-- aml/src/lib.rs, statement.rs and term_object.rs: a method that returns the value of an expression.
use acpi_rs.Prelude.{
  ℕ, suc, ◌%◌, ◌^◌, ◌<◌, ltb, true, ◌≡◌, refl, ap, sym, subst, List, [], ◌∷◌, ◌++◌, append-nil,
  length, some, ok, arith,
}
use acpi_rs.BitField.{BitField}
use acpi_rs.Bytes.Bits.{BitVec}
use acpi_rs.Aml.Types.{AmlName, Result}
use acpi_rs.Aml.Level.{LevelType}
use acpi_rs.Aml.Namespace
use acpi_rs.Aml.Parsing
use acpi_rs.Aml.Parsing.{
  PkgLength, checked_sub, parsed, failed, return_value, and_then, choice, recover, then_next,
  map_with_context, finish,
}
use acpi_rs.Aml.Parsing.Scope.{DebugVerbosity, comment_scope, enter_scope, leave_scope, is_shown}
use acpi_rs.Aml.PkgLength.{from_raw_length, still_parsing}
use acpi_rs.Aml.Opcode.{opcode, ext_opcode}
use acpi_rs.Aml.Value.{AmlValue, method, aml}
use acpi_rs.Aml.Value.Arguments.{Slots}
use acpi_rs.Aml.Context.{Handler, Context, context_debug, unwrap}
use acpi_rs.Aml.Context.Methods.{
  whole_length, method_result, execute, exit_method, run_method, invoke_value, invoke_method,
  enter_method,
}
use acpi_rs.Aml.Statement.{
  statement_opcode, def_break, def_breakpoint, def_continue, def_fatal, def_if_else, def_noop,
  def_return,
}
use acpi_rs.Aml.Term.{Terms, terms, term_object, term_list_with, namespace_modifier, named_obj}
use acpi_rs.Aml.Term.Fields.{
  def_create_bit_field, def_create_byte_field, def_create_word_field, def_create_dword_field,
  def_create_qword_field, def_create_field, def_field,
}
use acpi_rs.Aml.Term.Named.{
  def_name, def_scope, def_op_region, def_method, def_external, def_device, def_processor,
  def_power_res, def_thermal_zone, def_mutex,
}
use acpi_rs.Aml.Term.Outcomes.{quiet, Ends}
use acpi_rs.Aml.Term.Eval.{Expr, IsWritten, depth, expr_bytes, eval}
use acpi_rs.Aml.Term.Evaluate.{terms-Ends}

checked_sub_self : (n : ℕ) → checked_sub n n ≡ some 0
unfolding checked_sub
checked_sub_self n = ground arith

abbrev whole : ℕ → PkgLength
whole n = record { raw_length = n; end_offset = 0 }

from_raw_length_lem :
    (code : List ℕ)
    → from_raw_length code (length code % 2 ^ 32) ≡ ok (whole (length code % 2 ^ 32))
unfolding from_raw_length
from_raw_length_lem code = rw (from_raw_length, checked_sub_self (length code % 2 ^ 32)) refl

whole_length_lem : (code : List ℕ) → whole_length code ≡ ok (whole (length code % 2 ^ 32))
unfolding whole_length
whole_length_lem code = ap unwrap (from_raw_length_lem code)

module _ {W : Type 0} ⦃bits : BitField⦄ ⦃bv : BitVec⦄ ⦃h : Handler W⦄
    (call_native : ℕ → Context W → Result AmlValue × Context W) (t : Terms W) where
  term_object-return :
      (c : Context W) (xs : List ℕ) (v : AmlValue)
      → t.term_arg xs (quiet c) ≡ parsed [] (quiet c) v
      → (n : List ℕ) × (term_object call_native t (0xa4 ∷ xs) (quiet c)
          ≡ failed n (quiet c) (return_value v))
  unfolding term_object namespace_modifier named_obj statement_opcode def_break def_breakpoint
      def_continue def_fatal def_if_else def_noop def_return comment_scope enter_scope leave_scope
      is_shown choice recover and_then then_next opcode ext_opcode Parsing.map map_with_context
      finish Parsing.discard_result def_create_bit_field def_create_byte_field def_create_word_field
      def_create_dword_field def_create_qword_field def_create_field def_field def_name def_scope
      def_op_region def_method def_external def_device def_processor def_power_res def_thermal_zone
      def_mutex
  term_object-return c xs v e = (0xa4 ∷ xs, rw e refl)

module _ {W : Type 0} ⦃bits : BitField⦄ ⦃bv : BitVec⦄ ⦃h : Handler W⦄
    (call_native : ℕ → Context W → Result AmlValue × Context W) where
  term_arg-value :
      (e : Expr) (n : ℕ) (c : Context W) (v : AmlValue)
      → IsWritten e
      → depth e < n
      → eval (quiet c) e ≡ ok v
      → (terms call_native n).term_arg (expr_bytes e) (quiet c) ≡ parsed [] (quiet c) v
  term_arg-value e n c v w k r =
      subst (λ s. (terms call_native n).term_arg s (quiet c) ≡ parsed [] (quiet c) v)
        (append-nil (expr_bytes e))
        (subst
          (λ x. Ends ((terms call_native n).term_arg (expr_bytes e ++ []) (quiet c)) [] (quiet c) x)
          r (terms-Ends call_native e n c [] w k))

  execute-return :
      (e : Expr) (n : ℕ) (c : Context W) (v : AmlValue)
      → IsWritten e
      → length (0xa4 ∷ expr_bytes e) < 2 ^ 32
      → depth e < n
      → c.verbosity ≡ DebugVerbosity.none
      → eval c e ≡ ok v
      → execute (terms call_native (suc n)).term_list call_native (aml (0xa4 ∷ expr_bytes e)) c
        ≡ (ok v, c)
  unfolding execute terms term_list_with still_parsing and_then method_result
  execute-return e n c v w l k q r =
      let code : List ℕ = 0xa4 ∷ expr_bytes e in
      let same : quiet c ≡ c = ap (λ d. record c { verbosity = d }) (sym q) in
      let more : ltb 0 (length code % 2 ^ 32) ≡ true = ground (arith, l) in
      let runs : (at : List ℕ) × (term_object call_native (terms call_native n) code c
            ≡ failed at c (return_value v)) =
        subst
          (λ d.
            (at : List ℕ) × (term_object call_native (terms call_native n) code d
              ≡ failed at d (return_value v)))
          same
          (term_object-return call_native (terms call_native n) c (expr_bytes e) v
            (term_arg-value e n c v w k (subst (λ d. eval d e ≡ ok v) (sym same) r))) in
      rw (whole_length_lem code, more, runs.1) refl

  -- A method whose code returns the value of an expression, where comments are off, and where the
  -- level of its locals can be added and removed again, returns what the evaluator gives for the
  -- expression in the frame of the arguments; method context and scope are those of before. Fuel of
  -- one more than what is above the number of operators is enough.
  pub invoke_method-return :
      (e : Expr) (n : ℕ) (c : Context W) (path : AmlName) (args : Slots) (flags : ℕ) (v : AmlValue)
      (with_level without : Namespace.Namespace AmlValue)
      → IsWritten e
      → length (0xa4 ∷ expr_bytes e) < 2 ^ 32
      → depth e < n
      → c.verbosity ≡ DebugVerbosity.none
      → Namespace.get_by_path c.namespace path ≡ ok (method flags (aml (0xa4 ∷ expr_bytes e)))
      → Namespace.add_level c.namespace path LevelType.method_locals ≡ (ok tt, with_level)
      → Namespace.remove_level with_level path ≡ (ok tt, without)
      → eval (record (enter_method c path args) { namespace = with_level }) e ≡ ok v
      → invoke_method (terms call_native (suc n)).term_list call_native c path args
        ≡ (ok v, record c { namespace = without })
  unfolding invoke_method invoke_value run_method exit_method
  invoke_method-return e n c path args flags v with_level without w l k q found added removed r =
      rw
        (
          found,
          added,
          execute-return e n (record (enter_method c path args) { namespace = with_level }) v w l k
              q r,
          removed,
        )
        refl
