-- ===== src/Aml/Term/Evaluate.antt =====
-- aml/src/term_object.rs and expression.rs: `term_arg` on the code of an expression.
use acpi_rs.Prelude.{
  ℕ, zero, suc, ◌<◌, ◌≡◌, ◌≢◌, sym, ap, List, [], ◌∷◌, ◌++◌, arith, append_assoc, subst, ◌∙◌, err,
  ◌>>=◌,
}
use acpi_rs.BitField.{BitField}
use acpi_rs.Bytes.Bits.{BitVec}
use acpi_rs.Aml.Types.{Result, wrong_parser}
use acpi_rs.Aml.Parsing.Scope.{DebugVerbosity}
use acpi_rs.Aml.Value.{AmlValue}
use acpi_rs.Aml.Context.{Handler, Context, context_debug}
use acpi_rs.Aml.Term.{Terms, term_arg_with}
use acpi_rs.Aml.Term.Outcomes.{quiet, Ends}
use acpi_rs.Aml.Term.Eval.{
  Operator, plus, meet, shift_up, shift_down, code_of, compute, both, disjunction, on_integers_lem,
  logical_or_lem, on_numbers,
}
use acpi_rs.Aml.Term.Eval.{
  Expr, argument, variable, binary, either, IsWritten, depth, expr_bytes, eval,
}
use acpi_rs.Aml.Term.Eval as Eval
use acpi_rs.Aml.Term.{terms}
use acpi_rs.Aml.Term.Outcomes.{Yields, Ends-Yields}
use acpi_rs.Aml.Term.Operators.{two_args-Ends, parser_of-Ends, def_l_or-Ends}
use acpi_rs.Aml.Term.Dispatch.{
  term_arg-operator, term_arg-either, term_arg-argument, term_arg-variable, term_arg-constant,
}

module _ {W : Type 0} ⦃bits : BitField⦄ ⦃bv : BitVec⦄ ⦃h : Handler W⦄
    (call_native : ℕ → Context W → Result AmlValue × Context W) where
  pub terms-Ends :
      (e : Expr) (n : ℕ) (c : Context W) (rest : List ℕ)
      → IsWritten e
      → depth e < n
      → Ends
          ((terms call_native n).term_arg (expr_bytes e ++ rest) (quiet c))
          rest
          (quiet c)
          (eval (quiet c) e)
  unfolding terms expr_bytes eval depth
  terms-Ends e zero c rest w l = absurd (omega (arith, l))
  terms-Ends (Eval.constant k) (suc n) c rest w l =
      term_arg-constant call_native (terms call_native n) k c rest w
  terms-Ends (argument k) (suc n) c rest w l =
      term_arg-argument call_native (terms call_native n) k c rest w
  terms-Ends (variable k) (suc n) c rest w l =
      term_arg-variable call_native (terms call_native n) k c rest w
  terms-Ends (binary op a b) (suc n) c rest (wa, wb) l =
      let t : Terms W = terms call_native n in
      let after : List ℕ = expr_bytes b ++ 0x00 ∷ rest in
      let split : (expr_bytes a ++ expr_bytes b ++ 0x00 ∷ []) ++ rest ≡ expr_bytes a ++ after =
        append_assoc (expr_bytes a ++ expr_bytes b) (0x00 ∷ []) rest
        ∙ append_assoc (expr_bytes a) (expr_bytes b) (0x00 ∷ rest) in
      subst
        (λ s.
          Ends (term_arg_with call_native t (code_of op ∷ s) (quiet c)) rest (quiet c)
            (both (eval (quiet c) a) (eval (quiet c) b) >>= on_numbers (compute op) (quiet c)))
        (sym split)
        (term_arg-operator call_native t op c (expr_bytes a ++ after) rest _ (
          parser_of-Ends t op c (expr_bytes a ++ after) rest
            (both (eval (quiet c) a) (eval (quiet c) b))
            (two_args-Ends t (quiet c) (expr_bytes a ++ after) after (0x00 ∷ rest)
              (eval (quiet c) a) (eval (quiet c) b) (terms-Ends a n c after wa (omega (arith, l)))
              (terms-Ends b n c (0x00 ∷ rest) wb (omega (arith, l))))))
  terms-Ends (either a b) (suc n) c rest (wa, wb) l =
      let t : Terms W = terms call_native n in
      let after : List ℕ = expr_bytes b ++ rest in
      subst
        (λ s.
          Ends (term_arg_with call_native t (0x91 ∷ s) (quiet c)) rest (quiet c)
            (both (eval (quiet c) a) (eval (quiet c) b) >>= disjunction))
        (sym (append_assoc (expr_bytes a) (expr_bytes b) rest))
        (term_arg-either call_native t c (expr_bytes a ++ after) rest _ (
          def_l_or-Ends t c (expr_bytes a ++ after) rest
            (both (eval (quiet c) a) (eval (quiet c) b))
            (two_args-Ends t (quiet c) (expr_bytes a ++ after) after rest (eval (quiet c) a)
              (eval (quiet c) b) (terms-Ends a n c after wa (omega (arith, l)))
              (terms-Ends b n c rest wb (omega (arith, l))))))

  -- On the code of a tree of constants, arguments, locals, additions, ands, shifts and logical ors,
  -- with null targets, `term_arg` agrees with an evaluator of trees, where comments are off: it ends
  -- with the value behind the code and the context as it was, fails with the same error, or panics
  -- as the evaluator does. Fuel above the number of operators is enough; the evaluator's error must
  -- not be `wrong_parser`.
  pub terms-eval :
      (e : Expr) (n : ℕ) (c : Context W) (rest : List ℕ)
      → IsWritten e
      → depth e < n
      → c.verbosity ≡ DebugVerbosity.none
      → eval c e ≢ err wrong_parser
      → Yields ((terms call_native n).term_arg (expr_bytes e ++ rest) c) rest c (eval c e)
  terms-eval e n c rest w l q k =
      let same : quiet c ≡ c = ap (λ v. record c { verbosity = v }) (sym q) in
      Ends-Yields _ rest c (eval c e) k (
        subst
          (λ d. Ends ((terms call_native n).term_arg (expr_bytes e ++ rest) d) rest d (eval d e))
          same (terms-Ends e n c rest w l))
