-- ===== src/Aml/Term/Operators.antt =====
-- aml/src/expression.rs: the parsers of operators, given what their operands end with.
use acpi_rs.Prelude.{ℕ, ◌≡◌, refl, sym, ap, List, ◌∷◌, ok, err, panic, ◌>>=◌}
use acpi_rs.BitField.{BitField}
use acpi_rs.Bytes.Bits.{BitVec}
use acpi_rs.Aml.Types.{Result}
use acpi_rs.Aml.NameString.{null, target, null_name}
use acpi_rs.Aml.Parsing
use acpi_rs.Aml.Parsing.{parsed, and_then, choice, recover, then_next, map_with_context, finish}
use acpi_rs.Aml.Parsing.Scope.{DebugVerbosity, comment_scope, enter_scope, leave_scope, is_shown}
use acpi_rs.Aml.Opcode.{opcode}
use acpi_rs.Aml.Value.{AmlValue}
use acpi_rs.Aml.Context.{Handler, Context, context_debug}
use acpi_rs.Aml.Action.{P, then_do}
use acpi_rs.Aml.Expression.{
  def_add, def_and, def_l_or, left_shift, right_shift, two_args, two_args_target, after_opcode,
  after_opcode_do,
}
use acpi_rs.Aml.Expression.Operations as Operations
use acpi_rs.Aml.Expression.Operations.{on_integers, shifted_left, shifted_right}
use acpi_rs.Aml.Term.{Terms}
use acpi_rs.Aml.Term.Outcomes.{
  quiet, Ends, Ends-and_then, Ends-then_do, Ends-after_opcode, Ends-after_opcode_do,
}
use acpi_rs.Aml.Term.Eval.{
  Operator, plus, meet, shift_up, shift_down, code_of, compute, both, disjunction, on_integers_lem,
  logical_or_lem, on_numbers,
}

bind_pure :
    {A B D : Type 0} (x : Result A) (b : B) (g : A × B → Result D)
    → ((x >>= λ a. ok (a, b)) >>= g) ≡ (x >>= λ a. g (a, b))
bind_pure (ok a) b g = refl
bind_pure (err e) b g = refl
bind_pure panic b g = refl

abbrev second_or : {A B : Type 0} → B → Result (A × B) → B
second_or b (ok p) = p.1
second_or b _ = b

bind_pure-second :
    {A B : Type 0} (x : Result A) (b : B) (v : A × B) → (x >>= λ a. ok (a, b)) ≡ ok v → v.1 ≡ b
bind_pure-second (ok a) b v e = sym (ap (second_or b) e)
bind_pure-second (err e) b v k = sym (ap (second_or b) k)
bind_pure-second panic b v k = sym (ap (second_or b) k)

module _ {W : Type 0} ⦃bits : BitField⦄ ⦃bv : BitVec⦄ ⦃h : Handler W⦄ (t : Terms W) where
  pub two_args-Ends :
      (c : Context W) (xs ys rest : List ℕ) (x y : Result AmlValue)
      → Ends (t.term_arg xs c) ys c x
      → Ends (t.term_arg ys c) rest c y
      → Ends (two_args t.term_arg xs c) rest c (both x y)
  unfolding then_next
  two_args-Ends c xs ys rest x y k l =
      Ends-and_then ys rest c (t.term_arg xs c) x _ _ k
        (λ a _. Ends-and_then rest rest c (t.term_arg ys c) y _ _ l (λ b _. refl))

  two_args_target-Ends :
      (c : Context W) (xs rest : List ℕ) (x : Result (AmlValue × AmlValue))
      → Ends (two_args t.term_arg xs (quiet c)) (0x00 ∷ rest) (quiet c) x
      → Ends (two_args_target t.term_arg xs (quiet c)) rest (quiet c) (x >>= λ p. ok (p, null))
  unfolding then_next target comment_scope enter_scope leave_scope is_shown choice recover and_then
      Parsing.map null_name opcode finish
  two_args_target-Ends c xs rest x k =
      Ends-and_then (0x00 ∷ rest) rest (quiet c) (two_args t.term_arg xs (quiet c)) x _ _ k
        (λ p _. refl)

  module _ (f : ℕ → ℕ → Result ℕ) (code : ℕ) (c : Context W) (xs rest : List ℕ)
      (x : Result (AmlValue × AmlValue))
      (k : Ends (two_args t.term_arg xs (quiet c)) (0x00 ∷ rest) (quiet c) x) where
    -- The closure inside the comments, and outside of them.
    inside :
        Ends
          (after_opcode code DebugVerbosity.all_scopes
            (then_do (two_args_target t.term_arg) (on_integers f))
            (code ∷ xs)
            (quiet c))
          rest
          (quiet c)
          (x >>= on_numbers f (quiet c))
    inside = rw (sym (bind_pure x null (λ p. on_numbers f (quiet c) p.0))) (
        Ends-after_opcode code DebugVerbosity.all_scopes xs rest c _ _ refl (
          Ends-then_do xs rest (quiet c) (two_args_target t.term_arg) (on_integers f) _
            (λ p. on_numbers f (quiet c) p.0)
            (λ p e. on_integers_lem f (quiet c) p.0 p.1 (bind_pure-second x null p e))
            (two_args_target-Ends c xs rest x k)))

    outside :
        Ends
          (after_opcode_do code DebugVerbosity.scopes
            (two_args_target t.term_arg)
            (on_integers f)
            (code ∷ xs)
            (quiet c))
          rest
          (quiet c)
          (x >>= on_numbers f (quiet c))
    outside = rw (sym (bind_pure x null (λ p. on_numbers f (quiet c) p.0))) (
        Ends-after_opcode_do code DebugVerbosity.scopes xs rest c (two_args_target t.term_arg)
          (on_integers f) _ (λ p. on_numbers f (quiet c) p.0) refl
          (λ p e. on_integers_lem f (quiet c) p.0 p.1 (bind_pure-second x null p e))
          (two_args_target-Ends c xs rest x k))

  abbrev pub parser_of : Operator → P W AmlValue
  parser_of plus = def_add t.term_arg
  parser_of meet = def_and t.term_arg
  parser_of shift_up = left_shift t.term_arg
  parser_of shift_down = right_shift t.term_arg

  pub parser_of-Ends :
      (op : Operator) (c : Context W) (xs rest : List ℕ) (x : Result (AmlValue × AmlValue))
      → Ends (two_args t.term_arg xs (quiet c)) (0x00 ∷ rest) (quiet c) x
      → Ends
          (parser_of op (code_of op ∷ xs) (quiet c))
          rest
          (quiet c)
          (x >>= on_numbers (compute op) (quiet c))
  unfolding def_add def_and left_shift right_shift Operations.add Operations.and
      Operations.shift_left Operations.shift_right shifted_left shifted_right compute code_of
  parser_of-Ends plus c xs rest x k = inside (compute plus) 0x72 c xs rest x k
  parser_of-Ends meet c xs rest x k = inside (compute meet) 0x7b c xs rest x k
  parser_of-Ends shift_up c xs rest x k = outside (compute shift_up) 0x79 c xs rest x k
  parser_of-Ends shift_down c xs rest x k = outside (compute shift_down) 0x7a c xs rest x k

  pub def_l_or-Ends :
      (c : Context W) (xs rest : List ℕ) (x : Result (AmlValue × AmlValue))
      → Ends (two_args t.term_arg xs (quiet c)) rest (quiet c) x
      → Ends (def_l_or t.term_arg (0x91 ∷ xs) (quiet c)) rest (quiet c) (x >>= disjunction)
  unfolding def_l_or
  def_l_or-Ends c xs rest x k =
      Ends-after_opcode 0x91 DebugVerbosity.all_scopes xs rest c _ _ refl (
        Ends-then_do xs rest (quiet c) (two_args t.term_arg) Operations.logical_or x disjunction
          (λ p e. logical_or_lem (quiet c) p) k)
