-- ===== src/Aml/Statement.antt =====
-- aml/src/statement.rs: the parsers of statements, which execute what they parse. `term_arg` and
-- `term_list` are arguments.
use acpi_rs.Prelude.{
  ℕ, zero, suc, Bool, true, false, List, [], ◌∷◌, some, none, ok, err, panic, ◌>>=◌, if◌then◌else◌,
}
use acpi_rs.BitField.{BitField}
use acpi_rs.Bytes.Bits.{BitVec}
use acpi_rs.Aml.Types.{Result, fatal_error}
use acpi_rs.Aml.Parsing
use acpi_rs.Aml.Parsing.{
  Propagate, failure, return_value, break_loop, continue_loop, ParseResult, parsed, failed,
  panicked, looping, PkgLength, then_next, feed, choice, extract, take_to_end_of_pkglength,
  discard_result,
}
use acpi_rs.Aml.Parsing.Scope.{DebugVerbosity, comment_scope}
use acpi_rs.Aml.PkgLength.{pkg_length}
use acpi_rs.Aml.Opcode.{opcode, ext_opcode}
use acpi_rs.Aml.Opcode.Terms.{
  def_break_op, def_breakpoint_op, def_continue_op, ext_def_fatal_op, def_if_else_op, def_else_op,
  def_noop_op, def_return_op, def_while_op,
}
use acpi_rs.Aml.Value.{AmlValue, as_bool}
use acpi_rs.Aml.Context.{Handler, Context, context_debug}
use acpi_rs.Aml.Context.Methods.{whole_length}
use acpi_rs.Aml.Action.{Action, P, continue, integer_of, raise, then_do, then_parse}

-- What follows a predicate: the loop ends, goes on, or fails.
abbrev pub on_predicate :
    {C : Type 0}
    → C
    → Result Bool
    → ParseResult C AmlValue (Unit {0})
    → ParseResult C AmlValue (Unit {0})
on_predicate c (ok true) more = more
on_predicate c (ok false) more = parsed [] c tt
on_predicate c (err e) more = failed [] c (failure e)
on_predicate c panic more = panicked

module _ {W : Type 0} where
  abbrev pub statement : {R : Type 0} → ℕ → DebugVerbosity → P W R → P W (Unit {0})
  statement code verbosity parser =
      discard_result (then_next (opcode code) (comment_scope verbosity parser))

  unfoldable pub def_break : P W (Unit {0})
  def_break =
      statement def_break_op DebugVerbosity.all_scopes
        (Parsing.map {A = Unit {0}} Parsing.id (λ _. err break_loop))

  unfoldable pub def_breakpoint : P W (Unit {0})
  def_breakpoint = statement def_breakpoint_op DebugVerbosity.all_scopes Parsing.id

  unfoldable pub def_continue : P W (Unit {0})
  def_continue =
      statement def_continue_op DebugVerbosity.all_scopes
        (Parsing.map {A = Unit {0}} Parsing.id (λ _. err continue_loop))

  unfoldable pub def_noop : P W (Unit {0})
  def_noop = statement def_noop_op DebugVerbosity.all_scopes Parsing.id

  unfoldable pub def_return : P W AmlValue → P W (Unit {0})
  def_return term_arg =
      statement def_return_op DebugVerbosity.scopes
        (Parsing.map {A = Unit {0}} term_arg (λ return_arg. err (return_value return_arg)))

  -- `DefElse`, or nothing.
  unfoldable pub else_branch : ⦃bits : BitField⦄ → P W (List ℕ)
  else_branch = choice (
      Parsing.map
        (then_next (opcode def_else_op)
          (comment_scope DebugVerbosity.all_scopes (feed pkg_length take_to_end_of_pkglength)))
        (λ (_, branch). ok branch)
      ∷ (λ input c. parsed input c [])
      ∷ [])

  unfoldable pub run_within :
      (PkgLength → P W (Unit {0}))
      → List ℕ
      → Context W
      → Result PkgLength
      → ParseResult (Context W) AmlValue (Unit {0})
  run_within term_list code c (ok l) = term_list l code c
  run_within term_list code c _ = panicked

  -- A parser on a whole stream, whose length is at hand.
  unfoldable pub run_whole :
      (PkgLength → P W (Unit {0}))
      → List ℕ
      → Context W
      → ParseResult (Context W) AmlValue (Unit {0})
  unfolding whole_length run_within
  run_whole term_list code c = run_within term_list code c (whole_length code)

  -- What follows the predicate of a `while` that is evaluated again.
  unfoldable pub after_predicate :
      ParseResult (Context W) AmlValue AmlValue
      → (Context W → ParseResult (Context W) AmlValue (Unit {0}))
      → ParseResult (Context W) AmlValue (Unit {0})
  after_predicate (parsed _ c v) loop = on_predicate c (as_bool v) (loop c)
  after_predicate (failed _ c e) loop = failed [] c e
  after_predicate panicked loop = panicked
  after_predicate looping loop = looping

  module _ (term_arg : P W AmlValue) (term_list : PkgLength → P W (Unit {0})) where
    unfoldable pub def_if_else : ⦃bits : BitField⦄ → P W (Unit {0})
    unfolding else_branch run_whole raise
    def_if_else = statement def_if_else_op DebugVerbosity.scopes (
        then_parse
          (then_next
            (feed (then_next pkg_length term_arg) (λ (l, predicate_arg).
              Parsing.map (take_to_end_of_pkglength l) (λ then_branch.
                raise (as_bool predicate_arg >>= λ predicate. ok (predicate, then_branch)))))
            else_branch)
          (λ ((predicate, then_branch), otherwise) c.
            run_whole term_list (if predicate then then_branch else otherwise) c))

    -- The predicate of a `while`, evaluated again after a round.
    unfoldable pub predicate_again :
        List ℕ
        → Context W
        → (Context W → ParseResult (Context W) AmlValue (Unit {0}))
        → ParseResult (Context W) AmlValue (Unit {0})
    unfolding after_predicate
    predicate_again predicate_stream c loop =
        after_predicate (comment_scope DebugVerbosity.all_scopes term_arg predicate_stream c) loop

    -- The `match` on the end of a round: `Break` ends the loop, `Continue` ends the round only.
    unfoldable pub after_round :
        List ℕ
        → ParseResult (Context W) AmlValue (Unit {0})
        → (Context W → ParseResult (Context W) AmlValue (Unit {0}))
        → ParseResult (Context W) AmlValue (Unit {0})
    unfolding predicate_again
    after_round predicate_stream (parsed _ c _) loop = predicate_again predicate_stream c loop
    after_round predicate_stream (failed _ c break_loop) loop = parsed [] c tt
    after_round predicate_stream (failed _ c continue_loop) loop =
        predicate_again predicate_stream c loop
    after_round predicate_stream (failed _ c e) loop = failed [] c e
    after_round predicate_stream panicked loop = panicked
    after_round predicate_stream looping loop = looping

    -- The loop, from a round on; each takes one unit of fuel.
    unfoldable pub while_rounds :
        ℕ → List ℕ → List ℕ → Context W → ParseResult (Context W) AmlValue (Unit {0})
    unfolding run_whole after_round
    while_rounds zero predicate_stream body c = looping
    while_rounds (suc fuel) predicate_stream body c =
        after_round predicate_stream (run_whole term_list body c)
          (λ after. while_rounds fuel predicate_stream body after)

    unfoldable pub def_while : ⦃bits : BitField⦄ → ℕ → P W (Unit {0})
    unfolding while_rounds
    def_while fuel = statement def_while_op DebugVerbosity.scopes (
        then_parse
          (feed (then_next pkg_length (extract term_arg))
            (λ (l, (first_predicate, predicate_stream)).
              Parsing.map (take_to_end_of_pkglength l)
                (λ body. ok (first_predicate, predicate_stream, body))))
          (λ (first_predicate, predicate_stream, body) c.
            on_predicate c (as_bool first_predicate) (while_rounds fuel predicate_stream body c)))

  module _ ⦃bits : BitField⦄ ⦃bv : BitVec⦄ ⦃h : Handler W⦄ where
    unfoldable pub report_fatal : (ℕ × ℕ) × AmlValue → Action W (Unit {0})
    report_fatal ((fatal_type, fatal_code), fatal_arg) c =
        continue (integer_of fatal_arg c) (λ n after.
          elim (h.handle_fatal_error fatal_type fatal_code n after.machine) [
            | some w ↦ (err fatal_error, record after { machine = w })
            | none ↦ (panic, after)
          ])

    unfoldable pub def_fatal : P W AmlValue → P W (Unit {0})
    unfolding report_fatal
    def_fatal term_arg = discard_result (
        then_next (ext_opcode ext_def_fatal_op) (
          comment_scope DebugVerbosity.scopes (
            then_do (then_next (then_next Parsing.take (Parsing.take_uint 4)) term_arg)
              report_fatal)))

    unfoldable pub statement_opcode :
        ℕ → P W AmlValue → (PkgLength → P W (Unit {0})) → P W (Unit {0})
    statement_opcode fuel term_arg term_list = comment_scope DebugVerbosity.all_scopes (
        choice (
          def_break
          ∷ def_breakpoint
          ∷ def_continue
          ∷ def_fatal term_arg
          ∷ def_if_else term_arg term_list
          ∷ def_noop
          ∷ def_return term_arg
          ∷ def_while term_arg term_list fuel
          ∷ []))
