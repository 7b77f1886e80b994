-- ===== src/Aml/Expression.antt =====
-- aml/src/expression.rs: the parsers of expressions. `term_arg`, `data_ref_object` and `term_list`,
-- which are defined with them, and the native methods of the host are arguments.
pub mod Integers
pub mod Operations
pub mod Resources
pub mod Middle
use acpi_rs.Prelude.{
  ℕ, zero, suc, ◌+◌, ◌==◌, Bool, not, List, [], ◌∷◌, ◌++◌, length, Option, some, none, ok,
  if◌then◌else◌,
}
use acpi_rs.BitField.{BitField}
use acpi_rs.Bytes.Bits.{BitVec}
use acpi_rs.Aml.Types.{AmlName, Result, malformed_package}
use acpi_rs.Aml.Name.Text.{as_string}
use acpi_rs.Aml.Namespace
use acpi_rs.Aml.Parsing
use acpi_rs.Aml.Parsing.{
  ParseResult, parsed, failed, looping, failure, PkgLength, and_then, then_next, feed, choice, n_of,
  take_to_end_of_pkglength,
}
use acpi_rs.Aml.Parsing.Scope.{DebugVerbosity, comment_scope}
use acpi_rs.Aml.PkgLength.{pkg_length, still_parsing}
use acpi_rs.Aml.Opcode.{opcode}
use acpi_rs.Aml.Opcode.Terms.{
  def_add_op, def_and_op, def_buffer_op, def_concat_op, def_concat_res_op, def_increment_op,
  def_decrement_op, def_l_or_op, def_l_not_op, def_l_equal_op, def_l_greater_op, def_l_less_op,
  def_mid_op, def_package_op, def_shift_left, def_shift_right, def_store_op, def_to_integer_op,
}
use acpi_rs.Aml.NameString.{Target, name_string, super_name, target}
use acpi_rs.Aml.Value.{AmlValue, MethodCode, string, method, aml_package, package_of}
use acpi_rs.Aml.Value.Flags.{flags_arg_count}
use acpi_rs.Aml.Value.Arguments.{from_list}
use acpi_rs.Aml.Context.{Handler, Context, context_debug}
use acpi_rs.Aml.Context.Methods.{invoke_method}
use acpi_rs.Aml.Action.{Action, P, ◌>>=◌, ◌>>◌, pure, lift, ask, search_here, store_to, then_do}
use acpi_rs.Aml.Expression.Operations as Operations
use acpi_rs.Aml.Expression.Operations.{is_less, is_equal, is_greater}

module _ {W : Type 0} where
  -- What most objects have in common: an opcode, then a parser inside comments.
  abbrev pub after_opcode : {R : Type 0} → ℕ → DebugVerbosity → P W R → P W R
  after_opcode code verbosity parser =
      Parsing.map (then_next (opcode code) (comment_scope verbosity parser)) (λ (_, r). ok r)

  -- The same, where the closure stands outside the comments.
  abbrev pub after_opcode_do :
      {R A : Type 0} → ℕ → DebugVerbosity → P W R → (R → Action W A) → P W A
  after_opcode_do code verbosity parser f =
      then_do (then_next (opcode code) (comment_scope verbosity parser)) (λ (_, r). f r)

  -- The opcodes of two bytes: a negation and a comparison.
  abbrev pub after_not : {R : Type 0} → ℕ → P W R → P W R
  after_not code parser =
      Parsing.map
        (then_next (then_next (opcode def_l_not_op) (opcode code))
          (comment_scope DebugVerbosity.all_scopes parser))
        (λ (_, r). ok r)

  -- The loop of `def_package`, with the elements so far; a round takes one unit of fuel.
  unfoldable pub package_elements : P W AmlValue → ℕ → PkgLength → ℕ → List AmlValue → P W AmlValue
  package_elements element zero l num_elements found input c = looping
  package_elements element (suc fuel) l num_elements found input c =
      let rest = and_then (element input c) (λ rest after v.
        package_elements element fuel l num_elements (found ++ v ∷ []) rest after) in
      if still_parsing l input
      then rest
      else if length found == num_elements
      then parsed input c (aml_package (package_of found))
      else failed input c (failure malformed_package)

-- The number of arguments of a method; nothing else has any.
unfoldable pub num_args : ⦃bits : BitField⦄ → AmlValue → Option ℕ
num_args (method flags code) = some (flags_arg_count flags)
num_args v = none

module _ {W : Type 0} ⦃bits : BitField⦄ ⦃bv : BitVec⦄ ⦃h : Handler W⦄ where
  module _ (data_ref_object : P W AmlValue) where
    unfoldable pub package_element : P W AmlValue
    package_element =
        choice
          (data_ref_object ∷ Parsing.map name_string (λ path. ok (string (as_string path))) ∷ [])

    unfoldable pub def_package : ℕ → P W AmlValue
    unfolding package_element package_elements
    def_package fuel = after_opcode def_package_op DebugVerbosity.all_scopes (
        feed (then_next pkg_length Parsing.take)
          (λ (l, num_elements). package_elements package_element fuel l num_elements []))

  module _ (term_arg : P W AmlValue) where
    abbrev pub two_args : P W (AmlValue × AmlValue)
    two_args = then_next term_arg term_arg

    abbrev pub two_args_target : P W ((AmlValue × AmlValue) × Target)
    two_args_target = then_next two_args target

    unfoldable pub def_add : P W AmlValue
    def_add =
        after_opcode def_add_op DebugVerbosity.all_scopes (then_do two_args_target Operations.add)

    unfoldable pub def_and : P W AmlValue
    def_and =
        after_opcode def_and_op DebugVerbosity.all_scopes (then_do two_args_target Operations.and)

    unfoldable pub def_buffer : P W AmlValue
    def_buffer = after_opcode def_buffer_op DebugVerbosity.all_scopes (
        feed (then_next pkg_length term_arg)
          (λ (l, size). then_do (take_to_end_of_pkglength l) (Operations.make_buffer size)))

    unfoldable pub def_concat : P W AmlValue
    def_concat =
        after_opcode def_concat_op DebugVerbosity.all_scopes
          (then_do two_args_target Operations.concat)

    unfoldable pub def_concat_res : P W AmlValue
    def_concat_res =
        after_opcode def_concat_res_op DebugVerbosity.all_scopes
          (then_do two_args_target Operations.concat_res)

    unfoldable pub def_l_or : P W AmlValue
    def_l_or =
        after_opcode def_l_or_op DebugVerbosity.all_scopes (then_do two_args Operations.logical_or)

    unfoldable pub def_l_equal : P W AmlValue
    def_l_equal =
        after_opcode def_l_equal_op DebugVerbosity.all_scopes
          (then_do two_args (Operations.compared is_equal))

    unfoldable pub def_l_greater : P W AmlValue
    def_l_greater =
        after_opcode def_l_greater_op DebugVerbosity.all_scopes
          (then_do two_args (Operations.compared is_greater))

    unfoldable pub def_l_less : P W AmlValue
    def_l_less =
        after_opcode def_l_less_op DebugVerbosity.all_scopes
          (then_do two_args (Operations.compared is_less))

    unfoldable pub def_l_greater_equal : P W AmlValue
    def_l_greater_equal =
        after_not def_l_less_op (then_do two_args (Operations.compared (λ o. not (is_less o))))

    unfoldable pub def_l_less_equal : P W AmlValue
    def_l_less_equal =
        after_not def_l_greater_op
          (then_do two_args (Operations.compared (λ o. not (is_greater o))))

    unfoldable pub def_l_not_equal : P W AmlValue
    def_l_not_equal =
        after_not def_l_equal_op (then_do two_args (Operations.compared (λ o. not (is_equal o))))

    unfoldable pub def_mid : P W AmlValue
    def_mid =
        after_opcode def_mid_op DebugVerbosity.all_scopes
          (then_do (then_next (then_next two_args term_arg) target) Operations.middle)

    unfoldable pub left_shift : P W AmlValue
    left_shift =
        after_opcode_do def_shift_left DebugVerbosity.scopes two_args_target Operations.shift_left

    unfoldable pub right_shift : P W AmlValue
    right_shift =
        after_opcode_do def_shift_right DebugVerbosity.scopes two_args_target Operations.shift_right

    unfoldable pub def_store : P W AmlValue
    def_store =
        after_opcode_do def_store_op DebugVerbosity.scopes (then_next term_arg super_name)
          (λ (value, target). store_to target value)

    unfoldable pub def_to_integer : P W AmlValue
    def_to_integer =
        after_opcode_do def_to_integer_op DebugVerbosity.all_scopes (then_next term_arg target)
          Operations.to_integer

  unfoldable pub def_increment : P W AmlValue
  def_increment =
      after_opcode def_increment_op DebugVerbosity.all_scopes
        (then_do super_name Operations.increment)

  unfoldable pub def_decrement : P W AmlValue
  def_decrement =
      after_opcode def_decrement_op DebugVerbosity.all_scopes
        (then_do super_name Operations.decrement)

  -- The object that a name leads to: its path, and the number of its arguments.
  unfoldable pub find_object : AmlName → Action W (AmlName × Option ℕ)
  unfolding num_args
  find_object path = do
    (full_path, handle) ← search_here path
    object ← ask (λ c. Namespace.get c.namespace handle)
    pure (full_path, num_args object)

  module _ (term_list : PkgLength → P W (Unit {0}))
      (call_native : ℕ → Context W → Result AmlValue × Context W) where
    -- The value of the object at a path, which is invoked if it is a method.
    unfoldable pub object_value : AmlName → Option ℕ → List AmlValue → Action W AmlValue
    object_value path (some _) arg_list = do
      args ← lift (from_list arg_list)
      λ c. invoke_method term_list call_native c path args
    object_value path none arg_list = ask (λ c. Namespace.get_by_path c.namespace path)

    unfoldable pub method_invocation : P W AmlValue → P W AmlValue
    unfolding find_object object_value
    method_invocation term_arg = comment_scope DebugVerbosity.scopes (
        feed (then_do name_string find_object) (λ (path, count).
          let n : ℕ = elim count [ some n ↦ n | none ↦ 0 ] in
          then_do (n_of term_arg n) (object_value path count)))

    unfoldable pub expression_opcode : ℕ → P W AmlValue → P W AmlValue → P W AmlValue
    expression_opcode fuel data_ref_object term_arg = comment_scope DebugVerbosity.all_scopes (
        choice (
          def_add term_arg
          ∷ def_and term_arg
          ∷ def_buffer term_arg
          ∷ def_concat term_arg
          ∷ def_concat_res term_arg
          ∷ def_increment
          ∷ def_decrement
          ∷ def_l_equal term_arg
          ∷ def_l_greater term_arg
          ∷ def_l_greater_equal term_arg
          ∷ def_l_less term_arg
          ∷ def_l_less_equal term_arg
          ∷ def_l_not_equal term_arg
          ∷ def_l_or term_arg
          ∷ def_mid term_arg
          ∷ def_package data_ref_object fuel
          ∷ left_shift term_arg
          ∷ right_shift term_arg
          ∷ def_store term_arg
          ∷ def_to_integer term_arg
          ∷ method_invocation term_arg
          ∷ []))
