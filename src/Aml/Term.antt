-- ===== src/Aml/Term.antt =====
-- aml/src/term_object.rs: the parsers of terms, and the recursion that ties them to those of
-- expressions and statements.
pub mod Fields
pub mod Constants
pub mod Named
pub mod Outcomes
pub mod Eval
pub mod Operators
pub mod Dispatch
pub mod Evaluate
pub mod Returns
pub mod Branches
use acpi_rs.Prelude.{ℕ, zero, suc, [], ◌∷◌, Option, some, none, Bool, List, ok, if◌then◌else◌}
use acpi_rs.BitField.{BitField}
use acpi_rs.Bytes.Bits.{BitVec}
use acpi_rs.Aml.Types.{Result}
use acpi_rs.Aml.Parsing
use acpi_rs.Aml.Parsing.{ParseResult, parsed, looping, PkgLength, and_then, choice}
use acpi_rs.Aml.Parsing.Scope.{DebugVerbosity, comment_scope}
use acpi_rs.Aml.PkgLength.{still_parsing}
use acpi_rs.Aml.NameString.{arg_obj, local_obj}
use acpi_rs.Aml.Value.{AmlValue}
use acpi_rs.Aml.Context.{Handler, Context, context_debug}
use acpi_rs.Aml.Context.Store.{current_arg, local_value}
use acpi_rs.Aml.Action.{P, ask, then_do}
use acpi_rs.Aml.Expression.{def_package, expression_opcode}
use acpi_rs.Aml.Statement.{statement_opcode}
use acpi_rs.Aml.Term.Constants.{computational_data}
use acpi_rs.Aml.Term.Fields.{
  def_create_bit_field, def_create_byte_field, def_create_word_field, def_create_dword_field,
  def_create_qword_field, def_create_field, def_field,
}
use acpi_rs.Aml.Term.Named.{
  def_name, def_scope, def_op_region, def_method, def_external, def_device, def_processor,
  def_power_res, def_thermal_zone, def_mutex,
}

-- The parsers that others call again, with the fuel that is left for loops.
pub record Terms (W : Type 0) : Type 0 where
  pub fuel : ℕ
  pub term_arg : P W AmlValue
  pub data_ref_object : P W AmlValue
  pub term_list : PkgLength → P W (Unit {0})

module _ {W : Type 0} ⦃bits : BitField⦄ ⦃bv : BitVec⦄ ⦃h : Handler W⦄ where
  unfoldable pub data_object : Terms W → P W AmlValue
  data_object t =
      comment_scope DebugVerbosity.all_scopes
        (choice (def_package t.data_ref_object t.fuel ∷ computational_data t.term_arg ∷ []))

  unfoldable pub data_ref_object_with : Terms W → P W AmlValue
  unfolding data_object
  data_ref_object_with t = comment_scope DebugVerbosity.all_scopes (choice (data_object t ∷ []))

  unfoldable pub namespace_modifier : Terms W → P W (Unit {0})
  namespace_modifier t = choice (def_name t.data_ref_object ∷ def_scope t.term_list ∷ [])

  unfoldable pub named_obj : Terms W → P W (Unit {0})
  named_obj t = comment_scope DebugVerbosity.all_scopes (
      choice (
        def_create_bit_field t.term_arg
        ∷ def_create_byte_field t.term_arg
        ∷ def_create_word_field t.term_arg
        ∷ def_create_dword_field t.term_arg
        ∷ def_create_qword_field t.term_arg
        ∷ def_create_field t.term_arg
        ∷ def_op_region t.term_arg
        ∷ def_field t.fuel
        ∷ def_method
        ∷ def_external
        ∷ def_device t.term_list
        ∷ def_processor t.term_list
        ∷ def_power_res t.term_list
        ∷ def_thermal_zone t.term_list
        ∷ def_mutex
        ∷ []))

  abbrev pub no_value : P W (Unit {0}) → P W (Option AmlValue)
  no_value parser = Parsing.map parser (λ _. ok none)

  module _ (call_native : ℕ → Context W → Result AmlValue × Context W) where
    unfoldable pub expression : Terms W → P W AmlValue
    expression t = expression_opcode t.term_list call_native t.fuel t.data_ref_object t.term_arg

    unfoldable pub term_object : Terms W → P W (Option AmlValue)
    unfolding expression namespace_modifier named_obj
    term_object t = comment_scope DebugVerbosity.all_scopes (
        choice (
          no_value (namespace_modifier t)
          ∷ no_value (named_obj t)
          ∷ no_value (statement_opcode t.fuel t.term_arg t.term_list)
          ∷ Parsing.map (expression t) (λ value. ok (some value))
          ∷ []))

    -- A round of `term_list` and, by the parsers `t`, the rounds after it.
    unfoldable pub term_list_with : Terms W → PkgLength → P W (Unit {0})
    unfolding term_object
    term_list_with t l input c =
        let round = and_then (term_object t input c) (λ rest after _. t.term_list l rest after) in
        if still_parsing l input then round else parsed input c tt

    unfoldable pub term_arg_with : Terms W → P W AmlValue
    unfolding data_object expression
    term_arg_with t = comment_scope DebugVerbosity.all_scopes (
        choice (
          data_object t
          ∷ then_do arg_obj (λ n. ask (λ c. current_arg c n))
          ∷ then_do local_obj (λ n. ask (λ c. local_value c n))
          ∷ expression t
          ∷ []))

    -- The parsers with as much fuel: a call of one by another takes a unit, and so does a round of a
    -- loop.
    unfoldable pub terms : ℕ → Terms W
    unfolding term_arg_with data_ref_object_with term_list_with
    terms zero = record {
      fuel = zero;
      term_arg = λ input c. looping;
      data_ref_object = λ input c. looping;
      term_list = λ l input c. looping;
    }
    terms (suc n) =
        let t = terms n in
        record {
          fuel = suc n;
          term_arg = term_arg_with t;
          data_ref_object = data_ref_object_with t;
          term_list = term_list_with t;
        }
