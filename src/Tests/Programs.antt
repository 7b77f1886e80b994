-- ===== src/Tests/Programs.antt =====
-- aml/src/term_object.rs, statement.rs, expression.rs: small tables and methods.
use acpi_rs.Prelude.{
  ℕ, ◌<◌, ◌≡◌, ◌≢◌, refl, sym, ◌∙◌, List, [], ◌∷◌, ◌++◌, take, drop, ok, err, none, some, panic,
  arith,
}
use acpi_rs.Tests.Bits.{shifts}
use acpi_rs.Tests.Machines.{little_endian, bit_lists, silent}
use acpi_rs.Map as Map
use acpi_rs.Aml.Types.{NameSeg, seg, AmlName, root, segment, cmp_seg, Result, wrong_parser}
use acpi_rs.Aml.Name.{search_rules_apply, is_normal, is_absolute, normalize, resolve, root_name}
use acpi_rs.Aml.Level.{
  level, LevelType, no_children, find_child, insert_child, remove_child, write_child, split_tail,
  split_path, descend, descend_mut, get_level_for_path, get_level_for_path_mut,
}
use acpi_rs.Aml.Namespace
use acpi_rs.Aml.Namespace.{
  Namespace, add_level, remove_level, get_by_path, get_handle, absolute_normal, is_root_name,
  create_level, delete_level,
}
use acpi_rs.Aml.Parsing
use acpi_rs.Aml.Parsing.{parsed}
use acpi_rs.Aml.Parsing.Scope.{DebugVerbosity}
use acpi_rs.Aml.Value.{AmlValue, integer, method, aml}
use acpi_rs.Aml.Value.Arguments as Arguments
use acpi_rs.Aml.Value.Arguments.{Slots, slot_at}
use acpi_rs.Aml.Context.{Context, new_method_context}
use acpi_rs.Aml.Context.Methods.{invoke_method}
use acpi_rs.Aml.Context.Store.{current_arg}
use acpi_rs.Aml.Context.Regions.{as_integer, integer_of}
use acpi_rs.Aml.PkgLength.{from_raw_length, still_parsing}
use acpi_rs.Aml.Statement.{def_if_else}
use acpi_rs.Aml.PkgLength.Encode.{w0, pkg_bytes}
use acpi_rs.Aml.Statement.{def_if_else, run_whole, run_within}
use acpi_rs.Aml.Context.Methods.{whole_length}
use acpi_rs.Aml.Value.{as_bool}
use acpi_rs.Aml.Parsing.{failed, failure, parsed}
use acpi_rs.Aml.Types.{unexpected_end_of_stream}
use acpi_rs.Aml.Term.Eval.{constant}
use acpi_rs.Aml.Term.Branches.{def_if_else-end, def_if_else-branch}
use acpi_rs.Prelude.{◌++◌, true, false, length, ◌+◌}
use acpi_rs.Aml.Term.{terms}
use acpi_rs.Aml.Term.Eval.{Expr, argument, binary, plus, depth, compute, expr_bytes, code_of, eval}
use acpi_rs.Aml.Term.Outcomes.{Yields}
use acpi_rs.Aml.Term.Evaluate.{terms-eval}
use acpi_rs.Aml.Term.Returns.{invoke_method-return}
use acpi_rs.Aml.Context.Store.Typed.{store-type}
use acpi_rs.Aml.Context.Store.{store, store_object_as}
use acpi_rs.Aml.Context.Convert.{as_type}
use acpi_rs.Aml.Value.{type_of, type_eq}
use acpi_rs.Aml.Types.{AmlType}
use acpi_rs.Aml.NameString.{name}
use acpi_rs.Aml.Namespace.{search, search_exact, look_in, climb}
use acpi_rs.Aml.Expression.Middle.{mid-take}
use acpi_rs.Aml.Expression.Operations.{mid}

abbrev sum : Expr
sum = binary plus (argument 0) (argument 1)

-- `Method (ADD_, 2) { Return (Arg0 + Arg1) }`.
abbrev add_name : NameSeg
add_name = seg b'A' b'D' b'D' b'_'

abbrev code : List ℕ
code = 0xa4 ∷ 0x72 ∷ 0x68 ∷ 0x69 ∷ 0x00 ∷ []

abbrev with_add : Context (Unit {0})
with_add = record {
  machine = tt;
  namespace = record {
    next_handle = 1;
    object_map = (0, method 2 (aml code)) ∷ [];
    root_level = level LevelType.scope no_children ((add_name, 0) ∷ []);
  };
  buffers = [];
  method_context = none;
  current_scope = root_name;
  indent = 0;
  verbosity = DebugVerbosity.none;
}

abbrev no_natives : ℕ → Context (Unit {0}) → Result AmlValue × Context (Unit {0})
no_natives f c = (panic, c)

abbrev two_args : Slots
two_args = some (integer 3) ∷ some (integer 39) ∷ none ∷ none ∷ none ∷ none ∷ none ∷ []

abbrev running : Context (Unit {0})
running = record with_add { method_context = some (new_method_context two_args) }

sum-eval :
    (c : Context (Unit {0}))
    → c.method_context ≡ some (new_method_context two_args)
    → eval c sum ≡ ok (integer 42)
unfolding eval compute current_arg Arguments.arg slot_at as_integer integer_of
sum-eval c e = rw e refl

sum-depth : depth sum < 2
unfolding depth
sum-depth = omega arith

sum-not_wrong : eval running sum ≢ err wrong_parser
sum-not_wrong p =
    let q : ◌≡◌ {A = Result AmlValue} (ok (integer 42)) (err wrong_parser) =
      sym (sum-eval running refl) ∙ p in
    cc

terms-eval_example :
    Yields
      ((terms no_natives 2).term_arg (expr_bytes sum ++ []) running)
      []
      running
      (eval running sum)
terms-eval_example =
    terms-eval no_natives sum 2 running [] (omega arith, omega arith) sum-depth refl sum-not_wrong

abbrev add_path : AmlName
add_path = root ∷ segment add_name ∷ []

abbrev with_locals : Namespace AmlValue
with_locals = (add_level with_add.namespace add_path LevelType.method_locals).1

invoke_method-return_example :
    invoke_method (terms no_natives 3).term_list no_natives with_add add_path two_args
    ≡ (ok (integer 42), record with_add { namespace = (remove_level with_locals add_path).1 })
unfolding remove_level absolute_normal is_absolute normalize is_normal is_root_name
    get_level_for_path_mut split_path split_tail descend_mut delete_level find_child cmp_seg
    get_by_path get_handle get_level_for_path descend Map.get Namespace.get add_level create_level
    insert_child remove_child write_child expr_bytes code_of
invoke_method-return_example =
    invoke_method-return no_natives sum 2 with_add add_path two_args 2 (integer 42) with_locals
      (remove_level with_locals add_path).1 (omega arith, omega arith) (omega arith) sum-depth refl
      refl refl refl (sum-eval _ refl)

mid-take_example : mid (1 ∷ 2 ∷ 3 ∷ 4 ∷ []) 1 2 ≡ ok (take 2 (drop 1 (1 ∷ 2 ∷ 3 ∷ 4 ∷ [])))
mid-take_example = mid-take (1 ∷ 2 ∷ 3 ∷ 4 ∷ []) 1 2 (omega arith)

-- `\\ADD_` with an integer in the place of the method.
abbrev with_number : Context (Unit {0})
with_number = record with_add {
  namespace = record {
    next_handle = 1;
    object_map = (0, integer 1) ∷ [];
    root_level = level LevelType.scope no_children ((add_name, 0) ∷ []);
  };
}

abbrev stored_seven : Context (Unit {0})
stored_seven = (store with_number (name add_path) (integer 7)).1

number_is_no_field : type_of (integer 1) ≢ AmlType.field_unit
unfolding type_of
number_is_no_field p = let q : AmlType.integer ≡ AmlType.field_unit = p in cc

number_is_no_buffer_field : type_of (integer 1) ≢ AmlType.buffer_field
unfolding type_of
number_is_no_buffer_field p = let q : AmlType.integer ≡ AmlType.buffer_field = p in cc

store-type_example :
    (Namespace.get stored_seven.namespace 0 ≡ ok (integer 7))
    × (type_of (integer 7) ≡ type_of (integer 1))
    × ((other : ℕ)
        → other ≢ 0
        → Namespace.get stored_seven.namespace other ≡ Namespace.get with_number.namespace other)
unfolding store store_object_as as_type type_of type_eq search search_exact Namespace.get
    Namespace.set Map.get Map.insert search_rules_apply resolve is_absolute get_level_for_path
    split_path descend cmp_seg
store-type_example =
    store-type with_number stored_seven add_path add_path 0 (integer 1) (integer 7) (integer 7) refl
      refl number_is_no_field number_is_no_buffer_field refl

running_value : eval running sum ≡ ok (integer 42)
running_value = sum-eval running refl

def_if_else-end_example :
    def_if_else
      (terms no_natives 2).term_arg
      (terms no_natives 2).term_list
      (0xa0 ∷ pkg_bytes w0 (length (pkg_bytes w0 0) + length (expr_bytes sum ++ 0xa3 ∷ []))
        ++ (expr_bytes sum ++ 0xa3 ∷ []))
      running
    ≡ failed [] running (failure unexpected_end_of_stream)
unfolding expr_bytes code_of as_bool
def_if_else-end_example =
    def_if_else-end no_natives sum (0xa3 ∷ []) w0 2 running (integer 42) true
      (omega arith, omega arith) sum-depth (omega arith) refl running_value refl

-- `If (Zero) { Break } Noop`.
zero-eval : eval running (constant 0) ≡ ok (integer 0)
unfolding eval
zero-eval = refl

zero-depth : depth (constant 0) < 1
unfolding depth
zero-depth = omega arith

nothing_runs : run_whole (terms no_natives 1).term_list [] running ≡ parsed [] running tt
unfolding run_whole run_within whole_length from_raw_length Parsing.checked_sub terms still_parsing
nothing_runs = refl

def_if_else-branch_example :
    def_if_else
      (terms no_natives 1).term_arg
      (terms no_natives 1).term_list
      (0xa0 ∷ pkg_bytes w0 (length (pkg_bytes w0 0) + length (expr_bytes (constant 0) ++ 0xa5 ∷ []))
        ++ ((expr_bytes (constant 0) ++ 0xa5 ∷ []) ++ 0xa3 ∷ []))
      running
    ≡ parsed (0xa3 ∷ []) running tt
unfolding expr_bytes as_bool
def_if_else-branch_example =
    def_if_else-branch no_natives (constant 0) (0xa5 ∷ []) [] [] 0xa3 w0 1 running running
      (integer 0) false (omega arith) zero-depth (omega arith) (omega arith) refl refl refl
      zero-eval refl nothing_runs
