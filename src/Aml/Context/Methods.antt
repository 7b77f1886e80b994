-- ===== src/Aml/Context/Methods.antt =====
-- aml/src/lib.rs: `invoke_method` and `parse_table`. The parser of terms is an argument, and so are the
-- native methods of the host, by their numbers.
pub mod Restore
pub mod Nested
use acpi_rs.Prelude.{
  ℕ, ◌%◌, ◌^◌, ◌==◌, Bool, true, false, ◌&&◌, ◌||◌, List, [], ◌∷◌, length, Option, some, none,
  Outcome, ok, err, panic, ◌>>=◌, if◌then◌else◌, map,
}
use acpi_rs.BitField.{BitField}
use acpi_rs.Bytes.{bytes_eq}
use acpi_rs.Bytes.Bits.{BitVec}
use acpi_rs.Aml.Types.{
  AmlName, Result, unexpected_end_of_stream, malformed_stream, break_in_invalid_position,
  continue_in_invalid_position,
}
use acpi_rs.Aml.Level.{LevelType}
use acpi_rs.Aml.Namespace
use acpi_rs.Aml.Parsing.{
  ParseResult, parsed, failed, panicked, looping, Parser, PkgLength, failure, return_value,
  break_loop, continue_loop,
}
use acpi_rs.Aml.PkgLength.{from_raw_length}
use acpi_rs.Aml.Value.{
  AmlValue, integer, method, MethodCode, aml, osi, native, zero_value, ones_value, codes,
}
use acpi_rs.Aml.Value.Arguments.{Slots}
use acpi_rs.Aml.Context.{Handler, Context, new_method_context, settled, unwrap}
use acpi_rs.Aml.Context.Convert.{as_string}
use acpi_rs.Aml.Context.Store.{on_ok, current_arg}

-- The interfaces that `\_OSI` answers yes to; for every other text the answer is no.
abbrev pub supported_interfaces : List (List ℕ)
supported_interfaces = map codes (
    "Windows 2000" ∷ "Windows 2001" ∷ "Windows 2001 SP1" ∷ "Windows 2001 SP2" ∷ "Windows 2001.1"
    ∷ "Windows 2001.1 SP1" ∷ "Windows 2006" ∷ "Windows 2006 SP1" ∷ "Windows 2006 SP2"
    ∷ "Windows 2006.1" ∷ "Windows 2009" ∷ "Windows 2012" ∷ "Windows 2013" ∷ "Windows 2015"
    ∷ "Windows 2016" ∷ "Windows 2017" ∷ "Windows 2017.2" ∷ "Windows 2018" ∷ "Windows 2018.2"
    ∷ "Windows 2019" ∷ "Darwin" ∷ "Extended Address Space Descriptor" ∷ "3.0 Thermal Model"
    ∷ "3.0 _SCP Extensions" ∷ [])

unfoldable pub is_one_of : List ℕ → List (List ℕ) → Bool
is_one_of text [] = false
is_one_of text (t ∷ ts) = bytes_eq text t || is_one_of text ts

-- `PkgLength::from_raw_length(stream, stream.len() as u32).unwrap()`.
unfoldable pub whole_length : List ℕ → Result PkgLength
whole_length stream = unwrap (from_raw_length stream (length stream % 2 ^ 32))

module _ {W : Type 0} where
  -- What `invoke_method` makes of the end of a method's code.
  unfoldable pub method_result :
      Context W → ParseResult (Context W) AmlValue (Unit {0}) → Result AmlValue × Context W
  method_result before (parsed rest c r) = (ok (integer 0), c)
  method_result before (failed rest c (return_value v)) = (ok v, c)
  method_result before (failed rest c break_loop) = (err break_in_invalid_position, c)
  method_result before (failed rest c continue_loop) = (err continue_in_invalid_position, c)
  method_result before (failed rest c (failure e)) = (err e, c)
  method_result before panicked = (panic, before)
  method_result before looping = (panic, before)

  -- What `parse_table` makes of the end of a table.
  unfoldable pub table_result :
      Context W → ParseResult (Context W) AmlValue (Unit {0}) → Result (Unit {0}) × Context W
  table_result before (parsed rest c r) = (ok tt, c)
  table_result before (failed rest c (failure e)) = (err e, c)
  table_result before (failed rest c other) = (err malformed_stream, c)
  table_result before panicked = (panic, before)
  table_result before looping = (panic, before)

  -- The state in which a method runs, and the return to the state before.
  abbrev pub enter_method : Context W → AmlName → Slots → Context W
  enter_method c path args = record c {
    method_context = some (new_method_context args);
    current_scope = path;
  }

  abbrev pub leave_method : Context W → Context W → Context W
  leave_method before c = record c {
    method_context = before.method_context;
    current_scope = before.current_scope;
  }

  abbrev pub with_namespace :
      {A : Type 0} → Context W → A × Namespace.Namespace AmlValue → A × Context W
  with_namespace c (r, ns) = (r, record c { namespace = ns })

  unfoldable pub exit_method :
      Context W → AmlName → Result AmlValue × Context W → Result AmlValue × Context W
  exit_method before path (panic, c) = (panic, c)
  exit_method before path (r, c) =
      let (removed, c') = with_namespace c (Namespace.remove_level c.namespace path) in
      on_ok c' removed (λ _. (r, leave_method before c'))

module _ {W : Type 0} ⦃bits : BitField⦄ ⦃bv : BitVec⦄ ⦃h : Handler W⦄
    (term_list : PkgLength → Parser (Context W) AmlValue (Unit {0}))
    (call_native : ℕ → Context W → Result AmlValue × Context W) where
  unfoldable pub osi_answer : Context W → Result AmlValue
  unfolding is_one_of current_arg
  osi_answer c = do
    v ← current_arg c 0
    text ← as_string c v
    ok (if is_one_of text supported_interfaces then ones_value else zero_value)

  unfoldable pub execute : MethodCode → Context W → Result AmlValue × Context W
  unfolding whole_length method_result osi_answer
  execute (aml code) c = on_ok c (whole_length code) (λ l. method_result c (term_list l code c))
  execute osi c = (osi_answer c, c)
  execute (native f) c = call_native f c

  -- The method's code between the creation and the removal of its level of the namespace. Where one
  -- of these two fails, the state before is not restored.
  unfoldable pub run_method : Context W → AmlName → Slots → MethodCode → Result AmlValue × Context W
  unfolding execute exit_method
  run_method c path args code =
      let c1 = enter_method c path args in
      let (added, c2) =
        with_namespace c1 (Namespace.add_level c1.namespace path LevelType.method_locals) in
      on_ok c2 added (λ _. exit_method c path (execute code c2))

  -- What is not a method is its own result.
  unfoldable pub invoke_value : Context W → AmlName → Slots → AmlValue → Result AmlValue × Context W
  unfolding run_method
  invoke_value c path args (method flags code) = run_method c path args code
  invoke_value c path args v = (ok v, c)

  unfoldable pub invoke_method : Context W → AmlName → Slots → Result AmlValue × Context W
  unfolding invoke_value
  invoke_method c path args =
      on_ok c (Namespace.get_by_path c.namespace path) (λ v. invoke_value c path args v)

  unfoldable pub parse_table : List ℕ → Context W → Result (Unit {0}) × Context W
  unfolding whole_length table_result
  parse_table stream c =
      if length stream == 0
      then (err unexpected_end_of_stream, c)
      else on_ok c (whole_length stream) (λ l. table_result c (term_list l stream c))
