-- ===== src/Aml/Context/Methods/Nested.antt =====
-- aml/src/lib.rs: a method that invokes itself.
use acpi_rs.Prelude.{ℕ, ◌≡◌, refl, ap, List, [], ◌∷◌, ◌++◌, ok, err, panic}
use acpi_rs.BitField.{BitField}
use acpi_rs.Bytes.Bits.{BitVec}
use acpi_rs.Aml.Types.{NameSeg, AmlName, Result, level_does_not_exist}
use acpi_rs.Aml.Level.{LevelType}
use acpi_rs.Aml.Level.Laws.{absolute}
use acpi_rs.Aml.Namespace.{Namespace, get_by_path, add_level, remove_level}
use acpi_rs.Aml.Namespace.Missing.{remove_level_again}
use acpi_rs.Aml.Parsing.{Parser, PkgLength}
use acpi_rs.Aml.Value.{AmlValue, method, MethodCode}
use acpi_rs.Aml.Value.Arguments.{Slots}
use acpi_rs.Aml.Context.{Handler, Context}
use acpi_rs.Aml.Context.Methods.{
  enter_method, exit_method, execute, run_method, invoke_value, invoke_method,
}
use acpi_rs.Aml.Context.Methods.Restore.{on_ok-eq-ok, invoke_method-SameFrame}

abbrev pub Removed : {W : Type 0} → AmlName → Context W → Type 0
Removed path c = (ns : Namespace AmlValue) × (remove_level ns path ≡ (ok tt, c.namespace))

-- A method that returns a value has removed its level.
exit_method-Removed :
    {W : Type 0} (before c c' : Context W) (path : AmlName) (r : Result AmlValue) (v : AmlValue)
    → exit_method before path (r, c) ≡ (ok v, c')
    → Removed path c'
unfolding exit_method
exit_method-Removed before c c' path panic v h = cc
exit_method-Removed {W} before c c' path (ok a) v h =
    let removed = remove_level c.namespace path in
    let (_, done, e) = on_ok-eq-ok _ c' removed.0 _ v h in
    let same : removed.1 ≡ c'.namespace =
      ap (λ (p : Result AmlValue × Context W). p.1.namespace) e in
    (c.namespace, λ i. (done i, same i))
exit_method-Removed before c c' path (err x) v h =
    let (_, _, e) = on_ok-eq-ok _ c' (remove_level c.namespace path).0 _ v h in cc

module _ {W : Type 0} ⦃bits : BitField⦄ ⦃bv : BitVec⦄ ⦃h : Handler W⦄
    (term_list : PkgLength → Parser (Context W) AmlValue (Unit {0}))
    (call_native : ℕ → Context W → Result AmlValue × Context W) where
  -- The context in which the code of a method runs, after the creation of its level.
  abbrev pub entered : Context W → AmlName → Slots → Context W
  entered c path args = record (enter_method c path args) {
    namespace = (add_level c.namespace path LevelType.method_locals).1;
  }

  invoke_method-Removed :
      (c c' : Context W) (path : AmlName) (args : Slots) (flags : ℕ) (code : MethodCode)
      (v : AmlValue)
      → get_by_path c.namespace path ≡ ok (method flags code)
      → invoke_method term_list call_native c path args ≡ (ok v, c')
      → Removed path c'
  unfolding invoke_method invoke_value run_method
  invoke_method-Removed c c' path args flags code v found e =
      let added = (add_level c.namespace path LevelType.method_locals).0 in
      let (_, _, e1) = on_ok-eq-ok _ c' added _ v (rw found at e) in
      exit_method-Removed c _ c' path _ v e1

  -- The code of a method runs from the context after the creation of its level and succeeds, and the
  -- last that it does to the context is to invoke the method itself, from whatever context it has
  -- then, `mid`. The inner invocation has removed the level of both, so that the outer one fails with
  -- LevelDoesNotExist for its own path; and the method context that is left is that of `mid`,
  -- whatever it was before the call.
  pub run_method-nested :
      (c mid c' : Context W) (ss : List NameSeg) (s : NameSeg) (args args' : Slots) (flags : ℕ)
      (code : MethodCode) (v v' : AmlValue)
      → let path = absolute (ss ++ s ∷ []) in
        (add_level c.namespace path LevelType.method_locals).0 ≡ ok tt
        → execute term_list call_native code (entered c path args) ≡ (ok v, c')
        → get_by_path mid.namespace path ≡ ok (method flags code)
        → invoke_method term_list call_native mid path args' ≡ (ok v', c')
        → (c'' : Context W) × (run_method term_list call_native c path args code
            ≡ (err (level_does_not_exist path), c''))
          × (c''.method_context ≡ mid.method_context)
  unfolding run_method exit_method
  run_method-nested c mid c' ss s args args' flags code v v' added ran found inner =
      let path = absolute (ss ++ s ∷ []) in
      let (ns, removed) = invoke_method-Removed mid c' path args' flags code v' found inner in
      let again = remove_level_again ns c'.namespace ss s removed in
      let frame = invoke_method-SameFrame term_list call_native mid c' path args' v' inner in
      (
        record c' { namespace = (remove_level c'.namespace path).1 },
        rw added (rw ran (rw again refl)),
        frame.0,
      )
