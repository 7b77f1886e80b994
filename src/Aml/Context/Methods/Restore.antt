-- ===== src/Aml/Context/Methods/Restore.antt =====
-- aml/src/lib.rs: the state after `invoke_method`.
use acpi_rs.Prelude.{ℕ, ◌≡◌, refl, sym, ap, ok, err, panic}
use acpi_rs.BitField.{BitField}
use acpi_rs.Bytes.Bits.{BitVec}
use acpi_rs.Aml.Types.{AmlName, Result}
use acpi_rs.Aml.Level.{LevelType}
use acpi_rs.Aml.Namespace
use acpi_rs.Aml.Parsing.{Parser, PkgLength}
use acpi_rs.Aml.Value.{AmlValue, method, MethodCode}
use acpi_rs.Aml.Value.Arguments.{Slots}
use acpi_rs.Aml.Context.{Handler, Context}
use acpi_rs.Aml.Context.Store.{on_ok}
use acpi_rs.Aml.Context.Methods.{exit_method, run_method, invoke_value, invoke_method}

-- The context outside a method is as it was before.
abbrev pub SameFrame : {W : Type 0} → Context W → Context W → Type 0
SameFrame c c' = (c'.method_context ≡ c.method_context) × (c'.current_scope ≡ c.current_scope)

pub on_ok-eq-ok :
    {W A B : Type 0} (c c' : Context W) (r : Result A) (next : A → Result B × Context W) (b : B)
    → on_ok c r next ≡ (ok b, c')
    → (a : A) × (r ≡ ok a) × (next a ≡ (ok b, c'))
on_ok-eq-ok c c' (ok a) next b h = (a, refl, h)
on_ok-eq-ok c c' (err e) next b h = cc
on_ok-eq-ok c c' panic next b h = cc

exit_method-SameFrame :
    {W : Type 0} (before c c' : Context W) (path : AmlName) (r : Result AmlValue) (v : AmlValue)
    → exit_method before path (r, c) ≡ (ok v, c')
    → SameFrame before c'
unfolding exit_method
exit_method-SameFrame before c c' path panic v h = cc
exit_method-SameFrame {W} before c c' path (ok a) v h =
    let (_, _, e) = on_ok-eq-ok _ c' (Namespace.remove_level c.namespace path).0 _ v h in
    (
      ap (λ (p : Result AmlValue × Context W). p.1.method_context) (sym e),
      ap (λ (p : Result AmlValue × Context W). p.1.current_scope) (sym e),
    )
exit_method-SameFrame before c c' path (err x) v h =
    let (_, _, e) = on_ok-eq-ok _ c' (Namespace.remove_level c.namespace path).0 _ v h in cc

module _ {W : Type 0} ⦃bits : BitField⦄ ⦃bv : BitVec⦄ ⦃h : Handler W⦄
    (term_list : PkgLength → Parser (Context W) AmlValue (Unit {0}))
    (call_native : ℕ → Context W → Result AmlValue × Context W) where
  run_method-SameFrame :
      (c c' : Context W) (path : AmlName) (args : Slots) (code : MethodCode) (v : AmlValue)
      → run_method term_list call_native c path args code ≡ (ok v, c')
      → SameFrame c c'
  unfolding run_method
  run_method-SameFrame c c' path args code v e =
      let added = (Namespace.add_level c.namespace path LevelType.method_locals).0 in
      let (_, _, e1) = on_ok-eq-ok _ c' added _ v e in exit_method-SameFrame c _ c' path _ v e1

  invoke_value-SameFrame :
      (c c' : Context W) (path : AmlName) (args : Slots) (held v : AmlValue)
      → invoke_value term_list call_native c path args held ≡ (ok v, c')
      → SameFrame c c'
  unfolding invoke_value
  invoke_value-SameFrame c c' path args (method flags code) v e =
      run_method-SameFrame c c' path args code v e
  invoke_value-SameFrame c c' path args _ v e = (
    ap (λ (p : Result AmlValue × Context W). p.1.method_context) (sym e),
    ap (λ (p : Result AmlValue × Context W). p.1.current_scope) (sym e),
  )

  -- Whenever invoke_method returns a value, the method context and the current scope are those before
  -- the call, whatever the method did.
  pub invoke_method-SameFrame :
      (c c' : Context W) (path : AmlName) (args : Slots) (v : AmlValue)
      → invoke_method term_list call_native c path args ≡ (ok v, c')
      → SameFrame c c'
  unfolding invoke_method
  invoke_method-SameFrame c c' path args v e =
      let (held, _, e1) = on_ok-eq-ok c c' (Namespace.get_by_path c.namespace path) _ v e in
      invoke_value-SameFrame c c' path args held v e1
