-- ===== src/Aml/Context/Store.antt =====
-- aml/src/lib.rs: `read_target`, `current_arg`, `local` and `store`.
pub mod Typed
use acpi_rs.Prelude.{ℕ, ltb, some, ok, err, panic, ◌>>=◌, if◌then◌else◌}
use acpi_rs.BitField.{BitField}
use acpi_rs.Bytes.Bits.{BitVec}
use acpi_rs.Aml.Types.{AmlType, Result, not_executing_control_method, invalid_local_access}
use acpi_rs.Aml.Namespace
use acpi_rs.Aml.NameString.{Target, null, name, debug, arg, local}
use acpi_rs.Aml.Value.{AmlValue, type_of}
use acpi_rs.Aml.Value.Arguments as Arguments
use acpi_rs.Aml.Value.Arguments.{slot_at, set_slot, store_arg, ok_or}
use acpi_rs.Aml.Value.BufferFields.{write_buffer_field}
use acpi_rs.Aml.Context.{Handler, MethodContext, Context, settled, unwrap}
use acpi_rs.Aml.Context.Regions.{read_field, write_field}
use acpi_rs.Aml.Context.Convert.{as_type}

module _ {W : Type 0} where
  abbrev pub executing : Context W → Result MethodContext
  executing c = ok_or not_executing_control_method c.method_context

  unfoldable pub current_arg : Context W → ℕ → Result AmlValue
  current_arg c n = executing c >>= λ m. Arguments.arg m.args n

  unfoldable pub local_value : Context W → ℕ → Result AmlValue
  local_value c n = executing c >>= λ m.
      if ltb 7 n
      then err (invalid_local_access n)
      else (slot_at m.locals n >>= λ slot. ok_or (invalid_local_access n) slot)

  unfoldable pub read_target : Context W → Target → Result AmlValue
  unfolding current_arg local_value
  read_target c null = panic
  read_target c (name path) =
      settled (Namespace.search c.namespace path c.current_scope) >>= λ (_, handle).
      Namespace.get c.namespace handle
  read_target c debug = panic
  read_target c (arg n) = current_arg c n
  read_target c (local n) = local_value c n

  -- A result with the context where it succeeds, and the old context where it does not.
  abbrev pub on_ok :
      {A B : Type 0} → Context W → Result A → (A → Result B × Context W) → Result B × Context W
  on_ok c (ok a) next = next a
  on_ok c (err e) next = (err e, c)
  on_ok c panic next = (panic, c)

module _ {W : Type 0} ⦃bits : BitField⦄ ⦃bv : BitVec⦄ ⦃h : Handler W⦄ where
  -- A store into the object of a handle, by the type of what it holds.
  unfoldable pub store_object_as :
      Context W → ℕ → AmlType → AmlValue → AmlValue → Result AmlValue × Context W
  store_object_as c handle AmlType.field_unit held value =
      on_ok c (write_field c held value)
        (λ w. let c' = record c { machine = w } in (read_field c' held, c'))
  store_object_as c handle AmlType.buffer_field held value =
      let (r, store) = write_buffer_field c.buffers held value in
      (r >>= λ _. ok value, record c { buffers = store })
  store_object_as c handle typ held value =
      let (r, store) = as_type c value typ in
      let c1 = record c { buffers = store } in
      on_ok c1 r (λ converted.
        let (done, ns) = Namespace.set c.namespace handle converted in
        let c2 = record c1 { namespace = ns } in (done >>= λ _. Namespace.get ns handle, c2))

  unfoldable pub store : Context W → Target → AmlValue → Result AmlValue × Context W
  unfolding store_object_as
  store c (name path) value =
      on_ok c (settled (Namespace.search c.namespace path c.current_scope)) (λ (_, handle).
        on_ok c (unwrap (Namespace.get c.namespace handle))
          (λ held. store_object_as c handle (type_of held) held value))
  store c debug value = (panic, c)
  store c (arg n) value = on_ok c (executing c) (λ m.
      on_ok c (store_arg m.args n value)
        (λ args'. (ok value, record c { method_context = some (record m { args = args' }) })))
  store c (local n) value = on_ok c (executing c) (λ m.
      on_ok c (set_slot m.locals n value)
        (λ locals'. (ok value, record c { method_context = some (record m { locals = locals' }) })))
  store c null value = (ok value, c)
