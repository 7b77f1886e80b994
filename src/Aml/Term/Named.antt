-- ===== src/Aml/Term/Named.antt =====
-- aml/src/term_object.rs: the parsers of named objects and of scopes. `term_arg`, `term_list` and
-- `data_ref_object` are arguments.
use acpi_rs.Prelude.{ℕ, ◌==◌, leb, Option, some, none, ok, err, ◌>>=◌, if◌then◌else◌}
use acpi_rs.BitField.{BitField}
use acpi_rs.Bytes.Bits.{BitVec}
use acpi_rs.Aml.Types.{AmlName, Result, invalid_region_space}
use acpi_rs.Aml.Name.{resolve, parent}
use acpi_rs.Aml.Level.{LevelType}
use acpi_rs.Aml.Parsing
use acpi_rs.Aml.Parsing.{PkgLength, then_next, feed, choice, take_to_end_of_pkglength}
use acpi_rs.Aml.Parsing.Scope.{DebugVerbosity}
use acpi_rs.Aml.PkgLength.{pkg_length}
use acpi_rs.Aml.Opcode.Terms.{
  def_name_op, def_scope_op, ext_def_op_region_op, def_method_op, def_external_op,
  ext_def_device_op, ext_def_processor_op, ext_def_power_res_op, ext_def_thermal_zone_op,
  ext_def_mutex_op,
}
use acpi_rs.Aml.NameString.{name_string}
use acpi_rs.Aml.Value.{
  AmlValue, aml, device, method, mutex, op_region, power_resource, processor, thermal_zone,
}
use acpi_rs.Aml.Value.Flags.{
  RegionSpace, system_memory, system_io, pci_config, embedded_control, smbus, system_cmos,
  pci_bar_target, ipmi, general_purpose_io, generic_serial_bus, oem_defined,
}
use acpi_rs.Aml.Context.{Handler, context_debug}
use acpi_rs.Aml.Action.{
  Action, P, continue, integer_of, ask, lift, pure, add_value, add_level, add_here, then_do,
}
use acpi_rs.Aml.Action as Actions
use acpi_rs.Aml.Statement.{statement}
use acpi_rs.Aml.Term.Fields.{ext_statement}

unfoldable pub region_space : ℕ → Result RegionSpace
region_space space =
    if space == 0x00
    then ok system_memory
    else if space == 0x01
    then ok system_io
    else if space == 0x02
    then ok pci_config
    else if space == 0x03
    then ok embedded_control
    else if space == 0x04
    then ok smbus
    else if space == 0x05
    then ok system_cmos
    else if space == 0x06
    then ok pci_bar_target
    else if space == 0x07
    then ok ipmi
    else if space == 0x08
    then ok general_purpose_io
    else if space == 0x09
    then ok generic_serial_bus
    else if leb 0x80 space
    then ok (oem_defined space)
    else err (invalid_region_space space)

-- The device that a region belongs to, for the spaces that need one.
unfoldable pub parent_device : RegionSpace → AmlName → AmlName → Result (Option AmlName)
parent_device pci_config name scope = resolve name scope >>= parent >>= λ p. ok (some p)
parent_device ipmi name scope = resolve name scope >>= parent >>= λ p. ok (some p)
parent_device generic_serial_bus name scope = resolve name scope >>= parent >>= λ p. ok (some p)
parent_device _ name scope = ok none

module _ {W : Type 0} where
  -- A new object in the current scope, as the closures that only do this have it.
  unfoldable pub add_object : AmlName × AmlValue → Action W (Unit {0})
  add_object (name, value) = Actions.◌>>◌ (add_here name value) (pure tt)

  abbrev pub resolve_here : AmlName → Action W AmlName
  resolve_here name = ask (λ c. resolve name c.current_scope)

  -- The current scope becomes another one; the result is the previous one.
  unfoldable pub move_into : AmlName → Action W AmlName
  move_into scope c = (ok c.current_scope, record c { current_scope = scope })

  unfoldable pub leave_to : AmlName → Action W (Unit {0})
  leave_to scope c = (ok tt, record c { current_scope = scope })

  -- The closure of `def_scope`.
  unfoldable pub open_scope : PkgLength × AmlName → Action W (PkgLength × AmlName)
  unfolding move_into
  open_scope (l, name) = Actions.◌>>=◌ (resolve_here name) (λ scope.
      Actions.◌>>=◌ (move_into scope)
        (λ previous. Actions.◌>>◌ (add_level scope LevelType.scope) (pure (l, previous))))

  -- The closures of the objects that have sub-objects: devices and thermal zones add the value
  -- first, processors and power resources the level.
  unfoldable pub open_object :
      LevelType → AmlValue → PkgLength × AmlName → Action W (PkgLength × AmlName)
  unfolding move_into
  open_object typ value (l, name) = Actions.◌>>=◌ (resolve_here name) (λ resolved.
      Actions.◌>>◌ (add_value resolved value) (
        Actions.◌>>◌ (add_level resolved typ)
          (Actions.◌>>=◌ (move_into resolved) (λ previous. pure (l, previous)))))

  unfoldable pub open_level :
      LevelType → AmlValue → PkgLength × AmlName → Action W (PkgLength × AmlName)
  unfolding move_into
  open_level typ value (l, name) = Actions.◌>>=◌ (resolve_here name) (λ resolved.
      Actions.◌>>◌ (add_level resolved typ) (
        Actions.◌>>◌ (add_value resolved value)
          (Actions.◌>>=◌ (move_into resolved) (λ previous. pure (l, previous)))))

  module _ ⦃bits : BitField⦄ where
    unfoldable pub def_name : P W AmlValue → P W (Unit {0})
    unfolding add_object
    def_name data_ref_object =
        statement def_name_op DebugVerbosity.scopes
          (then_do (then_next name_string data_ref_object) add_object)

    unfoldable pub def_method : P W (Unit {0})
    unfolding add_object
    def_method = statement def_method_op DebugVerbosity.scopes (
        then_do
          (feed (then_next (then_next pkg_length name_string) Parsing.take) (λ ((l, name), flags).
            Parsing.map (take_to_end_of_pkglength l) (λ code. ok (name, flags, code))))
          (λ (name, flags, code). add_object (name, method flags (aml code))))

    unfoldable pub def_external : P W (Unit {0})
    def_external =
        statement def_external_op DebugVerbosity.scopes
          (then_next (then_next name_string Parsing.take) Parsing.take)

    unfoldable pub def_mutex : P W (Unit {0})
    unfolding add_object
    def_mutex = ext_statement ext_def_mutex_op DebugVerbosity.scopes (
        then_do (then_next name_string Parsing.take)
          (λ (name, sync_level). add_object (name, mutex sync_level)))

    module _ (term_list : PkgLength → P W (Unit {0})) where
      -- The terms of an opened scope, and the return to the scope before.
      unfoldable pub within : P W (PkgLength × AmlName) → P W (Unit {0})
      unfolding leave_to
      within opened =
          then_do
            (feed opened
              (λ (l, previous_scope). Parsing.map (term_list l) (λ _. ok previous_scope)))
            leave_to

      unfoldable pub def_scope : P W (Unit {0})
      unfolding open_scope within
      def_scope =
          statement def_scope_op DebugVerbosity.scopes
            (within (then_do (then_next pkg_length name_string) open_scope))

      unfoldable pub def_device : P W (Unit {0})
      unfolding open_object within
      def_device = ext_statement ext_def_device_op DebugVerbosity.scopes (
          within (then_do (then_next pkg_length name_string) (open_object LevelType.device device)))

      unfoldable pub def_processor : P W (Unit {0})
      unfolding open_level within
      def_processor = ext_statement ext_def_processor_op DebugVerbosity.scopes (
          within (
            then_do
              (then_next
                (then_next (then_next (then_next pkg_length name_string) Parsing.take)
                  (Parsing.take_uint 4))
                Parsing.take)
              (λ ((((l, name), proc_id), pblk_address), pblk_len).
                open_level LevelType.processor (processor proc_id pblk_address pblk_len)
                  (l, name))))

      unfoldable pub def_power_res : P W (Unit {0})
      unfolding open_level within
      def_power_res = ext_statement ext_def_power_res_op DebugVerbosity.scopes (
          within (
            then_do
              (then_next (then_next (then_next pkg_length name_string) Parsing.take)
                (Parsing.take_uint 2))
              (λ (((l, name), system_level), resource_order).
                open_level LevelType.power_resource (power_resource system_level resource_order)
                  (l, name))))

      unfoldable pub def_thermal_zone : P W (Unit {0})
      unfolding open_object within
      def_thermal_zone = ext_statement ext_def_thermal_zone_op DebugVerbosity.scopes (
          within (
            then_do (then_next pkg_length name_string)
              (open_object LevelType.thermal_zone thermal_zone)))

module _ {W : Type 0} ⦃bits : BitField⦄ ⦃bv : BitVec⦄ ⦃h : Handler W⦄ where
  -- The closure of `def_op_region`.
  unfoldable pub add_region : ((AmlName × ℕ) × AmlValue) × AmlValue → Action W (Unit {0})
  unfolding region_space parent_device add_object
  add_region (((name, space), offset_arg), length_arg) =
      Actions.◌>>=◌ (lift (region_space space)) (λ region.
        Actions.◌>>=◌ (integer_of offset_arg) (λ offset.
          Actions.◌>>=◌ (integer_of length_arg) (λ len.
            Actions.◌>>=◌ (ask (λ c. parent_device region name c.current_scope))
              (λ parent. add_object (name, op_region region offset len parent)))))

  unfoldable pub def_op_region : P W AmlValue → P W (Unit {0})
  unfolding add_region
  def_op_region term_arg = ext_statement ext_def_op_region_op DebugVerbosity.scopes (
      then_do (then_next (then_next (then_next name_string Parsing.take) term_arg) term_arg)
        add_region)
