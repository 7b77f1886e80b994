-- ===== src/Tests/Methods.antt =====
-- aml/src/lib.rs, aml/src/value.rs, aml/src/pci_routing.rs: a context with a method, a region, a buffer and
-- a link object.
use acpi_rs.Prelude.{
  ℕ, ◌≡◌, refl, true, false, List, [], ◌∷◌, ◌++◌, map, ok, err, some, none, arith,
}
use acpi_rs.Tests.Bits.{shifts}
use acpi_rs.Tests.Machines.{little_endian, bit_lists, silent}
use acpi_rs.Aml.Types.{NameSeg, seg, AmlName, Result, level_does_not_exist, prt_no_entry, cmp_seg}
use acpi_rs.Map
use acpi_rs.Aml.Name.{is_normal, is_absolute, normalize, root_name}
use acpi_rs.Aml.Level.{
  level, LevelType, no_children, child, find_child, insert_child, remove_child, write_child,
  split_tail, split_path, descend, descend_mut, get_level_for_path, get_level_for_path_mut,
}
use acpi_rs.Aml.Level.Laws.{absolute}
use acpi_rs.Aml.Namespace
use acpi_rs.Aml.Namespace.{
  Namespace, add_level, remove_level, get_by_path, get_handle, absolute_normal, is_root_name,
  create_level, delete_level,
}
use acpi_rs.Aml.Parsing.{Parser, PkgLength, parsed}
use acpi_rs.Aml.Parsing.Scope.{DebugVerbosity}
use acpi_rs.Aml.Resource.Types.{IrqDescriptor, edge, level, active_high, active_low, irq_resource}
use acpi_rs.Aml.Resource.RoundTrip.{encode_list}
use acpi_rs.Aml.Value.{
  AmlValue, integer, op_region, field, method, native, buffer, aml_package, package_of, one_value,
}
use acpi_rs.Aml.Value.Flags.{system_memory, access_type, field_update_rule}
use acpi_rs.Aml.Value.Arguments.{Slots, no_args, arg, slot_at}
use acpi_rs.Aml.Context.{Context}
use acpi_rs.Aml.Context.Regions.{
  access_size, region_parts, is_simple_space, minimum_access_size, next_power_of_two, reader,
  read_region, read_space, is_access, write_field, write_region,
}
use acpi_rs.Aml.Context.Regions.Preserve.{write_field-preserve}
use acpi_rs.Aml.Context.Store.{current_arg}
use acpi_rs.Aml.Context.Methods.{execute, exit_method, run_method, invoke_value, invoke_method}
use acpi_rs.Aml.Context.Methods.Restore.{SameFrame, invoke_method-SameFrame}
use acpi_rs.Aml.Context.Methods.Nested.{entered, run_method-nested}
use acpi_rs.Aml.PciRouting.{int_a, int_b, PciRoute, gsi, link_object, prt_table, route}
use acpi_rs.Aml.PciRouting.Lookup.{route-gsi}
use acpi_rs.Aml.PciRouting.Entries.{Wire, wire_value, wire_route, prt_table-wires}

abbrev foo : NameSeg
foo = seg b'F' b'O' b'O' b'_'

abbrev lnk : NameSeg
lnk = seg b'L' b'N' b'K' b'_'

abbrev crs_seg : NameSeg
crs_seg = seg b'_' b'C' b'R' b'S'

abbrev foo_path : AmlName
foo_path = absolute (foo ∷ [])

abbrev crs_path : AmlName
crs_path = absolute (lnk ∷ crs_seg ∷ [])

abbrev interrupt : IrqDescriptor
interrupt = record {
  is_consumer = true;
  trigger = edge;
  polarity = active_high;
  is_shared = false;
  is_wake_capable = false;
  irq = 11;
}

-- `\FOO` is a method, `\LNK._CRS` a buffer; handle 2 is a region.
abbrev names : Namespace AmlValue
names = record {
  next_handle = 3;
  object_map =
      (0, method 0 (native 0)) ∷ (1, buffer 0) ∷ (2, op_region system_memory 0x1000 16 none) ∷ [];
  root_level =
      level LevelType.scope
        (child lnk (level LevelType.device no_children ((crs_seg, 1) ∷ [])) no_children)
        ((foo, 0) ∷ []);
}

abbrev start : Context (Unit {0})
start = record {
  machine = tt;
  namespace = names;
  buffers = encode_list (irq_resource interrupt ∷ []) 0 ∷ [];
  method_context = none;
  current_scope = root_name;
  indent = 0;
  verbosity = DebugVerbosity.none;
}

abbrev no_terms : PkgLength → Parser (Context (Unit {0})) AmlValue (Unit {0})
no_terms l input c = parsed input c tt

abbrev returns_one : ℕ → Context (Unit {0}) → Result AmlValue × Context (Unit {0})
returns_one f c = (ok one_value, c)

-- The context after the allocation of a buffer.
abbrev with_buffer : Context (Unit {0}) → Context (Unit {0})
with_buffer c = record c { buffers = c.buffers ++ (7 ∷ []) ∷ [] }

-- With an argument, the method allocates a buffer and then invokes itself with none.
abbrev calls_itself : ℕ → Context (Unit {0}) → Result AmlValue × Context (Unit {0})
calls_itself f c = elim (current_arg c 0) [
  | ok v ↦ invoke_method no_terms returns_one (with_buffer c) foo_path no_args
  | _ ↦ (ok one_value, c)
]

abbrev one_arg : Slots
one_arg = some one_value ∷ none ∷ none ∷ none ∷ none ∷ none ∷ none ∷ []

invoke_method-SameFrame_example :
    SameFrame start (invoke_method no_terms returns_one start foo_path no_args).1
unfolding remove_level absolute_normal is_absolute normalize is_normal is_root_name
    get_level_for_path_mut split_path split_tail descend_mut delete_level find_child cmp_seg
    invoke_method invoke_value run_method execute exit_method get_by_path get_handle
    get_level_for_path descend Map.get Namespace.get add_level create_level insert_child
    remove_child write_child
invoke_method-SameFrame_example =
    invoke_method-SameFrame no_terms returns_one start
      (invoke_method no_terms returns_one start foo_path no_args).1 foo_path no_args one_value refl

abbrev before_inner : Context (Unit {0})
before_inner = with_buffer (entered no_terms calls_itself start foo_path one_arg)

abbrev inner : Context (Unit {0})
inner = (invoke_method no_terms calls_itself before_inner foo_path no_args).1

run_method-nested_example :
    (c'' : Context (Unit {0})) × (run_method no_terms calls_itself start foo_path one_arg (native 0)
      ≡ (err (level_does_not_exist foo_path), c''))
    × (c''.method_context ≡ before_inner.method_context)
unfolding remove_level absolute_normal is_absolute normalize is_normal is_root_name
    get_level_for_path_mut split_path split_tail descend_mut delete_level find_child cmp_seg
    invoke_method invoke_value run_method execute exit_method get_by_path get_handle
    get_level_for_path descend Map.get Namespace.get add_level create_level insert_child
    remove_child write_child current_arg arg slot_at
run_method-nested_example =
    run_method-nested no_terms calls_itself start before_inner inner [] foo one_arg no_args 0
      (native 0) one_value one_value refl refl refl refl

write_field-preserve_example :
    write_field start (field 2 0 0 4) (integer 9) ≡ write_region start 2 0 8 9
unfolding field_update_rule access_size access_type region_parts is_simple_space minimum_access_size
    next_power_of_two reader read_region read_space is_access Map.get Namespace.get
write_field-preserve_example =
    write_field-preserve start 2 0 0 4 8 0 9 refl refl refl (omega arith) (omega arith)
      (omega arith)

-- Two wired pins of device 3.
abbrev wires : List Wire
wires =
    record { device = 3; function = 0xffff; pin = int_a; number = 16 }
    ∷ record { device = 3; function = 0xffff; pin = int_b; number = 17 }
    ∷ []

prt_table-wires_example :
    prt_table start foo_path (aml_package (package_of (map wire_value wires)))
    ≡ ok (map wire_route wires)
prt_table-wires_example = prt_table-wires start foo_path wires (omega arith)

abbrev linked : PciRoute
linked = record {
  route_device = 3;
  route_function = 0;
  route_pin = int_b;
  route_type = link_object (absolute (lnk ∷ []));
}

abbrev wired : PciRoute
wired = record { route_device = 3; route_function = 0xffff; route_pin = int_b; route_type = gsi 17 }

abbrev other_pin : List PciRoute
other_pin =
    record { route_device = 3; route_function = 0xffff; route_pin = int_a; route_type = gsi 16 }
    ∷ []

route-gsi_example :
    (route no_terms returns_one start (other_pin ++ wired ∷ []) 3 0 int_b ≡ (
      ok (record {
        is_consumer = true;
        trigger = level;
        polarity = active_low;
        is_shared = true;
        is_wake_capable = false;
        irq = 17;
      }),
      start,
    ))
    × (route no_terms returns_one start other_pin 3 0 int_b ≡ (err prt_no_entry, start))
route-gsi_example =
    route-gsi no_terms returns_one start other_pin [] other_pin wired 3 0 17 int_b (refl, tt)
      (refl, tt) refl refl
