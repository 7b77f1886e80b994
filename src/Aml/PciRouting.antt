-- ===== src/Aml/PciRouting.antt =====
-- aml/src/pci_routing.rs: the routing table of PCI interrupt pins, read from a `_PRT` object, and the
-- lookup in it.
pub mod Lookup
pub mod Entries
use acpi_rs.Prelude.{
  ℕ, ◌^◌, ltb, ◌==◌, Bool, true, false, ◌&&◌, ◌||◌, List, [], ◌∷◌, Option, some, none, Outcome, ok,
  err, panic, ◌>>=◌, if◌then◌else◌,
}
use acpi_rs.Prelude.Search.{find}
use acpi_rs.BitField.{BitField}
use acpi_rs.Bytes.Bits.{BitVec}
use acpi_rs.Bytes.Slices.{LittleEndian, index}
use acpi_rs.Aml.Types.{
  AmlType, AmlName, AmlError, Result, prt_invalid_address, prt_invalid_pin, prt_invalid_source,
  prt_invalid_gsi, prt_no_entry, unexpected_resource_type, incompatible_value_conversion,
}
use acpi_rs.Aml.Name.{resolve}
use acpi_rs.Aml.Name.Text.{from_str}
use acpi_rs.Aml.Namespace
use acpi_rs.Aml.Parsing.{Parser, PkgLength}
use acpi_rs.Aml.Resource.Types.{IrqDescriptor, level, active_low, Resource, irq_resource}
use acpi_rs.Aml.Resource.{resource_descriptor_list}
use acpi_rs.Aml.Value.{
  AmlValue, integer, string, aml_package, Values, end, item, value_list, codes, type_of,
}
use acpi_rs.Aml.Value.Arguments.{no_args}
use acpi_rs.Aml.Context.{Handler, Context, settled, unwrap}
use acpi_rs.Aml.Context.Regions.{as_integer}
use acpi_rs.Aml.Context.Store.{on_ok}
use acpi_rs.Aml.Context.Methods.{invoke_method}

pub data Pin : Type 0 where
  int_a int_b int_c int_d : Pin

-- The derived equality.
unfoldable pub pin_eq : Pin → Pin → Bool
pin_eq int_a int_a = true
pin_eq int_b int_b = true
pin_eq int_c int_c = true
pin_eq int_d int_d = true
pin_eq _ _ = false

pub data PciRouteType : Type 0 where
  gsi : ℕ → PciRouteType
  link_object : AmlName → PciRouteType

pub record PciRoute : Type 0 where
  pub route_device : ℕ
  pub route_function : ℕ
  pub route_pin : Pin
  pub route_type : PciRouteType

-- `try_into()` below a limit, with what `map_err` makes of its failure.
unfoldable pub fit : AmlError → ℕ → ℕ → Result ℕ
fit e limit n = if ltb n limit then ok n else err e

unfoldable pub pin_of : ℕ → Result Pin
pin_of n =
    if n == 0
    then ok int_a
    else if n == 1
    then ok int_b
    else if n == 2
    then ok int_c
    else if n == 3
    then ok int_d
    else err prt_invalid_pin

-- The entry that `route` looks for; the function 0xffff stands for all of them.
unfoldable pub is_route : ℕ → ℕ → Pin → PciRoute → Bool
unfolding pin_eq
is_route device function pin entry =
    entry.route_device == device
    && (entry.route_function == 0xffff || entry.route_function == function)
    && pin_eq entry.route_pin pin

-- The descriptor of an interrupt that is wired to the controller.
abbrev pub hard_wired : ℕ → IrqDescriptor
hard_wired n = record {
  is_consumer = true;
  trigger = level;
  polarity = active_low;
  is_shared = true;
  is_wake_capable = false;
  irq = n;
}

-- `match resources.as_slice()`.
unfoldable pub single_irq : List Resource → Result IrqDescriptor
single_irq (irq_resource d ∷ []) = ok d
single_irq _ = err unexpected_resource_type

module _ {W : Type 0} ⦃bits : BitField⦄ ⦃bv : BitVec⦄ ⦃le : LittleEndian⦄ ⦃h : Handler W⦄ where
  -- The `match` on the source of an entry.
  unfoldable pub route_type_of :
      Context W → AmlName → List AmlValue → AmlValue → Result PciRouteType
  unfolding fit index from_str
  route_type_of c prt_path pin_package (integer n) =
      if n == 0
      then (do
        source_index ← index pin_package 3
        value ← as_integer c source_index
        number ← fit prt_invalid_gsi (2 ^ 32) value
        ok (gsi number))
      else err prt_invalid_source
  route_type_of c prt_path pin_package (string text) = do
    name ← from_str text
    link ← settled (Namespace.search_for_level c.namespace name prt_path)
    ok (link_object link)
  route_type_of c prt_path pin_package _ = err prt_invalid_source

  -- One round of the loop of `from_prt_path`, on the values of an inner package.
  unfoldable pub prt_entry : Context W → AmlName → List AmlValue → Result PciRoute
  unfolding fit index pin_of route_type_of
  prt_entry c prt_path pin_package = do
    address_value ← index pin_package 0
    address ← as_integer c address_value
    device ← fit prt_invalid_address (2 ^ 16) (bits.get_bits address 16 32)
    function ← fit prt_invalid_address (2 ^ 16) (bits.get_bits address 0 16)
    pin_value ← index pin_package 1
    pin_number ← as_integer c pin_value
    pin ← pin_of pin_number
    source ← index pin_package 2
    typ ← route_type_of c prt_path pin_package source
    ok (record {
      route_device = device;
      route_function = function;
      route_pin = pin;
      route_type = typ;
    })

  unfoldable pub prt_value : Context W → AmlName → AmlValue → Result PciRoute
  unfolding prt_entry type_of value_list
  prt_value c prt_path (aml_package vs) = prt_entry c prt_path (value_list vs)
  prt_value c prt_path v = err (incompatible_value_conversion (type_of v) AmlType.aml_package)

  unfoldable pub prt_entries : Context W → AmlName → List AmlValue → Result (List PciRoute)
  prt_entries c prt_path [] = ok []
  prt_entries c prt_path (v ∷ vs) = prt_value c prt_path v >>= λ entry.
      prt_entries c prt_path vs >>= λ entries. ok (entry ∷ entries)

  unfoldable pub prt_table : Context W → AmlName → AmlValue → Result (List PciRoute)
  unfolding type_of value_list
  prt_table c prt_path (aml_package vs) = prt_entries c prt_path (value_list vs)
  prt_table c prt_path v = err (incompatible_value_conversion (type_of v) AmlType.aml_package)

  module _ (term_list : PkgLength → Parser (Context W) AmlValue (Unit {0}))
      (call_native : ℕ → Context W → Result AmlValue × Context W) where
    unfoldable pub from_prt_path : Context W → AmlName → Result (List PciRoute) × Context W
    unfolding prt_table
    from_prt_path c prt_path =
        let (r, c') = invoke_method term_list call_native c prt_path no_args in
        on_ok c' r (λ prt. (prt_table c' prt_path prt, c'))

    -- The interrupt of a route.
    unfoldable pub route_irq : Context W → PciRouteType → Result IrqDescriptor × Context W
    unfolding from_str single_irq
    route_irq c (gsi n) = (ok (hard_wired n), c)
    route_irq c (link_object name) =
        on_ok c (unwrap (from_str (codes "_CRS")) >>= λ crs. resolve crs name) (λ path.
          let (r, c') = invoke_method term_list call_native c path no_args in
          on_ok c' r (λ link_crs.
            (settled (resource_descriptor_list c'.buffers link_crs) >>= single_irq, c')))

    unfoldable pub route :
        Context W → List PciRoute → ℕ → ℕ → Pin → Result IrqDescriptor × Context W
    unfolding find is_route route_irq
    route c entries device function pin = elim (find (is_route device function pin) entries) [
      | some entry ↦ route_irq c entry.route_type
      | none ↦ (err prt_no_entry, c)
    ]
