-- ===== src/Aml/PciRouting/Entries.antt =====
-- aml/src/pci_routing.rs: the packages of a `_PRT` object.
use acpi_rs.Prelude.{ℕ, ◌+◌, ◌*◌, ◌^◌, ◌<◌, ◌≡◌, refl, ◌∙◌, List, [], ◌∷◌, map, ok, lt→ltb, arith}
use acpi_rs.BitField.{BitField}
use acpi_rs.Bytes.Bits.{BitVec}
use acpi_rs.Bytes.Slices.{LittleEndian}
use acpi_rs.Aml.Types.{AmlName}
use acpi_rs.Aml.Value.{AmlValue, integer, aml_package, end, item, value_list, package_of}
use acpi_rs.Aml.Context.{Handler, Context}
use acpi_rs.Aml.Context.Regions.{as_integer}
use acpi_rs.Aml.PciRouting.{
  Pin, int_a, int_b, int_c, int_d, PciRoute, gsi, pin_of, prt_value, prt_entries, prt_table,
}

abbrev pub pin_number : Pin → ℕ
pin_number int_a = 0
pin_number int_b = 1
pin_number int_c = 2
pin_number int_d = 3

-- A pin that is wired to a number of the interrupt controller.
pub record Wire : Type 0 where
  pub device : ℕ
  pub function : ℕ
  pub pin : Pin
  pub number : ℕ

abbrev pub wire_route : Wire → PciRoute
wire_route w = record {
  route_device = w.device;
  route_function = w.function;
  route_pin = w.pin;
  route_type = gsi w.number;
}

-- Its package, as the comment in `from_prt_path` lays it out.
abbrev pub wire_value : Wire → AmlValue
wire_value w = aml_package (
    item (integer (w.device * 2 ^ 16 + w.function))
      (item (integer (pin_number w.pin)) (item (integer 0) (item (integer w.number) end))))

abbrev pub AllFit : List Wire → Type 0
AllFit [] = Unit {0}
AllFit (w ∷ ws) = (w.device < 2 ^ 16) × (w.function < 2 ^ 16) × (w.number < 2 ^ 32) × AllFit ws

value_list-package_of : (vs : List AmlValue) → value_list (package_of vs) ≡ vs
unfolding value_list package_of
value_list-package_of [] = refl
value_list-package_of (v ∷ vs) = rw (value_list-package_of vs) refl

pin_of-pin_number : (p : Pin) → pin_of (pin_number p) ≡ ok p
unfolding pin_of
pin_of-pin_number p = ground arith

module _ {W : Type 0} ⦃bits : BitField⦄ ⦃bv : BitVec⦄ ⦃le : LittleEndian⦄ ⦃h : Handler W⦄ where
  prt_value-wire :
      (c : Context W) (path : AmlName) (w : Wire)
      → w.device < 2 ^ 16
      → w.function < 2 ^ 16
      → w.number < 2 ^ 32
      → prt_value c path (wire_value w) ≡ ok (wire_route w)
  unfolding prt_value as_integer
  prt_value-wire c path w hd hf hn =
      let address = w.device * 2 ^ 16 + w.function in
      let device : bits.get_bits address 16 32 ≡ w.device =
        bits.get_bits_lem address 16 32 (omega arith) ∙ (omega (arith, hd, hf)) in
      let function : bits.get_bits address 0 16 ≡ w.function =
        bits.get_bits_lem address 0 16 (omega arith) ∙ (omega (arith, hd, hf)) in
      rw (device, function)
        (rw (lt→ltb w.device (2 ^ 16) hd, lt→ltb w.function (2 ^ 16) hf)
          (rw (pin_of-pin_number w.pin) (rw (lt→ltb w.number (2 ^ 32) hn) refl)))

  prt_entries-wires :
      (c : Context W) (path : AmlName) (ws : List Wire)
      → AllFit ws
      → prt_entries c path (map wire_value ws) ≡ ok (map wire_route ws)
  unfolding prt_entries
  prt_entries-wires c path [] h = refl
  prt_entries-wires c path (w ∷ ws) k =
      rw (prt_value-wire c path w k.0 k.1 k.2) (rw (prt_entries-wires c path ws k.3) refl)

  -- The package of any number of pins that are wired to the interrupt controller, whose numbers fit
  -- their fields, is read back as those routes, in their order.
  pub prt_table-wires :
      (c : Context W) (path : AmlName) (ws : List Wire)
      → AllFit ws
      → prt_table c path (aml_package (package_of (map wire_value ws))) ≡ ok (map wire_route ws)
  unfolding prt_table
  prt_table-wires c path ws k =
      rw (value_list-package_of (map wire_value ws)) (prt_entries-wires c path ws k)
