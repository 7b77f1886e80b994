-- ===== src/Aml/PciRouting/Lookup.antt =====
-- aml/src/pci_routing.rs: what `route` finds.
use acpi_rs.Prelude.{
  sym, subst, some, none, ℕ, ◌≡◌, refl, true, List, [], ◌∷◌, ◌++◌, ok, err, Bool, false,
  if◌then◌else◌, ◌==◌, ◌&&◌, arith,
}
use mathlib.Core.Path.{fun_ext}
use acpi_rs.Prelude.Search.{find, NonePass, find-first, find-none}
use acpi_rs.BitField.{BitField}
use acpi_rs.Bytes.Bits.{BitVec}
use acpi_rs.Bytes.Slices.{LittleEndian}
use acpi_rs.Aml.Types.{AmlName, Result, seg, segment, prt_no_entry}
use acpi_rs.Aml.Parsing.{Parser, PkgLength}
use acpi_rs.Aml.Resource.Types.{level, active_low}
use acpi_rs.Aml.Value.{AmlValue}
use acpi_rs.Aml.Context.{Handler, Context}
use acpi_rs.Aml.PciRouting.{
  Pin, int_a, int_b, int_c, int_d, pin_eq, gsi, PciRoute, is_route, route_irq, route,
}

-- The name `_CRS`.
abbrev pub crs : AmlName
crs = segment (seg b'_' b'C' b'R' b'S') ∷ []

-- The entry is for the device and the pin, and for the function or for all functions.
abbrev pub pin_number : Pin → ℕ
pin_number int_a = 0
pin_number int_b = 1
pin_number int_c = 2
pin_number int_d = 3

abbrev pub is_for : ℕ → ℕ → Pin → PciRoute → Bool
is_for device function pin entry =
    (if entry.route_function == 65535 then true else entry.route_function == function)
    && (pin_number pin == pin_number entry.route_pin)
    && (device == entry.route_device)

pin_eq-number : (p q : Pin) → pin_eq p q ≡ (pin_number q == pin_number p)
unfolding pin_eq
pin_eq-number int_a q = ground arith
pin_eq-number int_b q = ground arith
pin_eq-number int_c q = ground arith
pin_eq-number int_d q = ground arith

is_route-is_for :
    (device function : ℕ) (pin : Pin) → is_route device function pin ≡ is_for device function pin
unfolding is_route
is_route-is_for device function pin =
    fun_ext λ entry. ground (arith, pin_eq-number entry.route_pin pin)

find-entry :
    (front back : List PciRoute) (entry : PciRoute) (device function : ℕ) (pin : Pin)
    → NonePass (is_for device function pin) front
    → is_for device function pin entry ≡ true
    → find (is_route device function pin) (front ++ entry ∷ back) ≡ some entry
find-entry front back entry device function pin none_before is_entry =
    subst (λ test. find test (front ++ entry ∷ back) ≡ some entry)
      (sym (is_route-is_for device function pin))
      (find-first (is_for device function pin) front back entry none_before is_entry)

find-no_entry :
    (entries : List PciRoute) (device function : ℕ) (pin : Pin)
    → NonePass (is_for device function pin) entries
    → find (is_route device function pin) entries ≡ none
find-no_entry entries device function pin no_entry =
    subst (λ test. find test entries ≡ none) (sym (is_route-is_for device function pin))
      (find-none (is_for device function pin) entries no_entry)

module _ {W : Type 0} ⦃bits : BitField⦄ ⦃bv : BitVec⦄ ⦃le : LittleEndian⦄ ⦃h : Handler W⦄
    (term_list : PkgLength → Parser (Context W) AmlValue (Unit {0}))
    (call_native : ℕ → Context W → Result AmlValue × Context W) where
  -- Where the first entry for the device, function and pin is a number of the interrupt controller,
  -- route returns the interrupt of that number: level triggered, active low, shared, consumed and
  -- not able to wake the system. Where no entry is for them, the result is PrtNoEntry. Neither
  -- changes the context.
  pub route-gsi :
      (c : Context W) (front back others : List PciRoute) (entry : PciRoute) (device function n : ℕ)
      (pin : Pin)
      → NonePass (is_for device function pin) front
      → NonePass (is_for device function pin) others
      → is_for device function pin entry ≡ true
      → entry.route_type ≡ gsi n
      → (route term_list call_native c (front ++ entry ∷ back) device function pin ≡ (
        ok (record {
          is_consumer = true;
          trigger = level;
          polarity = active_low;
          is_shared = true;
          is_wake_capable = false;
          irq = n;
        }),
        c,
      ))
        × (route term_list call_native c others device function pin ≡ (err prt_no_entry, c))
  unfolding route route_irq
  route-gsi c front back others entry device function n pin none_before no_entry is_entry number = (
    rw (find-entry front back entry device function pin none_before is_entry, route)
        (rw (number, route_irq) refl),
    rw (find-no_entry others device function pin no_entry, route) refl,
  )
