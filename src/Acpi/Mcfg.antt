-- ===== src/Acpi/Mcfg.antt =====
-- acpi/src/mcfg.rs: the regions of the PCIe configuration space and the address of a function in them.
-- A table is the bytes from its address on.
use native.Mathlib.Nat.{two-pow-succ, mod-eq_of_lt}
use acpi_rs.Prelude.{
  ℕ, zero, suc, ◌+◌, ◌-◌, ◌*◌, ◌/◌, ◌%◌, ◌^◌, ◌<◌, ◌≤◌, leb, ltb, ◌==◌, ◌≡◌, ◌∙◌, ap, refl, ◌++◌,
  Bool, true, ◌&&◌, ◌||◌, List, [], ◌∷◌, Option, some, none, ok, panic, if◌then◌else◌, arith,
}
use acpi_rs.Prelude.Search.{find, NonePass, find-first, find-none}
use acpi_rs.Bytes.{from_le_bytes, bytes_at}
use acpi_rs.Acpi.Errors.{Acpi}
use acpi_rs.Acpi.Sdt.{header_length}

-- `a | b` on integers of `w` bits.
unfoldable pub bit_or : ℕ → ℕ → ℕ → ℕ
bit_or zero a b = 0
bit_or (suc w) a b = (if a % 2 == 1 || b % 2 == 1 then 1 else 0) + 2 * bit_or w (a / 2) (b / 2)

-- `McfgEntry`, without its reserved bytes.
pub record McfgEntry : Type 0 where
  pub base_address : ℕ
  pub pci_segment_group : ℕ
  pub bus_number_start : ℕ
  pub bus_number_end : ℕ

unfoldable pub entry_at : (ℕ → ℕ) → ℕ → McfgEntry
entry_at self a = record {
  base_address = from_le_bytes (bytes_at (λ i. self (a + i)) 0 8);
  pci_segment_group = from_le_bytes (bytes_at (λ i. self (a + i)) 8 2);
  bus_number_start = self (a + 10);
  bus_number_end = self (a + 11);
}

-- The entries from an address on.
unfoldable pub entries_from : (ℕ → ℕ) → ℕ → ℕ → List McfgEntry
unfolding entry_at
entries_from self a zero = []
entries_from self a (suc n) = entry_at self a ∷ entries_from self (a + 16) n

-- `Mcfg::entries`: what is shorter than an entry at the end is left out. A length below that of the
-- fixed part makes the subtraction overflow.
unfoldable pub entries : (ℕ → ℕ) → Acpi (List McfgEntry)
unfolding entries_from
entries self =
    if ltb (header_length self) 44
    then panic
    else ok (entries_from self 44 ((header_length self - 44) / 16))

-- The region of a segment and a bus.
unfoldable pub manages : ℕ → ℕ → McfgEntry → Bool
manages segment_group_no bus region =
    region.pci_segment_group == segment_group_no
    && (leb region.bus_number_start bus && leb bus region.bus_number_end)

-- The address of a function in a region; the sum wraps at 2^64.
unfoldable pub address_in : McfgEntry → ℕ → ℕ → ℕ → ℕ
unfolding bit_or
address_in region bus device function =
    (region.base_address
      + bit_or 64 (bit_or 64 ((bus - region.bus_number_start) * 2 ^ 20) (device * 2 ^ 15))
          (function * 2 ^ 12))
    % 2 ^ 64

-- `PciConfigRegions::physical_address`.
unfoldable pub physical_address : List McfgEntry → ℕ → ℕ → ℕ → ℕ → Option ℕ
unfolding find address_in
physical_address regions segment_group_no bus device function =
    elim (find (manages segment_group_no bus) regions) [
      | some region ↦ some (address_in region bus device function)
      | none ↦ none
    ]

bit_or-zero : (w a : ℕ) → a < 2 ^ w → bit_or w a 0 ≡ a
unfolding bit_or
bit_or-zero zero a h = omega arith
bit_or-zero (suc w) a h =
    let rest = bit_or-zero w (a / 2) (omega (arith, h, two-pow-succ w)) in ground (arith, rest)

-- An or of numbers that share no bits is their sum.
bit_or-apart :
    (w k q b : ℕ) → b < 2 ^ k → q * 2 ^ k + b < 2 ^ w → bit_or w (q * 2 ^ k) b ≡ q * 2 ^ k + b
unfolding bit_or
bit_or-apart w zero q b h fits =
    let none_left : b ≡ 0 = omega (arith, h) in
    let whole : q * 2 ^ 0 ≡ q = omega arith in
    rw (none_left, whole) (bit_or-zero w q (omega (arith, fits)) ∙ (omega arith))
bit_or-apart zero (suc k) q b h fits = omega arith
bit_or-apart (suc w) (suc k) q b h fits =
    let double : q * 2 ^ suc k ≡ 2 * (q * 2 ^ k) = rw (two-pow-succ k) (grind arith) in
    let low : q * 2 ^ suc k % 2 ≡ 0 = omega (arith, double) in
    let half : q * 2 ^ suc k / 2 ≡ q * 2 ^ k = omega (arith, double) in
    let rest =
      bit_or-apart w k q (b / 2) (omega (arith, h, two-pow-succ k))
        (omega (arith, fits, double, two-pow-succ w)) in
    rw (low, half, rest) (ground (arith, double))

address_in_lem :
    (region : McfgEntry) (bus device function : ℕ)
    → device < 32
    → function < 8
    → region.base_address + (bus - region.bus_number_start) * 2 ^ 20 + 2 ^ 20 ≤ 2 ^ 64
    → address_in region bus device function
      ≡ region.base_address
        + (bus - region.bus_number_start) * 2 ^ 20
        + device * 2 ^ 15
        + function * 2 ^ 12
unfolding address_in
address_in_lem region bus device function d f inside =
    let n = bus - region.bus_number_start in
    let devices =
      bit_or-apart 64 20 n (device * 2 ^ 15) (omega (arith, d)) (omega (arith, inside, d)) in
    let together : n * 2 ^ 20 + device * 2 ^ 15 ≡ (n * 32 + device) * 2 ^ 15 = omega arith in
    let functions =
      bit_or-apart 64 15 (n * 32 + device) (function * 2 ^ 12) (omega (arith, f))
        (omega (arith, inside, d, f)) in
    rw (devices, together, functions) (mod-eq_of_lt (omega (arith, inside, d, f)) ∙ (omega arith))

-- For a function of a device on a bus that the table covers, physical_address gives the base of the
-- first region for that segment and bus, plus 1 MiB for each bus before it, 32 KiB for each device
-- and 4 KiB for each function, if the bus's part of the region ends below 2^64. With no region there
-- is no address.
pub physical_address_lem :
    (front back others : List McfgEntry) (region : McfgEntry)
    (segment_group_no bus device function : ℕ)
    → let test = manages segment_group_no bus in
      NonePass test front
      → NonePass test others
      → test region ≡ true
      → device < 32
      → function < 8
      → region.base_address + (bus - region.bus_number_start) * 2 ^ 20 + 2 ^ 20 ≤ 2 ^ 64
      → (physical_address (front ++ region ∷ back) segment_group_no bus device function
          ≡ some (
              region.base_address
              + (bus - region.bus_number_start) * 2 ^ 20
              + device * 2 ^ 15
              + function * 2 ^ 12))
        × (physical_address others segment_group_no bus device function ≡ none)
unfolding physical_address address_in
physical_address_lem front back others region segment_group_no bus device function before absent
      here d f inside =
    let test = manages segment_group_no bus in
    (
      (rw (find-first test front back region before here, physical_address)
          (ap some (address_in_lem region bus device function d f inside))),
      (rw (find-none test others absent, physical_address) refl),
    )
