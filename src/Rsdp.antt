-- ===== src/Rsdp.antt =====
-- rsdp/src/lib.rs: the Root System Description Pointer, its validation and the search for it on BIOS
-- systems. A memory is the function from addresses to bytes that the mappings of the handler
-- (`AcpiHandler::map_physical_region`) show; a structure is the bytes from its address on. The copy of
-- a structure near the end of an area reads past the mapping of the area.
pub mod Found
use acpi_rs.Prelude.{
  ℕ, zero, suc, ◌+◌, ◌-◌, ◌*◌, ◌/◌, ◌%◌, ltb, leb, ◌==◌, Bool, true, false, not, ◌&&◌, List, [],
  ◌∷◌, Outcome, ok, err, panic, if◌then◌else◌, Option, some, none,
}
use acpi_rs.Bytes.{bytes_eq, from_le_bytes, bytes_at, wrapping_sum, is_utf8}

pub data RsdpError : Type 0 where
  no_valid_rsdp incorrect_signature invalid_oem_id invalid_checksum : RsdpError

abbrev pub Memory : Type 0
Memory = ℕ → ℕ

-- `*b"RSD PTR "`.
abbrev pub rsdp_signature : List ℕ
rsdp_signature = b'R' ∷ b'S' ∷ b'D' ∷ b' ' ∷ b'P' ∷ b'T' ∷ b'R' ∷ b' ' ∷ []

abbrev pub rsdp_size : ℕ
rsdp_size = 36

abbrev pub rsdp_v1_length : ℕ
rsdp_v1_length = 20

-- The fields of `Rsdp`, which is packed.
abbrev pub signature : Memory → List ℕ
signature self = bytes_at self 0 8

abbrev pub oem_id : Memory → List ℕ
oem_id self = bytes_at self 9 6

abbrev pub revision : Memory → ℕ
revision self = self 15

abbrev pub length_field : Memory → ℕ
length_field self = from_le_bytes (bytes_at self 20 4)

-- The length that `validate` sums up.
unfoldable pub summed_length : Memory → ℕ
summed_length self = if ltb 0 (revision self) then length_field self else rsdp_v1_length

-- `Rsdp::validate`.
unfoldable pub validate : Memory → Outcome RsdpError (Unit {0})
validate self =
    if not (bytes_eq (signature self) rsdp_signature)
    then err incorrect_signature
    else if not (is_utf8 (oem_id self))
    then err invalid_oem_id
    else if not (wrapping_sum 0 (bytes_at self 0 (summed_length self)) == 0)
    then err invalid_checksum
    else ok tt

-- `Range<usize>`.
pub record Area : Type 0 where
  pub start : ℕ
  pub end : ℕ

abbrev pub ebda_start_segment_ptr : ℕ
ebda_start_segment_ptr = 0x40e

abbrev pub ebda_earliest_start : ℕ
ebda_earliest_start = 0x80000

abbrev pub ebda_end : ℕ
ebda_end = 0x9ffff

abbrev pub rsdp_bios_area_start : ℕ
rsdp_bios_area_start = 0xe0000

abbrev pub rsdp_bios_area_end : ℕ
rsdp_bios_area_end = 0xfffff

-- The second of the areas, by the start of the EBDA.
unfoldable pub ebda_area : ℕ → Area
ebda_area ebda_start =
    if leb ebda_earliest_start ebda_start && ltb ebda_start ebda_end
    then record { start = ebda_start; end = ebda_start + 1024 }
    else record { start = ebda_earliest_start; end = ebda_end + 1 }

abbrev pub ebda_start_of : Memory → ℕ
ebda_start_of memory = from_le_bytes (bytes_at memory ebda_start_segment_ptr 2) * 16

-- `find_search_areas`.
unfoldable pub find_search_areas : Memory → List Area
find_search_areas memory =
    record { start = rsdp_bios_area_start; end = rsdp_bios_area_end + 1 }
    ∷ ebda_area (ebda_start_of memory)
    ∷ []

-- What the loop reads of the mapping of an area: past the end of the area, `outside`, which may be
-- anything.
unfoldable pub mapped : Memory → Memory → Area → Memory
mapped memory outside area address =
    if ltb address area.end then memory address else outside address

-- `*(ptr as *const Rsdp)` copies the structure: what `validate` reads after it is what follows the
-- copy, `beyond`.
unfoldable pub copy_at : Memory → Memory → ℕ → Memory
copy_at memory beyond address i = if ltb i rsdp_size then memory (address + i) else beyond i

-- The tests that one round of the loop over the addresses makes.
unfoldable pub is_rsdp : Memory → Memory → ℕ → Bool
is_rsdp memory beyond address =
    bytes_eq (bytes_at memory address 8) rsdp_signature
    && (elim (validate (copy_at memory beyond address)) [
      | ok _ ↦ true
      | err _ ↦ false
      | panic ↦ false
    ])

-- The loop over an area, `n` steps of 16 from an address on.
unfoldable pub scan : Memory → Memory → ℕ → ℕ → Option ℕ
scan memory beyond address zero = none
scan memory beyond address (suc n) =
    if is_rsdp memory beyond address then some address else scan memory beyond (address + 16) n

-- `area.step_by(16)` has this many elements.
abbrev pub steps : Area → ℕ
steps area = (area.end - area.start + 15) / 16

-- The loop over the areas, which the first find leaves.
unfoldable pub scan_areas : Memory → Memory → Memory → List Area → Option ℕ
scan_areas memory outside beyond [] = none
scan_areas memory outside beyond (area ∷ areas) =
    elim (scan (mapped memory outside area) beyond area.start (steps area)) [
      | some address ↦ some address
      | none ↦ scan_areas memory outside beyond areas
    ]

-- `Rsdp::search_for_on_bios`, the address that is mapped.
unfoldable pub search_for_on_bios : Memory → Memory → Memory → Outcome RsdpError ℕ
search_for_on_bios memory outside beyond =
    elim (scan_areas memory outside beyond (find_search_areas memory)) [
      | some address ↦ ok address
      | none ↦ err no_valid_rsdp
    ]
