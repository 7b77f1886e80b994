-- ===== src/Tests/Memories.antt =====
-- rsdp/src/lib.rs and acpi/src/sdt.rs: memories.
use acpi_rs.Prelude.{
  refl, [], ℕ, ◌≡◌, ◌↔◌, ◌⊎◌, ◌%◌, ok, err, true, List, ◌∷◌, ◌++◌, replicate, get_or, leb, ◌-◌,
  if◌then◌else◌,
}
use acpi_rs.Bytes.{
  bytes_eq, from_le_bytes, wrapping_sum, utf8_from, lead_state, total, bytes_at, is_utf8,
}
use acpi_rs.Acpi.Sdt.{
  validate_header, header_signature, header_oem_id, header_oem_table_id, validate_header_ok,
}
use acpi_rs.Rsdp.{
  summed_length, Memory, validate, signature, oem_id, rsdp_signature, search_for_on_bios,
  no_valid_rsdp,
}
use acpi_rs.Rsdp.Found.{
  validate_ok, search_for_on_bios_lem, IsFirst, IsEmptyArea, bios_area, ebda_of,
}

-- A structure of revision 0, whose first 20 bytes sum to 0.
abbrev image : List ℕ
image = rsdp_signature ++ 225 ∷ replicate 27 0

abbrev structure : Memory
structure i = get_or image i 0

-- A machine with the structure on the second 16-byte boundary of the BIOS area.
abbrev machine : Memory
machine address = if leb 0xe0010 address then structure (address - 0xe0010) else 0

validate_ok_example : (validate structure ≡ ok tt) ↔ (
    (signature structure ≡ rsdp_signature)
    × (is_utf8 (oem_id structure) ≡ true)
    × (total (bytes_at structure 0 20) % 256 ≡ 0))
validate_ok_example = validate_ok structure

search_for_on_bios_lem_example :
    let search = search_for_on_bios machine machine structure in
    let ebda = ebda_of machine in
    ((a : ℕ) × (search ≡ ok a) × IsFirst machine machine structure bios_area a)
    ⊎ (((a : ℕ) × (search ≡ ok a)
          × IsEmptyArea machine machine structure bios_area
          × IsFirst machine machine structure ebda a)
        ⊎ ((search ≡ err no_valid_rsdp)
            × IsEmptyArea machine machine structure bios_area
            × IsEmptyArea machine machine structure ebda))
search_for_on_bios_lem_example = search_for_on_bios_lem machine machine structure

-- A table of 36 bytes with the signature of the MADT; its checksum is left out in the second one.
abbrev madt_signature : List ℕ
madt_signature = b'A' ∷ b'P' ∷ b'I' ∷ b'C' ∷ []

abbrev table : ℕ → Memory
table checksum i = get_or (madt_signature ++ 36 ∷ 0 ∷ 0 ∷ 0 ∷ 1 ∷ checksum ∷ replicate 26 0) i 0

validate_header_ok_example : (validate_header (table 190) madt_signature ≡ ok tt) ↔ (
    (header_signature (table 190) ≡ madt_signature)
    × (is_utf8 (header_oem_id (table 190)) ≡ true)
    × (is_utf8 (header_oem_table_id (table 190)) ≡ true)
    × (total (bytes_at (table 190) 0 (from_le_bytes (bytes_at (table 190) 4 4))) % 256 ≡ 0))
validate_header_ok_example = validate_header_ok (table 190) madt_signature

table_accepted : validate_header (table 190) madt_signature ≡ ok tt
unfolding validate_header bytes_eq bytes_at from_le_bytes wrapping_sum is_utf8 utf8_from lead_state
table_accepted = refl

structure_accepted : validate structure ≡ ok tt
unfolding validate summed_length bytes_eq bytes_at from_le_bytes wrapping_sum is_utf8 utf8_from
    lead_state
structure_accepted = refl
