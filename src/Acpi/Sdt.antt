-- ===== src/Acpi/Sdt.antt =====
-- acpi/src/sdt.rs: the header of a table and its validation. A header is the bytes from its address
-- on; a `Signature` is its four bytes.
use acpi_rs.Prelude.{ℕ, ◌%◌, ltb, true, not, List, ok, err, if◌then◌else◌, ◌≡◌, ◌↔◌, arith}
use acpi_rs.Bytes.{
  from_le_bytes, bytes_at, bytes_eq, bytes_eq_iff, wrapping_sum, total, wrapping_sum-total, is_utf8,
}
use acpi_rs.Acpi.Errors.{
  Acpi, sdt_invalid_signature, sdt_invalid_oem_id, sdt_invalid_table_id, sdt_invalid_checksum,
}

-- The fields of `SdtHeader` that `validate` reads.
abbrev pub header_signature : (ℕ → ℕ) → List ℕ
header_signature self = bytes_at self 0 4

abbrev pub header_length : (ℕ → ℕ) → ℕ
header_length self = from_le_bytes (bytes_at self 4 4)

abbrev pub header_oem_id : (ℕ → ℕ) → List ℕ
header_oem_id self = bytes_at self 10 6

abbrev pub header_oem_table_id : (ℕ → ℕ) → List ℕ
header_oem_table_id self = bytes_at self 16 8

-- `SdtHeader::validate`.
unfoldable pub validate_header : (ℕ → ℕ) → List ℕ → Acpi (Unit {0})
validate_header self signature =
    if not (bytes_eq (header_signature self) signature)
    then err (sdt_invalid_signature signature)
    else if not (is_utf8 (header_oem_id self))
    then err (sdt_invalid_oem_id signature)
    else if not (is_utf8 (header_oem_table_id self))
    then err (sdt_invalid_table_id signature)
    else if ltb 0 (wrapping_sum 0 (bytes_at self 0 (header_length self)))
    then err (sdt_invalid_checksum signature)
    else ok tt

-- `validate` accepts exactly the tables with the signature, an OEM id and an OEM table id in UTF-8,
-- and as many bytes as the header says that sum to 0 modulo 256.
pub validate_header_ok :
    (self : ℕ → ℕ) (signature : List ℕ)
    → (validate_header self signature ≡ ok tt) ↔ (
        (header_signature self ≡ signature)
        × (is_utf8 (header_oem_id self) ≡ true)
        × (is_utf8 (header_oem_table_id self) ≡ true)
        × (total (bytes_at self 0 (from_le_bytes (bytes_at self 4 4))) % 256 ≡ 0))
unfolding validate_header
validate_header_ok self signature = ground (
  arith,
  bytes_eq_iff (header_signature self) signature,
  wrapping_sum-total 0 (bytes_at self 0 (from_le_bytes (bytes_at self 4 4))) (omega arith),
)

-- `validate` fails with `SdtInvalidChecksum` exactly when the signature is right and both names are in
-- UTF-8, but the bytes of the table do not sum to 0 modulo 256.
pub validate_header_checksum :
    (self : ℕ → ℕ) (signature : List ℕ)
    → (validate_header self signature ≡ err (sdt_invalid_checksum signature)) ↔ (
        (header_signature self ≡ signature)
        × (is_utf8 (header_oem_id self) ≡ true)
        × (is_utf8 (header_oem_table_id self) ≡ true)
        × ¬ (total (bytes_at self 0 (from_le_bytes (bytes_at self 4 4))) % 256 ≡ 0))
unfolding validate_header
validate_header_checksum self signature = ground (
  arith,
  bytes_eq_iff (header_signature self) signature,
  wrapping_sum-total 0 (bytes_at self 0 (from_le_bytes (bytes_at self 4 4))) (omega arith),
)
