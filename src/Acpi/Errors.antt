-- ===== src/Acpi/Errors.antt =====
-- acpi/src/lib.rs, acpi/src/madt.rs: the errors of the crate acpi.
use acpi_rs.Prelude.{ℕ, List, Outcome}
use acpi_rs.Rsdp.{RsdpError}

pub data MadtError : Type 0 where
  unexpected_entry interrupt_override_entry_has_invalid_bus invalid_local_nmi_line : MadtError
  mps_inti_invalid_polarity mps_inti_invalid_trigger_mode : MadtError

-- `AcpiError`; a `Signature` is its four bytes.
pub data AcpiError : Type 0 where
  rsdp : RsdpError → AcpiError
  sdt_invalid_signature sdt_invalid_oem_id sdt_invalid_table_id : List ℕ → AcpiError
  sdt_invalid_checksum table_missing : List ℕ → AcpiError
  invalid_facs_address invalid_dsdt_address : AcpiError
  invalid_madt : MadtError → AcpiError
  invalid_generic_address alloc_error : AcpiError

-- `AcpiResult`.
abbrev pub Acpi : Type 0 → Type 0
Acpi = Outcome AcpiError
