-- ===== src/Acpi/Madt/X2Apic.antt =====
-- acpi/src/madt.rs: `parse_apic_model_in` on a table with X2APIC entries, which it does not count.
use acpi_rs.BitField.{BitField}
