-- ===== src/Acpi.antt =====
-- The crate acpi: the tables that the firmware leaves in memory.
pub mod Errors
pub mod Madt
pub mod Mcfg
pub mod Sdt
