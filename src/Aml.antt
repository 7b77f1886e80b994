-- ===== src/Aml.antt =====
-- The crate aml: the parser and interpreter of ACPI Machine Language.
pub mod Types
pub mod Segment
pub mod Name
pub mod Level
pub mod Namespace
pub mod Parsing
pub mod Opcode
pub mod PkgLength
pub mod NameString
pub mod Value
pub mod Context
pub mod Action
pub mod Expression
pub mod Statement
pub mod Term
pub mod Resource
pub mod PciRouting
