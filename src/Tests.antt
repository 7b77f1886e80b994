-- ===== src/Tests.antt =====
-- Runs of the models of aml/src, rsdp/src and acpi/src at concrete inputs: names, a namespace, small
-- tables and methods, the stream of a definition block and the memory of a machine.
mod Bits
mod Names
mod Namespaces
mod Streams
mod Memories
mod Tables
mod Machines
mod Resources
mod Methods
mod Programs
