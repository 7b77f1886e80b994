-- ===== src/Tests/Tables.antt =====
-- acpi/src/madt.rs, acpi/src/mcfg.rs: tables.
use acpi_rs.Prelude.{ℕ, ◌+◌, ◌≡◌, ◌⊎◌, refl, true, false, List, [], ◌∷◌, ok, err, some, none, arith}
use acpi_rs.Tests.Bits.{shifts}
use acpi_rs.Acpi.Errors.{AcpiError}
use acpi_rs.Acpi.Mcfg.{McfgEntry, manages, physical_address, physical_address_lem}
use acpi_rs.Acpi.Madt.{
  Allocator, MadtEntry, local_apic, io_apic_entry, local_apic_nmi, Processor, processor, running,
  parse_apic_model_in, parse_interrupt_model_in, apic,
}
use acpi_rs.Acpi.Madt.Filled.{gather, processors_of, boot_of}
use acpi_rs.Acpi.Madt.Model.{
  AllReadable, expected_apic, expected_processors, parse_apic_model_in_lem,
  parse_interrupt_model_in_lem,
}

-- An allocator whose blocks are one element larger than asked for, and one with exact blocks.
abbrev one_more : Allocator
one_more k n = some (n + 1)

abbrev exact : Allocator
exact k n = some n

abbrev one : ℕ → ℕ
one k = 1

-- Two processors, an I/O APIC, and an NMI line for all processors.
abbrev two_processors : List MadtEntry
two_processors =
    local_apic 0 0 1 ∷ local_apic 1 1 1 ∷ io_apic_entry 2 0xfec00000 0 ∷ local_apic_nmi 0xff 1 ∷ []

abbrev boot : Processor
boot = processor 0 0 running false

boot_found : boot_of none (gather processors_of two_processors) ≡ some boot
boot_found = refl

parse_apic_model_in_lem_example :
    (parse_apic_model_in one_more 0xfee00000 true two_processors
      ≡ ok (
        expected_apic one 0xfee00000 true two_processors,
        expected_processors one boot two_processors,
      ))
    ⊎ ((e : AcpiError) × (parse_apic_model_in one_more 0xfee00000 true two_processors ≡ err e)
        × ¬ (AllReadable two_processors))
parse_apic_model_in_lem_example =
    parse_apic_model_in_lem one_more one 0xfee00000 true two_processors boot (λ k h. refl) tt
      boot_found

two_processors-AllReadable : AllReadable two_processors
two_processors-AllReadable = (tt, tt)

parse_interrupt_model_in_lem_example :
    parse_interrupt_model_in one_more 0xfee00000 true two_processors
    ≡ ok (
      apic (expected_apic one 0xfee00000 true two_processors),
      some (expected_processors one boot two_processors),
    )
parse_interrupt_model_in_lem_example =
    parse_interrupt_model_in_lem one_more one 0xfee00000 true two_processors boot (λ k h. refl) tt
      two_processors-AllReadable boot_found

-- The region of a segment, for its first 64 buses.
abbrev config_region : ℕ → McfgEntry
config_region group = record {
  base_address = 0xe0000000;
  pci_segment_group = group;
  bus_number_start = 0;
  bus_number_end = 63;
}

physical_address_lem_example :
    (physical_address (config_region 1 ∷ config_region 0 ∷ []) 0 2 31 7 ≡ some 0xe02ff000)
    × (physical_address (config_region 1 ∷ []) 0 2 31 7 ≡ none)
unfolding manages
physical_address_lem_example =
    physical_address_lem (config_region 1 ∷ []) [] (config_region 1 ∷ []) (config_region 0) 0 2 31 7
      (refl, tt) (refl, tt) refl (omega arith) (omega arith) (omega arith)
