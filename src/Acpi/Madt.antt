-- ===== src/Acpi/Madt.antt =====
-- acpi/src/madt.rs, with acpi/src/platform/interrupt.rs, acpi/src/platform/mod.rs and
-- acpi/src/managed_slice.rs: how the entries of the MADT become an interrupt model. An entry is its
-- fields that are read. An allocator is asked for room for a number of elements, which it may refuse;
-- the block that it grants may have room for more.
pub mod Filled
pub mod Model
pub mod X2Apic
use acpi_rs.Prelude.{
  ℕ, zero, suc, ◌+◌, ◌-◌, ◌==◌, Bool, true, false, not, List, [], ◌∷◌, ◌++◌, replicate, length,
  Outcome, ok, err, panic, ◌>>=◌, if◌then◌else◌, Option, some, none,
}
use acpi_rs.BitField.{BitField}
use acpi_rs.Acpi.Errors.{
  Acpi, invalid_madt, alloc_error, unexpected_entry, interrupt_override_entry_has_invalid_bus,
  invalid_local_nmi_line, mps_inti_invalid_polarity, mps_inti_invalid_trigger_mode,
}

pub data Polarity : Type 0 where
  same_as_bus active_high active_low : Polarity

pub data TriggerMode : Type 0 where
  bus_mode edge level_mode : TriggerMode

pub data LocalInterruptLine : Type 0 where
  lint0 lint1 : LocalInterruptLine

pub data NmiProcessor : Type 0 where
  all_processors : NmiProcessor
  processor_uid : ℕ → NmiProcessor

pub data ProcessorState : Type 0 where
  disabled waiting_for_sipi running : ProcessorState

pub data Processor : Type 0 where
  -- uid, id of the local APIC, state, whether it is an application processor
  processor : ℕ → ℕ → ProcessorState → Bool → Processor

pub data IoApic : Type 0 where
  -- id, address, base of its interrupts
  io_apic : ℕ → ℕ → ℕ → IoApic

pub data InterruptSourceOverride : Type 0 where
  -- ISA source, global system interrupt
  source_override : ℕ → ℕ → Polarity → TriggerMode → InterruptSourceOverride

pub data NmiSource : Type 0 where
  nmi_source : ℕ → Polarity → TriggerMode → NmiSource

pub data NmiLine : Type 0 where
  nmi_line : NmiProcessor → LocalInterruptLine → NmiLine

-- `MadtEntry`, with the fields that are read.
pub data MadtEntry : Type 0 where
  -- processor id, APIC id, flags
  local_apic : ℕ → ℕ → ℕ → MadtEntry
  -- id, address, base
  io_apic_entry : ℕ → ℕ → ℕ → MadtEntry
  -- bus, irq, global system interrupt, flags
  interrupt_source_override : ℕ → ℕ → ℕ → ℕ → MadtEntry
  -- flags, global system interrupt
  nmi_source_entry : ℕ → ℕ → MadtEntry
  -- processor id, line
  local_apic_nmi : ℕ → ℕ → MadtEntry
  local_apic_address_override : ℕ → MadtEntry
  -- processor uid, X2APIC id, flags
  local_x2apic : ℕ → ℕ → ℕ → MadtEntry
  -- processor uid, line
  x2apic_nmi : ℕ → ℕ → MadtEntry
  io_sapic local_sapic platform_interrupt_source gicc gicd gic_msi_frame : MadtEntry
  gic_redistributor gic_interrupt_translation_service multiprocessor_wakeup : MadtEntry

-- A `ManagedSlice` with the index of the next element to write; `none` is not yet written.
pub record Slice (T : Type 0) : Type 0 where
  pub cells : List (Option T)
  pub next : ℕ

-- `allocator.allocate` of one call: for the number of elements asked for, the number that the granted
-- block has room for, or nothing where the allocator refuses.
abbrev pub Grant : Type 0
Grant = ℕ → Option ℕ

-- An allocator that may answer each of its calls in another way: by the number of the call.
abbrev pub Allocator : Type 0
Allocator = ℕ → Grant

-- `ManagedSlice::new_in`: the slice is the whole block.
unfoldable pub new_in : {T : Type 0} → Grant → ℕ → Acpi (Slice T)
new_in grant len = elim (grant len) [
  | some size ↦ ok (record { cells = replicate size none; next = 0 })
  | none ↦ err alloc_error
]

-- `slice[i] = x`, which panics out of bounds.
unfoldable pub write_cell : {T : Type 0} → List (Option T) → ℕ → T → Acpi (List (Option T))
write_cell [] i x = panic
write_cell (c ∷ cs) zero x = ok (some x ∷ cs)
write_cell (c ∷ cs) (suc i) x = write_cell cs i x >>= λ cs'. ok (c ∷ cs')

unfoldable pub write_next : {T : Type 0} → Slice T → T → Acpi (Slice T)
write_next s x =
    write_cell s.cells s.next x >>= λ cells'. ok (record { cells = cells'; next = s.next + 1 })

-- The variables of `parse_apic_model_in`.
pub record State : Type 0 where
  pub local_apic_address : ℕ
  pub io_apics : Slice IoApic
  pub interrupt_source_overrides : Slice InterruptSourceOverride
  pub nmi_sources : Slice NmiSource
  pub local_apic_nmi_lines : Slice NmiLine
  pub application_processors : Slice Processor
  pub boot_processor : Option Processor

unfoldable pub state_of : Bool → Bool → ProcessorState
state_of is_ap true = disabled
state_of true false = waiting_for_sipi
state_of false false = running

-- The `line` of an `NmiLine`.
unfoldable pub parse_line : ℕ → Acpi LocalInterruptLine
parse_line line =
    if line == 0
    then ok lint0
    else if line == 1
    then ok lint1
    else err (invalid_madt invalid_local_nmi_line)

-- The `processor` of an `NmiLine`, where `every` stands for all of them.
unfoldable pub nmi_processor : ℕ → ℕ → NmiProcessor
nmi_processor every id = if id == every then all_processors else processor_uid id

unfoldable pub put_processor : State → Option Processor → ℕ → ℕ → Bool → Acpi State
put_processor st none uid id is_disabled =
    ok (record st { boot_processor = some (processor uid id (state_of false is_disabled) false) })
put_processor st (some boot) uid id is_disabled =
    write_next st.application_processors (processor uid id (state_of true is_disabled) true)
    >>= λ s. ok (record st { application_processors = s })

module _ ⦃bits : BitField⦄ where
  unfoldable pub parse_polarity : ℕ → Acpi Polarity
  parse_polarity flags =
      let b = bits.get_bits flags 0 2 in
      if b == 0
      then ok same_as_bus
      else if b == 1
      then ok active_high
      else if b == 3
      then ok active_low
      else err (invalid_madt mps_inti_invalid_polarity)

  unfoldable pub parse_trigger_mode : ℕ → Acpi TriggerMode
  parse_trigger_mode flags =
      let b = bits.get_bits flags 2 4 in
      if b == 0
      then ok bus_mode
      else if b == 1
      then ok edge
      else if b == 3
      then ok level_mode
      else err (invalid_madt mps_inti_invalid_trigger_mode)

  unfoldable pub parse_mps_inti_flags : ℕ → Acpi (Polarity × TriggerMode)
  parse_mps_inti_flags flags = do p ← parse_polarity flags; t ← parse_trigger_mode flags; ok (p, t)

  -- One round of the second loop.
  unfoldable pub step : State → MadtEntry → Acpi State
  step st (local_apic uid id flags) =
      put_processor st st.boot_processor uid id (not (bits.get_bit flags 0))
  step st (local_x2apic uid id flags) =
      put_processor st st.boot_processor uid id (not (bits.get_bit flags 0))
  step st (io_apic_entry id address base) =
      write_next st.io_apics (io_apic id address base) >>= λ s. ok (record st { io_apics = s })
  step st (interrupt_source_override bus irq gsi flags) =
      if not (bus == 0)
      then err (invalid_madt interrupt_override_entry_has_invalid_bus)
      else parse_mps_inti_flags flags >>= λ (p, t).
          write_next st.interrupt_source_overrides (source_override irq gsi p t) >>= λ s.
          ok (record st { interrupt_source_overrides = s })
  step st (nmi_source_entry flags gsi) = parse_mps_inti_flags flags >>= λ (p, t).
      write_next st.nmi_sources (nmi_source gsi p t) >>= λ s. ok (record st { nmi_sources = s })
  step st (local_apic_nmi id line) = parse_line line >>= λ l.
      write_next st.local_apic_nmi_lines (nmi_line (nmi_processor 0xff id) l) >>= λ s.
      ok (record st { local_apic_nmi_lines = s })
  step st (x2apic_nmi uid line) = parse_line line >>= λ l.
      write_next st.local_apic_nmi_lines (nmi_line (nmi_processor 0xffffffff uid) l) >>= λ s.
      ok (record st { local_apic_nmi_lines = s })
  step st (local_apic_address_override address) = ok (record st { local_apic_address = address })
  step st _ = err (invalid_madt unexpected_entry)

  unfoldable pub fill : State → List MadtEntry → Acpi State
  fill st [] = ok st
  fill st (e ∷ es) = step st e >>= λ st'. fill st' es

-- The counts of the first loop.
unfoldable pub counted : (MadtEntry → Bool) → List MadtEntry → ℕ
counted test [] = 0
counted test (e ∷ es) = if test e then suc (counted test es) else counted test es

abbrev pub is_io_apic : MadtEntry → Bool
is_io_apic (io_apic_entry _ _ _) = true
is_io_apic _ = false

abbrev pub is_override : MadtEntry → Bool
is_override (interrupt_source_override _ _ _ _) = true
is_override _ = false

abbrev pub is_nmi_source : MadtEntry → Bool
is_nmi_source (nmi_source_entry _ _) = true
is_nmi_source _ = false

abbrev pub is_local_nmi : MadtEntry → Bool
is_local_nmi (local_apic_nmi _ _) = true
is_local_nmi _ = false

abbrev pub is_local_apic : MadtEntry → Bool
is_local_apic (local_apic _ _ _) = true
is_local_apic _ = false

-- `Apic`.
pub record Apic : Type 0 where
  pub address : ℕ
  pub io_apics : List (Option IoApic)
  pub nmi_lines : List (Option NmiLine)
  pub overrides : List (Option InterruptSourceOverride)
  pub nmi_sources : List (Option NmiSource)
  pub also_has_legacy_pics : Bool

-- `ProcessorInfo`.
pub record ProcessorInfo : Type 0 where
  pub boot_processor : Processor
  pub application_processors : List (Option Processor)

-- The end of `parse_apic_model_in`: `boot_processor.unwrap()` panics without a processor.
unfoldable pub apic_model : Bool → State → Acpi (Apic × ProcessorInfo)
apic_model legacy st = elim st.boot_processor [
  | none ↦ panic
  | some boot ↦ ok (
    record {
      address = st.local_apic_address;
      io_apics = st.io_apics.cells;
      nmi_lines = st.local_apic_nmi_lines.cells;
      overrides = st.interrupt_source_overrides.cells;
      nmi_sources = st.nmi_sources.cells;
      also_has_legacy_pics = legacy;
    },
    record { boot_processor = boot; application_processors = st.application_processors.cells },
  )
]

-- `Madt::parse_apic_model_in` of a table with this address, its answer to `supports_8259`, and its
-- entries.
unfoldable pub parse_apic_model_in :
    ⦃bits : BitField⦄ → Allocator → ℕ → Bool → List MadtEntry → Acpi (Apic × ProcessorInfo)
parse_apic_model_in allocator address legacy es = do
  ios ← new_in (allocator 0) (counted is_io_apic es)
  overrides ← new_in (allocator 1) (counted is_override es)
  sources ← new_in (allocator 2) (counted is_nmi_source es)
  lines ← new_in (allocator 3) (counted is_local_nmi es)
  aps ← new_in (allocator 4) (counted is_local_apic es - 1)
  st ←
      fill
        (record {
          local_apic_address = address;
          io_apics = ios;
          interrupt_source_overrides = overrides;
          nmi_sources = sources;
          local_apic_nmi_lines = lines;
          application_processors = aps;
          boot_processor = none;
        })
        es
  apic_model legacy st

-- `InterruptModel`.
pub data InterruptModel : Type 0 where
  unknown : InterruptModel
  apic : Apic → InterruptModel

-- What the first entry that names a model says of it.
pub data Kind : Type 0 where
  apic_kind unimplemented_kind undecided : Kind

abbrev pub kind_of : MadtEntry → Kind
kind_of io_sapic = unimplemented_kind
kind_of local_sapic = unimplemented_kind
kind_of platform_interrupt_source = unimplemented_kind
kind_of gicc = unimplemented_kind
kind_of gicd = unimplemented_kind
kind_of gic_msi_frame = unimplemented_kind
kind_of gic_redistributor = unimplemented_kind
kind_of gic_interrupt_translation_service = unimplemented_kind
kind_of multiprocessor_wakeup = undecided
kind_of _ = apic_kind

-- The loop of `parse_interrupt_model_in`, where `parsed` is what `parse_apic_model_in` returns.
unfoldable pub choose_model :
    Acpi (Apic × ProcessorInfo) → List MadtEntry → Acpi (InterruptModel × Option ProcessorInfo)
choose_model parsed [] = ok (unknown, none)
choose_model parsed (e ∷ es) = elim (kind_of e) [
  | apic_kind ↦ parsed >>= λ (model, processors). ok (apic model, some processors)
  | unimplemented_kind ↦ panic
  | undecided ↦ choose_model parsed es
]

-- `Madt::parse_interrupt_model_in`.
unfoldable pub parse_interrupt_model_in :
    ⦃bits : BitField⦄
    → Allocator
    → ℕ
    → Bool
    → List MadtEntry
    → Acpi (InterruptModel × Option ProcessorInfo)
parse_interrupt_model_in allocator address legacy es =
    choose_model (parse_apic_model_in allocator address legacy es) es
