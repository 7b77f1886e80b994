-- ===== src/Acpi/Madt/Filled.antt =====
-- acpi/src/madt.rs: `parse_apic_model_in` stays within the slices that it has allocated and fills them,
-- if the table has no X2APIC entries.
use acpi_rs.Prelude.{
  ℕ, suc, ◌-◌, ◌/◌, ◌%◌, ◌==◌, ◌≡◌, refl, sym, ap, ◌∙◌, Bool, true, false, not, List, [], ◌∷◌, ◌++◌,
  map, replicate, length, append-nil, append_assoc, length-append, ok, err, panic, ◌>>=◌, Option,
  some, none, arith, Bool-cases, Outcome-cases, inl, inr, if◌then◌else◌,
}
use mathlib.Core.Option
use acpi_rs.BitField.{BitField}
use acpi_rs.Acpi.Errors.{AcpiError, Acpi}
use acpi_rs.Acpi.Madt.{
  Polarity, same_as_bus, active_high, active_low, TriggerMode, bus_mode, edge, level_mode,
  LocalInterruptLine, lint0, lint1, NmiProcessor, all_processors, processor_uid, disabled,
  waiting_for_sipi, running, MadtEntry, local_apic, io_apic_entry, interrupt_source_override,
  nmi_source_entry, local_apic_nmi, local_apic_address_override, local_x2apic, x2apic_nmi, io_sapic,
  Slice, State, Processor, processor, IoApic, io_apic, InterruptSourceOverride, source_override,
  NmiSource, nmi_source, NmiLine, nmi_line, state_of, parse_line, nmi_processor, put_processor,
  parse_mps_inti_flags, parse_polarity, parse_trigger_mode, step, fill, write_cell, write_next,
  counted, Grant, new_in, is_io_apic, is_override, is_nmi_source, is_local_nmi, is_local_apic,
}

pub new_in-granted :
    {T : Type 0} (grant : Grant) (len size : ℕ)
    → grant len ≡ some size
    → new_in {T = T} grant len ≡ ok (record { cells = replicate size none; next = 0 })
unfolding new_in
new_in-granted grant len size granted = rw (granted, new_in) refl

-- A slice whose first elements are written, with the cells after them.
abbrev pub filled : {T : Type 0} → List T → List (Option T) → Slice T
filled done rest = record { cells = map some done ++ rest; next = length done }

write_cell-filled :
    {T : Type 0} (done : List T) (c : Option T) (rest : List (Option T)) (x : T)
    → write_cell (map some done ++ c ∷ rest) (length done) x
      ≡ ok (map some (done ++ x ∷ []) ++ rest)
unfolding write_cell
write_cell-filled [] c rest x = refl
write_cell-filled (d ∷ ds) c rest x = rw (write_cell-filled ds c rest x) refl

write_next-filled :
    {T : Type 0} (done : List T) (rest : List (Option T)) (x : T)
    → write_next (filled done (none ∷ rest)) x ≡ ok (filled (done ++ x ∷ []) rest)
unfolding write_next
write_next-filled done rest x = rw (write_cell-filled done none rest x) (
    ap (λ n. ok (record { cells = map some (done ++ x ∷ []) ++ rest; next = n }))
      (sym (length-append done (x ∷ []))))

-- What the entries of a kind stand for, in their order.
abbrev pub gather : {T : Type 0} → (MadtEntry → List T) → List MadtEntry → List T
gather f [] = []
gather f (e ∷ es) = f e ++ gather f es

-- The polarity and the trigger mode that flags stand for: bits 0 and 1, and bits 2 and 3.
abbrev pub polarity_for : ℕ → Option Polarity
polarity_for b =
    if b == 0
    then some same_as_bus
    else if b == 1
    then some active_high
    else if b == 3
    then some active_low
    else none

abbrev pub trigger_for : ℕ → Option TriggerMode
trigger_for b =
    if b == 0
    then some bus_mode
    else if b == 1
    then some edge
    else if b == 3
    then some level_mode
    else none

abbrev pub flags_of : ℕ → Option (Polarity × TriggerMode)
flags_of flags = elim (polarity_for (flags % 4)) [
  | some p ↦ Option.map (λ t. (p, t)) (trigger_for (flags / 4 % 4))
  | none ↦ none
]

abbrev pub line_of : ℕ → Option LocalInterruptLine
line_of line = if line == 0 then some lint0 else if line == 1 then some lint1 else none

-- One element where the flags or the line of an entry can be read.
abbrev pub if_read : {A T : Type 0} → (A → T) → Option A → List T
if_read f (some a) = f a ∷ []
if_read f none = []

abbrev pub io_apics_of : MadtEntry → List IoApic
io_apics_of (io_apic_entry id address base) = io_apic id address base ∷ []
io_apics_of _ = []

abbrev pub target_of : ℕ → NmiProcessor
target_of id = if id == 255 then all_processors else processor_uid id

abbrev pub lines_of : MadtEntry → List NmiLine
lines_of (local_apic_nmi id line) = if_read (nmi_line (target_of id)) (line_of line)
lines_of _ = []

-- The ids of a processor, and whether bit 0 of its flags leaves it disabled.
abbrev pub processors_of : MadtEntry → List (ℕ × ℕ × Bool)
processors_of (local_apic uid id flags) = (uid, id, flags % 2 == 0) ∷ []
processors_of _ = []

abbrev pub overrides_of : MadtEntry → List InterruptSourceOverride
overrides_of (interrupt_source_override bus irq gsi flags) =
    if_read (λ (p, t). source_override irq gsi p t) (flags_of flags)
overrides_of _ = []

abbrev pub sources_of : MadtEntry → List NmiSource
sources_of (nmi_source_entry flags gsi) = if_read (λ (p, t). nmi_source gsi p t) (flags_of flags)
sources_of _ = []

-- The last override of the address, if there is one.
abbrev pub address_of : ℕ → List MadtEntry → ℕ
address_of address [] = address
address_of address (local_apic_address_override a ∷ es) = address_of a es
address_of address (e ∷ es) = address_of address es

-- The first processor boots, the others are application processors.
abbrev pub boot_of : Option Processor → List (ℕ × ℕ × Bool) → Option Processor
boot_of (some boot) qs = some boot
boot_of none [] = none
boot_of none ((uid, id, off) ∷ qs) =
    some (processor uid id (if off then disabled else running) false)

abbrev pub as_ap : ℕ × ℕ × Bool → Processor
as_ap (uid, id, off) = processor uid id (if off then disabled else waiting_for_sipi) true

abbrev pub aps_of : Option Processor → List (ℕ × ℕ × Bool) → List Processor
aps_of (some boot) qs = map as_ap qs
aps_of none [] = []
aps_of none (q ∷ qs) = map as_ap qs

abbrev pub IsLegacy : List MadtEntry → Type 0
IsLegacy [] = Unit {0}
IsLegacy (local_x2apic _ _ _ ∷ es) = ⊥
IsLegacy (x2apic_nmi _ _ ∷ es) = ⊥
IsLegacy (e ∷ es) = IsLegacy es

unfoldable pub ap_room : Option Processor → ℕ → ℕ
ap_room none n = n - 1
ap_room (some boot) n = n

-- What the allocator grants beyond the cells asked for.
abbrev pub room : {T : Type 0} → ℕ → ℕ → List (Option T)
room n spare = replicate n none ++ replicate spare none

-- The state before the entries `es`, with room for what is counted in them and, in the slice of the
-- call `k`, for `spare k` more.
unfoldable pub at :
    (ℕ → ℕ)
    → ℕ
    → Option Processor
    → List IoApic
    → List InterruptSourceOverride
    → List NmiSource
    → List NmiLine
    → List Processor
    → List MadtEntry
    → State
unfolding ap_room
at spare address boot ios overrides sources lines aps es = record {
  local_apic_address = address;
  io_apics = filled ios (room (counted is_io_apic es) (spare 0));
  interrupt_source_overrides = filled overrides (room (counted is_override es) (spare 1));
  nmi_sources = filled sources (room (counted is_nmi_source es) (spare 2));
  local_apic_nmi_lines = filled lines (room (counted is_local_nmi es) (spare 3));
  application_processors = filled aps (room (ap_room boot (counted is_local_apic es)) (spare 4));
  boot_processor = boot;
}

-- Success with the expected state, or an error; no panic.
abbrev pub Ends : State → Acpi State → Type 0
Ends expected (ok st) = st ≡ expected
Ends expected (err e) = Unit {0}
Ends expected panic = ⊥

-- A parser of a field of an entry reads what the field stands for.
abbrev pub Reads : {A : Type 0} → Acpi A → Option A → Type 0
Reads (ok a) o = o ≡ some a
Reads (err e) o = o ≡ none
Reads panic o = ⊥

pub parse_line-Reads : (line : ℕ) → Reads (parse_line line) (line_of line)
unfolding parse_line
parse_line-Reads line = elim (Bool-cases (line == 0)) [
  | inl e ↦ rw e refl
  | inr e ↦ rw e (elim (Bool-cases (line == 1)) [ inl f ↦ rw f refl | inr f ↦ rw f refl ])
]

tests-Reads :
    {A : Type 0} (b c d : Bool) (x y z : A) (e : AcpiError)
    → Reads
        (if b then ok x else if c then ok y else if d then ok z else err e)
        (if b then some x else if c then some y else if d then some z else none)
tests-Reads true c d x y z e = refl
tests-Reads false true d x y z e = refl
tests-Reads false false true x y z e = refl
tests-Reads false false false x y z e = refl

both-Reads :
    {A B : Type 0} (r : Acpi A) (s : Acpi B) (o : Option A) (q : Option B)
    → Reads r o
    → Reads s q
    → Reads
        (r >>= λ a. s >>= λ b. ok (a, b))
        (elim o as (λ _. Option (A × B)) [ some a ↦ Option.map (λ b. (a, b)) q | none ↦ none ])
both-Reads (ok a) (ok b) o q h k = rw (h, k) refl
both-Reads (ok a) (err e) o q h k = rw (h, k) refl
both-Reads (ok a) panic o q h k = absurd k
both-Reads (err e) s o q h k = rw h refl
both-Reads panic s o q h k = absurd h

nmi_processor-target : (id : ℕ) → nmi_processor 0xff id ≡ target_of id
unfolding nmi_processor
nmi_processor-target id = refl

put_boot :
    (st : State) (uid id : ℕ) (off : Bool)
    → put_processor st none uid id off
      ≡ ok (record st {
        boot_processor = some (processor uid id (if off then disabled else running) false);
      })
unfolding put_processor state_of
put_boot st uid id true = refl
put_boot st uid id false = refl

put_ap :
    (st : State) (boot : Processor) (uid id : ℕ) (off : Bool)
    → put_processor st (some boot) uid id off ≡ (
        write_next st.application_processors (as_ap (uid, id, off)) >>= λ s.
        ok (record st { application_processors = s }))
unfolding put_processor state_of
put_ap st boot uid id true = refl
put_ap st boot uid id false = refl

module _ ⦃bits : BitField⦄ where
  parse_polarity-Reads : (flags : ℕ) → Reads (parse_polarity flags) (polarity_for (flags % 4))
  unfolding parse_polarity
  parse_polarity-Reads flags =
      let low : bits.get_bits flags 0 2 ≡ flags % 4 =
        bits.get_bits_lem flags 0 2 (omega arith) ∙ omega arith in
      rw low (
        tests-Reads (flags % 4 == 0) (flags % 4 == 1) (flags % 4 == 3) same_as_bus active_high
          active_low _)

  parse_trigger_mode-Reads :
      (flags : ℕ) → Reads (parse_trigger_mode flags) (trigger_for (flags / 4 % 4))
  unfolding parse_trigger_mode
  parse_trigger_mode-Reads flags =
      let high : bits.get_bits flags 2 4 ≡ flags / 4 % 4 =
        bits.get_bits_lem flags 2 4 (omega arith) ∙ omega arith in
      let mode = flags / 4 % 4 in
      rw high (tests-Reads (mode == 0) (mode == 1) (mode == 3) bus_mode edge level_mode _)

  pub parse_mps_inti_flags-Reads : (flags : ℕ) → Reads (parse_mps_inti_flags flags) (flags_of flags)
  unfolding parse_mps_inti_flags
  parse_mps_inti_flags-Reads flags =
      both-Reads (parse_polarity flags) (parse_trigger_mode flags) (polarity_for (flags % 4))
        (trigger_for (flags / 4 % 4)) (parse_polarity-Reads flags) (parse_trigger_mode-Reads flags)

  pub disabled_bit : (flags : ℕ) → not (bits.get_bit flags 0) ≡ (flags % 2 == 0)
  disabled_bit flags = ground (arith, bits.get_bit_lem flags 0)

  -- The state after all entries.
  unfoldable pub after :
      (ℕ → ℕ)
      → ℕ
      → Option Processor
      → List IoApic
      → List InterruptSourceOverride
      → List NmiSource
      → List NmiLine
      → List Processor
      → List MadtEntry
      → State
  unfolding at
  after spare address boot ios overrides sources lines aps es =
      at spare (address_of address es) (boot_of boot (gather processors_of es))
        (ios ++ gather io_apics_of es) (overrides ++ gather overrides_of es)
        (sources ++ gather sources_of es) (lines ++ gather lines_of es)
        (aps ++ aps_of boot (gather processors_of es)) []

  pub fill-after :
      (spare : ℕ → ℕ) (address : ℕ) (boot : Option Processor) (ios : List IoApic)
      (overrides : List InterruptSourceOverride) (sources : List NmiSource) (lines : List NmiLine)
      (aps : List Processor) (es : List MadtEntry)
      → IsLegacy es
      → Ends
          (after spare address boot ios overrides sources lines aps es)
          (fill (at spare address boot ios overrides sources lines aps es) es)
  unfolding fill step at after counted ap_room
  fill-after k a none i o s l p [] h =
      rw (append-nil i, append-nil o, append-nil s, append-nil l, append-nil p) refl
  fill-after k a (some b) i o s l p [] h =
      rw (append-nil i, append-nil o, append-nil s, append-nil l, append-nil p) refl
  fill-after k a b i o s l p (io_apic_entry x y z ∷ es) h =
      rw (write_next-filled i (room (counted is_io_apic es) (k 0)) (io_apic x y z)) (
        rw (sym (append_assoc i (io_apic x y z ∷ []) (gather io_apics_of es)))
          (fill-after k a b (i ++ io_apic x y z ∷ []) o s l p es h))
  fill-after k a b i o s l p (interrupt_source_override x y z w ∷ es) h =
      let reads = parse_mps_inti_flags-Reads w in
      elim (Bool-cases (x == 0)) [
        | inl e ↦ elim (Outcome-cases (parse_mps_inti_flags w)) [
          | inl ((q, t), f) ↦ rw e (
              rw f (
                rw (rw f at reads) (
                  rw
                    (write_next-filled o (room (counted is_override es) (k 1))
                      (source_override y z q t))
                    (rw
                      (sym (append_assoc o (source_override y z q t ∷ []) (gather overrides_of es)))
                      (fill-after k a b i (o ++ source_override y z q t ∷ []) s l p es h)))))
          | inr (inl (x, f)) ↦ rw e (rw f tt)
          | inr (inr f) ↦ absurd (rw f at reads)
        ]
        | inr e ↦ rw e tt
      ]
  fill-after k a b i o s l p (nmi_source_entry x y ∷ es) h =
      let reads = parse_mps_inti_flags-Reads x in
      elim (Outcome-cases (parse_mps_inti_flags x)) [
        | inl ((q, t), f) ↦ rw f (
            rw (rw f at reads) (
              rw (write_next-filled s (room (counted is_nmi_source es) (k 2)) (nmi_source y q t)) (
                rw (sym (append_assoc s (nmi_source y q t ∷ []) (gather sources_of es)))
                  (fill-after k a b i o (s ++ nmi_source y q t ∷ []) l p es h))))
        | inr (inl (x, f)) ↦ rw f tt
        | inr (inr f) ↦ absurd (rw f at reads)
      ]
  fill-after k a b i o s l p (local_apic_nmi x y ∷ es) h =
      let reads = parse_line-Reads y in
      let line = nmi_line (target_of x) in
      elim (Outcome-cases (parse_line y)) [
        | inl (q, f) ↦ rw f (
            rw (rw f at reads) (
              rw (nmi_processor-target x) (
                rw (write_next-filled l (room (counted is_local_nmi es) (k 3)) (line q)) (
                  rw (sym (append_assoc l (line q ∷ []) (gather lines_of es)))
                    (fill-after k a b i o s (l ++ line q ∷ []) p es h)))))
        | inr (inl (e, f)) ↦ rw f tt
        | inr (inr f) ↦ absurd (rw f at reads)
      ]
  fill-after k a b i o s l p (local_apic_address_override x ∷ es) h =
      fill-after k x b i o s l p es h
  fill-after k a none i o s l p (local_apic x y z ∷ es) h =
      let boot = some (processor x y (if z % 2 == 0 then disabled else running) false) in
      let left : suc (counted is_local_apic es) - 1 ≡ counted is_local_apic es = omega arith in
      rw (disabled_bit z)
        (rw (put_boot _ x y (z % 2 == 0)) (rw left (fill-after k a boot i o s l p es h)))
  fill-after k a (some b) i o s l p (local_apic x y z ∷ es) h =
      let ap = as_ap (x, y, z % 2 == 0) in
      rw (disabled_bit z) (
        rw (put_ap _ b x y (z % 2 == 0)) (
          rw (write_next-filled p (room (counted is_local_apic es) (k 4)) ap) (
            rw (sym (append_assoc p (ap ∷ []) (map as_ap (gather processors_of es))))
              (fill-after k a (some b) i o s l (p ++ ap ∷ []) es h))))
  fill-after k a b i o s l p (local_x2apic _ _ _ ∷ es) h = elim h [ ]
  fill-after k a b i o s l p (x2apic_nmi _ _ ∷ es) h = elim h [ ]
  fill-after k a b i o s l p (io_sapic ∷ es) h = tt
  fill-after k a b i o s l p (_ ∷ es) h = tt
