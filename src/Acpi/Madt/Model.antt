-- ===== src/Acpi/Madt/Model.antt =====
-- acpi/src/madt.rs: what `parse_apic_model_in` returns for a table without X2APIC entries.
use acpi_rs.Prelude.{
  ℕ, zero, suc, ◌+◌, ◌-◌, ◌<◌, ◌++◌, replicate, get_or, arith, ◌≡◌, refl, ap, subst, ◌∙◌, Bool, not,
  List, [], ◌∷◌, map, ok, err, panic, ◌>>=◌, Option, some, none, inl, inr, ◌⊎◌, Outcome-cases,
}
use acpi_rs.BitField.{BitField}
use acpi_rs.Acpi.Errors.{AcpiError, Acpi}
use acpi_rs.Acpi.Madt.{
  MadtEntry, local_apic, io_apic_entry, interrupt_source_override, nmi_source_entry, local_apic_nmi,
  local_apic_address_override, local_x2apic, x2apic_nmi, io_sapic, Slice, State, Processor, Apic,
  ProcessorInfo, parse_line, parse_mps_inti_flags, write_cell, write_next, put_processor, step,
  fill, IoApic, InterruptSourceOverride, NmiSource, NmiLine, Grant, Allocator, new_in, apic_model,
  parse_apic_model_in, parse_interrupt_model_in, choose_model, apic, counted, is_io_apic,
  is_override, is_nmi_source, is_local_nmi, is_local_apic,
}
use acpi_rs.Acpi.Madt.Filled.{
  room, new_in-granted, IsLegacy, Ends, at, after, fill-after, gather, io_apics_of, overrides_of,
  sources_of, lines_of, processors_of, address_of, boot_of, aps_of, ap_room, flags_of, line_of,
  Reads, parse_line-Reads, parse_mps_inti_flags-Reads,
}

abbrev pub NotErr : {A : Type 0} → Acpi A → Type 0
NotErr (ok a) = Unit {0}
NotErr (err e) = ⊥
NotErr panic = Unit {0}

abbrev pub IsReadable : {A : Type 0} → Option A → Type 0
IsReadable (some a) = Unit {0}
IsReadable none = ⊥

Reads-NotErr : {A : Type 0} (r : Acpi A) (o : Option A) → Reads r o → IsReadable o → NotErr r
Reads-NotErr (ok a) o h k = tt
Reads-NotErr (err e) o h k = rw h at k
Reads-NotErr panic o h k = tt

-- Every entry belongs to the APIC model and has a bus, flags and a line that can be read.
abbrev pub AllReadable : List MadtEntry → Type 0
AllReadable [] = Unit {0}
AllReadable (interrupt_source_override bus irq gsi flags ∷ es) =
    (bus ≡ 0) × IsReadable (flags_of flags) × AllReadable es
AllReadable (nmi_source_entry flags gsi ∷ es) = IsReadable (flags_of flags) × AllReadable es
AllReadable (local_apic_nmi id line ∷ es) = IsReadable (line_of line) × AllReadable es
AllReadable (x2apic_nmi uid line ∷ es) = IsReadable (line_of line) × AllReadable es
AllReadable (local_apic uid id flags ∷ es) = AllReadable es
AllReadable (local_x2apic uid id flags ∷ es) = AllReadable es
AllReadable (io_apic_entry id address base ∷ es) = AllReadable es
AllReadable (local_apic_address_override address ∷ es) = AllReadable es
AllReadable (_ ∷ es) = ⊥

bind-NotErr :
    {A B : Type 0} (r : Acpi A) (f : A → Acpi B)
    → NotErr r
    → ((a : A) → NotErr (f a))
    → NotErr (r >>= f)
bind-NotErr (ok a) f h k = k a
bind-NotErr (err e) f h k = h
bind-NotErr panic f h k = tt

write_cell-NotErr : {T : Type 0} (cs : List (Option T)) (i : ℕ) (x : T) → NotErr (write_cell cs i x)
unfolding write_cell
write_cell-NotErr [] i x = tt
write_cell-NotErr (c ∷ cs) zero x = tt
write_cell-NotErr (c ∷ cs) (suc i) x =
    bind-NotErr (write_cell cs i x) _ (write_cell-NotErr cs i x) (λ cs'. tt)

write_next-NotErr : {T : Type 0} (s : Slice T) (x : T) → NotErr (write_next s x)
unfolding write_next
write_next-NotErr s x =
    bind-NotErr (write_cell s.cells s.next x) _ (write_cell-NotErr s.cells s.next x) (λ cs'. tt)

written-NotErr :
    {T : Type 0} (s : Slice T) (x : T) (f : Slice T → State)
    → NotErr (write_next s x >>= λ s'. ok (f s'))
written-NotErr s x f = bind-NotErr (write_next s x) _ (write_next-NotErr s x) (λ s'. tt)

put_processor-NotErr :
    (st : State) (boot : Option Processor) (uid id : ℕ) (off : Bool)
    → NotErr (put_processor st boot uid id off)
unfolding put_processor
put_processor-NotErr st none uid id off = tt
put_processor-NotErr st (some boot) uid id off = written-NotErr st.application_processors _ _

line-NotErr : (line : ℕ) → IsReadable (line_of line) → NotErr (parse_line line)
line-NotErr line = Reads-NotErr (parse_line line) (line_of line) (parse_line-Reads line)

replicate_add :
    {T : Type 0} (m n : ℕ) (x : T) → replicate (m + n) x ≡ replicate m x ++ replicate n x
replicate_add zero n x = ap (λ k. replicate k x) (omega arith)
replicate_add (suc m) n x =
    let more : suc m + n ≡ suc (m + n) = omega arith in
    ap (λ k. replicate k x) more ∙ ap (λ xs. x ∷ xs) (replicate_add m n x)

new_in-room :
    {T : Type 0} (grant : Grant) (len spare : ℕ)
    → grant len ≡ some (len + spare)
    → new_in {T = T} grant len ≡ ok (record { cells = room len spare; next = 0 })
new_in-room grant len spare granted =
    new_in-granted grant len (len + spare) granted
    ∙ ap (λ cs. ok (record { cells = cs; next = 0 })) (replicate_add len spare none)

module _ ⦃bits : BitField⦄ where
  flags-NotErr : (flags : ℕ) → IsReadable (flags_of flags) → NotErr (parse_mps_inti_flags flags)
  flags-NotErr flags =
      Reads-NotErr (parse_mps_inti_flags flags) (flags_of flags) (parse_mps_inti_flags-Reads flags)

  fill-NotErr : (st : State) (es : List MadtEntry) → AllReadable es → NotErr (fill st es)
  unfolding fill step
  fill-NotErr st [] h = tt
  fill-NotErr st (local_apic x y z ∷ es) h =
      bind-NotErr (put_processor st st.boot_processor x y (not (bits.get_bit z 0))) _
        (put_processor-NotErr st st.boot_processor x y (not (bits.get_bit z 0)))
        (λ a. fill-NotErr a es h)
  fill-NotErr st (local_x2apic x y z ∷ es) h =
      bind-NotErr (put_processor st st.boot_processor x y (not (bits.get_bit z 0))) _
        (put_processor-NotErr st st.boot_processor x y (not (bits.get_bit z 0)))
        (λ a. fill-NotErr a es h)
  fill-NotErr st (io_apic_entry x y z ∷ es) h =
      bind-NotErr (write_next st.io_apics _ >>= _) _ (written-NotErr st.io_apics _ _)
        (λ a. fill-NotErr a es h)
  fill-NotErr st (interrupt_source_override x y z w ∷ es) (zero_bus, readable, h) = rw zero_bus (
      bind-NotErr (parse_mps_inti_flags w >>= _) _
        (bind-NotErr (parse_mps_inti_flags w) _ (flags-NotErr w readable)
          (λ a. written-NotErr st.interrupt_source_overrides _ _))
        (λ a. fill-NotErr a es h))
  fill-NotErr st (nmi_source_entry x y ∷ es) (readable, h) =
      bind-NotErr (parse_mps_inti_flags x >>= _) _
        (bind-NotErr (parse_mps_inti_flags x) _ (flags-NotErr x readable)
          (λ a. written-NotErr st.nmi_sources _ _))
        (λ a. fill-NotErr a es h)
  fill-NotErr st (local_apic_nmi x y ∷ es) (readable, h) =
      bind-NotErr (parse_line y >>= _) _
        (bind-NotErr (parse_line y) _ (line-NotErr y readable)
          (λ a. written-NotErr st.local_apic_nmi_lines _ _))
        (λ a. fill-NotErr a es h)
  fill-NotErr st (x2apic_nmi x y ∷ es) (readable, h) =
      bind-NotErr (parse_line y >>= _) _
        (bind-NotErr (parse_line y) _ (line-NotErr y readable)
          (λ a. written-NotErr st.local_apic_nmi_lines _ _))
        (λ a. fill-NotErr a es h)
  fill-NotErr st (local_apic_address_override x ∷ es) h = fill-NotErr _ es h
  fill-NotErr st (io_sapic ∷ es) h = absurd h
  fill-NotErr st (_ ∷ es) h = absurd h

  -- What the entries stand for: the elements of every slice in the order of the entries, and after
  -- them the cells that the allocator grants beyond those asked for, which are not written.
  abbrev pub expected_apic : (ℕ → ℕ) → ℕ → Bool → List MadtEntry → Apic
  expected_apic spare address legacy es = record {
    address = address_of address es;
    io_apics = map some (gather io_apics_of es) ++ replicate (spare 0) none;
    nmi_lines = map some (gather lines_of es) ++ replicate (spare 3) none;
    overrides = map some (gather overrides_of es) ++ replicate (spare 1) none;
    nmi_sources = map some (gather sources_of es) ++ replicate (spare 2) none;
    also_has_legacy_pics = legacy;
  }

  abbrev pub expected_processors : (ℕ → ℕ) → Processor → List MadtEntry → ProcessorInfo
  expected_processors spare boot es = record {
    boot_processor = boot;
    application_processors =
        map some (aps_of none (gather processors_of es)) ++ replicate (spare 4) none;
  }

  -- The lengths that the calls of the allocator ask for, in their order.
  abbrev pub lengths_of : List MadtEntry → List ℕ
  lengths_of es =
      counted is_io_apic es
      ∷ counted is_override es
      ∷ counted is_nmi_source es
      ∷ counted is_local_nmi es
      ∷ (counted is_local_apic es - 1)
      ∷ []

  -- Every call is granted, the call `k` with `spare k` elements beyond the length asked for.
  abbrev pub IsGenerous : Allocator → (ℕ → ℕ) → List MadtEntry → Type 0
  IsGenerous allocator spare es =
      (k : ℕ) → let n = get_or (lengths_of es) k 0 in k < 5 → allocator k n ≡ some (n + spare k)

  parse-fill :
      (allocator : Allocator) (spare : ℕ → ℕ) (address : ℕ) (legacy : Bool) (es : List MadtEntry)
      → IsGenerous allocator spare es
      → parse_apic_model_in allocator address legacy es
        ≡ (fill (at spare address none [] [] [] [] [] es) es >>= apic_model legacy)
  unfolding parse_apic_model_in at ap_room
  parse-fill allocator spare address legacy es granted =
      rw
        (new_in-room {T = IoApic} (allocator 0) (counted is_io_apic es) (spare 0)
          (granted 0 (omega arith)))
        (rw
          (new_in-room {T = InterruptSourceOverride} (allocator 1) (counted is_override es)
            (spare 1) (granted 1 (omega arith)))
          (rw
            (new_in-room {T = NmiSource} (allocator 2) (counted is_nmi_source es) (spare 2)
              (granted 2 (omega arith)))
            (rw
              (new_in-room {T = NmiLine} (allocator 3) (counted is_local_nmi es) (spare 3)
                (granted 3 (omega arith)))
              (rw
                (new_in-room {T = Processor} (allocator 4) (counted is_local_apic es - 1) (spare 4)
                  (granted 4 (omega arith)))
                refl))))

  no_room : (boot : Option Processor) → ap_room boot 0 ≡ 0
  unfolding ap_room
  no_room none = refl
  no_room (some boot) = refl

  model-after :
      (spare : ℕ → ℕ) (address : ℕ) (legacy : Bool) (es : List MadtEntry) (boot : Processor)
      → boot_of none (gather processors_of es) ≡ some boot
      → apic_model legacy (after spare address none [] [] [] [] [] es)
        ≡ ok (expected_apic spare address legacy es, expected_processors spare boot es)
  unfolding apic_model after at counted
  model-after spare address legacy es boot first =
      rw (first, apic_model) (rw (no_room (boot_of none (gather processors_of es)), after) refl)

  -- For a table with a processor and without X2APIC entries, and an allocator that grants for each
  -- slice a block of at least the length asked for, `parse_apic_model_in` does not panic: it returns
  -- what the entries stand for, in each slice followed by the unwritten cells beyond the length asked
  -- for, with the first processor as the one that boots; or it fails and some entry cannot be read.
  pub parse_apic_model_in_lem :
      (allocator : Allocator) (spare : ℕ → ℕ) (address : ℕ) (legacy : Bool) (es : List MadtEntry)
      (boot : Processor)
      → IsGenerous allocator spare es
      → IsLegacy es
      → boot_of none (gather processors_of es) ≡ some boot
      → (parse_apic_model_in allocator address legacy es
          ≡ ok (expected_apic spare address legacy es, expected_processors spare boot es))
        ⊎ ((e : AcpiError) × (parse_apic_model_in allocator address legacy es ≡ err e)
            × ¬ (AllReadable es))
  parse_apic_model_in_lem allocator spare address legacy es boot granted h first =
      let start = at spare address none [] [] [] [] [] es in
      let model = parse-fill allocator spare address legacy es granted in
      let ends = fill-after spare address none [] [] [] [] [] es h in
      let expected = after spare address none [] [] [] [] [] es in
      elim (Outcome-cases (fill start es)) [
        | inl (st, e) ↦
            let same : st ≡ expected = subst (Ends expected) e ends in
            inl (
              model
              ∙ ap (λ r. r >>= apic_model legacy) (e ∙ ap ok same)
              ∙ model-after spare address legacy es boot first)
        | inr (inl (x, e)) ↦ inr (
          x,
          model ∙ ap (λ r. r >>= apic_model legacy) e,
          λ readable. subst NotErr e (fill-NotErr start es readable),
        )
        | inr (inr e) ↦ absurd (subst (Ends expected) e ends)
      ]

  choose_model-AllReadable :
      (parsed : Acpi (Apic × ProcessorInfo)) (es : List MadtEntry) {boot : Processor}
      → AllReadable es
      → boot_of none (gather processors_of es) ≡ some boot
      → choose_model parsed es
        ≡ (parsed >>= λ (model, processors). ok (apic model, some processors))
  unfolding choose_model
  choose_model-AllReadable parsed [] h f = cc
  choose_model-AllReadable parsed (local_apic x y z ∷ es) h f = refl
  choose_model-AllReadable parsed (local_x2apic x y z ∷ es) h f = refl
  choose_model-AllReadable parsed (io_apic_entry x y z ∷ es) h f = refl
  choose_model-AllReadable parsed (local_apic_address_override x ∷ es) h f = refl
  choose_model-AllReadable parsed (interrupt_source_override x y z w ∷ es) h f = refl
  choose_model-AllReadable parsed (nmi_source_entry x y ∷ es) h f = refl
  choose_model-AllReadable parsed (local_apic_nmi x y ∷ es) h f = refl
  choose_model-AllReadable parsed (x2apic_nmi x y ∷ es) h f = refl
  choose_model-AllReadable parsed (_ ∷ es) h f = absurd h

  -- For a table with a processor and without X2APIC entries, all of whose entries can be read, and an
  -- allocator that grants for each slice a block of at least the length asked for,
  -- `parse_interrupt_model_in` succeeds with the APIC model and the processors that the entries stand
  -- for, in each slice followed by the unwritten cells beyond the length asked for.
  pub parse_interrupt_model_in_lem :
      (allocator : Allocator) (spare : ℕ → ℕ) (address : ℕ) (legacy : Bool) (es : List MadtEntry)
      (boot : Processor)
      → IsGenerous allocator spare es
      → IsLegacy es
      → AllReadable es
      → boot_of none (gather processors_of es) ≡ some boot
      → parse_interrupt_model_in allocator address legacy es
        ≡ ok
            (apic (expected_apic spare address legacy es), some (expected_processors spare boot es))
  unfolding parse_interrupt_model_in
  parse_interrupt_model_in_lem allocator spare address legacy es boot granted h readable first =
      choose_model-AllReadable (parse_apic_model_in allocator address legacy es) es readable first
      ∙ elim (parse_apic_model_in_lem allocator spare address legacy es boot granted h first) [
        | inl e ↦ rw e refl
        | inr (x, e, unreadable) ↦ absurd (unreadable readable)
      ]
