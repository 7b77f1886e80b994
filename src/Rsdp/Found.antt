-- ===== src/Rsdp/Found.antt =====
-- rsdp/src/lib.rs: what `validate` and `search_for_on_bios` promise.
use acpi_rs.Prelude.{
  ℕ, zero, suc, [], ◌∷◌, ◌+◌, ◌-◌, ◌*◌, ◌/◌, ◌%◌, ◌<◌, ◌≤◌, true, false, ok, err, some, none, arith,
  ◌≡◌, ◌↔◌, ◌⊎◌, inl, inr, refl, sym, ap, subst, ◌∙◌, Bool-cases, Option-cases, Outcome-cases,
  lt→ltb, if◌then◌else◌, ltb,
}
use acpi_rs.Bytes.{bytes_eq_iff, from_le_bytes, bytes_at, is_utf8, total, wrapping_sum-total}
use acpi_rs.Rsdp.{
  no_valid_rsdp, Memory, Area, rsdp_signature, signature, oem_id, validate, summed_length, is_rsdp,
  scan, mapped, copy_at, scan_areas, steps, search_for_on_bios, find_search_areas, ebda_area,
  ebda_start_of,
}

-- `validate` accepts exactly the structures with the signature, an OEM id in UTF-8, and bytes that
-- sum to 0 modulo 256: the first 20 in revision 0, as many as `length` says in later ones.
pub validate_ok :
    (self : Memory)
    → (validate self ≡ ok tt) ↔ (
        (signature self ≡ rsdp_signature)
        × (is_utf8 (oem_id self) ≡ true)
        × (total (
                bytes_at self 0
                  (if ltb 0 (self 15) then from_le_bytes (bytes_at self 20 4) else 20))
              % 256
            ≡ 0))
unfolding validate summed_length
validate_ok self = ground (
  arith,
  bytes_eq_iff (signature self) rsdp_signature,
  wrapping_sum-total 0
      (bytes_at self 0 (if ltb 0 (self 15) then from_le_bytes (bytes_at self 20 4) else 20))
      (omega arith),
)

-- An address of an area that the loop looks at: a multiple of 16.
pub record IsCandidate (area : Area) (address : ℕ) : Type 0 where
  pub from : area.start ≤ address
  pub before : address < area.end
  pub aligned : address % 16 ≡ 0

scan-found :
    (memory beyond : Memory) (start n address : ℕ)
    → scan memory beyond start n ≡ some address
    → (k : ℕ) × (k < n)
      × (address ≡ start + 16 * k)
      × (is_rsdp memory beyond address ≡ true)
      × ((j : ℕ) → j < k → is_rsdp memory beyond (start + 16 * j) ≡ false)
unfolding scan
scan-found memory beyond start zero address h = cc
scan-found memory beyond start (suc n) address h = elim (Bool-cases (is_rsdp memory beyond start)) [
  | inl e ↦
      let here : start ≡ address = ground arith in
      (
        zero,
        omega arith,
        omega (arith, here),
        ap (is_rsdp memory beyond) (sym here) ∙ e,
        λ j f. absurd (omega (arith, f)),
      )
  | inr e ↦
      let (k, less, at, hit, earlier) =
        scan-found memory beyond (start + 16) n address (ground arith) in
      (suc k, omega (arith, less), omega (arith, at), hit, λ j f. first e earlier j f)
]
  where
    first :
        {k : ℕ}
        → is_rsdp memory beyond start ≡ false
        → ((j : ℕ) → j < k → is_rsdp memory beyond (start + 16 + 16 * j) ≡ false)
        → (j : ℕ) → j < suc k
        → is_rsdp memory beyond (start + 16 * j) ≡ false
    first e earlier zero f = ap (is_rsdp memory beyond) (omega arith) ∙ e
    first e earlier (suc j) f =
        ap (is_rsdp memory beyond) (omega arith) ∙ earlier j (omega (arith, f))

scan-missing :
    (memory beyond : Memory) (start n : ℕ)
    → scan memory beyond start n ≡ none
    → (j : ℕ) → j < n
    → is_rsdp memory beyond (start + 16 * j) ≡ false
unfolding scan
scan-missing memory beyond start zero h j f = absurd (omega (arith, f))
scan-missing memory beyond start (suc n) h zero f =
    let at : start + 16 * 0 ≡ start = omega arith in
    let miss : is_rsdp memory beyond start ≡ false = ground arith in
    ap (is_rsdp memory beyond) at ∙ miss
scan-missing memory beyond start (suc n) h (suc j) f =
    ap (is_rsdp memory beyond) (omega arith)
    ∙ scan-missing memory beyond (start + 16) n (ground arith) j (omega (arith, f))

-- The index of a candidate among the steps of an area that starts at a multiple of 16.
step_of-IsCandidate :
    (area : Area) (address : ℕ)
    → area.start % 16 ≡ 0
    → IsCandidate area address
    → (k : ℕ) × (k < steps area) × (area.start + 16 * k ≡ address)
step_of-IsCandidate area address even c = (
  (address - area.start) / 16,
  omega (arith, c.from, c.before, c.aligned, even),
  omega (arith, c.from, c.before, c.aligned, even),
)

step-IsCandidate :
    (area : Area) (k : ℕ)
    → area.start % 16 ≡ 0
    → k < steps area
    → IsCandidate area (area.start + 16 * k)
step-IsCandidate area k even h = record {
  from = omega arith;
  before = omega (arith, h);
  aligned = omega (arith, even);
}

-- The bytes of the structure that the loop copies from an address of an area: 36 bytes of the
-- memory, or of `outside` from the end of the area on, and after them what follows the copy.
abbrev pub structure_at : Memory → Memory → Memory → Area → ℕ → Memory
structure_at memory outside beyond area address i =
    if ltb i 36
    then (if ltb (address + i) area.end then memory (address + i) else outside (address + i))
    else beyond i

-- A structure has the signature, an OEM id in UTF-8, and bytes that sum to 0 modulo 256: the first 20
-- in revision 0, as many as `length` says in later ones.
abbrev pub IsRsdp : Memory → Type 0
IsRsdp self =
    (bytes_at self 0 8 ≡ rsdp_signature)
    × (is_utf8 (bytes_at self 9 6) ≡ true)
    × (total (bytes_at self 0 (if ltb 0 (self 15) then from_le_bytes (bytes_at self 20 4) else 20))
          % 256
        ≡ 0)

-- The bytes of the copy are those of the memory.
copy-bytes :
    (memory beyond : Memory) (address start n : ℕ)
    → start + n ≤ 36
    → bytes_at (copy_at memory beyond address) start n ≡ bytes_at memory (address + start) n
unfolding copy_at bytes_at
copy-bytes memory beyond address start zero h = refl
copy-bytes memory beyond address start (suc n) h =
    let next : address + (start + 1) ≡ address + start + 1 = omega arith in
    let rest = copy-bytes memory beyond address (start + 1) n (omega (arith, h)) in
    let copied : (if ltb start 36 then memory (address + start) else beyond start)
        ≡ memory (address + start) =
      rw (lt→ltb start 36 (omega (arith, h))) refl in
    λ i. copied i ∷ (rest ∙ ap (λ a. bytes_at memory a n) next) i

copy-signature :
    (memory beyond : Memory) (address : ℕ)
    → bytes_at (copy_at memory beyond address) 0 8 ≡ bytes_at memory address 8
copy-signature memory beyond address =
    let same : address + 0 ≡ address = omega arith in
    copy-bytes memory beyond address 0 8 (omega arith) ∙ ap (λ a. bytes_at memory a 8) same

is_rsdp-validate :
    (memory beyond : Memory) (address : ℕ)
    → (is_rsdp memory beyond address ≡ true) ↔ (validate (copy_at memory beyond address) ≡ ok tt)
unfolding is_rsdp
is_rsdp-validate memory beyond address =
    let copy = copy_at memory beyond address in
    (
      λ hit. elim (Outcome-cases (validate copy)) [
        | inl (u, e) ↦ e
        | inr (inl (x, e)) ↦ ground (arith, hit, e)
        | inr (inr e) ↦ ground (arith, hit, e)
      ],
      λ valid.
          let same =
            (bytes_eq_iff (bytes_at memory address 8) rsdp_signature).1
              (sym (copy-signature memory beyond address) ∙ ((validate_ok copy).0 valid).0) in
          rw (same, is_rsdp) (rw valid refl),
    )

is_rsdp-IsRsdp :
    (memory outside beyond : Memory) (area : Area) (address : ℕ)
    → (is_rsdp (mapped memory outside area) beyond address ≡ true)
      ↔ IsRsdp (structure_at memory outside beyond area address)
unfolding mapped copy_at
is_rsdp-IsRsdp memory outside beyond area address =
    let accepted = is_rsdp-validate (mapped memory outside area) beyond address in
    let valid = validate_ok (copy_at (mapped memory outside area) beyond address) in
    (λ h. valid.0 (accepted.0 h), λ h. accepted.1 (valid.1 h))

abbrev pub bios_area : Area
bios_area = record { start = 0xe0000; end = 0x100000 }

-- The EBDA by the word at 0x40e, which is its segment: its first 1024 bytes, or, for a segment
-- outside 0x80000..0x9ffff, all of the memory where it may lie.
abbrev pub ebda_of : Memory → Area
ebda_of memory =
    let start = (memory 0x40e + 256 * memory 0x40f) * 16 in
    if ltb start 0x80000
    then record { start = 0x80000; end = 0xa0000 }
    else if ltb start 0x9ffff
    then record { start = start; end = start + 1024 }
    else record { start = 0x80000; end = 0xa0000 }

ebda_area-ebda_of : (memory : Memory) → ebda_area (ebda_start_of memory) ≡ ebda_of memory
unfolding ebda_area from_le_bytes bytes_at
ebda_area-ebda_of memory = ground arith

ebda_of-aligned : (memory : Memory) → (ebda_of memory).start % 16 ≡ 0
ebda_of-aligned memory = ground arith

-- No candidate of the area is a structure.
abbrev pub IsEmptyArea : Memory → Memory → Memory → Area → Type 0
IsEmptyArea memory outside beyond area =
    (x : ℕ) → IsCandidate area x → ¬ (IsRsdp (structure_at memory outside beyond area x))

-- The candidate is the first structure of its area.
pub record IsFirst (memory outside beyond : Memory) (area : Area) (address : ℕ) : Type 0 where
  pub candidate : IsCandidate area address
  pub hit : IsRsdp (structure_at memory outside beyond area address)
  pub earlier :
      (x : ℕ)
      → IsCandidate area x
      → x < address
      → ¬ (IsRsdp (structure_at memory outside beyond area x))

missed :
    (memory outside beyond : Memory) (area : Area) (x : ℕ)
    → is_rsdp (mapped memory outside area) beyond x ≡ false
    → ¬ (IsRsdp (structure_at memory outside beyond area x))
missed memory outside beyond area x miss valid =
    let hit = (is_rsdp-IsRsdp memory outside beyond area x).1 valid in cc

scan-area_found :
    (memory outside beyond : Memory) (area : Area) (address : ℕ)
    → area.start % 16 ≡ 0
    → scan (mapped memory outside area) beyond area.start (steps area) ≡ some address
    → IsFirst memory outside beyond area address
scan-area_found memory outside beyond area address even h =
    let view = mapped memory outside area in
    let (k, less, at, hit, earlier) = scan-found view beyond area.start (steps area) address h in
    record {
      candidate = subst (IsCandidate area) (sym at) (step-IsCandidate area k even less);
      hit = (is_rsdp-IsRsdp memory outside beyond area address).0 hit;
      earlier = λ x c f.
          let (j, less_j, at_j) = step_of-IsCandidate area x even c in
          missed memory outside beyond area x
            (ap (is_rsdp view beyond) (sym at_j) ∙ earlier j (omega (arith, f, at, at_j)));
    }

scan-area_missing :
    (memory outside beyond : Memory) (area : Area)
    → area.start % 16 ≡ 0
    → scan (mapped memory outside area) beyond area.start (steps area) ≡ none
    → IsEmptyArea memory outside beyond area
scan-area_missing memory outside beyond area even h x c =
    let view = mapped memory outside area in
    let (j, less, at) = step_of-IsCandidate area x even c in
    missed memory outside beyond area x (
      ap (is_rsdp view beyond) (sym at) ∙ scan-missing view beyond area.start (steps area) h j less)

find_search_areas_lem :
    (memory : Memory) → find_search_areas memory ≡ bios_area ∷ ebda_of memory ∷ []
unfolding find_search_areas
find_search_areas_lem memory = ap (λ a. bios_area ∷ a ∷ []) (ebda_area-ebda_of memory)

-- The search returns the first structure on a 16-byte boundary of the BIOS area; if that area has
-- none, the first of the EBDA, or of all the memory where it may lie when the word at 0x40e does not
-- give it; and `NoValidRsdp` exactly when neither has one. A structure is the 36 bytes from its
-- address, those past the end of the area being whatever lies after the mapping of the area, with,
-- for a greater `length`, whatever follows the copy of them.
pub search_for_on_bios_lem :
    (memory outside beyond : Memory)
    → let ebda = ebda_of memory in
      let search = search_for_on_bios memory outside beyond in
      ((a : ℕ) × (search ≡ ok a) × IsFirst memory outside beyond bios_area a)
      ⊎ (((a : ℕ) × (search ≡ ok a)
            × IsEmptyArea memory outside beyond bios_area
            × IsFirst memory outside beyond ebda a)
          ⊎ ((search ≡ err no_valid_rsdp)
              × IsEmptyArea memory outside beyond bios_area
              × IsEmptyArea memory outside beyond ebda))
unfolding search_for_on_bios scan_areas
search_for_on_bios_lem memory outside beyond =
    let ebda = ebda_of memory in
    let bios_view = mapped memory outside bios_area in
    rw (find_search_areas_lem memory, search_for_on_bios)
      (elim (Option-cases (scan bios_view beyond bios_area.start (steps bios_area))) [
        | inl e ↦
            let no_bios = scan-area_missing memory outside beyond bios_area (omega arith) e in
            elim (Option-cases (scan (mapped memory outside ebda) beyond ebda.start (steps ebda))) [
              | inl f ↦
                  rw (e, search_for_on_bios)
                    (rw (f, search_for_on_bios)
                      (inr (
                        inr (
                          refl,
                          no_bios,
                          scan-area_missing memory outside beyond ebda (ebda_of-aligned memory) f,
                        ))))
              | inr (a, f) ↦
                  rw (e, search_for_on_bios)
                    (rw (f, search_for_on_bios)
                      (inr (
                        inl (
                          a,
                          refl,
                          no_bios,
                          scan-area_found memory outside beyond ebda a (ebda_of-aligned memory) f,
                        ))))
            ]
        | inr (a, e) ↦
            rw (e, search_for_on_bios)
              (inl (a, refl, scan-area_found memory outside beyond bios_area a (omega arith) e))
      ])
