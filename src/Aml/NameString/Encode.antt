-- ===== src/Aml/NameString/Encode.antt =====
-- aml/src/name_object.rs: what a compiler of ACPI source writes for a name, and that `name_string` reads it.
use acpi_rs.Prelude.{
  ℕ, zero, suc, ◌+◌, ◌<◌, ◌^◌, ◌==◌, ==_refl, true, false, List, [], ◌∷◌, ◌++◌, map, length,
  replicate, append_assoc, arith, ◌≡◌, ◌≢◌, refl, ap, ◌∙◌,
}
use acpi_rs.Aml.Types.{NameSeg, root, prefix, segment, AmlName}
use acpi_rs.Aml.Segment.{is_lead_name_char, seg_bytes, IsValidSeg}
use acpi_rs.Aml.Parsing
use acpi_rs.Aml.Parsing.{
  ParseResult, parsed, Parser, and_then, or_restore, consume, then_next, n_of, choice, recover,
  take_while, take_while_from,
}
use acpi_rs.Aml.Parsing.Scope.{
  DebugContext, DebugVerbosity, comment_scope, enter_scope, leave-enter,
}
use acpi_rs.Aml.Opcode.{opcode, root_char, prefix_char}
use acpi_rs.Aml.NameString.{
  name_seg, null_name, dual_name_path, multi_name_path, name_path, root_name_string, prefix_path,
  name_string_body, name_string, not_empty,
}

-- A name as AML has it: from the root or up a number of scopes, then segments.
pub data Start : Type 0 where
  from_root : Start
  up : ℕ → Start

abbrev pub components : Start → List NameSeg → AmlName
components from_root ss = root ∷ map segment ss
components (up n) ss = replicate n prefix ++ map segment ss

abbrev pub segs_bytes : List NameSeg → List ℕ
segs_bytes [] = []
segs_bytes (s ∷ ss) = seg_bytes s ++ segs_bytes ss

-- `NamePath`, by the number of its segments.
abbrev pub path_bytes : List NameSeg → List ℕ
path_bytes [] = 0x00 ∷ []
path_bytes (s ∷ []) = seg_bytes s
path_bytes (s ∷ t ∷ []) = 0x2e ∷ seg_bytes s ++ seg_bytes t
path_bytes (s ∷ t ∷ u ∷ ss) = 0x2f ∷ length (s ∷ t ∷ u ∷ ss) ∷ segs_bytes (s ∷ t ∷ u ∷ ss)

-- `NameString`.
abbrev pub name_bytes : Start → List NameSeg → List ℕ
name_bytes from_root ss = root_char ∷ path_bytes ss
name_bytes (up n) ss = replicate n prefix_char ++ path_bytes ss

abbrev pub AllValid : List NameSeg → Type 0
AllValid [] = Unit {0}
AllValid (s ∷ ss) = IsValidSeg s × AllValid ss

module _ {C V : Type 0} where
  name_seg-seg_bytes :
      (s : NameSeg) (rest : List ℕ) (c : C)
      → IsValidSeg s
      → name_seg {V = V} (seg_bytes s ++ rest) c ≡ parsed rest c s
  unfolding name_seg consume and_then
  name_seg-seg_bytes s rest c h = rw h.lead (rw h.name_1 (rw h.name_2 (rw h.name_3 refl)))

  n_of-segs_bytes :
      (ss : List NameSeg) (rest : List ℕ) (c : C)
      → AllValid ss
      → n_of (name_seg {V = V}) (length ss) (segs_bytes ss ++ rest) c ≡ parsed rest c ss
  unfolding n_of or_restore and_then
  n_of-segs_bytes [] rest c h = refl
  n_of-segs_bytes (s ∷ ss) rest c (h, hs) =
      rw (name_seg-seg_bytes s (segs_bytes ss ++ rest) c h) (rw (n_of-segs_bytes ss rest c hs) refl)

-- The lead byte of a segment is none of the bytes that `name_path` and `name_string` look for.
lead-plain :
    (b : ℕ)
    → is_lead_name_char b ≡ true
    → ((b == 0x00) ≡ false)
      × ((b == 0x2e) ≡ false)
      × ((b == 0x2f) ≡ false)
      × ((b == root_char) ≡ false)
      × ((b == prefix_char) ≡ false)
unfolding is_lead_name_char
lead-plain b h = ground arith

module _ {C V : Type 0} where
  name_path-path_bytes :
      (ss : List NameSeg) (rest : List ℕ) (c : C)
      → AllValid ss
      → name_path {V = V} (path_bytes ss ++ rest) c ≡ parsed rest c (map segment ss)
  unfolding name_path choice recover null_name dual_name_path multi_name_path Parsing.map then_next
      opcode and_then Parsing.finish or_restore Parsing.take
  name_path-path_bytes [] rest c h = refl
  name_path-path_bytes (s ∷ []) rest c (h, _) =
      let (no_null, no_dual, no_multi, _, _) = lead-plain s.byte_0 h.lead in
      rw no_null (rw no_dual (rw no_multi (rw (name_seg-seg_bytes s rest c h) refl)))
  name_path-path_bytes (s ∷ t ∷ []) rest c (h, (k, _)) =
      rw (name_seg-seg_bytes s (seg_bytes t ++ rest) c h) (rw (name_seg-seg_bytes t rest c k) refl)
  name_path-path_bytes (s ∷ t ∷ u ∷ ss) rest c h =
      rw (n_of-segs_bytes (s ∷ t ∷ u ∷ ss) rest c h) refl

  take_while_from-replicate :
      (b n fuel k x : ℕ) (rest : List ℕ) (c : C)
      → n < fuel
      → (x == b) ≡ false
      → take_while_from {V = V} (opcode b) fuel k (replicate n b ++ x ∷ rest) c
        ≡ parsed (x ∷ rest) c (k + n)
  unfolding take_while_from recover opcode
  take_while_from-replicate b n zero k x rest c h e = absurd (omega (arith, h))
  take_while_from-replicate b zero (suc fuel) k x rest c h e =
      rw e (ap (λ t. parsed (x ∷ rest) c t) (omega arith))
  take_while_from-replicate b (suc n) (suc fuel) k x rest c h e = rw (==_refl b) (
      take_while_from-replicate b n fuel (k + 1) x rest c (omega (arith, h)) e
      ∙ ap (λ t. parsed (x ∷ rest) c t) (omega arith))

path_bytes-head :
    (ss : List NameSeg)
    → AllValid ss
    → (x : ℕ) × (r : List ℕ) × (path_bytes ss ≡ x ∷ r)
      × ((x == root_char) ≡ false)
      × ((x == prefix_char) ≡ false)
path_bytes-head [] h = (0, [], refl, refl, refl)
path_bytes-head (s ∷ []) (h, _) =
    let (_, _, _, no_root, no_prefix) = lead-plain s.byte_0 h.lead in
    (s.byte_0, s.byte_1 ∷ s.byte_2 ∷ s.byte_3 ∷ [], refl, no_root, no_prefix)
path_bytes-head (s ∷ t ∷ []) h = (0x2e, seg_bytes s ++ seg_bytes t, refl, refl, refl)
path_bytes-head (s ∷ t ∷ u ∷ ss) h = (0x2f, _, refl, refl, refl)

length-run : (n b : ℕ) (xs : List ℕ) → n < length (replicate n b ++ xs) + 1
length-run zero b xs = omega arith
length-run (suc n) b xs = omega (arith, length-run n b xs)

-- A name that can be written: valid segments, at most as many as a byte counts, and some if there
-- is neither root nor prefix.
pub record IsName (start : Start) (ss : List NameSeg) : Type 0 where
  pub valid : AllValid ss
  pub count : length ss < 256
  pub some_segment : start ≡ up 0 → ss ≢ []

module _ {C V : Type 0} where
  take_while-run :
      (n : ℕ) (ss : List NameSeg) (rest : List ℕ) (c : C)
      → AllValid ss
      → take_while {V = V}
          (opcode prefix_char)
          (replicate n prefix_char ++ (path_bytes ss ++ rest))
          c
        ≡ parsed (path_bytes ss ++ rest) c n
  unfolding take_while
  take_while-run n ss rest c h =
      let (x, r, e, _, no_prefix) = path_bytes-head ss h in
      rw e (
        take_while_from-replicate prefix_char n _ 0 x (r ++ rest) c
          (length-run n prefix_char (x ∷ (r ++ rest))) no_prefix
        ∙ ap (λ t. parsed (x ∷ (r ++ rest)) c t) (omega arith))

  prefix_path-bytes :
      (n : ℕ) (ss : List NameSeg) (rest : List ℕ) (c : C)
      → AllValid ss
      → prefix_path {V = V} (replicate n prefix_char ++ (path_bytes ss ++ rest)) c
        ≡ parsed rest c (components (up n) ss)
  unfolding prefix_path Parsing.map then_next and_then Parsing.finish
  prefix_path-bytes n ss rest c h =
      rw (take_while-run n ss rest c h) (rw (name_path-path_bytes ss rest c h) refl)

  name_string_body-plain :
      (bytes : List ℕ) (x : ℕ) (r rest : List ℕ) (c : C)
      → bytes ≡ x ∷ r
      → (x == root_char) ≡ false
      → (x == prefix_char) ≡ false
      → name_string_body {V = V} (bytes ++ rest) c
        ≡ Parsing.map name_path not_empty (bytes ++ rest) c
  unfolding name_string_body
  name_string_body-plain bytes x r rest c e no_root no_prefix =
      rw e (rw no_root (rw no_prefix refl))

  map-not_empty :
      (s : NameSeg) (ss : List NameSeg) (rest : List ℕ) (c : C)
      → AllValid (s ∷ ss)
      → Parsing.map {V = V} name_path not_empty (path_bytes (s ∷ ss) ++ rest) c
        ≡ parsed rest c (segment s ∷ map segment ss)
  unfolding Parsing.map and_then not_empty Parsing.finish
  map-not_empty s ss rest c h = rw (name_path-path_bytes (s ∷ ss) rest c h) (ground arith)

  name_string_body-name_bytes :
      (start : Start) (ss : List NameSeg) (rest : List ℕ) (c : C)
      → IsName start ss
      → name_string_body {V = V} (name_bytes start ss ++ rest) c
        ≡ parsed rest c (components start ss)
  unfolding name_string_body root_name_string Parsing.map then_next and_then Parsing.finish opcode
  name_string_body-name_bytes from_root ss rest c h =
      rw (name_path-path_bytes ss rest c h.valid) refl
  name_string_body-name_bytes (up zero) [] rest c h = absurd (h.some_segment refl refl)
  name_string_body-name_bytes (up zero) (s ∷ ss) rest c h =
      let (x, r, e, no_root, no_prefix) = path_bytes-head (s ∷ ss) h.valid in
      name_string_body-plain (path_bytes (s ∷ ss)) x r rest c e no_root no_prefix
      ∙ map-not_empty s ss rest c h.valid
  name_string_body-name_bytes (up (suc n)) ss rest c h =
      ap (λ t. prefix_path {V = V} t c)
        (append_assoc (replicate (suc n) prefix_char) (path_bytes ss) rest)
      ∙ prefix_path-bytes (suc n) ss rest c h.valid

module _ {C V : Type 0} ⦃d : DebugContext C⦄ where
  -- `name_string` reads back every name that can be written, leaves the bytes after it, and leaves
  -- the context as it was, if its indentation is below 2^64.
  pub name_string-name_bytes :
      (start : Start) (ss : List NameSeg) (rest : List ℕ) (c : C)
      → IsName start ss
      → d.scope_indent c < 2 ^ 64
      → name_string {V = V} (name_bytes start ss ++ rest) c ≡ parsed rest c (components start ss)
  unfolding name_string comment_scope and_then
  name_string-name_bytes start ss rest c h small =
      rw (name_string_body-name_bytes start ss rest (enter_scope DebugVerbosity.all_scopes c) h) (
        ap (λ t. parsed rest t (components start ss))
          (leave-enter DebugVerbosity.all_scopes c small))
