-- ===== src/Aml/Segment.antt =====
-- aml/src/name_object.rs: the characters of a `NameSeg`, and `NameSeg::from_str`. A `&str` is the
-- list of its bytes.
use acpi_rs.Prelude.{
  ℕ, ◌≡◌, Bool, true, false, not, ◌&&◌, ◌||◌, List, [], ◌∷◌, length, get_or, drop, ltb, leb, ◌==◌,
  if◌then◌else◌, ok, err, arith,
}
use acpi_rs.Aml.Types.{NameSeg, seg, Result, invalid_name_seg}

unfoldable pub is_lead_name_char : ℕ → Bool
is_lead_name_char byte = leb b'A' byte && leb byte b'Z' || byte == b'_'

unfoldable pub is_digit_char : ℕ → Bool
is_digit_char byte = leb b'0' byte && leb byte b'9'

unfoldable pub is_name_char : ℕ → Bool
unfolding is_lead_name_char is_digit_char
is_name_char byte = is_lead_name_char byte || is_digit_char byte

abbrev pub all_name_chars : List ℕ → Bool
all_name_chars [] = true
all_name_chars (b ∷ bs) = is_name_char b && all_name_chars bs

-- `NameSeg::from_str`: the array starts as four underscores and receives the bytes of the text.
unfoldable pub seg_from_str : List ℕ → Result NameSeg
unfolding is_name_char
seg_from_str bytes =
    if ltb (length bytes) 1 || ltb 4 (length bytes)
    then err invalid_name_seg
    else if not (is_lead_name_char (get_or bytes 0 0))
    then err invalid_name_seg
    else if not (all_name_chars (drop 1 bytes))
    then err invalid_name_seg
    else ok (
        seg (get_or bytes 0 b'_') (get_or bytes 1 b'_') (get_or bytes 2 b'_') (get_or bytes 3 b'_'))

-- `NameSeg::as_str`.
abbrev pub seg_bytes : NameSeg → List ℕ
seg_bytes s = s.byte_0 ∷ s.byte_1 ∷ s.byte_2 ∷ s.byte_3 ∷ []

-- What `as_str` relies on: every byte is a name character, the first one a lead character.
pub record IsValidSeg (s : NameSeg) : Type 0 where
  pub lead : is_lead_name_char s.byte_0 ≡ true
  pub name_1 : is_name_char s.byte_1 ≡ true
  pub name_2 : is_name_char s.byte_2 ≡ true
  pub name_3 : is_name_char s.byte_3 ≡ true

pub name_char_ne_dot : (b : ℕ) → is_name_char b ≡ true → (b == b'.') ≡ false
unfolding is_name_char
name_char_ne_dot b h = ground arith

pub lead_name_char_plain :
    (b : ℕ)
    → is_lead_name_char b ≡ true
    → ((b == b'.') ≡ false) × ((b == b'^') ≡ false) × ((b == 92) ≡ false)
unfolding is_lead_name_char
lead_name_char_plain b h = ground arith

pub seg_from_str-seg_bytes : (s : NameSeg) → IsValidSeg s → seg_from_str (seg_bytes s) ≡ ok s
unfolding seg_from_str
seg_from_str-seg_bytes s h = rw (h.lead, h.name_1, h.name_2, h.name_3)

-- Every segment that `from_str` returns is valid.
pub seg_from_str-IsValidSeg :
    (bytes : List ℕ) (s : NameSeg) → seg_from_str bytes ≡ ok s → IsValidSeg s
unfolding seg_from_str
seg_from_str-IsValidSeg [] s h = cc
seg_from_str-IsValidSeg (a ∷ []) s h = ground arith
seg_from_str-IsValidSeg (a ∷ b ∷ []) s h = ground arith
seg_from_str-IsValidSeg (a ∷ b ∷ c ∷ []) s h = ground arith
seg_from_str-IsValidSeg (a ∷ b ∷ c ∷ d ∷ []) s h = ground arith
seg_from_str-IsValidSeg (a ∷ b ∷ c ∷ d ∷ e ∷ bs) s h = ground arith
