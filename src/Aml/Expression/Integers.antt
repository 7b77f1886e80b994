-- ===== src/Aml/Expression/Integers.antt =====
-- aml/src/expression.rs, `def_to_integer`: how a text is read as an integer, with what it uses of
-- `core`: `trim_start_matches`, `from_str_radix` and `parse`.
use acpi_rs.Prelude.{
  ℕ, ◌+◌, ◌-◌, ◌*◌, ◌^◌, ltb, leb, ◌==◌, Bool, false, ◌&&◌, List, [], ◌∷◌, Option, some, none, ok,
  err, if◌then◌else◌,
}
use acpi_rs.Aml.Types.{AmlType, Result, incompatible_value_conversion}

-- The value of a digit, in lower or upper case, below the radix.
unfoldable pub digit : ℕ → ℕ → Option ℕ
digit radix c =
    let value : ℕ =
      if leb b'0' c && leb c b'9'
      then c - b'0'
      else if leb b'a' c && leb c b'z'
      then c - b'a' + 10
      else if leb b'A' c && leb c b'Z'
      then c - b'A' + 10
      else 36 in
    if ltb value radix then some value else none

unfoldable pub digits : ℕ → ℕ → List ℕ → Option ℕ
unfolding digit
digits radix n [] = some n
digits radix n (c ∷ cs) = elim (digit radix c) [
  | some d ↦ digits radix (n * radix + d) cs
  | none ↦ none
]

-- The digits after a sign, of which there is one at least.
unfoldable pub unsigned : ℕ → List ℕ → Option ℕ
unfolding digits
unsigned radix [] = none
unsigned radix (c ∷ cs) = digits radix 0 (c ∷ cs)

-- `u64::from_str_radix`; `none` is an error.
unfoldable pub from_str_radix : List ℕ → ℕ → Option ℕ
unfolding unsigned
from_str_radix text radix =
    let value : Option ℕ = elim text [
      | [] ↦ none
      | c ∷ cs ↦ if c == b'+' then unsigned radix cs else unsigned radix (c ∷ cs)
    ] in
    elim value [ some n ↦ if ltb n (2 ^ 64) then some n else none | none ↦ none ]

unfoldable pub starts_with_0x : List ℕ → Bool
starts_with_0x (a ∷ b ∷ rest) = a == b'0' && b == b'x'
starts_with_0x _ = false

-- `trim_start_matches("0x")`.
unfoldable pub trim_0x : List ℕ → List ℕ
trim_0x (a ∷ b ∷ rest) =
    let trimmed = trim_0x rest in if a == b'0' && b == b'x' then trimmed else a ∷ b ∷ rest
trim_0x text = text

-- The integer that a text stands for.
unfoldable pub text_integer : List ℕ → Result ℕ
unfolding from_str_radix starts_with_0x trim_0x
text_integer text =
    let value : Option ℕ =
      if starts_with_0x text then from_str_radix (trim_0x text) 16 else from_str_radix text 10 in
    elim value [
      | some n ↦ ok n
      | none ↦ err (incompatible_value_conversion AmlType.string AmlType.integer)
    ]
