-- ===== src/Bytes.antt =====
-- What the sources use of `core` on bytes: `from_le_bytes`, `==` on arrays, `slice::from_raw_parts` on the bytes from
-- an address, `u8::wrapping_add` in a fold, and `str::from_utf8(..).is_ok()`.
pub mod Slices
pub mod Bits
use acpi_rs.Prelude.{
  ◌↔◌, refl, ℕ, zero, suc, ◌+◌, ◌*◌, ◌/◌, ◌%◌, ◌<◌, ltb, leb, ◌==◌, Bool, true, false, ◌&&◌, List,
  [], ◌∷◌, ◌≡◌, ◌∙◌, if◌then◌else◌, Option, some, none, arith,
}

-- The value of little-endian bytes.
unfoldable pub from_le_bytes : List ℕ → ℕ
from_le_bytes [] = 0
from_le_bytes (b ∷ bs) = b + 256 * from_le_bytes bs

-- An integer in `n` bytes, the least significant one first.
abbrev pub le_bytes : ℕ → ℕ → List ℕ
le_bytes zero x = []
le_bytes (suc n) x = (x % 256) ∷ le_bytes n (x / 256)

-- `x` is below `256 ^ n`.
abbrev pub Fits : ℕ → ℕ → Type 0
Fits zero x = x ≡ 0
Fits (suc n) x = Fits n (x / 256)

pub from_le_bytes-le_bytes : (n x : ℕ) → Fits n x → from_le_bytes (le_bytes n x) ≡ x
unfolding from_le_bytes
from_le_bytes-le_bytes zero x h = omega (arith, h)
from_le_bytes-le_bytes (suc n) x h = omega (arith, from_le_bytes-le_bytes n (x / 256) h)

-- The `n` bytes of a memory from an address on.
unfoldable pub bytes_at : (ℕ → ℕ) → ℕ → ℕ → List ℕ
bytes_at memory address zero = []
bytes_at memory address (suc n) = memory address ∷ bytes_at memory (address + 1) n

-- The fold with `wrapping_add` over bytes.
unfoldable pub wrapping_sum : ℕ → List ℕ → ℕ
wrapping_sum sum [] = sum
wrapping_sum sum (b ∷ bs) = wrapping_sum ((sum + b) % 256) bs

unfoldable pub total : List ℕ → ℕ
total [] = 0
total (b ∷ bs) = b + total bs

-- A fold of wrapping additions is the sum modulo 256.
pub wrapping_sum-total :
    (sum : ℕ) (bs : List ℕ) → sum < 256 → wrapping_sum sum bs ≡ (sum + total bs) % 256
unfolding wrapping_sum total
wrapping_sum-total sum [] h = omega (arith, h)
wrapping_sum-total sum (b ∷ bs) h =
    wrapping_sum-total ((sum + b) % 256) bs (omega arith) ∙ (omega arith)

-- How many continuation bytes follow a first byte of UTF-8, and the bounds of the first of them.
unfoldable pub lead_state : ℕ → Option (ℕ × ℕ × ℕ)
lead_state b =
    if ltb b 0x80
    then some (0, 0x80, 0xbf)
    else if ltb b 0xc2
    then none
    else if ltb b 0xe0
    then some (1, 0x80, 0xbf)
    else if b == 0xe0
    then some (2, 0xa0, 0xbf)
    else if b == 0xed
    then some (2, 0x80, 0x9f)
    else if ltb b 0xf0
    then some (2, 0x80, 0xbf)
    else if b == 0xf0
    then some (3, 0x90, 0xbf)
    else if ltb b 0xf4
    then some (3, 0x80, 0xbf)
    else if b == 0xf4
    then some (3, 0x80, 0x8f)
    else none

unfoldable pub utf8_from : ℕ → ℕ → ℕ → List ℕ → Bool
unfolding lead_state
utf8_from zero low high [] = true
utf8_from (suc need) low high [] = false
utf8_from zero low high (b ∷ bs) = elim (lead_state b) [
  | some (need, low', high') ↦ utf8_from need low' high' bs
  | none ↦ false
]
utf8_from (suc need) low high (b ∷ bs) = leb low b && leb b high && utf8_from need 0x80 0xbf bs

unfoldable pub is_utf8 : List ℕ → Bool
is_utf8 bytes = utf8_from 0 0x80 0xbf bytes

-- Equality of byte arrays.
unfoldable pub bytes_eq : List ℕ → List ℕ → Bool
bytes_eq [] [] = true
bytes_eq (a ∷ as') (b ∷ bs) = a == b && bytes_eq as' bs
bytes_eq _ _ = false

pub bytes_eq_iff : (xs ys : List ℕ) → (bytes_eq xs ys ≡ true) ↔ (xs ≡ ys)
unfolding bytes_eq
bytes_eq_iff [] [] = (λ h. refl, λ h. refl)
bytes_eq_iff [] (y ∷ ys) = (λ h. cc, λ h. cc)
bytes_eq_iff (x ∷ xs) [] = (λ h. cc, λ h. cc)
bytes_eq_iff (x ∷ xs) (y ∷ ys) = ground (arith, bytes_eq_iff xs ys)
