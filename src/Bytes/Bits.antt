-- ===== src/Bytes/Bits.antt =====
-- Bytes as lists of bits, the least significant bit first, and what the crate `bitvec` promises of its
-- views of bytes in this order.
use native.Mathlib.Nat.{two-pow-succ, div-add-mod, mod-lt, mod-eq_of_lt, add-mul-mod_self_left}
use acpi_rs.Prelude.{
  ℕ, zero, suc, ◌+◌, ◌*◌, ◌/◌, ◌%◌, ◌<◌, ◌==◌, ◌≡◌, refl, ap, ◌∙◌, Bool, true, false, List, [], ◌∷◌,
  ◌++◌, length, length-append, length-take, length-drop, take-append-drop, sym, ◌^◌, take, drop,
  if◌then◌else◌, arith,
}

-- The lowest `n` bits of a number.
abbrev pub bit_list : ℕ → ℕ → List Bool
bit_list zero x = []
bit_list (suc n) x = (x % 2 == 1) ∷ bit_list n (x / 2)

abbrev pub from_bits : List Bool → ℕ
from_bits [] = 0
from_bits (b ∷ bs) = (if b then 1 else 0) + 2 * from_bits bs

unfoldable pub bits_of : List ℕ → List Bool
bits_of [] = []
bits_of (b ∷ bs) = bit_list 8 b ++ bits_of bs

-- `n` bytes of bits, filled up with zeros.
unfoldable pub to_bytes : ℕ → List Bool → List ℕ
to_bytes zero bits = []
to_bytes (suc n) bits = from_bits (take 8 bits) ∷ to_bytes n (drop 8 bits)

-- The views of `[u8]`, `[u8; 8]` and `u64` in the order `Lsb0`: the bits that they show, the bytes and
-- the integer after a write to them, and the bytes of a `BitVec` copied from bits that start at bit 0
-- of their first byte. Where they start at another bit, `copied` may be any bytes.
pub record BitVec : Type 0 where
  pub view_bits : List ℕ → List Bool
  pub viewed_bytes : ℕ → List Bool → List ℕ
  pub viewed_integer : List Bool → ℕ
  pub copied : ℕ → List Bool → List ℕ
  pub view_bits_lem : (bytes : List ℕ) → view_bits bytes ≡ bits_of bytes
  pub viewed_bytes_lem :
      (n : ℕ) (bits : List Bool) → length bits ≡ 8 * n → viewed_bytes n bits ≡ to_bytes n bits
  pub viewed_integer_lem : (bits : List Bool) → viewed_integer bits ≡ from_bits bits
  pub copied_lem : (bits : List Bool) → copied 0 bits ≡ to_bytes ((length bits + 7) / 8) bits

pub length-bit_list : (n x : ℕ) → length (bit_list n x) ≡ n
length-bit_list zero x = refl
length-bit_list (suc n) x = ap suc (length-bit_list n (x / 2))

pub length-bits_of : (bytes : List ℕ) → length (bits_of bytes) ≡ 8 * length bytes
unfolding bits_of
length-bits_of [] = refl
length-bits_of (b ∷ bs) =
    omega (arith, length-append (bit_list 8 b) (bits_of bs), length-bits_of bs)

pub length-to_bytes : (n : ℕ) (bits : List Bool) → length (to_bytes n bits) ≡ n
unfolding to_bytes
length-to_bytes zero bits = refl
length-to_bytes (suc n) bits = ap suc (length-to_bytes n (drop 8 bits))

pub bit_list-from_bits : (bits : List Bool) → bit_list (length bits) (from_bits bits) ≡ bits
bit_list-from_bits [] = refl
bit_list-from_bits (true ∷ bs) =
    let low : (1 + 2 * from_bits bs) % 2 ≡ 1 = omega arith in
    let high : (1 + 2 * from_bits bs) / 2 ≡ from_bits bs = omega arith in
    rw (low, high) (ap (λ t. true ∷ t) (bit_list-from_bits bs))
bit_list-from_bits (false ∷ bs) =
    let low : (0 + 2 * from_bits bs) % 2 ≡ 0 = omega arith in
    let high : (0 + 2 * from_bits bs) / 2 ≡ from_bits bs = omega arith in
    rw (low, high) (ap (λ t. false ∷ t) (bit_list-from_bits bs))

mod_double : (x m : ℕ) → 0 < m → x % (m + m) ≡ x % 2 + 2 * (x / 2 % m)
mod_double x m h =
    let r = x / 2 % m in
    let q = x / 2 / m in
    let whole : m * q + r ≡ x / 2 = div-add-mod (x / 2) m in
    let below : r < m = mod-lt (x / 2) h in
    let small : x % 2 + 2 * r < m + m = omega (arith, below) in
    let parts : x ≡ (x % 2 + 2 * r) + (m + m) * q = grind (arith, whole) in
    ap (λ t. t % (m + m)) parts
    ∙ add-mul-mod_self_left (x % 2 + 2 * r) (m + m) q
    ∙ mod-eq_of_lt small

pub pow_pos : (n : ℕ) → 0 < 2 ^ n
pow_pos zero = omega arith
pow_pos (suc n) = omega (arith, pow_pos n, two-pow-succ n)

pub from_bits-bit_list : (n x : ℕ) → from_bits (bit_list n x) ≡ x % 2 ^ n
from_bits-bit_list zero x = omega arith
from_bits-bit_list (suc n) x =
    rw (two-pow-succ n)
      (rw (mod_double x (2 ^ n) (pow_pos n)) (ground (arith, from_bits-bit_list n (x / 2))))

-- Whole bytes of bits survive being written.
pub bits_of-to_bytes :
    (n : ℕ) (bits : List Bool) → length bits ≡ 8 * n → bits_of (to_bytes n bits) ≡ bits
unfolding bits_of to_bytes
bits_of-to_bytes zero [] h = refl
bits_of-to_bytes zero (b ∷ bs) h = absurd (omega (arith, h))
bits_of-to_bytes (suc n) bits h =
    let len : length (take 8 bits) ≡ 8 = omega (arith, h, length-take 8 bits) in
    let rest : length (drop 8 bits) ≡ 8 * n = omega (arith, h, length-drop 8 bits) in
    ap (λ t. t ++ bits_of (to_bytes n (drop 8 bits)))
      (ap (λ m. bit_list m (from_bits (take 8 bits))) (sym len) ∙ bit_list-from_bits (take 8 bits))
    ∙ (rw (bits_of-to_bytes n (drop 8 bits) rest) (take-append-drop 8 bits))
