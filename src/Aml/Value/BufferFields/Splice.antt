-- ===== src/Aml/Value/BufferFields/Splice.antt =====
-- aml/src/value.rs: what a write to a buffer field does to the bits of the buffer.
use acpi_rs.Prelude.{
  ℕ, zero, suc, ◌+◌, ◌-◌, ◌*◌, ◌/◌, ◌%◌, ◌^◌, ◌≤◌, ◌<◌, min, leb, ◌==◌, ◌≡◌, ◌⊎◌, inl, inr, refl,
  sym, ap, ◌∙◌, Bool, true, false, ◌&&◌, List, [], ◌∷◌, ◌++◌, append_assoc, length, length-append,
  length-take, length-drop, take, drop, take-append-drop, take-append_eq, drop-append_eq,
  take-drop-append, drop-append_beyond, replicate, ok, if◌then◌else◌, arith,
}
use acpi_rs.Bytes.{le_bytes}
use acpi_rs.Bytes.Bits.{bit_list, from_bits, bits_of}
use acpi_rs.Aml.Value.BufferFields.{overwrite, copy_extended}

-- Bits with some of them replaced.
abbrev pub splice : List Bool → ℕ → List Bool → List Bool
splice bits lo source = take lo bits ++ (source ++ drop (lo + length source) bits)

module _ (bits : List Bool) (lo : ℕ) (source : List Bool)
    (fits : lo + length source ≤ length bits) where
  length-front : length (take lo bits) ≡ lo
  length-front = omega (arith, fits, length-take lo bits)

  pub length-splice : length (splice bits lo source) ≡ length bits
  length-splice = omega (
    arith,
    fits,
    length-front,
    length-append (take lo bits) (source ++ drop (lo + length source) bits),
    length-append source (drop (lo + length source) bits),
    length-drop (lo + length source) bits,
  )

  -- What was put in is found in its place.
  pub splice-here : take (length source) (drop lo (splice bits lo source)) ≡ source
  splice-here =
      ap (take (length source))
        (drop-append_eq lo (take lo bits) (source ++ drop (lo + length source) bits) length-front)
      ∙ take-append_eq (length source) source (drop (lo + length source) bits) refl

  -- What lies before it or behind it stays.
  pub splice-elsewhere :
      (at n : ℕ)
      → (at + n ≤ lo) ⊎ (lo + length source ≤ at)
      → take n (drop at (splice bits lo source)) ≡ take n (drop at bits)
  splice-elsewhere at n (inl before) =
      let inside : at + n ≤ length (take lo bits) = omega (arith, before, length-front) in
      take-drop-append at n (take lo bits) (source ++ drop (lo + length source) bits) inside
      ∙ sym (take-drop-append at n (take lo bits) (drop lo bits) inside)
      ∙ ap (λ t. take n (drop at t)) (take-append-drop lo bits)
  splice-elsewhere at n (inr behind) =
      let hi = lo + length source in
      let front : length (take lo bits ++ source) ≡ hi =
        omega (arith, length-front, length-append (take lo bits) source) in
      let whole : length (take hi bits) ≡ hi = omega (arith, fits, length-take hi bits) in
      ap (take n) (
        ap (drop at) (sym (append_assoc (take lo bits) source (drop hi bits)))
        ∙ drop-append_beyond at (take lo bits ++ source) (drop hi bits)
            (omega (arith, behind, front))
        ∙ ap (λ m. drop (at - m) (drop hi bits)) (front ∙ sym whole)
        ∙ sym (drop-append_beyond at (take hi bits) (drop hi bits) (omega (arith, behind, whole)))
        ∙ ap (drop at) (take-append-drop hi bits))

-- The lowest bits of a number, and its bytes.
pub take-bit_list : (n m x : ℕ) → n ≤ m → take n (bit_list m x) ≡ bit_list n x
take-bit_list zero m x h = refl
take-bit_list (suc n) zero x h = absurd (omega (arith, h))
take-bit_list (suc n) (suc m) x h =
    ap (λ t. (x % 2 == 1) ∷ t) (take-bit_list n m (x / 2) (omega (arith, h)))

bit_list-bytes :
    (m x : ℕ)
    → bit_list 8 (x % 256) ++ bit_list m (x / 256)
      ≡ bit_list (suc (suc (suc (suc (suc (suc (suc (suc (m))))))))) x
bit_list-bytes m x =
    let e0 : x % 256 % 2 ≡ x % 2 = omega arith in
    let e1 : x % 256 / 2 % 2 ≡ x / 2 % 2 = omega arith in
    let e2 : x % 256 / 2 / 2 % 2 ≡ x / 2 / 2 % 2 = omega arith in
    let e3 : x % 256 / 2 / 2 / 2 % 2 ≡ x / 2 / 2 / 2 % 2 = omega arith in
    let e4 : x % 256 / 2 / 2 / 2 / 2 % 2 ≡ x / 2 / 2 / 2 / 2 % 2 = omega arith in
    let e5 : x % 256 / 2 / 2 / 2 / 2 / 2 % 2 ≡ x / 2 / 2 / 2 / 2 / 2 % 2 = omega arith in
    let e6 : x % 256 / 2 / 2 / 2 / 2 / 2 / 2 % 2 ≡ x / 2 / 2 / 2 / 2 / 2 / 2 % 2 = omega arith in
    let e7 : x % 256 / 2 / 2 / 2 / 2 / 2 / 2 / 2 % 2 ≡ x / 2 / 2 / 2 / 2 / 2 / 2 / 2 % 2 =
      omega arith in
    let top : x / 256 ≡ x / 2 / 2 / 2 / 2 / 2 / 2 / 2 / 2 = omega arith in
    rw (e0, e1, e2, e3) (rw (e4, e5, e6, e7) (rw top refl))

abbrev pub eight_times : ℕ → ℕ
eight_times zero = 0
eight_times (suc n) = suc (suc (suc (suc (suc (suc (suc (suc (eight_times n))))))))

-- The bits of the bytes of an integer.
pub bits_of-le_bytes : (n x : ℕ) → bits_of (le_bytes n x) ≡ bit_list (eight_times n) x
unfolding bits_of
bits_of-le_bytes zero x = refl
bits_of-le_bytes (suc n) x =
    ap (λ t. bit_list 8 (x % 256) ++ t) (bits_of-le_bytes n (x / 256))
    ∙ bit_list-bytes (eight_times n) x

pub from_bits-zeros :
    (bits : List Bool) (n : ℕ) → from_bits (bits ++ replicate n false) ≡ from_bits bits
from_bits-zeros [] zero = refl
from_bits-zeros [] (suc n) = omega (arith, from_bits-zeros [] n)
from_bits-zeros (b ∷ bs) n = ap (λ t. (if b then 1 else 0) + 2 * t) (from_bits-zeros bs n)

overwrite-fits :
    (bits : List Bool) (lo hi : ℕ) (source : List Bool)
    → hi ≡ lo + length source
    → hi ≤ length bits
    → overwrite bits lo hi source ≡ ok (splice bits lo source)
unfolding overwrite
overwrite-fits bits lo hi source e h =
    let test : (leb lo hi && leb hi (length bits)) ≡ true = ground (arith, e, h) in
    rw test (ap (λ m. ok (take lo bits ++ (source ++ drop m bits))) e)

-- A source that is as long as the field is copied whole.
pub copy_extended-fits :
    (bits : List Bool) (offset len : ℕ) (source : List Bool)
    → len ≤ length source
    → offset + len ≤ length bits
    → length bits < 2 ^ 64
    → copy_extended bits offset len source ≡ ok (splice bits offset (take len source))
unfolding copy_extended
copy_extended-fits bits offset len source enough inside small =
    let all_of : min len (length source) ≡ len = omega (arith, enough) in
    let last : (offset + len) % 2 ^ 64 ≡ offset + len = omega (arith, inside, small) in
    let copied : length (take len source) ≡ len = omega (arith, enough, length-take len source) in
    let none_left : len - len ≡ 0 = omega arith in
    let written = splice bits offset (take len source) in
    let same : length written ≡ length bits =
      length-splice bits offset (take len source) (omega (arith, copied, inside)) in
    rw (all_of, last)
      (rw
        (overwrite-fits bits offset (offset + len) (take len source) (omega (arith, copied)) inside)
        (rw none_left (
          overwrite-fits written (offset + len) (offset + len) [] (omega arith)
            (omega (arith, same, inside))
          ∙ ap ok (unchanged (offset + len) written))))
  where
    unchanged : (n : ℕ) (xs : List Bool) → splice xs n [] ≡ xs
    unchanged n xs = ap (λ m. take n xs ++ drop m xs) (omega arith) ∙ take-append-drop n xs
