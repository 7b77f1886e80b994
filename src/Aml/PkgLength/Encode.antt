-- ===== src/Aml/PkgLength/Encode.antt =====
-- aml/src/pkg_length.rs: the four encodings of a length, which `raw_pkg_length` reads back, and the
-- objects that `take_to_end_of_pkglength` (aml/src/parser.rs) cuts out by them.
use acpi_rs.Prelude.{
  ℕ, suc, ◌+◌, ◌-◌, ◌/◌, ◌%◌, ◌^◌, ◌<◌, ◌≤◌, ltb, List, [], ◌∷◌, ◌++◌, length, length-append,
  take-append_length, drop-append_length, arith, ◌≡◌, refl, sym, ap, ◌∙◌, ok, some, false,
}
use acpi_rs.BitField.{BitField}
use acpi_rs.Aml.Parsing
use acpi_rs.Aml.Parsing.{
  ParseResult, parsed, Parser, PkgLength, and_then, take_n, take_to_end_of_pkglength, checked_sub,
  feed,
}
use acpi_rs.Aml.PkgLength.{raw_pkg_length, pkg_length, read_bytes, add_bytes, from_raw_length}

-- How many bytes follow the lead byte.
pub data Width : Type 0 where
  w0 w1 w2 w3 : Width

-- One more than the largest length of a width.
abbrev pub limit : Width → ℕ
limit w0 = 2 ^ 6
limit w1 = 2 ^ 12
limit w2 = 2 ^ 20
limit w3 = 2 ^ 28

abbrev pub pkg_bytes : Width → ℕ → List ℕ
pkg_bytes w0 n = n ∷ []
pkg_bytes w1 n = (64 + n % 16) ∷ (n / 2 ^ 4) ∷ []
pkg_bytes w2 n = (128 + n % 16) ∷ (n / 2 ^ 4 % 256) ∷ (n / 2 ^ 12) ∷ []
pkg_bytes w3 n = (192 + n % 16) ∷ (n / 2 ^ 4 % 256) ∷ (n / 2 ^ 12 % 256) ∷ (n / 2 ^ 20) ∷ []

checked_sub-fits : (a b : ℕ) → b ≤ a → checked_sub a b ≡ some (a - b)
unfolding checked_sub
checked_sub-fits a b h = ground arith

from_raw_length-fits :
    (stream : List ℕ) (raw : ℕ)
    → length stream < 2 ^ 32
    → raw ≤ length stream
    → from_raw_length stream raw
      ≡ ok (record { raw_length = raw; end_offset = length stream - raw })
unfolding from_raw_length
from_raw_length-fits stream raw small le =
    let same : length stream % 2 ^ 32 ≡ length stream = omega (arith, small) in
    rw (same, from_raw_length) (rw (checked_sub-fits (length stream) raw le, from_raw_length) refl)

pub length-pkg_bytes : (w : Width) (n : ℕ) → length (pkg_bytes w n) ≡ length (pkg_bytes w 0)
length-pkg_bytes w0 n = refl
length-pkg_bytes w1 n = refl
length-pkg_bytes w2 n = refl
length-pkg_bytes w3 n = refl

module _ {C V : Type 0} ⦃bits : BitField⦄ where
  take_n-append :
      (bytes rest : List ℕ) (c : C)
      → length (bytes ++ rest) < 2 ^ 32
      → take_n {V = V} (length bytes) (bytes ++ rest) c ≡ parsed rest c bytes
  unfolding take_n
  take_n-append bytes rest c small =
      rw
        (test-lem (length (bytes ++ rest)) (length bytes) small
          (omega (arith, length-append bytes rest)))
        (rw (take-append_length bytes rest) (rw (drop-append_length bytes rest) refl))
    where
      test-lem : (m n : ℕ) → m < 2 ^ 32 → n ≤ m → ltb (m % 2 ^ 32) n ≡ false
      test-lem m n h k = ground arith

  raw_pkg_length-more :
      (lead k : ℕ) (bytes rest : List ℕ) (c : C)
      → bits.get_bits lead 6 8 ≡ suc k
      → length bytes ≡ suc k
      → length (bytes ++ rest) < 2 ^ 32
      → raw_pkg_length {V = V} (lead ∷ (bytes ++ rest)) c
        ≡ parsed rest c (add_bytes 0 (bits.get_bits lead 0 4) bytes)
  unfolding raw_pkg_length Parsing.take and_then read_bytes
  raw_pkg_length-more lead k bytes rest c count len small = rw count (
      rw
        (ap (λ t. take_n {C = C} {V = V} t (bytes ++ rest) c) (sym len)
          ∙ take_n-append bytes rest c small)
        (ground arith))

  -- `raw_pkg_length` reads back each of the four encodings of a length within its limit, and leaves
  -- what follows, for streams below 2^32 bytes.
  pub raw_pkg_length-pkg_bytes :
      (w : Width) (n : ℕ) (rest : List ℕ) (c : C)
      → n < limit w
      → length (pkg_bytes w n ++ rest) < 2 ^ 32
      → raw_pkg_length {V = V} (pkg_bytes w n ++ rest) c ≡ parsed rest c n
  unfolding raw_pkg_length Parsing.take and_then add_bytes
  raw_pkg_length-pkg_bytes w0 n rest c h small =
      let count : bits.get_bits n 6 8 ≡ 0 =
        bits.get_bits_lem n 6 8 (omega arith) ∙ (omega (arith, h)) in
      let value : bits.get_bits n 0 6 ≡ n =
        bits.get_bits_lem n 0 6 (omega arith) ∙ (omega (arith, h)) in
      rw count (rw value refl)
  raw_pkg_length-pkg_bytes w1 n rest c h small =
      let lead = 64 + n % 16 in
      let bytes : List ℕ = (n / 2 ^ 4) ∷ [] in
      let count : bits.get_bits lead 6 8 ≡ 1 =
        bits.get_bits_lem lead 6 8 (omega arith) ∙ (omega arith) in
      let low : bits.get_bits lead 0 4 ≡ n % 16 =
        bits.get_bits_lem lead 0 4 (omega arith) ∙ (omega arith) in
      raw_pkg_length-more lead 0 bytes rest c count refl (omega (arith, small))
      ∙ (rw low (ap (λ t. parsed rest c t) (omega (arith, h))))
  raw_pkg_length-pkg_bytes w2 n rest c h small =
      let lead = 128 + n % 16 in
      let bytes : List ℕ = (n / 2 ^ 4 % 256) ∷ (n / 2 ^ 12) ∷ [] in
      let count : bits.get_bits lead 6 8 ≡ 2 =
        bits.get_bits_lem lead 6 8 (omega arith) ∙ (omega arith) in
      let low : bits.get_bits lead 0 4 ≡ n % 16 =
        bits.get_bits_lem lead 0 4 (omega arith) ∙ (omega arith) in
      raw_pkg_length-more lead 1 bytes rest c count refl (omega (arith, small))
      ∙ (rw low (ap (λ t. parsed rest c t) (omega (arith, h))))
  raw_pkg_length-pkg_bytes w3 n rest c h small =
      let lead = 192 + n % 16 in
      let bytes : List ℕ = (n / 2 ^ 4 % 256) ∷ (n / 2 ^ 12 % 256) ∷ (n / 2 ^ 20) ∷ [] in
      let count : bits.get_bits lead 6 8 ≡ 3 =
        bits.get_bits_lem lead 6 8 (omega arith) ∙ (omega arith) in
      let low : bits.get_bits lead 0 4 ≡ n % 16 =
        bits.get_bits_lem lead 0 4 (omega arith) ∙ (omega arith) in
      raw_pkg_length-more lead 2 bytes rest c count refl (omega (arith, small))
      ∙ (rw low (ap (λ t. parsed rest c t) (omega (arith, h))))

  pub take_to_end-append :
      (body rest : List ℕ) (raw : ℕ) (c : C)
      → length (body ++ rest) < 2 ^ 32
      → take_to_end_of_pkglength {V = V}
          (record { raw_length = raw; end_offset = length rest })
          (body ++ rest)
          c
        ≡ parsed rest c body
  unfolding take_to_end_of_pkglength
  take_to_end-append body rest raw c small =
      let same : length (body ++ rest) % 2 ^ 32 ≡ length body + length rest =
        omega (arith, small, length-append body rest) in
      let off : length body + length rest - length rest ≡ length body = omega arith in
      rw (same, take_to_end_of_pkglength)
        (rw
          (
            checked_sub-fits (length body + length rest) (length rest) (omega arith),
            take_to_end_of_pkglength,
          )
          (rw off (take_n-append body rest c small)))

  -- An object's length, and the body behind it.
  pub pkg_length-pkg_bytes :
      (w : Width) (body rest : List ℕ) (c : C)
      → let raw = length (pkg_bytes w 0) + length body in
        raw < limit w
        → length (pkg_bytes w raw ++ (body ++ rest)) < 2 ^ 32
        → pkg_length {V = V} (pkg_bytes w raw ++ (body ++ rest)) c
          ≡ parsed (body ++ rest) c (record { raw_length = raw; end_offset = length rest })
  unfolding pkg_length and_then
  pkg_length-pkg_bytes w body rest c h small =
      let raw = length (pkg_bytes w 0) + length body in
      let stream = pkg_bytes w raw ++ (body ++ rest) in
      let total : length stream ≡ raw + length rest = omega (
        arith,
        length-append (pkg_bytes w raw) (body ++ rest),
        length-append body rest,
        length-pkg_bytes w raw,
      ) in
      let off : length stream - raw ≡ length rest = omega (arith, total) in
      rw (raw_pkg_length-pkg_bytes w raw (body ++ rest) c h small)
        (rw (from_raw_length-fits stream raw small (omega (arith, total)), and_then) (rw off refl))

  -- An object that is written with the length of itself and its body is cut out exactly: parsing
  -- the length and taking the rest of the object gives the body, and leaves what follows it, for
  -- lengths within the limit of their width and streams below 2^32 bytes.
  pub take_to_end_of_pkglength-pkg_bytes :
      (w : Width) (body rest : List ℕ) (c : C)
      → let raw = length (pkg_bytes w 0) + length body in
        raw < limit w
        → length (pkg_bytes w raw ++ (body ++ rest)) < 2 ^ 32
        → feed {V = V} pkg_length take_to_end_of_pkglength (pkg_bytes w raw ++ (body ++ rest)) c
          ≡ parsed rest c body
  unfolding feed and_then
  take_to_end_of_pkglength-pkg_bytes w body rest c h small =
      let raw = length (pkg_bytes w 0) + length body in
      rw (pkg_length-pkg_bytes w body rest c h small) (
        take_to_end-append body rest raw c
          (omega (arith, small, length-append (pkg_bytes w raw) (body ++ rest))))
