-- ===== src/Aml/PkgLength.antt =====
-- aml/src/pkg_length.rs: the length in front of an object, which tells where the object ends.
pub mod Encode
use acpi_rs.Prelude.{
  ℕ, suc, ◌+◌, ◌*◌, ◌%◌, ◌^◌, ◌==◌, ltb, Bool, List, [], ◌∷◌, length, if◌then◌else◌, Option, some,
  none, Outcome, ok, err, panic,
}
use acpi_rs.BitField.{BitField}
use acpi_rs.Aml.Types.{AmlError, Result, unexpected_end_of_stream, invalid_pkg_length}
use acpi_rs.Aml.Parsing
use acpi_rs.Aml.Parsing.{
  ParseResult, parsed, failed, panicked, looping, failure, Parser, PkgLength, and_then, checked_sub,
  take_n,
}

-- `PkgLength::from_raw_length`.
unfoldable pub from_raw_length : List ℕ → ℕ → Result PkgLength
from_raw_length stream raw = elim (checked_sub (length stream % 2 ^ 32) raw) [
  | some offset ↦ ok (record { raw_length = raw; end_offset = offset })
  | none ↦ err invalid_pkg_length
]

-- `PkgLength::still_parsing`.
unfoldable pub still_parsing : PkgLength → List ℕ → Bool
still_parsing l stream = ltb l.end_offset (length stream % 2 ^ 32)

-- The fold over the bytes after the lead byte, from the byte with index `i` on.
unfoldable pub add_bytes : ℕ → ℕ → List ℕ → ℕ
add_bytes i raw [] = raw
add_bytes i raw (byte ∷ bytes) =
    add_bytes (i + 1) ((raw + byte * 2 ^ (4 + i * 8) % 2 ^ 32) % 2 ^ 32) bytes

module _ {C V : Type 0} ⦃bits : BitField⦄ where
  -- The second `match` of `raw_pkg_length`: any failure is an end of the stream.
  unfoldable pub read_bytes : List ℕ → ℕ → ParseResult C V (List ℕ) → ParseResult C V ℕ
  read_bytes input lead (parsed rest context bytes) =
      parsed rest context (add_bytes 0 (bits.get_bits lead 0 4) bytes)
  read_bytes input lead (failed rest context e) =
      failed input context (failure unexpected_end_of_stream)
  read_bytes input lead panicked = panicked
  read_bytes input lead looping = looping

  unfoldable pub raw_pkg_length : Parser C V ℕ
  raw_pkg_length input context = and_then (Parsing.take input context) (λ rest after lead.
      if bits.get_bits lead 6 8 == 0
      then parsed rest after (bits.get_bits lead 0 6)
      else read_bytes input lead (take_n (bits.get_bits lead 6 8) rest after))

  unfoldable pub pkg_length : Parser C V PkgLength
  pkg_length input context = and_then (raw_pkg_length input context) (λ rest after raw.
      elim (from_raw_length input raw) [
        | ok l ↦ parsed rest after l
        | err e ↦ failed input after (failure e)
        | panic ↦ panicked
      ])
