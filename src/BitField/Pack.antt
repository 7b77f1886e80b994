-- ===== src/BitField/Pack.antt =====
-- Bytes made of flags, and what `bit_field` reads from them.
use acpi_rs.Prelude.{ℕ, ◌+◌, ◌/◌, ◌%◌, ◌^◌, ◌<◌, ◌==◌, ◌≡◌, ◌∙◌, Bool, if◌then◌else◌, arith}
use acpi_rs.BitField.{BitField}

abbrev pub flag : Bool → ℕ → ℕ
flag b n = if b then n else 0

-- Flags in the lowest five bits.
unfoldable pub five_flags : Bool → Bool → Bool → Bool → Bool → ℕ
five_flags a b c d e = flag a 1 + flag b 2 + flag c 4 + flag d 8 + flag e 16

module _ (a b c d e : Bool) where
  pub five_flags_bits :
      let x = five_flags a b c d e in
      ((x / 2 ^ 0 % 2 == 1) ≡ a)
      × ((x / 2 ^ 1 % 2 == 1) ≡ b)
      × ((x / 2 ^ 2 % 2 == 1) ≡ c)
      × ((x / 2 ^ 3 % 2 == 1) ≡ d)
      × ((x / 2 ^ 4 % 2 == 1) ≡ e)
      × (x / 2 ^ 5 % 2 ^ 59 ≡ 0)
      × (x < 32)
  unfolding five_flags
  five_flags_bits = (
    ground arith,
    ground arith,
    ground arith,
    ground arith,
    ground arith,
    ground arith,
    ground arith,
  )

  pub get_bit-five_flags :
      ⦃bits : BitField⦄
      → let x = five_flags a b c d e in
        (bits.get_bit x 0 ≡ a)
        × (bits.get_bit x 1 ≡ b)
        × (bits.get_bit x 2 ≡ c)
        × (bits.get_bit x 3 ≡ d)
        × (bits.get_bit x 4 ≡ e)
        × (bits.get_bits x 5 64 ≡ 0)
  get_bit-five_flags ⦃bits⦄ =
      let x = five_flags a b c d e in
      let (p, q, r, s, t, u, _) = five_flags_bits in
      (
        bits.get_bit_lem x 0 ∙ p,
        bits.get_bit_lem x 1 ∙ q,
        bits.get_bit_lem x 2 ∙ r,
        bits.get_bit_lem x 3 ∙ s,
        bits.get_bit_lem x 4 ∙ t,
        bits.get_bits_lem x 5 64 (omega arith) ∙ u,
      )
