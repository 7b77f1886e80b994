-- ===== src/Aml/Value/BufferFields/Laws.antt =====
-- aml/src/value.rs: what a write to a buffer field does to that field and to the others.
use acpi_rs.Prelude.{
  ℕ, zero, suc, ◌+◌, ◌-◌, ◌*◌, ◌/◌, ◌%◌, ◌^◌, ◌≤◌, ◌<◌, ltb, leb, ◌==◌, ◌≡◌, ◌≢◌, ◌⊎◌, inl, inr,
  refl, sym, ap, ◌∙◌, Bool, Bool-cases, ==_iff, true, false, ◌&&◌, List, [], ◌∷◌, ◌++◌, length,
  length-take, take, drop, replicate, ok, arith,
}
use acpi_rs.Bytes.{le_bytes}
use acpi_rs.Bytes.Bits.{
  BitVec, from_bits, bits_of, to_bytes, length-bits_of, length-to_bytes, from_bits-bit_list,
  bits_of-to_bytes,
}
use acpi_rs.Bytes.Slices.{slice}
use acpi_rs.Aml.Value.BufferFields.Splice.{
  splice, length-splice, splice-here, splice-elsewhere, take-bit_list, bits_of-le_bytes,
  from_bits-zeros, copy_extended-fits,
}
use acpi_rs.Aml.Value.{integer, buffer_field}
use acpi_rs.Aml.Value.Buffers.{Buffers, bytes_of, put_bytes}
use acpi_rs.Aml.Value.BufferFields.{
  read_bits, field_value, read_buffer_field, written_bits, write_buffer_field,
}

bytes_of-put_self :
    (store : Buffers) (a : ℕ) (bytes : List ℕ)
    → a < length store
    → bytes_of (put_bytes store a bytes) a ≡ bytes
unfolding bytes_of put_bytes
bytes_of-put_self [] a bytes h = elim h [ ]
bytes_of-put_self (b ∷ bs) zero bytes h = refl
bytes_of-put_self (b ∷ bs) (suc a) bytes h = bytes_of-put_self bs a bytes (omega (arith, h))

bytes_of-put_ne :
    (store : Buffers) (a b : ℕ) (bytes : List ℕ)
    → b ≢ a
    → bytes_of (put_bytes store a bytes) b ≡ bytes_of store b
unfolding bytes_of put_bytes
bytes_of-put_ne [] a b bytes h = refl
bytes_of-put_ne (x ∷ xs) zero zero bytes h = absurd (h refl)
bytes_of-put_ne (x ∷ xs) zero (suc b) bytes h = refl
bytes_of-put_ne (x ∷ xs) (suc a) zero bytes h = refl
bytes_of-put_ne (x ∷ xs) (suc a) (suc b) bytes h = bytes_of-put_ne xs a b bytes (λ e. h (ap suc e))

module _ ⦃bv : BitVec⦄ where
  -- What a reader sees of a buffer is its bits.
  read_bits-eq :
      (s t : Buffers) (a offset len : ℕ)
      → let x = bits_of (bytes_of s a) in
        let y = bits_of (bytes_of t a) in
        length (bytes_of s a) ≡ length (bytes_of t a)
        → take len (drop offset x) ≡ take len (drop offset y)
        → offset + len < 2 ^ 64
        → read_bits s a offset len ≡ read_bits t a offset len
  unfolding read_bits slice
  read_bits-eq s t a offset len e h small =
      let last : (offset + len) % 2 ^ 64 ≡ offset + len = omega (arith, small) in
      let size : offset + len - offset ≡ len = omega arith in
      let same : length (bits_of (bytes_of s a)) ≡ length (bits_of (bytes_of t a)) =
        omega (arith, e, length-bits_of (bytes_of s a), length-bits_of (bytes_of t a)) in
      rw (last, size)
        (rw (bv.view_bits_lem (bytes_of s a), bv.view_bits_lem (bytes_of t a))
          (rw (e, same) (rw h refl)))

  module _ (store : Buffers) (a offset len v : ℕ) where
    abbrev old : List Bool
    old = bits_of (bytes_of store a)

    abbrev mine : List Bool
    mine = take len (bits_of (le_bytes 8 v))

    abbrev after : Buffers
    after = put_bytes store a (to_bytes (length (bytes_of store a)) (splice old offset mine))

    module _ (known : a < length store) (narrow : len ≤ 64)
        (inside : offset + len ≤ length (bytes_of store a) * 8)
        (small : length (bytes_of store a) * 8 < 2 ^ 64) where
      length-mine : length mine ≡ len
      length-mine = omega (
        arith,
        narrow,
        length-take len (bits_of (le_bytes 8 v)),
        length-bits_of (le_bytes 8 v),
        length-le (8) v,
      )
        where
          length-le : (n x : ℕ) → length (le_bytes n x) ≡ n
          length-le zero x = refl
          length-le (suc n) x = ap suc (length-le n (x / 256))

      fits : offset + length mine ≤ length old
      fits = omega (arith, length-mine, inside, length-bits_of (bytes_of store a))

      bytes_of-after :
          bytes_of after a ≡ to_bytes (length (bytes_of store a)) (splice old offset mine)
      bytes_of-after = bytes_of-put_self store a _ known

      bits_of-after : bits_of (bytes_of after a) ≡ splice old offset mine
      bits_of-after =
          ap bits_of bytes_of-after
          ∙ bits_of-to_bytes (length (bytes_of store a)) (splice old offset mine)
              (length-splice old offset mine fits ∙ length-bits_of (bytes_of store a))

      length-after : length (bytes_of after a) ≡ length (bytes_of store a)
      length-after = ap length bytes_of-after ∙ length-to_bytes (length (bytes_of store a)) _

      written : written_bits store a offset len (integer v) ≡ ok (splice old offset mine)
      unfolding written_bits
      written =
          rw (bv.view_bits_lem (bytes_of store a), bv.view_bits_lem (le_bytes 8 v))
            (copy_extended-fits old offset len (bits_of (le_bytes 8 v))
              (omega (arith, narrow, length-bits_of (le_bytes 8 v)))
              (omega (arith, inside, length-bits_of (bytes_of store a)))
              (omega (arith, small, length-bits_of (bytes_of store a))))

      written_bytes :
          write_buffer_field store (buffer_field a offset len) (integer v) ≡ (ok tt, after)
      unfolding write_buffer_field
      written_bytes =
          rw (written, write_buffer_field)
            (rw
              (bv.viewed_bytes_lem (length (bytes_of store a)) (splice old offset mine)
                (length-splice old offset mine fits ∙ length-bits_of (bytes_of store a)))
              refl)

      read_mine : read_bits after a offset len ≡ ok mine
      unfolding read_bits slice
      read_mine =
          let last : (offset + len) % 2 ^ 64 ≡ offset + len = omega (arith, inside, small) in
          let size : offset + len - offset ≡ len = omega arith in
          let test : ltb (length (bytes_of after a) * 8) (offset + len) ≡ false =
            ground (arith, inside, length-after) in
          let room : (leb offset (offset + len)
                && leb (offset + len) (length (splice old offset mine)))
              ≡ true =
            ground (
              arith,
              length-splice old offset mine fits,
              length-bits_of (bytes_of store a),
              inside,
            ) in
          let here : take len (drop offset (splice old offset mine)) ≡ mine =
            ap (λ n. take n (drop offset (splice old offset mine))) (sym length-mine)
            ∙ splice-here old offset mine fits in
          rw (last, size)
            (rw test
              (rw (bv.view_bits_lem (bytes_of after a) ∙ bits_of-after) (rw room (rw here refl))))

      value_mine : bv.viewed_integer (mine ++ replicate (64 - len) false) ≡ v % 2 ^ len
      value_mine =
          bv.viewed_integer_lem (mine ++ replicate (64 - len) false)
          ∙ from_bits-zeros mine (64 - len)
          ∙ ap (λ t. from_bits (take len t)) (bits_of-le_bytes 8 v)
          ∙ ap from_bits (take-bit_list len 64 v narrow)
          ∙ from_bits-bit_list len v

      read_value :
          read_buffer_field after (buffer_field a offset len) ≡ (ok (integer (v % 2 ^ len)), after)
      unfolding read_buffer_field field_value
      read_value =
          let test : ltb 64 len ≡ false = ground (arith, narrow) in
          rw (read_mine, read_buffer_field) (rw test (rw value_mine refl))

      read_elsewhere :
          (b at n : ℕ) → b ≢ a → at + n < 2 ^ 64 → read_bits after b at n ≡ read_bits store b at n
      read_elsewhere b at n other few =
          let same = bytes_of-put_ne store a b _ other in
          read_bits-eq after store b at n (ap length same)
            (ap (λ t. take n (drop at (bits_of t))) same) few

      read_other :
          (b at n : ℕ)
          → (b ≢ a) ⊎ ((at + n ≤ offset) ⊎ (offset + len ≤ at))
          → at + n < 2 ^ 64
          → read_bits after b at n ≡ read_bits store b at n
      read_other b at n (inl other) few = read_elsewhere b at n other few
      read_other b at n (inr apart) few = elim (Bool-cases (b == a)) [
        | inl e ↦
            let same = (==_iff b a).0 e in
            rw same (
              read_bits-eq after store a at n length-after
                (ap (λ t. take n (drop at t)) bits_of-after
                  ∙ splice-elsewhere old offset mine fits at n (rw length-mine apart))
                few)
        | inr e ↦ read_elsewhere b at n (λ same. cc (e, (==_iff b a).1 same)) few
      ]

  -- An integer that is written to a field of at most 64 bits, which lies in its buffer, is read back
  -- from it modulo 2 to the field's length; fields of other buffers, and those of the same buffer that
  -- share no bit with it, keep their bits.
  pub read-write_buffer_field :
      (store : Buffers) (a offset len v : ℕ)
      → a < length store
      → len ≤ 64
      → offset + len ≤ length (bytes_of store a) * 8
      → length (bytes_of store a) * 8 < 2 ^ 64
      → (store' : Buffers) × (write_buffer_field store (buffer_field a offset len) (integer v)
          ≡ (ok tt, store'))
        × (read_buffer_field store' (buffer_field a offset len)
            ≡ (ok (integer (v % 2 ^ len)), store'))
        × ((b at n : ℕ)
            → (b ≢ a) ⊎ ((at + n ≤ offset) ⊎ (offset + len ≤ at))
            → at + n < 2 ^ 64
            → read_bits store' b at n ≡ read_bits store b at n)
  read-write_buffer_field store a offset len v known narrow inside small = (
    after store a offset len v,
    written_bytes store a offset len v known narrow inside small,
    read_value store a offset len v known narrow inside small,
    read_other store a offset len v known narrow inside small,
  )
