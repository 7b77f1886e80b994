-- ===== src/Bytes/Slices.antt =====
-- Reads of byte slices that panic out of bounds, as `core` has them, and the crate `byteorder`: its
-- `LittleEndian` reads integers of two and four bytes, and of a number of bytes that it is given.
use acpi_rs.Prelude.{
  ℕ, ◌-◌, ◌<◌, ◌≤◌, leb, ◌≡◌, ◌&&◌, List, length, take, drop, get_elem?, Outcome, ok, panic,
  if◌then◌else◌, some, none,
}
use acpi_rs.Bytes.{from_le_bytes}

module _ {E : Type 0} {A : Type 0} where
  -- `xs[i]`.
  unfoldable pub index : List A → ℕ → Outcome E A
  index xs i = elim (get_elem? xs i) [ some x ↦ ok x | none ↦ panic ]

  -- `&xs[lo..hi]`.
  unfoldable pub slice : List A → ℕ → ℕ → Outcome E (List A)
  slice xs lo hi =
      if leb lo hi && leb hi (length xs) then ok (take (hi - lo) (drop lo xs)) else panic

  -- `xs.split_at(n)`.
  unfoldable pub split_at : List A → ℕ → Outcome E (List A × List A)
  split_at xs n = if leb n (length xs) then ok (take n xs, drop n xs) else panic

  -- `next().unwrap()` on `chunks_exact(n)`, with the elements that are left.
  unfoldable pub next_chunk : ℕ → List A → Outcome E (List A × List A)
  next_chunk n xs = if leb n (length xs) then ok (take n xs, drop n xs) else panic

pub record LittleEndian : Type 0 where
  pub read_u16 : List ℕ → ℕ
  pub read_u32 : List ℕ → ℕ
  pub read_uint : List ℕ → ℕ → ℕ
  pub read_u16_lem : (bytes : List ℕ) → length bytes ≡ 2 → read_u16 bytes ≡ from_le_bytes bytes
  pub read_u32_lem : (bytes : List ℕ) → length bytes ≡ 4 → read_u32 bytes ≡ from_le_bytes bytes
  pub read_uint_lem :
      (bytes : List ℕ) (n : ℕ)
      → 0 < n
      → n ≤ 8
      → length bytes ≡ n
      → read_uint bytes n ≡ from_le_bytes bytes
