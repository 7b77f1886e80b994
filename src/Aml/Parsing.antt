-- ===== src/Aml/Parsing.antt =====
-- aml/src/parser.rs: the parser combinators. A parser takes the stream and the context and returns
-- both with its result, or with what it propagates. `C` is the type of contexts, `V` that of the
-- values that a `Return` carries. `&mut AmlContext` is a context that is passed on.
pub mod Progress
pub mod Loops
pub mod Scope
use acpi_rs.Prelude.{
  ℕ, zero, suc, ◌+◌, ◌-◌, ◌*◌, ◌%◌, ◌^◌, ◌==◌, ltb, leb, Bool, true, false, ◌&&◌, List, [], ◌∷◌,
  ◌++◌, length, Outcome, ok, err, panic, if◌then◌else◌, Option, some, none,
}
use acpi_rs.Prelude as Lists
use acpi_rs.Bytes.{from_le_bytes}
use acpi_rs.Aml.Types.{
  AmlError, unexpected_end_of_stream, unexpected_byte, wrong_parser, invalid_pkg_length,
}

-- `Propagate`.
pub data Propagate (V : Type 0) : Type 0 where
  failure : AmlError → Propagate V
  return_value : V → Propagate V
  break_loop continue_loop : Propagate V

-- What a parser ends with: `Ok`, `Err`, a panic, or a loop that does not end.
pub data ParseResult (C V R : Type 0) : Type 0 where
  parsed : List ℕ → C → R → ParseResult C V R
  failed : List ℕ → C → Propagate V → ParseResult C V R
  panicked looping : ParseResult C V R

abbrev pub Parser : Type 0 → Type 0 → Type 0 → Type 0
Parser C V R = List ℕ → C → ParseResult C V R

-- `PkgLength`.
pub record PkgLength : Type 0 where
  pub raw_length : ℕ
  pub end_offset : ℕ

-- `checked_sub` on `u32`.
unfoldable pub checked_sub : ℕ → ℕ → Option ℕ
checked_sub a b = if leb b a then some (a - b) else none

module _ {C V : Type 0} where
  -- What `?` does with the result of a parser.
  unfoldable pub and_then :
      {R S : Type 0} → ParseResult C V R → (List ℕ → C → R → ParseResult C V S) → ParseResult C V S
  and_then (parsed input context r) next = next input context r
  and_then (failed input context e) next = failed input context e
  and_then panicked next = panicked
  and_then looping next = looping

  -- The arms of a `match` that continue on success and return the stream `input` on failure.
  unfoldable pub or_restore :
      {R S : Type 0}
      → List ℕ
      → ParseResult C V R
      → (List ℕ → C → R → ParseResult C V S)
      → ParseResult C V S
  or_restore input (parsed rest context r) next = next rest context r
  or_restore input (failed rest context e) next = failed input context e
  or_restore input panicked next = panicked
  or_restore input looping next = looping

  unfoldable pub id : Parser C V (Unit {0})
  id input context = parsed input context tt

  unfoldable pub take : Parser C V ℕ
  take [] context = failed [] context (failure unexpected_end_of_stream)
  take (byte ∷ rest) context = parsed rest context byte

  -- `take_u16`, `take_u32` and `take_u64`: the integer of the first `width` bytes.
  unfoldable pub take_uint : ℕ → Parser C V ℕ
  take_uint width input context =
      if ltb (length input) width
      then failed input context (failure unexpected_end_of_stream)
      else parsed (Lists.drop width input) context (from_le_bytes (Lists.take width input))

  unfoldable pub take_n : ℕ → Parser C V (List ℕ)
  take_n n input context =
      if ltb (length input % 2 ^ 32) n
      then failed input context (failure unexpected_end_of_stream)
      else parsed (Lists.drop n input) context (Lists.take n input)

  unfoldable pub take_to_end_of_pkglength : PkgLength → Parser C V (List ℕ)
  take_to_end_of_pkglength l input context =
      elim (checked_sub (length input % 2 ^ 32) l.end_offset) [
        | some bytes_to_take ↦ take_n bytes_to_take input context
        | none ↦ failed input context (failure invalid_pkg_length)
      ]

  -- The loop of `n_of`, without the results of earlier rounds.
  unfoldable pub n_of : {R : Type 0} → Parser C V R → ℕ → Parser C V (List R)
  n_of parser zero input context = parsed input context []
  n_of parser (suc n) input context = or_restore input (parser input context) (λ rest after r.
      and_then (n_of parser n rest after) (λ last final rs. parsed last final (r ∷ rs)))

  -- The arms of `match` that `take_while`, `Or` and `choice!` share: success, `WrongParser`, and the
  -- other errors, which return the stream `input`.
  unfoldable pub recover :
      {R S : Type 0}
      → List ℕ
      → ParseResult C V R
      → (List ℕ → C → R → ParseResult C V S)
      → (C → ParseResult C V S)
      → ParseResult C V S
  recover input (parsed rest after r) next other = next rest after r
  recover input (failed rest after (failure wrong_parser)) next other = other after
  recover input (failed rest after e) next other = failed input after e
  recover input panicked next other = panicked
  recover input looping next other = looping

  -- The loop of `take_while`, from a count on; each round is one unit of fuel.
  unfoldable pub take_while_from : {R : Type 0} → Parser C V R → ℕ → ℕ → Parser C V ℕ
  take_while_from parser zero num_passed input context = looping
  take_while_from parser (suc fuel) num_passed input context =
      recover input (parser input context)
        (λ rest after r. take_while_from parser fuel (num_passed + 1) rest after)
        (λ after. parsed input after num_passed)

  -- `take_while`: one round for each byte and one to stop.
  unfoldable pub take_while : {R : Type 0} → Parser C V R → Parser C V ℕ
  take_while parser input context = take_while_from parser (length input + 1) 0 input context

  unfoldable pub consume : (ℕ → Bool) → Parser C V ℕ
  consume condition [] context = failed [] context (failure unexpected_end_of_stream)
  consume condition (byte ∷ rest) context =
      if condition byte
      then parsed rest context byte
      else failed (byte ∷ rest) context (failure (unexpected_byte byte))

  unfoldable pub extract : {R : Type 0} → Parser C V R → Parser C V (R × List ℕ)
  extract parser before context = and_then (parser before context) (λ after final r.
      if leb (length after) (length before)
      then parsed after final (r, Lists.take (length before - length after) before)
      else panicked)

  -- `Or::parse`.
  unfoldable pub or : {R : Type 0} → Parser C V R → Parser C V R → Parser C V R
  or p1 p2 input context =
      recover input (p1 input context) (λ rest after r. parsed rest after r)
        (λ after. p2 input after)

  -- What `map` and `map_with_context` do with the result of the function.
  unfoldable pub finish :
      {A : Type 0} → List ℕ → List ℕ → Outcome (Propagate V) A → C → ParseResult C V A
  finish input rest (ok a) context = parsed rest context a
  finish input rest (err e) context = failed input context e
  finish input rest panic context = panicked

  -- `Map::parse`.
  unfoldable pub map : {R A : Type 0} → Parser C V R → (R → Outcome (Propagate V) A) → Parser C V A
  map parser map_fn input context =
      and_then (parser input context) (λ rest after r. finish input rest (map_fn r) after)

  -- `MapWithContext::parse`.
  unfoldable pub map_with_context :
      {R A : Type 0} → Parser C V R → (R → C → Outcome (Propagate V) A × C) → Parser C V A
  map_with_context parser map_fn input context =
      and_then (parser input context)
        (λ rest after r. finish input rest (map_fn r after).0 (map_fn r after).1)

  -- `DiscardResult::parse`.
  unfoldable pub discard_result : {R : Type 0} → Parser C V R → Parser C V (Unit {0})
  discard_result parser input context =
      and_then (parser input context) (λ rest after r. parsed rest after tt)

  -- `Then::parse`, the parser of `then`.
  unfoldable pub then_next : {R S : Type 0} → Parser C V R → Parser C V S → Parser C V (R × S)
  then_next p1 p2 input context =
      and_then (p1 input context)
        (λ next after a. and_then (p2 next after) (λ rest final b. parsed rest final (a, b)))

  -- `Feed::parse`.
  unfoldable pub feed : {R S : Type 0} → Parser C V R → (R → Parser C V S) → Parser C V S
  feed parser producer_fn input context =
      and_then (parser input context) (λ rest after r. producer_fn r rest after)

  -- The macro `choice!`.
  unfoldable pub choice : {R : Type 0} → List (Parser C V R) → Parser C V R
  choice [] input context = failed input context (failure wrong_parser)
  choice (p ∷ ps) input context =
      recover input (p input context) (λ rest after r. parsed rest after r)
        (λ after. choice ps input after)
