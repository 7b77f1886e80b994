-- ===== src/Aml/Parsing/Loops.antt =====
-- aml/src/parser.rs: the combinators that loop or try alternatives. Their loops end, because a
-- round that succeeds consumes a part of the stream.
use acpi_rs.Prelude.{
  ℕ, zero, suc, ◌+◌, ◌*◌, ◌≤◌, ◌<◌, ap, List, [], ◌∷◌, length, length-append, arith,
}
use acpi_rs.Aml.Types.{wrong_parser}
use acpi_rs.Aml.Parsing
use acpi_rs.Aml.Parsing.{
  Propagate, failure, ParseResult, parsed, failed, panicked, looping, Parser, and_then, recover,
  choice,
}
use acpi_rs.Aml.Parsing.Progress.{
  Reaches, Progress, IsAdvancing, Reaches-refl, Reaches-trans, Reaches-weaken, Progress-weaken,
  and_then-Progress, or_restore-Progress,
}

Reaches-shorter : (n : ℕ) (i j : List ℕ) → Reaches n i j → length j + n ≤ length i
Reaches-shorter n i j r = omega (arith, ap length r.split, length-append r.consumed j, r.enough)

module _ {C V : Type 0} where
  recover-Progress :
      {R S : Type 0} (m n : ℕ) (input : List ℕ) (result : ParseResult C V R)
      (next : List ℕ → C → R → ParseResult C V S) (other : C → ParseResult C V S)
      → Progress m input result
      → ((rest : List ℕ) (after : C) (r : R)
          → Reaches m input rest
          → Progress n input (next rest after r))
      → ((after : C) → Progress n input (other after))
      → Progress n input (recover input result next other)
  unfolding recover
  recover-Progress m n input (parsed rest after r) next other h k l = k rest after r h
  recover-Progress m n input (failed rest after (failure wrong_parser)) next other h k l = l after
  recover-Progress m n input (failed rest after e) next other h k l = Reaches-refl input
  recover-Progress m n input panicked next other h k l = tt
  recover-Progress m n input looping next other h k l = h

  extend-Progress :
      {R : Type 0} (m n : ℕ) (input rest : List ℕ) (result : ParseResult C V R)
      → Reaches m input rest
      → Progress n rest result
      → Progress n input result
  extend-Progress m n input rest (parsed last after r) h k =
      Reaches-weaken n (m + n) input last (omega arith) (Reaches-trans m n input rest last h k)
  extend-Progress m n input rest (failed last after e) h k =
      Reaches-weaken 0 (m + 0) input last (omega arith) (Reaches-trans m 0 input rest last h k)
  extend-Progress m n input rest panicked h k = tt
  extend-Progress m n input rest looping h k = k

  take_while_from-Progress :
      {R : Type 0} (p : Parser C V R) (fuel k : ℕ) (input : List ℕ) (context : C)
      → IsAdvancing 1 p
      → length input < fuel
      → Progress 0 input (Parsing.take_while_from p fuel k input context)
  unfolding Parsing.take_while_from
  take_while_from-Progress p zero k input context h f = omega (arith, f)
  take_while_from-Progress p (suc fuel) k input context h f =
      recover-Progress 1 0 input (p input context) _ _ (h input context)
        (λ rest after r reached. extend-Progress 1 0 input rest _ reached (
          take_while_from-Progress p fuel (k + 1) rest after h
            (omega (arith, f, Reaches-shorter 1 input rest reached))))
        (λ after. Reaches-refl input)

  -- `take_while` ends, if every success of its parser consumes at least one byte.
  pub take_while-IsAdvancing :
      {R : Type 0} (p : Parser C V R) → IsAdvancing 1 p → IsAdvancing 0 (Parsing.take_while p)
  unfolding Parsing.take_while
  take_while-IsAdvancing p h input context =
      take_while_from-Progress p (length input + 1) 0 input context h (omega arith)

  -- If every success of a parser consumes at least `m` bytes, every success of `n_of` with it
  -- consumes at least `n * m`, and a failure returns what is left of the input.
  pub n_of-IsAdvancing :
      {R : Type 0} (p : Parser C V R) (m n : ℕ)
      → IsAdvancing m p
      → IsAdvancing (n * m) (Parsing.n_of p n)
  unfolding Parsing.n_of
  n_of-IsAdvancing p m zero h input context =
      Reaches-weaken (0 * m) 0 input input (omega arith) (Reaches-refl input)
  n_of-IsAdvancing p m (suc n) h input context =
      Progress-weaken (suc n * m) (m + n * m) input _ (omega arith) (
        or_restore-Progress m (n * m) input (p input context) _ (h input context) (λ rest after r.
          Progress-weaken (n * m) (n * m + 0) rest _ (omega arith) (
            and_then-Progress (n * m) 0 rest (Parsing.n_of p n rest after) _
              (n_of-IsAdvancing p m n h rest after) (λ last final rs. Reaches-refl last))))

  pub or-IsAdvancing :
      {R : Type 0} (n : ℕ) (p1 p2 : Parser C V R)
      → IsAdvancing n p1
      → IsAdvancing n p2
      → IsAdvancing n (Parsing.or p1 p2)
  unfolding Parsing.or
  or-IsAdvancing n p1 p2 h k input context =
      recover-Progress n n input (p1 input context) _ _ (h input context)
        (λ rest after r reached. reached) (λ after. k input after)

  -- Every parser of a list is advancing.
  abbrev pub AllAdvancing : {R : Type 0} → ℕ → List (Parser C V R) → Type 0
  AllAdvancing n [] = Unit {0}
  AllAdvancing n (p ∷ ps) = IsAdvancing n p × AllAdvancing n ps

  pub choice-IsAdvancing :
      {R : Type 0} (n : ℕ) (ps : List (Parser C V R))
      → AllAdvancing n ps
      → IsAdvancing n (choice ps)
  unfolding choice
  choice-IsAdvancing n [] h input context = Reaches-refl input
  choice-IsAdvancing n (p ∷ ps) (h, hs) input context =
      recover-Progress n n input (p input context) _ _ (h input context)
        (λ rest after r reached. reached) (λ after. choice-IsAdvancing n ps hs input after)
