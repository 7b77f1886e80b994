-- ===== src/Aml/Parsing/Progress.antt =====
-- aml/src/parser.rs: how much of the stream the combinators consume. `IsAdvancing n p` is what a loop
-- around `p` needs to end; every combinator keeps it.
use acpi_rs.Prelude.{
  ℕ, zero, suc, ◌+◌, ◌-◌, ◌*◌, ◌%◌, ◌^◌, ◌≤◌, ◌<◌, min, ltb, leb, ltb→lt, ◌≡◌, refl, sym, ap, ◌∙◌,
  Bool, true, false, List, [], ◌∷◌, ◌++◌, length, append_assoc, length-append, length-take,
  length-drop, take-append-drop, Outcome, ok, err, panic, if◌then◌else◌, Option, some, none, arith,
  Bool-cases, inl, inr,
}
use acpi_rs.Prelude as Lists
use acpi_rs.Aml.Parsing
use acpi_rs.Aml.Parsing.{
  Propagate, failure, ParseResult, parsed, failed, panicked, looping, Parser, PkgLength, and_then,
}

-- From the stream `input` at least `n` bytes were consumed, and `rest` is what follows them.
pub record Reaches (n : ℕ) (input rest : List ℕ) : Type 0 where
  pub consumed : List ℕ
  pub split : input ≡ consumed ++ rest
  pub enough : n ≤ length consumed

-- On success at least `n` bytes were consumed, on failure any number; the loops ended.
abbrev pub Progress : {C V R : Type 0} → ℕ → List ℕ → ParseResult C V R → Type 0
Progress n input (parsed rest context r) = Reaches n input rest
Progress n input (failed rest context e) = Reaches 0 input rest
Progress n input panicked = Unit {0}
Progress n input looping = ⊥

abbrev pub IsAdvancing : {C V R : Type 0} → ℕ → Parser C V R → Type 0
IsAdvancing {C} n p = (input : List ℕ) (context : C) → Progress n input (p input context)

pub Reaches-refl : (input : List ℕ) → Reaches 0 input input
Reaches-refl input = record { consumed = []; split = refl; enough = omega arith }

pub Reaches-trans : (m n : ℕ) (i j k : List ℕ) → Reaches m i j → Reaches n j k → Reaches (m + n) i k
Reaches-trans m n i j k r s = record {
  consumed = r.consumed ++ s.consumed;
  split = r.split ∙ ap (λ t. r.consumed ++ t) s.split ∙ sym (append_assoc r.consumed s.consumed k);
  enough = omega (arith, length-append r.consumed s.consumed, r.enough, s.enough);
}

pub Reaches-weaken : (m n : ℕ) (i j : List ℕ) → m ≤ n → Reaches n i j → Reaches m i j
Reaches-weaken m n i j h r = record {
  consumed = r.consumed;
  split = r.split;
  enough = omega (arith, h, r.enough);
}

pub Reaches-drop : (n : ℕ) (i : List ℕ) → n ≤ length i → Reaches n i (Lists.drop n i)
Reaches-drop n i h = record {
  consumed = Lists.take n i;
  split = sym (take-append-drop n i);
  enough = omega (arith, length-take n i, h);
}

module _ {C V : Type 0} where
  pub and_then-Progress :
      {R S : Type 0} (m n : ℕ) (input : List ℕ) (result : ParseResult C V R)
      (next : List ℕ → C → R → ParseResult C V S)
      → Progress m input result
      → ((rest : List ℕ) (after : C) (r : R) → Progress n rest (next rest after r))
      → Progress (m + n) input (and_then result next)
  unfolding and_then
  and_then-Progress m n input (parsed rest after r) next h k =
      go (next rest after r) (k rest after r)
    where
      go :
          {S : Type 0} (result : ParseResult C V S)
          → Progress n rest result
          → Progress (m + n) input result
      go (parsed last final s) g = Reaches-trans m n input rest last h g
      go (failed last final e) g =
          Reaches-weaken 0 (m + 0) input last (omega arith) (Reaches-trans m 0 input rest last h g)
      go panicked g = tt
      go looping g = g
  and_then-Progress m n input (failed rest after e) next h k = h
  and_then-Progress m n input panicked next h k = tt
  and_then-Progress m n input looping next h k = h

  pub or_restore-Progress :
      {R S : Type 0} (m n : ℕ) (input : List ℕ) (result : ParseResult C V R)
      (next : List ℕ → C → R → ParseResult C V S)
      → Progress m input result
      → ((rest : List ℕ) (after : C) (r : R) → Progress n rest (next rest after r))
      → Progress (m + n) input (Parsing.or_restore input result next)
  unfolding Parsing.or_restore and_then
  or_restore-Progress m n input (parsed rest after r) next h k =
      and_then-Progress m n input (parsed rest after r) next h k
  or_restore-Progress m n input (failed rest after e) next h k = Reaches-refl input
  or_restore-Progress m n input panicked next h k = tt
  or_restore-Progress m n input looping next h k = h

  -- The same, with what is known of the stream where the next parser starts.
  pub and_then-within :
      {R S : Type 0} (m n : ℕ) (input : List ℕ) (result : ParseResult C V R)
      (next : List ℕ → C → R → ParseResult C V S)
      → Progress m input result
      → ((rest : List ℕ) (after : C) (r : R)
          → Reaches m input rest
          → Progress n input (next rest after r))
      → Progress n input (and_then result next)
  unfolding and_then
  and_then-within m n input (parsed rest after r) next h k = k rest after r h
  and_then-within m n input (failed rest after e) next h k = h
  and_then-within m n input panicked next h k = tt
  and_then-within m n input looping next h k = h

  pub or_restore-within :
      {R S : Type 0} (m n : ℕ) (input rest : List ℕ) (result : ParseResult C V R)
      (next : List ℕ → C → R → ParseResult C V S)
      → Progress m rest result
      → ((last : List ℕ) (after : C) (r : R)
          → Reaches m rest last
          → Progress n input (next last after r))
      → Progress n input (Parsing.or_restore input result next)
  unfolding Parsing.or_restore
  or_restore-within m n input rest (parsed last after r) next h k = k last after r h
  or_restore-within m n input rest (failed last after e) next h k = Reaches-refl input
  or_restore-within m n input rest panicked next h k = tt
  or_restore-within m n input rest looping next h k = h

  pub Progress-weaken :
      {R : Type 0} (m n : ℕ) (input : List ℕ) (result : ParseResult C V R)
      → m ≤ n
      → Progress n input result
      → Progress m input result
  Progress-weaken m n input (parsed rest after r) h p = Reaches-weaken m n input rest h p
  Progress-weaken m n input (failed rest after e) h p = p
  Progress-weaken m n input panicked h p = tt
  Progress-weaken m n input looping h p = p

  pub finish-Progress :
      {A : Type 0} (n : ℕ) (input rest : List ℕ) (r : Outcome (Propagate V) A) (after : C)
      → Reaches n input rest
      → Progress n input (Parsing.finish input rest r after)
  unfolding Parsing.finish
  finish-Progress n input rest (ok a) after h = h
  finish-Progress n input rest (err e) after h = Reaches-refl input
  finish-Progress n input rest panic after h = tt

  finish_all-Progress :
      {R A : Type 0} (n : ℕ) (input : List ℕ) (result : ParseResult C V R)
      (f : R → C → Outcome (Propagate V) A × C)
      → Progress n input result
      → Progress n input
          (and_then result (λ rest after r. Parsing.finish input rest (f r after).0 (f r after).1))
  unfolding and_then
  finish_all-Progress n input (parsed rest after r) f k =
      finish-Progress n input rest (f r after).0 (f r after).1 k
  finish_all-Progress n input (failed rest after e) f k = k
  finish_all-Progress n input panicked f k = tt
  finish_all-Progress n input looping f k = k

  pub then_next-IsAdvancing :
      {R S : Type 0} (m n : ℕ) (p1 : Parser C V R) (p2 : Parser C V S)
      → IsAdvancing m p1
      → IsAdvancing n p2
      → IsAdvancing (m + n) (Parsing.then_next p1 p2)
  unfolding Parsing.then_next
  then_next-IsAdvancing m n p1 p2 h k input context =
      and_then-Progress m n input (p1 input context) _ (h input context) (λ next after a.
        Progress-weaken n (n + 0) next _ (omega arith) (
          and_then-Progress n 0 next (p2 next after) _ (k next after)
            (λ rest final b. Reaches-refl rest)))

  pub map-IsAdvancing :
      {R A : Type 0} (n : ℕ) (p : Parser C V R) (f : R → Outcome (Propagate V) A)
      → IsAdvancing n p
      → IsAdvancing n (Parsing.map p f)
  unfolding Parsing.map and_then
  map-IsAdvancing n p f h input context =
      finish_all-Progress n input (p input context) (λ r after. (f r, after)) (h input context)

  pub map_with_context-IsAdvancing :
      {R A : Type 0} (n : ℕ) (p : Parser C V R) (f : R → C → Outcome (Propagate V) A × C)
      → IsAdvancing n p
      → IsAdvancing n (Parsing.map_with_context p f)
  unfolding Parsing.map_with_context
  map_with_context-IsAdvancing n p f h input context =
      finish_all-Progress n input (p input context) f (h input context)

  pub discard_result-IsAdvancing :
      {R : Type 0} (n : ℕ) (p : Parser C V R)
      → IsAdvancing n p
      → IsAdvancing n (Parsing.discard_result p)
  unfolding Parsing.discard_result
  discard_result-IsAdvancing n p h input context = Progress-weaken n (n + 0) input _ (omega arith) (
      and_then-Progress n 0 input (p input context) _ (h input context)
        (λ rest after r. Reaches-refl rest))

  pub feed-IsAdvancing :
      {R S : Type 0} (m n : ℕ) (p : Parser C V R) (f : R → Parser C V S)
      → IsAdvancing m p
      → ((r : R) → IsAdvancing n (f r))
      → IsAdvancing (m + n) (Parsing.feed p f)
  unfolding Parsing.feed
  feed-IsAdvancing m n p f h k input context =
      and_then-Progress m n input (p input context) _ (h input context)
        (λ rest after r. k r rest after)

pub take-IsAdvancing : (C V : Type 0) → IsAdvancing {C = C} {V = V} 1 Parsing.take
unfolding Parsing.take
take-IsAdvancing C V [] context = Reaches-refl []
take-IsAdvancing C V (b ∷ bs) context = record {
  consumed = b ∷ [];
  split = refl;
  enough = omega arith;
}

pub consume-IsAdvancing :
    (C V : Type 0) (f : ℕ → Bool) → IsAdvancing {C = C} {V = V} 1 (Parsing.consume f)
unfolding Parsing.consume
consume-IsAdvancing C V f [] context = Reaches-refl []
consume-IsAdvancing C V f (b ∷ bs) context = elim (Bool-cases (f b)) [
  | inl e ↦ rw e (record { consumed = b ∷ []; split = refl; enough = omega arith })
  | inr e ↦ rw e (Reaches-refl (b ∷ bs))
]

pub take_n-IsAdvancing : (C V : Type 0) (n : ℕ) → IsAdvancing {C = C} {V = V} n (Parsing.take_n n)
unfolding Parsing.take_n
take_n-IsAdvancing C V n input context = elim (Bool-cases (ltb (length input % 2 ^ 32) n)) [
  | inl e ↦ rw e (Reaches-refl input)
  | inr e ↦ rw e (Reaches-drop n input (ground arith))
]

pub take_uint-IsAdvancing :
    (C V : Type 0) (n : ℕ) → IsAdvancing {C = C} {V = V} n (Parsing.take_uint n)
unfolding Parsing.take_uint
take_uint-IsAdvancing C V n input context = elim (Bool-cases (ltb (length input) n)) [
  | inl e ↦ rw e (Reaches-refl input)
  | inr e ↦ rw e (Reaches-drop n input (ground arith))
]
