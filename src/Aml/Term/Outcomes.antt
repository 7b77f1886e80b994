-- ===== src/Aml/Term/Outcomes.antt =====
-- aml/src/parser.rs: what a parser ends with, given the result that is expected of it, and how the
-- combinators carry this on where comments are off.
use acpi_rs.Prelude.{
  ℕ, leb, false, ◌≡◌, ◌≢◌, refl, sym, ap, List, ◌∷◌, ok, err, panic, ◌>>=◌, ==_refl,
}
use acpi_rs.Aml.Types.{AmlError, Result, wrong_parser}
use acpi_rs.Aml.Parsing
use acpi_rs.Aml.Parsing.{
  ParseResult, parsed, failed, panicked, failure, and_then, recover, finish, then_next,
  map_with_context,
}
use acpi_rs.Aml.Parsing.Scope.{
  DebugVerbosity, discriminant, comment_scope, enter_scope, leave_scope, is_shown,
}
use acpi_rs.Aml.Opcode.{opcode}
use acpi_rs.Aml.Value.{AmlValue}
use acpi_rs.Aml.Context.{Context, context_debug}
use acpi_rs.Aml.Action.{Action, P, act, raise, then_do}
use acpi_rs.Aml.Expression.{after_opcode, after_opcode_do}

-- A context with the comments off.
abbrev pub quiet : {W : Type 0} → Context W → Context W
quiet c = record c { verbosity = DebugVerbosity.none }

module _ {C R : Type 0} where
  -- The value with the rest of the stream, or the error, with the context as it was.
  abbrev pub Yields : ParseResult C AmlValue R → List ℕ → C → Result R → Type 0
  Yields r rest c (ok v) = r ≡ parsed rest c v
  Yields r rest c (err e) = (at : List ℕ) × (r ≡ failed at c (failure e))
  Yields r rest c panic = r ≡ panicked

  -- The same, but for the error that makes `choice!` go on.
  abbrev pub Ends : ParseResult C AmlValue R → List ℕ → C → Result R → Type 0
  Ends r rest c (err e) = e ≢ wrong_parser → Yields r rest c (err e)
  Ends r rest c x = Yields r rest c x

  pub Ends-Yields :
      (r : ParseResult C AmlValue R) (rest : List ℕ) (c : C) (x : Result R)
      → x ≢ err wrong_parser
      → Ends r rest c x
      → Yields r rest c x
  Ends-Yields r rest c (ok v) h k = k
  Ends-Yields r rest c (err e) h k = k (λ p. h (ap err p))
  Ends-Yields r rest c panic h k = k

  recover-failure :
      (input rest : List ℕ) (c : C) (e : AmlError)
      (next : List ℕ → C → R → ParseResult C AmlValue R) (other : C → ParseResult C AmlValue R)
      → e ≢ wrong_parser
      → recover input (failed rest c (failure e)) next other ≡ failed input c (failure e)
  unfolding recover
  recover-failure input rest c wrong_parser next other h = absurd (h refl)
  recover-failure input rest c e next other h = refl

  pub Ends-recover :
      (input rest : List ℕ) (c : C) (r : ParseResult C AmlValue R) (x : Result R)
      (other : C → ParseResult C AmlValue R)
      → Ends r rest c x
      → Ends (recover input r (λ rest after v. parsed rest after v) other) rest c x
  unfolding recover
  Ends-recover input rest c r (ok v) other h = rw h refl
  Ends-recover input rest c r (err e) other h =
      λ n. (input, rw (h n).1 (recover-failure input (h n).0 c e _ other n))
  Ends-recover input rest c r panic other h = rw h refl

  pub Ends-keep :
      (rest : List ℕ) (c : C) (r : ParseResult C AmlValue R) (x : Result R)
      (next : List ℕ → C → R → ParseResult C AmlValue R)
      → ((v : R) → next rest c v ≡ parsed rest c v)
      → Ends r rest c x
      → Ends (and_then r next) rest c x
  unfolding and_then
  Ends-keep rest c r (ok v) next k h = rw h (k v)
  Ends-keep rest c r (err e) next k h = λ n. ((h n).0, rw (h n).1 refl)
  Ends-keep rest c r panic next k h = rw h refl

module _ {C R S : Type 0} where
  pub Ends-and_then :
      (middle rest : List ℕ) (c : C) (r : ParseResult C AmlValue R) (x : Result R)
      (next : List ℕ → C → R → ParseResult C AmlValue S) (g : R → Result S)
      → Ends r middle c x
      → ((v : R) → x ≡ ok v → Ends (next middle c v) rest c (g v))
      → Ends (and_then r next) rest c (x >>= g)
  unfolding and_then
  Ends-and_then middle rest c r (ok v) next g h k = rw h (k v refl)
  Ends-and_then middle rest c r (err e) next g h k = λ n. ((h n).0, rw (h n).1 refl)
  Ends-and_then middle rest c r panic next g h k = rw h refl

  -- A pair that is taken apart again.
  Ends-pair :
      {T : Type 0} (t : T) (rest : List ℕ) (c : C) (r : ParseResult C AmlValue R) (x : Result R)
      (next : List ℕ → C → T × R → ParseResult C AmlValue S) (g : R → Result S)
      → Ends r rest c x
      → ((v : R) → x ≡ ok v → Ends (next rest c (t, v)) rest c (g v))
      → Ends
          (and_then (and_then r (λ rest after v. parsed rest after (t, v))) next)
          rest
          c
          (x >>= g)
  unfolding and_then
  Ends-pair t rest c r (ok v) next g h k = rw h (k v refl)
  Ends-pair t rest c r (err e) next g h k = λ n. ((h n).0, rw (h n).1 refl)
  Ends-pair t rest c r panic next g h k = rw h refl

>>=-ok : {R : Type 0} (x : Result R) → (x >>= ok) ≡ x
>>=-ok (ok v) = refl
>>=-ok (err e) = refl
>>=-ok panic = refl

module _ {C R : Type 0} where
  pub Ends-finish :
      (input rest : List ℕ) (c : C) (x : Result R) → Ends (finish input rest (raise x) c) rest c x
  unfolding finish raise
  Ends-finish input rest c (ok v) = refl
  Ends-finish input rest c (err e) = λ n. (input, refl)
  Ends-finish input rest c panic = refl

module _ {W R A : Type 0} where
  -- An action that leaves the context alone.
  pub Ends-then_do :
      (input rest : List ℕ) (c : Context W) (parser : P W R) (f : R → Action W A) (x : Result R)
      (g : R → Result A)
      → ((v : R) → x ≡ ok v → f v c ≡ (g v, c))
      → Ends (parser input c) rest c x
      → Ends (then_do parser f input c) rest c (x >>= g)
  unfolding map_with_context act
  Ends-then_do input rest c parser f x g k h =
      Ends-and_then rest rest c (parser input c) x _ g h
        (λ v e. rw (k v e) (Ends-finish input rest c (g v)))

module _ {W R : Type 0} where
  pub Ends-comment_scope :
      (verbosity : DebugVerbosity) (input rest : List ℕ) (c : Context W) (parser : P W R)
      (x : Result R)
      → leb (discriminant verbosity) 0 ≡ false
      → Ends (parser input (quiet c)) rest (quiet c) x
      → Ends (comment_scope verbosity parser input (quiet c)) rest (quiet c) x
  unfolding comment_scope enter_scope leave_scope is_shown
  Ends-comment_scope verbosity input rest c parser x n h =
      rw n (Ends-keep rest (quiet c) (parser input (quiet c)) x _ (λ v. rw n refl) h)

  pub Ends-after_opcode :
      (code : ℕ) (verbosity : DebugVerbosity) (input rest : List ℕ) (c : Context W) (parser : P W R)
      (x : Result R)
      → leb (discriminant verbosity) 0 ≡ false
      → Ends (parser input (quiet c)) rest (quiet c) x
      → Ends (after_opcode code verbosity parser (code ∷ input) (quiet c)) rest (quiet c) x
  unfolding Parsing.map then_next opcode and_then finish
  Ends-after_opcode code verbosity input rest c parser x n h =
      rw (==_refl code, sym (>>=-ok x))
        (Ends-pair tt rest (quiet c) (comment_scope verbosity parser input (quiet c)) x _ ok
          (Ends-comment_scope verbosity input rest c parser x n h) (λ v e. refl))

module _ {W R A : Type 0} where
  pub Ends-after_opcode_do :
      (code : ℕ) (verbosity : DebugVerbosity) (input rest : List ℕ) (c : Context W) (parser : P W R)
      (f : R → Action W A) (x : Result R) (g : R → Result A)
      → leb (discriminant verbosity) 0 ≡ false
      → ((v : R) → x ≡ ok v → f v (quiet c) ≡ (g v, quiet c))
      → Ends (parser input (quiet c)) rest (quiet c) x
      → Ends
          (after_opcode_do code verbosity parser f (code ∷ input) (quiet c))
          rest
          (quiet c)
          (x >>= g)
  unfolding map_with_context then_next opcode and_then act
  Ends-after_opcode_do code verbosity input rest c parser f x g n k h = rw (==_refl code) (
      Ends-pair tt rest (quiet c) (comment_scope verbosity parser input (quiet c)) x _ g
        (Ends-comment_scope verbosity input rest c parser x n h)
        (λ v e. rw (k v e) (Ends-finish (code ∷ input) rest (quiet c) (g v))))

module _ {W R : Type 0} where
  -- The first alternative of a choice that does not make it go on, inside comments.
  pub Ends-scoped :
      (input rest : List ℕ) (c : Context W) (r : ParseResult (Context W) AmlValue R) (x : Result R)
      (other : Context W → ParseResult (Context W) AmlValue R)
      → Ends r rest (quiet c) x
      → Ends
          (and_then
            (recover input r (λ rest after v. parsed rest after v) other)
            (λ rest after v. parsed rest (leave_scope DebugVerbosity.all_scopes after) v))
          rest
          (quiet c)
          x
  unfolding leave_scope is_shown
  Ends-scoped input rest c r x other h =
      Ends-keep rest (quiet c) (recover input r (λ rest after v. parsed rest after v) other) x _
        (λ v. refl) (Ends-recover input rest (quiet c) r x other h)
