-- ===== src/Prelude/Results.antt =====
-- What a fallible Rust function ends with: `Ok`, `Err`, or a panic (a failed `assert!`, `unwrap`
-- or index, `unimplemented!`, `todo!`). A call that waits for a lock which its own thread holds, or
-- that recurses until the stack is full, does not return either and is a panic too.
use mathlib.Core.Path.{◌≡◌, refl}
use mathlib.Core.Logic.{◌⊎◌, inl, inr}
use mathlib.Core.Bool.{Bool, true, false}

pub data Outcome {ℓ} (E : Type 0) (A : Type ℓ) : Type ℓ where
  ok : A → Outcome E A
  err : E → Outcome E A
  panic : Outcome E A

module _ {ℓ κ} {E : Type 0} {A : Type ℓ} {B : Type κ} where
  infixl 5 ◌>>=◌
  -- The operator `?`, or `and_then`.
  abbrev pub ◌>>=◌ : Outcome E A → (A → Outcome E B) → Outcome E B
  panic >>= next = panic
  err e >>= next = err e
  ok a >>= next = next a

  -- Inversion of a bind that succeeds.
  pub >>=-eq-ok :
      (first : Outcome E A) (next : A → Outcome E B) {b : B}
      → (first >>= next) ≡ ok b
      → (a : A) × (first ≡ ok a) × (next a ≡ ok b)
  >>=-eq-ok panic next e = cc
  >>=-eq-ok (err x) next e = cc
  >>=-eq-ok (ok a) next e = (a, refl, e)

module _ {ℓ} {E : Type 0} {B : Type ℓ} where
  infixl 5 ◌>>◌
  abbrev pub ◌>>◌ : Outcome E (Unit {0}) → Outcome E B → Outcome E B
  first >> second = first >>= λ _. second

  pub Outcome-cases :
      (r : Outcome E B) → ((a : B) × (r ≡ ok a)) ⊎ (((e : E) × (r ≡ err e)) ⊎ (r ≡ panic))
  Outcome-cases (ok a) = inl (a, refl)
  Outcome-cases (err e) = inr (inl (e, refl))
  Outcome-cases panic = inr (inr refl)

-- `assert!`.
abbrev pub assert : {E : Type 0} → Bool → Outcome E (Unit {0})
assert true = ok tt
assert false = panic
