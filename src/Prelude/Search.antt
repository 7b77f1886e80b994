-- ===== src/Prelude/Search.antt =====
-- `Iterator::find`: the first element that passes a test.
use mathlib.Core.Path.{◌≡◌, refl}
use mathlib.Core.Bool.{Bool, true, false}
use acpi_rs.Prelude.{List, [], ◌∷◌, ◌++◌, Option, some, none, if◌then◌else◌}

unfoldable pub find {ℓ} : {A : Type ℓ} → (A → Bool) → List A → Option A
find test [] = none
find test (x ∷ xs) = if test x then some x else find test xs

-- No element passes the test.
abbrev pub NonePass {ℓ} : {A : Type ℓ} → (A → Bool) → List A → Type 0
NonePass test [] = Unit {0}
NonePass test (x ∷ xs) = (test x ≡ false) × NonePass test xs

pub find-first {ℓ} :
    {A : Type ℓ} (test : A → Bool) (front back : List A) (x : A)
    → NonePass test front
    → test x ≡ true
    → find test (front ++ x ∷ back) ≡ some x
unfolding find
find-first test [] back x h e = rw e refl
find-first test (y ∷ ys) back x h e = rw (h.0) (find-first test ys back x h.1 e)

pub find-none {ℓ} :
    {A : Type ℓ} (test : A → Bool) (xs : List A) → NonePass test xs → find test xs ≡ none
unfolding find
find-none test [] h = refl
find-none test (x ∷ xs) h = rw (h.0) (find-none test xs h.1)
