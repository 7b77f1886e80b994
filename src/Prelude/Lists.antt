-- ===== src/Prelude/Lists.antt =====
-- Lists measured and indexed by native numbers, under the library's names, and a `Vec` used as a
-- stack at its end.
use Prim.Native.Nat.{ℕ, zero, suc, ◌+◌, ◌-◌, ◌≤◌, ◌<◌, min}
use mathlib.Core.Path.{◌≡◌, refl, sym, ap, ◌∙◌}
use mathlib.Core.Logic.{◌≢◌}
use mathlib.Core.List.{List, [], ◌∷◌, ◌++◌, map}
use mathlib.Core.Option.{Option, none, some}
use native.Mathlib.Omega.{arith}

module _ {ℓ} {A : Type ℓ} where
  abbrev pub length : List A → ℕ
  length [] = 0
  length (x ∷ xs) = suc (length xs)

  abbrev pub get_elem? : List A → ℕ → Option A
  get_elem? [] i = none
  get_elem? (x ∷ xs) zero = some x
  get_elem? (x ∷ xs) (suc i) = get_elem? xs i

  abbrev pub get_or : List A → ℕ → A → A
  get_or [] i d = d
  get_or (x ∷ xs) zero d = x
  get_or (x ∷ xs) (suc i) d = get_or xs i d

  -- A write out of bounds changes nothing.
  abbrev pub set : List A → ℕ → A → List A
  set [] i v = []
  set (x ∷ xs) zero v = v ∷ xs
  set (x ∷ xs) (suc i) v = x ∷ set xs i v

  abbrev pub take : ℕ → List A → List A
  take zero xs = []
  take (suc n) [] = []
  take (suc n) (x ∷ xs) = x ∷ take n xs

  abbrev pub drop : ℕ → List A → List A
  drop zero xs = xs
  drop (suc n) [] = []
  drop (suc n) (x ∷ xs) = drop n xs

  abbrev pub replicate : ℕ → A → List A
  replicate zero a = []
  replicate (suc n) a = a ∷ replicate n a

  -- `Vec::last`.
  abbrev pub get_last? : List A → Option A
  get_last? [] = none
  get_last? (x ∷ []) = some x
  get_last? (x ∷ y ∷ xs) = get_last? (y ∷ xs)

  -- `Vec::pop`, the elements that stay.
  abbrev pub drop_last : List A → List A
  drop_last [] = []
  drop_last (x ∷ []) = []
  drop_last (x ∷ y ∷ xs) = x ∷ drop_last (y ∷ xs)

module _ {ℓ} {A : Type ℓ} where
  pub length-append : (xs ys : List A) → length (xs ++ ys) ≡ length xs + length ys
  length-append [] ys = omega arith
  length-append (x ∷ xs) ys = omega (arith, length-append xs ys)

  pub length-take : (n : ℕ) (xs : List A) → length (take n xs) ≡ min n (length xs)
  length-take zero xs = omega arith
  length-take (suc n) [] = omega arith
  length-take (suc n) (x ∷ xs) = omega (arith, length-take n xs)

  pub length-drop : (n : ℕ) (xs : List A) → length (drop n xs) ≡ length xs - n
  length-drop zero xs = omega arith
  length-drop (suc n) [] = omega arith
  length-drop (suc n) (x ∷ xs) = omega (arith, length-drop n xs)

  pub take-append-drop : (n : ℕ) (xs : List A) → take n xs ++ drop n xs ≡ xs
  take-append-drop zero xs = refl
  take-append-drop (suc n) [] = refl
  take-append-drop (suc n) (x ∷ xs) = rw (take-append-drop n xs)

  pub take-append_length : (xs ys : List A) → take (length xs) (xs ++ ys) ≡ xs
  take-append_length [] ys = refl
  take-append_length (x ∷ xs) ys = ap (λ t. x ∷ t) (take-append_length xs ys)

  pub drop-append_length : (xs ys : List A) → drop (length xs) (xs ++ ys) ≡ ys
  drop-append_length [] ys = refl
  drop-append_length (x ∷ xs) ys = drop-append_length xs ys

  pub length-map {κ} : {B : Type κ} (xs : List A) (f : A → B) → length (map f xs) ≡ length xs
  length-map [] f = refl
  length-map (x ∷ xs) f = ap suc (length-map xs f)

  pub length-drop_last : (xs : List A) → length (drop_last xs) ≡ length xs - 1
  length-drop_last [] = omega arith
  length-drop_last (x ∷ []) = omega arith
  length-drop_last (x ∷ y ∷ xs) = omega (arith, length-drop_last (y ∷ xs))

  pub length-set : (xs : List A) (i : ℕ) (v : A) → length (set xs i v) ≡ length xs
  length-set [] i v = refl
  length-set (x ∷ xs) zero v = refl
  length-set (x ∷ xs) (suc i) v = ap suc (length-set xs i v)

  pub length-replicate : (n : ℕ) (a : A) → length (replicate n a) ≡ n
  length-replicate zero a = refl
  length-replicate (suc n) a = ap suc (length-replicate n a)

  pub get_elem?-outside : (xs : List A) (i : ℕ) → length xs ≤ i → get_elem? xs i ≡ none
  get_elem?-outside [] i h = refl
  get_elem?-outside (x ∷ xs) zero h = absurd (omega (arith, h))
  get_elem?-outside (x ∷ xs) (suc i) h = get_elem?-outside xs i (omega (arith, h))

  pub get_elem?-set_self :
      (xs : List A) (i : ℕ) (v : A) → i < length xs → get_elem? (set xs i v) i ≡ some v
  get_elem?-set_self [] i v h = elim h [ ]
  get_elem?-set_self (x ∷ xs) zero v h = refl
  get_elem?-set_self (x ∷ xs) (suc i) v h = get_elem?-set_self xs i v (omega (arith, h))

  pub get_elem?-set_ne :
      (xs : List A) (i j : ℕ) (v : A) → j ≢ i → get_elem? (set xs i v) j ≡ get_elem? xs j
  get_elem?-set_ne [] i j v h = refl
  get_elem?-set_ne (x ∷ xs) zero zero v h = absurd (h refl)
  get_elem?-set_ne (x ∷ xs) zero (suc j) v h = refl
  get_elem?-set_ne (x ∷ xs) (suc i) zero v h = refl
  get_elem?-set_ne (x ∷ xs) (suc i) (suc j) v h = get_elem?-set_ne xs i j v (λ e. h (ap suc e))

  pub get_last?-push : (xs : List A) (a : A) → get_last? (xs ++ a ∷ []) ≡ some a
  get_last?-push [] a = refl
  get_last?-push (x ∷ []) a = refl
  get_last?-push (x ∷ y ∷ xs) a = get_last?-push (y ∷ xs) a

  pub drop_last-push : (xs : List A) (a : A) → drop_last (xs ++ a ∷ []) ≡ xs
  drop_last-push [] a = refl
  drop_last-push (x ∷ []) a = refl
  drop_last-push (x ∷ y ∷ xs) a = ap (λ t. x ∷ t) (drop_last-push (y ∷ xs) a)

  pub take-append_eq : (n : ℕ) (xs ys : List A) → length xs ≡ n → take n (xs ++ ys) ≡ xs
  take-append_eq n xs ys h = ap (λ m. take m (xs ++ ys)) (sym h) ∙ take-append_length xs ys

  pub drop-append_eq : (n : ℕ) (xs ys : List A) → length xs ≡ n → drop n (xs ++ ys) ≡ ys
  drop-append_eq n xs ys h = ap (λ m. drop m (xs ++ ys)) (sym h) ∙ drop-append_length xs ys

  -- A part of a list that lies in its front.
  pub take-drop-append :
      (lo n : ℕ) (xs ys : List A)
      → lo + n ≤ length xs
      → take n (drop lo (xs ++ ys)) ≡ take n (drop lo xs)
  take-drop-append zero zero xs ys h = refl
  take-drop-append zero (suc n) [] ys h = absurd (omega (arith, h))
  take-drop-append zero (suc n) (x ∷ xs) ys h =
      ap (λ t. x ∷ t) (take-drop-append zero n xs ys (omega (arith, h)))
  take-drop-append (suc lo) n [] ys h = absurd (omega (arith, h))
  take-drop-append (suc lo) n (x ∷ xs) ys h = take-drop-append lo n xs ys (omega (arith, h))

  -- What is left behind a front.
  pub drop-append_beyond :
      (n : ℕ) (xs ys : List A) → length xs ≤ n → drop n (xs ++ ys) ≡ drop (n - length xs) ys
  drop-append_beyond n [] ys h = ap (λ m. drop m ys) (omega arith)
  drop-append_beyond zero (x ∷ xs) ys h = absurd (omega (arith, h))
  drop-append_beyond (suc n) (x ∷ xs) ys h =
      drop-append_beyond n xs ys (omega (arith, h)) ∙ ap (λ m. drop m ys) (omega arith)
