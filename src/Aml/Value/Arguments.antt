-- ===== src/Aml/Value/Arguments.antt =====
-- aml/src/value.rs: `Args`, the seven slots for the arguments of a control method.
use acpi_rs.Prelude.{
  ℕ, zero, suc, ◌+◌, ◌-◌, ◌<◌, ◌≤◌, ltb, ◌==◌, ◌≡◌, refl, ◌∙◌, ap, true, false, List, [], ◌∷◌, ◌++◌,
  map, length, get_elem?, replicate, length-append, length-map, length-replicate, set, length-set,
  get_elem?-outside, get_elem?-set_self, get_elem?-set_ne, Bool-cases, inl, inr, ok, err, panic,
  ◌>>=◌, Option, some, none, if◌then◌else◌, arith, ◌≢◌, ltb→lt, lt→ltb,
}
use acpi_rs.Aml.Types.{AmlError, Result, too_many_args, invalid_arg_access}
use acpi_rs.Aml.Value.{AmlValue}

-- The array of a fixed length, of options of values.
abbrev pub Slots : Type 0
Slots = List (Option AmlValue)

-- `Args::EMPTY`.
abbrev pub no_args : Slots
no_args = replicate 7 none

-- `try_into().unwrap()` to an array of seven.
unfoldable pub to_array : Slots → Result Slots
to_array slots = if length slots == 7 then ok slots else panic

-- `Args::from_list`.
unfoldable pub from_list : List AmlValue → Result Slots
unfolding to_array
from_list list =
    if ltb 7 (length list)
    then err too_many_args
    else to_array (map some list ++ replicate (7 - length (map some list)) none)

-- `slots[i]` behind a reference, which panics out of bounds.
unfoldable pub slot_at : Slots → ℕ → Result (Option AmlValue)
slot_at slots i = elim (get_elem? slots i) [ some slot ↦ ok slot | none ↦ panic ]

-- `slots[i] = Some(value)`.
unfoldable pub set_slot : Slots → ℕ → AmlValue → Result Slots
set_slot [] i v = panic
set_slot (s ∷ ss) zero v = ok (some v ∷ ss)
set_slot (s ∷ ss) (suc i) v = set_slot ss i v >>= λ ss'. ok (s ∷ ss')

-- `as_ref().ok_or(e)`.
abbrev pub ok_or {ℓ} : {A : Type ℓ} → AmlError → Option A → Result A
ok_or e none = err e
ok_or e (some a) = ok a

-- `Args::arg`.
unfoldable pub arg : Slots → ℕ → Result AmlValue
arg slots n =
    if ltb 6 n
    then err (invalid_arg_access n)
    else (slot_at slots n >>= λ slot. ok_or (invalid_arg_access n) slot)

-- `Args::store_arg`.
unfoldable pub store_arg : Slots → ℕ → AmlValue → Result Slots
store_arg slots n value = if ltb 6 n then err (invalid_arg_access n) else set_slot slots n value

set_slot_lem :
    (slots : Slots) (i : ℕ) (v : AmlValue)
    → i < length slots
    → set_slot slots i v ≡ ok (set slots i (some v))
unfolding set_slot
set_slot_lem [] i v h = elim h [ ]
set_slot_lem (s ∷ ss) zero v h = refl
set_slot_lem (s ∷ ss) (suc i) v h = rw (set_slot_lem ss i v (omega (arith, h))) refl

slot_at-given :
    (vs : List AmlValue) (n i : ℕ)
    → i < length vs + n
    → slot_at (map some vs ++ replicate n none) i ≡ ok (get_elem? vs i)
unfolding slot_at
slot_at-given [] zero i h = absurd (omega (arith, h))
slot_at-given [] (suc n) zero h = refl
slot_at-given [] (suc n) (suc i) h = slot_at-given [] n i (omega (arith, h))
slot_at-given (v ∷ vs) n zero h = refl
slot_at-given (v ∷ vs) n (suc i) h = slot_at-given vs n i (omega (arith, h))

module _ (vs : List AmlValue) (few : length vs ≤ 7) where
  padded : Slots
  padded = map some vs ++ replicate (7 - length (map some vs)) none

  length-padded : length padded ≡ 7
  unfolding padded
  length-padded = omega (
    arith,
    few,
    length-append (map some vs) (replicate (7 - length (map some vs)) none),
    length-map vs some,
    none_left (7 - length (map some vs)),
  )
    where
      none_left : (n : ℕ) → length (replicate n (let e : Option AmlValue = none in e)) ≡ n
      none_left n = length-replicate n none

  from_list-padded : from_list vs ≡ ok padded
  unfolding from_list padded
  from_list-padded =
      let test : ltb 7 (length vs) ≡ false = ground (arith, few) in
      rw test (rw (length-padded, to_array) refl)

  arg-padded : (i : ℕ) → arg padded i ≡ ok_or (invalid_arg_access i) (get_elem? vs i)
  unfolding arg padded
  arg-padded i = elim (Bool-cases (ltb 6 i)) [
    | inl e ↦ rw e (rw (get_elem?-outside vs i (omega (arith, few, ltb→lt 6 i e))) refl)
    | inr e ↦
        let inside : i < length vs + (7 - length (map some vs)) =
          omega (arith, few, length-map vs some, not-lt i e) in
        rw e (rw (slot_at-given vs (7 - length (map some vs)) i inside) refl)
  ]
    where
      not-lt : (i : ℕ) → ltb 6 i ≡ false → i < 7
      not-lt i e = ground arith

-- A list of at most seven values makes seven slots: reading a slot gives the value at its place in
-- the list, and fails with InvalidArgAccess for every number beyond the list. A longer list fails
-- with TooManyArgs.
pub arg-from_list :
    (vs ws : List AmlValue) (i : ℕ)
    → length vs ≤ 7
    → 7 < length ws
    → (args : Slots) × (from_list vs ≡ ok args)
      × (length args ≡ 7)
      × (arg args i ≡ ok_or (invalid_arg_access i) (get_elem? vs i))
      × (from_list ws ≡ err too_many_args)
unfolding from_list
arg-from_list vs ws i few many =
    let test : ltb 7 (length ws) ≡ true = lt→ltb 7 (length ws) many in
    (
      padded vs few,
      from_list-padded vs few,
      length-padded vs few,
      arg-padded vs few i,
      rw test refl,
    )

-- A store into one of seven slots succeeds; that slot then holds the value, and every other number
-- reads as it did.
pub arg-store_arg :
    (args : Slots) (i : ℕ) (v : AmlValue)
    → length args ≡ 7
    → i ≤ 6
    → (args' : Slots) × (store_arg args i v ≡ ok args')
      × (length args' ≡ 7)
      × (arg args' i ≡ ok v)
      × ((j : ℕ) → j ≢ i → arg args' j ≡ arg args j)
unfolding store_arg arg slot_at
arg-store_arg args i v len le =
    let test : ltb 6 i ≡ false = ground (arith, le) in
    let inside : i < length args = omega (arith, len, le) in
    (
      set args i (some v),
      rw test (set_slot_lem args i v inside),
      length-set args i (some v) ∙ len,
      rw test (rw (get_elem?-set_self args i (some v) inside, slot_at) refl),
      λ j ne. ap (λ slot. reading j slot) (get_elem?-set_ne args i j (some v) ne),
    )
  where
    reading : ℕ → Option (Option AmlValue) → Result AmlValue
    reading j found =
        if ltb 6 j
        then err (invalid_arg_access j)
        else (elim found [ some slot ↦ ok slot | none ↦ panic ] >>= λ slot.
            ok_or (invalid_arg_access j) slot)
