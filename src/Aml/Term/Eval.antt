-- ===== src/Aml/Term/Eval.antt =====
-- aml/src/term_object.rs and expression.rs: the values of trees of expressions, and their code.
use Prim.Native.Nat.{bit_and}
use acpi_rs.Prelude.{
  ℕ, suc, ◌+◌, ◌*◌, ◌/◌, ◌%◌, ◌^◌, ◌<◌, ltb, ◌≡◌, refl, ◌||◌, List, [], ◌∷◌, ◌++◌, ok, err, panic,
  ◌>>=◌, if◌then◌else◌,
}
use acpi_rs.BitField.{BitField}
use acpi_rs.Bytes.{le_bytes}
use acpi_rs.Bytes.Bits.{BitVec}
use acpi_rs.Aml.Types.{Result, invalid_shift_left, invalid_shift_right}
use acpi_rs.Aml.NameString.{Target, null, target}
use acpi_rs.Aml.Value.{AmlValue, integer, boolean, as_bool}
use acpi_rs.Aml.Context.{Handler, Context}
use acpi_rs.Aml.Context.Store.{store, current_arg, local_value}
use acpi_rs.Aml.Context.Regions.{as_integer}
use acpi_rs.Aml.Action.{Action, continue}
use acpi_rs.Aml.Expression.Operations.{on_integers, stored, logical_or}

pub data Operator : Type 0 where
  plus meet shift_up shift_down : Operator

-- Constants of 64 bits, arguments, locals, operators on integers, and the logical or.
pub data Expr : Type 0 where
  constant : ℕ → Expr
  argument variable : ℕ → Expr
  binary : Operator → Expr → Expr → Expr
  either : Expr → Expr → Expr

unfoldable pub code_of : Operator → ℕ
code_of plus = 0x72
code_of meet = 0x7b
code_of shift_up = 0x79
code_of shift_down = 0x7a

-- Operators on integers have a null target.
unfoldable pub expr_bytes : Expr → List ℕ
unfolding code_of
expr_bytes (constant n) = 0x0e ∷ le_bytes 8 n
expr_bytes (argument n) = (0x68 + n) ∷ []
expr_bytes (variable n) = (0x60 + n) ∷ []
expr_bytes (binary op l r) = code_of op ∷ expr_bytes l ++ expr_bytes r ++ 0x00 ∷ []
expr_bytes (either l r) = 0x91 ∷ expr_bytes l ++ expr_bytes r

-- Numbers that their code can hold.
abbrev pub IsWritten : Expr → Type 0
IsWritten (constant n) = n < 2 ^ 64
IsWritten (argument n) = n < 7
IsWritten (variable n) = n < 8
IsWritten (binary op l r) = IsWritten l × IsWritten r
IsWritten (either l r) = IsWritten l × IsWritten r

unfoldable pub depth : Expr → ℕ
depth (binary op l r) = suc (depth l + depth r)
depth (either l r) = suc (depth l + depth r)
depth _ = 0

unfoldable pub compute : Operator → ℕ → ℕ → Result ℕ
compute plus x y = ok ((x + y) % 2 ^ 64)
compute meet x y = ok (bit_and x y)
compute shift_up x y = if ltb y 64 then ok (x * 2 ^ y % 2 ^ 64) else err invalid_shift_left
compute shift_down x y = if ltb y 64 then ok (x / 2 ^ y) else err invalid_shift_right

-- The operands are evaluated from left to right, and the first error is the result.
abbrev pub both : Result AmlValue → Result AmlValue → Result (AmlValue × AmlValue)
both first second = first >>= λ a. second >>= λ b. ok (a, b)

abbrev pub disjunction : AmlValue × AmlValue → Result AmlValue
disjunction (a, b) = as_bool a >>= λ x. as_bool b >>= λ y. ok (boolean (x || y))

module _ {W : Type 0} ⦃bits : BitField⦄ ⦃bv : BitVec⦄ ⦃h : Handler W⦄ where
  abbrev pub on_numbers : (ℕ → ℕ → Result ℕ) → Context W → AmlValue × AmlValue → Result AmlValue
  on_numbers f c (a, b) =
      as_integer c a >>= λ x. as_integer c b >>= λ y. f x y >>= λ n. ok (integer n)

  unfoldable pub eval : Context W → Expr → Result AmlValue
  unfolding compute
  eval c (constant n) = ok (integer n)
  eval c (argument n) = current_arg c n
  eval c (variable n) = local_value c n
  eval c (binary op l r) =
      let first = eval c l in
      let second = eval c r in both first second >>= on_numbers (compute op) c
  eval c (either l r) =
      let first = eval c l in let second = eval c r in both first second >>= disjunction

-- An action that leaves the context alone, after another.
continue_lem :
    {W A B : Type 0} (c : Context W) (r : Result A) (k : A → Action W B) (g : A → Result B)
    → ((a : A) → k a c ≡ (g a, c))
    → continue (r, c) k ≡ (r >>= g, c)
continue_lem c (ok a) k g h = h a
continue_lem c (err e) k g h = refl
continue_lem c panic k g h = refl

module _ {W : Type 0} ⦃bits : BitField⦄ ⦃bv : BitVec⦄ ⦃h : Handler W⦄ where
  pub on_integers_lem :
      (f : ℕ → ℕ → Result ℕ) (c : Context W) (p : AmlValue × AmlValue) (target : Target)
      → target ≡ null
      → on_integers f (p, target) c ≡ (on_numbers f c p, c)
  unfolding on_integers stored store
  on_integers_lem f c (a, b) target e = rw e (
      continue_lem c (as_integer c a) _ _
        (λ x. continue_lem c (as_integer c b) _ _ (λ y. continue_lem c (f x y) _ _ (λ n. refl))))

  pub logical_or_lem :
      (c : Context W) (p : AmlValue × AmlValue) → logical_or p c ≡ (disjunction p, c)
  unfolding logical_or
  logical_or_lem c (a, b) =
      continue_lem c (as_bool a) _ _ (λ x. continue_lem c (as_bool b) _ _ (λ y. refl))
