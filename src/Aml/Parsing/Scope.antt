-- ===== src/Aml/Parsing/Scope.antt =====
-- aml/src/parser.rs: `comment_scope`, and the part of `AmlContext` (aml/src/lib.rs) that it uses.
use acpi_rs.Prelude.{
  ℕ, ◌+◌, ◌-◌, ◌%◌, ◌^◌, ◌<◌, leb, ◌≡◌, refl, Bool, if◌then◌else◌, arith, Bool-cases, inl, inr,
}
use acpi_rs.Aml.Parsing.{parsed, Parser, and_then}
use acpi_rs.Aml.Parsing.Progress.{IsAdvancing, Reaches-refl, and_then-Progress, Progress-weaken}

-- `DebugVerbosity`, which is ordered by its discriminants.
pub data DebugVerbosity : Type 0 where
  none scopes all_scopes all : DebugVerbosity

abbrev pub discriminant : DebugVerbosity → ℕ
discriminant DebugVerbosity.none = 0
discriminant DebugVerbosity.scopes = 1
discriminant DebugVerbosity.all_scopes = 2
discriminant DebugVerbosity.all = 3

-- The fields of `AmlContext` that comments use: reads, and the write of the indentation.
pub record DebugContext (C : Type 0) : Type 0 where
  pub debug_verbosity : C → DebugVerbosity
  pub scope_indent : C → ℕ
  pub set_scope_indent : ℕ → C → C
  pub debug_verbosity-set :
      (n : ℕ) (c : C) → debug_verbosity (set_scope_indent n c) ≡ debug_verbosity c
  pub scope_indent-set : (n : ℕ) (c : C) → scope_indent (set_scope_indent n c) ≡ n
  pub set-set : (m n : ℕ) (c : C) → set_scope_indent m (set_scope_indent n c) ≡ set_scope_indent m c
  pub set-scope_indent : (c : C) → set_scope_indent (scope_indent c) c ≡ c

module _ {C : Type 0} ⦃d : DebugContext C⦄ where
  -- `verbosity <= context.debug_verbosity`.
  unfoldable pub is_shown : DebugVerbosity → C → Bool
  is_shown verbosity context =
      leb (discriminant verbosity) (discriminant (d.debug_verbosity context))

  unfoldable pub enter_scope : DebugVerbosity → C → C
  unfolding is_shown
  enter_scope verbosity context =
      if is_shown verbosity context
      then d.set_scope_indent ((d.scope_indent context + 2) % 2 ^ 64) context
      else context

  unfoldable pub leave_scope : DebugVerbosity → C → C
  unfolding is_shown
  leave_scope verbosity context =
      if is_shown verbosity context
      then d.set_scope_indent ((d.scope_indent context + 2 ^ 64 - 2) % 2 ^ 64) context
      else context

  -- `comment_scope`: the indentation is not taken back where the parser fails.
  unfoldable pub comment_scope : {V R : Type 0} → DebugVerbosity → Parser C V R → Parser C V R
  comment_scope verbosity parser input context =
      and_then (parser input (enter_scope verbosity context))
        (λ rest after r. parsed rest (leave_scope verbosity after) r)

  -- Leaving a scope undoes entering it, if the indentation is below 2^64.
  pub leave-enter :
      (v : DebugVerbosity) (c : C) → d.scope_indent c < 2 ^ 64 → leave_scope v (enter_scope v c) ≡ c
  unfolding enter_scope leave_scope is_shown
  leave-enter v c h =
      elim (Bool-cases (leb (discriminant v) (discriminant (d.debug_verbosity c)))) [
        | inl e ↦
            let back : ((d.scope_indent c + 2) % 2 ^ 64 + 2 ^ 64 - 2) % 2 ^ 64 ≡ d.scope_indent c =
              omega (arith, h) in
            rw e (
              rw (d.debug_verbosity-set _ c) (
                rw e (
                  rw (d.scope_indent-set _ c)
                    (rw (d.set-set _ _ c) (rw back (d.set-scope_indent c))))))
        | inr e ↦ rw e (rw e refl)
      ]

  pub comment_scope-IsAdvancing :
      {V R : Type 0} (v : DebugVerbosity) (n : ℕ) (p : Parser C V R)
      → IsAdvancing n p
      → IsAdvancing n (comment_scope v p)
  unfolding comment_scope
  comment_scope-IsAdvancing v n p h input context =
      Progress-weaken n (n + 0) input _ (omega arith) (
        and_then-Progress n 0 input (p input (enter_scope v context)) _
          (h input (enter_scope v context)) (λ rest after r. Reaches-refl rest))
