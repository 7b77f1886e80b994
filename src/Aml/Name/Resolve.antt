-- ===== src/Aml/Name/Resolve.antt =====
-- aml/src/namespace.rs: what `normalize`, `resolve` and `parent` of `AmlName` promise one another.
use acpi_rs.Prelude.{
  ℕ, zero, suc, ◌≡◌, refl, sym, ◌∙◌, ap, ◌↔◌, inl, inr, true, false, ◌&&◌, [], ◌∷◌, ◌++◌,
  append_assoc, Option, some, none, ok, get_last?-push, drop_last-push, Option-cases, arith,
}
use acpi_rs.Aml.Types.{NameSeg, NameComponent, root, prefix, segment, AmlName}
use acpi_rs.Aml.Name.{is_normal, is_absolute, normalize, resolve, parent, parent_of, from_name_seg}
use acpi_rs.Aml.Name.Cancel.{cancel, cancel_onto, cancel_step, cancelled, normalize-cancel}

cancel_step-is_normal :
    (c : NameComponent) (k : ℕ) (r : AmlName) {m : ℕ} {q : AmlName}
    → is_normal r ≡ true
    → cancel_step c (k, r) ≡ some (m, q)
    → is_normal q ≡ true
unfolding cancel_step is_normal
cancel_step-is_normal prefix k r h e = ground arith
cancel_step-is_normal (segment s) zero r h e = ground arith
cancel_step-is_normal (segment s) (suc k) r h e = ground arith
cancel_step-is_normal root zero r h e = ground arith
cancel_step-is_normal root (suc k) r h e = ground arith

not_none : {k : ℕ} {r : AmlName} → ¬ (◌≡◌ {A = Option (ℕ × AmlName)} (some (k, r)) none)
not_none e = cc

-- What a cancellation keeps has no prefix.
cancel-kept : (p : AmlName) {k : ℕ} {r : AmlName} → cancel p ≡ some (k, r) → is_normal r ≡ true
unfolding cancel cancel_onto is_normal
cancel-kept [] e = ground arith
cancel-kept (c ∷ cs) e = elim (Option-cases (cancel cs)) [
  | inl stuck ↦ absurd (not_none (sym e ∙ ap (cancel_onto c) stuck))
  | inr ((m, t), kept) ↦
      cancel_step-is_normal c m t (cancel-kept cs kept) (ap (cancel_onto c) (sym kept) ∙ e)
]

cancelled-ok :
    (p : AmlName) (o : Option (ℕ × AmlName)) {q : AmlName}
    → cancelled p o ≡ ok q
    → o ≡ some (zero, q)
unfolding cancelled
cancelled-ok p none e = cc
cancelled-ok p (some (zero, r)) e = ground arith
cancelled-ok p (some (suc k, r)) e = cc

normalize_kept : (p : AmlName) {q : AmlName} → normalize p ≡ ok q → cancel p ≡ some (zero, q)
normalize_kept p e = cancelled-ok p (cancel p) (sym (normalize-cancel p) ∙ e)

-- A path that `normalize` returns is normal, and normalizing it again changes nothing.
pub normalize-is_normal :
    (p q : AmlName) → normalize p ≡ ok q → (is_normal q ≡ true) × (normalize q ≡ ok q)
unfolding normalize
normalize-is_normal p q e = let normal = cancel-kept p (normalize_kept p e) in (normal, rw normal)

cancel-append : (xs ys zs : AmlName) → cancel ys ≡ cancel zs → cancel (xs ++ ys) ≡ cancel (xs ++ zs)
unfolding cancel
cancel-append [] ys zs e = e
cancel-append (x ∷ xs) ys zs e = ap (cancel_onto x) (cancel-append xs ys zs e)

is_normal-append : (xs ys : AmlName) → is_normal (xs ++ ys) ≡ (is_normal xs && is_normal ys)
unfolding is_normal
is_normal-append [] ys = refl
is_normal-append (prefix ∷ xs) ys = refl
is_normal-append (root ∷ xs) ys = is_normal-append xs ys
is_normal-append (segment s ∷ xs) ys = is_normal-append xs ys

is_absolute-append : (xs ys : AmlName) → is_absolute xs ≡ true → is_absolute (xs ++ ys) ≡ true
unfolding is_absolute
is_absolute-append [] ys h = cc
is_absolute-append (root ∷ xs) ys h = refl
is_absolute-append (prefix ∷ xs) ys h = cc
is_absolute-append (segment s ∷ xs) ys h = cc

onto_root-is_absolute :
    (o : Option (ℕ × AmlName)) {k : ℕ} {q : AmlName}
    → cancel_onto root o ≡ some (k, q)
    → is_absolute q ≡ true
unfolding is_absolute cancel_onto cancel_step
onto_root-is_absolute none e = cc
onto_root-is_absolute (some (zero, r)) e = ground arith
onto_root-is_absolute (some (suc k, r)) e = cc

cancel-is_absolute :
    (p : AmlName) {k : ℕ} {q : AmlName}
    → is_absolute p ≡ true
    → cancel p ≡ some (k, q)
    → is_absolute q ≡ true
unfolding is_absolute cancel
cancel-is_absolute [] h e = cc
cancel-is_absolute (prefix ∷ cs) h e = cc
cancel-is_absolute (segment s ∷ cs) h e = cc
cancel-is_absolute (root ∷ cs) h e = onto_root-is_absolute (cancel cs) e

resolve_relative :
    (p scope : AmlName)
    → is_absolute scope ≡ true
    → is_absolute p ≡ false
    → resolve p scope ≡ normalize (scope ++ p)
unfolding resolve
resolve_relative p scope a r = rw (a, r)

-- In an absolute scope, a path that is not absolute resolves to an absolute, normal path whenever
-- it resolves at all.
pub resolve-is_absolute :
    (p scope q : AmlName)
    → is_absolute scope ≡ true
    → is_absolute p ≡ false
    → resolve p scope ≡ ok q
    → (is_absolute q ≡ true) × (is_normal q ≡ true)
resolve-is_absolute p scope q a r e =
    let found = sym (resolve_relative p scope a r) ∙ e in
    let kept = normalize_kept (scope ++ p) found in
    (
      cancel-is_absolute (scope ++ p) (is_absolute-append scope p a) kept,
      (normalize-is_normal (scope ++ p) q found).0,
    )

-- A segment resolved in a normal absolute scope is that scope with the segment at its end, and the
-- parent of the result is the scope again.
pub parent-resolve :
    (s : NameSeg) (scope : AmlName)
    → is_absolute scope ≡ true
    → is_normal scope ≡ true
    → (resolve (from_name_seg s) scope ≡ ok (scope ++ segment s ∷ []))
      × (parent (scope ++ segment s ∷ []) ≡ ok scope)
unfolding normalize parent parent_of is_normal
parent-resolve s scope a n =
    let normal : is_normal (scope ++ segment s ∷ []) ≡ true =
      rw (is_normal-append scope (segment s ∷ []), n) in
    (
      resolve_relative (segment s ∷ []) scope a (unfold is_absolute in refl) ∙ rw normal,
      rw (normal, get_last?-push scope (segment s), drop_last-push scope (segment s)),
    )

struck :
    (s : NameSeg) (o : Option (ℕ × AmlName)) → cancel_onto (segment s) (cancel_onto prefix o) ≡ o
unfolding cancel_onto cancel_step
struck s none = refl
struck s (some (k, r)) = refl

cancel-struck :
    (p scope : AmlName) (s : NameSeg)
    → cancel ((scope ++ segment s ∷ []) ++ prefix ∷ p) ≡ cancel (scope ++ p)
unfolding cancel
cancel-struck p scope s =
    rw (append_assoc scope (segment s ∷ []) (prefix ∷ p))
      (cancel-append scope (segment s ∷ prefix ∷ p) p (struck s (cancel p)))

normalize_of_kept : (p : AmlName) {q : AmlName} → cancel p ≡ some (zero, q) → normalize p ≡ ok q
unfolding cancelled
normalize_of_kept p e = rw (normalize-cancel p, e)

-- A prefix leads to the parent: in a scope whose last component is a segment, a relative path
-- behind a prefix resolves to `q` exactly when the path itself does so in the scope above.
pub resolve-prefix :
    (p scope : AmlName) (s : NameSeg) (q : AmlName)
    → is_absolute scope ≡ true
    → is_absolute p ≡ false
    → (resolve (prefix ∷ p) (scope ++ segment s ∷ []) ≡ ok q) ↔ (resolve p scope ≡ ok q)
resolve-prefix p scope s q a r =
    let below =
      resolve_relative (prefix ∷ p) (scope ++ segment s ∷ [])
        (is_absolute-append scope (segment s ∷ []) a) (unfold is_absolute in refl) in
    let above = resolve_relative p scope a r in
    let same = cancel-struck p scope s in
    (
      λ e. above ∙ normalize_of_kept _ (sym same ∙ normalize_kept _ (sym below ∙ e)),
      λ e. below ∙ normalize_of_kept _ (same ∙ normalize_kept _ (sym above ∙ e)),
    )
