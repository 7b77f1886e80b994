-- ===== src/Aml/Term/Branches.antt =====
-- aml/src/statement.rs: an `If` without an `Else`.
use acpi_rs.Prelude.{
  ℕ, ◌+◌, ◌^◌, ◌<◌, ◌≤◌, ◌==◌, if◌then◌else◌, Bool, false, ◌≡◌, refl, ap, sym, subst, List, [], ◌∷◌,
  ◌++◌, append-nil, append_assoc, length, length-append, ok, arith,
}
use acpi_rs.BitField.{BitField}
use acpi_rs.Bytes.Bits.{BitVec}
use acpi_rs.Aml.Types.{Result, unexpected_end_of_stream}
use acpi_rs.Aml.Parsing
use acpi_rs.Aml.Parsing.{
  ParseResult, PkgLength, parsed, failed, failure, and_then, choice, recover, then_next, feed,
  finish, take_to_end_of_pkglength,
}
use acpi_rs.Aml.Parsing.Scope.{DebugVerbosity, comment_scope, enter_scope, leave_scope, is_shown}
use acpi_rs.Aml.PkgLength.{pkg_length}
use acpi_rs.Aml.PkgLength.Encode.{
  Width, w0, w1, w2, w3, limit, length-pkg_bytes, pkg_bytes, pkg_length-pkg_bytes,
  take_to_end-append,
}
use acpi_rs.Aml.Opcode.{opcode}
use acpi_rs.Aml.Value.{AmlValue, as_bool}
use acpi_rs.Aml.Context.{Handler, Context, context_debug}
use acpi_rs.Aml.Action.{P, raise, then_parse, finish_parse}
use acpi_rs.Aml.Statement.{def_if_else, else_branch, run_whole}
use acpi_rs.Aml.Term.{Terms, terms}
use acpi_rs.Aml.Term.Outcomes.{quiet, Ends}
use acpi_rs.Aml.Term.Eval.{Expr, IsWritten, depth, expr_bytes, eval}
use acpi_rs.Aml.Term.Evaluate.{terms-Ends}

limit-le : (w : Width) → limit w ≤ 2 ^ 28
limit-le w0 = omega arith
limit-le w1 = omega arith
limit-le w2 = omega arith
limit-le w3 = omega arith

-- An object that ends its stream.
module _ {C : Type 0} ⦃bits : BitField⦄ (w : Width) (body : List ℕ) (c : C) where
  last_length :
      length (pkg_bytes w 0) + length body < limit w
      → pkg_length {V = AmlValue} (pkg_bytes w (length (pkg_bytes w 0) + length body) ++ body) c
        ≡ parsed body c
            (record { raw_length = length (pkg_bytes w 0) + length body; end_offset = 0 })
  last_length small =
      let raw : ℕ = length (pkg_bytes w 0) + length body in
      let fits : length (pkg_bytes w raw ++ (body ++ [])) < 2 ^ 32 = omega (
        arith,
        small,
        limit-le w,
        length-pkg_bytes w raw,
        length-append (pkg_bytes w raw) (body ++ []),
        length-append body [],
      ) in
      subst
        (λ s.
          pkg_length {V = AmlValue} (pkg_bytes w raw ++ s) c
          ≡ parsed s c (record { raw_length = raw; end_offset = 0 }))
        (append-nil body) (pkg_length-pkg_bytes w body [] c small fits)

  last_body :
      (raw : ℕ)
      → length body < 2 ^ 28
      → take_to_end_of_pkglength {V = AmlValue} (record { raw_length = raw; end_offset = 0 }) body c
        ≡ parsed [] c body
  last_body raw small =
      subst
        (λ s.
          take_to_end_of_pkglength {V = AmlValue} (record { raw_length = raw; end_offset = 0 }) s c
          ≡ parsed [] c body)
        (append-nil body)
        (take_to_end-append body [] raw c (omega (arith, small, length-append body [])))

module _ {W : Type 0} ⦃bits : BitField⦄ (term_arg : P W AmlValue)
    (term_list : PkgLength → P W (Unit {0})) where
  if_at_end :
      (c : Context W) (input xs branch : List ℕ) (l : PkgLength) (v : AmlValue) (b : Bool)
      → pkg_length {V = AmlValue} input (quiet c) ≡ parsed xs (quiet c) l
      → term_arg xs (quiet c) ≡ parsed branch (quiet c) v
      → as_bool v ≡ ok b
      → take_to_end_of_pkglength {V = AmlValue} l branch (quiet c) ≡ parsed [] (quiet c) branch
      → def_if_else term_arg term_list (0xa0 ∷ input) (quiet c)
        ≡ failed [] (quiet c) (failure unexpected_end_of_stream)
  unfolding def_if_else then_parse feed then_next and_then comment_scope enter_scope leave_scope
      is_shown opcode else_branch choice recover Parsing.map finish raise Parsing.discard_result
  if_at_end c input xs branch l v b p q r s = rw p (rw q (rw s (rw r refl)))

  if_followed :
      (c d : Context W) (input xs ys rest zs branch : List ℕ) (x : ℕ) (l : PkgLength) (v : AmlValue)
      (b : Bool)
      → pkg_length {V = AmlValue} input (quiet c) ≡ parsed xs (quiet c) l
      → term_arg xs (quiet c) ≡ parsed ys (quiet c) v
      → as_bool v ≡ ok b
      → take_to_end_of_pkglength {V = AmlValue} l ys (quiet c) ≡ parsed (x ∷ rest) (quiet c) branch
      → (x == 0xa1) ≡ false
      → run_whole term_list (if b then branch else []) (quiet c) ≡ parsed zs (quiet d) tt
      → def_if_else term_arg term_list (0xa0 ∷ input) (quiet c) ≡ parsed (x ∷ rest) (quiet d) tt
  unfolding def_if_else then_parse finish_parse feed then_next and_then comment_scope enter_scope
      leave_scope is_shown opcode else_branch choice recover Parsing.map finish raise
      Parsing.discard_result
  if_followed c d input xs ys rest zs branch x l v b p q r s o run =
      rw p (rw q (rw s (rw r (rw o (rw run refl)))))

module _ {W : Type 0} ⦃bits : BitField⦄ ⦃bv : BitVec⦄ ⦃h : Handler W⦄
    (call_native : ℕ → Context W → Result AmlValue × Context W) where
  -- An `If` without an `Else` at the end of its stream, where comments are off, fails with
  -- `UnexpectedEndOfStream` once its predicate has a value, whether this is true or false: neither
  -- is the branch run nor the statement skipped. The predicate is a tree of expressions with a
  -- value, and the fuel is above the number of its operators.
  pub def_if_else-end :
      (e : Expr) (branch : List ℕ) (w : Width) (n : ℕ) (c : Context W) (v : AmlValue) (b : Bool)
      → IsWritten e
      → depth e < n
      → length (pkg_bytes w 0) + length (expr_bytes e ++ branch) < limit w
      → c.verbosity ≡ DebugVerbosity.none
      → eval c e ≡ ok v
      → as_bool v ≡ ok b
      → def_if_else
          (terms call_native n).term_arg
          (terms call_native n).term_list
          (0xa0 ∷ pkg_bytes w (length (pkg_bytes w 0) + length (expr_bytes e ++ branch))
            ++ (expr_bytes e ++ branch))
          c
        ≡ failed [] c (failure unexpected_end_of_stream)
  def_if_else-end e branch w n c v b written deep small q value truth =
      let t : Terms W = terms call_native n in
      let raw : ℕ = length (pkg_bytes w 0) + length (expr_bytes e ++ branch) in
      let same : quiet c ≡ c = ap (λ d. record c { verbosity = d }) (sym q) in
      subst
        (λ d.
          def_if_else t.term_arg t.term_list (0xa0 ∷ pkg_bytes w raw ++ (expr_bytes e ++ branch)) d
          ≡ failed [] d (failure unexpected_end_of_stream))
        same
        (if_at_end t.term_arg t.term_list c (pkg_bytes w raw ++ (expr_bytes e ++ branch))
          (expr_bytes e ++ branch) branch (record { raw_length = raw; end_offset = 0 }) v b
          (last_length w (expr_bytes e ++ branch) (quiet c) small)
          (subst (λ x. Ends (t.term_arg (expr_bytes e ++ branch) (quiet c)) branch (quiet c) x)
            (subst (λ d. eval d e ≡ ok v) (sym same) value)
            (terms-Ends call_native e n c branch written deep))
          truth
          (last_body w branch (quiet c) raw
            (omega (arith, small, limit-le w, length-append (expr_bytes e) branch))))

  -- An `If` without an `Else` that another object follows, where comments are off, runs its branch
  -- if the value of its predicate is true and an empty list of terms if it is false: where this run
  -- succeeds, the statement succeeds with its context, and leaves what follows it. The predicate is
  -- a tree of expressions with a value, the stream is below 2^32 bytes, and the fuel is above the
  -- number of operators of the predicate.
  pub def_if_else-branch :
      (e : Expr) (branch rest zs : List ℕ) (x : ℕ) (w : Width) (n : ℕ) (c d : Context W)
      (v : AmlValue) (b : Bool)
      → IsWritten e
      → depth e < n
      → length (pkg_bytes w 0) + length (expr_bytes e ++ branch) < limit w
      → length (
          pkg_bytes w (length (pkg_bytes w 0) + length (expr_bytes e ++ branch))
          ++ ((expr_bytes e ++ branch) ++ x ∷ rest))
        < 2 ^ 32
      → (x == 0xa1) ≡ false
      → c.verbosity ≡ DebugVerbosity.none
      → d.verbosity ≡ DebugVerbosity.none
      → eval c e ≡ ok v
      → as_bool v ≡ ok b
      → run_whole (terms call_native n).term_list (if b then branch else []) c ≡ parsed zs d tt
      → def_if_else
          (terms call_native n).term_arg
          (terms call_native n).term_list
          (0xa0 ∷ pkg_bytes w (length (pkg_bytes w 0) + length (expr_bytes e ++ branch))
            ++ ((expr_bytes e ++ branch) ++ x ∷ rest))
          c
        ≡ parsed (x ∷ rest) d tt
  def_if_else-branch e branch rest zs x w n c d v b written deep small total other q q' value truth
        run =
      let t : Terms W = terms call_native n in
      let raw : ℕ = length (pkg_bytes w 0) + length (expr_bytes e ++ branch) in
      let input : List ℕ = pkg_bytes w raw ++ ((expr_bytes e ++ branch) ++ x ∷ rest) in
      let same : quiet c ≡ c = ap (λ k. record c { verbosity = k }) (sym q) in
      let same' : quiet d ≡ d = ap (λ k. record d { verbosity = k }) (sym q') in
      let predicate : t.term_arg ((expr_bytes e ++ branch) ++ x ∷ rest) (quiet c)
          ≡ parsed (branch ++ x ∷ rest) (quiet c) v =
        subst (λ s. t.term_arg s (quiet c) ≡ parsed (branch ++ x ∷ rest) (quiet c) v)
          (sym (append_assoc (expr_bytes e) branch (x ∷ rest)))
          (subst
            (λ r.
              Ends (t.term_arg (expr_bytes e ++ (branch ++ x ∷ rest)) (quiet c))
                (branch ++ x ∷ rest) (quiet c) r)
            (subst (λ k. eval k e ≡ ok v) (sym same) value)
            (terms-Ends call_native e n c (branch ++ x ∷ rest) written deep)) in
      let bound : length (branch ++ x ∷ rest) < 2 ^ 32 = omega (
        arith,
        total,
        length-append (pkg_bytes w raw) ((expr_bytes e ++ branch) ++ x ∷ rest),
        length-append (expr_bytes e ++ branch) (x ∷ rest),
        length-append (expr_bytes e) branch,
        length-append branch (x ∷ rest),
      ) in
      subst (λ k. def_if_else t.term_arg t.term_list (0xa0 ∷ input) k ≡ parsed (x ∷ rest) d tt) same
        (subst
          (λ k.
            def_if_else t.term_arg t.term_list (0xa0 ∷ input) (quiet c) ≡ parsed (x ∷ rest) k tt)
          same'
          (if_followed t.term_arg t.term_list c d input ((expr_bytes e ++ branch) ++ x ∷ rest)
            (branch ++ x ∷ rest) rest zs branch x
            (record { raw_length = raw; end_offset = length (x ∷ rest) }) v b
            (pkg_length-pkg_bytes w (expr_bytes e ++ branch) (x ∷ rest) (quiet c) small total)
            predicate truth (take_to_end-append branch (x ∷ rest) raw (quiet c) bound) other
            (subst
              (λ k. run_whole t.term_list (if b then branch else []) (quiet c) ≡ parsed zs k tt)
              (sym same')
              (subst (λ k. run_whole t.term_list (if b then branch else []) k ≡ parsed zs d tt)
                (sym same) run))))
