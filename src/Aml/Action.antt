-- ===== src/Aml/Action.antt =====
-- The closures that the parsers of terms pass to `map_with_context`: chains of `try_with_context!`. An
-- action returns its result with the context, also where it fails.
use acpi_rs.Prelude.{ℕ, Ordering, List, Outcome, ok, err, panic}
use acpi_rs.BitField.{BitField}
use acpi_rs.Bytes.Bits.{BitVec}
use acpi_rs.Aml.Types.{AmlName, Result}
use acpi_rs.Aml.Level.{LevelType}
use acpi_rs.Aml.Namespace
use acpi_rs.Aml.Parsing.{
  Propagate, failure, ParseResult, parsed, failed, panicked, looping, Parser, and_then,
  map_with_context,
}
use acpi_rs.Aml.NameString.{Target}
use acpi_rs.Aml.Value.{AmlValue, buffer}
use acpi_rs.Aml.Value.Buffers.{Buffers, bytes_of, allocate}
use acpi_rs.Aml.Context.{Handler, Context, settled}
use acpi_rs.Aml.Context.Regions.{as_integer}
use acpi_rs.Aml.Context.Convert as Convert
use acpi_rs.Aml.Context.Store as Store

abbrev pub Action : Type 0 → Type 0 → Type 0
Action W A = Context W → Result A × Context W

abbrev pub P : Type 0 → Type 0 → Type 0
P W R = Parser (Context W) AmlValue R

-- An error of an action is propagated as `Propagate::Err`.
unfoldable pub raise : {A : Type 0} → Result A → Outcome (Propagate AmlValue) A
raise (ok a) = ok a
raise (err e) = err (failure e)
raise panic = panic

module _ {W : Type 0} where
  abbrev pub continue :
      {A B : Type 0} → Result A × Context W → (A → Action W B) → Result B × Context W
  continue (ok a, c) next = next a c
  continue (err e, c) next = (err e, c)
  continue (panic, c) next = (panic, c)

  infixl 5 ◌>>=◌ ◌>>◌
  abbrev pub ◌>>=◌ : {A B : Type 0} → Action W A → (A → Action W B) → Action W B
  ◌>>=◌ action next c = continue (action c) next

  abbrev pub ◌>>◌ : {A B : Type 0} → Action W A → Action W B → Action W B
  ◌>>◌ action next c = continue (action c) (λ _. next)

  abbrev pub pure : {A : Type 0} → A → Action W A
  pure a c = (ok a, c)

  -- `try_with_context!` of what leaves the context alone.
  abbrev pub lift : {A : Type 0} → Result A → Action W A
  lift r c = (r, c)

  abbrev pub ask : {A : Type 0} → (Context W → Result A) → Action W A
  ask f c = (f c, c)

  abbrev pub with_store : {A : Type 0} → (Context W → Result A × Buffers) → Action W A
  with_store f c = let (r, store) = f c in (r, record c { buffers = store })

  -- The bytes of a buffer, under its lock.
  abbrev pub contents : ℕ → Action W (List ℕ)
  contents a c = (ok (bytes_of c.buffers a), c)

  -- `AmlValue::Buffer(Arc::new(Spinlock::new(bytes)))`.
  abbrev pub new_buffer : List ℕ → Action W AmlValue
  new_buffer bytes c =
      let (a, store) = allocate c.buffers bytes in (ok (buffer a), record c { buffers = store })

  abbrev pub on_namespace :
      {A : Type 0}
      → (Namespace.Namespace AmlValue → Result A × Namespace.Namespace AmlValue)
      → Action W A
  on_namespace f c = let (r, ns) = f c.namespace in (r, record c { namespace = ns })

  abbrev pub add_value : AmlName → AmlValue → Action W ℕ
  add_value path value = on_namespace (λ ns. Namespace.add_value ns path value)

  abbrev pub add_level : AmlName → LevelType → Action W (Unit {0})
  add_level path typ = on_namespace (λ ns. Namespace.add_level ns path typ)

  -- A new object in the current scope.
  abbrev pub add_here : AmlName → AmlValue → Action W ℕ
  add_here path value c =
      on_namespace (λ ns. Namespace.add_value_at_resolved_path ns path c.current_scope value) c

  abbrev pub search_here : AmlName → Action W (AmlName × ℕ)
  search_here path c = (settled (Namespace.search c.namespace path c.current_scope), c)

  unfoldable pub act :
      {R A : Type 0} → (R → Action W A) → R → Context W → Outcome (Propagate AmlValue) A × Context W
  unfolding raise
  act f r c = (raise (f r c).0, (f r c).1)

  -- `map_with_context` with an action.
  abbrev pub then_do : {R A : Type 0} → P W R → (R → Action W A) → P W A
  then_do parser f = map_with_context parser (act f)

  -- `map_with_context` with a closure that parses another stream and hands on what this ends with.
  unfoldable pub finish_parse :
      {A : Type 0}
      → List ℕ
      → List ℕ
      → ParseResult (Context W) AmlValue A
      → ParseResult (Context W) AmlValue A
  finish_parse input rest (parsed _ c a) = parsed rest c a
  finish_parse input rest (failed _ c e) = failed input c e
  finish_parse input rest panicked = panicked
  finish_parse input rest looping = looping

  unfoldable pub then_parse :
      {R A : Type 0} → P W R → (R → Context W → ParseResult (Context W) AmlValue A) → P W A
  unfolding finish_parse
  then_parse parser f input c =
      and_then (parser input c) (λ rest after r. finish_parse input rest (f r after))

module _ {W : Type 0} ⦃bits : BitField⦄ ⦃bv : BitVec⦄ ⦃h : Handler W⦄ where
  abbrev pub integer_of : AmlValue → Action W ℕ
  integer_of v = ask (λ c. as_integer c v)

  abbrev pub buffer_of : AmlValue → Action W ℕ
  buffer_of v = with_store (λ c. Convert.as_buffer c v)

  abbrev pub string_of : AmlValue → Action W (List ℕ)
  string_of v = ask (λ c. Convert.as_string c v)

  abbrev pub ordering_of : AmlValue → AmlValue → Action W Ordering
  ordering_of a b = with_store (λ c. Convert.cmp c a b)

  abbrev pub store_to : Target → AmlValue → Action W AmlValue
  store_to target value c = Store.store c target value
