-- ===== src/Aml/Context/Store/Typed.antt =====
-- aml/src/value.rs and lib.rs: the types of what `as_type` and `store` give.
use acpi_rs.Prelude.{
  ℕ, ==_iff, ◌≡◌, ◌≢◌, refl, sym, ap, ◌∙◌, true, Bool-cases, Option-cases, compare, inl, inr,
  Option, some, ok, panic, ◌>>=◌, >>=-eq-ok, get_elem?, arith, subst, ◌∷◌, [],
}
use mathlib.Core.Option.{some-injective}
use acpi_rs.BitField.{BitField}
use acpi_rs.Bytes.Bits.{BitVec}
use acpi_rs.Map as Map
use acpi_rs.Map.{nat_ord}
use acpi_rs.Aml.Types.{AmlName, AmlType, Result}
use acpi_rs.Aml.Namespace
use acpi_rs.Aml.Namespace.{Namespace}
use acpi_rs.Aml.NameString.{name}
use acpi_rs.Aml.Value.{AmlValue, type_of, type_eq, rank}
use acpi_rs.Aml.Context.{Handler, Context}
use acpi_rs.Aml.Context.Convert.{as_type, convert, as_buffer}
use acpi_rs.Aml.Context.Regions.{as_integer}
use acpi_rs.Aml.Context.Store.{store, store_object_as, on_ok}
use acpi_rs.Aml.Context.Methods.Restore.{on_ok-eq-ok}

-- The type with a discriminant.
abbrev of_rank : ℕ → Option AmlType
of_rank n =
    get_elem?
      (AmlType.uninitialized ∷ AmlType.buffer ∷ AmlType.buffer_field ∷ AmlType.ddb_handle
        ∷ AmlType.debug_object ∷ AmlType.event ∷ AmlType.field_unit ∷ AmlType.device
        ∷ AmlType.integer ∷ AmlType.method ∷ AmlType.mutex ∷ AmlType.obj_reference
        ∷ AmlType.op_region ∷ AmlType.aml_package ∷ AmlType.power_resource ∷ AmlType.processor
        ∷ AmlType.raw_data_buffer ∷ AmlType.string ∷ AmlType.thermal_zone ∷ [])
      n

of_rank-rank : (t : AmlType) → of_rank (rank t) ≡ some t
of_rank-rank AmlType.uninitialized = refl
of_rank-rank AmlType.buffer = refl
of_rank-rank AmlType.buffer_field = refl
of_rank-rank AmlType.ddb_handle = refl
of_rank-rank AmlType.debug_object = refl
of_rank-rank AmlType.event = refl
of_rank-rank AmlType.field_unit = refl
of_rank-rank AmlType.device = refl
of_rank-rank AmlType.integer = refl
of_rank-rank AmlType.method = refl
of_rank-rank AmlType.mutex = refl
of_rank-rank AmlType.obj_reference = refl
of_rank-rank AmlType.op_region = refl
of_rank-rank AmlType.aml_package = refl
of_rank-rank AmlType.power_resource = refl
of_rank-rank AmlType.processor = refl
of_rank-rank AmlType.raw_data_buffer = refl
of_rank-rank AmlType.string = refl
of_rank-rank AmlType.thermal_zone = refl

type_eq-eq-true : (a b : AmlType) → type_eq a b ≡ true → a ≡ b
unfolding type_eq
type_eq-eq-true a b e =
    some-injective a b
      (sym (of_rank-rank a) ∙ ap of_rank ((==_iff (rank a) (rank b)).0 e) ∙ of_rank-rank b)

unfoldable result_type : Result AmlValue → AmlType
unfolding type_of
result_type (ok v) = type_of v
result_type _ = AmlType.uninitialized

on_eq-ne : {A : Type 0} (m n : ℕ) (x y : A) → m ≢ n → Map.on_eq (compare m n) x y ≡ y
on_eq-ne m n x y h = ground arith

-- A write to a handle that leads to an object.
set-get :
    (ns : Namespace AmlValue) (handle : ℕ) (v : AmlValue)
    → (Namespace.set ns handle v).0 ≡ ok tt
    → (Namespace.get (Namespace.set ns handle v).1 handle ≡ ok v)
      × ((other : ℕ)
          → other ≢ handle
          → Namespace.get (Namespace.set ns handle v).1 other ≡ Namespace.get ns other)
unfolding Namespace.set Namespace.get
set-get ns handle v e = elim (Option-cases (Map.get handle ns.object_map)) [
  | inl missing ↦
      let e2 : ◌≡◌ {A = Result (Unit {0})} panic (ok tt) = rw (Namespace.set, missing) at e in cc
  | inr (w, found) ↦
      rw (Namespace.set, found)
        (
          rw (Namespace.get, Map.get-insert_self handle v ns.object_map) refl,
          λ other n.
              rw
                (
                  Namespace.get,
                  Map.get-insert other handle v ns.object_map,
                  on_eq-ne other handle _ _ n,
                )
                refl,
        )
]

module _ {W : Type 0} ⦃bits : BitField⦄ ⦃bv : BitVec⦄ ⦃h : Handler W⦄ where
  convert-type :
      (c : Context W) (desired : AmlType) (v w : AmlValue)
      → (convert c desired v).0 ≡ ok w
      → type_of w ≡ desired
  unfolding convert type_of result_type
  convert-type c AmlType.integer v w e =
      let (n, _, made) = >>=-eq-ok (as_integer c v) _ e in sym (ap result_type made)
  convert-type c AmlType.buffer v w e =
      let (n, _, made) = >>=-eq-ok (as_buffer c v).0 _ e in sym (ap result_type made)
  convert-type c typ v w e = cc

  -- A conversion to a type gives a value of that type.
  as_type-type :
      (c : Context W) (desired : AmlType) (v w : AmlValue)
      → (as_type c v desired).0 ≡ ok w
      → type_of w ≡ desired
  unfolding as_type result_type
  as_type-type c desired v w e = elim (Bool-cases (type_eq (type_of v) desired)) [
    | inl same ↦ sym (ap result_type (rw same at e)) ∙ type_eq-eq-true (type_of v) desired same
    | inr differ ↦ convert-type c desired v w (rw differ at e)
  ]

  abbrev store_plain : Context W → ℕ → AmlType → AmlValue → Result AmlValue × Context W
  store_plain c handle typ value =
      let (r, buffers) = as_type c value typ in
      let c1 = record c { buffers = buffers } in
      on_ok c1 r (λ converted.
        let (done, ns) = Namespace.set c.namespace handle converted in
        let c2 = record c1 { namespace = ns } in (done >>= λ _. Namespace.get ns handle, c2))

  store_object_as-plain :
      (c : Context W) (handle : ℕ) (typ : AmlType) (held value : AmlValue)
      → typ ≢ AmlType.field_unit
      → typ ≢ AmlType.buffer_field
      → store_object_as c handle typ held value ≡ store_plain c handle typ value
  unfolding store_object_as
  store_object_as-plain c handle AmlType.field_unit held value n m = absurd (n refl)
  store_object_as-plain c handle AmlType.buffer_field held value n m = absurd (m refl)
  store_object_as-plain c handle typ held value n m = refl

  -- A store into a named object that is neither a field nor a buffer field, where it succeeds, puts
  -- the result in the object's place: it has the type that the object had before, and every other
  -- object of the namespace is as it was.
  pub store-type :
      (c after : Context W) (path full : AmlName) (handle : ℕ) (held value result : AmlValue)
      → Namespace.search c.namespace path c.current_scope ≡ some (ok (full, handle))
      → Namespace.get c.namespace handle ≡ ok held
      → type_of held ≢ AmlType.field_unit
      → type_of held ≢ AmlType.buffer_field
      → store c (name path) value ≡ (ok result, after)
      → (Namespace.get after.namespace handle ≡ ok result)
        × (type_of result ≡ type_of held)
        × ((other : ℕ)
            → other ≢ handle
            → Namespace.get after.namespace other ≡ Namespace.get c.namespace other)
  unfolding store result_type
  store-type c after path full handle held value result found got n m e =
      let plain : store_plain c handle (type_of held) value ≡ (ok result, after) =
        sym (store_object_as-plain c handle (type_of held) held value n m)
        ∙ (rw (found, got) at e) in
      let typed : AmlType = type_of held in
      let (w, converted, e2) = on_ok-eq-ok _ after (as_type c value typed).0 _ result plain in
      let (_, done, same) = >>=-eq-ok (Namespace.set c.namespace handle w).0 _ (ap (λ p. p.0) e2) in
      let (new, others) = set-get c.namespace handle w done in
      let ns : (Namespace.set c.namespace handle w).1 ≡ after.namespace =
        ap (λ p. p.1.namespace) e2 in
      (
        subst (λ k. Namespace.get k handle ≡ ok result) ns same,
        sym (ap result_type (sym new ∙ same)) ∙ as_type-type c typed value w converted,
        λ other d.
            subst (λ k. Namespace.get k other ≡ Namespace.get c.namespace other) ns
              (others other d),
      )
