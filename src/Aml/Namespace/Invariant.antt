-- ===== src/Aml/Namespace/Invariant.antt =====
-- aml/src/namespace.rs: the invariant of `Namespace` that the comment on `object_map` asks for:
-- every handle in the tree of levels leads to an object, and no handle is above the counter.
use acpi_rs.Prelude.{
  ℕ, ◌+◌, ◌%◌, ◌^◌, ◌<◌, compare, Ordering, ◌≡◌, refl, sym, ◌∙◌, inl, inr, List, some, ok, arith,
  Option-cases, Outcome-cases, >>=-eq-ok,
}
use acpi_rs.Aml.Types.{NameSeg, AmlName}
use acpi_rs.Map
use acpi_rs.Map.{on_eq, nat_ord, seg_ord}
use acpi_rs.Aml.Level.{Level, LevelType, get_level_for_path}
use acpi_rs.Aml.Level.Handles.{handle_at, handle_at-level_at}
use acpi_rs.Aml.Level.Growth.{AddsOnly, get_level_for_path_mut-AddsOnly, get_level_for_path_reached}
use acpi_rs.Aml.Namespace.{
  Namespace, new, absolute_normal, bind_value, store_object, increment, add_value, get, set,
  get_handle, get_by_path,
}
use acpi_rs.Aml.Namespace.Values.{get_found}
use acpi_rs.Aml.Namespace.Actions.{none-ne-some, handle_at-new_level, bind_value-AddsOnly}

module _ {ℓ} {V : Type ℓ} where
  pub record IsValid (ns : Namespace V) : Type ℓ where
    pub fresh : (h : ℕ) (v : V) → Map.get h ns.object_map ≡ some v → h < ns.next_handle
    pub stored :
        (ss : List NameSeg) (s : NameSeg) (h : ℕ)
        → handle_at ss s ns.root_level ≡ some h
        → (v : V) × (Map.get h ns.object_map ≡ some v)

module _ {ℓ} {V : Type ℓ} where
  pub new-IsValid : IsValid {V = V} new
  unfolding Map.get
  new-IsValid = record {
    fresh = λ h v e. absurd (none-ne-some e);
    stored = λ ss s h e. absurd (none-ne-some (sym (handle_at-new_level LevelType.scope ss s) ∙ e));
  }

  -- A map keeps a value for every key that it had one for.
  insert_kept :
      (k h : ℕ) (value x : V) (objects : List (ℕ × V))
      → Map.get k objects ≡ some x
      → (y : V) × (Map.get k (Map.insert h value objects) ≡ some y)
  insert_kept k h value x objects old = rw (Map.get-insert k h value objects) (go (compare k h))
    where
      go : (o : Ordering) → (y : V) × (on_eq o (some value) (Map.get k objects) ≡ some y)
      go Ordering.lt = (x, old)
      go Ordering.eq = (value, refl)
      go Ordering.gt = (x, old)

  insert_fresh :
      (h next : ℕ) (value x : V) (objects : List (ℕ × V))
      → next + 1 < 2 ^ 32
      → (Map.get h objects ≡ some x → h < next)
      → Map.get h (Map.insert next value objects) ≡ some x
      → h < (next + 1) % 2 ^ 32
  insert_fresh h next value x objects room old e =
      go (compare h next) refl (sym (Map.get-insert h next value objects) ∙ e)
    where
      go :
          (o : Ordering)
          → compare h next ≡ o
          → on_eq o (some value) (Map.get h objects) ≡ some x
          → h < (next + 1) % 2 ^ 32
      go Ordering.lt c f = omega (arith, old f)
      go Ordering.eq c f = omega (arith, Map.eq_of_nat_cmp h next c)
      go Ordering.gt c f = omega (arith, old f)

  stored_value-IsValid :
      (ns : Namespace V) (value : V) (l : Level)
      → ns.next_handle + 1 < 2 ^ 32
      → IsValid ns
      → AddsOnly (λ k. k ≡ ns.next_handle) ns.root_level l
      → IsValid (record (store_object ns value) { root_level = l })
  unfolding store_object increment
  stored_value-IsValid ns value l room v adds = record {
    fresh = λ h x e. insert_fresh h ns.next_handle value x ns.object_map room (v.fresh h x) e;
    stored = λ ss s h e. elim (adds ss s h e) [
      | inl old ↦
          let (x, kept) = v.stored ss s h old in
          insert_kept h ns.next_handle value x ns.object_map kept
      | inr new ↦ (value, rw new (Map.get-insert_self ns.next_handle value ns.object_map))
    ];
  }

  -- `add_value` keeps the invariant on every path and outcome, as long as the counter of handles
  -- does not wrap.
  pub add_value-IsValid :
      (ns : Namespace V) (path : AmlName) (value : V)
      → ns.next_handle + 1 < 2 ^ 32
      → IsValid ns
      → IsValid (add_value ns path value).1
  unfolding add_value
  add_value-IsValid ns path value room v = elim (Outcome-cases (absolute_normal path)) [
    | inl (p, e) ↦
        rw (e, add_value)
          (stored_value-IsValid ns value _ room v (
            get_level_for_path_mut-AddsOnly (λ k. k ≡ ns.next_handle) ns.root_level p
              (λ l last. bind_value p ns.next_handle last l)
              (λ x s. bind_value-AddsOnly p ns.next_handle s x)))
    | inr (inl (x, e)) ↦ rw (e, add_value) v
    | inr (inr e) ↦ rw (e, add_value) v
  ]

  -- A write through `get_mut` keeps the invariant.
  pub set-IsValid : (ns : Namespace V) (h : ℕ) (value : V) → IsValid ns → IsValid (set ns h value).1
  unfolding set
  set-IsValid ns h value v = elim (Option-cases (Map.get h ns.object_map)) [
    | inl e ↦ rw (e, set) v
    | inr (w, e) ↦
        rw (e, set)
          (record {
            fresh = λ k x f. elim (Option-cases (Map.get k ns.object_map)) [
              | inl n ↦
                  ground (arith, Map.get-insert k h value ns.object_map, Map.eq_of_nat_cmp k h)
              | inr (y, old) ↦ v.fresh k y old
            ];
            stored = λ ss s k f.
                let (x, old) = v.stored ss s k f in insert_kept k h value x ns.object_map old;
          })
  ]

  get_by_path_found :
      (ns : Namespace V) (path : AmlName) (h : ℕ) (v : V)
      → get_handle ns path ≡ ok h
      → get ns h ≡ ok v
      → get_by_path ns path ≡ ok v
  unfolding get_by_path
  get_by_path_found ns path h v e f = rw e f

  get_handle_reached :
      (ns : Namespace V) (path : AmlName) (h : ℕ)
      → get_handle ns path ≡ ok h
      → (ss : List NameSeg) × (s : NameSeg) × (handle_at ss s ns.root_level ≡ some h)
  unfolding get_handle
  get_handle_reached ns path h e =
      let ((m, s), found, bound) = >>=-eq-ok (get_level_for_path ns.root_level path) _ e in
      let (ss, reached) = get_level_for_path_reached ns.root_level path m s found in
      (ss, s, ground (arith, handle_at-level_at ss s ns.root_level m reached))

  -- In a valid namespace a handle that `get_handle` returns, for whatever path, leads to an object:
  -- neither `get` nor `get_by_path` panics or fails after it.
  pub get-get_handle :
      (ns : Namespace V) (path : AmlName) (h : ℕ)
      → IsValid ns
      → get_handle ns path ≡ ok h
      → (v : V) × (get ns h ≡ ok v) × (get_by_path ns path ≡ ok v)
  get-get_handle ns path h v e =
      let (ss, s, here) = get_handle_reached ns path h e in
      let (x, at) = v.stored ss s h here in
      let found = get_found ns h x at in (x, found, get_by_path_found ns path h x e found)
