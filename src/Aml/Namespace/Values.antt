-- ===== src/Aml/Namespace/Values.antt =====
-- aml/src/namespace.rs: `add_value`, `get_handle` and `get_by_path` of `Namespace`, by the paths of
-- segments from the root.
use acpi_rs.Prelude.{
  ℕ, compare, ◌≡◌, refl, ◌∙◌, ◌↔◌, true, ◌&&◌, List, [], ◌∷◌, ◌++◌, map, some, none, ok, err, arith,
  Option-cases, inl, inr, if◌then◌else◌,
}
use acpi_rs.Aml.Types.{
  NameSeg, seg_eq, seg_eq_refl, segment, AmlName, Result, value_does_not_exist, name_collision,
  level_does_not_exist,
}
use acpi_rs.Map
use acpi_rs.Map.{on_eq, nat_ord, seg_ord}
use acpi_rs.Aml.Name.{is_absolute, is_normal, normalize, root_name}
use acpi_rs.Aml.Level.{
  Level, level, children_of, values_of, get_level_for_path, get_level_for_path_mut,
}
use acpi_rs.Aml.Level.Laws.{
  level_at, update_at, absolute, split_path-absolute, descend-level_at, descend_mut-level_at,
  descend_mut-missing,
}
use acpi_rs.Aml.Level.Handles.{
  handle_at, path_eq, handle_at-update_at, handle_at-level_at, handle_at_missing, path_eq_refl,
  path_eq→eq,
}
use acpi_rs.Aml.Namespace.{
  Namespace, absolute_normal, add_value, bind_value, store_object, get, get_handle, get_by_path,
}

pub is_normal-segments : (ss : List NameSeg) → is_normal (map segment ss) ≡ true
unfolding is_normal
is_normal-segments [] = refl
is_normal-segments (s ∷ ss) = is_normal-segments ss

pub absolute_normal-absolute :
    (ss : List NameSeg) → absolute_normal (absolute ss) ≡ ok (absolute ss)
unfolding absolute_normal normalize is_absolute is_normal
absolute_normal-absolute ss = rw (is_normal-segments ss)

-- `get_level_for_path` at a path of segments.
pub get_level_for_path-found :
    (ss : List NameSeg) (s : NameSeg) (l m : Level)
    → level_at ss l ≡ some m
    → get_level_for_path l (absolute (ss ++ s ∷ [])) ≡ ok (m, s)
unfolding get_level_for_path
get_level_for_path-found ss s l m h =
    rw (split_path-absolute ss s, get_level_for_path) (rw (descend-level_at l root_name ss m h))

pub get_level_for_path-missing :
    (ss : List NameSeg) (s : NameSeg) (l : Level)
    → level_at ss l ≡ none
    → (p : AmlName) × (get_level_for_path l (absolute (ss ++ s ∷ []))
        ≡ err (level_does_not_exist p))
unfolding get_level_for_path
get_level_for_path-missing ss s l h =
    let (p, changed, seen) =
      descend_mut-missing {A = Unit {0}} l root_name ss (λ x. (ok tt, x)) h in
    (p, rw (split_path-absolute ss s, get_level_for_path) (rw seen))

pub get_level_for_path_mut-found {ℓ} :
    {A : Type ℓ} (ss : List NameSeg) (s : NameSeg) (l m : Level)
    (act : Level → NameSeg → Result A × Level)
    → level_at ss l ≡ some m
    → get_level_for_path_mut l (absolute (ss ++ s ∷ [])) act
      ≡ ((act m s).0, update_at ss (λ x. (act x s).1) l)
unfolding get_level_for_path_mut
get_level_for_path_mut-found ss s l m act h =
    rw (split_path-absolute ss s, get_level_for_path_mut)
      (descend_mut-level_at l root_name ss (λ x. act x s) m h)

bind_value-values :
    (p : AmlName) (h : ℕ) (s q : NameSeg) (m : Level)
    → Map.get q (values_of (bind_value p h s m).1)
      ≡ (if seg_eq q s then some h else Map.get q (values_of m))
unfolding bind_value seg_eq
bind_value-values p h s q (level t cs vs) = ground (arith, Map.get-insert q s h vs)

bind_value-children :
    (p : AmlName) (h : ℕ) (s : NameSeg) (m : Level)
    → children_of (bind_value p h s m).1 ≡ children_of m
unfolding bind_value
bind_value-children p h s (level t cs vs) = refl

bind_value-result :
    (p : AmlName) (h : ℕ) (s : NameSeg) (m : Level)
    → (bind_value p h s m).0
      ≡ (elim (Map.get s (values_of m)) [ none ↦ ok h | some _ ↦ err (name_collision p) ])
unfolding bind_value
bind_value-result p h s (level t cs vs) = refl

module _ {ℓ} {V : Type ℓ} where
  get_handle-found :
      (ns : Namespace V) (ss : List NameSeg) (s : NameSeg) (m : Level)
      → level_at ss ns.root_level ≡ some m
      → get_handle ns (absolute (ss ++ s ∷ [])) ≡ (elim (Map.get s (values_of m)) [
        | some handle ↦ ok handle
        | none ↦ err (value_does_not_exist (absolute (ss ++ s ∷ [])))
      ])
  unfolding get_handle
  get_handle-found ns ss s m e = rw (get_level_for_path-found ss s ns.root_level m e)

  get_handle-missing :
      (ns : Namespace V) (ss : List NameSeg) (s : NameSeg)
      → level_at ss ns.root_level ≡ none
      → (p : AmlName) × (get_handle ns (absolute (ss ++ s ∷ [])) ≡ err (level_does_not_exist p))
  unfolding get_handle
  get_handle-missing ns ss s e =
      let (p, seen) = get_level_for_path-missing ss s ns.root_level e in (p, rw seen)

  -- `get_handle` of an absolute path of segments succeeds exactly with the handle that the tree
  -- holds under the last segment in the level that the others lead to.
  pub get_handle-handle_at :
      (ns : Namespace V) (ss : List NameSeg) (s : NameSeg) (h : ℕ)
      → (get_handle ns (absolute (ss ++ s ∷ [])) ≡ ok h) ↔ (handle_at ss s ns.root_level ≡ some h)
  get_handle-handle_at ns ss s h = elim (Option-cases (level_at ss ns.root_level)) [
    | inl e ↦
        let (p, failed) = get_handle-missing ns ss s e in
        (λ r. cc, λ r. cc (handle_at_missing ss s ns.root_level e))
    | inr (m, e) ↦
        ground (arith, get_handle-found ns ss s m e, handle_at-level_at ss s ns.root_level m e)
  ]

  add_value-found :
      (ns : Namespace V) (ss : List NameSeg) (s : NameSeg) (v : V) (m : Level)
      → level_at ss ns.root_level ≡ some m
      → let bound = bind_value (absolute (ss ++ s ∷ [])) ns.next_handle s in
        add_value ns (absolute (ss ++ s ∷ [])) v ≡ (
          (bound m).0,
          record (store_object ns v) { root_level = update_at ss (λ x. (bound x).1) ns.root_level },
        )
  unfolding add_value
  add_value-found ns ss s v m e =
      rw (absolute_normal-absolute (ss ++ s ∷ []), add_value)
        (rw (
          get_level_for_path_mut-found ss s ns.root_level m
            (λ l last. bind_value (absolute (ss ++ s ∷ [])) ns.next_handle last l) e))

  -- Where the level of the name exists, `add_value` returns the next handle if the name was free and
  -- fails with `NameCollision` if not; in both cases that name then leads to the new handle, every
  -- other path leads where it did before, the object stands under the new handle in the map, and
  -- the objects of all other handles are unchanged.
  pub add_value_lem :
      (ns : Namespace V) (ss : List NameSeg) (s : NameSeg) (v : V) (m : Level)
      → level_at ss ns.root_level ≡ some m
      → let path = absolute (ss ++ s ∷ []) in
        let (result, after) = add_value ns path v in
        (result ≡ (elim (handle_at ss s ns.root_level) [
          | none ↦ ok ns.next_handle
          | some _ ↦ err (name_collision path)
        ]))
        × ((qs : List NameSeg) (q : NameSeg)
            → handle_at qs q after.root_level ≡ (
                if path_eq qs ss && seg_eq q s
                then some ns.next_handle
                else handle_at qs q ns.root_level))
        × ((h : ℕ)
            → Map.get h after.object_map
              ≡ on_eq (compare h ns.next_handle) (some v) (Map.get h ns.object_map))
  unfolding store_object
  add_value_lem ns ss s v m e =
      let path = absolute (ss ++ s ∷ []) in
      let f : Level → Level = λ x. (bind_value path ns.next_handle s x).1 in
      rw (add_value-found ns ss s v m e) (
        bind_value-result path ns.next_handle s m
            ∙ (rw (handle_at-level_at ss s ns.root_level m e)),
        (λ qs q. ground (
          arith,
          handle_at-update_at ss f ns.root_level m qs q e
              (bind_value-children path ns.next_handle s m),
          bind_value-values path ns.next_handle s q m,
          path_eq→eq qs ss,
          handle_at-level_at ss q ns.root_level m e,
        )),
        (λ h. Map.get-insert h ns.next_handle v ns.object_map),
      )

  pub get_found :
      (ns : Namespace V) (h : ℕ) (v : V) → Map.get h ns.object_map ≡ some v → get ns h ≡ ok v
  unfolding get
  get_found ns h v e = rw (e, get)

  -- A value that was added under a free name is what its path then gives.
  pub get_by_path-add_value :
      (ns : Namespace V) (ss : List NameSeg) (s : NameSeg) (v : V) (m : Level)
      → level_at ss ns.root_level ≡ some m
      → handle_at ss s ns.root_level ≡ none
      → let path = absolute (ss ++ s ∷ []) in
        ((add_value ns path v).0 ≡ ok ns.next_handle)
        × (get_by_path (add_value ns path v).1 path ≡ ok v)
  unfolding get_by_path
  get_by_path-add_value ns ss s v m e free =
      let path = absolute (ss ++ s ∷ []) in
      let (result, tree, objects) = add_value_lem ns ss s v m e in
      let after = (add_value ns path v).1 in
      let here : handle_at ss s after.root_level ≡ some ns.next_handle =
        tree ss s ∙ (rw (path_eq_refl ss, seg_eq_refl s)) in
      (
        result ∙ (rw free),
        rw ((get_handle-handle_at after ss s ns.next_handle).1 here) (
            get_found after ns.next_handle v
              (objects ns.next_handle ∙ (rw (Map.nat_cmp_refl ns.next_handle)))),
      )
