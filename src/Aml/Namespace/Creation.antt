-- ===== src/Aml/Namespace/Creation.antt =====
-- aml/src/namespace.rs: what `Namespace::add_level` adds to the tree.
use acpi_rs.Prelude.{
  ◌≡◌, refl, sym, subst, ap, ◌∙◌, List, [], ◌∷◌, ◌++◌, some, none, ok, arith, Option-cases, inl,
  inr,
}
use mathlib.Core.Option.{some-injective}
use acpi_rs.Aml.Types.{NameSeg, eq_of_cmp_seg, cmp_seg_refl}
use acpi_rs.Map
use acpi_rs.Map.{on_eq, seg_ord}
use acpi_rs.Aml.Level.{Level, level, LevelType, new_level, children_of, find_child}
use acpi_rs.Aml.Level.Laws.{
  level_at, update_at, absolute, find_child-insert_child, find_child-set_child,
}
use acpi_rs.Aml.Level.Handles.{
  handle_at, handle_at-child, level_at-child, update_at-child, handle_at-update_at_child,
  values_of-update_at_child,
}
use acpi_rs.Aml.Namespace.{Namespace, create_level, add_level}
use acpi_rs.Aml.Namespace.Values.{absolute_normal-absolute, get_level_for_path_mut-found}
use acpi_rs.Aml.Namespace.Actions.{handle_at-new_level}
use acpi_rs.Aml.Namespace.Removal.{not_root}

-- A level is changed and keeps the handles in it and below it: all paths lead where they did.
handle_at-kept :
    (ss : List NameSeg) (f : Level → Level) (l m : Level) (qs : List NameSeg) (q : NameSeg)
    → level_at ss l ≡ some m
    → ((rs : List NameSeg) (r : NameSeg) → handle_at rs r (f m) ≡ handle_at rs r m)
    → handle_at qs q (update_at ss f l) ≡ handle_at qs q l
unfolding level_at update_at handle_at
handle_at-kept [] f l m qs q h k =
    let same : l ≡ m = some-injective l m h in
    subst (λ x. handle_at qs q (f x) ≡ handle_at qs q x) (sym same) (k qs q)
handle_at-kept (c ∷ ss) f l m [] q h k =
    let (next, e, rest) = level_at-child c ss l m h in
    ap (Map.get q) (values_of-update_at_child c ss f l next e)
handle_at-kept (c ∷ ss) f l m (d ∷ qs) q h k =
    let (next, e, rest) = level_at-child c ss l m h in
    ground (
      arith,
      handle_at-update_at_child c ss f l next d qs q e,
      handle_at-kept ss f next m qs q rest k,
      handle_at-child d qs q l next,
      eq_of_cmp_seg d c,
    )

level_at_child : (s : NameSeg) (l : Level) → level_at (s ∷ []) l ≡ find_child s (children_of l)
unfolding level_at
level_at_child s l = ground arith

-- The levels below a changed level are those of the change.
level_at-update_at :
    (ss : List NameSeg) (s : NameSeg) (f : Level → Level) (l m : Level)
    → level_at ss l ≡ some m
    → level_at (ss ++ s ∷ []) (update_at ss f l) ≡ find_child s (children_of (f m))
unfolding level_at update_at
level_at-update_at [] s f l m h =
    let same : l ≡ m = some-injective l m h in
    ap (λ x. level_at (s ∷ []) (f x)) same ∙ level_at_child s (f m)
level_at-update_at (c ∷ ss) s f l m h =
    let (next, e, rest) = level_at-child c ss l m h in
    ground (
      arith,
      update_at-child c ss f l next e,
      find_child-set_child c c (update_at ss f next) l e,
      cmp_seg_refl c,
      level_at-update_at ss s f next m rest,
    )

create_level-kept :
    (s : NameSeg) (typ : LevelType) (m : Level) (rs : List NameSeg) (r : NameSeg)
    → handle_at rs r (create_level s typ m) ≡ handle_at rs r m
unfolding create_level handle_at
create_level-kept s typ (level t cs vs) [] r = ground arith
create_level-kept s typ (level t cs vs) (c ∷ rs) r = elim (Option-cases (find_child s cs)) [
  | inl e ↦
      rw (e, create_level)
        (ground (
          arith,
          find_child-insert_child c s (new_level typ) cs,
          handle_at-new_level typ rs r,
          eq_of_cmp_seg c s,
          e,
        ))
  | inr (n, e) ↦ rw (e, create_level) refl
]

create_level-child :
    (s : NameSeg) (typ : LevelType) (m : Level)
    → find_child s (children_of (create_level s typ m)) ≡ (elim (find_child s (children_of m)) [
      | none ↦ some (new_level typ)
      | some there ↦ some there
    ])
unfolding create_level
create_level-child s typ (level t cs vs) =
    ground (arith, find_child-insert_child s s (new_level typ) cs, cmp_seg_refl s)

module _ {ℓ} {V : Type ℓ} where
  add_level-found :
      (ns : Namespace V) (ss : List NameSeg) (s : NameSeg) (typ : LevelType) (m : Level)
      → level_at ss ns.root_level ≡ some m
      → add_level ns (absolute (ss ++ s ∷ [])) typ
        ≡ (ok tt, record ns { root_level = update_at ss (create_level s typ) ns.root_level })
  unfolding add_level
  add_level-found ns ss s typ m found =
      rw (absolute_normal-absolute (ss ++ s ∷ []), add_level)
        (rw (not_root ss s) (
          rw
            (get_level_for_path_mut-found {0} ss s ns.root_level m
              (λ l last. (ok tt, create_level last typ l)) found)
            refl))

  -- Where the level above exists, `add_level` of an absolute path of segments succeeds. At the path
  -- there is then a level: the one that was there, with all that it holds and with its type, or, if
  -- there was none, an empty one of the given type. Every path leads to the handle it did, and the
  -- objects and the counter of handles are unchanged.
  pub add_level_lem :
      (ns : Namespace V) (ss : List NameSeg) (s : NameSeg) (typ : LevelType) (m : Level)
      → level_at ss ns.root_level ≡ some m
      → let (result, after) = add_level ns (absolute (ss ++ s ∷ [])) typ in
        (result ≡ ok tt)
        × (level_at (ss ++ s ∷ []) after.root_level ≡ (elim (find_child s (children_of m)) [
          | none ↦ some (new_level typ)
          | some there ↦ some there
        ]))
        × ((qs : List NameSeg) (q : NameSeg)
            → handle_at qs q after.root_level ≡ handle_at qs q ns.root_level)
        × (after.object_map ≡ ns.object_map)
        × (after.next_handle ≡ ns.next_handle)
  add_level_lem ns ss s typ m found = rw (add_level-found ns ss s typ m found) (
    refl,
    level_at-update_at ss s (create_level s typ) ns.root_level m found ∙ create_level-child s typ m,
    (λ qs q.
        handle_at-kept ss (create_level s typ) ns.root_level m qs q found
          (create_level-kept s typ m)),
    refl,
    refl,
  )
