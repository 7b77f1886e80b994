-- ===== src/Aml/Namespace/Removal.antt =====
-- aml/src/namespace.rs: what `Namespace::remove_level` takes from the tree.
use acpi_rs.Prelude.{
  ◌≡◌, refl, sym, subst, ap, Bool, true, false, ◌&&◌, List, [], ◌∷◌, ◌++◌, some, none, ok, arith,
  if◌then◌else◌,
}
use mathlib.Core.Option.{some-injective}
use acpi_rs.Aml.Types.{NameSeg, AmlName, seg_eq, eq_of_cmp_seg}
use acpi_rs.Map
use acpi_rs.Map.{on_eq, seg_ord}
use acpi_rs.Aml.Level.{Level, level, children_of, find_child}
use acpi_rs.Aml.Level.Laws.{level_at, update_at, absolute}
use acpi_rs.Aml.Level.Handles.{
  handle_at, handle_at-child, level_at-child, handle_at-update_at_child, values_of-update_at_child,
}
use acpi_rs.Aml.Namespace.{Namespace, is_root_name, delete_level, remove_level}
use acpi_rs.Aml.Namespace.Values.{absolute_normal-absolute, get_level_for_path_mut-found}
use acpi_rs.Aml.Namespace.Actions.{handle_at-remove_child}

-- The second path is the first one or leads below it.
unfoldable pub is_below : List NameSeg → List NameSeg → Bool
is_below [] qs = true
is_below (s ∷ ss) [] = false
is_below (s ∷ ss) (q ∷ qs) = seg_eq q s && is_below ss qs

-- A level that loses what is below one of its names, seen from the root.
handle_at-cut :
    (ss : List NameSeg) (s : NameSeg) (f : Level → Level) (l m : Level) (qs : List NameSeg)
    (q : NameSeg)
    → level_at ss l ≡ some m
    → ((rs : List NameSeg) (r : NameSeg)
        → handle_at rs r (f m) ≡ (if is_below (s ∷ []) rs then none else handle_at rs r m))
    → handle_at qs q (update_at ss f l)
      ≡ (if is_below (ss ++ s ∷ []) qs then none else handle_at qs q l)
unfolding level_at update_at is_below handle_at seg_eq
handle_at-cut [] s f l m qs q h k =
    let same : l ≡ m = some-injective l m h in
    subst (λ x. handle_at qs q (f x) ≡ (if is_below (s ∷ []) qs then none else handle_at qs q x))
      (sym same) (k qs q)
handle_at-cut (c ∷ ss) s f l m [] q h k =
    let (next, e, rest) = level_at-child c ss l m h in
    ap (Map.get q) (values_of-update_at_child c ss f l next e)
handle_at-cut (c ∷ ss) s f l m (d ∷ qs) q h k =
    let (next, e, rest) = level_at-child c ss l m h in
    ground (
      arith,
      handle_at-update_at_child c ss f l next d qs q e,
      handle_at-cut ss s f next m qs q rest k,
      handle_at-child d qs q l next,
      eq_of_cmp_seg d c,
    )

pub not_root : (ss : List NameSeg) (s : NameSeg) → is_root_name (absolute (ss ++ s ∷ [])) ≡ false
unfolding is_root_name
not_root [] s = refl
not_root (c ∷ ss) s = refl

delete_level-found :
    (p : AmlName) (s : NameSeg) (m n : Level)
    → find_child s (children_of m) ≡ some n
    → (delete_level p s m).0 ≡ ok tt
unfolding delete_level
delete_level-found p s (level t cs vs) n e = rw (e, delete_level) refl

delete_level-cut :
    (p : AmlName) (s : NameSeg) (m n : Level) (rs : List NameSeg) (r : NameSeg)
    → find_child s (children_of m) ≡ some n
    → handle_at rs r (delete_level p s m).1
      ≡ (if is_below (s ∷ []) rs then none else handle_at rs r m)
unfolding delete_level is_below seg_eq handle_at
delete_level-cut p s (level t cs vs) n [] r e = rw (e, delete_level) refl
delete_level-cut p s (level t cs vs) n (c ∷ rs) r e =
    rw (e, delete_level) (ground (arith, handle_at-remove_child t cs vs s c rs r))

module _ {ℓ} {V : Type ℓ} where
  pub remove_level-found :
      (ns : Namespace V) (ss : List NameSeg) (s : NameSeg) (m : Level)
      → level_at ss ns.root_level ≡ some m
      → let deleted = delete_level (absolute (ss ++ s ∷ [])) s in
        remove_level ns (absolute (ss ++ s ∷ [])) ≡ (
          (deleted m).0,
          record ns { root_level = update_at ss (λ x. (deleted x).1) ns.root_level },
        )
  unfolding remove_level
  remove_level-found ns ss s m found =
      rw (absolute_normal-absolute (ss ++ s ∷ []), remove_level)
        (rw (not_root ss s) (
          rw
            (get_level_for_path_mut-found ss s ns.root_level m
              (λ l last. delete_level (absolute (ss ++ s ∷ [])) last l) found)
            refl))

  -- Where the level of an absolute path exists, `remove_level` succeeds: every handle in it and below
  -- it is gone from the tree, every other path leads where it did, and the objects and the counter
  -- of handles are unchanged.
  pub remove_level_lem :
      (ns : Namespace V) (ss : List NameSeg) (s : NameSeg) (m n : Level)
      → level_at ss ns.root_level ≡ some m
      → find_child s (children_of m) ≡ some n
      → let (result, after) = remove_level ns (absolute (ss ++ s ∷ [])) in
        (result ≡ ok tt)
        × ((qs : List NameSeg) (q : NameSeg)
            → handle_at qs q after.root_level
              ≡ (if is_below (ss ++ s ∷ []) qs then none else handle_at qs q ns.root_level))
        × (after.object_map ≡ ns.object_map)
        × (after.next_handle ≡ ns.next_handle)
  remove_level_lem ns ss s m n found child =
      let path = absolute (ss ++ s ∷ []) in
      rw (remove_level-found ns ss s m found) (
        delete_level-found path s m n child,
        (λ qs q.
            handle_at-cut ss s (λ x. (delete_level path s x).1) ns.root_level m qs q found
              (λ rs r. delete_level-cut path s m n rs r child)),
        refl,
        refl,
      )
