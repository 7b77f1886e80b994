-- ===== src/Aml/Level.antt =====
-- aml/src/namespace.rs, `NamespaceLevel`: the tree of levels, and the paths that lead through it.
-- A level's children are a `BTreeMap` of levels, here a type of the same block.
pub mod Laws
pub mod Handles
pub mod Growth
use acpi_rs.Prelude.{
  ℕ, Ordering, List, [], ◌∷◌, ◌++◌, Option, some, none, ok, err, panic, get_last?, drop_last, drop,
  ◌>>=◌,
}
use acpi_rs.Aml.Types.{
  NameSeg, cmp_seg, NameComponent, root, prefix, segment, AmlName, Result, level_does_not_exist,
}
use acpi_rs.Aml.Name.{root_name}
use acpi_rs.Map
use acpi_rs.Map.{on_eq, seg_ord}

-- `LevelType`.
pub data LevelType : Type 0 where
  scope device processor power_resource thermal_zone method_locals : LevelType

-- `NamespaceLevel { typ, children, values }`; a handle is its number.
mutual
  pub data Level : Type 0 where
    level : LevelType → Children → List (NameSeg × ℕ) → Level

  pub data Children : Type 0 where
    no_children : Children
    child : NameSeg → Level → Children → Children

abbrev pub type_of : Level → LevelType
type_of (level t cs vs) = t

abbrev pub children_of : Level → Children
children_of (level t cs vs) = cs

abbrev pub values_of : Level → List (NameSeg × ℕ)
values_of (level t cs vs) = vs

-- `NamespaceLevel::new`.
abbrev pub new_level : LevelType → Level
new_level t = level t no_children []

-- `BTreeMap::get` of the children.
unfoldable pub find_child : NameSeg → Children → Option Level
find_child s no_children = none
find_child s (child t l cs) = on_eq (cmp_seg s t) (some l) (find_child s cs)

-- `BTreeMap::insert` of the children.
unfoldable pub insert_child : NameSeg → Level → Children → Children
insert_child s l no_children = child s l no_children
insert_child s l (child t m cs) = elim (cmp_seg s t) [
  | Ordering.lt ↦ child s l (child t m cs)
  | Ordering.eq ↦ child s l cs
  | Ordering.gt ↦ child t m (insert_child s l cs)
]

-- `BTreeMap::remove` of the children.
unfoldable pub remove_child : NameSeg → Children → Children
remove_child s no_children = no_children
remove_child s (child t m cs) =
    let rest = remove_child s cs in on_eq (cmp_seg s t) rest (child t m rest)

-- A write through `BTreeMap::get_mut` of the children: the entry stays where it is.
unfoldable pub write_child : NameSeg → Level → Children → Children
write_child s l no_children = no_children
write_child s l (child t m cs) = on_eq (cmp_seg s t) (child t l cs) (child t m (write_child s l cs))

unfoldable pub set_child : NameSeg → Level → Level → Level
unfolding write_child
set_child s l (level t cs vs) = level t (write_child s l cs) vs

-- The first two statements of `get_level_for_path`: the components between the first and the last
-- one, and the last one as a segment. The root, an empty path, a path of one component and one
-- that ends in no segment panic.
unfoldable pub split_tail : List NameComponent → Result (List NameComponent × NameSeg)
split_tail tail = elim (get_last? tail) [ some (segment s) ↦ ok (drop_last tail, s) | _ ↦ panic ]

unfoldable pub split_path : AmlName → Result (List NameComponent × NameSeg)
unfolding split_tail
split_path path = split_tail (drop 1 path)

-- The loop of `get_level_for_path`; `traversed` is the path walked so far.
unfoldable pub descend : Level → AmlName → List NameComponent → Result Level
descend current traversed [] = ok current
descend current traversed (segment s ∷ cs) = elim (find_child s (children_of current)) [
  | none ↦ err (level_does_not_exist (traversed ++ segment s ∷ []))
  | some next ↦ descend next (traversed ++ segment s ∷ []) cs
]
descend current traversed (root ∷ cs) = panic
descend current traversed (prefix ∷ cs) = panic

-- `get_level_for_path`.
unfoldable pub get_level_for_path : Level → AmlName → Result (Level × NameSeg)
get_level_for_path top path = do
  (levels, last) ← split_path path
  found ← descend top root_name levels
  ok (found, last)

module _ {ℓ} {A : Type ℓ} where
  -- The same walk with `&mut`: what `act` does to the level at its end is written back on the way
  -- up. Without that level nothing is changed.
  unfoldable pub descend_mut :
      Level → AmlName → List NameComponent → (Level → Result A × Level) → Result A × Level
  descend_mut current traversed [] act = act current
  descend_mut current traversed (segment s ∷ cs) act = elim (find_child s (children_of current)) [
    | none ↦ (err (level_does_not_exist (traversed ++ segment s ∷ [])), current)
    | some next ↦
        let (r, next') = descend_mut next (traversed ++ segment s ∷ []) cs act in
        (r, set_child s next' current)
  ]
  descend_mut current traversed (root ∷ cs) act = (panic, current)
  descend_mut current traversed (prefix ∷ cs) act = (panic, current)

  -- `get_level_for_path_mut`, with what its caller does to the level.
  unfoldable pub get_level_for_path_mut :
      Level → AmlName → (Level → NameSeg → Result A × Level) → Result A × Level
  get_level_for_path_mut top path act = elim (split_path path) [
    | ok (levels, last) ↦ descend_mut top root_name levels (λ l. act l last)
    | err e ↦ (err e, top)
    | panic ↦ (panic, top)
  ]
