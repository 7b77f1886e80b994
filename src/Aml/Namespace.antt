-- ===== src/Aml/Namespace.antt =====
-- aml/src/namespace.rs, `Namespace`: the tree of levels, the map from handles to objects, and the
-- counter of handles. A method that takes `&mut self` returns its result with the new namespace,
-- also where it fails. The objects are of any type.
pub mod Actions
pub mod Values
pub mod Invariant
pub mod Search
pub mod Removal
pub mod Creation
pub mod Missing
use acpi_rs.Prelude.{
  ℕ, zero, suc, ◌+◌, ◌%◌, ◌^◌, Bool, true, false, List, [], ◌∷◌, ◌++◌, Option, some, none, ok, err,
  panic, ◌>>=◌, ◌>>◌, assert, if◌then◌else◌, length,
}
use acpi_rs.Aml.Types.{
  NameSeg, root, AmlName, AmlError, Result, level_does_not_exist, value_does_not_exist,
  name_collision, tried_to_remove_root_namespace, root_has_no_parent,
}
use acpi_rs.Map
use acpi_rs.Map.{nat_ord, seg_ord}
use acpi_rs.Aml.Name.{
  is_absolute, search_rules_apply, normalize, parent, resolve, from_name_seg, root_name,
}
use acpi_rs.Aml.Level.{
  Level, level, LevelType, Children, child, no_children, new_level, values_of, children_of,
  find_child, insert_child, remove_child, get_level_for_path, get_level_for_path_mut,
}

-- `AmlHandle::increment` on its `u32`, wrapping as release builds do.
unfoldable pub increment : ℕ → ℕ
increment handle = (handle + 1) % 2 ^ 32

pub record Namespace {ℓ} (V : Type ℓ) : Type ℓ where
  pub next_handle : ℕ
  pub object_map : List (ℕ × V)
  pub root_level : Level

-- `Namespace::new`.
abbrev pub new {ℓ} : {V : Type ℓ} → Namespace V
new = record { next_handle = 0; object_map = []; root_level = new_level LevelType.scope }

-- `path == AmlName::root()`.
unfoldable pub is_root_name : AmlName → Bool
is_root_name (root ∷ []) = true
is_root_name _ = false

-- `assert!(path.is_absolute()); path.normalize()?`.
unfoldable pub absolute_normal : AmlName → Result AmlName
absolute_normal path = assert (is_absolute path) >> normalize path

-- What `add_level` does to the level above the new one: nothing if the child is there.
unfoldable pub create_level : NameSeg → LevelType → Level → Level
create_level last typ (level t cs vs) = elim (find_child last cs) [
  | none ↦ level t (insert_child last (new_level typ) cs) vs
  | some _ ↦ level t cs vs
]

-- What `remove_level` does to the level above.
unfoldable pub delete_level : AmlName → NameSeg → Level → Result (Unit {0}) × Level
delete_level path last (level t cs vs) = elim (find_child last cs) [
  | none ↦ (err (level_does_not_exist path), level t cs vs)
  | some _ ↦ (ok tt, level t (remove_child last cs) vs)
]

-- What `add_value` does to the level of the name: the handle is entered in any case.
unfoldable pub bind_value : AmlName → ℕ → NameSeg → Level → Result ℕ × Level
bind_value path handle last (level t cs vs) = (
  elim (Map.get last vs) [ none ↦ ok handle | some _ ↦ err (name_collision path) ],
  level t cs (Map.insert last handle vs),
)

module _ {ℓ} {V : Type ℓ} where
  abbrev pub with_root {κ} : {A : Type κ} → Namespace V → Result A × Level → Result A × Namespace V
  with_root ns (r, l) = (r, record ns { root_level = l })

  unfoldable pub add_level : Namespace V → AmlName → LevelType → Result (Unit {0}) × Namespace V
  add_level ns path typ = elim (absolute_normal path) [
    | ok p ↦
        if is_root_name p
        then (ok tt, ns)
        else with_root ns
            (get_level_for_path_mut ns.root_level p (λ l last. (ok tt, create_level last typ l)))
    | err e ↦ (err e, ns)
    | panic ↦ (panic, ns)
  ]

  unfoldable pub remove_level : Namespace V → AmlName → Result (Unit {0}) × Namespace V
  remove_level ns path = elim (absolute_normal path) [
    | ok p ↦
        if is_root_name p
        then (err tried_to_remove_root_namespace, ns)
        else with_root ns (get_level_for_path_mut ns.root_level p (λ l last. delete_level p last l))
    | err e ↦ (err e, ns)
    | panic ↦ (panic, ns)
  ]

  -- The object is stored under a fresh handle before the path is looked up.
  unfoldable pub store_object : Namespace V → V → Namespace V
  store_object ns value = record ns {
    next_handle = increment ns.next_handle;
    object_map = Map.insert ns.next_handle value ns.object_map;
  }

  unfoldable pub add_value : Namespace V → AmlName → V → Result ℕ × Namespace V
  add_value ns path value = elim (absolute_normal path) [
    | ok p ↦
        with_root (store_object ns value)
          (get_level_for_path_mut ns.root_level p (λ l last. bind_value p ns.next_handle last l))
    | err e ↦ (err e, ns)
    | panic ↦ (panic, ns)
  ]

  unfoldable pub add_value_at_resolved_path :
      Namespace V → AmlName → AmlName → V → Result ℕ × Namespace V
  add_value_at_resolved_path ns path scope value = elim (resolve path scope) [
    | ok p ↦ add_value ns p value
    | err e ↦ (err e, ns)
    | panic ↦ (panic, ns)
  ]

  -- `get`: a handle that is not in the map panics.
  unfoldable pub get : Namespace V → ℕ → Result V
  get ns handle = elim (Map.get handle ns.object_map) [ some v ↦ ok v | none ↦ panic ]

  -- A write through `get_mut`.
  unfoldable pub set : Namespace V → ℕ → V → Result (Unit {0}) × Namespace V
  set ns handle value = elim (Map.get handle ns.object_map) [
    | some _ ↦ (ok tt, record ns { object_map = Map.insert handle value ns.object_map })
    | none ↦ (panic, ns)
  ]

  unfoldable pub get_handle : Namespace V → AmlName → Result ℕ
  get_handle ns path = get_level_for_path ns.root_level path >>= λ (l, last).
      elim (Map.get last (values_of l)) [
        | some handle ↦ ok handle
        | none ↦ err (value_does_not_exist path)
      ]

  unfoldable pub get_by_path : Namespace V → AmlName → Result V
  get_by_path ns path = get_handle ns path >>= get ns

  -- One round of the loop of `search`: the value at this scope, if there is one. A level that is
  -- missing counts as no value.
  unfoldable pub look_in : Namespace V → AmlName → AmlName → Result (Option (AmlName × ℕ))
  look_in ns path scope = resolve path scope >>= λ name.
      elim (get_level_for_path ns.root_level name) [
        | ok (l, last) ↦ elim (Map.get last (values_of l)) [
          | some handle ↦ ok (some (name, handle))
          | none ↦ ok none
        ]
        | err (level_does_not_exist p) ↦ ok none
        | err e ↦ err e
        | panic ↦ panic
      ]

  -- One round of the loop of `search_for_level`: any error counts as no level.
  unfoldable pub look_for_level : Namespace V → AmlName → AmlName → Result (Option AmlName)
  look_for_level ns name scope = resolve name scope >>= λ full.
      elim (get_level_for_path ns.root_level full) [
        | ok (l, last) ↦ elim (find_child last (children_of l)) [
          | some _ ↦ ok (some full)
          | none ↦ ok none
        ]
        | err e ↦ ok none
        | panic ↦ panic
      ]

-- What the loops do after a round at `scope` that found nothing.
unfoldable pub next_scope : AmlName → AmlError → Result AmlName
next_scope scope not_found = elim (parent scope) [
  | ok p ↦ ok p
  | err root_has_no_parent ↦ err not_found
  | err e ↦ err e
  | panic ↦ panic
]

-- The loops of `search` and `search_for_level`, from the scope upwards; `none` means that the fuel
-- ran out.
unfoldable pub climb {ℓ} :
    {A : Type ℓ} → (AmlName → Result (Option A)) → AmlError → ℕ → AmlName → Option (Result A)
climb look not_found zero scope = none
climb look not_found (suc fuel) scope = elim (look scope) [
  | ok (some a) ↦ some (ok a)
  | ok none ↦ elim (next_scope scope not_found) [
    | ok p ↦ climb look not_found fuel p
    | err e ↦ some (err e)
    | panic ↦ some panic
  ]
  | err e ↦ some (err e)
  | panic ↦ some panic
]

module _ {ℓ} {V : Type ℓ} where
  -- The branch of `search` for paths that the search rules do not apply to.
  unfoldable pub search_exact : Namespace V → AmlName → AmlName → Result (AmlName × ℕ)
  search_exact ns path scope = do
    name ← resolve path scope
    (l, last) ← get_level_for_path ns.root_level name
    elim (Map.get last (values_of l)) [
      | some handle ↦ ok (name, handle)
      | none ↦ err (value_does_not_exist path)
    ]

  unfoldable pub search : Namespace V → AmlName → AmlName → Option (Result (AmlName × ℕ))
  search ns path starting_scope =
      if search_rules_apply path
      then if is_absolute starting_scope
        then climb (look_in ns path) (value_does_not_exist path) (length starting_scope)
            starting_scope
        else some panic
      else some (search_exact ns path starting_scope)

  unfoldable pub search_for_level : Namespace V → AmlName → AmlName → Option (Result AmlName)
  search_for_level ns level_name starting_scope =
      if search_rules_apply level_name
      then elim (normalize starting_scope) [
        | ok scope ↦
            if is_absolute scope
            then climb (look_for_level ns level_name) (level_does_not_exist level_name)
                (length scope) scope
            else some panic
        | err e ↦ some (err e)
        | panic ↦ some panic
      ]
      else some (ok level_name)
