-- ===== src/Tests/Namespaces.antt =====
-- aml/src/namespace.rs: a namespace with a device and two values.
use acpi_rs.Prelude.{
  ℕ, ◌≡◌, ◌↔◌, refl, compare, List, [], ◌∷◌, ◌++◌, ok, err, some, none, ◌&&◌, if◌then◌else◌, arith,
}
use acpi_rs.Aml.Types.{NameSeg, seg, cmp_seg, seg_eq, name_collision}
use acpi_rs.Map
use acpi_rs.Map.{on_eq, nat_ord, seg_ord}
use acpi_rs.Aml.Name.{from_name_seg, is_absolute, is_normal, normalize}
use acpi_rs.Aml.Level.{
  Level, level, LevelType, new_level, no_children, child, children_of, find_child,
  get_level_for_path, get_level_for_path_mut, split_path, split_tail, descend, descend_mut,
}
use acpi_rs.Aml.Level.Laws.{level_at, absolute}
use acpi_rs.Aml.Level.Handles.{handle_at, path_eq}
use acpi_rs.Aml.Namespace.{
  Namespace, new, add_value, add_level, remove_level, get, get_handle, get_by_path, search,
  absolute_normal, store_object, bind_value,
}
use acpi_rs.Aml.Namespace.Values.{add_value_lem, get_handle-handle_at}
use acpi_rs.Aml.Namespace.Invariant.{IsValid, new-IsValid, add_value-IsValid, get-get_handle}
use acpi_rs.Aml.Namespace.Creation.{add_level_lem}
use acpi_rs.Aml.Namespace.Removal.{is_below, remove_level_lem}
use acpi_rs.Aml.Namespace.Search.{nearest, found_in, from_top, search-nearest}

abbrev dev : NameSeg
dev = seg b'D' b'E' b'V' b'0'

abbrev sta : NameSeg
sta = seg b'_' b'S' b'T' b'A'

-- A device in the root, and a value `_STA` in the root.
abbrev device_level : Level
device_level = level LevelType.device no_children []

abbrev sample : Namespace ℕ
sample = record {
  next_handle = 1;
  object_map = (0, 7) ∷ [];
  root_level = level LevelType.scope (child dev device_level no_children) ((sta, 0) ∷ []);
}

device_found : level_at (dev ∷ []) sample.root_level ≡ some device_level
unfolding level_at find_child cmp_seg
device_found = refl

add_value_lem_example :
    let path = absolute ((dev ∷ []) ++ sta ∷ []) in
    let (result, after) = add_value sample path 15 in
    (result ≡ (elim (handle_at (dev ∷ []) sta sample.root_level) [
      | none ↦ ok 1
      | some _ ↦ err (name_collision path)
    ]))
    × ((qs : List NameSeg) (q : NameSeg)
        → handle_at qs q after.root_level ≡ (
            if path_eq qs (dev ∷ []) && seg_eq q sta
            then some 1
            else handle_at qs q sample.root_level))
    × ((h : ℕ)
        → Map.get h after.object_map ≡ on_eq (compare h 1) (some 15) (Map.get h sample.object_map))
add_value_lem_example = add_value_lem sample (dev ∷ []) sta 15 device_level device_found

get_handle-handle_at_example :
    (get_handle sample (absolute ([] ++ sta ∷ [])) ≡ ok 0)
    ↔ (handle_at [] sta sample.root_level ≡ some 0)
get_handle-handle_at_example = get_handle-handle_at sample [] sta 0

search-nearest_example :
    search sample (from_name_seg sta) (absolute (from_top (dev ∷ [])))
    ≡ some (found_in sta (nearest sample.root_level sta (dev ∷ [])))
search-nearest_example = search-nearest sample sta (dev ∷ [])

sample_top : level_at [] sample.root_level ≡ some sample.root_level
unfolding level_at
sample_top = refl

-- `\DEV0` is there already.
add_level_lem_example :
    let (result, after) = add_level sample (absolute ([] ++ dev ∷ [])) LevelType.scope in
    (result ≡ ok tt)
    × (level_at ([] ++ dev ∷ []) after.root_level
        ≡ (elim (find_child dev (children_of sample.root_level)) [
          | none ↦ some (new_level LevelType.scope)
          | some there ↦ some there
        ]))
    × ((qs : List NameSeg) (q : NameSeg)
        → handle_at qs q after.root_level ≡ handle_at qs q sample.root_level)
    × (after.object_map ≡ sample.object_map)
    × (after.next_handle ≡ sample.next_handle)
add_level_lem_example = add_level_lem sample [] dev LevelType.scope sample.root_level sample_top

add_value-IsValid_example : IsValid (add_value {V = ℕ} new (absolute (dev ∷ [])) 15).1
add_value-IsValid_example = add_value-IsValid new (absolute (dev ∷ [])) 15 (omega arith) new-IsValid

-- `\DEV0` holds 15 under the handle 0.
abbrev with_value : Namespace ℕ
with_value = (add_value new (absolute (dev ∷ [])) 15).1

root_found : level_at [] (new {V = ℕ}).root_level ≡ some (level LevelType.scope no_children [])
unfolding level_at
root_found = refl

value_handle : get_handle with_value (absolute (dev ∷ [])) ≡ ok 0
unfolding get_handle get_level_for_path split_path split_tail descend add_value absolute_normal
    is_absolute normalize is_normal store_object get_level_for_path_mut descend_mut bind_value
    Map.insert Map.get cmp_seg
value_handle = refl

get-get_handle_example :
    (v : ℕ) × (get with_value 0 ≡ ok v) × (get_by_path with_value (absolute (dev ∷ [])) ≡ ok v)
get-get_handle_example =
    get-get_handle with_value (absolute (dev ∷ [])) 0
      (add_value-IsValid new (absolute (dev ∷ [])) 15 (omega arith) new-IsValid) value_handle

device_child : find_child dev (children_of sample.root_level) ≡ some device_level
unfolding find_child cmp_seg
device_child = refl

remove_level_lem_example :
    let (result, after) = remove_level sample (absolute ([] ++ dev ∷ [])) in
    (result ≡ ok tt)
    × ((qs : List NameSeg) (q : NameSeg)
        → handle_at qs q after.root_level
          ≡ (if is_below (dev ∷ []) qs then none else handle_at qs q sample.root_level))
    × (after.object_map ≡ sample.object_map)
    × (after.next_handle ≡ sample.next_handle)
remove_level_lem_example =
    remove_level_lem sample [] dev sample.root_level device_level sample_top device_child
