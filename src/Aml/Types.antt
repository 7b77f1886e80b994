-- ===== src/Aml/Types.antt =====
-- aml/src: the plain data that its modules share. `NameSeg` (name_object.rs), `NameComponent` and
-- `AmlName` (namespace.rs), `AmlType` (value.rs), `AmlError` (lib.rs).
use acpi_rs.Prelude.{ℕ, compare, Ordering, ◌≡◌, ◌↔◌, Bool, true, false, List, Outcome, arith}

-- `NameSeg([u8; 4])`.
pub record NameSeg : Type 0 where
  pub byte_0 : ℕ
  pub byte_1 : ℕ
  pub byte_2 : ℕ
  pub byte_3 : ℕ

abbrev pub seg : ℕ → ℕ → ℕ → ℕ → NameSeg
seg a b c d = record { byte_0 = a; byte_1 = b; byte_2 = c; byte_3 = d }

abbrev pub then : Ordering → Ordering → Ordering
then Ordering.lt second = Ordering.lt
then Ordering.eq second = second
then Ordering.gt second = Ordering.gt

-- The derived `Ord` of `[u8; 4]`: lexicographic. It orders the `BTreeMap`s of the namespace.
unfoldable pub cmp_seg : NameSeg → NameSeg → Ordering
cmp_seg a b = then (compare a.byte_0 b.byte_0) (
    then (compare a.byte_1 b.byte_1) (then (compare a.byte_2 b.byte_2) (compare a.byte_3 b.byte_3)))

unfoldable pub seg_eq : NameSeg → NameSeg → Bool
seg_eq a b = elim (cmp_seg a b) [ Ordering.eq ↦ true | _ ↦ false ]

pub cmp_seg_refl : (a : NameSeg) → cmp_seg a a ≡ Ordering.eq
unfolding cmp_seg
cmp_seg_refl a = ground arith

pub eq_of_cmp_seg : (a b : NameSeg) → cmp_seg a b ≡ Ordering.eq → a ≡ b
unfolding cmp_seg
eq_of_cmp_seg a b h = ground arith

pub seg_eq_iff : (a b : NameSeg) → (seg_eq a b ≡ true) ↔ (a ≡ b)
unfolding seg_eq
seg_eq_iff a b = ground (arith, eq_of_cmp_seg a b, cmp_seg_refl a)

pub seg_eq_refl : (a : NameSeg) → seg_eq a a ≡ true
unfolding seg_eq
seg_eq_refl a = ground (arith, cmp_seg_refl a)

-- `NameComponent`.
pub data NameComponent : Type 0 where
  root prefix : NameComponent
  segment : NameSeg → NameComponent

-- `AmlName(Vec<NameComponent>)`.
abbrev pub AmlName : Type 0
AmlName = List NameComponent

-- `AmlType`.
pub data AmlType : Type 0 where
  uninitialized buffer buffer_field ddb_handle debug_object event field_unit device : AmlType
  integer method mutex obj_reference op_region aml_package power_resource processor : AmlType
  raw_data_buffer string thermal_zone : AmlType

-- `AmlError`, in the order of its declaration.
pub data AmlError : Type 0 where
  unexpected_end_of_stream : AmlError
  unexpected_byte : ℕ → AmlError
  malformed_stream invalid_name_seg invalid_pkg_length invalid_field_flags : AmlError
  unterminated_string_constant invalid_string_constant : AmlError
  invalid_region_space : ℕ → AmlError
  malformed_package malformed_buffer wrong_parser fatal_error : AmlError
  empty_names_are_invalid : AmlError
  invalid_normalized_name : AmlName → AmlError
  root_has_no_parent : AmlError
  level_does_not_exist value_does_not_exist name_collision : AmlName → AmlError
  tried_to_remove_root_namespace not_executing_control_method : AmlError
  invalid_arg_access invalid_local_access : ℕ → AmlError
  too_many_args break_in_invalid_position continue_in_invalid_position : AmlError
  prt_invalid_address prt_invalid_pin prt_invalid_source prt_invalid_gsi prt_no_entry : AmlError
  reserved_resource_type resource_descriptor_too_short : AmlError
  resource_descriptor_too_long unexpected_resource_type : AmlError
  incompatible_value_conversion : AmlType → AmlType → AmlError
  invalid_status_object invalid_shift_left invalid_shift_right : AmlError
  field_region_is_not_op_region field_invalid_address field_invalid_access_size : AmlError
  type_cannot_be_compared type_cannot_be_sliced : AmlType → AmlError
  type_cannot_be_written_to_buffer_field : AmlType → AmlError
  buffer_field_indexes_out_of_bounds : AmlError

abbrev pub Result {ℓ} : Type ℓ → Type ℓ
Result A = Outcome AmlError A
