-- ===== src/Aml/Value.antt =====
-- aml/src/value.rs: the values of the interpreter. A buffer is shared (`Arc<Spinlock<Vec<u8>>>`), so
-- a value holds its address and the bytes stand in a store (`Aml.Value.Buffers`). A native method is
-- the number of a function of the host. Texts are lists of bytes.
pub mod Flags
pub mod Status
pub mod Arguments
pub mod Buffers
pub mod BufferFields
use Prim.Native.Char.{code}
use Prim.Native.String.{String}
use acpi_rs.Prelude.{ℕ, ◌-◌, ◌^◌, ◌==◌, Bool, List, [], ◌∷◌, Option, ok, err, ◌>>=◌, not}
use acpi_rs.BitField.{BitField}
use acpi_rs.Aml.Types.{AmlName, AmlType, Result, incompatible_value_conversion}
use acpi_rs.Aml.Value.Flags.{RegionSpace, method_flags}

abbrev pub codes : String → List ℕ
codes String.[] = []
codes (String.◌∷◌ c s) = code c ∷ codes s

-- `MethodCode`; `osi` is the closure under `\_OSI`, which `add_predefined_objects` defines.
pub data MethodCode : Type 0 where
  aml : List ℕ → MethodCode
  osi : MethodCode
  native : ℕ → MethodCode

mutual
  pub data AmlValue : Type 0 where
    boolean : Bool → AmlValue
    integer : ℕ → AmlValue
    string : List ℕ → AmlValue
    -- region, offset, length, parent_device
    op_region : RegionSpace → ℕ → ℕ → Option AmlName → AmlValue
    -- handle of the region, flags, offset, length
    field : ℕ → ℕ → ℕ → ℕ → AmlValue
    device : AmlValue
    -- flags, code
    method : ℕ → MethodCode → AmlValue
    buffer : ℕ → AmlValue
    -- address of the buffer, offset and length in bits
    buffer_field : ℕ → ℕ → ℕ → AmlValue
    -- id, pblk_address, pblk_len
    processor : ℕ → ℕ → ℕ → AmlValue
    mutex : ℕ → AmlValue
    aml_package : Values → AmlValue
    -- system_level, resource_order
    power_resource : ℕ → ℕ → AmlValue
    thermal_zone : AmlValue

  -- `Vec<AmlValue>`.
  pub data Values : Type 0 where
    end : Values
    item : AmlValue → Values → Values

unfoldable pub value_list : Values → List AmlValue
value_list end = []
value_list (item v vs) = v ∷ value_list vs

unfoldable pub package_of : List AmlValue → Values
package_of [] = end
package_of (v ∷ vs) = item v (package_of vs)

abbrev pub zero_value : AmlValue
zero_value = integer 0

abbrev pub one_value : AmlValue
one_value = integer 1

abbrev pub ones_value : AmlValue
ones_value = integer (2 ^ 64 - 1)

unfoldable pub native_method : ⦃bits : BitField⦄ → ℕ → Bool → ℕ → ℕ → Result AmlValue
native_method arg_count serialize sync_level f =
    method_flags arg_count serialize sync_level >>= λ flags. ok (method flags (native f))

unfoldable pub type_of : AmlValue → AmlType
type_of (boolean _) = AmlType.integer
type_of (integer _) = AmlType.integer
type_of (string _) = AmlType.string
type_of (op_region _ _ _ _) = AmlType.op_region
type_of (field _ _ _ _) = AmlType.field_unit
type_of device = AmlType.device
type_of (method _ _) = AmlType.method
type_of (buffer _) = AmlType.buffer
type_of (buffer_field _ _ _) = AmlType.buffer_field
type_of (processor _ _ _) = AmlType.processor
type_of (mutex _) = AmlType.mutex
type_of (aml_package _) = AmlType.aml_package
type_of (power_resource _ _) = AmlType.power_resource
type_of thermal_zone = AmlType.thermal_zone

-- The discriminants of `AmlType`, by which its derived equality compares.
abbrev pub rank : AmlType → ℕ
rank AmlType.uninitialized = 0
rank AmlType.buffer = 1
rank AmlType.buffer_field = 2
rank AmlType.ddb_handle = 3
rank AmlType.debug_object = 4
rank AmlType.event = 5
rank AmlType.field_unit = 6
rank AmlType.device = 7
rank AmlType.integer = 8
rank AmlType.method = 9
rank AmlType.mutex = 10
rank AmlType.obj_reference = 11
rank AmlType.op_region = 12
rank AmlType.aml_package = 13
rank AmlType.power_resource = 14
rank AmlType.processor = 15
rank AmlType.raw_data_buffer = 16
rank AmlType.string = 17
rank AmlType.thermal_zone = 18

unfoldable pub type_eq : AmlType → AmlType → Bool
type_eq a b = rank a == rank b

unfoldable pub as_bool : AmlValue → Result Bool
unfolding type_of
as_bool (boolean value) = ok value
as_bool (integer value) = ok (not (value == 0))
as_bool v = err (incompatible_value_conversion (type_of v) AmlType.integer)

-- The names that `as_concat_type` gives to the types that cannot be concatenated.
unfoldable pub concat_text : AmlType → AmlValue → AmlValue
concat_text AmlType.integer v = v
concat_text AmlType.string v = v
concat_text AmlType.buffer v = v
concat_text AmlType.uninitialized v = string (codes "[Uninitialized]")
concat_text AmlType.buffer_field v = string (codes "[Buffer Field]")
concat_text AmlType.ddb_handle v = string (codes "[Ddb Handle]")
concat_text AmlType.debug_object v = string (codes "[Debug Object]")
concat_text AmlType.event v = string (codes "[Event]")
concat_text AmlType.field_unit v = string (codes "[Field]")
concat_text AmlType.device v = string (codes "[Device]")
concat_text AmlType.method v = string (codes "[Control Method]")
concat_text AmlType.mutex v = string (codes "[Mutex]")
concat_text AmlType.obj_reference v = string (codes "[Obj Reference]")
concat_text AmlType.op_region v = string (codes "[Operation Region]")
concat_text AmlType.aml_package v = string (codes "[Package]")
concat_text AmlType.processor v = string (codes "[Processor]")
concat_text AmlType.power_resource v = string (codes "[Power Resource]")
concat_text AmlType.raw_data_buffer v = string (codes "[Raw Data Buffer]")
concat_text AmlType.thermal_zone v = string (codes "[Thermal Zone]")

unfoldable pub as_concat_type : AmlValue → AmlValue
unfolding concat_text type_of
as_concat_type v = concat_text (type_of v) v
