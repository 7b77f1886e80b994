-- ===== src/Tests/Resources.antt =====
-- aml/src/resource.rs, aml/src/value.rs: descriptors, flags, arguments and buffer fields.
use acpi_rs.Tests.Bits.{shifts}
use acpi_rs.Tests.Machines.{little_endian, bit_lists, silent}
use acpi_rs.Aml.Name.{root_name}
use acpi_rs.Aml.Namespace.{new}
use acpi_rs.Aml.Parsing.Scope.{DebugVerbosity}
use acpi_rs.Aml.Context.{Context}
use acpi_rs.Prelude.{
  none, ℕ, ◌*◌, ◌%◌, ◌^◌, ◌<◌, ◌+◌, ◌≤◌, ◌≡◌, ◌≢◌, ◌⊎◌, refl, true, false, List, [], ◌∷◌, length,
  replicate, ok, err, panic, some, arith,
}
use acpi_rs.Tests.Bits.{shifts}
use acpi_rs.Tests.Machines.{little_endian, bit_lists}
use acpi_rs.Aml.Types.{Result, too_many_args}
use acpi_rs.Aml.Value.{AmlValue, integer, buffer, buffer_field}
use acpi_rs.Aml.Value.Arguments.{Slots, from_list, arg, arg-from_list}
use acpi_rs.Aml.Value.Buffers.{Buffers, bytes_of}
use acpi_rs.Aml.Value.BufferFields.{read_bits, read_buffer_field, write_buffer_field}
use acpi_rs.Aml.Value.BufferFields.Laws.{read-write_buffer_field}
use acpi_rs.Aml.Resource.Types.{Resource, io_port, memory, fixed_location}
use acpi_rs.Aml.Resource.{resource_descriptor, resource_descriptor_list}
use acpi_rs.Aml.Resource.RoundTrip.{encode_list, resource_descriptor_list-encode_list}
use acpi_rs.Aml.Resource.Loop.{resource_descriptor_list-total}
use acpi_rs.Aml.Resource.Truncated.{resource_descriptor-truncated}

-- The port of a keyboard (see the test `test_parses_keyboard_crs`) and a range of memory.
abbrev keyboard : List Resource
keyboard =
    io_port (record {
      decodes_full_address = true;
      port_range = (0x60, 0x60);
      base_alignment = 1;
      port_count = 1;
    })
    ∷ memory (fixed_location false 0xfed00000 0x400)
    ∷ []

abbrev resources : Buffers
resources = encode_list keyboard 0 ∷ []

resource_descriptor_list-encode_list_example :
    resource_descriptor_list resources (buffer 0) ≡ some (ok keyboard)
resource_descriptor_list-encode_list_example =
    resource_descriptor_list-encode_list resources 0 keyboard 0 there (omega arith)
  where
    there : bytes_of resources 0 ≡ encode_list keyboard 0
    there = unfold bytes_of in refl

abbrev two_buffers : Context (Unit {0})
two_buffers = record {
  machine = tt;
  namespace = new;
  buffers = encode_list keyboard 0 ∷ encode_list keyboard 17 ∷ [];
  method_context = none;
  current_scope = root_name;
  indent = 0;
  verbosity = DebugVerbosity.none;
}

-- A descriptor that is cut off.
resource_descriptor_list-total_example :
    (r : Result (List Resource)) × (resource_descriptor_list ((0x22 ∷ 0x02 ∷ []) ∷ []) (buffer 0)
      ≡ some r)
resource_descriptor_list-total_example =
    resource_descriptor_list-total ((0x22 ∷ 0x02 ∷ []) ∷ []) (buffer 0)

resource_descriptor-truncated_example :
    (resource_descriptor (0x22 ∷ 0x02 ∷ []) ≡ panic)
    × (resource_descriptor (0x86 ∷ 9 ∷ 0 ∷ []) ≡ panic)
resource_descriptor-truncated_example =
    resource_descriptor-truncated 0x22 6 9 0 (0x02 ∷ []) [] (omega arith) (omega arith)
      (omega arith) (omega arith)

abbrev two_values : List AmlValue
two_values = integer 1 ∷ integer 2 ∷ []

abbrev eight_values : List AmlValue
eight_values = replicate 8 (integer 0)

arg-from_list_example :
    (args : Slots) × (from_list two_values ≡ ok args)
    × (length args ≡ 7)
    × (arg args 1 ≡ ok (integer 2))
    × (from_list eight_values ≡ err too_many_args)
arg-from_list_example = arg-from_list two_values eight_values 1 (omega arith) (omega arith)

abbrev zeros : Buffers
zeros = (0 ∷ 0 ∷ []) ∷ []

read-write_buffer_field_example :
    (store' : Buffers) × (write_buffer_field zeros (buffer_field 0 4 8) (integer 300)
      ≡ (ok tt, store'))
    × (read_buffer_field store' (buffer_field 0 4 8) ≡ (ok (integer (300 % 2 ^ 8)), store'))
    × ((b at n : ℕ)
        → (b ≢ 0) ⊎ ((at + n ≤ 4) ⊎ (4 + 8 ≤ at))
        → at + n < 2 ^ 64
        → read_bits store' b at n ≡ read_bits zeros b at n)
read-write_buffer_field_example =
    read-write_buffer_field zeros 0 4 8 300 (omega arith) (omega arith) inside small
  where
    inside : 4 + 8 ≤ length (bytes_of zeros 0) * 8
    inside = unfold bytes_of in omega arith

    small : length (bytes_of zeros 0) * 8 < 2 ^ 64
    small = unfold bytes_of in omega arith
