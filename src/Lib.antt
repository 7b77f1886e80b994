-- ===== src/Lib.antt =====
-- Verification of acpi-rs: the crates rsdp, acpi and aml, by models translated from their sources.
--
-- A machine's firmware leaves a structure (RSDP) in memory that leads to its tables. The crate rsdp
-- finds and checks it; acpi reads the tables; aml parses and interprets the byte code in some of
-- them, which fills a namespace of named objects. The modelled parts:
--
--   Rsdp       rsdp/src/lib.rs: `Rsdp::validate`, `find_search_areas`, `search_for_on_bios`.
--              A memory is a function from addresses to bytes, which is what the mappings of the
--              handler show. `search_for_on_bios` copies the 36 bytes of a structure before it
--              validates it; what lies beyond the copy is a memory of its own, any one, and so is
--              what lies past the end of the mapping of an area, which a copy near its end reads.
--   Acpi.Sdt   acpi/src/sdt.rs: `SdtHeader::validate`, on the bytes from the header on.
--   Acpi.Madt  acpi/src/madt.rs with acpi/src/platform/ and acpi/src/managed_slice.rs: the passes of
--              `parse_interrupt_model_in` and `parse_apic_model_in` over the entries of the table. A
--              `ManagedSlice` is its cells, each written or not, with the index of the next one: one
--              cell for each element that the block of the allocator has room for. An allocator,
--              which the functions take, refuses a call or grants a block, which may be larger than
--              asked for.
--   Acpi.Mcfg  acpi/src/mcfg.rs: the entries of the table, and `physical_address` in a list of them, where a
--              sum above 2^64 wraps.
--   Aml.Types, Aml.Segment, Aml.Name
--              aml/src/name_object.rs (`NameSeg`), aml/src/namespace.rs (`AmlName`): segments, and
--              names as lists of components; text is the list of its bytes.
--   Aml.Level, Aml.Namespace
--              aml/src/namespace.rs (`NamespaceLevel`, `Namespace`): the tree of levels, the map from
--              handles to objects of any type, and the counter of handles, which wraps at 2^32.
--              A method on `&mut self` returns its result with the new namespace, also where it
--              fails. `get_level_for_path_mut` takes what is done to the level it returns.
--   Aml.Parsing, Aml.Opcode, Aml.PkgLength, Aml.NameString
--              aml/src/parser.rs, opcode.rs, pkg_length.rs, name_object.rs and misc.rs: a parser
--              takes a stream of bytes and a context and returns both with its result or with what
--              it propagates. The context is of any type; comments read and write its indentation
--              through the interface `DebugContext`.
--   Aml.Value  aml/src/value.rs: `AmlValue` with its flags, `StatusObject`, `Args`, and buffer fields. A
--              buffer is an address in a store of buffers, since values share it; a native method is a
--              number; a package is a list of values in a type of its own.
--   Aml.Context
--              aml/src/lib.rs (`Handler`, `MethodContext`, `AmlContext`) and the conversions of
--              aml/src/value.rs that read the context: accesses to regions, locals and arguments,
--              `store`, `invoke_method`, `parse_table`. The handler reads and writes a machine of any
--              type, which a read does not change. The parser of terms, which Aml.Term supplies, and the
--              native methods of the host are arguments of `invoke_method`, but for the one of `\_OSI`.
--   Aml.Action, Aml.Expression, Aml.Statement, Aml.Term
--              aml/src/expression.rs, statement.rs and term_object.rs: the parsers of terms, which run
--              as they parse. The closures of `map_with_context` are actions: functions from a context
--              to a result and a context, in do blocks with one step for each `try_with_context!`. The
--              parsers that call each other take what they call as arguments; Aml.Term ties them by
--              recursion on fuel. Aml.Term.Eval is an evaluator of trees of expressions with their
--              code, against which Aml.Term.Evaluate and Aml.Term.Returns set the parsers.
--   Aml.Resource, Aml.PciRouting
--              aml/src/resource.rs and pci_routing.rs: the descriptors in a buffer of resources, the
--              routing table that _PRT gives, and the interrupt of a device's pin.
--   Map        the `BTreeMap`s of the namespace: entries in the order of their keys.
--   Bytes      what the sources use of `core` on bytes: little-endian integers, arrays, wrapping sums,
--              UTF-8; and slices with their panics. `LittleEndian` is the part of the crate byteorder
--              that the sources use, and `BitVec` that of the crate bitvec: interfaces with the
--              documented meaning of their functions.
--   BitField   the crate bit_field, an interface with the documented meaning of its reads and writes,
--              and its bounds.
--   Prelude    names of the libraries, tests on numbers, lists, and `Outcome`: `Ok`, `Err` or a panic.
--   Tests      runs at concrete inputs.
--
-- A failed `assert!`, `unwrap` or index is the outcome `panic`, and so is a call that never returns:
-- a lock taken twice, or a region whose access leads to the same region again. A `usize` has 64
-- bits; `increment` and `decrement` wrap, as they do in release builds. These loops run on fuel:
--   - `climb`, the loop of `search` and `search_for_level`, has one unit for each component of the
--     starting scope, since a parent has fewer components; `none` says that it ran out;
--   - `take_while` and `resource_descriptor_list` have one for each byte, of which a round consumes at
--     least one, and one to stop; `looping` and `none` say that they ran out;
--   - `read_region` evaluates objects that may be fields of other regions: it has one unit for each
--     object of the namespace and one more, so that running out of it means that a region is met again;
--   - `terms`, the recursion of terms, has one unit for each call of a term's parser by another and for
--     each round of a loop: a method may loop for ever, so that no number is enough for all of them.
--     Running out of it is `looping`, which `parse_table` and `invoke_method` make a panic;
--   - `next_power_of_two` and `bit_or` take one round for each of 64 bits.
--
-- Not modelled: the search for tables and the other tables of the crate acpi, and the iterator that
-- reads the entries of the MADT from memory; `initialize_objects` and the predefined objects but for
-- the answer of `\_OSI`; `Namespace::traverse`; output for debugging; the handlers and their raw pointers.
pub mod Prelude
pub mod Aml
pub mod Map
pub mod BitField
pub mod Bytes
pub mod Rsdp
pub mod Acpi
pub mod Tests
