-- ===== src/Aml/Term/Fields.antt =====
-- aml/src/term_object.rs: the parsers of fields of buffers and of regions.
use acpi_rs.Prelude.{ℕ, zero, suc, ◌+◌, ◌*◌, ◌%◌, ◌^◌, [], ◌∷◌, if◌then◌else◌, ok}
use acpi_rs.BitField.{BitField}
use acpi_rs.Bytes.Bits.{BitVec}
use acpi_rs.Aml.Types.{AmlName, NameSeg}
use acpi_rs.Aml.Name.{from_name_seg}
use acpi_rs.Aml.Parsing
use acpi_rs.Aml.Parsing.{
  ParseResult, parsed, looping, PkgLength, and_then, then_next, feed, choice, discard_result,
}
use acpi_rs.Aml.Parsing.Scope.{DebugVerbosity, comment_scope}
use acpi_rs.Aml.PkgLength.{pkg_length, still_parsing}
use acpi_rs.Aml.Opcode.{opcode, ext_opcode}
use acpi_rs.Aml.Opcode.Terms.{
  def_create_bit_field_op, def_create_byte_field_op, def_create_word_field_op,
  def_create_dword_field_op, def_create_qword_field_op, ext_def_create_field_op, ext_def_field_op,
  reserved_field,
}
use acpi_rs.Aml.NameString.{name_seg, name_string}
use acpi_rs.Aml.Value.{AmlValue, field, buffer_field}
use acpi_rs.Aml.Context.{Handler, context_debug}
use acpi_rs.Aml.Action.{
  Action, P, ◌>>=◌, ◌>>◌, pure, integer_of, buffer_of, add_here, search_here, then_do,
}
use acpi_rs.Aml.Statement.{statement}

module _ {W : Type 0} where
  -- A statement whose opcode has two bytes.
  abbrev pub ext_statement : {R : Type 0} → ℕ → DebugVerbosity → P W R → P W (Unit {0})
  ext_statement code verbosity parser =
      discard_result (then_next (ext_opcode code) (comment_scope verbosity parser))

  -- The closure of a named field: its object, in the current scope.
  unfoldable pub add_field : ℕ → ℕ → ℕ → NameSeg × PkgLength → Action W ℕ
  add_field region_handle flags current_offset (segment, l) = do
    add_here (from_name_seg segment) (field region_handle flags current_offset l.raw_length)
    pure l.raw_length

  unfoldable pub find_region : AmlName → Action W ℕ
  find_region region_name = do (_, handle) ← search_here region_name; pure handle

  module _ ⦃bits : BitField⦄ where
    -- The length of the element, which a name or a reserved gap has.
    unfoldable pub field_element : ℕ → ℕ → ℕ → P W ℕ
    unfolding add_field
    field_element region_handle flags current_offset = choice (
        Parsing.map (then_next (opcode reserved_field) pkg_length) (λ (_, l). ok l.raw_length)
        ∷ then_do (then_next name_seg pkg_length) (add_field region_handle flags current_offset)
        ∷ [])

    -- The loop of `def_field`; a round takes one unit of fuel.
    unfoldable pub field_elements : ℕ → PkgLength → ℕ → ℕ → ℕ → P W (Unit {0})
    unfolding field_element
    field_elements zero list_length region_handle flags current_offset input c = looping
    field_elements (suc fuel) list_length region_handle flags current_offset input c =
        let round =
          and_then (field_element region_handle flags current_offset input c)
            (λ rest after field_length.
              field_elements fuel list_length region_handle flags
                ((current_offset + field_length) % 2 ^ 64) rest after) in
        if still_parsing list_length input then round else parsed input c tt

    unfoldable pub def_field : ℕ → P W (Unit {0})
    unfolding find_region field_elements
    def_field fuel = ext_statement ext_def_field_op DebugVerbosity.scopes (
        feed (then_next (then_next pkg_length (then_do name_string find_region)) Parsing.take)
          (λ ((list_length, region_handle), flags).
            field_elements fuel list_length region_handle flags 0))

module _ {W : Type 0} ⦃bits : BitField⦄ ⦃bv : BitVec⦄ ⦃h : Handler W⦄ where
  -- The closure that the fields of a fixed length share: `scale` is the number of bits that an index
  -- counts.
  unfoldable pub create_buffer_field : ℕ → ℕ → (AmlValue × AmlValue) × AmlName → Action W (Unit {0})
  create_buffer_field scale len ((source, index_arg), name) = do
    source_data ← buffer_of source
    index ← integer_of index_arg
    add_here name (buffer_field source_data (index * scale % 2 ^ 64) len)
    pure tt

  unfoldable pub create_field : ((AmlValue × AmlValue) × AmlValue) × AmlName → Action W (Unit {0})
  create_field (((source, index_arg), num_bits_arg), name) = do
    source_data ← buffer_of source
    index ← integer_of index_arg
    num_bits ← integer_of num_bits_arg
    add_here name (buffer_field source_data index num_bits)
    pure tt

  module _ (term_arg : P W AmlValue) where
    abbrev pub source_index_name : P W ((AmlValue × AmlValue) × AmlName)
    source_index_name = then_next (then_next term_arg term_arg) name_string

    unfoldable pub def_create_bit_field : P W (Unit {0})
    unfolding create_buffer_field
    def_create_bit_field =
        statement def_create_bit_field_op DebugVerbosity.all_scopes
          (then_do source_index_name (create_buffer_field 1 1))

    unfoldable pub def_create_byte_field : P W (Unit {0})
    unfolding create_buffer_field
    def_create_byte_field =
        statement def_create_byte_field_op DebugVerbosity.all_scopes
          (then_do source_index_name (create_buffer_field 8 8))

    unfoldable pub def_create_word_field : P W (Unit {0})
    unfolding create_buffer_field
    def_create_word_field =
        statement def_create_word_field_op DebugVerbosity.all_scopes
          (then_do source_index_name (create_buffer_field 8 16))

    unfoldable pub def_create_dword_field : P W (Unit {0})
    unfolding create_buffer_field
    def_create_dword_field =
        statement def_create_dword_field_op DebugVerbosity.all_scopes
          (then_do source_index_name (create_buffer_field 8 32))

    unfoldable pub def_create_qword_field : P W (Unit {0})
    unfolding create_buffer_field
    def_create_qword_field =
        statement def_create_qword_field_op DebugVerbosity.all_scopes
          (then_do source_index_name (create_buffer_field 8 64))

    unfoldable pub def_create_field : P W (Unit {0})
    unfolding create_field
    def_create_field = ext_statement ext_def_create_field_op DebugVerbosity.scopes (
        then_do (then_next (then_next (then_next term_arg term_arg) term_arg) name_string)
          create_field)
