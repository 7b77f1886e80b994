-- ===== src/Tests/Machines.antt =====
-- Instances that show that what the interfaces to other crates and to the handler ask for can be had.
use acpi_rs.Prelude.{◌+◌, ◌/◌, refl, length, none}
use acpi_rs.Bytes.{from_le_bytes}
use acpi_rs.Bytes.Bits.{BitVec, bits_of, to_bytes, from_bits, pow_pos}
use acpi_rs.Bytes.Slices.{LittleEndian}
use acpi_rs.Aml.Context.{Handler}

instance abbrev pub little_endian : LittleEndian
little_endian = record {
  read_u16 = λ bytes. from_le_bytes bytes;
  read_u32 = λ bytes. from_le_bytes bytes;
  read_uint = λ bytes n. from_le_bytes bytes;
  read_u16_lem = λ bytes h. refl;
  read_u32_lem = λ bytes h. refl;
  read_uint_lem = λ bytes n h k e. refl;
}

instance abbrev pub bit_lists : BitVec
bit_lists = record {
  view_bits = λ bytes. bits_of bytes;
  viewed_bytes = λ n bits. to_bytes n bits;
  viewed_integer = λ bits. from_bits bits;
  copied = λ head bits. to_bytes ((length bits + 7) / 8) bits;
  view_bits_lem = λ bytes. refl;
  viewed_bytes_lem = λ n bits h. refl;
  viewed_integer_lem = λ bits. refl;
  copied_lem = λ bits. refl;
}

-- A machine whose memory, ports and devices read as 0.
instance abbrev pub silent : Handler (Unit {0})
silent = record {
  read_memory = λ n a w. 0;
  write_memory = λ n a v w. w;
  read_io = λ n p w. 0;
  write_io = λ n p v w. w;
  read_pci = λ n s b d f o w. 0;
  write_pci = λ n s b d f o v w. w;
  handle_fatal_error = λ typ code arg w. none;
  read_memory-lt = λ n a w. pow_pos n;
  read_io-lt = λ n p w. pow_pos n;
  read_pci-lt = λ n s b d f o w. pow_pos n;
}
