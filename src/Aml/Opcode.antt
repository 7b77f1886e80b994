-- ===== src/Aml/Opcode.antt =====
-- aml/src/opcode.rs: the parsers of an opcode, and the opcodes of names and of miscellaneous
-- objects.
pub mod Terms
use acpi_rs.Prelude.{ℕ, ◌==◌, [], ◌∷◌, if◌then◌else◌, arith, refl, Bool-cases, inl, inr}
use acpi_rs.Aml.Types.{unexpected_end_of_stream, wrong_parser}
use acpi_rs.Aml.Parsing
use acpi_rs.Aml.Parsing.{ParseResult, parsed, failed, failure, Parser}
use acpi_rs.Aml.Parsing.Progress.{
  IsAdvancing, Reaches-refl, then_next-IsAdvancing, discard_result-IsAdvancing,
}

abbrev pub null_name_code : ℕ
null_name_code = 0x00

abbrev pub dual_name_prefix : ℕ
dual_name_prefix = 0x2e

abbrev pub multi_name_prefix : ℕ
multi_name_prefix = 0x2f

abbrev pub root_char : ℕ
root_char = 92

abbrev pub prefix_char : ℕ
prefix_char = b'^'

abbrev pub ext_debug_op : ℕ
ext_debug_op = 0x31

abbrev pub local0_op : ℕ
local0_op = 0x60

abbrev pub arg0_op : ℕ
arg0_op = 0x68

abbrev pub ext_opcode_prefix : ℕ
ext_opcode_prefix = 0x5b

module _ {C V : Type 0} where
  unfoldable pub opcode : ℕ → Parser C V (Unit {0})
  opcode code [] context = failed [] context (failure unexpected_end_of_stream)
  opcode code (byte ∷ rest) context =
      if byte == code
      then parsed rest context tt
      else failed (byte ∷ rest) context (failure wrong_parser)

  unfoldable pub ext_opcode : ℕ → Parser C V (Unit {0})
  ext_opcode code =
      Parsing.discard_result (Parsing.then_next (opcode ext_opcode_prefix) (opcode code))

pub opcode-IsAdvancing : (C V : Type 0) (code : ℕ) → IsAdvancing {C = C} {V = V} 1 (opcode code)
unfolding opcode
opcode-IsAdvancing C V code [] context = Reaches-refl []
opcode-IsAdvancing C V code (b ∷ bs) context = elim (Bool-cases (b == code)) [
  | inl e ↦ rw e (record { consumed = b ∷ []; split = refl; enough = omega arith })
  | inr e ↦ rw e (Reaches-refl (b ∷ bs))
]

pub ext_opcode-IsAdvancing :
    (C V : Type 0) (code : ℕ) → IsAdvancing {C = C} {V = V} 2 (ext_opcode code)
unfolding ext_opcode
ext_opcode-IsAdvancing C V code =
    discard_result-IsAdvancing 2 (Parsing.then_next (opcode ext_opcode_prefix) (opcode code)) (
      then_next-IsAdvancing 1 1 (opcode ext_opcode_prefix) (opcode code)
        (opcode-IsAdvancing C V ext_opcode_prefix) (opcode-IsAdvancing C V code))
