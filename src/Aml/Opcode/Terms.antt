-- ===== src/Aml/Opcode/Terms.antt =====
-- aml/src/opcode.rs: the opcodes of terms.
use acpi_rs.Prelude.{ℕ}

abbrev pub reserved_field : ℕ
reserved_field = 0x00

abbrev pub zero_op : ℕ
zero_op = 0x00

abbrev pub one_op : ℕ
one_op = 0x01

abbrev pub ones_op : ℕ
ones_op = 0xff

abbrev pub byte_const : ℕ
byte_const = 0x0a

abbrev pub word_const : ℕ
word_const = 0x0b

abbrev pub dword_const : ℕ
dword_const = 0x0c

abbrev pub string_prefix : ℕ
string_prefix = 0x0d

abbrev pub qword_const : ℕ
qword_const = 0x0e

abbrev pub def_name_op : ℕ
def_name_op = 0x08

abbrev pub def_scope_op : ℕ
def_scope_op = 0x10

abbrev pub def_buffer_op : ℕ
def_buffer_op = 0x11

abbrev pub def_package_op : ℕ
def_package_op = 0x12

abbrev pub def_method_op : ℕ
def_method_op = 0x14

abbrev pub def_external_op : ℕ
def_external_op = 0x15

abbrev pub def_create_dword_field_op : ℕ
def_create_dword_field_op = 0x8a

abbrev pub def_create_word_field_op : ℕ
def_create_word_field_op = 0x8b

abbrev pub def_create_byte_field_op : ℕ
def_create_byte_field_op = 0x8c

abbrev pub def_create_bit_field_op : ℕ
def_create_bit_field_op = 0x8d

abbrev pub def_create_qword_field_op : ℕ
def_create_qword_field_op = 0x8f

abbrev pub ext_def_mutex_op : ℕ
ext_def_mutex_op = 0x01

abbrev pub ext_def_create_field_op : ℕ
ext_def_create_field_op = 0x13

abbrev pub ext_revision_op : ℕ
ext_revision_op = 0x30

abbrev pub ext_def_fatal_op : ℕ
ext_def_fatal_op = 0x32

abbrev pub ext_def_op_region_op : ℕ
ext_def_op_region_op = 0x80

abbrev pub ext_def_field_op : ℕ
ext_def_field_op = 0x81

abbrev pub ext_def_device_op : ℕ
ext_def_device_op = 0x82

abbrev pub ext_def_processor_op : ℕ
ext_def_processor_op = 0x83

abbrev pub ext_def_power_res_op : ℕ
ext_def_power_res_op = 0x84

abbrev pub ext_def_thermal_zone_op : ℕ
ext_def_thermal_zone_op = 0x85

abbrev pub def_continue_op : ℕ
def_continue_op = 0x9f

abbrev pub def_if_else_op : ℕ
def_if_else_op = 0xa0

abbrev pub def_else_op : ℕ
def_else_op = 0xa1

abbrev pub def_while_op : ℕ
def_while_op = 0xa2

abbrev pub def_noop_op : ℕ
def_noop_op = 0xa3

abbrev pub def_return_op : ℕ
def_return_op = 0xa4

abbrev pub def_break_op : ℕ
def_break_op = 0xa5

abbrev pub def_breakpoint_op : ℕ
def_breakpoint_op = 0xcc

abbrev pub def_store_op : ℕ
def_store_op = 0x70

abbrev pub def_add_op : ℕ
def_add_op = 0x72

abbrev pub def_concat_op : ℕ
def_concat_op = 0x73

abbrev pub def_increment_op : ℕ
def_increment_op = 0x75

abbrev pub def_decrement_op : ℕ
def_decrement_op = 0x76

abbrev pub def_shift_left : ℕ
def_shift_left = 0x79

abbrev pub def_shift_right : ℕ
def_shift_right = 0x7a

abbrev pub def_and_op : ℕ
def_and_op = 0x7b

abbrev pub def_concat_res_op : ℕ
def_concat_res_op = 0x84

abbrev pub def_l_or_op : ℕ
def_l_or_op = 0x91

abbrev pub def_l_not_op : ℕ
def_l_not_op = 0x92

abbrev pub def_l_equal_op : ℕ
def_l_equal_op = 0x93

abbrev pub def_l_greater_op : ℕ
def_l_greater_op = 0x94

abbrev pub def_l_less_op : ℕ
def_l_less_op = 0x95

abbrev pub def_to_integer_op : ℕ
def_to_integer_op = 0x99

abbrev pub def_mid_op : ℕ
def_mid_op = 0x9e
