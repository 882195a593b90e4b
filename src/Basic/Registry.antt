-- ===== src/Basic/Registry.antt =====
-- The registry numbers of basic/const.go.
use dbuf_demo_go.Common.{ℕ}

abbrev pub nonexistent : ℕ
nonexistent = 0

abbrev pub describe_no_value : ℕ
describe_no_value = 1

abbrev pub value : ℕ
value = 4

abbrev pub error : ℕ
error = 65

abbrev pub error_internal : ℕ
error_internal = 69

abbrev pub incomplete_stream : ℕ
incomplete_stream = 70

abbrev pub data_error : ℕ
data_error = 128

abbrev pub data_type_not_accepted : ℕ
data_type_not_accepted = 129

abbrev pub data_value_not_accepted : ℕ
data_value_not_accepted = 130

abbrev pub data_key_not_accepted : ℕ
data_key_not_accepted = 131

abbrev pub data_key_missing : ℕ
data_key_missing = 132

abbrev pub end_marker : ℕ
end_marker = 133

abbrev pub data_path : ℕ
data_path = 134

abbrev pub magic_number : ℕ
magic_number = 14606046
