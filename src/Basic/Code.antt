-- ===== src/Basic/Code.antt =====
-- The results of `CheckComplete` and `CheckCanonical`, the constants `CheckComplete_…` of
-- basic/decode.go.
use dbuf_demo_go.Common.{ℕ}

abbrev pub done : ℕ
done = 0

abbrev pub continue : ℕ
continue = 1

abbrev pub total_length_exceeded_initial_decode : ℕ
total_length_exceeded_initial_decode = 2

abbrev pub total_length_exceeded_slice : ℕ
total_length_exceeded_slice = 3

abbrev pub nested_length_exceeded_top_of_stack_complete : ℕ
nested_length_exceeded_top_of_stack_complete = 4

abbrev pub nested_length_exceeded_append_to_stack : ℕ
nested_length_exceeded_append_to_stack = 5

abbrev pub nested_length_exceeded_initial_decode : ℕ
nested_length_exceeded_initial_decode = 6

abbrev pub map_count_odd : ℕ
map_count_odd = 7

abbrev pub non_canonical_initial_decode : ℕ
non_canonical_initial_decode = 8

abbrev pub invalid_utf8 : ℕ
invalid_utf8 = 9
