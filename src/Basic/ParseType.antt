-- ===== src/Basic/ParseType.antt =====
-- The parse types of basic/const.go: the top three bits of an initial byte.
use dbuf_demo_go.Common.{ℕ}

abbrev pub integer : ℕ
integer = 0

abbrev pub float : ℕ
float = 1

abbrev pub text : ℕ
text = 2

abbrev pub bytes : ℕ
bytes = 3

abbrev pub array : ℕ
array = 4

abbrev pub map : ℕ
map = 5

abbrev pub registry : ℕ
registry = 6

abbrev pub uint : ℕ
uint = 7
