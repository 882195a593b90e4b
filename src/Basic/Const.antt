-- ===== src/Basic/Const.antt =====
-- The other constants of basic/const.go.
use dbuf_demo_go.Common.{ℕ}

abbrev pub single_byte_threshold : ℕ
single_byte_threshold = 24

abbrev pub max_u32 : ℕ
max_u32 = 0xFFFF_FFFF
