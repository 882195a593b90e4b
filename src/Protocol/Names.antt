-- ===== src/Protocol/Names.antt =====
-- The registry numbers and the sizes of protocol/const.go and protocol/stream.go.
use dbuf_demo_go.Common.{ℕ, ◌^◌}

abbrev pub reference : ℕ
reference = 8

abbrev pub operation : ℕ
operation = 9

abbrev pub authority_marker : ℕ
authority_marker = 10

abbrev pub host : ℕ
host = 11

abbrev pub header_store : ℕ
header_store = 12

abbrev pub identity : ℕ
identity = 135

abbrev pub identity_key : ℕ
identity_key = 136

abbrev pub identity_recovery : ℕ
identity_recovery = 137

abbrev pub deliver_message : ℕ
deliver_message = 138

abbrev pub ed25519 : ℕ
ed25519 = 139

abbrev pub body_length : ℕ
body_length = 140

abbrev pub stream_group : ℕ
stream_group = 141

abbrev pub header : ℕ
header = 142

abbrev pub body : ℕ
body = 143

abbrev pub footer : ℕ
footer = 144

abbrev pub not_authenticated : ℕ
not_authenticated = 145

abbrev pub stream_id : ℕ
stream_id = 146

abbrev pub port : ℕ
port = 147

abbrev pub max_header_size : ℕ
max_header_size = 2 ^ 14

abbrev pub header_store_cache_max_size : ℕ
header_store_cache_max_size = 2 ^ 16

abbrev pub small_request_buffer_size : ℕ
small_request_buffer_size = 2 ^ 14
