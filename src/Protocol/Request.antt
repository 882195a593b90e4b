-- ===== src/Protocol/Request.antt =====
-- protocol/request.go: the sending of requests. A stream that a client opens is a parameter: what it
-- writes, the bytes of its request, goes to a function that gives the reader of the answer.
pub mod Send
use dbuf_demo_go.Common.{
  ℕ, Bool, true, false, if◌then◌else◌, ltb, [], ◌++◌, Bytes, Option, none, some,
}
use dbuf_demo_go.Common.Dict
use dbuf_demo_go.Basic.Registry
use dbuf_demo_go.Basic.Val
use dbuf_demo_go.Basic.Val.{
  DbufVal, DbufValSeq, leaf, nest, Sequence, no_items, item, to_dbuf_val_string,
}
use dbuf_demo_go.Basic.Number.{uint64}
use dbuf_demo_go.Basic.Error.{
  ◌>>=◌, Result, ok, err, GoError, eof, wrap_with, error_base, no_errors,
}
use dbuf_demo_go.Basic.Encode.{encode_full_seq}
use dbuf_demo_go.Basic.Keys.Equality.{key_eq}
use dbuf_demo_go.Protocol.Names
use dbuf_demo_go.Protocol.Reader.{Reader, map_err}
use dbuf_demo_go.Protocol.Stream.{read_header_initial, get_header_params}
use dbuf_demo_go.Protocol.Body.{Headers, lookup}
use dbuf_demo_go.Protocol.Outside.{Outside}
use dbuf_demo_go.Protocol.Store.Cache.{HeaderStoreCache}
use dbuf_demo_go.Protocol.Store.Properties.{HeaderStoreProperties, get_header_store_properties}

-- `body` is none for a nil reader.
pub record Request : Type 0 where
  pub stream_group : ℕ
  pub header : DbufValSeq
  pub body : Option Reader

-- `io.Copy`: all bytes of the reader, which ends with `io.EOF` if it has no error.
abbrev pub copied : Option Reader → Result Bytes
copied none = ok []
copied (some r) = ends (r.last)
  where
    ends : GoError → Result Bytes
    ends eof = ok (r.bytes)
    ends e = err e

-- The bytes that `WriteRequest` has written when it returns no error.
unfoldable pub write_request : Request → Result Bytes
unfolding uint64
write_request req =
    let group =
      if ltb 0 req.stream_group then encode_full_seq (leaf (uint64 req.stream_group)) else ok [] in
    group >>= λ g. encode_full_seq (req.header) >>= λ h. copied (req.body) >>= λ b. ok (g ++ h ++ b)

unfoldable pub create_request : Sequence → Option Reader → Request
create_request header_sequence body = record {
  stream_group = 0;
  header = nest Val.map header_sequence;
  body = body;
}

unfoldable pub create_authority_ref : Bytes → DbufValSeq
create_authority_ref host = nest Val.array (
    item (leaf (Val.registry Names.host))
      (item (leaf (Val.text host)) (item (leaf (Val.registry Names.authority_marker)) no_items)))
