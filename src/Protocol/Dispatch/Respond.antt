-- ===== src/Protocol/Dispatch/Respond.antt =====
-- protocol/dispatch.go: `EncodeWrite` and `Respond`, over the bytes that it has written when it returns no error.
use dbuf_demo_go.Common.{[], ◌++◌, Bytes, Option, none, some}
use dbuf_demo_go.Basic.Val.{DbufValSeq}
use dbuf_demo_go.Basic.Error.{Result, ok, err, ◌>>=◌, plain}
use dbuf_demo_go.Basic.Encode.{encode_full_seq}
use dbuf_demo_go.Protocol.Outside.{Outside}
use dbuf_demo_go.Protocol.Request.{copied}
use dbuf_demo_go.Protocol.Dispatch.{RequestResponse}

-- `EncodeWrite`, of a value that is there.
abbrev pub encode_write : Option DbufValSeq → Result Bytes
encode_write none = ok []
encode_write (some v) = encode_full_seq v

-- The headers, which have to be there.
abbrev pub write_headers : Option DbufValSeq → Result Bytes
write_headers none = err (plain "Request not handled")
write_headers (some v) = encode_write (some v)

unfoldable pub respond : {o : Outside} → RequestResponse o → Result Bytes
respond rr = do
  headers ← write_headers (rr.response_headers)
  body ← encode_write (rr.response_body)
  rest ← copied (rr.response_reader)
  ok (headers ++ body ++ rest)
