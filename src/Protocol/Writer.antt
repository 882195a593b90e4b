-- ===== src/Protocol/Writer.antt =====
-- `io.Writer` as protocol/dispatch.go uses it: `EncodeWrite`, and `Respond` with what it has written
-- when an error stops it.
use dbuf_demo_go.Common.{ℕ, ◌-◌, if◌then◌else◌, leb, ◌++◌, Bytes, take, length, Option, none, some}
use dbuf_demo_go.Basic.Val.{DbufValSeq}
use dbuf_demo_go.Basic.Error.{Result, ok, err, GoError, plain, eof}
use dbuf_demo_go.Basic.Encode.{encode_full_seq}
use dbuf_demo_go.Protocol.Reader.{Reader}
use dbuf_demo_go.Protocol.Outside.{Outside}
use dbuf_demo_go.Protocol.Action.{Action, pure, lift, ◌>>=◌}
use dbuf_demo_go.Protocol.Dispatch.{RequestResponse}

-- The bytes that have been written, and the number of bytes and the error that the writer will stop
-- with, if it does. How the bytes are cut into writes cannot be seen.
pub record Writer : Type 0 where
  pub sent : Bytes
  pub failure : Option (ℕ × GoError)

abbrev write_within : Bytes → Option (ℕ × GoError) → Action Writer (Unit {0})
write_within b none w = (ok tt, record w { sent = w.sent ++ b })
write_within b (some (n, e)) w =
    if leb (length b) n
    then (ok tt, record { sent = w.sent ++ b; failure = some (n - length b, e) })
    else (err e, record { sent = w.sent ++ take n b; failure = some (0, e) })

unfoldable pub write : Bytes → Action Writer (Unit {0})
write b w = write_within b w.failure w

-- `EncodeWrite`
unfoldable pub encode_write_to : DbufValSeq → Action Writer (Unit {0})
unfolding write
encode_write_to v = do b ← lift (encode_full_seq v); write b

-- The error that a reader ends with, if it is not `io.EOF`.
abbrev pub unless_eof : GoError → Result (Unit {0})
unless_eof eof = ok tt
unless_eof e = err e

-- `io.Copy`: what there is to read is written before the error of the reader is returned.
unfoldable pub copy_to : Reader → Action Writer (Unit {0})
unfolding write
copy_to r = do _ ← write r.bytes; lift (unless_eof r.last)

abbrev pub when_some {ℓ} :
    {A : Type ℓ} → (A → Action Writer (Unit {0})) → Option A → Action Writer (Unit {0})
when_some f none = pure tt
when_some f (some a) = f a

abbrev pub write_headers_to : Option DbufValSeq → Action Writer (Unit {0})
write_headers_to none = lift (err (plain "Request not handled"))
write_headers_to (some v) = encode_write_to v

unfoldable pub respond_to : {o : Outside} → RequestResponse o → Action Writer (Unit {0})
unfolding encode_write_to copy_to
respond_to rr = do
  _ ← write_headers_to rr.response_headers
  _ ← when_some encode_write_to rr.response_body
  when_some copy_to rr.response_reader
