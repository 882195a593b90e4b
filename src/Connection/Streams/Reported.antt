-- ===== src/Connection/Streams/Reported.antt =====
-- What the peer reads of the error of a stream.
use dbuf_demo_go.Common.{
  ℕ, ◌≤◌, ◌≡◌, refl, subst, inl, inr, ◌⊎◌, sym, true, false, Bool-cases, if◌then◌else◌, ltb, [],
  ◌++◌, Bytes, length, append-nil, IsU32, none, some, arith,
}
use dbuf_demo_go.Basic.ParseType
use dbuf_demo_go.Basic.Registry
use dbuf_demo_go.Basic.Val
use dbuf_demo_go.Basic.Val.{InitialDecode, DbufValSeq, leaf, nest, Sequence, no_items, item}
use dbuf_demo_go.Basic.Error.{ok, err, ◌>>=◌, GoError, error_to_val, eof}
use dbuf_demo_go.Basic.Wire.{header, wire, wire_items, IsWellFormed}
use dbuf_demo_go.Basic.Encode.Full.{encode_full_seq-wire}
use dbuf_demo_go.Basic.Decode.Header.{initial_of}
use dbuf_demo_go.Protocol.Names
use dbuf_demo_go.Protocol.Reader.{Reader}
use dbuf_demo_go.Protocol.Writer.{Writer, write, encode_write_to}
use dbuf_demo_go.Protocol.Stream.{read_stream_group, read_header_initial}
use dbuf_demo_go.Protocol.Stream.RoundTrip.{
  stream, read_stream_group-header, read_header_initial-header,
}
use dbuf_demo_go.Protocol.Outside.{Outside}
use dbuf_demo_go.Protocol.Action.{Action}
use dbuf_demo_go.Protocol.Dispatch.{RequestResponse, make_error_on_other_stream}
use dbuf_demo_go.Protocol.Execute.{Server, execute}
use dbuf_demo_go.Connection.Streams.{ErrorStream, report, Shared, server, handle_stream}

-- A new stream that takes all that is written on it.
abbrev pub new_stream : Writer
new_stream = record { sent = []; failure = none }

-- The message about the error of a stream.
abbrev pub message : ℕ → GoError → DbufValSeq
message stream_id e = make_error_on_other_stream stream_id (error_to_val e)

abbrev pub message_items : DbufValSeq → Sequence
message_items (leaf v) = no_items
message_items (nest v seq) = seq

group_bytes : ℕ → Bytes
group_bytes g = if ltb 0 g then header ParseType.uint g else []

report_bytes :
    (g stream_id : ℕ) (e : GoError)
    → IsU32 g
    → IsWellFormed (message stream_id e)
    → (report g stream_id e new_stream).1.sent ≡ group_bytes g ++ wire (message stream_id e)
unfolding report encode_write_to write group_bytes wire IsWellFormed
report_bytes g stream_id e k h = elim (Bool-cases (ltb 0 g)) [
  | inl p ↦
      rw
        (
          p,
          encode_full_seq-wire (leaf (Val.uint g)) (omega arith, k, tt),
          encode_full_seq-wire (message stream_id e) h,
          append-nil (header ParseType.uint g),
        )
        refl
  | inr p ↦ rw (p, encode_full_seq-wire (message stream_id e) h) refl
]

-- What the peer reads of the bytes `b`: the stream group `g`, if it is not 0, and then the header of
-- `v`, with the items of `v` behind it.
abbrev pub ReadsBack : ℕ → DbufValSeq → Bytes → Type 0
ReadsBack g v b =
    let items = wire_items (message_items v) in
    ((g ≡ 0)
      ⊎ (read_stream_group (stream b eof)
          ≡ ok (
            record { stream_group = g; first_byte = 0; use_first_byte = false },
            stream (wire v) eof,
          )))
    × ((read_stream_group (stream b eof) >>= λ x.
          read_header_initial x.1 x.0.first_byte x.0.use_first_byte)
        ≡ ok (initial_of ParseType.map (length items), stream items eof))

reads_back :
    (g : ℕ) (seq : Sequence)
    → IsU32 g
    → length (wire_items seq) ≤ Names.max_header_size
    → ReadsBack g (nest Val.map seq) (group_bytes g ++ wire (nest Val.map seq))
unfolding group_bytes wire
reads_back g seq k short =
    let n = length (wire_items seq) in
    let v = header ParseType.map n ++ wire_items seq in
    let (later, first) =
      read_header_initial-header ParseType.map n (wire_items seq) eof (omega arith) refl short in
    elim (Bool-cases (ltb 0 g)) [
      | inl p ↦ let group = read_stream_group-header g v eof k in rw (p, group) (inr refl, later)
      | inr p ↦ rw p (inl (ground arith), first)
    ]

module _ (o : Outside) (App : Type 0) (route : Action (RequestResponse o × App) (Unit {0})) where
  -- After an error of `Execute`, `HandleStream` cancels both sides of the stream, and on the stream that
  -- it opens, and closes, the peer reads the stream group, if it is not 0, and the header of a message
  -- with the id of the stream and the error, if that message can be encoded in a header.
  pub handle_stream-ReadsBack :
      (stream_id g : ℕ) (e : GoError) (r : Reader) (w : Writer) (both : Shared o App)
      (s : Server o App)
      → execute o App route true r (server o App both w) ≡ (g, err e, s)
      → IsU32 g
      → IsWellFormed (message stream_id e)
      → length (wire_items (message_items (message stream_id e))) ≤ Names.max_header_size
      → (es : ErrorStream) × ((handle_stream o App route stream_id
            (ok new_stream)
            r
            w
            both).error_stream
          ≡ some es)
        × (es.closed ≡ true)
        × ReadsBack g (message stream_id e) es.writer.sent
        × ((handle_stream o App route stream_id (ok new_stream) r w both).stream
            ≡ record { cancel_read = some 0; cancel_write = some Registry.error; closed = false })
  unfolding handle_stream make_error_on_other_stream
  handle_stream-ReadsBack stream_id g e r w both s run k h short =
      let seq = message_items (message stream_id e) in
      rw run (
        record { writer = (report g stream_id e new_stream).1; closed = true },
        refl,
        refl,
        subst (ReadsBack g (message stream_id e)) (sym (report_bytes g stream_id e k h))
            (reads_back g seq k short),
        refl,
      )
