-- ===== src/Connection/Streams.antt =====
-- connection/connection.go: `HandleStream`, `HandleUniStream` and `HandleDatagram`. QUIC is what the
-- calls see of it: the bytes of a stream, and the stream that is opened for an error. What the calls
-- log is left out.
pub mod Reported
use dbuf_demo_go.Common.{ℕ, Bool, true, false, if◌then◌else◌, ltb, Bytes, Option, none, some, []}
use dbuf_demo_go.Basic.Val
use dbuf_demo_go.Basic.Val.{leaf}
use dbuf_demo_go.Basic.Registry
use dbuf_demo_go.Basic.Error.{Result, ok, err, panic, stuck, GoError, error_to_val, eof}
use dbuf_demo_go.Protocol.Reader.{Reader}
use dbuf_demo_go.Protocol.Writer.{Writer, encode_write_to}
use dbuf_demo_go.Protocol.Outside.{Outside}
use dbuf_demo_go.Protocol.Action.{Action, pure, ◌>>=◌}
use dbuf_demo_go.Protocol.Store.Cache.{HeaderStoreCache}
use dbuf_demo_go.Protocol.Dispatch.{RequestResponse, make_error_on_other_stream}
use dbuf_demo_go.Protocol.Execute.{Server, execute}

-- What has been done to a stream besides reading and writing: the codes of `CancelRead` and
-- `CancelWrite`, and whether its writing side is closed.
pub record StreamState : Type 0 where
  pub cancel_read : Option ℕ
  pub cancel_write : Option ℕ
  pub closed : Bool

-- The stream that `OpenUniStreamSync` has opened.
pub record ErrorStream : Type 0 where
  pub writer : Writer
  pub closed : Bool

-- What is written on it: the stream group, if there is one, and the error of the stream.
unfoldable pub report : ℕ → ℕ → GoError → Action Writer (Unit {0})
unfolding encode_write_to make_error_on_other_stream error_to_val
report stream_group stream_id e = do
  _ ← if ltb 0 stream_group then encode_write_to (leaf (Val.uint stream_group)) else pure tt
  encode_write_to (make_error_on_other_stream stream_id (error_to_val e))

-- The error stream is closed whether the report was written or not; there is none if it could not be
-- opened.
abbrev pub report_on : ℕ → ℕ → GoError → Result Writer → Option ErrorStream
report_on stream_group stream_id e (ok w) =
    some (record { writer = (report stream_group stream_id e w).1; closed = true })
report_on stream_group stream_id e m = none

module _ (o : Outside) (App : Type 0) where
  -- What the streams of a connection share.
  abbrev pub Shared : Type 0
  Shared = HeaderStoreCache o × App

  abbrev pub server : Shared → Writer → Server o App
  server (c, app) w = record { cache = c; app = app; writer = w }

  abbrev pub shared : Server o App → Shared
  shared s = (s.cache, s.app)

  -- What a handler of a stream leaves.
  pub record Handled : Type 0 where
    pub outcome : Result (Unit {0})
    pub stream : StreamState
    pub written : Writer
    pub error_stream : Option ErrorStream
    pub left : Shared

  module _ (route : Action (RequestResponse o × App) (Unit {0})) where
    -- What is done about the error of `Execute`; the deferred `CancelRead` is always called, a panic
    -- goes on behind it.
    abbrev pub stream_handled : ℕ → Result Writer → ℕ × Result (Unit {0}) × Server o App → Handled
    stream_handled stream_id opened (stream_group, ok u, s) = record {
      outcome = ok tt;
      stream = record { cancel_read = some 0; cancel_write = none; closed = true };
      written = s.writer;
      error_stream = none;
      left = shared s;
    }
    stream_handled stream_id opened (stream_group, err e, s) = record {
      outcome = ok tt;
      stream = record { cancel_read = some 0; cancel_write = some Registry.error; closed = false };
      written = s.writer;
      error_stream = report_on stream_group stream_id e opened;
      left = shared s;
    }
    stream_handled stream_id opened (stream_group, panic, s) = record {
      outcome = panic;
      stream = record { cancel_read = some 0; cancel_write = none; closed = false };
      written = s.writer;
      error_stream = none;
      left = shared s;
    }
    stream_handled stream_id opened (stream_group, stuck, s) = record {
      outcome = stuck;
      stream = record { cancel_read = none; cancel_write = none; closed = false };
      written = s.writer;
      error_stream = none;
      left = shared s;
    }

    -- `opened` is what `OpenUniStreamSync` returns if it is called.
    unfoldable pub handle_stream : ℕ → Result Writer → Reader → Writer → Shared → Handled
    unfolding report
    handle_stream stream_id opened r w both =
        stream_handled stream_id opened (execute o App route true r (server both w))

    -- There is no writer: what stands for it is not written to.
    abbrev pub no_writer : Writer
    no_writer = record { sent = []; failure = none }

    -- An error is logged only.
    abbrev pub logged : Result (Unit {0}) → Result (Unit {0})
    logged (err e) = ok tt
    logged m = m

    unfoldable pub handle_uni_stream : Reader → Action Shared (Unit {0})
    handle_uni_stream r both =
        let x = execute o App route false r (server both no_writer) in (logged x.1, shared x.2)

    -- `bytes.NewReader`
    unfoldable pub handle_datagram : Bytes → Action Shared (Unit {0})
    handle_datagram b both =
        let r : Reader = record { bytes = b; last = eof } in
        let x = execute o App route false r (server both no_writer) in (logged x.1, shared x.2)
