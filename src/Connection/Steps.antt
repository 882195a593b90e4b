-- ===== src/Connection/Steps.antt =====
-- A connection while its streams are served: the state that they share.
use dbuf_demo_go.Common.{Bytes}
use dbuf_demo_go.Common.Dict.{nat_eq}
use dbuf_demo_go.Basic.Val.{DbufVal, DbufValString}
use dbuf_demo_go.Basic.Error.{Result}
use dbuf_demo_go.Data.Storage.{Storage}
use dbuf_demo_go.Protocol.Names
use dbuf_demo_go.Protocol.Reader.{Reader}
use dbuf_demo_go.Protocol.Writer.{Writer}
use dbuf_demo_go.Protocol.Outside.{Outside}
use dbuf_demo_go.Protocol.Action.{Action}
use dbuf_demo_go.Protocol.Store.Cache.{HeaderStoreCache, make_header_store_cache}
use dbuf_demo_go.Protocol.Dispatch.{RequestResponse}
use dbuf_demo_go.Protocol.Execute.Delivered.{message_route, InOrder}
use dbuf_demo_go.Connection.Streams.{Shared, handle_stream, handle_uni_stream, handle_datagram}
use dbuf_demo_go.Connection.Accept.{BiStream}

module _ (o : Outside) (App : Type 0)
    (receive_message : DbufVal → DbufValString → Action App (Unit {0})) where
  open o use {database}

  -- A stream or a datagram is served, with any random bytes, or another connection writes to the
  -- storage.
  pub data Step : Shared o App → Shared o App → Type 0 where
    serves_stream :
        (b : BiStream) (drawn : RequestResponse o → App → Result Bytes) (both : Shared o App)
        → Step both
            (handle_stream o App
              (message_route o App receive_message drawn)
              b.stream_id
              b.opened
              b.reader
              b.writer
              both).left
    serves_uni_stream :
        (r : Reader) (drawn : RequestResponse o → App → Result Bytes) (both : Shared o App)
        → Step both (handle_uni_stream o App (message_route o App receive_message drawn) r both).1
    serves_datagram :
        (b : Bytes) (drawn : RequestResponse o → App → Result Bytes) (both : Shared o App)
        → Step both (handle_datagram o App (message_route o App receive_message drawn) b both).1
    storage_written :
        (s : Storage database) (c : HeaderStoreCache o) (app : App)
        → Step (c, app) (record c { storage = s }, app)

  pub data Serves (both : Shared o App) : Shared o App → Type 0 where
    start : Serves both both
    then_step :
        {both' both'' : Shared o App} → Serves both both' → Step both' both'' → Serves both both''

  module _ (storage : Storage database) (app₀ : App) where
    abbrev I : Shared o App → Type 0
    I both = InOrder o App receive_message (make_header_store_cache o storage) app₀ both.0 both.1
