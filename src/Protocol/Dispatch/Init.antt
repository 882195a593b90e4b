-- ===== src/Protocol/Dispatch/Init.antt =====
-- protocol/dispatch.go: `InitRequest`, with the rest of the stream behind the header.
pub mod Reached
pub mod Authentic
use dbuf_demo_go.Basic.Val.{InitialDecode}
use dbuf_demo_go.Protocol.Reader.{Reader}
use dbuf_demo_go.Protocol.Stream.{get_header_params}
use dbuf_demo_go.Protocol.Outside.{Outside}
use dbuf_demo_go.Protocol.Action.{Action, pure, lift, ◌>>=◌}
use dbuf_demo_go.Protocol.Store.Cache.{HeaderStoreCache}
use dbuf_demo_go.Protocol.Store.Properties.{HeaderStoreProperties, get_header_store_properties}

unfoldable pub init_request :
    (o : Outside)
    → Reader
    → InitialDecode
    → Action (HeaderStoreCache o) (HeaderStoreProperties × Reader)
init_request o r header_initial = do
  params ← lift (get_header_params r header_initial)
  properties ← get_header_store_properties o (params.0.header_details)
  pure (properties, params.1)
