-- ===== src/Protocol/Client/Message.antt =====
-- protocol/message.go: `CreateRequestForDeliverMessage` and `SendMessage`.
use dbuf_demo_go.Common.{Bytes, none}
use dbuf_demo_go.Basic.Registry
use dbuf_demo_go.Basic.Val
use dbuf_demo_go.Basic.Val.{DbufValSeq, leaf, nest, no_items, item}
use dbuf_demo_go.Basic.Error.{Result, wrap_with}
use dbuf_demo_go.Protocol.Names
use dbuf_demo_go.Protocol.Reader.{Reader}
use dbuf_demo_go.Protocol.Outside.{Outside}
use dbuf_demo_go.Protocol.Action.{Action, pure, ◌>>=◌}
use dbuf_demo_go.Protocol.Request.{Request, create_request}
use dbuf_demo_go.Protocol.Request.Send.{wrap_action, send_request_check_error}
use dbuf_demo_go.Protocol.Client.Keys.{KeyManager, ClientState, with_cache}
use dbuf_demo_go.Protocol.Client.HeaderStore.{HeaderStoreState, get_header_store_header}

unfoldable pub create_request_for_deliver_message : DbufValSeq → DbufValSeq → Request
unfolding create_request
create_request_for_deliver_message message header_store =
    create_request
      (item (leaf (Val.registry Names.reference)) (
        item (nest Val.array (item (leaf (Val.registry Names.deliver_message)) no_items)) (
          item (leaf (Val.registry Names.header_store)) (
            item header_store
              (item (leaf (Val.registry Registry.value)) (item message no_items))))))
      none

module _ (o : Outside) (km : KeyManager) where
  abbrev on_client {ℓ} :
      {A : Type ℓ} → Action (ClientState o km) A → Action (HeaderStoreState o km) A
  on_client m s = ((m (s.client)).0, record s { client = (m (s.client)).1 })

  -- `streams` are the streams for a new identity and for the message.
  unfoldable pub send_message :
      Result (Bytes → Result Reader) × Result (Bytes → Result Reader)
      → DbufValSeq
      → DbufValSeq
      → Action (HeaderStoreState o km) (Unit {0})
  unfolding create_request_for_deliver_message
  send_message streams authority_ref message = do
    header ← wrap_action o (wrap_with "Get header store header failed") (
        get_header_store_header o km streams.0
          (nest Val.map (item (leaf (Val.registry Names.reference)) (item authority_ref no_items))))
    response ← on_client (
        with_cache o km (
          wrap_action o (wrap_with "Deliver message request failed") (
            send_request_check_error o streams.1
              (create_request_for_deliver_message message header))))
    pure tt
