-- ===== src/Demo/Server.antt =====
-- demo-server/defaults/demo.go and demo-server/main.go, with data/db.go: `DefaultRouteFunc`, the storage
-- that it opens, and the configuration that `main` gives to `Listen`.
pub mod Authority
use dbuf_demo_go.Common.{false, List, [], ◌∷◌, Bytes, none, some}
use dbuf_demo_go.Basic.Val
use dbuf_demo_go.Basic.Val.{DbufVal, DbufValString}
use dbuf_demo_go.Basic.Error.{Result, ok, ◌>>=◌}
use dbuf_demo_go.Data.Database.{Database}
use dbuf_demo_go.Data.Storage.{Storage}
use dbuf_demo_go.Protocol.Names
use dbuf_demo_go.Protocol.Outside.{Outside}
use dbuf_demo_go.Protocol.Action.{Action}
use dbuf_demo_go.Protocol.Dispatch.{RequestResponse}
use dbuf_demo_go.Protocol.Execute.Delivered.{message_route}
use dbuf_demo_go.Connection.Accept.{ConnectionConfig, Route}
use dbuf_demo_go.Demo.Client.{or_panic}

-- The authority of the server.
abbrev pub host_authority : Bytes → List DbufVal
host_authority server_host_name = Val.registry Names.host ∷ Val.text server_host_name ∷ []

-- What the demo does with a message and the identity of its sender: it logs them.
abbrev pub Log : Type 0
Log = List (DbufVal × DbufValString)

abbrev pub receive_message : DbufVal → DbufValString → Action Log (Unit {0})
receive_message message authenticated_identity log =
    (ok tt, (message, authenticated_identity) ∷ log)

module _ (o : Outside) where
  open o use {database}
  open database use {Db}

  -- `NewBadgerStorage` and `NewBadgerMemoryStorage`, by what `badger.Open` returns.
  unfoldable pub new_badger_storage : Result Db → List DbufVal → Result (Storage database)
  new_badger_storage opened authority =
      opened >>= λ kv. ok (record { kv = kv; authority = authority })

  -- The storage that `DefaultRouteFunc` returns.
  unfoldable pub default_storage : Result Db → Bytes → Result (Storage database)
  unfolding new_badger_storage
  default_storage opened server_host_name =
      or_panic (new_badger_storage opened (host_authority server_host_name))

  -- Its route; `drawn` are the random bytes for a request.
  abbrev pub default_route : (RequestResponse o → Log → Result Bytes) → Route o Log
  default_route drawn = message_route o Log receive_message drawn

  -- `main`: the streams that go both ways have a route.
  abbrev pub server_config : (RequestResponse o → Log → Result Bytes) → ConnectionConfig o Log
  server_config drawn = record {
    route_func_bi = some (default_route drawn);
    route_func_uni = none;
    route_func_datagram = none;
    setup_connection = none;
    auto_close = false;
  }
