-- ===== src/Server/Registry/Tests.antt =====
-- On a server with no caps "ann" and "bob" begin, and then "bob" ends.
use rust_ws_server.Base.{
  ℕ, ◌≡◌, ◌≢◌, refl, true, false, Text, [], ◌∷◌, none, some, text, ℕ_discrete, Text-discrete, arith,
}
use rust_ws_server.Auth
use rust_ws_server.Auth.{AuthIdentity}
use rust_ws_server.Base.Map.{get, insert}
use rust_ws_server.Config.{Config}
use rust_ws_server.Connection.{open_connection, send_ready}
use rust_ws_server.External.Model.{plain, sample}
use rust_ws_server.Handshake.{
  WsQuery, upgraded, ws_handler, resolve_client_ip, acquire_ip, identify,
}
use rust_ws_server.IpLimiter
use rust_ws_server.Messages.{send_encoded}
use rust_ws_server.Net.{SocketAddr, v4}
use rust_ws_server.State
use rust_ws_server.State.{AppState, ClientHandle, acquire_tenant_permit}
use rust_ws_server.State.Clients.{handle_of}
use rust_ws_server.Server.{
  Connection, System, upgrading, running, accepted, opened, Reach, here, next,
}
use rust_ws_server.Base.{◌⊎◌}
use rust_ws_server.State.{is_registered, remove_client}
use rust_ws_server.Server.Limits.{fresh}
use rust_ws_server.Server.Registry.{Runs, this}
use rust_ws_server.Server.Registry.Ids.{Reach-others_stay}
use rust_ws_server.Server.Registry.Names.{Encodes, Reach-registered}

-- What a history without caps computes with.
history : Unit {0}
unfolding ws_handler resolve_client_ip acquire_ip identify open_connection send_ready send_encoded
    State.try_send State.register_client State.next_connection_id State.subscribe State.new
    IpLimiter.from_config Auth.from_config acquire_tenant_permit get insert ℕ_discrete Text-discrete
    State.ClientKey-discrete
history = tt

abbrev uncapped : Config
uncapped = record sample { ip_max_concurrent = none; tenant_max_connections = none }

abbrev peer : SocketAddr
peer = record { ip = v4 9; port = 4000 }

abbrev query_of : Text → WsQuery
query_of name = record {
  topic = text "news";
  client_id = some name;
  tenant_id = none;
  token = none;
}

abbrev identity_of : Text → AuthIdentity
identity_of name = record { client_id = name; tenant_id = text "default" }

abbrev upgrading_as : Text → Connection
upgrading_as name = record {
  identity = identity_of name;
  ip_permit = none;
  has_tenant_permit = false;
  phase = upgrading (text "news");
}

abbrev running_as : Text → ℕ → Connection
running_as name id = record (upgrading_as name) { phase = running id true }

abbrev empty : System plain
empty = fresh plain uncapped

abbrev after_ann : AppState plain
after_ann = (ws_handler empty.state peer [] (query_of (text "ann")) 0).0

abbrev with_ann : AppState plain
with_ann = (open_connection after_ann 1 (text "news") (identity_of (text "ann"))).0

abbrev after_bob : AppState plain
after_bob = (ws_handler with_ann peer [] (query_of (text "bob")) 1).0

abbrev with_bob : AppState plain
with_bob = (open_connection after_bob 2 (text "news") (identity_of (text "bob"))).0

abbrev both_run : System plain
both_run = record {
  state = with_bob;
  connections = running_as (text "bob") 2 ∷ running_as (text "ann") 1 ∷ [];
}

ann_let_in :
    ws_handler empty.state peer [] (query_of (text "ann")) 0
    ≡ (after_ann, upgraded (text "news") (identity_of (text "ann")) none false)
unfolding history
ann_let_in = refl

ann_opens :
    open_connection after_ann 1 (text "news") (identity_of (text "ann")) ≡ (with_ann, 1, true)
unfolding history
ann_opens = refl

bob_let_in :
    ws_handler with_ann peer [] (query_of (text "bob")) 1
    ≡ (after_bob, upgraded (text "news") (identity_of (text "bob")) none false)
unfolding history
bob_let_in = refl

bob_opens :
    open_connection after_bob 2 (text "news") (identity_of (text "bob")) ≡ (with_bob, 2, true)
unfolding history
bob_opens = refl

no_first : get ℕ_discrete 1 after_ann.queues ≡ none
unfolding history
no_first = refl

no_second : get ℕ_discrete 2 after_bob.queues ≡ none
unfolding history
no_second = refl

ann_registered :
    handle_of with_bob (text "ann") (text "default")
    ≡ some (record { connection_id = 1; sender = 1 })
unfolding history
ann_registered = refl

both_begin : Reach empty both_run
both_begin =
    next
      (next
        (next
          (next here (
            accepted peer [] (query_of (text "ann")) 0 after_ann (text "news")
              (identity_of (text "ann")) none false ann_let_in))
          (opened [] (upgrading_as (text "ann")) [] (text "news") 1 with_ann 1 true refl refl
            no_first ann_opens))
        (accepted peer [] (query_of (text "bob")) 1 after_bob (text "news")
          (identity_of (text "bob")) none false bob_let_in))
      (opened [] (upgrading_as (text "bob")) (running_as (text "ann") 1 ∷ []) (text "news") 2
        with_bob 2 true refl refl no_second bob_opens)

encodes : Encodes plain
encodes topic client = (_, refl)

abbrev ann_handle : ClientHandle
ann_handle = record { connection_id = 1; sender = 1 }

Reach-registered_example : Runs (text "ann") (text "default") 1 both_run.connections
Reach-registered_example =
    Reach-registered plain uncapped both_run (text "ann") (text "default") ann_handle encodes
      both_begin ann_registered

Reach-others_stay_example :
    ◌≢◌ {A = ℕ} 1 2
    × ((is_registered with_bob (text "bob") (text "default") 2 ≡ false)
        ⊎ ((s' : AppState plain)
            → handle_of
                (remove_client s' (text "bob") (text "default"))
                (text "ann")
                (text "default")
              ≡ handle_of s' (text "ann") (text "default")))
unfolding both_begin
Reach-others_stay_example =
    Reach-others_stay plain uncapped both_run both_begin [] (running_as (text "bob") 2)
      (running_as (text "ann") 1 ∷ []) 2 true (text "ann") (text "default") ann_handle (omega arith)
      refl refl (this (refl, refl, refl)) ann_registered
