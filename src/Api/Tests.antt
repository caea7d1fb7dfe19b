-- ===== src/Api/Tests.antt =====
-- Requests over HTTP to a server with sample settings.
use rust_ws_server.Base.{
  true, ℕ_discrete, ◌<◌, ◌^◌, ◌≡◌, refl, [], ◌∷◌, none, some, text, Text-discrete, arith,
}
use rust_ws_server.Auth
use rust_ws_server.Base.Map.{insert, get}
use rust_ws_server.External.Model.{plain, sample}
use rust_ws_server.Handshake.{HeaderMap}
use rust_ws_server.Metrics
use rust_ws_server.State.{
  register_client, ClientKey-discrete, send_to_client, try_send, AppState, new,
}
use rust_ws_server.Api.{
  direct_ok, DirectBody, api_direct, resolve_identity, direct_as, direct_encoded, direct_sent,
  PublishBody, extract_bearer, api_publish,
}
use rust_ws_server.Api.Counting.{direct_counted_twice}
use rust_ws_server.Connection.Tasks.{message, writer_turn}
use rust_ws_server.Metrics.{fetch_add_1}
use rust_ws_server.Protocol.{OutboundMessage}
use rust_ws_server.Api.Direct.{Directs, api_direct-Directs}
use rust_ws_server.Api.Effects.{Publishes, api_publish-Publishes}

abbrev start : AppState plain
start = new plain sample

abbrev headers : HeaderMap
headers = (text "authorization", text "Bearer abc") ∷ []

bearer_abc : extract_bearer headers ≡ some (text "abc")
unfolding extract_bearer get Text-discrete
bearer_abc = refl

abbrev body : PublishBody plain
body = record { topic = some (text "news"); request_id = none; payload = tt }

small_counter : start.metrics.messages_out < 2 ^ 64
unfolding new Metrics.default
small_counter = omega arith

api_publish-Publishes_example : Publishes start headers body (api_publish start headers body)
api_publish-Publishes_example = api_publish-Publishes start headers body small_counter

abbrev to_bob : DirectBody plain
to_bob = record { to = text "bob"; request_id = none; payload = tt }

-- "bob" is online in the tenant "default", with the queue number 1.
abbrev bob_online : AppState plain
bob_online = record (register_client start (text "bob") (text "default") 1 1) {
  queues = (1, plain.mpsc.channel 4) ∷ [];
}

bob_is_told : (api_direct bob_online headers to_bob).1 ≡ direct_ok
unfolding api_direct resolve_identity new Auth.from_config register_client insert get
    ClientKey-discrete direct_as direct_encoded direct_sent send_to_client try_send
bob_is_told = refl

api_direct-Directs_example :
    Directs bob_online headers to_bob (api_direct bob_online headers to_bob)
api_direct-Directs_example = api_direct-Directs bob_online headers to_bob

-- The queue of "bob" with the message, and the rest of it.
abbrev told_bob : plain.mpsc.Queue
told_bob =
    (plain.mpsc.try_send (OutboundMessage.binary (b'd' ∷ text "bob")) (plain.mpsc.channel 4)).0

bob_has_one : get ℕ_discrete 1 (api_direct bob_online headers to_bob).0.queues ≡ some told_bob
unfolding api_direct resolve_identity new Auth.from_config register_client insert get
    ClientKey-discrete direct_as direct_encoded direct_sent send_to_client try_send ℕ_discrete
bob_has_one = refl

direct_counted_twice_example :
    (writer_turn (api_direct bob_online headers to_bob).0 1 message true).0.metrics.messages_out
    ≡ fetch_add_1 (fetch_add_1 bob_online.metrics.messages_out)
direct_counted_twice_example =
    direct_counted_twice bob_online headers to_bob 1 told_bob (plain.mpsc.channel 4)
      (OutboundMessage.binary (b'd' ∷ text "bob")) bob_is_told bob_has_one refl
