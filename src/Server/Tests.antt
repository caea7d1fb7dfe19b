-- ===== src/Server/Tests.antt =====
-- A history of a server with sample settings: "ann" is let in, her connection begins and ends.
use rust_ws_server.Base.{
  ℕ, ◌<◌, ◌≤◌, ◌^◌, ◌+◌, ◌*◌, ◌≡◌, refl, Bool, true, [], ◌∷◌, none, some, text, Text-discrete,
  ℕ_discrete, length, count, arith,
}
use rust_ws_server.Auth
use rust_ws_server.Auth.{AuthIdentity}
use rust_ws_server.Base.Map.{get, insert}
use rust_ws_server.Connection.{open_connection}
use rust_ws_server.External.Model.{plain, sample}
use rust_ws_server.Handshake.{
  WsQuery, upgraded, ws_handler, resolve_client_ip, acquire_ip, identify,
}
use rust_ws_server.IpLimiter
use rust_ws_server.IpLimiter.Accounting.{open_from}
use rust_ws_server.Bucket.{token}
use rust_ws_server.Config.{Config}
use rust_ws_server.Messages.Reader.{
  Turn, text_frame, reader_turn, limited, accept_text, within_tenant_rate,
}
use rust_ws_server.Messages.{handle_text, handle_client_event}
use rust_ws_server.RateLimiter
use rust_ws_server.Str.{len}
use rust_ws_server.Server.TenantRate.{HasActed, Reach-tenant_rate}
use rust_ws_server.Base.{inr, Text}
use rust_ws_server.Messages.{handle_parsed, publish_encoded, publish_key, after_publish}
use rust_ws_server.Topic.{tenant_topic, normalize_topic}
use rust_ws_server.State.{topic_sender}
use rust_ws_server.Net.{IpAddr, SocketAddr, v4, IpAddr-discrete}
use rust_ws_server.State
use rust_ws_server.State.{
  try_send, check_tenant_rate, tenant_bucket, AppState, acquire_tenant_permit, acquire_from,
  tenant_semaphore,
}
use rust_ws_server.Bucket
use rust_ws_server.Server.{
  Connection, System, upgrading, running, addresses, tenants, running_in, accepted, opened, served,
  turned, Reach, here, next,
}
use rust_ws_server.Server.Limits.{fresh, Reach-fresh}
use rust_ws_server.Server.Tenants.{Reach-tenants_bound}

abbrev peer : SocketAddr
peer = record { ip = v4 9; port = 4000 }

abbrev query : WsQuery
query = record {
  topic = text "news";
  client_id = some (text "ann");
  tenant_id = none;
  token = none;
}

abbrev ann : AuthIdentity
ann = record { client_id = text "ann"; tenant_id = text "default" }

abbrev start : System plain
start = fresh plain sample

abbrev let_in : AppState plain
let_in = (ws_handler start.state peer [] query 0).0

let_in_lem :
    ws_handler start.state peer [] query 0
    ≡ (let_in, upgraded (text "news") ann (some (record { ip = some (v4 9) })) true)
unfolding ws_handler resolve_client_ip acquire_ip State.new Auth.from_config IpLimiter.from_config
    IpLimiter.try_acquire IpLimiter.reap_idle IpLimiter.remove_victims IpLimiter.idle_ips
    IpLimiter.entry IpLimiter.admit IpLimiter.check_rate Bucket.new get insert IpAddr-discrete
    identify acquire_tenant_permit acquire_from tenant_semaphore Text-discrete
let_in_lem = refl

abbrev waiting : Connection
waiting = record {
  identity = ann;
  ip_permit = some (record { ip = some (v4 9) });
  has_tenant_permit = true;
  phase = upgrading (text "news");
}

abbrev begun : AppState plain × ℕ × Bool
begun = open_connection let_in 1 (text "news") ann

abbrev admitted_one : System plain
admitted_one = record { state = let_in; connections = waiting ∷ [] }

abbrev one_runs : System plain
one_runs = record {
  state = begun.0;
  connections = record waiting { phase = running begun.1 begun.2 } ∷ [];
}

no_queue : get ℕ_discrete 1 let_in.queues ≡ none
unfolding ws_handler resolve_client_ip acquire_ip State.new Auth.from_config IpLimiter.from_config
    IpLimiter.try_acquire IpLimiter.reap_idle IpLimiter.remove_victims IpLimiter.idle_ips
    IpLimiter.entry IpLimiter.admit IpLimiter.check_rate Bucket.new get insert IpAddr-discrete
    identify acquire_tenant_permit acquire_from tenant_semaphore Text-discrete
no_queue = refl

history : Reach start one_runs
history =
    next
      (next here (
        accepted peer [] query 0 let_in (text "news") ann (some (record { ip = some (v4 9) })) true
          let_in_lem))
      (opened [] waiting [] (text "news") 1 begun.0 begun.1 begun.2 refl refl no_queue refl)

Reach-fresh_example :
    (length one_runs.connections ≤ sample.max_connections)
    × ((cap : ℕ)
        → sample.ip_max_concurrent ≡ some cap
        → cap < 2 ^ 32
        → (j : IpAddr) → open_from j (addresses one_runs.connections) ≤ cap)
    × (one_runs.state.metrics.active_connections ≡ running_in one_runs.connections)
Reach-fresh_example = Reach-fresh plain sample one_runs (omega arith) history

Reach-tenants_bound_example :
    count Text-discrete (text "default") (tenants one_runs.connections) ≤ 2
Reach-tenants_bound_example =
    Reach-tenants_bound plain sample one_runs 2 (text "default") refl history

-- Two publications of "acme" under a rate of two, on two connections and five nanoseconds apart.
abbrev two_a_second : Config
two_a_second = record sample { tenant_max_messages_per_second = some 2 }

abbrev acme_turn : (s : AppState plain) (tx : ℕ) (frame : Text) (now : ℕ) → Turn plain
acme_turn s tx frame now =
    reader_turn s (RateLimiter.new 10 20 0) tx (text "acme:news") (text "acme") (text "ann")
      (text_frame frame) now

abbrev after_one : System plain
after_one = record {
  state = (acme_turn (fresh plain two_a_second).state 1 (text "pnews") 0).state;
  connections = [];
}

abbrev after_two : System plain
after_two = record { state = (acme_turn after_one.state 2 (text "pads") 5).state; connections = [] }

abbrev two_turns : Reach (fresh plain two_a_second) after_two
two_turns =
    next
      (next here (
        served _ (
          turned (RateLimiter.new 10 20 0) 1 (text "acme:news") (text "acme") (text "ann")
            (text_frame (text "pnews")) 0)))
      (served _ (
        turned (RateLimiter.new 10 20 0) 2 (text "acme:news") (text "acme") (text "ann")
          (text_frame (text "pads")) 5))

-- What a turn of "acme" computes with.
turning : Unit {0}
unfolding reader_turn check_tenant_rate RateLimiter.allow limited accept_text State.new len get
    insert tenant_bucket Text-discrete Bucket.new Bucket.try_consume RateLimiter.new
    within_tenant_rate handle_text handle_parsed handle_client_event publish_encoded publish_key
    after_publish State.publish topic_sender tenant_topic normalize_topic
turning = tt

abbrev news_key : Text
news_key = text "acme:news"

abbrev ads_key : Text
ads_key = text "acme:ads"

news_there : get Text-discrete news_key after_one.state.topics ≡ some 0
unfolding turning
news_there = refl

ads_missing : get Text-discrete ads_key after_one.state.topics ≡ none
unfolding turning
ads_missing = refl

ads_there : get Text-discrete ads_key after_two.state.topics ≡ some 0
unfolding turning
ads_there = refl

both_acted : HasActed (text "acme") two_turns 2
unfolding State.new get
both_acted = inr (
  1,
  refl,
  refl,
  (ads_key, 9, omega arith, λ same. cc (ads_there, ads_missing, same.0)),
  inr (0, refl, refl, (news_key, 9, omega arith, λ same. cc (news_there, same.0)), refl),
)

Reach-tenant_rate_example : 2 * token ≤ 2 * token + 5 * 2
Reach-tenant_rate_example =
    Reach-tenant_rate plain two_a_second 2 (text "acme") 0 5 2 after_two two_turns refl
      ((omega arith, omega arith), omega arith) both_acted
