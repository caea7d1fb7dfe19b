-- ===== src/Server.antt =====
-- The server as a whole: src/server.rs with src/state.rs and src/api.rs. Requests, messages and ends
-- of connections come in any order, and each handler runs without interruption.
pub mod Core
pub mod Calls
pub mod Handshakes
pub mod IpCap
pub mod Ends
pub mod Counting
pub mod Admission
pub mod Limits
pub mod Tenants
pub mod Registry
pub mod TenantRate
mod Tests
use rust_ws_server.Base.{
  ℕ, ℕ_discrete, ◌+◌, ◌≡◌, Bool, List, [], ◌∷◌, ◌++◌, Option, none, Text, map,
}
use rust_ws_server.Api.{PublishBody, DirectBody, api_publish, api_direct}
use rust_ws_server.Auth.{AuthIdentity}
use rust_ws_server.Base.Map.{get}
use rust_ws_server.Connection.{open_connection, drop_permits, close_connection}
use rust_ws_server.External.{External}
use rust_ws_server.Handshake.{WsQuery, HeaderMap, StatusCode, rejected, upgraded, ws_handler}
use rust_ws_server.Handshake.Permits.{held_by}
use rust_ws_server.IpLimiter.{IpPermit}
use rust_ws_server.Messages.Reader.{Incoming, reader_turn}
use rust_ws_server.Net.{IpAddr, SocketAddr}
use rust_ws_server.RateLimiter.{RateLimiter}
use rust_ws_server.State.{AppState}

-- Between `on_upgrade` and `handle_socket` with the topic of the query, and then under its id, with
-- its tasks started or not.
pub data Phase : Type 0 where
  upgrading : (topic : Text) → Phase
  running : (connection_id : ℕ) → (started : Bool) → Phase

-- What the closure of `on_upgrade`, and then `handle_socket`, owns.
pub record Connection : Type 0 where
  pub identity : AuthIdentity
  pub ip_permit : Option IpPermit
  pub has_tenant_permit : Bool
  pub phase : Phase

module _ (ext : External) where
  pub record System : Type 0 where
    pub state : AppState ext
    pub connections : List Connection

-- Addresses for which a connection counts, one for each that holds a permit.
abbrev pub addresses : List Connection → List IpAddr
addresses [] = []
addresses (c ∷ cs) = held_by c.ip_permit ++ addresses cs

abbrev pub tenants : List Connection → List Text
tenants = map (λ c. c.identity.tenant_id)

abbrev pub count_running : Phase → ℕ
count_running (upgrading topic) = 0
count_running (running id started) = 1

-- How many connections run.
abbrev pub running_in : List Connection → ℕ
running_in [] = 0
running_in (c ∷ cs) = count_running c.phase + running_in cs

module _ {ext : External} where
  -- What happens on a connection or by the HTTP API once it is admitted.
  pub data Serves (s : AppState ext) : AppState ext → Type 0 where
    turned :
        (limiter : RateLimiter) (tx : ℕ) (key tenant client : Text) (incoming : Incoming) (now : ℕ)
        → Serves s (reader_turn s limiter tx key tenant client incoming now).state
    published :
        (headers : HeaderMap) (body : PublishBody ext) → Serves s (api_publish s headers body).0
    directed :
        (headers : HeaderMap) (body : DirectBody ext) → Serves s (api_direct s headers body).0

  -- A request is refused or upgraded; an upgrade fails, or its connection begins; a connection is
  -- served; it ends.
  pub data Step (s : System ext) : System ext → Type 0 where
    refused :
        (peer : SocketAddr) (headers : HeaderMap) (query : WsQuery) (now : ℕ) (s' : AppState ext)
        (status : StatusCode) (message : Text)
        → ws_handler s.state peer headers query now ≡ (s', rejected status message)
        → Step s (record { state = s'; connections = s.connections })
    accepted :
        (peer : SocketAddr) (headers : HeaderMap) (query : WsQuery) (now : ℕ) (s' : AppState ext)
        (topic : Text) (identity : AuthIdentity) (p : Option IpPermit) (has : Bool)
        → ws_handler s.state peer headers query now ≡ (s', upgraded topic identity p has)
        → Step s (record {
          state = s';
          connections =
              record {
                identity = identity;
                ip_permit = p;
                has_tenant_permit = has;
                phase = upgrading topic;
              }
              ∷ s.connections;
        })
    abandoned :
        (before : List Connection) (c : Connection) (after : List Connection) (topic : Text)
        (now : ℕ)
        → s.connections ≡ before ++ c ∷ after
        → c.phase ≡ upgrading topic
        → Step s (record {
          state = drop_permits s.state c.identity.tenant_id c.ip_permit c.has_tenant_permit now;
          connections = before ++ after;
        })
    opened :
        (before : List Connection) (c : Connection) (after : List Connection) (topic : Text)
        (tx : ℕ) (s' : AppState ext) (id : ℕ) (started : Bool)
        → s.connections ≡ before ++ c ∷ after
        → c.phase ≡ upgrading topic
        → get ℕ_discrete tx s.state.queues ≡ none
        → open_connection s.state tx topic c.identity ≡ (s', id, started)
        → Step s (record {
          state = s';
          connections = before ++ record c { phase = running id started } ∷ after;
        })
    served :
        (s' : AppState ext)
        → Serves s.state s'
        → Step s (record { state = s'; connections = s.connections })
    ended :
        (before : List Connection) (c : Connection) (after : List Connection) (id now : ℕ)
        (started : Bool)
        → s.connections ≡ before ++ c ∷ after
        → c.phase ≡ running id started
        → Step s (record {
          state =
              close_connection s.state c.identity id started c.ip_permit c.has_tenant_permit now;
          connections = before ++ after;
        })

  pub data Reach (s : System ext) : System ext → Type 0 where
    here : Reach s s
    next : {t u : System ext} → Reach s t → Step t u → Reach s u
