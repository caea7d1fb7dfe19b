-- ===== src/Handshake.antt =====
-- src/server.rs, `ws_handler`: the checks before a request becomes a websocket. A check that fails
-- returns at once, and the permits taken until then are dropped.
pub mod Login
pub mod Permits
pub mod Tenants
mod Tests
use rust_ws_server.Base.{
  ℕ, Bool, true, false, List, [], Option, none, some, Result, ok, err, Text, text, Text-discrete,
  if◌then◌else◌,
}
use mathlib.Core.Option
use rust_ws_server.Auth
use rust_ws_server.Auth.{AuthError, AuthIdentity, AuthVerifier, unwrap_or}
use rust_ws_server.Base.Map.{Map, get}
use rust_ws_server.External.{External, JwtApi}
use rust_ws_server.IpLimiter
use rust_ws_server.IpLimiter.{IpLimiter, IpPermit, IpRejection, rate_limited, concurrency_limited}
use rust_ws_server.Metrics
use rust_ws_server.Net.{IpAddr, SocketAddr}
use rust_ws_server.State.{AppState, acquire_tenant_permit}
use rust_ws_server.Str.{trim, split_first}

-- A missing `topic` is the default topic, "public".
pub record WsQuery : Type 0 where
  pub topic : Text
  pub client_id : Option Text
  pub tenant_id : Option Text
  pub token : Option Text

unfoldable pub default_topic : Text
default_topic = text "public"

-- The header values that `to_str` accepts.
abbrev pub HeaderMap : Type 0
HeaderMap = Map Text Text

pub data StatusCode : Type 0 where
  unauthorized not_found too_many_requests internal_server_error service_unavailable : StatusCode

-- The request is refused, or the upgrade goes on with the values that `handle_socket` is given. The
-- global permit is always among them, and a tenant's permit if there are tenant limits.
pub data Handshake : Type 0 where
  rejected : StatusCode → Text → Handshake
  upgraded :
      (topic : Text) → AuthIdentity → Option IpPermit → (has_tenant_permit : Bool) → Handshake

module _ (ext : External) where
  unfoldable pub parsed_header : HeaderMap → Text → (Text → Text) → Option IpAddr
  parsed_header headers name cut = elim (get Text-discrete name headers) [
    | some value ↦ ext.parse_ip (trim (cut value))
    | none ↦ none
  ]

  unfoldable pub resolve_client_ip : SocketAddr → HeaderMap → Bool → IpAddr
  unfolding parsed_header
  resolve_client_ip peer headers trust_proxy =
      if trust_proxy
      then (elim (parsed_header headers (text "x-forwarded-for") (split_first b',')) [
        | some ip ↦ ip
        | none ↦ elim (parsed_header headers (text "x-real-ip") (λ v. v)) [
          | some ip ↦ ip
          | none ↦ peer.ip
        ]
      ])
      else peer.ip

abbrev pub rejection_message : IpRejection → Text
rejection_message rate_limited = text "ip connection rate limit exceeded\n"
rejection_message concurrency_limited = text "ip concurrent connection limit exceeded\n"

abbrev pub some_permit : Result IpPermit IpRejection → Result (Option IpPermit) IpRejection
some_permit (ok permit) = ok (some permit)
some_permit (err reason) = err reason

unfoldable pub token_answer : Result AuthIdentity AuthError → Result AuthIdentity Text
token_answer (ok identity) = ok identity
token_answer (err _) = err (text "invalid token\n")

unfoldable pub check_token :
    {jwt : JwtApi} → AuthVerifier jwt → Option Text → Result AuthIdentity Text
unfolding token_answer
check_token verifier (some token) = token_answer (Auth.verify verifier token)
check_token verifier none = err (text "missing token\n")

-- Whom the request speaks for, or the message of the refusal.
unfoldable pub identify :
    {jwt : JwtApi} → Option (AuthVerifier jwt) → WsQuery → Result AuthIdentity Text
unfolding check_token
identify (some verifier) query = check_token verifier query.token
identify none query = ok (record {
  client_id = unwrap_or query.client_id (text "anonymous");
  tenant_id = unwrap_or query.tenant_id (text "default");
})

module _ {ext : External} where
  -- The IP limiter's answer, if there is a limiter.
  unfoldable pub acquire_ip_from :
      AppState ext
      → Option IpLimiter
      → IpAddr
      → ℕ
      → AppState ext × Result (Option IpPermit) IpRejection
  acquire_ip_from s none ip now = (s, ok none)
  acquire_ip_from s (some limiter) ip now =
      let (limiter', r) = IpLimiter.try_acquire limiter ip now in
      (record s { ip_limiter = some limiter' }, some_permit r)

  unfoldable pub acquire_ip :
      AppState ext → IpAddr → ℕ → AppState ext × Result (Option IpPermit) IpRejection
  unfolding acquire_ip_from
  acquire_ip s ip now = acquire_ip_from s s.ip_limiter ip now

  -- Dropping an `IpPermit`.
  unfoldable pub drop_ip_permit : AppState ext → Option IpPermit → ℕ → AppState ext
  drop_ip_permit s none now = s
  drop_ip_permit s (some permit) now = record s {
    ip_limiter = Option.map (λ limiter. IpLimiter.drop limiter permit now) s.ip_limiter;
  }

  -- Dropping the permit of the global limit.
  unfoldable pub drop_permit : AppState ext → AppState ext
  drop_permit s = record s { connection_limit = ext.semaphore.release s.connection_limit }

  abbrev pub count_rejection : AppState ext → AppState ext
  count_rejection s = record s { metrics = Metrics.connection_rejected s.metrics }

  -- The last check, by the answer of the tenant's cap.
  unfoldable pub after_tenant :
      AppState ext
      → WsQuery
      → Option IpPermit
      → AuthIdentity
      → ℕ
      → Option (Result (Unit {0}) (Unit {0}))
      → AppState ext × Handshake
  after_tenant s query ip_permit identity now none =
      (s, upgraded query.topic identity ip_permit false)
  after_tenant s query ip_permit identity now (some (ok _)) =
      (s, upgraded query.topic identity ip_permit true)
  after_tenant s query ip_permit identity now (some (err _)) = (
    drop_ip_permit
        (drop_permit (count_rejection (record s { metrics = Metrics.tenant_rejected s.metrics })))
        ip_permit now,
    rejected too_many_requests (text "tenant connection limit exceeded\n"),
  )

  -- By the outcome of the login, with both permits at hand.
  unfoldable pub after_login :
      AppState ext
      → WsQuery
      → Option IpPermit
      → ℕ
      → Result AuthIdentity Text
      → AppState ext × Handshake
  unfolding after_tenant
  after_login s query ip_permit now (ok identity) =
      let (s', r) = acquire_tenant_permit s identity.tenant_id in
      after_tenant s' query ip_permit identity now r
  after_login s query ip_permit now (err message) = (
    drop_ip_permit
        (drop_permit (count_rejection (record s { metrics = Metrics.auth_rejected s.metrics })))
        ip_permit now,
    rejected unauthorized message,
  )

  -- By the answer of the global limit, with the IP permit at hand if one is needed.
  unfoldable pub after_limit :
      AppState ext
      → WsQuery
      → Option IpPermit
      → ℕ
      → Option ext.semaphore.Semaphore
      → AppState ext × Handshake
  unfolding after_login
  after_limit s query ip_permit now (some sem) =
      let s' : AppState ext = record s { connection_limit = sem } in
      after_login s' query ip_permit now (identify s.auth query)
  after_limit s query ip_permit now none = (
    drop_ip_permit (count_rejection s) ip_permit now,
    rejected service_unavailable (text "connection limit reached\n"),
  )

  -- By the answer of the IP limiter.
  unfoldable pub after_ip :
      AppState ext → WsQuery → ℕ → Result (Option IpPermit) IpRejection → AppState ext × Handshake
  unfolding after_limit
  after_ip s query now (ok ip_permit) =
      after_limit s query ip_permit now (ext.semaphore.try_acquire_owned s.connection_limit)
  after_ip s query now (err reason) = (
    count_rejection (record s { metrics = Metrics.ip_rejected s.metrics }),
    rejected too_many_requests (rejection_message reason),
  )

  unfoldable pub ws_handler :
      AppState ext → SocketAddr → HeaderMap → WsQuery → ℕ → AppState ext × Handshake
  unfolding after_ip
  ws_handler s peer headers query now =
      let ip = resolve_client_ip ext peer headers s.config.trust_proxy_headers in
      let (s', r) = acquire_ip s ip now in after_ip s' query now r
