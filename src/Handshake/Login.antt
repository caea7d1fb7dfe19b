-- ===== src/Handshake/Login.antt =====
-- Who gets in, and for which address a request counts.
use rust_ws_server.Base.{
  ℕ, ◌≡◌, ◌≢◌, inr, refl, subst, true, ◌∷◌, ◌++◌, Option, none, some, Result, ok, err, Text, text,
  Text-discrete, arith,
}
use rust_ws_server.Auth
use rust_ws_server.Auth.{AuthIdentity, AuthVerifier, AuthError, unwrap_or}
use rust_ws_server.Base.Map.{get}
use rust_ws_server.Config.{Config}
use rust_ws_server.External.{External, JwtApi}
use rust_ws_server.IpLimiter.{IpPermit, IpRejection}
use rust_ws_server.Net.{IpAddr, SocketAddr}
use rust_ws_server.State.{AppState, new, acquire_tenant_permit}
use rust_ws_server.Str.{trim}
use rust_ws_server.Auth.Verdicts.{from_config-none_iff}
use rust_ws_server.Str.Split.{IsFree, split_first-append}
use rust_ws_server.Handshake.{
  WsQuery, HeaderMap, Handshake, unauthorized, rejected, upgraded, parsed_header, resolve_client_ip,
  acquire_ip, check_token, identify, after_tenant, after_login, after_limit, after_ip, ws_handler,
}

-- Whom a request may speak for: with a verifier, the bearer of a token that it accepts; without
-- one, whomever the query names.
abbrev pub MaySpeakFor :
    {jwt : JwtApi} → Option (AuthVerifier jwt) → WsQuery → AuthIdentity → Type 0
MaySpeakFor (some verifier) query id =
    (token : Text) × (query.token ≡ some token) × (Auth.verify verifier token ≡ ok id)
MaySpeakFor none query id =
    (id.client_id ≡ unwrap_or query.client_id (text "anonymous"))
    × (id.tenant_id ≡ unwrap_or query.tenant_id (text "default"))

-- An upgrade is for such an identity, and for the topic of the query; a refusal as unauthorized is
-- for a missing or a refused token.
abbrev pub IsAuthentic : {jwt : JwtApi} → Option (AuthVerifier jwt) → WsQuery → Handshake → Type 0
IsAuthentic auth query (rejected status message) =
    status ≡ unauthorized → identify auth query ≡ err message
IsAuthentic auth query (upgraded topic id ip_permit has_tenant_permit) =
    (topic ≡ query.topic) × MaySpeakFor auth query id

check_token-ok :
    {jwt : JwtApi} (verifier : AuthVerifier jwt) (given : Option Text) (id : AuthIdentity)
    → check_token verifier given ≡ ok id
    → (token : Text) × (given ≡ some token) × (Auth.verify verifier token ≡ ok id)
unfolding check_token
check_token-ok verifier (some token) id e = (token, refl, ground arith)
check_token-ok verifier none id e = cc

identify-MaySpeakFor :
    {jwt : JwtApi} (auth : Option (AuthVerifier jwt)) (query : WsQuery) (id : AuthIdentity)
    → identify auth query ≡ ok id
    → MaySpeakFor auth query id
unfolding identify
identify-MaySpeakFor (some verifier) query id e = check_token-ok verifier query.token id e
identify-MaySpeakFor none query id e = ground arith

module _ {ext : External} where
  auth-acquire_ip :
      (s : AppState ext) (ip : IpAddr) (now : ℕ) → (acquire_ip s ip now).0.auth ≡ s.auth
  unfolding acquire_ip
  auth-acquire_ip s ip now = ground arith

  after_tenant-IsAuthentic :
      (auth : Option (AuthVerifier ext.jwt)) (s : AppState ext) (query : WsQuery)
      (p : Option IpPermit) (id : AuthIdentity) (now : ℕ)
      (r : Option (Result (Unit {0}) (Unit {0})))
      → MaySpeakFor auth query id
      → IsAuthentic auth query (after_tenant s query p id now r).1
  unfolding after_tenant
  after_tenant-IsAuthentic auth s query p id now none m = (refl, m)
  after_tenant-IsAuthentic auth s query p id now (some (ok u)) m = (refl, m)
  after_tenant-IsAuthentic auth s query p id now (some (err u)) m = λ e. cc

  after_login-IsAuthentic :
      (auth : Option (AuthVerifier ext.jwt)) (s : AppState ext) (query : WsQuery)
      (p : Option IpPermit) (now : ℕ) (r : Result AuthIdentity Text)
      → identify auth query ≡ r
      → IsAuthentic auth query (after_login s query p now r).1
  unfolding after_login
  after_login-IsAuthentic auth s query p now (ok id) e =
      let (s', r) = acquire_tenant_permit s id.tenant_id in
      after_tenant-IsAuthentic auth s' query p id now r (identify-MaySpeakFor auth query id e)
  after_login-IsAuthentic auth s query p now (err m) e = λ _. e

  after_limit-IsAuthentic :
      (s : AppState ext) (query : WsQuery) (p : Option IpPermit) (now : ℕ)
      (r : Option ext.semaphore.Semaphore)
      → IsAuthentic s.auth query (after_limit s query p now r).1
  unfolding after_limit
  after_limit-IsAuthentic s query p now (some sem) =
      after_login-IsAuthentic s.auth (record s { connection_limit = sem }) query p now
        (identify s.auth query) refl
  after_limit-IsAuthentic s query p now none = λ e. cc

  after_ip-IsAuthentic :
      (s : AppState ext) (query : WsQuery) (now : ℕ) (r : Result (Option IpPermit) IpRejection)
      → IsAuthentic s.auth query (after_ip s query now r).1
  unfolding after_ip
  after_ip-IsAuthentic s query now (ok p) =
      after_limit-IsAuthentic s query p now (ext.semaphore.try_acquire_owned s.connection_limit)
  after_ip-IsAuthentic s query now (err e) = λ u. cc

  -- Where a verifier is configured, a request is upgraded only with a token that the verifier
  -- accepts, and for the identity of that token, whatever names the query gives; without one it is
  -- upgraded for the names of the query, or "anonymous" and "default". The topic is the query's. A
  -- refusal as unauthorized is for a token that is missing or that the verifier refuses.
  pub ws_handler-IsAuthentic :
      (s : AppState ext) (peer : SocketAddr) (headers : HeaderMap) (query : WsQuery) (now : ℕ)
      → IsAuthentic s.auth query (ws_handler s peer headers query now).1
  unfolding ws_handler
  ws_handler-IsAuthentic s peer headers query now =
      let ip = resolve_client_ip ext peer headers s.config.trust_proxy_headers in
      let (s', r) = acquire_ip s ip now in
      subst (λ auth. IsAuthentic auth query (after_ip s' query now r).1) (auth-acquire_ip s ip now)
        (after_ip-IsAuthentic s' query now r)

module _ (ext : External) where
  -- Behind a trusted proxy the address is the first one of the X-Forwarded-For header, whatever
  -- the proxy appends to what the client sent.
  pub resolve_client_ip_first :
      (peer : SocketAddr) (headers : HeaderMap) (sent appended : Text) (ip : IpAddr)
      → get Text-discrete (text "x-forwarded-for") headers ≡ some (sent ++ b',' ∷ appended)
      → IsFree b',' sent
      → ext.parse_ip (trim sent) ≡ some ip
      → resolve_client_ip ext peer headers true ≡ ip
  unfolding resolve_client_ip
  resolve_client_ip_first peer headers sent appended ip e free good =
      rw (e, parsed_header, split_first-append b',' sent appended free, good)

  never :
      (query : WsQuery) (message : Text)
      → ¬ IsAuthentic {jwt = ext.jwt} none query (rejected unauthorized message)
  unfolding identify
  never query message refused = cc (refused refl)

  -- With no secret set, a configured public key that no parser takes leaves the server without a
  -- verifier: a request is upgraded for the names in its query, and never refused as unauthorized,
  -- whatever its token.
  pub ws_handler_bad_key :
      (config : Config) (pem : Text) (peer : SocketAddr) (headers : HeaderMap) (query : WsQuery)
      (now : ℕ)
      → config.jwt_secret ≡ none
      → config.jwt_public_key ≡ some pem
      → Auth.pem_key ext.jwt pem ≡ none
      → IsAuthentic {jwt = ext.jwt} none query
          (ws_handler (new ext config) peer headers query now).1
        × ((message : Text)
            → (ws_handler (new ext config) peer headers query now).1
              ≢ rejected unauthorized message)
  unfolding new
  ws_handler_bad_key config pem peer headers query now no_secret key bad =
      let open_door =
        subst
          (λ auth. IsAuthentic auth query (ws_handler (new ext config) peer headers query now).1)
          ((from_config-none_iff ext.jwt config).1 (no_secret, inr (pem, key, bad)))
          (ws_handler-IsAuthentic (new ext config) peer headers query now) in
      (
        open_door,
        λ message e.
            never query message (subst (IsAuthentic {jwt = ext.jwt} none query) e open_door),
      )
