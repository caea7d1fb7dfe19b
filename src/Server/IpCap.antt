-- ===== src/Server/IpCap.antt =====
-- A handshake that is upgraded has found its address below the cap.
use rust_ws_server.Base.{ℕ, ◌<◌, ◌≡◌, ◌∙◌, refl, Option, none, some, Result, ok, err, Text}
use rust_ws_server.Auth.{AuthIdentity}
use rust_ws_server.External.{External}
use rust_ws_server.IpLimiter.{IpLimiter, IpPermit, IpRejection, try_acquire}
use rust_ws_server.IpLimiter.Entries.{concurrent_of}
use rust_ws_server.IpLimiter.Accounting.{attempt_below_cap, attempt_permit}
use rust_ws_server.Net.{IpAddr, SocketAddr}
use rust_ws_server.State.{AppState, acquire_tenant_permit}
use rust_ws_server.Handshake.{
  WsQuery, HeaderMap, Handshake, rejected, upgraded, resolve_client_ip, acquire_ip, acquire_ip_from,
  some_permit, after_tenant, after_login, after_limit, after_ip, ws_handler, identify,
}
use rust_ws_server.Handshake.Permits.{ip_connections, counted_by}
use rust_ws_server.Server.Handshakes.{cap_of}

-- An upgrade hands on the IP permit that was granted.
abbrev pub HandsOn : Option IpPermit → Handshake → Type 0
HandsOn p (rejected status message) = Unit
HandsOn p (upgraded topic id given has_tenant_permit) = given ≡ p

-- An upgrade holds the permit of an address that was below the cap.
abbrev pub IsBelow : IpAddr → ℕ → ℕ → Handshake → Type 0
IsBelow ip counted cap (rejected status message) = Unit
IsBelow ip counted cap (upgraded topic id p has_tenant_permit) =
    (p ≡ some (record { ip = some ip })) × (counted < cap)

IsBelow-of_HandsOn :
    (ip : IpAddr) (counted cap : ℕ) (p : Option IpPermit) (h : Handshake)
    → HandsOn p h
    → p ≡ some (record { ip = some ip })
    → counted < cap
    → IsBelow ip counted cap h
IsBelow-of_HandsOn ip counted cap p (rejected status message) on own below = tt
IsBelow-of_HandsOn ip counted cap p (upgraded topic id given has) on own below = (on ∙ own, below)

granted_below :
    (lim lim' : IpLimiter) (ip : IpAddr) (now cap : ℕ) (r : Result IpPermit IpRejection)
    (p : Option IpPermit)
    → lim.max_concurrent ≡ some cap
    → try_acquire lim ip now ≡ (lim', r)
    → some_permit r ≡ ok p
    → (p ≡ some (record { ip = some ip })) × (concurrent_of lim ip < cap)
granted_below lim lim' ip now cap (ok q) p capped e same =
    let own = attempt_permit lim lim' ip now q e in
    (cc, attempt_below_cap lim lim' ip now q cap capped e)
granted_below lim lim' ip now cap (err why) p capped e same = absurd cc

module _ {ext : External} where
  after_tenant-HandsOn :
      (s : AppState ext) (query : WsQuery) (p : Option IpPermit) (id : AuthIdentity) (now : ℕ)
      (r : Option (Result (Unit {0}) (Unit {0})))
      → HandsOn p (after_tenant s query p id now r).1
  unfolding after_tenant
  after_tenant-HandsOn s query p id now none = refl
  after_tenant-HandsOn s query p id now (some (ok _)) = refl
  after_tenant-HandsOn s query p id now (some (err _)) = tt

  after_login-HandsOn :
      (s : AppState ext) (query : WsQuery) (p : Option IpPermit) (now : ℕ)
      (r : Result AuthIdentity Text)
      → HandsOn p (after_login s query p now r).1
  unfolding after_login
  after_login-HandsOn s query p now (ok id) =
      let (s', r) = acquire_tenant_permit s id.tenant_id in after_tenant-HandsOn s' query p id now r
  after_login-HandsOn s query p now (err message) = tt

  after_limit-HandsOn :
      (s : AppState ext) (query : WsQuery) (p : Option IpPermit) (now : ℕ)
      (r : Option ext.semaphore.Semaphore)
      → HandsOn p (after_limit s query p now r).1
  unfolding after_limit
  after_limit-HandsOn s query p now (some sem) =
      after_login-HandsOn (record s { connection_limit = sem }) query p now (identify s.auth query)
  after_limit-HandsOn s query p now none = tt

  after_ip-IsBelow :
      (s : AppState ext) (query : WsQuery) (now : ℕ) (r : Result (Option IpPermit) IpRejection)
      (ip : IpAddr) (counted cap : ℕ)
      → ((p : Option IpPermit) → r ≡ ok p → (p ≡ some (record { ip = some ip })) × (counted < cap))
      → IsBelow ip counted cap (after_ip s query now r).1
  unfolding after_ip
  after_ip-IsBelow s query now (ok p) ip counted cap granted =
      let (own, below) = granted p refl in
      IsBelow-of_HandsOn ip counted cap p _ (after_limit-HandsOn s query p now _) own below
  after_ip-IsBelow s query now (err why) ip counted cap granted = tt

  acquire_ip_from-IsBelow :
      (s : AppState ext) (l : Option IpLimiter) (ip : IpAddr) (now cap : ℕ) (p : Option IpPermit)
      → cap_of l ≡ some (some cap)
      → (acquire_ip_from s l ip now).1 ≡ ok p
      → (p ≡ some (record { ip = some ip })) × (counted_by l ip < cap)
  unfolding acquire_ip_from
  acquire_ip_from-IsBelow s none ip now cap p capped e = absurd cc
  acquire_ip_from-IsBelow s (some lim) ip now cap p capped e =
      granted_below lim _ ip now cap _ p (cc) refl e

  -- Where the IP limiter has a cap, a request is upgraded only with a permit of its own address,
  -- which had fewer connections than the cap.
  pub ws_handler-IsBelow :
      (s : AppState ext) (peer : SocketAddr) (headers : HeaderMap) (query : WsQuery) (now cap : ℕ)
      → cap_of s.ip_limiter ≡ some (some cap)
      → let ip = resolve_client_ip ext peer headers s.config.trust_proxy_headers in
        IsBelow ip (ip_connections s ip) cap (ws_handler s peer headers query now).1
  unfolding ws_handler acquire_ip
  ws_handler-IsBelow s peer headers query now cap capped =
      let ip = resolve_client_ip ext peer headers s.config.trust_proxy_headers in
      after_ip-IsBelow (acquire_ip s ip now).0 query now _ ip (ip_connections s ip) cap
        (λ p e. acquire_ip_from-IsBelow s s.ip_limiter ip now cap p capped e)
