-- ===== src/Server/Handshakes.antt =====
-- What a handshake keeps, and when it is granted an IP permit.
use rust_ws_server.Base.{
  sym, ℕ, ◌≡◌, refl, ◌∙◌, ap, Option, none, some, Result, ok, err, Text, arith,
}
use mathlib.Core.Option
use rust_ws_server.Auth.{AuthIdentity}
use rust_ws_server.External.{External}
use rust_ws_server.IpLimiter
use rust_ws_server.IpLimiter.{IpLimiter, IpPermit, IpRejection, try_acquire}
use rust_ws_server.IpLimiter.Accounting.{max_concurrent-attempt, max_concurrent-drop}
use rust_ws_server.Metrics
use rust_ws_server.Net.{IpAddr, SocketAddr}
use rust_ws_server.State.{AppState, acquire_tenant_permit, acquire_from}
use rust_ws_server.Handshake.{
  WsQuery, HeaderMap, resolve_client_ip, acquire_ip, acquire_ip_from, drop_ip_permit, drop_permit,
  after_tenant, after_login, after_limit, after_ip, ws_handler, identify,
}

abbrev pub cap_of : Option IpLimiter → Option (Option ℕ)
cap_of = Option.map (λ limiter. limiter.max_concurrent)

cap_of-drop :
    (l : Option IpLimiter) (p : IpPermit) (now : ℕ)
    → cap_of (Option.map (λ limiter. IpLimiter.drop limiter p now) l) ≡ cap_of l
cap_of-drop none p now = refl
cap_of-drop (some lim) p now = ap some (max_concurrent-drop lim p now)

module _ {ext : External} where
  -- The settings, the cap of the IP limiter, the count of active connections, and the registrations
  -- with the counter of their ids, the
  -- buckets of the tenants, the topics and the queues.
  pub record Kept (s s' : AppState ext) : Type 0 where
    pub settings : s'.config ≡ s.config
    pub cap : cap_of s'.ip_limiter ≡ cap_of s.ip_limiter
    pub active : s'.metrics.active_connections ≡ s.metrics.active_connections
    pub clients : s'.clients ≡ s.clients
    pub counter : s'.connection_counter ≡ s.connection_counter
    pub buckets : s'.tenant_rate_limits ≡ s.tenant_rate_limits
    pub topics : s'.topics ≡ s.topics
    pub queues : s'.queues ≡ s.queues

  pub Kept-refl : (s : AppState ext) → Kept s s
  Kept-refl s = record {
    settings = refl;
    cap = refl;
    active = refl;
    clients = refl;
    counter = refl;
    buckets = refl;
    topics = refl;
    queues = refl;
  }

  pub Kept-trans : (s t u : AppState ext) → Kept s t → Kept t u → Kept s u
  Kept-trans s t u a b = record {
    settings = b.settings ∙ a.settings;
    cap = b.cap ∙ a.cap;
    active = b.active ∙ a.active;
    clients = b.clients ∙ a.clients;
    counter = b.counter ∙ a.counter;
    buckets = b.buckets ∙ a.buckets;
    topics = b.topics ∙ a.topics;
    queues = b.queues ∙ a.queues;
  }

  pub drop_ip_permit-Kept :
      (s : AppState ext) (p : Option IpPermit) (now : ℕ) → Kept s (drop_ip_permit s p now)
  unfolding drop_ip_permit
  drop_ip_permit-Kept s none now = Kept-refl s
  drop_ip_permit-Kept s (some p) now = record {
    settings = refl;
    cap = cap_of-drop s.ip_limiter p now;
    active = refl;
    clients = refl;
    counter = refl;
    buckets = refl;
    topics = refl;
    queues = refl;
  }

  acquire_ip_from-Kept :
      (s : AppState ext) (l : Option IpLimiter) (ip : IpAddr) (now : ℕ)
      → s.ip_limiter ≡ l
      → Kept s (acquire_ip_from s l ip now).0
  unfolding acquire_ip_from
  acquire_ip_from-Kept s none ip now e = Kept-refl s
  acquire_ip_from-Kept s (some lim) ip now e = record {
    settings = refl;
    cap = ap some (max_concurrent-attempt lim _ ip now _ refl) ∙ ap cap_of (sym e);
    active = refl;
    clients = refl;
    counter = refl;
    buckets = refl;
    topics = refl;
    queues = refl;
  }

  acquire_tenant_permit-Kept :
      (s : AppState ext) (tenant : Text) → Kept s (acquire_tenant_permit s tenant).0
  unfolding acquire_tenant_permit acquire_from
  acquire_tenant_permit-Kept s tenant = record {
    settings = ground arith;
    cap = ground arith;
    active = ground arith;
    clients = ground arith;
    counter = ground arith;
    buckets = ground arith;
    topics = ground arith;
    queues = ground arith;
  }

  -- A refusal drops the permits, and counts it.
  then_drop-Kept :
      (s s' : AppState ext) (p : Option IpPermit) (now : ℕ)
      → Kept s s'
      → Kept s (drop_ip_permit s' p now)
  then_drop-Kept s s' p now k =
      Kept-trans s s' (drop_ip_permit s' p now) k (drop_ip_permit-Kept s' p now)

  after_tenant-Kept :
      (s : AppState ext) (query : WsQuery) (p : Option IpPermit) (id : AuthIdentity) (now : ℕ)
      (r : Option (Result (Unit {0}) (Unit {0})))
      → Kept s (after_tenant s query p id now r).0
  unfolding after_tenant drop_permit Metrics.connection_rejected Metrics.tenant_rejected
  after_tenant-Kept s query p id now none = Kept-refl s
  after_tenant-Kept s query p id now (some (ok _)) = Kept-refl s
  after_tenant-Kept s query p id now (some (err _)) = then_drop-Kept s _ p now (record {
    settings = refl;
    cap = refl;
    active = refl;
    clients = refl;
    counter = refl;
    buckets = refl;
    topics = refl;
    queues = refl;
  })

  after_login-Kept :
      (s : AppState ext) (query : WsQuery) (p : Option IpPermit) (now : ℕ)
      (r : Result AuthIdentity Text)
      → Kept s (after_login s query p now r).0
  unfolding after_login drop_permit Metrics.connection_rejected Metrics.auth_rejected
  after_login-Kept s query p now (ok id) =
      let (s', r) = acquire_tenant_permit s id.tenant_id in
      Kept-trans s s' (after_tenant s' query p id now r).0
        (acquire_tenant_permit-Kept s id.tenant_id) (after_tenant-Kept s' query p id now r)
  after_login-Kept s query p now (err message) = then_drop-Kept s _ p now (record {
    settings = refl;
    cap = refl;
    active = refl;
    clients = refl;
    counter = refl;
    buckets = refl;
    topics = refl;
    queues = refl;
  })

  after_limit-Kept :
      (s : AppState ext) (query : WsQuery) (p : Option IpPermit) (now : ℕ)
      (r : Option ext.semaphore.Semaphore)
      → Kept s (after_limit s query p now r).0
  unfolding after_limit Metrics.connection_rejected
  after_limit-Kept s query p now (some sem) =
      let s' : AppState ext = record s { connection_limit = sem } in
      Kept-trans s s' _
        (record {
          settings = refl;
          cap = refl;
          active = refl;
          clients = refl;
          counter = refl;
          buckets = refl;
          topics = refl;
          queues = refl;
        })
        (after_login-Kept s' query p now (identify s.auth query))
  after_limit-Kept s query p now none = then_drop-Kept s _ p now (record {
    settings = refl;
    cap = refl;
    active = refl;
    clients = refl;
    counter = refl;
    buckets = refl;
    topics = refl;
    queues = refl;
  })

  after_ip-Kept :
      (s : AppState ext) (query : WsQuery) (now : ℕ) (r : Result (Option IpPermit) IpRejection)
      → Kept s (after_ip s query now r).0
  unfolding after_ip Metrics.connection_rejected Metrics.ip_rejected
  after_ip-Kept s query now (ok p) = after_limit-Kept s query p now _
  after_ip-Kept s query now (err why) = record {
    settings = refl;
    cap = refl;
    active = refl;
    clients = refl;
    counter = refl;
    buckets = refl;
    topics = refl;
    queues = refl;
  }

  pub ws_handler-Kept :
      (s : AppState ext) (peer : SocketAddr) (headers : HeaderMap) (query : WsQuery) (now : ℕ)
      → Kept s (ws_handler s peer headers query now).0
  unfolding ws_handler acquire_ip
  ws_handler-Kept s peer headers query now =
      let ip = resolve_client_ip ext peer headers s.config.trust_proxy_headers in
      let (s', r) = acquire_ip s ip now in
      Kept-trans s s' (after_ip s' query now r).0 (acquire_ip_from-Kept s s.ip_limiter ip now refl)
        (after_ip-Kept s' query now r)
