-- ===== src/Handshake/Permits.antt =====
-- What a request holds afterwards: nothing if it is refused, and one permit of each kind otherwise.
use rust_ws_server.Base.{
  ℕ, ◌+◌, ◌-◌, ◌<◌, ◌^◌, ◌≡◌, inl, inr, refl, sym, ◌∙◌, subst, ap, List, [], ◌∷◌, Option, none,
  some, Result, ok, err, Text, arith, count, zero-or-pos,
}
use mathlib.Core.Option
use rust_ws_server.Auth.{AuthIdentity}
use rust_ws_server.External.{External}
use rust_ws_server.IpLimiter
use rust_ws_server.IpLimiter.{IpLimiter, IpPermit, IpRejection, try_acquire}
use rust_ws_server.IpLimiter.Entries.{concurrent_of}
use rust_ws_server.IpLimiter.Accounting.{
  attempt_permit, open_from, concurrent_of-attempt, concurrent_of-drop,
}
use rust_ws_server.Net.{IpAddr, SocketAddr}
use rust_ws_server.State.{AppState, acquire_tenant_permit, acquire_from}
use rust_ws_server.Handshake.{
  WsQuery, HeaderMap, Handshake, rejected, upgraded, resolve_client_ip, acquire_ip, acquire_ip_from,
  some_permit, drop_ip_permit, drop_permit, after_tenant, after_login, after_limit, after_ip,
  ws_handler,
}

-- The addresses, one at most, that a permit stands for.
abbrev pub held_by : Option IpPermit → List IpAddr
held_by none = []
held_by (some p) = elim p.ip [ some ip ↦ ip ∷ [] | none ↦ [] ]

-- The connections that an IP limiter, if there is one, counts for an address.
abbrev pub counted_by : Option IpLimiter → IpAddr → ℕ
counted_by (some lim) ip = concurrent_of lim ip
counted_by none ip = 0

concurrent_of-drop_held :
    (lim : IpLimiter) (o : Option IpAddr) (now : ℕ) (j : IpAddr)
    → concurrent_of (IpLimiter.drop lim (record { ip = o }) now) j
      ≡ concurrent_of lim j - open_from j (held_by (some (record { ip = o })))
unfolding IpLimiter.drop count
concurrent_of-drop_held lim none now j = omega arith
concurrent_of-drop_held lim (some ip) now j = ground (arith, concurrent_of-drop lim ip j now)

counted_by-drop :
    (l : Option IpLimiter) (p : IpPermit) (now : ℕ) (j : IpAddr)
    → counted_by (Option.map (λ lim. IpLimiter.drop lim p now) l) j
      ≡ counted_by l j - open_from j (held_by (some p))
counted_by-drop none p now j = omega arith
counted_by-drop (some lim) p now j = concurrent_of-drop_held lim p.ip now j

counted_by-admitted :
    (lim lim' : IpLimiter) (ip j : IpAddr) (now : ℕ) (r : Result IpPermit IpRejection)
    (p : Option IpPermit)
    → concurrent_of lim j + 1 < 2 ^ 32
    → try_acquire lim ip now ≡ (lim', r)
    → some_permit r ≡ ok p
    → concurrent_of lim' j ≡ concurrent_of lim j + open_from j (held_by p)
unfolding count
counted_by-admitted lim lim' ip j now (ok q) p small e same =
    let own = attempt_permit lim lim' ip now q e in
    let one = concurrent_of-attempt lim lim' ip j now (ok q) e in
    let held : p ≡ some (record { ip = some ip }) = cc in
    subst (λ z. concurrent_of lim' j ≡ concurrent_of lim j + open_from j (held_by z)) (sym held)
      (ground (arith, one))
counted_by-admitted lim lim' ip j now (err why) p small e same = cc

refused_counts :
    (lim : IpLimiter) (ip j : IpAddr) (now : ℕ) (why : IpRejection)
    (r : Result IpPermit IpRejection) (lim' : IpLimiter)
    → try_acquire lim ip now ≡ (lim', r)
    → some_permit r ≡ err why
    → concurrent_of lim' j ≡ concurrent_of lim j
refused_counts lim ip j now why (ok q) lim' e same = cc
refused_counts lim ip j now why (err w) lim' e same =
    ground (arith, concurrent_of-attempt lim lim' ip j now (err w) e)

module _ {ext : External} where
  -- The permits that the global limit has left.
  abbrev pub permits_left : AppState ext → ℕ
  permits_left s = ext.semaphore.available s.connection_limit

  abbrev pub ip_connections : AppState ext → IpAddr → ℕ
  ip_connections s ip = counted_by s.ip_limiter ip

  pub drop_ip_permit-held :
      (s : AppState ext) (p : Option IpPermit) (now : ℕ) (j : IpAddr)
      → ip_connections (drop_ip_permit s p now) j ≡ ip_connections s j - open_from j (held_by p)
  unfolding drop_ip_permit count
  drop_ip_permit-held s none now j = omega arith
  drop_ip_permit-held s (some p) now j = counted_by-drop s.ip_limiter p now j

  pub drop_ip_permit-frame :
      (s : AppState ext) (p : Option IpPermit) (now : ℕ)
      → (drop_ip_permit s p now).connection_limit ≡ s.connection_limit
  unfolding drop_ip_permit
  drop_ip_permit-frame s none now = refl
  drop_ip_permit-frame s (some p) now = refl

  acquire_ip_from-held :
      (s : AppState ext) (l : Option IpLimiter) (ip : IpAddr) (now : ℕ) (j : IpAddr)
      (p : Option IpPermit)
      → s.ip_limiter ≡ l
      → counted_by l j + 1 < 2 ^ 32
      → (acquire_ip_from s l ip now).1 ≡ ok p
      → ip_connections (acquire_ip_from s l ip now).0 j ≡ counted_by l j + open_from j (held_by p)
  unfolding acquire_ip_from count
  acquire_ip_from-held s none ip now j p a small e = ground arith
  acquire_ip_from-held s (some lim) ip now j p a small e =
      counted_by-admitted lim _ ip j now _ p small refl e

  acquire_ip_from-refused :
      (s : AppState ext) (l : Option IpLimiter) (ip : IpAddr) (now : ℕ) (j : IpAddr)
      (why : IpRejection)
      → s.ip_limiter ≡ l
      → (acquire_ip_from s l ip now).1 ≡ err why
      → ip_connections (acquire_ip_from s l ip now).0 j ≡ counted_by l j
  unfolding acquire_ip_from
  acquire_ip_from-refused s none ip now j why a e = cc
  acquire_ip_from-refused s (some lim) ip now j why a e = refused_counts lim ip j now why _ _ refl e

  acquire_ip-frame :
      (s : AppState ext) (ip : IpAddr) (now : ℕ)
      → (acquire_ip s ip now).0.connection_limit ≡ s.connection_limit
  unfolding acquire_ip
  acquire_ip-frame s ip now = ground arith

  acquire_tenant_permit-frame :
      (s : AppState ext) (t : Text)
      → let s' = (acquire_tenant_permit s t).0 in
        (s'.connection_limit ≡ s.connection_limit) × (s'.ip_limiter ≡ s.ip_limiter)
  unfolding acquire_tenant_permit acquire_from
  acquire_tenant_permit-frame s t = (ground arith, ground arith)

  acquire_ip-held :
      (s : AppState ext) (ip : IpAddr) (now : ℕ) (j : IpAddr) (p : Option IpPermit)
      → ip_connections s j + 1 < 2 ^ 32
      → (acquire_ip s ip now).1 ≡ ok p
      → ip_connections (acquire_ip s ip now).0 j ≡ ip_connections s j + open_from j (held_by p)
  unfolding acquire_ip
  acquire_ip-held s ip now j p small e = acquire_ip_from-held s s.ip_limiter ip now j p refl small e

  acquire_ip-refused :
      (s : AppState ext) (ip : IpAddr) (now : ℕ) (j : IpAddr) (why : IpRejection)
      → (acquire_ip s ip now).1 ≡ err why
      → ip_connections (acquire_ip s ip now).0 j ≡ ip_connections s j
  unfolding acquire_ip
  acquire_ip-refused s ip now j why e = acquire_ip_from-refused s s.ip_limiter ip now j why refl e

  -- A refusal leaves `left` permits of the global limit and counts for an address the connections
  -- that were counted; an upgrade leaves one permit less and counts what its permit stands for.
  abbrev pub Settles : IpAddr → ℕ → ℕ → AppState ext × Handshake → Type 0
  Settles j left counted (s, rejected status message) =
      (permits_left s ≡ left) × (ip_connections s j ≡ counted)
  Settles j left counted (s, upgraded topic identity p has_tenant) =
      (permits_left s + 1 ≡ left) × (ip_connections s j ≡ counted + open_from j (held_by p))

  drop_ip_permit-Settles :
      (s : AppState ext) (p : Option IpPermit) (now : ℕ) (j : IpAddr) (left counted : ℕ)
      → permits_left s ≡ left
      → ip_connections s j ≡ counted + open_from j (held_by p)
      → (permits_left (drop_ip_permit s p now) ≡ left)
        × (ip_connections (drop_ip_permit s p now) j ≡ counted)
  drop_ip_permit-Settles s p now j left counted a b = (
    ap ext.semaphore.available (drop_ip_permit-frame s p now) ∙ a,
    omega (arith, drop_ip_permit-held s p now j),
  )

  after_tenant-Settles :
      (s : AppState ext) (query : WsQuery) (p : Option IpPermit) (identity : AuthIdentity) (now : ℕ)
      (r : Option (Result (Unit {0}) (Unit {0}))) (j : IpAddr) (left counted : ℕ)
      → permits_left s + 1 ≡ left
      → ip_connections s j ≡ counted + open_from j (held_by p)
      → Settles j left counted (after_tenant s query p identity now r)
  unfolding after_tenant drop_permit
  after_tenant-Settles s query p identity now none j left counted a b = (a, b)
  after_tenant-Settles s query p identity now (some (ok _)) j left counted a b = (a, b)
  after_tenant-Settles s query p identity now (some (err _)) j left counted a b =
      drop_ip_permit-Settles _ p now j left counted
        (ext.semaphore.available-release s.connection_limit ∙ a) b

  after_login-Settles :
      (s : AppState ext) (query : WsQuery) (p : Option IpPermit) (now : ℕ)
      (r : Result AuthIdentity Text) (j : IpAddr) (left counted : ℕ)
      → permits_left s + 1 ≡ left
      → ip_connections s j ≡ counted + open_from j (held_by p)
      → Settles j left counted (after_login s query p now r)
  unfolding after_login drop_permit
  after_login-Settles s query p now (ok identity) j left counted a b =
      let (limit, ips) = acquire_tenant_permit-frame s identity.tenant_id in
      after_tenant-Settles _ query p identity now _ j left counted
        (ap (λ z. ext.semaphore.available z + 1) limit ∙ a) (ap (λ l. counted_by l j) ips ∙ b)
  after_login-Settles s query p now (err message) j left counted a b =
      drop_ip_permit-Settles _ p now j left counted
        (ext.semaphore.available-release s.connection_limit ∙ a) b

  after_limit-Settles :
      (s : AppState ext) (query : WsQuery) (p : Option IpPermit) (now : ℕ) (j : IpAddr)
      (counted : ℕ)
      → ip_connections s j ≡ counted + open_from j (held_by p)
      → Settles j
          (permits_left s)
          counted
          (after_limit s query p now (ext.semaphore.try_acquire_owned s.connection_limit))
  unfolding after_limit
  after_limit-Settles s query p now j counted b = elim (zero-or-pos (permits_left s)) [
    | inl full ↦
        rw (ext.semaphore.try_acquire_owned-none s.connection_limit full)
          (drop_ip_permit-Settles _ p now j (permits_left s) counted refl b)
    | inr room ↦
        let (sem, e, one) = ext.semaphore.try_acquire_owned-some s.connection_limit room in
        rw e (after_login-Settles _ query p now _ j (permits_left s) counted one b)
  ]

  after_ip-Settles :
      (s : AppState ext) (query : WsQuery) (now : ℕ) (r : Result (Option IpPermit) IpRejection)
      (j : IpAddr) (left counted : ℕ)
      → permits_left s ≡ left
      → ((p : Option IpPermit) → r ≡ ok p → ip_connections s j ≡ counted + open_from j (held_by p))
      → ((why : IpRejection) → r ≡ err why → ip_connections s j ≡ counted)
      → Settles j left counted (after_ip s query now r)
  unfolding after_ip
  after_ip-Settles s query now (ok p) j left counted a granted refused =
      subst (λ n. Settles j n counted (after_ip s query now (ok p))) a
        (after_limit-Settles s query p now j counted (granted p refl))
  after_ip-Settles s query now (err why) j left counted a granted refused = (a, refused why refl)

  -- A request that is refused leaves the global limit and the connections counted for every
  -- address as they were, whichever check refused it. A request that is upgraded has taken one
  -- permit of the global limit, and counts for an address, on top of what was counted, the
  -- connection that its IP permit stands for, if one more than its count fits in 32 bits.
  pub ws_handler-Settles :
      (s : AppState ext) (peer : SocketAddr) (headers : HeaderMap) (query : WsQuery) (now : ℕ)
      (j : IpAddr)
      → ip_connections s j + 1 < 2 ^ 32
      → Settles j (permits_left s) (ip_connections s j) (ws_handler s peer headers query now)
  unfolding ws_handler
  ws_handler-Settles s peer headers query now j small =
      let ip = resolve_client_ip ext peer headers s.config.trust_proxy_headers in
      after_ip-Settles (acquire_ip s ip now).0 query now _ j _ _
        (ap ext.semaphore.available (acquire_ip-frame s ip now))
        (λ p e. acquire_ip-held s ip now j p small e) (λ why e. acquire_ip-refused s ip now j why e)
