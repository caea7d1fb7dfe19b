-- ===== src/Handshake/Tenants.antt =====
-- The tenants' permits across a handshake.
use rust_ws_server.Base.{
  ℕ, ◌-◌, ◌<◌, ◌≡◌, ◌⊎◌, inl, inr, refl, ◌∙◌, ap, true, List, ◌∷◌, Option, none, some, Result, ok,
  err, Text, Text-discrete, arith, count, zero-or-pos,
}
use rust_ws_server.Auth.{AuthIdentity}
use rust_ws_server.External.{External}
use rust_ws_server.IpLimiter.{IpPermit, IpRejection}
use rust_ws_server.Net.{IpAddr, SocketAddr}
use rust_ws_server.State.{AppState, acquire_tenant_permit}
use rust_ws_server.State.Tenants.{Holds, acquire_tenant_permit-Holds}
use rust_ws_server.Handshake.{
  WsQuery, HeaderMap, Handshake, rejected, upgraded, resolve_client_ip, acquire_ip, drop_ip_permit,
  drop_permit, after_tenant, after_login, after_limit, after_ip, ws_handler, identify,
}

module _ {ext : External} where
  -- What the permits of the tenants rest on is the same in both states.
  abbrev pub HasSameTenants : AppState ext → AppState ext → Type 0
  HasSameTenants s s' = (s'.tenant_limits ≡ s.tenant_limits) × (s'.config ≡ s.config)

  pub HasSameTenants-Holds :
      (s s' : AppState ext) (cap : ℕ) (held : List Text)
      → HasSameTenants s s'
      → Holds s cap held
      → Holds s' cap held
  HasSameTenants-Holds s s' cap held (limits, config) h = record {
    limits = h.limits;
    limited = limits ∙ h.limited;
    capped = ap (λ c. c.tenant_max_connections) config ∙ h.capped;
    accounted = h.accounted;
  }

  pub drop_ip_permit-HasSameTenants :
      (s : AppState ext) (p : Option IpPermit) (now : ℕ) → HasSameTenants s (drop_ip_permit s p now)
  unfolding drop_ip_permit
  drop_ip_permit-HasSameTenants s none now = (refl, refl)
  drop_ip_permit-HasSameTenants s (some p) now = (refl, refl)

  acquire_ip-HasSameTenants :
      (s : AppState ext) (ip : IpAddr) (now : ℕ) → HasSameTenants s (acquire_ip s ip now).0
  unfolding acquire_ip
  acquire_ip-HasSameTenants s ip now = (ground arith, ground arith)

  -- After a refusal the tenants hold what they held; after an upgrade the tenant of the identity
  -- holds one permit more, and held fewer than the cap.
  abbrev pub Admits : ℕ → List Text → AppState ext × Handshake → Type 0
  Admits cap held (s, rejected status message) = Holds s cap held
  Admits cap held (s, upgraded topic id p has_tenant_permit) =
      (has_tenant_permit ≡ true)
      × (count Text-discrete id.tenant_id held < cap)
      × Holds s cap (id.tenant_id ∷ held)

  -- A state that keeps the tenants of `s` up to the permit that it drops.
  drop_ip_permit-Holds :
      (s s' : AppState ext) (p : Option IpPermit) (now cap : ℕ) (held : List Text)
      → HasSameTenants s s'
      → Holds s cap held
      → Holds (drop_ip_permit s' p now) cap held
  drop_ip_permit-Holds s s' p now cap held (limits, config) h =
      let (limits', config') = drop_ip_permit-HasSameTenants s' p now in
      HasSameTenants-Holds s (drop_ip_permit s' p now) cap held (limits' ∙ limits, config' ∙ config)
        h

  after_tenant-Admits :
      (s : AppState ext) (query : WsQuery) (p : Option IpPermit) (id : AuthIdentity) (now : ℕ)
      (r : Option (Result (Unit {0}) (Unit {0}))) (cap : ℕ) (held : List Text)
      → ((r ≡ some (ok tt))
          × (count Text-discrete id.tenant_id held < cap)
          × Holds s cap (id.tenant_id ∷ held))
        ⊎ ((r ≡ some (err tt)) × Holds s cap held)
      → Admits cap held (after_tenant s query p id now r)
  unfolding after_tenant drop_permit
  after_tenant-Admits s query p id now none cap held (inl (e, _, _)) = absurd cc
  after_tenant-Admits s query p id now none cap held (inr (e, _)) = absurd cc
  after_tenant-Admits s query p id now (some (ok _)) cap held (inl (_, room, h)) = (refl, room, h)
  after_tenant-Admits s query p id now (some (ok _)) cap held (inr (e, _)) = absurd cc
  after_tenant-Admits s query p id now (some (err _)) cap held (inl (e, _, _)) = absurd cc
  after_tenant-Admits s query p id now (some (err _)) cap held (inr (_, h)) =
      drop_ip_permit-Holds s _ p now cap held (refl, refl) h

  acquire_tenant_permit-cases :
      (s : AppState ext) (tenant : Text) (cap : ℕ) (held : List Text)
      → Holds s cap held
      → let (s', r) = acquire_tenant_permit s tenant in
        ((r ≡ some (ok tt))
          × (count Text-discrete tenant held < cap)
          × Holds s' cap (tenant ∷ held))
        ⊎ ((r ≡ some (err tt)) × Holds s' cap held)
  acquire_tenant_permit-cases s tenant cap held h =
      let (room, full) = acquire_tenant_permit-Holds s cap held tenant h in
      elim (zero-or-pos (cap - count Text-discrete tenant held)) [
        | inl none_left ↦ inr (full (omega arith))
        | inr some_left ↦
            let few : count Text-discrete tenant held < cap = omega arith in
            inl ((room few).0, few, (room few).1)
      ]

  after_login-Admits :
      (s : AppState ext) (query : WsQuery) (p : Option IpPermit) (now : ℕ)
      (r : Result AuthIdentity Text) (cap : ℕ) (held : List Text)
      → Holds s cap held
      → Admits cap held (after_login s query p now r)
  unfolding after_login drop_permit
  after_login-Admits s query p now (ok id) cap held h =
      after_tenant-Admits (acquire_tenant_permit s id.tenant_id).0 query p id now _ cap held
        (acquire_tenant_permit-cases s id.tenant_id cap held h)
  after_login-Admits s query p now (err message) cap held h =
      drop_ip_permit-Holds s _ p now cap held (refl, refl) h

  after_limit-Admits :
      (s : AppState ext) (query : WsQuery) (p : Option IpPermit) (now : ℕ)
      (r : Option ext.semaphore.Semaphore) (cap : ℕ) (held : List Text)
      → Holds s cap held
      → Admits cap held (after_limit s query p now r)
  unfolding after_limit
  after_limit-Admits s query p now (some sem) cap held h =
      let s' : AppState ext = record s { connection_limit = sem } in
      after_login-Admits s' query p now (identify s.auth query) cap held
        (HasSameTenants-Holds s s' cap held (refl, refl) h)
  after_limit-Admits s query p now none cap held h =
      drop_ip_permit-Holds s _ p now cap held (refl, refl) h

  after_ip-Admits :
      (s : AppState ext) (query : WsQuery) (now : ℕ) (r : Result (Option IpPermit) IpRejection)
      (cap : ℕ) (held : List Text)
      → Holds s cap held
      → Admits cap held (after_ip s query now r)
  unfolding after_ip
  after_ip-Admits s query now (ok p) cap held h = after_limit-Admits s query p now _ cap held h
  after_ip-Admits s query now (err why) cap held h =
      HasSameTenants-Holds s _ cap held (refl, refl) h

  -- With a cap for each tenant, a handshake that is refused, by whichever check, leaves every
  -- tenant the permits that it held; one that is upgraded has taken one permit of the tenant of its
  -- identity, which held fewer than the cap.
  pub ws_handler-Admits :
      (s : AppState ext) (peer : SocketAddr) (headers : HeaderMap) (query : WsQuery) (now cap : ℕ)
      (held : List Text)
      → Holds s cap held
      → Admits cap held (ws_handler s peer headers query now)
  unfolding ws_handler
  ws_handler-Admits s peer headers query now cap held h =
      let ip = resolve_client_ip ext peer headers s.config.trust_proxy_headers in
      after_ip-Admits (acquire_ip s ip now).0 query now _ cap held (
        HasSameTenants-Holds s (acquire_ip s ip now).0 cap held (acquire_ip-HasSameTenants s ip now)
          h)
