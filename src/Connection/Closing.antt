-- ===== src/Connection/Closing.antt =====
-- What a connection gives back when it ends.
use rust_ws_server.Base.{
  ℕ, ◌+◌, ◌-◌, ◌≡◌, refl, ◌∙◌, ap, subst, Bool, true, false, List, ◌∷◌, ◌++◌, Option, none, some,
  Text, Text-discrete, ite, if_pos, if_neg, Option-cases, inl, inr, sym, arith,
}
use rust_ws_server.Auth.{AuthIdentity}
use mathlib.Core.Option
use rust_ws_server.Base.Map.{Map, get, insert, get-insert_self, get-insert_ne}
use rust_ws_server.External.{External}
use rust_ws_server.Handshake.{drop_ip_permit, drop_permit}
use rust_ws_server.Handshake.Permits.{
  held_by, permits_left, ip_connections, counted_by, drop_ip_permit-held, drop_ip_permit-frame,
}
use rust_ws_server.Handshake.Tenants.{HasSameTenants-Holds, drop_ip_permit-HasSameTenants}
use rust_ws_server.IpLimiter.{IpPermit}
use rust_ws_server.IpLimiter.Accounting.{open_from}
use rust_ws_server.Metrics
use rust_ws_server.Net.{IpAddr}
use rust_ws_server.State.{
  AppState, unregister_client, remove_client, release_tenant_permit, release_with,
}
use rust_ws_server.State.Tenants.{Holds, release_tenant_permit-Holds}
use rust_ws_server.Connection.{drop_tenant_permit, drop_permits, leave, close_connection}

-- What is left of a tenant's cap, if it has a semaphore.
abbrev left_of : (ext : External) → Option (Map Text ext.semaphore.Semaphore) → Text → Option ℕ
left_of ext none tenant = none
left_of ext (some limits) tenant =
    Option.map (λ sem. ext.semaphore.available sem) (get Text-discrete tenant limits)

abbrev pub tenant_left : {ext : External} → AppState ext → Text → Option ℕ
tenant_left {ext} s tenant = left_of ext s.tenant_limits tenant

-- The permits that a connection of the tenant `own` gives back to a tenant.
abbrev pub given_back : (has : Bool) (own tenant : Text) → ℕ
given_back true own tenant = ite (Text-discrete own tenant) 1 0
given_back false own tenant = 0

map_add_zero : (o : Option ℕ) → Option.map (λ n. n + 0) o ≡ o
map_add_zero none = refl
map_add_zero (some n) = ap some (omega arith)

module _ {ext : External} where
  -- The permits and limits are the same in both states.
  abbrev pub HasSameLimits : AppState ext → AppState ext → Type 0
  HasSameLimits s s' = (s'.connection_limit ≡ s.connection_limit) × (s'.ip_limiter ≡ s.ip_limiter)

  unregister_client-frame :
      (s : AppState ext) (client tenant : Text) (id : ℕ)
      → let s' = unregister_client s client tenant id in
        HasSameLimits s s' × (s'.tenant_limits ≡ s.tenant_limits) × (s'.config ≡ s.config)
  unfolding unregister_client remove_client
  unregister_client-frame s client tenant id =
      ((ground arith, ground arith), ground arith, ground arith)

  drop_tenant_permit-frame :
      (s : AppState ext) (tenant : Text) (has : Bool)
      → HasSameLimits s (drop_tenant_permit s tenant has)
  unfolding drop_tenant_permit release_tenant_permit release_with
  drop_tenant_permit-frame s tenant has = (ground arith, ground arith)

  pub drop_permits-permits :
      (s : AppState ext) (tenant : Text) (p : Option IpPermit) (has : Bool) (now : ℕ) (j : IpAddr)
      → let s' = drop_permits s tenant p has now in
        (permits_left s' ≡ permits_left s + 1)
        × (ip_connections s' j ≡ ip_connections s j - open_from j (held_by p))
  unfolding drop_permits drop_permit
  drop_permits-permits s tenant p has now j =
      let dropped = drop_tenant_permit s tenant has in
      let (limit, ips) = drop_tenant_permit-frame s tenant has in
      (
        ext.semaphore.available-release _
            ∙ ap (λ l. ext.semaphore.available l + 1) (drop_ip_permit-frame dropped p now ∙ limit),
        drop_ip_permit-held dropped p now j
            ∙ ap (λ l. counted_by l j - open_from j (held_by p)) ips,
      )

  pub drop_permits-Holds :
      (s : AppState ext) (tenant : Text) (p : Option IpPermit) (now cap : ℕ)
      (before after : List Text)
      → Holds s cap (before ++ tenant ∷ after)
      → Holds (drop_permits s tenant p true now) cap (before ++ after)
  unfolding drop_permits drop_permit
  drop_permits-Holds s tenant p now cap before after h =
      let dropped = release_tenant_permit s tenant in
      HasSameTenants-Holds dropped (drop_permit (drop_ip_permit dropped p now)) cap _
        (drop_ip_permit-HasSameTenants dropped p now)
        (release_tenant_permit-Holds s cap before tenant after h)

  release_with-tenant_left :
      (s : AppState ext) (l : Option (Map Text ext.semaphore.Semaphore)) (own tenant : Text)
      → s.tenant_limits ≡ l
      → tenant_left (release_with s l own) tenant
        ≡ Option.map (λ n. n + given_back true own tenant) (left_of ext l tenant)
  unfolding release_with
  release_with-tenant_left s none own tenant e = rw e refl
  release_with-tenant_left s (some limits) own tenant e = elim (Text-discrete own tenant) [
    | yes same ↦ elim (Option-cases (get Text-discrete own limits)) [
      | inl g ↦
          rw
            (
              if_pos _ same,
              g,
              release_with,
              e,
              subst (λ k. get Text-discrete k limits ≡ none) same g,
            )
            refl
      | inr (sem, g) ↦
          rw
            (
              if_pos _ same,
              g,
              release_with,
              subst (λ k. get Text-discrete k limits ≡ some sem) same g,
              subst
                  (λ k.
                    get Text-discrete k
                      (insert Text-discrete own (ext.semaphore.release sem) limits)
                    ≡ some (ext.semaphore.release sem))
                  same (get-insert_self Text-discrete own (ext.semaphore.release sem) limits),
            )
            (ap some (ext.semaphore.available-release sem))
    ]
    | no differ ↦ elim (Option-cases (get Text-discrete own limits)) [
      | inl g ↦ rw (if_neg _ differ, g, release_with, e) (sym (map_add_zero _))
      | inr (sem, g) ↦
          rw
            (
              if_neg _ differ,
              g,
              release_with,
              get-insert_ne Text-discrete tenant own (ext.semaphore.release sem) limits
                  (λ same. differ (sym same)),
            )
            (sym (map_add_zero _))
    ]
  ]

  drop_tenant_permit-tenant_left :
      (s : AppState ext) (own : Text) (has : Bool) (tenant : Text)
      → tenant_left (drop_tenant_permit s own has) tenant
        ≡ Option.map (λ n. n + given_back has own tenant) (tenant_left s tenant)
  unfolding drop_tenant_permit release_tenant_permit
  drop_tenant_permit-tenant_left s own true tenant =
      release_with-tenant_left s s.tenant_limits own tenant refl
  drop_tenant_permit-tenant_left s own false tenant = sym (map_add_zero _)

  leave-frame :
      (s : AppState ext) (id : AuthIdentity) (connection : ℕ) (started : Bool)
      → let s' = leave s id connection started in
        HasSameLimits s s' × (s'.tenant_limits ≡ s.tenant_limits) × (s'.config ≡ s.config)
  unfolding leave
  leave-frame s id connection true = unregister_client-frame s id.client_id id.tenant_id connection
  leave-frame s id connection false = ((refl, refl), refl, refl)

  -- The state in which the permits of a closing connection are dropped.
  abbrev pub unregistered : AppState ext → AuthIdentity → ℕ → Bool → AppState ext
  unregistered s id connection started =
      let left = leave s id connection started in
      record left { metrics = Metrics.connection_closed left.metrics }

  pub unregistered-frame :
      (s : AppState ext) (id : AuthIdentity) (connection : ℕ) (started : Bool)
      → let s' = unregistered s id connection started in
        HasSameLimits s s' × (s'.tenant_limits ≡ s.tenant_limits) × (s'.config ≡ s.config)
  unregistered-frame s id connection started = leave-frame s id connection started

  pub close_connection-permits :
      (s : AppState ext) (id : AuthIdentity) (connection : ℕ) (started : Bool) (p : Option IpPermit)
      (has : Bool) (now : ℕ) (j : IpAddr)
      → let s' = close_connection s id connection started p has now in
        (permits_left s' ≡ permits_left s + 1)
        × (ip_connections s' j ≡ ip_connections s j - open_from j (held_by p))
  unfolding close_connection
  close_connection-permits s id connection started p has now j =
      let ((limit, ips), _, _) = unregistered-frame s id connection started in
      let (limit', ips') =
        drop_permits-permits (unregistered s id connection started) id.tenant_id p has now j in
      (
        limit' ∙ ap (λ l. ext.semaphore.available l + 1) limit,
        ips' ∙ ap (λ l. counted_by l j - open_from j (held_by p)) ips,
      )

  -- A connection that ends gives back its permit of the global limit, the connection that its IP
  -- permit stands for, and its permit of the tenant's cap if it has one; what is left of any other
  -- tenant's cap is as it was.
  pub close_connection-Closes :
      (s : AppState ext) (id : AuthIdentity) (connection : ℕ) (started : Bool) (p : Option IpPermit)
      (has : Bool) (now : ℕ) (j : IpAddr) (tenant : Text)
      → let s' = close_connection s id connection started p has now in
        (permits_left s' ≡ permits_left s + 1)
        × (ip_connections s' j ≡ ip_connections s j - open_from j (held_by p))
        × (tenant_left s' tenant
            ≡ Option.map (λ n. n + given_back has id.tenant_id tenant) (tenant_left s tenant))
  unfolding close_connection drop_permits drop_permit
  close_connection-Closes s id connection started p has now j tenant =
      let left = unregistered s id connection started in
      let (_, tenants, _) = unregistered-frame s id connection started in
      let (limit, ips) = close_connection-permits s id connection started p has now j in
      let dropped = drop_tenant_permit left id.tenant_id has in
      let (same, _) = drop_ip_permit-HasSameTenants dropped p now in
      (
        limit,
        ips,
        ap (λ l. left_of ext l tenant) same
            ∙ drop_tenant_permit-tenant_left left id.tenant_id has tenant
            ∙ ap
                (λ l.
                  Option.map (λ n. n + given_back has id.tenant_id tenant) (left_of ext l tenant))
                tenants,
      )
