-- ===== src/State/Tenants.antt =====
-- The per-tenant connection cap: what a tenant may still open depends on its own connections.
use rust_ws_server.Base.{
  ℕ, ◌+◌, ◌<◌, ◌≤◌, ◌≡◌, ◌≢◌, inl, inr, refl, sym, ◌∙◌, ap, subst, List, [], ◌∷◌, ◌++◌, none, some,
  ok, err, Text, Text-discrete, arith, count, count_middle, Option-cases,
}
use rust_ws_server.Base.Map.{Map, get, insert, get-insert_self, get-insert_ne}
use rust_ws_server.Config.{Config}
use rust_ws_server.External.{External}
use rust_ws_server.State.{
  AppState, new, tenant_semaphore, acquire_from, acquire_with, acquire_tenant_permit, release_with,
  release_tenant_permit, set_tenant_limit,
}

module _ (ext : External) where
  -- The permits that the tenant's semaphore has left, under a cap.
  abbrev pub left : Map Text ext.semaphore.Semaphore → ℕ → Text → ℕ
  left limits cap tenant = ext.semaphore.available (tenant_semaphore ext limits tenant cap)

  left-insert_self :
      (limits : Map Text ext.semaphore.Semaphore) (cap : ℕ) (tenant : Text)
      (sem : ext.semaphore.Semaphore)
      → left (insert Text-discrete tenant sem limits) cap tenant ≡ ext.semaphore.available sem
  unfolding tenant_semaphore
  left-insert_self limits cap tenant sem =
      ap ext.semaphore.available
        (rw (get-insert_self Text-discrete tenant sem limits, tenant_semaphore))

  left-insert_ne :
      (limits : Map Text ext.semaphore.Semaphore) (cap : ℕ) (tenant t : Text)
      (sem : ext.semaphore.Semaphore)
      → t ≢ tenant
      → left (insert Text-discrete tenant sem limits) cap t ≡ left limits cap t
  unfolding tenant_semaphore
  left-insert_ne limits cap tenant t sem ne =
      ap ext.semaphore.available
        (rw (get-insert_ne Text-discrete t tenant sem limits ne, tenant_semaphore))

  left-absent :
      (limits : Map Text ext.semaphore.Semaphore) (cap : ℕ) (tenant : Text)
      → get Text-discrete tenant limits ≡ none
      → left limits cap tenant ≡ cap
  unfolding tenant_semaphore
  left-absent limits cap tenant e =
      ap ext.semaphore.available (rw (e, tenant_semaphore)) ∙ ext.semaphore.available-new cap

  -- A tenant that holds a permit has a semaphore in the map.
  tenant_semaphore-get :
      (limits : Map Text ext.semaphore.Semaphore) (cap : ℕ) (tenant : Text)
      → left limits cap tenant < cap
      → get Text-discrete tenant limits ≡ some (tenant_semaphore ext limits tenant cap)
  unfolding tenant_semaphore
  tenant_semaphore-get limits cap tenant lent =
      elim (Option-cases (get Text-discrete tenant limits)) [
        | inl e ↦ absurd (omega (arith, left-absent limits cap tenant e))
        | inr (sem, e) ↦ rw (e, tenant_semaphore)
      ]

module _ {ext : External} where
  -- Per-tenant limits are configured with this cap, and each tenant's semaphore has left what the
  -- cap allows beyond the permits that the tenant's connections hold.
  pub record Holds (s : AppState ext) (cap : ℕ) (held : List Text) : Type 0 where
    pub limits : Map Text ext.semaphore.Semaphore
    pub limited : s.tenant_limits ≡ some limits
    pub capped : s.config.tenant_max_connections ≡ some cap
    pub accounted : (t : Text) → left ext limits cap t + count Text-discrete t held ≡ cap

  pub new-Holds :
      (config : Config) (cap : ℕ)
      → config.tenant_max_connections ≡ some cap
      → Holds (new ext config) cap []
  unfolding new tenant_semaphore get count
  new-Holds config cap e = record {
    limits = [];
    limited = rw e;
    capped = e;
    accounted = λ t. omega (arith, ext.semaphore.available-new cap);
  }

  set_tenant_limit-Holds :
      (s : AppState ext) (cap : ℕ) (held held' : List Text) (tenant : Text)
      (sem : ext.semaphore.Semaphore) (h : Holds s cap held)
      → ext.semaphore.available sem + count Text-discrete tenant held' ≡ cap
      → ((t : Text) → t ≢ tenant → count Text-discrete t held' ≡ count Text-discrete t held)
      → Holds (set_tenant_limit s h.limits tenant sem) cap held'
  set_tenant_limit-Holds s cap held held' tenant sem h own others = record {
    limits = insert Text-discrete tenant sem h.limits;
    limited = refl;
    capped = h.capped;
    accounted = λ t. elim (Text-discrete t tenant) [
      | yes same ↦ rw same (omega (arith, left-insert_self ext h.limits cap tenant sem))
      | no ne ↦
          omega (arith, left-insert_ne ext h.limits cap tenant t sem ne, others t ne, h.accounted t)
    ];
  }

  acquire_tenant_permit-limited :
      (s : AppState ext) (cap : ℕ) (held : List Text) (tenant : Text) (h : Holds s cap held)
      → acquire_tenant_permit s tenant
        ≡ (let (s', r) = acquire_from s h.limits tenant cap in (s', some r))
  unfolding acquire_tenant_permit
  acquire_tenant_permit-limited s cap held tenant h =
      λ i. acquire_with s (h.limited i) (h.capped i) tenant

  acquire_from-some :
      (s : AppState ext) (limits : Map Text ext.semaphore.Semaphore) (tenant : Text) (cap : ℕ)
      (sem : ext.semaphore.Semaphore)
      → ext.semaphore.try_acquire_owned (tenant_semaphore ext limits tenant cap) ≡ some sem
      → acquire_from s limits tenant cap ≡ (set_tenant_limit s limits tenant sem, ok tt)
  unfolding acquire_from
  acquire_from-some s limits tenant cap sem e = rw (e, acquire_from)

  acquire_from-none :
      (s : AppState ext) (limits : Map Text ext.semaphore.Semaphore) (tenant : Text) (cap : ℕ)
      → ext.semaphore.try_acquire_owned (tenant_semaphore ext limits tenant cap) ≡ none
      → acquire_from s limits tenant cap
        ≡ (set_tenant_limit s limits tenant (tenant_semaphore ext limits tenant cap), err tt)
  unfolding acquire_from
  acquire_from-none s limits tenant cap e = rw (e, acquire_from)

  -- With per-tenant limits, an attempt is admitted exactly while the tenant holds fewer permits
  -- than the cap, however many the other tenants hold; and it takes one permit, or none.
  pub acquire_tenant_permit-Holds :
      (s : AppState ext) (cap : ℕ) (held : List Text) (tenant : Text)
      → Holds s cap held
      → let (s', r) = acquire_tenant_permit s tenant in
        (count Text-discrete tenant held < cap → (r ≡ some (ok tt)) × Holds s' cap (tenant ∷ held))
        × (cap ≤ count Text-discrete tenant held → (r ≡ some (err tt)) × Holds s' cap held)
  unfolding count
  acquire_tenant_permit-Holds s cap held tenant h =
      let sem = tenant_semaphore ext h.limits tenant cap in
      rw (acquire_tenant_permit-limited s cap held tenant h) (
        λ room.
            let (sem', e, one) =
              ext.semaphore.try_acquire_owned-some sem (omega (arith, h.accounted tenant)) in
            rw (acquire_from-some s h.limits tenant cap sem' e) (
              refl,
              set_tenant_limit-Holds s cap held (tenant ∷ held) tenant sem' h
                  (ground (arith, h.accounted tenant)) (λ t ne. ground arith),
            ),
        λ full.
            let e = ext.semaphore.try_acquire_owned-none sem (omega (arith, h.accounted tenant)) in
            rw (acquire_from-none s h.limits tenant cap e) (
              refl,
              set_tenant_limit-Holds s cap held held tenant sem h (h.accounted tenant)
                  (λ t ne. refl),
            ),
      )

  release_with-some :
      (s : AppState ext) (limits : Map Text ext.semaphore.Semaphore) (tenant : Text)
      (sem : ext.semaphore.Semaphore)
      → get Text-discrete tenant limits ≡ some sem
      → release_with s (some limits) tenant
        ≡ set_tenant_limit s limits tenant (ext.semaphore.release sem)
  unfolding release_with
  release_with-some s limits tenant sem e = rw (e, release_with)

  -- A connection that ends gives its permit back.
  pub release_tenant_permit-Holds :
      (s : AppState ext) (cap : ℕ) (before : List Text) (tenant : Text) (after : List Text)
      → Holds s cap (before ++ tenant ∷ after)
      → Holds (release_tenant_permit s tenant) cap (before ++ after)
  unfolding release_tenant_permit count
  release_tenant_permit-Holds s cap before tenant after h =
      let sem = tenant_semaphore ext h.limits tenant cap in
      let lent : left ext h.limits cap tenant < cap =
        ground (arith, h.accounted tenant, count_middle Text-discrete tenant tenant before after) in
      let found = tenant_semaphore-get ext h.limits cap tenant lent in
      let released : release_tenant_permit s tenant
          ≡ set_tenant_limit s h.limits tenant (ext.semaphore.release sem) =
        (λ i. release_with s (h.limited i) tenant)
        ∙ release_with-some s h.limits tenant sem found in
      subst (λ s'. Holds s' cap (before ++ after)) (sym released)
        (set_tenant_limit-Holds s cap (before ++ tenant ∷ after) (before ++ after) tenant
          (ext.semaphore.release sem) h
          (ground (
            arith,
            h.accounted tenant,
            count_middle Text-discrete tenant tenant before after,
            ext.semaphore.available-release sem,
          ))
          (λ t ne. ground (arith, count_middle Text-discrete t tenant before after)))
