-- ===== src/Server/TenantRate.antt =====
-- The rate limit of a tenant, along every history of the server.
use rust_ws_server.Base.{
  ℕ, ◌+◌, ◌-◌, ◌*◌, ◌≤◌, max, ◌≡◌, refl, sym, ◌∙◌, ap, subst, [], some, inl, inr, Text,
  Text-discrete, ite, if◌then◌else◌, arith,
}
use mathlib.Core.Option
use rust_ws_server.Base.Map.{get}
use rust_ws_server.Bucket.{token}
use rust_ws_server.Bucket.Admission.{flow_split}
use rust_ws_server.Config.{Config}
use rust_ws_server.Connection.{open_connection}
use rust_ws_server.External.{External}
use rust_ws_server.IpLimiter.{or_default}
use rust_ws_server.Messages.TenantRate.{is_handled, buckets-Effects}
use rust_ws_server.Messages.TenantRate.Accounting.{
  IsAccounted, unchanged-IsAccounted, reader_turn-IsAccounted,
}
use rust_ws_server.Base.{suc, ◌⊎◌, if_pos}
use rust_ws_server.Messages.Reader.{reader_turn}
use rust_ws_server.Messages.TenantRate.Refusal.{ActsOutside, acting-is_handled}
use rust_ws_server.Metrics
use rust_ws_server.State
use rust_ws_server.State.{AppState, subscribe, next_connection_id, register_client}
use rust_ws_server.Auth.{AuthIdentity}
use rust_ws_server.Server.{
  Serves, turned, published, directed, System, refused, accepted, abandoned, opened, served, ended,
  Reach, here, next,
}
use rust_ws_server.Server.Calls.{api_publish-Effects, api_direct-Effects, send_ready-Effects}
use rust_ws_server.Server.Ends.{drop_permits-Kept, close_connection-buckets}
use rust_ws_server.Server.Handshakes.{ws_handler-Kept}
use rust_ws_server.Server.Limits.{fresh}

module _ {ext : External} where
  -- One for a turn that hands on a frame of the tenant.
  abbrev handled_by : (tenant : Text) {s t : AppState ext} → Serves s t → ℕ
  handled_by tenant {s} (turned limiter tx key other client incoming now) =
      ite (Text-discrete other tenant) (if is_handled s limiter other incoming now then 1 else 0) 0
  handled_by tenant (published headers body) = 0
  handled_by tenant (directed headers body) = 0

  -- How many frames of a tenant the readers hand on to the handlers of their events.
  abbrev pub handled_in : (tenant : Text) {s t : System ext} → Reach s t → ℕ
  handled_in tenant here = 0
  handled_in tenant (next r (served s' v)) = handled_in tenant r + handled_by tenant v
  handled_in tenant (next r (refused peer headers query now s' status message e)) =
      handled_in tenant r
  handled_in tenant (next r (accepted peer headers query now s' topic id p has e)) =
      handled_in tenant r
  handled_in tenant (next r (abandoned before c after topic now at phase)) = handled_in tenant r
  handled_in tenant (next r (opened before c after topic tx s' id started at phase free e)) =
      handled_in tenant r
  handled_in tenant (next r (ended before c after id now started at phase)) = handled_in tenant r

  -- In `n` of the turns of a tenant's readers, of which there may be more, a reader did something
  -- outside of its own connection.
  abbrev pub HasActed : (tenant : Text) {s t : System ext} → Reach s t → (n : ℕ) → Type 0
  HasActed tenant here n = n ≡ 0
  HasActed tenant (next {t} r (served s' (turned limiter tx key other client incoming now))) n =
      HasActed tenant r n
      ⊎ ((m : ℕ) × (n ≡ suc m)
          × (other ≡ tenant)
          × ActsOutside tx t.state
              (reader_turn t.state limiter tx key other client incoming now).state
          × HasActed tenant r m)
  HasActed tenant (next r (served s' (published headers body))) n = HasActed tenant r n
  HasActed tenant (next r (served s' (directed headers body))) n = HasActed tenant r n
  HasActed tenant (next r (refused peer headers query now s' status message e)) n =
      HasActed tenant r n
  HasActed tenant (next r (accepted peer headers query now s' topic id p has e)) n =
      HasActed tenant r n
  HasActed tenant (next r (abandoned before c after topic now at phase)) n = HasActed tenant r n
  HasActed tenant (next r (opened before c after topic tx s' id started at phase free e)) n =
      HasActed tenant r n
  HasActed tenant (next r (ended before c after id now started at phase)) n = HasActed tenant r n

  HasActed-le-handled_in :
      (tenant : Text) {s t : System ext} (r : Reach s t) (n : ℕ)
      → HasActed tenant r n
      → n ≤ handled_in tenant r
  HasActed-le-handled_in tenant here n h = omega (arith, h)
  HasActed-le-handled_in tenant
        (next r (served s' (turned limiter tx key other client incoming now))) n (inl h) =
      omega (arith, HasActed-le-handled_in tenant r n h)
  HasActed-le-handled_in tenant
        (next {t} r (served s' (turned limiter tx key other client incoming now))) n
        (inr (m, e, own, acts, h)) =
      let handled = acting-is_handled t.state limiter tx key other client incoming now acts in
      rw (if_pos _ own, handled) (omega (arith, e, HasActed-le-handled_in tenant r m h))
  HasActed-le-handled_in tenant (next r (served s' (published headers body))) n h =
      omega (arith, HasActed-le-handled_in tenant r n h)
  HasActed-le-handled_in tenant (next r (served s' (directed headers body))) n h =
      omega (arith, HasActed-le-handled_in tenant r n h)
  HasActed-le-handled_in tenant (next r (refused peer headers query now s' status message e)) n h =
      HasActed-le-handled_in tenant r n h
  HasActed-le-handled_in tenant (next r (accepted peer headers query now s' topic id p has e)) n h =
      HasActed-le-handled_in tenant r n h
  HasActed-le-handled_in tenant (next r (abandoned before c after topic now at phase)) n h =
      HasActed-le-handled_in tenant r n h
  HasActed-le-handled_in tenant
        (next r (opened before c after topic tx s' id started at phase free e)) n h =
      HasActed-le-handled_in tenant r n h
  HasActed-le-handled_in tenant (next r (ended before c after id now started at phase)) n h =
      HasActed-le-handled_in tenant r n h

  -- The turns of the readers come in the order of their instants, from `start` to `end` at most.
  abbrev pub InOrder : (start : ℕ) {s t : System ext} → Reach s t → (end : ℕ) → Type 0
  InOrder start here end = start ≤ end
  InOrder start (next r (served s' (turned limiter tx key other client incoming now))) end =
      InOrder start r now × (now ≤ end)
  InOrder start (next r (served s' (published headers body))) end = InOrder start r end
  InOrder start (next r (served s' (directed headers body))) end = InOrder start r end
  InOrder start (next r (refused peer headers query now s' status message e)) end =
      InOrder start r end
  InOrder start (next r (accepted peer headers query now s' topic id p has e)) end =
      InOrder start r end
  InOrder start (next r (abandoned before c after topic now at phase)) end = InOrder start r end
  InOrder start (next r (opened before c after topic tx s' id started at phase free e)) end =
      InOrder start r end
  InOrder start (next r (ended before c after id now started at phase)) end = InOrder start r end

  InOrder-le :
      (start : ℕ) {s t : System ext} (r : Reach s t) (end : ℕ) → InOrder start r end → start ≤ end
  InOrder-le start here end h = h
  InOrder-le start (next r (served s' (turned limiter tx key other client incoming now))) end
        (h, le) =
      omega (arith, InOrder-le start r now h)
  InOrder-le start (next r (served s' (published headers body))) end h = InOrder-le start r end h
  InOrder-le start (next r (served s' (directed headers body))) end h = InOrder-le start r end h
  InOrder-le start (next r (refused peer headers query now s' status message e)) end h =
      InOrder-le start r end h
  InOrder-le start (next r (accepted peer headers query now s' topic id p has e)) end h =
      InOrder-le start r end h
  InOrder-le start (next r (abandoned before c after topic now at phase)) end h =
      InOrder-le start r end h
  InOrder-le start (next r (opened before c after topic tx s' id started at phase free e)) end h =
      InOrder-le start r end h
  InOrder-le start (next r (ended before c after id now started at phase)) end h =
      InOrder-le start r end h

  open_connection-buckets :
      (s : AppState ext) (tx : ℕ) (topic : Text) (id : AuthIdentity)
      → let s' = (open_connection s tx topic id).0 in
        (s'.tenant_rate_limits ≡ s.tenant_rate_limits) × (s'.config ≡ s.config)
  unfolding open_connection subscribe next_connection_id register_client Metrics.connection_accepted
  open_connection-buckets s tx topic id = buckets-Effects (send_ready-Effects _ tx _)

module _ (config : Config) (rate : ℕ) (tenant : Text) (start : ℕ) {ext : External}
    (limited : config.tenant_max_messages_per_second ≡ some rate) where
  -- A step that leaves the buckets alone.
  still :
      (end n : ℕ) {s t : AppState ext}
      → t.tenant_rate_limits ≡ s.tenant_rate_limits
      → t.config ≡ s.config
      → IsAccounted config rate tenant start limited end n s
      → IsAccounted config rate tenant start limited end n t
  still end n {s} {t} e e' a =
      unchanged-IsAccounted config rate tenant start limited end end n {s = s} {t = t} (omega arith)
        (e, e') a

  Reach-IsAccounted :
      {s t : System ext} (r : Reach s t) (end : ℕ)
      → InOrder start r end
      → IsAccounted config rate tenant start limited start 0 s.state
      → IsAccounted config rate tenant start limited end (handled_in tenant r) t.state
  Reach-IsAccounted {s} here end h a =
      unchanged-IsAccounted config rate tenant start limited start end 0 {s = s.state} {t = s.state}
        h (refl, refl) a
  Reach-IsAccounted (next {t} r (served s' (turned limiter tx key other client incoming now))) end
        (h, le) a =
      let le' = InOrder-le start r now h in
      unchanged-IsAccounted config rate tenant start limited now end _ le (refl, refl)
        (reader_turn-IsAccounted config rate tenant start limited t.state limiter tx key other
          client incoming now now _ le' (omega arith) (Reach-IsAccounted r now h a))
  Reach-IsAccounted (next {t} r (served s' (published headers body))) end h a =
      let (k, k') = buckets-Effects (api_publish-Effects t.state headers body) in
      still end _ {s = t.state} k k' (
        subst (λ n. IsAccounted config rate tenant start limited end n t.state) (omega arith)
          (Reach-IsAccounted r end h a))
  Reach-IsAccounted (next {t} r (served s' (directed headers body))) end h a =
      let (k, k') = buckets-Effects (api_direct-Effects t.state headers body) in
      still end _ {s = t.state} k k' (
        subst (λ n. IsAccounted config rate tenant start limited end n t.state) (omega arith)
          (Reach-IsAccounted r end h a))
  Reach-IsAccounted (next {t} r (refused peer headers query now s' status message e)) end h a =
      let k = ws_handler-Kept t.state peer headers query now in
      still end _ {s = t.state} (ap (λ r. r.0.tenant_rate_limits) (sym e) ∙ k.buckets)
        (ap (λ r. r.0.config) (sym e) ∙ k.settings) (Reach-IsAccounted r end h a)
  Reach-IsAccounted (next {t} r (accepted peer headers query now s' topic id p has e)) end h a =
      let k = ws_handler-Kept t.state peer headers query now in
      still end _ {s = t.state} (ap (λ r. r.0.tenant_rate_limits) (sym e) ∙ k.buckets)
        (ap (λ r. r.0.config) (sym e) ∙ k.settings) (Reach-IsAccounted r end h a)
  Reach-IsAccounted (next {t} r (abandoned before c after topic now at phase)) end h a =
      let k = drop_permits-Kept t.state c.identity.tenant_id c.ip_permit c.has_tenant_permit now in
      still end _ {s = t.state} k.buckets k.settings (Reach-IsAccounted r end h a)
  Reach-IsAccounted (next {t} r (opened before c after topic tx s' id started at phase free e)) end
        h a =
      let (k, k') = open_connection-buckets t.state tx topic c.identity in
      still end _ {s = t.state} (ap (λ r. r.0.tenant_rate_limits) (sym e) ∙ k)
        (ap (λ r. r.0.config) (sym e) ∙ k') (Reach-IsAccounted r end h a)
  Reach-IsAccounted (next {t} r (ended before c after id now started at phase)) end h a =
      let (k', k) =
        close_connection-buckets t.state c.identity id started c.ip_permit c.has_tenant_permit
          now in
      still end _ {s = t.state} k k' (Reach-IsAccounted r end h a)

-- Along every history of a server that limits the rate of a tenant's messages, in which the turns
-- of the readers come in the order of their instants, the turns of the readers of a tenant, over all
-- its connections, that act outside of their own connection (that publish, or send to another
-- connection) are no more than the burst and the rate times the time from `start` to `end`. Burst and
-- rate are those configured, but at least one; without a burst it is the rate.
pub Reach-tenant_rate :
    (ext : External) (config : Config) (rate : ℕ) (tenant : Text) (start end n : ℕ) (s : System ext)
    (r : Reach (fresh ext config) s)
    → config.tenant_max_messages_per_second ≡ some rate
    → InOrder start r end
    → HasActed tenant r n
    → n * token
      ≤ max (or_default config.tenant_message_burst (max rate 1)) 1 * token
        + (end - start) * max rate 1
unfolding State.new get
Reach-tenant_rate ext config rate tenant start end n s r limited order acted =
    let few = HasActed-le-handled_in tenant r n acted in
    let a = Reach-IsAccounted config rate tenant start limited r end order (record {
      settings = refl;
      limits = [];
      kept = ap (Option.map (λ (_ : ℕ). [])) limited;
      covers = inl (refl, refl);
    }) in
    elim a.covers [
      | inl (_, none_handled) ↦ omega (arith, few, none_handled)
      | inr (b, _, h) ↦
          omega
            (arith, few, h.spent, flow_split start b.last_refill end (max rate 1) h.early h.late)
    ]
