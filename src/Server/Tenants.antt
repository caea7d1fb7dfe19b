-- ===== src/Server/Tenants.antt =====
-- The cap of each tenant holds along every history of the server.
use rust_ws_server.Base.{
  ℕ, ◌≤◌, ◌≡◌, sym, ◌∙◌, ap, subst, true, List, [], ◌∷◌, ◌++◌, some, Text, Text-discrete, count,
  All, arith,
}
use mathlib.Core.List.{map-append}
use rust_ws_server.Config.{Config}
use rust_ws_server.Connection.{drop_permits, close_connection}
use rust_ws_server.Connection.Closing.{drop_permits-Holds, unregistered, unregistered-frame}
use rust_ws_server.External.{External}
use rust_ws_server.Handshake.Tenants.{HasSameTenants-Holds, Admits, ws_handler-Admits}
use rust_ws_server.State.{AppState}
use rust_ws_server.State.Tenants.{Holds, new-Holds}
use rust_ws_server.Server.{
  running, Connection, System, tenants, Step, refused, accepted, abandoned, opened, served, ended,
  Reach, here, next,
}
use rust_ws_server.Server.Core.{core}
use rust_ws_server.Server.Calls.{core-open_connection}
use rust_ws_server.Server.Admission.{core-Serves}
use rust_ws_server.Server.Limits.{fresh}

abbrev IsGranted : Connection → Type 0
IsGranted c = c.has_tenant_permit ≡ true

All-before :
    (before after : List Connection) (c : Connection)
    → All IsGranted (before ++ c ∷ after)
    → IsGranted c × All IsGranted (before ++ after)
All-before [] after c (h, hs) = (h, hs)
All-before (b ∷ before) after c (h, hs) =
    let (own, rest) = All-before before after c hs in (own, (h, rest))

All-middle :
    (before after : List Connection) (c : Connection)
    → IsGranted c
    → All IsGranted (before ++ after)
    → All IsGranted (before ++ c ∷ after)
All-middle [] after c h hs = (h, hs)
All-middle (b ∷ before) after c h (k, hs) = (k, All-middle before after c h hs)

module _ {ext : External} where
  -- Each tenant's permits are held by its connections, and each connection holds one.
  pub record IsTenanted (cap : ℕ) (s : System ext) : Type 0 where
    pub holds : Holds s.state cap (tenants s.connections)
    pub granted : All IsGranted s.connections

  Holds-of_core :
      (s s' : AppState ext) (cap : ℕ) (held : List Text)
      → s'.tenant_limits ≡ s.tenant_limits
      → s'.config ≡ s.config
      → Holds s cap held
      → Holds s' cap held
  Holds-of_core s s' cap held limits config h =
      HasSameTenants-Holds s s' cap held (limits, config) h

  -- The tenants around one connection.
  tenants_around :
      (s : System ext) (before : List Connection) (c : Connection) (after : List Connection)
      → s.connections ≡ before ++ c ∷ after
      → tenants s.connections ≡ tenants before ++ c.identity.tenant_id ∷ tenants after
  tenants_around s before c after at = ap tenants at ∙ map-append _ before (c ∷ after)

  drop_permits-tenants :
      (s : AppState ext) (before : List Connection) (c : Connection) (after : List Connection)
      (now cap : ℕ)
      → IsGranted c
      → Holds s cap (tenants before ++ c.identity.tenant_id ∷ tenants after)
      → Holds
          (drop_permits s c.identity.tenant_id c.ip_permit c.has_tenant_permit now)
          cap
          (tenants (before ++ after))
  drop_permits-tenants s before c after now cap has h =
      subst
        (λ b.
          Holds (drop_permits s c.identity.tenant_id c.ip_permit b now) cap
            (tenants (before ++ after)))
        (sym has)
        (subst (Holds (drop_permits s c.identity.tenant_id c.ip_permit true now) cap)
          (sym (map-append _ before after))
          (drop_permits-Holds s c.identity.tenant_id c.ip_permit now cap (tenants before)
            (tenants after) h))

  Step-IsTenanted : {s t : System ext} → Step s t → (cap : ℕ) → IsTenanted cap s → IsTenanted cap t
  unfolding close_connection
  Step-IsTenanted {s} (refused peer headers query now s' status message e) cap h = record {
    holds =
        subst (Admits cap (tenants s.connections)) e
          (ws_handler-Admits s.state peer headers query now cap (tenants s.connections) h.holds);
    granted = h.granted;
  }
  Step-IsTenanted {s} (accepted peer headers query now s' topic id p has e) cap h =
      let (given, room, holds) =
        subst (Admits cap (tenants s.connections)) e
          (ws_handler-Admits s.state peer headers query now cap (tenants s.connections) h.holds) in
      record { holds = holds; granted = (given, h.granted) }
  Step-IsTenanted {s} (abandoned before c after topic now at phase) cap h =
      let (own, rest) = All-before before after c (subst (All IsGranted) at h.granted) in
      record {
        holds =
            drop_permits-tenants s.state before c after now cap own
              (subst (Holds s.state cap) (tenants_around s before c after at) h.holds);
        granted = rest;
      }
  Step-IsTenanted {s} (opened before c after topic tx s' id started at phase free e) cap h =
      let (own, rest) = All-before before after c (subst (All IsGranted) at h.granted) in
      let same = ap (λ r. core r.0) (sym e) ∙ core-open_connection s.state tx topic c.identity in
      let held =
        tenants_around s before c after at
        ∙ sym (map-append _ before (record c { phase = running id started } ∷ after)) in
      record {
        holds =
            Holds-of_core s.state s' cap _ (ap (λ k. k.tenants) same) (ap (λ k. k.settings) same)
              (subst (Holds s.state cap) held h.holds);
        granted = All-middle before after (record c { phase = running id started }) own rest;
      }
  Step-IsTenanted {s} (served s' v) cap h =
      let same = core-Serves v in
      record {
        holds =
            Holds-of_core s.state s' cap _ (ap (λ k. k.tenants) same) (ap (λ k. k.settings) same)
              h.holds;
        granted = h.granted;
      }
  Step-IsTenanted {s} (ended before c after id now started at phase) cap h =
      let (own, rest) = All-before before after c (subst (All IsGranted) at h.granted) in
      let left = unregistered s.state c.identity id started in
      let (_, limits, config) = unregistered-frame s.state c.identity id started in
      record {
        holds = drop_permits-tenants left before c after now cap own (
            Holds-of_core s.state left cap _ limits config
              (subst (Holds s.state cap) (tenants_around s before c after at) h.holds));
        granted = rest;
      }

  Reach-IsTenanted :
      {s t : System ext} → Reach s t → (cap : ℕ) → IsTenanted cap s → IsTenanted cap t
  Reach-IsTenanted here cap h = h
  Reach-IsTenanted (next r st) cap h = Step-IsTenanted st cap (Reach-IsTenanted r cap h)

-- Along every history of a server that caps the connections of a tenant, no tenant has more
-- connections than the cap, those being upgraded included.
pub Reach-tenants_bound :
    (ext : External) (config : Config) (s : System ext) (cap : ℕ) (tenant : Text)
    → config.tenant_max_connections ≡ some cap
    → Reach (fresh ext config) s
    → count Text-discrete tenant (tenants s.connections) ≤ cap
Reach-tenants_bound ext config s cap tenant capped r =
    let end =
      Reach-IsTenanted r cap (record { holds = new-Holds config cap capped; granted = tt }) in
    omega (arith, end.holds.accounted tenant)
