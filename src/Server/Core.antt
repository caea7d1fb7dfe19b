-- ===== src/Server/Core.antt =====
-- What admission rests on, which no message touches.
use rust_ws_server.Base.{ℕ, ◌≡◌, refl, ◌∙◌, ap, Option, Text, arith}
use rust_ws_server.Base.Map.{Map}
use rust_ws_server.Config.{Config}
use rust_ws_server.External.{External}
use rust_ws_server.IpLimiter.{IpLimiter}
use rust_ws_server.Protocol.{OutboundMessage}
use rust_ws_server.State
use rust_ws_server.State.{AppState, try_send, check_tenant_rate}
use rust_ws_server.Messages.Effects.{Effects, nothing, sent, counted, announced, rated}

module _ (ext : External) where
  pub record Core : Type 0 where
    pub limit : ext.semaphore.Semaphore
    pub limiter : Option IpLimiter
    pub tenants : Option (Map Text ext.semaphore.Semaphore)
    pub settings : Config
    pub active : ℕ

module _ {ext : External} where
  abbrev pub core : AppState ext → Core ext
  core s = record {
    limit = s.connection_limit;
    limiter = s.ip_limiter;
    tenants = s.tenant_limits;
    settings = s.config;
    active = s.metrics.active_connections;
  }

  core-try_send :
      (s : AppState ext) (tx : ℕ) (m : OutboundMessage) → core (try_send s tx m).0 ≡ core s
  unfolding try_send
  core-try_send s tx m = ground arith

  core-check_tenant_rate :
      (s : AppState ext) (tenant : Text) (now : ℕ)
      → core (check_tenant_rate s tenant now).0 ≡ core s
  unfolding check_tenant_rate
  core-check_tenant_rate s tenant now = ground arith

  pub core-Effects : {s t : AppState ext} → Effects s t → core t ≡ core s
  unfolding State.publish
  core-Effects nothing = refl
  core-Effects (sent {t} h tx m) = core-try_send t tx m ∙ core-Effects h
  core-Effects (counted {t} h m e) =
      ap (λ (n : ℕ). record (core t) { active = n }) e ∙ core-Effects h
  core-Effects (announced h key m) = core-Effects h
  core-Effects (rated {t} h tenant now _) = core-check_tenant_rate t tenant now ∙ core-Effects h
