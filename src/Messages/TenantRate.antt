-- ===== src/Messages/TenantRate.antt =====
-- src/server.rs and src/state.rs: the rate at which the messages of a tenant are let through, and
-- what a turn of a reader does to the tenants' buckets.
use rust_ws_server.Base.{
  ℕ, ◌+◌, ◌≤◌, max, ◌≡◌, refl, sym, ◌∙◌, ap, subst, Bool, true, false, Bool-cases, inl, inr, Option,
  some, Text, Text-discrete, arith, if◌then◌else◌, ite, if_pos, if_neg, not, ltb, text,
}
use rust_ws_server.Base.Map.{Map, get, insert, get-insert_self, get-insert_ne}
use rust_ws_server.Bucket.{TokenBucket, try_consume}
use rust_ws_server.Config.{Config}
use rust_ws_server.External.{External}
use rust_ws_server.IpLimiter.{or_default}
use rust_ws_server.Messages.{count_in, handle_text, handle_binary}
use rust_ws_server.Messages.Effects.{
  EffectsOf, nothing, sent, counted, announced, rated, send_error-Effects, handle_parsed-Effects,
}
use rust_ws_server.Messages.Reader.{
  Incoming, text_frame, binary_frame, ping_frame, pong_frame, close_frame, ended, failed, timed_out,
  normal, policy, count_tenant_rate_rejected, rate_limited, too_large, within_tenant_rate, limited,
  accept_text, accept_binary, reader_turn,
}
use rust_ws_server.Messages.Turns.{rate_limited-Effects, too_large-Effects}
use rust_ws_server.Messages.TenantRate.Spending.{
  Covers, later-Covers, consumed-IsSpent, found-IsSpent,
}
use rust_ws_server.Metrics
use rust_ws_server.Protocol.{OutboundMessage}
use rust_ws_server.RateLimiter.{RateLimiter, allow}
use rust_ws_server.State
use rust_ws_server.State.{AppState, tenant_bucket, check_tenant_rate, try_send}
use rust_ws_server.Str.{len}
pub mod Accounting
pub mod Refusal
mod Spending

module _ {ext : External} where
  -- Whether a turn comes to the check of the tenant's rate.
  abbrev pub is_checked : AppState ext → RateLimiter → Incoming → ℕ → Bool
  is_checked s limiter (text_frame raw) now =
      if ltb s.config.max_text_bytes (len raw) then false else (allow limiter now).1
  is_checked s limiter (binary_frame raw) now = (allow limiter now).1
  is_checked s limiter (ping_frame payload) now = false
  is_checked s limiter pong_frame now = false
  is_checked s limiter close_frame now = false
  is_checked s limiter ended now = false
  is_checked s limiter failed now = false
  is_checked s limiter timed_out now = false

  -- Whether it hands its frame on to the handler.
  abbrev pub is_handled : AppState ext → RateLimiter → Text → Incoming → ℕ → Bool
  is_handled s limiter tenant incoming now =
      if is_checked s limiter incoming now
      then (check_tenant_rate (count_in s) tenant now).1
      else false

  buckets-try_send :
      (s : AppState ext) (tx : ℕ) (m : OutboundMessage)
      → let s' = (try_send s tx m).0 in
        (s'.tenant_rate_limits ≡ s.tenant_rate_limits) × (s'.config ≡ s.config)
  unfolding try_send
  buckets-try_send s tx m = (ground arith, ground arith)

  pub buckets-Effects :
      {s t : AppState ext}
      → EffectsOf ⊥ s t
      → (t.tenant_rate_limits ≡ s.tenant_rate_limits) × (t.config ≡ s.config)
  unfolding State.publish
  buckets-Effects nothing = (refl, refl)
  buckets-Effects (sent {t} h tx m) =
      let (e, e') = buckets-Effects h in
      let (same, same') = buckets-try_send t tx m in (same ∙ e, same' ∙ e')
  buckets-Effects (counted h m e) = buckets-Effects h
  buckets-Effects (announced h key m) = buckets-Effects h
  buckets-Effects (rated h tenant now impossible) = elim impossible [ ]

  -- The part of a turn that follows the tenant's check.
  within_tenant_rate-Effects :
      (t : AppState ext) (tx : ℕ) (tenant : Text) (now : ℕ) (handler : AppState ext → AppState ext)
      → ((u : AppState ext) → EffectsOf ⊥ u (handler u))
      → EffectsOf ⊥ (check_tenant_rate t tenant now).0 (within_tenant_rate t tx tenant now handler)
  unfolding within_tenant_rate Metrics.tenant_rate_rejected
  within_tenant_rate-Effects t tx tenant now handler allowed =
      let (t', admitted) = check_tenant_rate t tenant now in
      elim (Bool-cases admitted) [
        | inl e ↦ rw (e, within_tenant_rate) (allowed t')
        | inr e ↦
            rw (e, within_tenant_rate)
              (send_error-Effects t' (count_tenant_rate_rejected t') tx (text "tenant_rate_limited")
                (text "tenant message rate exceeded") (counted nothing _ refl))
      ]

module _ {ext : External} (s : AppState ext) (limiter : RateLimiter) (tx : ℕ)
    (key tenant client : Text) where
  -- A turn that does not come to the check.
  pub unchecked-Effects :
      (incoming : Incoming) (now : ℕ)
      → is_checked s limiter incoming now ≡ false
      → EffectsOf ⊥ s (reader_turn s limiter tx key tenant client incoming now).state
  unfolding reader_turn limited accept_text accept_binary Metrics.message_in
  unchecked-Effects (text_frame raw) now h = elim (Bool-cases (allow limiter now).1) [
    | inl e ↦ elim (Bool-cases (ltb s.config.max_text_bytes (len raw))) [
      | inl e' ↦
          rw (e, reader_turn, e') (too_large-Effects s (count_in s) tx (counted nothing _ refl))
      | inr e' ↦ absurd cc
    ]
    | inr e ↦ rw (e, reader_turn) (rate_limited-Effects s (count_in s) tx (counted nothing _ refl))
  ]
  unchecked-Effects (binary_frame raw) now h =
      rw (h, reader_turn) (rate_limited-Effects s (count_in s) tx (counted nothing _ refl))
  unchecked-Effects (ping_frame payload) now h = sent nothing tx (OutboundMessage.pong payload)
  unchecked-Effects pong_frame now h = nothing
  unchecked-Effects close_frame now h = nothing
  unchecked-Effects ended now h = nothing
  unchecked-Effects failed now h = nothing
  unchecked-Effects timed_out now h =
      sent nothing tx (OutboundMessage.close normal (text "idle timeout"))

  -- A turn that does: what it checks, and then effects of its messages.
  pub checked-Effects :
      (incoming : Incoming) (now : ℕ)
      → is_checked s limiter incoming now ≡ true
      → EffectsOf ⊥
          (check_tenant_rate (count_in s) tenant now).0
          (reader_turn s limiter tx key tenant client incoming now).state
  unfolding reader_turn limited accept_text accept_binary handle_text handle_binary
  checked-Effects (text_frame raw) now h =
      elim (Bool-cases (ltb s.config.max_text_bytes (len raw))) [
        | inl e ↦ absurd cc
        | inr e ↦
            let fast : (allow limiter now).1 ≡ true = cc in
            rw (reader_turn, e, fast)
              (within_tenant_rate-Effects (count_in s) tx tenant now
                (λ t. handle_text t tx key tenant client raw)
                (λ t. handle_parsed-Effects t t tx key tenant client _ _ _ nothing))
      ]
  checked-Effects (binary_frame raw) now h =
      rw (h, reader_turn)
        (within_tenant_rate-Effects (count_in s) tx tenant now
          (λ t. handle_binary t tx key tenant client raw)
          (λ t. handle_parsed-Effects t t tx key tenant client _ _ _ nothing))
  checked-Effects (ping_frame payload) now h = absurd cc
  checked-Effects pong_frame now h = absurd cc
  checked-Effects close_frame now h = absurd cc
  checked-Effects ended now h = absurd cc
  checked-Effects failed now h = absurd cc
  checked-Effects timed_out now h = absurd cc
