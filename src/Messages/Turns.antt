-- ===== src/Messages/Turns.antt =====
-- A turn of a reader is made of the effects of handling messages.
use rust_ws_server.Base.{ℕ, refl, Text, text, Bool-cases, inl, inr, ltb}
use rust_ws_server.External.{External}
use rust_ws_server.Metrics
use rust_ws_server.Protocol.{Bytes, OutboundMessage}
use rust_ws_server.RateLimiter.{RateLimiter, allow}
use rust_ws_server.State.{AppState, check_tenant_rate}
use rust_ws_server.Str.{len}
use rust_ws_server.Messages.{count_in, count_protocol_error, handle_text, handle_binary}
use rust_ws_server.Messages.Effects.{
  Effects, EffectsOf, sent, counted, rated, count_protocol_error-Effects, send_error-Effects,
  handle_parsed-Effects,
}
use rust_ws_server.Messages.Reader.{
  Incoming, text_frame, binary_frame, ping_frame, pong_frame, close_frame, ended, failed, timed_out,
  normal, policy, count_tenant_rate_rejected, rate_limited, too_large, within_tenant_rate, limited,
  accept_text, accept_binary, reader_turn,
}

module _ {ext : External} {CanRate : Type 0} (s : AppState ext) where
  pub rate_limited-Effects :
      (t : AppState ext) (tx : ℕ) → EffectsOf CanRate s t → EffectsOf CanRate s (rate_limited t tx)
  unfolding rate_limited
  rate_limited-Effects t tx h =
      sent
        (send_error-Effects s (count_protocol_error t) tx (text "rate_limited")
          (text "message rate limit exceeded") (count_protocol_error-Effects s t h))
        tx (OutboundMessage.close policy (text "rate limit exceeded"))

  pub too_large-Effects :
      (t : AppState ext) (tx : ℕ) → EffectsOf CanRate s t → EffectsOf CanRate s (too_large t tx)
  unfolding too_large
  too_large-Effects t tx h =
      send_error-Effects s (count_protocol_error t) tx (text "message_too_large")
        (text "text message exceeds configured limit") (count_protocol_error-Effects s t h)

module _ {ext : External} (s : AppState ext) where
  -- What a handler may do.
  abbrev IsEffect : (AppState ext → AppState ext) → Type 0
  IsEffect handler = (t : AppState ext) → Effects s t → Effects s (handler t)

  within_tenant_rate-Effects :
      (t : AppState ext) (tx : ℕ) (tenant : Text) (now : ℕ) (handler : AppState ext → AppState ext)
      → IsEffect handler
      → Effects s t
      → Effects s (within_tenant_rate t tx tenant now handler)
  unfolding within_tenant_rate Metrics.tenant_rate_rejected
  within_tenant_rate-Effects t tx tenant now handler allowed h =
      let t' = (check_tenant_rate t tenant now).0 in
      elim (Bool-cases (check_tenant_rate t tenant now).1) [
        | inl e ↦ rw (e, within_tenant_rate) (allowed t' (rated h tenant now tt))
        | inr e ↦
            rw (e, within_tenant_rate)
              (send_error-Effects s (count_tenant_rate_rejected t') tx (text "tenant_rate_limited")
                (text "tenant message rate exceeded") (counted (rated h tenant now tt) _ refl))
      ]

  limited-Effects :
      (t : AppState ext) (limiter : RateLimiter) (tx now : ℕ) (accept : AppState ext → AppState ext)
      → IsEffect accept
      → Effects s t
      → Effects s (limited t limiter tx now accept).state
  unfolding limited Metrics.message_in
  limited-Effects t limiter tx now accept allowed h = elim (Bool-cases (allow limiter now).1) [
    | inl e ↦ rw (e, limited) (allowed (count_in t) (counted h _ refl))
    | inr e ↦ rw (e, limited) (rate_limited-Effects s (count_in t) tx (counted h _ refl))
  ]

  accept_text-IsEffect :
      (tx : ℕ) (key tenant client raw : Text) (now : ℕ)
      → IsEffect (accept_text tx key tenant client raw now)
  unfolding accept_text handle_text
  accept_text-IsEffect tx key tenant client raw now t h =
      elim (Bool-cases (ltb t.config.max_text_bytes (len raw))) [
        | inl e ↦ rw (e, accept_text) (too_large-Effects s t tx h)
        | inr e ↦
            rw (e, accept_text)
              (within_tenant_rate-Effects t tx tenant now
                (λ t'. handle_text t' tx key tenant client raw)
                (λ t' h'. handle_parsed-Effects s t' tx key tenant client _ _ _ h') h)
      ]

  accept_binary-IsEffect :
      (tx : ℕ) (key tenant client : Text) (raw : Bytes) (now : ℕ)
      → IsEffect (accept_binary tx key tenant client raw now)
  unfolding accept_binary handle_binary
  accept_binary-IsEffect tx key tenant client raw now t h =
      within_tenant_rate-Effects t tx tenant now (λ t'. handle_binary t' tx key tenant client raw)
        (λ t' h'. handle_parsed-Effects s t' tx key tenant client _ _ _ h') h

  pub reader_turn-Effects :
      (t : AppState ext) (limiter : RateLimiter) (tx : ℕ) (key tenant client : Text)
      (incoming : Incoming) (now : ℕ)
      → Effects s t
      → Effects s (reader_turn t limiter tx key tenant client incoming now).state
  unfolding reader_turn
  reader_turn-Effects t limiter tx key tenant client (text_frame raw) now h =
      limited-Effects t limiter tx now (accept_text tx key tenant client raw now)
        (accept_text-IsEffect tx key tenant client raw now) h
  reader_turn-Effects t limiter tx key tenant client (binary_frame raw) now h =
      limited-Effects t limiter tx now (accept_binary tx key tenant client raw now)
        (accept_binary-IsEffect tx key tenant client raw now) h
  reader_turn-Effects t limiter tx key tenant client (ping_frame payload) now h =
      sent h tx (OutboundMessage.pong payload)
  reader_turn-Effects t limiter tx key tenant client pong_frame now h = h
  reader_turn-Effects t limiter tx key tenant client close_frame now h = h
  reader_turn-Effects t limiter tx key tenant client ended now h = h
  reader_turn-Effects t limiter tx key tenant client failed now h = h
  reader_turn-Effects t limiter tx key tenant client timed_out now h =
      sent h tx (OutboundMessage.close normal (text "idle timeout"))
