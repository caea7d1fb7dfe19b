-- ===== src/Messages/TenantRate/Refusal.antt =====
-- What a turn that is refused for the rate of its connection or its tenant leaves alone.
use rust_ws_server.Base.{ℕ, ◌≡◌, ◌≢◌, refl, true, false, Bool-cases, inl, inr, Text, text, ltb}
use rust_ws_server.External.{External}
use rust_ws_server.Messages.{count_in, count_protocol_error}
use rust_ws_server.Messages.Frame.{Untouched, try_send-Untouched, then_error-Untouched}
use rust_ws_server.Messages.Isolation.{check_tenant_rate-Untouched, rate_limited-Untouched}
use rust_ws_server.Messages.Reader.{
  Incoming, text_frame, binary_frame, ping_frame, pong_frame, close_frame, ended, failed, timed_out,
  normal, count_tenant_rate_rejected, too_large, within_tenant_rate, limited, accept_text,
  accept_binary, reader_turn,
}
use rust_ws_server.Messages.TenantRate.{is_handled}
use rust_ws_server.Metrics
use rust_ws_server.Protocol.{OutboundMessage}
use rust_ws_server.RateLimiter.{RateLimiter, allow}
use rust_ws_server.State.{AppState, check_tenant_rate}
use rust_ws_server.Str.{len}

module _ {ext : External} where
  -- The channel of some topic, a queue other than `tx`, or the registrations are not as they were.
  abbrev pub ActsOutside : ℕ → AppState ext → AppState ext → Type 0
  ActsOutside tx s s' = (key : Text) × (q : ℕ) × (q ≢ tx) × (¬ Untouched key q s s')

module _ {ext : External} (key : Text) (q tx : ℕ) (away : q ≢ tx) (tenant : Text) (now : ℕ) where
  over_rate-Untouched :
      (s : AppState ext) (handler : AppState ext → AppState ext)
      → (check_tenant_rate s tenant now).1 ≡ false
      → Untouched key q s (within_tenant_rate s tx tenant now handler)
  unfolding within_tenant_rate Metrics.tenant_rate_rejected
  over_rate-Untouched s handler e =
      let s' = (check_tenant_rate s tenant now).0 in
      rw (e, within_tenant_rate)
        (then_error-Untouched key q s (count_tenant_rate_rejected s') tx
          (text "tenant_rate_limited") (text "tenant message rate exceeded") away
          (check_tenant_rate-Untouched key q s tenant now))

  pub refused-Untouched :
      (s : AppState ext) (limiter : RateLimiter) (topic_key client : Text) (incoming : Incoming)
      → is_handled s limiter tenant incoming now ≡ false
      → Untouched key q s (reader_turn s limiter tx topic_key tenant client incoming now).state
  unfolding reader_turn limited accept_text accept_binary too_large
  refused-Untouched s limiter topic_key client (text_frame raw) h =
      elim (Bool-cases (allow limiter now).1) [
        | inr slow ↦ rw (slow, reader_turn) (rate_limited-Untouched key q s tx away)
        | inl fast ↦ elim (Bool-cases (ltb s.config.max_text_bytes (len raw))) [
          | inl long ↦
              rw (fast, reader_turn, long)
                (then_error-Untouched key q s (count_protocol_error (count_in s)) tx
                  (text "message_too_large") (text "text message exceeds configured limit") away
                  (refl, refl, refl))
          | inr short ↦ rw (fast, reader_turn, short) (over_rate-Untouched (count_in s) _ cc)
        ]
      ]
  refused-Untouched s limiter topic_key client (binary_frame raw) h =
      elim (Bool-cases (allow limiter now).1) [
        | inr slow ↦ rw (slow, reader_turn) (rate_limited-Untouched key q s tx away)
        | inl fast ↦ rw (fast, reader_turn) (over_rate-Untouched (count_in s) _ cc)
      ]
  refused-Untouched s limiter topic_key client (ping_frame payload) h =
      try_send-Untouched key q s tx (OutboundMessage.pong payload) away
  refused-Untouched s limiter topic_key client pong_frame h = (refl, refl, refl)
  refused-Untouched s limiter topic_key client close_frame h = (refl, refl, refl)
  refused-Untouched s limiter topic_key client ended h = (refl, refl, refl)
  refused-Untouched s limiter topic_key client failed h = (refl, refl, refl)
  refused-Untouched s limiter topic_key client timed_out h =
      try_send-Untouched key q s tx (OutboundMessage.close normal (text "idle timeout")) away

-- A turn that acts outside was not refused.
pub acting-is_handled :
    {ext : External} (s : AppState ext) (limiter : RateLimiter) (tx : ℕ)
    (topic_key tenant client : Text) (incoming : Incoming) (now : ℕ)
    → ActsOutside tx s (reader_turn s limiter tx topic_key tenant client incoming now).state
    → is_handled s limiter tenant incoming now ≡ true
acting-is_handled s limiter tx topic_key tenant client incoming now (key, q, away, touched) =
    elim (Bool-cases (is_handled s limiter tenant incoming now)) [
      | inl e ↦ e
      | inr e ↦ absurd (
          touched
            (refused-Untouched key q tx away tenant now s limiter topic_key client incoming e))
    ]
