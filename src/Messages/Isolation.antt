-- ===== src/Messages/Isolation.antt =====
-- What a client sends stays within its tenant.
use rust_ws_server.Base.{
  ltb, text, Bool-cases, inl, inr, ℕ, ◌≡◌, ◌≢◌, refl, sym, ◌∙◌, ap, Option, none, some, Text,
  Text-discrete, arith,
}
use rust_ws_server.Base.Map.{get}
use rust_ws_server.External.{External}
use rust_ws_server.Protocol.{Bytes, ClientEvent, OutboundMessage}
use rust_ws_server.RateLimiter.{RateLimiter, allow}
use rust_ws_server.State.{AppState, ClientKey-discrete, check_tenant_rate, try_send}
use rust_ws_server.State.Clients.{waiting}
use rust_ws_server.Str.{len}
use rust_ws_server.Str.Split.{IsFree}
use rust_ws_server.Topic.{tenant_topic, normalize_topic}
use rust_ws_server.Topic.Isolation.{tenant_topic-injective}
use rust_ws_server.Messages.{
  send_error, publish_key, handle_client_event, handle_parsed, handle_text, handle_binary,
  count_protocol_error, count_in,
}
use rust_ws_server.Messages.Frame.{
  Untouched, IsOutside, then_error-Untouched, Untouched-trans, try_send-Untouched,
  send_error-Untouched, publish_encoded-Untouched, direct_encoded-Untouched, pong_encoded-Untouched,
}
use rust_ws_server.Messages.Reader.{
  policy, normal, Incoming, text_frame, binary_frame, ping_frame, pong_frame, close_frame, ended,
  failed, timed_out, rate_limited, too_large, within_tenant_rate, limited, accept_text,
  accept_binary, reader_turn, count_tenant_rate_rejected,
}

-- A key of another tenant is none that the client publishes under, if neither name has a colon.
publish_key_ne :
    (default tenant u other : Text) (topic : Option Text)
    → IsFree b':' tenant
    → IsFree b':' u
    → u ≢ tenant
    → tenant_topic u other ≢ publish_key (tenant_topic tenant default) tenant topic
unfolding publish_key
publish_key_ne default tenant u other (some t) ht hu ne e =
    ne (tenant_topic-injective u tenant other (normalize_topic t) hu ht e).0
publish_key_ne default tenant u other none ht hu ne e =
    ne (tenant_topic-injective u tenant other default hu ht e).0

-- Two tenants, whose names have no colon.
abbrev pub AreApart : Text → Text → Type 0
AreApart tenant u = IsFree b':' tenant × IsFree b':' u × (u ≢ tenant)

module _ {ext : External} where
  handle_client_event-Untouched :
      (s : AppState ext) (tx : ℕ) (default tenant client u other : Text) (q : ℕ)
      (event : ClientEvent ext.codec.Value)
      → AreApart tenant u
      → IsOutside s tx tenant q
      → Untouched
          (tenant_topic u other)
          q
          s
          (handle_client_event s tx (tenant_topic tenant default) tenant client event)
  unfolding handle_client_event
  handle_client_event-Untouched s tx default tenant client u other q (ClientEvent.publish topic r p)
        (ht, hu, ne) (away, outside) =
      publish_encoded-Untouched (tenant_topic u other) q s tx
        (publish_key (tenant_topic tenant default) tenant topic) _
        (publish_key_ne default tenant u other topic ht hu ne) away
  handle_client_event-Untouched s tx default tenant client u other q (ClientEvent.direct to r p)
        apart out =
      direct_encoded-Untouched (tenant_topic u other) q s tx to tenant _ out
  handle_client_event-Untouched s tx default tenant client u other q (ClientEvent.ping r p) apart
        (away, outside) =
      pong_encoded-Untouched (tenant_topic u other) q s tx _ away

  handle_parsed-Untouched :
      (s : AppState ext) (tx : ℕ) (default tenant client code message u other : Text) (q : ℕ)
      (event : Option (ClientEvent ext.codec.Value))
      → AreApart tenant u
      → IsOutside s tx tenant q
      → Untouched
          (tenant_topic u other)
          q
          s
          (handle_parsed s tx (tenant_topic tenant default) tenant client code message event)
  unfolding handle_parsed
  handle_parsed-Untouched s tx default tenant client code message u other q (some event) apart out =
      handle_client_event-Untouched s tx default tenant client u other q event apart out
  handle_parsed-Untouched s tx default tenant client code message u other q none apart
        (away, outside) =
      send_error-Untouched (tenant_topic u other) q (count_protocol_error s) tx code message away

  check_tenant_rate-frame :
      (s : AppState ext) (tenant : Text) (now : ℕ)
      → let s' = (check_tenant_rate s tenant now).0 in
        (s'.topics ≡ s.topics) × (s'.clients ≡ s.clients) × (s'.queues ≡ s.queues)
  unfolding check_tenant_rate
  check_tenant_rate-frame s tenant now = (ground arith, ground arith, ground arith)

  pub check_tenant_rate-Untouched :
      (key : Text) (q : ℕ) (s : AppState ext) (tenant : Text) (now : ℕ)
      → Untouched key q s (check_tenant_rate s tenant now).0
  check_tenant_rate-Untouched key q s tenant now =
      let (topics, clients, queues) = check_tenant_rate-frame s tenant now in
      (ap (get Text-discrete key) topics, ap (λ z. waiting ext z q) queues, clients)

  -- Registrations that stay as they are leave the queue outside.
  IsOutside-of_Untouched :
      (key : Text) (q : ℕ) (s s' : AppState ext) (tx : ℕ) (tenant : Text)
      → Untouched key q s s'
      → IsOutside s tx tenant q
      → IsOutside s' tx tenant q
  IsOutside-of_Untouched key q s s' tx tenant (_, _, clients) (away, outside) = (
    away,
    λ c h e. outside c h (ap (λ m. get ClientKey-discrete (tenant, c) m) (sym clients) ∙ e),
  )

  -- A handler that touches nothing from any state that leaves the queue outside.
  abbrev IsHarmless : Text → ℕ → ℕ → Text → (AppState ext → AppState ext) → Type 0
  IsHarmless key q tx tenant handler =
      (s : AppState ext) → IsOutside s tx tenant q → Untouched key q s (handler s)

  within_tenant_rate-IsHarmless :
      (key : Text) (q tx : ℕ) (tenant : Text) (now : ℕ) (handler : AppState ext → AppState ext)
      → IsHarmless key q tx tenant handler
      → IsHarmless key q tx tenant (λ s. within_tenant_rate s tx tenant now handler)
  unfolding within_tenant_rate
  within_tenant_rate-IsHarmless key q tx tenant now handler ok s out =
      let s' = (check_tenant_rate s tenant now).0 in
      let checked = check_tenant_rate-Untouched key q s tenant now in
      elim (Bool-cases (check_tenant_rate s tenant now).1) [
        | inl e ↦
            rw (e, within_tenant_rate)
              (Untouched-trans key q s s' (handler s') checked
                (ok s' (IsOutside-of_Untouched key q s s' tx tenant checked out)))
        | inr e ↦
            rw (e, within_tenant_rate)
              (then_error-Untouched key q s (count_tenant_rate_rejected s') tx
                (text "tenant_rate_limited") (text "tenant message rate exceeded") out.0 checked)
      ]

  pub rate_limited-Untouched :
      (key : Text) (q : ℕ) (s : AppState ext) (tx : ℕ)
      → q ≢ tx
      → Untouched key q s (rate_limited (count_in s) tx)
  unfolding rate_limited
  rate_limited-Untouched key q s tx ne =
      let s' : AppState ext =
        send_error (count_protocol_error (count_in s)) tx (text "rate_limited")
          (text "message rate limit exceeded") in
      let m = OutboundMessage.close policy (text "rate limit exceeded") in
      Untouched-trans key q s s' (try_send s' tx m).0
        (then_error-Untouched key q s (count_protocol_error (count_in s)) tx (text "rate_limited")
          (text "message rate limit exceeded") ne (refl, refl, refl))
        (try_send-Untouched key q s' tx m ne)

  limited-Untouched :
      (key : Text) (q tx : ℕ) (tenant : Text) (s : AppState ext) (limiter : RateLimiter) (now : ℕ)
      (accept : AppState ext → AppState ext)
      → IsHarmless key q tx tenant accept
      → IsOutside s tx tenant q
      → Untouched key q s (limited s limiter tx now accept).state
  unfolding limited
  limited-Untouched key q tx tenant s limiter now accept ok out =
      elim (Bool-cases (allow limiter now).1) [
        | inl e ↦ rw (e, limited) (ok (count_in s) out)
        | inr e ↦ rw (e, limited) (rate_limited-Untouched key q s tx out.0)
      ]

  module _ (default tenant client u other : Text) (tx q : ℕ) (apart : AreApart tenant u) where
    accept_text-IsHarmless :
        (raw : Text) (now : ℕ)
        → IsHarmless
            (tenant_topic u other)
            q
            tx
            tenant
            (accept_text tx (tenant_topic tenant default) tenant client raw now)
    unfolding accept_text too_large handle_text
    accept_text-IsHarmless raw now s out =
        elim (Bool-cases (ltb s.config.max_text_bytes (len raw))) [
          | inl e ↦
              rw (e, accept_text)
                (then_error-Untouched (tenant_topic u other) q s (count_protocol_error s) tx
                  (text "message_too_large") (text "text message exceeds configured limit") out.0
                  (refl, refl, refl))
          | inr e ↦
              rw (e, accept_text)
                (within_tenant_rate-IsHarmless (tenant_topic u other) q tx tenant now
                  (λ s'. handle_text s' tx (tenant_topic tenant default) tenant client raw)
                  (λ s' out'.
                    handle_parsed-Untouched s' tx default tenant client _ _ u other q _ apart out')
                  s out)
        ]

    accept_binary-IsHarmless :
        (raw : Bytes) (now : ℕ)
        → IsHarmless
            (tenant_topic u other)
            q
            tx
            tenant
            (accept_binary tx (tenant_topic tenant default) tenant client raw now)
    unfolding accept_binary handle_binary
    accept_binary-IsHarmless raw now =
        within_tenant_rate-IsHarmless (tenant_topic u other) q tx tenant now
          (λ s'. handle_binary s' tx (tenant_topic tenant default) tenant client raw)
          (λ s' out'.
            handle_parsed-Untouched s' tx default tenant client _ _ u other q _ apart out')

  -- Whatever a client sends, a turn of its reader leaves the channels of every other tenant, the
  -- queues of all connections but its own and those registered in its tenant, and all
  -- registrations as they were, if the names of the two tenants have no colon.
  pub reader_turn-Untouched :
      (s : AppState ext) (limiter : RateLimiter) (tx : ℕ) (default tenant client u other : Text)
      (q : ℕ) (incoming : Incoming) (now : ℕ)
      → AreApart tenant u
      → IsOutside s tx tenant q
      → Untouched
          (tenant_topic u other)
          q
          s
          (reader_turn s limiter tx (tenant_topic tenant default) tenant client incoming now).state
  unfolding reader_turn
  reader_turn-Untouched s limiter tx default tenant client u other q (text_frame raw) now apart
        out =
      limited-Untouched (tenant_topic u other) q tx tenant s limiter now
        (accept_text tx (tenant_topic tenant default) tenant client raw now)
        (accept_text-IsHarmless default tenant client u other tx q apart raw now) out
  reader_turn-Untouched s limiter tx default tenant client u other q (binary_frame raw) now apart
        out =
      limited-Untouched (tenant_topic u other) q tx tenant s limiter now
        (accept_binary tx (tenant_topic tenant default) tenant client raw now)
        (accept_binary-IsHarmless default tenant client u other tx q apart raw now) out
  reader_turn-Untouched s limiter tx default tenant client u other q (ping_frame payload) now apart
        out =
      try_send-Untouched (tenant_topic u other) q s tx (OutboundMessage.pong payload) out.0
  reader_turn-Untouched s limiter tx default tenant client u other q pong_frame now apart out =
      (refl, refl, refl)
  reader_turn-Untouched s limiter tx default tenant client u other q close_frame now apart out =
      (refl, refl, refl)
  reader_turn-Untouched s limiter tx default tenant client u other q ended now apart out =
      (refl, refl, refl)
  reader_turn-Untouched s limiter tx default tenant client u other q failed now apart out =
      (refl, refl, refl)
  reader_turn-Untouched s limiter tx default tenant client u other q timed_out now apart out =
      try_send-Untouched (tenant_topic u other) q s tx
        (OutboundMessage.close normal (text "idle timeout")) out.0
