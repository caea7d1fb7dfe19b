-- ===== src/Messages/Reader.antt =====
-- src/server.rs, `connection_loop`: one turn of the reader task, which takes in what the client
-- sends. A turn happens at one instant, `now`.
use rust_ws_server.Base.{ℕ, not, Text, text, ltb, if◌then◌else◌}
use rust_ws_server.External.{External}
use rust_ws_server.Metrics
use rust_ws_server.Protocol.{Bytes, OutboundMessage}
use rust_ws_server.RateLimiter.{RateLimiter, allow}
use rust_ws_server.State.{AppState, try_send, check_tenant_rate}
use rust_ws_server.Str.{len}
use rust_ws_server.Messages.{count_in, count_protocol_error, send_error, handle_text, handle_binary}

-- What a turn finds: a frame, the end of the stream, an error of it, or the idle timeout.
pub data Incoming : Type 0 where
  text_frame : Text → Incoming
  binary_frame ping_frame : Bytes → Incoming
  pong_frame close_frame ended failed timed_out : Incoming

-- Whether the loop goes on, breaks, or returns an error.
pub data Next : Type 0 where
  again stop failure : Next

-- The close codes of the websocket protocol.
abbrev pub normal : ℕ
normal = 1000

abbrev pub policy : ℕ
policy = 1008

pub record Turn (ext : External) : Type 0 where
  pub state : AppState ext
  pub limiter : RateLimiter
  pub next : Next

module _ {ext : External} where
  abbrev pub count_tenant_rate_rejected : AppState ext → AppState ext
  count_tenant_rate_rejected s = record s { metrics = Metrics.tenant_rate_rejected s.metrics }

  -- The connection's rate is exceeded: an error, a close frame, and the loop ends.
  unfoldable pub rate_limited : AppState ext → ℕ → AppState ext
  rate_limited s tx =
      let s' : AppState ext =
        send_error (count_protocol_error s) tx (text "rate_limited")
          (text "message rate limit exceeded") in
      (try_send s' tx (OutboundMessage.close policy (text "rate limit exceeded"))).0

  unfoldable pub too_large : AppState ext → ℕ → AppState ext
  too_large s tx =
      send_error (count_protocol_error s) tx (text "message_too_large")
        (text "text message exceeds configured limit")

  -- The check of the tenant's rate, and then the handler.
  unfoldable pub within_tenant_rate :
      AppState ext → ℕ → Text → ℕ → (AppState ext → AppState ext) → AppState ext
  within_tenant_rate s tx tenant_id now handler =
      let (s', admitted) = check_tenant_rate s tenant_id now in
      if not admitted
      then send_error (count_tenant_rate_rejected s') tx (text "tenant_rate_limited")
          (text "tenant message rate exceeded")
      else handler s'

  -- The counter and the connection's rate, which a text and a binary frame share; `accept` is
  -- what follows.
  unfoldable pub limited :
      AppState ext → RateLimiter → ℕ → ℕ → (AppState ext → AppState ext) → Turn ext
  limited s limiter tx now accept =
      let (limiter', allowed) = allow limiter now in
      if not allowed
      then record { state = rate_limited (count_in s) tx; limiter = limiter'; next = stop }
      else record { state = accept (count_in s); limiter = limiter'; next = again }

  unfoldable pub accept_text :
      ℕ → (topic_key tenant_id client_id raw : Text) → ℕ → AppState ext → AppState ext
  unfolding len
  accept_text tx topic_key tenant_id client_id raw now s =
      if ltb s.config.max_text_bytes (len raw)
      then too_large s tx
      else within_tenant_rate s tx tenant_id now
          (λ s'. handle_text s' tx topic_key tenant_id client_id raw)

  unfoldable pub accept_binary :
      ℕ → (topic_key tenant_id client_id : Text) → Bytes → ℕ → AppState ext → AppState ext
  accept_binary tx topic_key tenant_id client_id raw now s =
      within_tenant_rate s tx tenant_id now
        (λ s'. handle_binary s' tx topic_key tenant_id client_id raw)

  unfoldable pub reader_turn :
      AppState ext
      → RateLimiter
      → ℕ
      → (topic_key tenant_id client_id : Text) → Incoming
      → ℕ
      → Turn ext
  unfolding limited accept_text accept_binary
  reader_turn s limiter tx topic_key tenant_id client_id (text_frame raw) now =
      limited s limiter tx now (accept_text tx topic_key tenant_id client_id raw now)
  reader_turn s limiter tx topic_key tenant_id client_id (binary_frame raw) now =
      limited s limiter tx now (accept_binary tx topic_key tenant_id client_id raw now)
  reader_turn s limiter tx topic_key tenant_id client_id (ping_frame payload) now = record {
    state = (try_send s tx (OutboundMessage.pong payload)).0;
    limiter = limiter;
    next = again;
  }
  reader_turn s limiter tx topic_key tenant_id client_id pong_frame now = record {
    state = s;
    limiter = limiter;
    next = again;
  }
  reader_turn s limiter tx topic_key tenant_id client_id close_frame now = record {
    state = s;
    limiter = limiter;
    next = stop;
  }
  reader_turn s limiter tx topic_key tenant_id client_id ended now = record {
    state = s;
    limiter = limiter;
    next = stop;
  }
  reader_turn s limiter tx topic_key tenant_id client_id failed now = record {
    state = s;
    limiter = limiter;
    next = failure;
  }
  reader_turn s limiter tx topic_key tenant_id client_id timed_out now = record {
    state = (try_send s tx (OutboundMessage.close normal (text "idle timeout"))).0;
    limiter = limiter;
    next = stop;
  }
