-- ===== src/Messages.antt =====
-- src/server.rs: what a connection does with the messages of its client, from `handle_text` and
-- `handle_binary` to `send_encoded`. The connection's own queue is the number `tx`.
pub mod Reader
pub mod Rate
pub mod Frame
pub mod Isolation
pub mod Effects
pub mod Turns
pub mod TenantRate
pub mod Queues
mod Tests
use rust_ws_server.Base.{ℕ, zero, suc, Bool, true, false, Option, none, some, Text, text}
use rust_ws_server.External.{External, Sent, delivered, full, closed}
use rust_ws_server.Metrics
use rust_ws_server.Protocol
use rust_ws_server.Protocol.{Bytes, ClientEvent, ServerEvent, OutboundMessage}
use rust_ws_server.State
use rust_ws_server.State.{AppState, try_send, send_to_client}
use rust_ws_server.Topic.{normalize_topic, tenant_topic, extract_topic}

-- The key that a message is published under: that of the topic it names, or of the connection.
unfoldable pub publish_key : Text → Text → Option Text → Text
publish_key default_topic_key tenant_id (some topic) =
    tenant_topic tenant_id (normalize_topic topic)
publish_key default_topic_key tenant_id none = default_topic_key

module _ {ext : External} where
  abbrev pub count_in : AppState ext → AppState ext
  count_in s = record s { metrics = Metrics.message_in s.metrics }

  abbrev pub count_dropped : AppState ext → AppState ext
  count_dropped s = record s { metrics = Metrics.message_dropped s.metrics }

  abbrev pub count_protocol_error : AppState ext → AppState ext
  count_protocol_error s = record s { metrics = Metrics.protocol_error s.metrics }

  -- By the answer of `try_send`.
  unfoldable pub after_send : AppState ext → Sent → AppState ext × Bool
  after_send s delivered = (s, true)
  after_send s full = (count_dropped s, false)
  after_send s closed = (count_dropped s, false)

  unfoldable pub send_encoded : AppState ext → ℕ → Bytes → AppState ext × Bool
  unfolding after_send
  send_encoded s tx message =
      let (s', sent) = try_send s tx (OutboundMessage.binary message) in after_send s' sent

  unfoldable pub send_error : AppState ext → ℕ → Text → Text → AppState ext
  send_error s tx code message = elim (ext.codec.to_vec_named (ServerEvent.error code message)) [
    | some encoded ↦ (send_encoded s tx encoded).0
    | none ↦ s
  ]

  -- By the number of receivers that `publish` reports.
  unfoldable pub after_publish : AppState ext × ℕ → AppState ext
  after_publish (s, zero) = count_dropped s
  after_publish (s, suc n) = s

  -- By the outcome of the encoding.
  unfoldable pub publish_encoded : AppState ext → ℕ → Text → Option Bytes → AppState ext
  unfolding after_publish
  publish_encoded s tx topic_key (some encoded) = after_publish (State.publish s topic_key encoded)
  publish_encoded s tx topic_key none =
      send_error (count_protocol_error s) tx (text "encode_failed")
        (text "failed to encode message")

  -- By the answer of `send_to_client`.
  unfoldable pub after_direct : ℕ → AppState ext × Bool → AppState ext
  after_direct tx (s, true) = s
  after_direct tx (s, false) =
      send_error (count_dropped s) tx (text "client_not_found") (text "target client is not online")

  unfoldable pub direct_encoded : AppState ext → ℕ → Text → Text → Option Bytes → AppState ext
  unfolding after_direct
  direct_encoded s tx to tenant_id (some encoded) =
      after_direct tx (send_to_client s to tenant_id encoded)
  direct_encoded s tx to tenant_id none =
      send_error (count_protocol_error s) tx (text "encode_failed")
        (text "failed to encode direct message")

  unfoldable pub pong_encoded : AppState ext → ℕ → Option Bytes → AppState ext
  pong_encoded s tx (some encoded) = (send_encoded s tx encoded).0
  pong_encoded s tx none = send_error s tx (text "encode_failed") (text "failed to encode pong")

  unfoldable pub handle_client_event :
      AppState ext
      → ℕ
      → (default_topic_key tenant_id client_id : Text) → ClientEvent ext.codec.Value
      → AppState ext
  unfolding publish_encoded direct_encoded pong_encoded
  handle_client_event s tx default_topic_key tenant_id client_id
        (ClientEvent.publish topic request_id payload) =
      let topic_key = publish_key default_topic_key tenant_id topic in
      publish_encoded s tx topic_key (
        ext.codec.to_vec_named
          (ServerEvent.message (extract_topic topic_key) client_id request_id payload))
  handle_client_event s tx default_topic_key tenant_id client_id
        (ClientEvent.direct to request_id payload) =
      direct_encoded s tx to tenant_id
        (ext.codec.to_vec_named (ServerEvent.direct_message client_id to request_id payload))
  handle_client_event s tx default_topic_key tenant_id client_id
        (ClientEvent.ping request_id payload) =
      pong_encoded s tx (ext.codec.to_vec_named (ServerEvent.pong request_id payload))

  -- By the outcome of the parsing.
  unfoldable pub handle_parsed :
      AppState ext
      → ℕ
      → (default_topic_key tenant_id client_id code message : Text)
      → Option (ClientEvent ext.codec.Value)
      → AppState ext
  handle_parsed s tx default_topic_key tenant_id client_id code message (some event) =
      handle_client_event s tx default_topic_key tenant_id client_id event
  handle_parsed s tx default_topic_key tenant_id client_id code message none =
      send_error (count_protocol_error s) tx code message

  unfoldable pub handle_text :
      AppState ext → ℕ → (default_topic_key tenant_id client_id raw : Text) → AppState ext
  unfolding handle_parsed
  handle_text s tx default_topic_key tenant_id client_id raw =
      handle_parsed s tx default_topic_key tenant_id client_id (text "invalid_json")
        (text "message must match the websocket JSON protocol") (ext.codec.from_str raw)

  unfoldable pub handle_binary :
      AppState ext → ℕ → (default_topic_key tenant_id client_id : Text) → Bytes → AppState ext
  unfolding handle_parsed
  handle_binary s tx default_topic_key tenant_id client_id raw =
      handle_parsed s tx default_topic_key tenant_id client_id (text "invalid_msgpack")
        (text "binary message must match the websocket MessagePack protocol")
        (ext.codec.from_slice raw)
