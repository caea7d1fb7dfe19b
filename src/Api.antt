-- ===== src/Api.antt =====
-- src/api.rs: publishing and direct messages over HTTP. A handler runs without interruption. A
-- response is its status and its body.
pub mod Effects
pub mod Direct
pub mod Counting
mod Tests
use rust_ws_server.Base.{
  ℕ, zero, suc, Bool, true, false, [], ◌∷◌, ◌++◌, Option, none, some, Result, ok, err, Text, text,
  Text-discrete, ◌==◌, if◌then◌else◌,
}
use mathlib.Core.Option
use rust_ws_server.Auth
use rust_ws_server.Auth.{AuthError, AuthIdentity, AuthVerifier, unwrap_or}
use rust_ws_server.Base.Map.{get}
use rust_ws_server.External.{External, JwtApi}
use rust_ws_server.Handshake.{HeaderMap}
use rust_ws_server.Metrics
use rust_ws_server.Protocol
use rust_ws_server.Protocol.{Bytes, ServerEvent}
use rust_ws_server.State
use rust_ws_server.State.{AppState, send_to_client}
use rust_ws_server.Str.{strip_prefix}
use rust_ws_server.Topic.{normalize_topic, tenant_topic}

pub record PublishBody (ext : External) : Type 0 where
  pub topic : Option Text
  pub request_id : Option Text
  pub payload : ext.codec.Value

pub record DirectBody (ext : External) : Type 0 where
  pub to : Text
  pub request_id : Option Text
  pub payload : ext.codec.Value

-- The responses that the handlers build: `ErrorResponse` with its status, `PublishResponse`, and
-- `DirectResponse` with its status.
pub data Response : Type 0 where
  unauthorized : (error : Text) → Response
  published : (receivers : ℕ) → Response
  publish_failed : (error : Text) → Response
  direct_ok : Response
  direct_not_found direct_failed : (error : Text) → Response

unfoldable pub extract_bearer : HeaderMap → Option Text
unfolding strip_prefix
extract_bearer headers = elim (get Text-discrete (text "authorization") headers) [
  | some v ↦ strip_prefix (text "Bearer ") v
  | none ↦ none
]

-- By the outcome of `verify`.
unfoldable pub mapped : Result AuthIdentity AuthError → Result AuthIdentity Text
mapped (ok identity) = ok identity
mapped (err error) = err (text "invalid token: " ++ Auth.to_string error ++ text "\n")

unfoldable pub check_bearer :
    {jwt : JwtApi} → AuthVerifier jwt → Option Text → Result AuthIdentity Text
unfolding mapped
check_bearer verifier (some token) = mapped (Auth.verify verifier token)
check_bearer verifier none = err (text "missing Authorization header\n")

unfoldable pub resolve_identity :
    {jwt : JwtApi} → Option (AuthVerifier jwt) → HeaderMap → Result AuthIdentity Text
unfolding check_bearer
resolve_identity (some verifier) headers = check_bearer verifier (extract_bearer headers)
resolve_identity none headers = ok (record { client_id = text "api"; tenant_id = text "default" })

module _ {ext : External} where
  -- One count for each receiver.
  unfoldable pub count_out : ℕ → AppState ext → AppState ext
  count_out zero s = s
  count_out (suc n) s = count_out n (record s { metrics = Metrics.message_out s.metrics })

  -- By the number of receivers that `publish` reports.
  unfoldable pub published_to : AppState ext × ℕ → AppState ext × Response
  unfolding count_out
  published_to (s, zero) = (record s { metrics = Metrics.message_dropped s.metrics }, published 0)
  published_to (s, suc n) = (count_out (suc n) s, published (suc n))

  -- By the outcome of the encoding.
  unfoldable pub publish_encoded :
      AppState ext → (topic_key : Text) → Option Bytes → AppState ext × Response
  unfolding published_to
  publish_encoded s topic_key (some encoded) = published_to (State.publish s topic_key encoded)
  publish_encoded s topic_key none = (s, publish_failed (text "encode failed"))

  unfoldable pub publish_as :
      AppState ext → PublishBody ext → Result AuthIdentity Text → AppState ext × Response
  unfolding publish_encoded
  publish_as s body (ok identity) =
      let topic = unwrap_or body.topic (text "public") in
      publish_encoded s (tenant_topic identity.tenant_id (normalize_topic topic)) (
        ext.codec.to_vec_named
          (ServerEvent.message topic identity.client_id body.request_id body.payload))
  publish_as s body (err message) = (s, unauthorized message)

  unfoldable pub api_publish : AppState ext → HeaderMap → PublishBody ext → AppState ext × Response
  unfolding publish_as
  api_publish s headers body = publish_as s body (resolve_identity s.auth headers)

  -- By the answer of `send_to_client`.
  unfoldable pub direct_sent : AppState ext × Bool → AppState ext × Response
  direct_sent (s, true) = (record s { metrics = Metrics.message_out s.metrics }, direct_ok)
  direct_sent (s, false) = (
    record s { metrics = Metrics.message_dropped s.metrics },
    direct_not_found (text "client_not_found"),
  )

  -- By the outcome of the encoding.
  unfoldable pub direct_encoded :
      AppState ext → (to tenant_id : Text) → Option Bytes → AppState ext × Response
  unfolding direct_sent
  direct_encoded s to tenant_id (some encoded) = direct_sent (send_to_client s to tenant_id encoded)
  direct_encoded s to tenant_id none = (s, direct_failed (text "encode failed"))

  unfoldable pub direct_as :
      AppState ext → DirectBody ext → Result AuthIdentity Text → AppState ext × Response
  unfolding direct_encoded
  direct_as s body (ok identity) = direct_encoded s body.to identity.tenant_id (
      ext.codec.to_vec_named
        (ServerEvent.direct_message identity.client_id body.to body.request_id body.payload))
  direct_as s body (err message) = (s, unauthorized message)

  unfoldable pub api_direct : AppState ext → HeaderMap → DirectBody ext → AppState ext × Response
  unfolding direct_as
  api_direct s headers body = direct_as s body (resolve_identity s.auth headers)
