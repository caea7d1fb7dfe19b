-- ===== src/Api/Effects.antt =====
-- What a request over HTTP does, and what its response says of that.
use rust_ws_server.Base.{
  subst, ℕ, zero, suc, ◌+◌, ◌%◌, ◌^◌, ◌<◌, ◌≡◌, ◌≢◌, refl, sym, ◌∙◌, ap, Option, none, some, Result,
  ok, err, Text, text, Text-discrete, if◌then◌else◌, ◌==◌, arith,
}
use rust_ws_server.Auth.{AuthIdentity, unwrap_or}
use rust_ws_server.Base.Map.{get}
use rust_ws_server.External.{External}
use rust_ws_server.Handshake.{HeaderMap}
use rust_ws_server.Metrics
use rust_ws_server.Metrics.{fetch_add_1}
use rust_ws_server.Protocol.{Bytes}
use rust_ws_server.State
use rust_ws_server.State.{AppState, send_to_client}
use rust_ws_server.State.Topics.{receivers_of, publish_count, topics-publish_ne}
use rust_ws_server.Topic.{normalize_topic, tenant_topic}
use rust_ws_server.Api.{
  PublishBody, Response, unauthorized, published, publish_failed, direct_ok, direct_not_found,
  direct_failed, resolve_identity, count_out, published_to, publish_encoded, publish_as,
  api_publish,
}

module _ {ext : External} where
  count_out-messages_out :
      (n : ℕ) (s : AppState ext)
      → s.metrics.messages_out < 2 ^ 64
      → (count_out n s).metrics.messages_out ≡ (s.metrics.messages_out + n) % 2 ^ 64
  unfolding count_out Metrics.message_out
  count_out-messages_out zero s small = omega arith
  count_out-messages_out (suc n) s small =
      count_out-messages_out n (record s { metrics = Metrics.message_out s.metrics }) (omega arith)
      ∙ omega arith

  count_out-frame :
      (n : ℕ) (s : AppState ext)
      → ((count_out n s).topics ≡ s.topics)
        × ((count_out n s).metrics.dropped_messages ≡ s.metrics.dropped_messages)
  unfolding count_out Metrics.message_out
  count_out-frame zero s = (refl, refl)
  count_out-frame (suc n) s =
      count_out-frame n (record s { metrics = Metrics.message_out s.metrics })

  -- The key that the body names for a tenant.
  abbrev pub key_of : PublishBody ext → AuthIdentity → Text
  key_of body id =
      tenant_topic id.tenant_id (normalize_topic (unwrap_or body.topic (text "public")))

  -- One message out for each of `n` receivers, and one dropped if there are none; no channel but
  -- that of `key` is touched.
  pub record Delivers (s : AppState ext) (key : Text) (n : ℕ) (s' : AppState ext) : Type 0 where
    pub counted : n ≡ receivers_of s key
    pub sent : s'.metrics.messages_out ≡ (s.metrics.messages_out + n) % 2 ^ 64
    pub dropped :
        s'.metrics.dropped_messages
        ≡ (if n == 0 then fetch_add_1 s.metrics.dropped_messages else s.metrics.dropped_messages)
    pub apart : (k : Text) → k ≢ key → get Text-discrete k s'.topics ≡ get Text-discrete k s.topics

  -- A success is for the identity of the request, and delivers; anything else changes nothing.
  abbrev pub Publishes :
      AppState ext → HeaderMap → PublishBody ext → AppState ext × Response → Type 0
  Publishes s headers body (s', r) = elim r [
    | published n ↦
        (id : AuthIdentity) × (resolve_identity s.auth headers ≡ ok id)
        × Delivers s (key_of body id) n s'
    | unauthorized _ ↦ s' ≡ s
    | publish_failed _ ↦ s' ≡ s
    | direct_ok ↦ s' ≡ s
    | direct_not_found _ ↦ s' ≡ s
    | direct_failed _ ↦ s' ≡ s
  ]

  published_to-Delivers :
      (s s' : AppState ext) (key : Text) (n : ℕ)
      → s.metrics.messages_out < 2 ^ 64
      → n ≡ receivers_of s key
      → s'.metrics ≡ s.metrics
      → ((k : Text) → k ≢ key → get Text-discrete k s'.topics ≡ get Text-discrete k s.topics)
      → ((published_to (s', n)).1 ≡ published n) × Delivers s key n (published_to (s', n)).0
  unfolding published_to Metrics.message_dropped
  published_to-Delivers s s' key zero small counted same apart = (
    refl,
    record {
      counted = counted;
      sent = omega (arith, ap (λ (m : Metrics.Metrics). m.messages_out) same);
      dropped = ap (λ (m : Metrics.Metrics). fetch_add_1 m.dropped_messages) same;
      apart = apart;
    },
  )
  published_to-Delivers s s' key (suc n) small counted same apart =
      let (topics, dropped) = count_out-frame (suc n) s' in
      let out = ap (λ (m : Metrics.Metrics). m.messages_out) same in
      (
        refl,
        record {
          counted = counted;
          sent = count_out-messages_out (suc n) s' (omega (arith, out)) ∙ omega (arith, out);
          dropped = ground (arith, dropped, ap (λ (m : Metrics.Metrics). m.dropped_messages) same);
          apart = λ k ne. ap (get Text-discrete k) topics ∙ apart k ne;
        },
      )

  publish-metrics :
      (s : AppState ext) (key : Text) (b : Bytes) → (State.publish s key b).0.metrics ≡ s.metrics
  unfolding State.publish
  publish-metrics s key b = refl

  publish_encoded-Publishes :
      (s : AppState ext) (headers : HeaderMap) (body : PublishBody ext) (id : AuthIdentity)
      (encoded : Option Bytes)
      → s.metrics.messages_out < 2 ^ 64
      → resolve_identity s.auth headers ≡ ok id
      → Publishes s headers body (publish_encoded s (key_of body id) encoded)
  unfolding publish_encoded
  publish_encoded-Publishes s headers body id (some b) small e =
      let (s', n) = State.publish s (key_of body id) b in
      let (answer, delivers) =
        published_to-Delivers s s' (key_of body id) n small (publish_count s (key_of body id) b).0
          (publish-metrics s (key_of body id) b)
          (λ k ne. topics-publish_ne s (key_of body id) k b ne) in
      subst (λ r. Publishes s headers body ((published_to (s', n)).0, r)) (sym answer)
        (id, e, delivers)
  publish_encoded-Publishes s headers body id none small e = refl

  publish_as-Publishes :
      (s : AppState ext) (headers : HeaderMap) (body : PublishBody ext)
      (r : Result AuthIdentity Text)
      → s.metrics.messages_out < 2 ^ 64
      → resolve_identity s.auth headers ≡ r
      → Publishes s headers body (publish_as s body r)
  unfolding publish_as
  publish_as-Publishes s headers body (ok id) small e =
      publish_encoded-Publishes s headers body id _ small e
  publish_as-Publishes s headers body (err message) small e = refl

  -- A publication over HTTP that succeeds is for the identity of the request,
  -- reports the receivers of its tenant's key, counts a message out
  -- for each of them or a dropped message if there are none, and touches no channel of another key.
  -- Any other response leaves the state as it was. The counter is a 64-bit word.
  pub api_publish-Publishes :
      (s : AppState ext) (headers : HeaderMap) (body : PublishBody ext)
      → s.metrics.messages_out < 2 ^ 64
      → Publishes s headers body (api_publish s headers body)
  unfolding api_publish
  api_publish-Publishes s headers body small =
      publish_as-Publishes s headers body (resolve_identity s.auth headers) small refl
