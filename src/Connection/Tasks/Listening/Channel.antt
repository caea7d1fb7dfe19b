-- ===== src/Connection/Tasks/Listening/Channel.antt =====
-- The channel of a topic, as the effects of messages and a turn of the fan-out leave it.
use rust_ws_server.Base.{
  ℕ, ◌<◌, ◌≡◌, refl, sym, ◌∙◌, ap, subst, List, [], ◌∷◌, ◌++◌, ite, Text, Text-discrete, Bool-cases,
  Option-cases, inl, inr, if_pos, if_neg, arith,
}
use mathlib.Core.List.{append-nil, append_assoc}
use rust_ws_server.Base.Map.{get}
use rust_ws_server.Connection.Tasks.{Heard, raw, lagged, fanout_turn, passed_on}
use rust_ws_server.External.{External, Sent, delivered, full, closed}
use rust_ws_server.External.Receiver.{ReceiverApi}
use rust_ws_server.Messages.{send_encoded, after_send}
use rust_ws_server.Messages.Effects.{Effects, nothing, sent, counted, announced, rated}
use rust_ws_server.Protocol.{Bytes, OutboundMessage}
use rust_ws_server.State
use rust_ws_server.State.{AppState, topic_sender, try_send, check_tenant_rate}
use rust_ws_server.State.Topics.{
  receivers_of, publish_count, topic_sender-set_topic, topic_sender-set_topic_ne,
}
use rust_ws_server.Connection.Tasks.Listening.{published_by}

module _ {ext : External} where
  -- The topics and the settings.
  abbrev pub HasSameTopics : AppState ext → AppState ext → Type 0
  HasSameTopics s t = (t.topics ≡ s.topics) × (t.config ≡ s.config)

  pub topic_sender-same :
      (key : Text) (s t : AppState ext)
      → HasSameTopics s t
      → topic_sender t key ≡ topic_sender s key
  unfolding topic_sender
  topic_sender-same key s t (topics, config) =
      let same = ap (get Text-discrete key) topics in
      elim (Option-cases (get Text-discrete key s.topics)) [
        | inl e ↦
            rw (same ∙ e, e, topic_sender)
              (ap (λ c. ext.broadcast.channel c.topic_channel_capacity) config)
        | inr (c, e) ↦ rw (same ∙ e, e, topic_sender) refl
      ]

  try_send-HasSameTopics :
      (s : AppState ext) (tx : ℕ) (m : OutboundMessage) → HasSameTopics s (try_send s tx m).0
  unfolding try_send
  try_send-HasSameTopics s tx m = (ground arith, ground arith)

  check_tenant_rate-HasSameTopics :
      (s : AppState ext) (tenant : Text) (now : ℕ)
      → HasSameTopics s (check_tenant_rate s tenant now).0
  unfolding check_tenant_rate
  check_tenant_rate-HasSameTopics s tenant now = (ground arith, ground arith)

  after_send-HasSameTopics :
      (s t : AppState ext) (r : Sent) → HasSameTopics s t → HasSameTopics s (after_send t r).0
  unfolding after_send
  after_send-HasSameTopics s t delivered h = h
  after_send-HasSameTopics s t full h = h
  after_send-HasSameTopics s t closed h = h

  send_encoded-HasSameTopics :
      (s : AppState ext) (tx : ℕ) (m : Bytes) → HasSameTopics s (send_encoded s tx m).0
  unfolding send_encoded
  send_encoded-HasSameTopics s tx m =
      let (t, r) = try_send s tx (OutboundMessage.binary m) in
      after_send-HasSameTopics s t r (try_send-HasSameTopics s tx _)

  pub fanout_turn-HasSameTopics :
      (s : AppState ext) (tx : ℕ) (heard : Heard) → HasSameTopics s (fanout_turn s tx heard).0
  unfolding fanout_turn passed_on
  fanout_turn-HasSameTopics s tx (raw bytes) = elim (Bool-cases (send_encoded s tx bytes).1) [
    | inl e ↦ rw (e, passed_on) (send_encoded-HasSameTopics s tx bytes)
    | inr e ↦ rw (e, passed_on) (send_encoded-HasSameTopics s tx bytes)
  ]
  fanout_turn-HasSameTopics s tx (lagged skipped) = (refl, refl)
  fanout_turn-HasSameTopics s tx Heard.closed = (refl, refl)

module _ {ext : External} (receiver : ReceiverApi ext.broadcast) (key : Text) where
  abbrev pub log_of : AppState ext → List Bytes
  log_of s = receiver.sent (topic_sender s key)

  publish-log :
      (s : AppState ext) (other : Text) (m : Bytes)
      → 0 < receivers_of s key
      → log_of (State.publish s other m).0 ≡ log_of s ++ ite (Text-discrete key other) (m ∷ []) []
  unfolding State.publish
  publish-log s other m alive = elim (Text-discrete key other) [
    | yes same ↦
        let c = (ext.broadcast.send m (topic_sender s other)).0 in
        rw (if_pos _ same, same)
          (ap receiver.sent (topic_sender-set_topic s other c)
            ∙ receiver.sent-send m (topic_sender s other)
                (subst (λ k. 0 < receivers_of s k) same alive))
    | no differ ↦
        let c = (ext.broadcast.send m (topic_sender s other)).0 in
        rw (if_neg _ differ)
          (ap receiver.sent (topic_sender-set_topic_ne s other key c differ) ∙ sym (append-nil _))
  ]

  -- While the topic has a receiver, its log grows by what is published to it.
  pub Effects-log :
      {s t : AppState ext} (e : Effects s t)
      → 0 < receivers_of s key
      → (receivers_of t key ≡ receivers_of s key) × (log_of t ≡ log_of s ++ published_by key e)
  Effects-log nothing alive = (refl, sym (append-nil _))
  Effects-log (sent {t} e tx m) alive =
      let same = topic_sender-same key t (try_send t tx m).0 (try_send-HasSameTopics t tx m) in
      let (count, log) = Effects-log e alive in
      (ap ext.broadcast.receivers same ∙ count, ap receiver.sent same ∙ log)
  Effects-log (counted {t} e m k) alive =
      let same = topic_sender-same key t (record t { metrics = m }) (refl, refl) in
      let (count, log) = Effects-log e alive in
      (ap ext.broadcast.receivers same ∙ count, ap receiver.sent same ∙ log)
  Effects-log (rated {t} e tenant now _) alive =
      let same =
        topic_sender-same key t (check_tenant_rate t tenant now).0
          (check_tenant_rate-HasSameTopics t tenant now) in
      let (count, log) = Effects-log e alive in
      (ap ext.broadcast.receivers same ∙ count, ap receiver.sent same ∙ log)
  Effects-log {s} (announced {t} e other m) alive =
      let (count, log) = Effects-log e alive in
      (
        (publish_count t other m).1 key ∙ count,
        publish-log t other m (omega (arith, count, alive))
            ∙ ap (λ l. l ++ ite (Text-discrete key other) (m ∷ []) []) log
            ∙ append_assoc (log_of s) (published_by key e)
                (ite (Text-discrete key other) (m ∷ []) []),
      )
