-- ===== src/State/Topics.antt =====
-- Publishing reaches the subscribers of the topic's key, and of no other key.
use rust_ws_server.Base.{
  ℕ, ◌+◌, ◌<◌, ◌≡◌, ◌≢◌, inl, inr, sym, ◌∙◌, ap, ◌∷◌, ◌++◌, Text, Text-discrete, zero-or-pos, arith,
}
use rust_ws_server.Base.Map.{get, get-insert_self, get-insert_ne}
use rust_ws_server.External.{External}
use rust_ws_server.IpLimiter.{or_default}
use rust_ws_server.Protocol.{Bytes}
use rust_ws_server.State.{AppState, topic_sender, set_topic, publish, subscribe}
use rust_ws_server.Str.Split.{IsFree}
use rust_ws_server.Topic.{tenant_topic}
use rust_ws_server.Topic.Isolation.{tenant_topic-injective, tenant_topic_collision}

module _ (ext : External) where
  reached-send :
      (m : Bytes) (c : ext.broadcast.Channel)
      → or_default (ext.broadcast.send m c).1 0 ≡ ext.broadcast.receivers c
  reached-send m c = elim (zero-or-pos (ext.broadcast.receivers c)) [
    | inl e ↦ rw (ext.broadcast.send-none m c e) (sym e)
    | inr p ↦ rw (ext.broadcast.send-some m c p)
  ]

module _ {ext : External} where
  -- How many receivers a topic's channel has; a topic without a channel has none.
  abbrev pub receivers_of : AppState ext → Text → ℕ
  receivers_of s key = ext.broadcast.receivers (topic_sender s key)

  pub topic_sender-set_topic :
      (s : AppState ext) (key : Text) (c : ext.broadcast.Channel)
      → topic_sender (set_topic s key c) key ≡ c
  unfolding topic_sender
  topic_sender-set_topic s key c = rw (get-insert_self Text-discrete key c s.topics, topic_sender)

  pub topic_sender-set_topic_ne :
      (s : AppState ext) (key k : Text) (c : ext.broadcast.Channel)
      → k ≢ key
      → topic_sender (set_topic s key c) k ≡ topic_sender s k
  unfolding topic_sender
  topic_sender-set_topic_ne s key k c ne =
      rw (get-insert_ne Text-discrete k key c s.topics ne, topic_sender)

  -- A publication reports the receivers of its key, and leaves the number of receivers of every
  -- key as it is.
  pub publish_count :
      (s : AppState ext) (key : Text) (m : Bytes)
      → ((publish s key m).1 ≡ receivers_of s key)
        × ((k : Text) → receivers_of (publish s key m).0 k ≡ receivers_of s k)
  unfolding publish
  publish_count s key m = (
    reached-send ext m (topic_sender s key),
    λ k. elim (Text-discrete k key) [
      | yes same ↦ rw same (
          ap ext.broadcast.receivers
            (topic_sender-set_topic s key (ext.broadcast.send m (topic_sender s key)).0)
          ∙ ext.broadcast.receivers-send m (topic_sender s key))
      | no ne ↦
          ap ext.broadcast.receivers
            (topic_sender-set_topic_ne s key k (ext.broadcast.send m (topic_sender s key)).0 ne)
    ],
  )

  -- A subscription adds one receiver to its key, and none to another.
  pub receivers_of-subscribe :
      (s : AppState ext) (key : Text)
      → (receivers_of (subscribe s key) key ≡ receivers_of s key + 1)
        × ((k : Text) → k ≢ key → receivers_of (subscribe s key) k ≡ receivers_of s k)
  unfolding subscribe
  receivers_of-subscribe s key =
      let c = ext.broadcast.subscribe (topic_sender s key) in
      (
        ap ext.broadcast.receivers (topic_sender-set_topic s key c)
            ∙ ext.broadcast.receivers-subscribe (topic_sender s key),
        λ k ne. ap ext.broadcast.receivers (topic_sender-set_topic_ne s key k c ne),
      )

  -- A publication touches no channel of another key.
  pub topics-publish_ne :
      (s : AppState ext) (key k : Text) (m : Bytes)
      → k ≢ key
      → get Text-discrete k (publish s key m).0.topics ≡ get Text-discrete k s.topics
  unfolding publish
  topics-publish_ne s key k m ne = get-insert_ne Text-discrete k key _ s.topics ne

  -- What a tenant publishes touches no channel of another tenant, if the names of both have no
  -- colon.
  pub publish_isolated :
      (s : AppState ext) (t u topic other : Text) (m : Bytes)
      → IsFree b':' t
      → IsFree b':' u
      → t ≢ u
      → get Text-discrete (tenant_topic u other) (publish s (tenant_topic t topic) m).0.topics
        ≡ get Text-discrete (tenant_topic u other) s.topics
  publish_isolated s t u topic other m ht hu ne =
      topics-publish_ne s (tenant_topic t topic) (tenant_topic u other) m
        (λ e. ne (sym (tenant_topic-injective u t other topic hu ht e).0))

  -- A tenant with a colon in its name reaches the subscribers of another tenant: what "a:b"
  -- publishes to "c" goes to whom "a" subscribed to "b:c".
  pub publish_crosses_tenants :
      (s : AppState ext) (t u topic : Text) (m : Bytes)
      → 0
        < (publish
            (subscribe s (tenant_topic t (u ++ b':' ∷ topic)))
            (tenant_topic (t ++ b':' ∷ u) topic)
            m).1
  publish_crosses_tenants s t u topic m =
      let key = tenant_topic t (u ++ b':' ∷ topic) in
      rw (tenant_topic_collision t u topic)
        (omega (arith, (publish_count (subscribe s key) key m).0, (receivers_of-subscribe s key).0))
