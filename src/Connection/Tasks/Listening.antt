-- ===== src/Connection/Tasks/Listening.antt =====
-- src/state.rs, `publish` and `subscribe`, with the fan-out task of `connection_loop` in
-- src/server.rs: what a subscriber hears of a topic, while everyone else goes on.
use rust_ws_server.Base.{
  ℕ, ◌+◌, ◌<◌, ◌≤◌, ◌≡◌, ◌≢◌, refl, sym, ◌∙◌, ap, subst, List, [], ◌∷◌, ◌++◌, length, Text,
  Text-discrete, ite, if_pos, if_neg, arith, inl, inr, Bool-cases,
}
use rust_ws_server.Connection.Tasks.{Heard, raw, lagged, closed, fanout_turn, passed_on}
use rust_ws_server.External.{External, Sent}
use rust_ws_server.External.Receiver.{Polled, nothing_new, value, skipped, ReceiverApi}
use rust_ws_server.Messages.{send_encoded, after_send, count_dropped}
use rust_ws_server.Messages.Effects.{Effects, nothing, sent, counted, announced, rated}
use rust_ws_server.Metrics
use rust_ws_server.Protocol.{Bytes, OutboundMessage}
use rust_ws_server.State
use rust_ws_server.State.{
  AppState, topic_sender, set_topic, publish, subscribe, try_send, check_tenant_rate,
}
use rust_ws_server.State.Topics.{
  receivers_of, publish_count, receivers_of-subscribe, topic_sender-set_topic,
  topic_sender-set_topic_ne,
}
pub mod Channel
pub mod Hearing
pub mod Place
mod Tests

module _ {ext : External} where
  -- What was published to a key.
  abbrev pub published_by : (key : Text) {s t : AppState ext} → Effects s t → List Bytes
  published_by key nothing = []
  published_by key (sent h tx m) = published_by key h
  published_by key (counted h m e) = published_by key h
  published_by key (announced h other m) =
      published_by key h ++ ite (Text-discrete key other) (m ∷ []) []
  published_by key (rated h tenant now _) = published_by key h

module _ (ext : External) where
  -- The fan-out's receiver by its place, the messages it got, and the number of those it was told
  -- that it missed.
  pub record Subscriber : Type 0 where
    pub state : AppState ext
    pub place : ℕ
    pub heard : List Bytes
    pub missed : ℕ

-- Some messages, each of them heard or counted as missed, in order.
pub data Covers : (heard : List Bytes) (missed : ℕ) → List Bytes → Type 0 where
  none_yet : Covers [] 0 []
  hearing :
      {heard : List Bytes} {missed : ℕ} {ms : List Bytes}
      → Covers heard missed ms
      → (m : Bytes) → Covers (heard ++ m ∷ []) missed (ms ++ m ∷ [])
  missing :
      {heard : List Bytes} {missed : ℕ} {ms : List Bytes}
      → Covers heard missed ms
      → (lost : List Bytes) → Covers heard (missed + length lost) (ms ++ lost)

module _ {ext : External} (receiver : ReceiverApi ext.broadcast) (tx : ℕ) (key : Text) where
  -- The place of a new receiver is the end.
  abbrev pub subscribed : AppState ext → Subscriber ext
  subscribed s = record {
    state = subscribe s key;
    place = length (receiver.sent (topic_sender s key));
    heard = [];
    missed = 0;
  }

  -- The fan-out takes a turn, the others send and publish, others subscribe to any topic and leave
  -- it, or something happens that concerns no topic. That the fan-out ends where it could not pass a
  -- message on is left out: the relation has the turns that it would take after that as well.
  pub data Step (s : Subscriber ext) : Subscriber ext → Type 0 where
    hears :
        (m : Bytes)
        → receiver.recv (topic_sender s.state key) s.place ≡ value m
        → Step s (record {
          state = (fanout_turn s.state tx (raw m)).0;
          place = s.place + 1;
          heard = s.heard ++ m ∷ [];
          missed = s.missed;
        })
    lags :
        (n : ℕ)
        → receiver.recv (topic_sender s.state key) s.place ≡ skipped n
        → Step s (record {
          state = (fanout_turn s.state tx (lagged n)).0;
          place = s.place + n;
          heard = s.heard;
          missed = s.missed + n;
        })
    told : (t : AppState ext) → Effects s.state t → Step s (record s { state = t })
    joined : (other : Text) → Step s (record s { state = subscribe s.state other })
    left :
        (other : Text)
        → (other ≡ key → 1 < receivers_of s.state key)
        → Step s (record s {
          state = set_topic s.state other (ext.broadcast.unsubscribe (topic_sender s.state other));
        })
    unrelated :
        (t : AppState ext)
        → t.topics ≡ s.state.topics
        → t.config ≡ s.state.config
        → Step s (record s { state = t })

  pub data Run (s : Subscriber ext) : Subscriber ext → Type 0 where
    here : Run s s
    next : {t u : Subscriber ext} → Run s t → Step t u → Run s u

  -- What is published to the key along a run.
  abbrev pub published_in : {s t : Subscriber ext} → Run s t → List Bytes
  published_in here = []
  published_in (next r (told t e)) = published_in r ++ published_by key e
  published_in (next r (hears m e)) = published_in r
  published_in (next r (lags n e)) = published_in r
  published_in (next r (joined other)) = published_in r
  published_in (next r (left other stays)) = published_in r
  published_in (next r (unrelated t e e')) = published_in r
