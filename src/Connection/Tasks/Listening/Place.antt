-- ===== src/Connection/Tasks/Listening/Place.antt =====
-- Where a subscriber stands in the log of its topic, and what the steps of a run do to that.
use rust_ws_server.Base.{
  ℕ, ◌+◌, ◌<◌, ◌≡◌, sym, ◌∙◌, ap, subst, List, ◌++◌, length, length-append, Text, Text-discrete,
  same_split, arith,
}
use mathlib.Core.List.{append_assoc}
use rust_ws_server.External.{External}
use rust_ws_server.External.Receiver.{ReceiverApi}
use rust_ws_server.Protocol.{Bytes}
use rust_ws_server.State.{AppState, topic_sender, set_topic}
use rust_ws_server.State.Topics.{receivers_of, topic_sender-set_topic, topic_sender-set_topic_ne}
use rust_ws_server.Connection.Tasks.Listening.{Subscriber, Covers}
use rust_ws_server.Connection.Tasks.Listening.Channel.{HasSameTopics, topic_sender-same, log_of}

module _ {ext : External} (receiver : ReceiverApi ext.broadcast) (tx : ℕ) (key : Text) where
  -- After `base`, the log of the topic has what was published, of which a part was heard or counted
  -- as missed, and the receiver's place is behind it.
  pub record IsHearing (base published : List Bytes) (s : Subscriber ext) : Type 0 where
    pub alive : 0 < receivers_of s.state key
    pub log : log_of receiver key s.state ≡ base ++ published
    pub before : List Bytes
    pub after : List Bytes
    pub split : published ≡ before ++ after
    pub at : s.place ≡ length base + length before
    pub covers : Covers s.heard s.missed before

  -- A step that leaves the channel of the topic with as many receivers and the same log, and the
  -- subscriber where it is.
  pub still-IsHearing :
      (base published : List Bytes) (s : Subscriber ext) (t : AppState ext)
      → 0 < receivers_of t key
      → log_of receiver key t ≡ log_of receiver key s.state
      → IsHearing base published s
      → IsHearing base published (record s { state = t })
  still-IsHearing base published s t alive same h = record {
    alive = alive;
    log = same ∙ h.log;
    before = h.before;
    after = h.after;
    split = h.split;
    at = h.at;
    covers = h.covers;
  }

  -- The receiver moves on over some of what it has ahead.
  pub moved-IsHearing :
      (base published : List Bytes) (s : Subscriber ext) (t : AppState ext)
      (over rest heard : List Bytes) (missed : ℕ)
      → HasSameTopics s.state t
      → (h : IsHearing base published s) → h.after ≡ over ++ rest
      → Covers heard missed (h.before ++ over)
      → IsHearing base published
          (record { state = t; place = s.place + length over; heard = heard; missed = missed })
  moved-IsHearing base published s t over rest heard missed same h ahead covers =
      let channel = topic_sender-same key s.state t same in
      record {
        alive = subst (λ n. 0 < n) (sym (ap ext.broadcast.receivers channel)) h.alive;
        log = ap receiver.sent channel ∙ h.log;
        before = h.before ++ over;
        after = rest;
        split = h.split ∙ ap (λ l. h.before ++ l) ahead ∙ sym (append_assoc h.before over rest);
        at = omega (arith, h.at, length-append h.before over);
        covers = covers;
      }

  -- What the receiver has ahead.
  pub ahead :
      (base published : List Bytes) (s : Subscriber ext) (h : IsHearing base published s)
      (xs ys : List Bytes)
      → log_of receiver key s.state ≡ xs ++ ys
      → length xs ≡ s.place
      → h.after ≡ ys
  ahead base published s h xs ys e n =
      same_split (base ++ h.before) h.after xs ys
        (omega (arith, n, h.at, length-append base h.before))
        (append_assoc base h.before h.after ∙ ap (λ l. base ++ l) (sym h.split) ∙ sym h.log ∙ e)

  pub length-log :
      (base published : List Bytes) (s : Subscriber ext) (h : IsHearing base published s)
      → length (log_of receiver key s.state) ≡ s.place + length h.after
  length-log base published s h = omega (
    arith,
    ap length h.log,
    ap length h.split,
    h.at,
    length-append base published,
    length-append h.before h.after,
  )

  -- The channel of any topic is replaced by one with the same log, and with receivers.
  pub set_topic-IsHearing :
      (base published : List Bytes) (s : Subscriber ext) (other : Text) (c : ext.broadcast.Channel)
      → (other ≡ key → 0 < ext.broadcast.receivers c)
      → receiver.sent c ≡ log_of receiver other s.state
      → IsHearing base published s
      → IsHearing base published (record s { state = set_topic s.state other c })
  set_topic-IsHearing base published s other c some_left kept h =
      let t = set_topic s.state other c in
      elim (Text-discrete key other) [
        | yes same ↦
            let channel =
              subst (λ k. topic_sender t k ≡ c) (sym same)
                (topic_sender-set_topic s.state other c) in
            still-IsHearing base published s t
              (subst (λ n. 0 < n) (sym (ap ext.broadcast.receivers channel)) (some_left (sym same)))
              (ap receiver.sent channel ∙ kept ∙ ap (λ k. log_of receiver k s.state) (sym same)) h
        | no differ ↦
            let channel = topic_sender-set_topic_ne s.state other key c differ in
            still-IsHearing base published s t
              (subst (λ n. 0 < n) (sym (ap ext.broadcast.receivers channel)) h.alive)
              (ap receiver.sent channel) h
      ]
