-- ===== src/Connection/Tasks/Listening/Hearing.antt =====
-- What the fan-out hears of a topic, over every run.
use rust_ws_server.Base.{
  ℕ, ◌+◌, ◌<◌, ◌≡◌, refl, sym, ◌∙◌, ap, subst, List, [], ◌∷◌, ◌++◌, split_at, length_zero, Text,
  arith,
}
use mathlib.Core.List.{append-nil, append_assoc}
use rust_ws_server.Connection.Tasks.{raw, lagged, fanout_turn}
use rust_ws_server.External.{External}
use rust_ws_server.External.Receiver.{nothing_new, ReceiverApi}
use rust_ws_server.Protocol.{Bytes}
use rust_ws_server.State.{AppState, topic_sender, subscribe}
use rust_ws_server.State.Topics.{receivers_of, receivers_of-subscribe, topic_sender-set_topic}
use rust_ws_server.Connection.Tasks.Listening.{
  published_by, Subscriber, Covers, none_yet, hearing, missing, subscribed, hears, lags, told,
  joined, left, unrelated, Run, here, next, published_in,
}
use rust_ws_server.Connection.Tasks.Listening.Channel.{
  topic_sender-same, fanout_turn-HasSameTopics, log_of, Effects-log,
}
use rust_ws_server.Connection.Tasks.Listening.Place.{
  IsHearing, still-IsHearing, moved-IsHearing, ahead, length-log, set_topic-IsHearing,
}

Covers-none_missed :
    {heard : List Bytes} {missed : ℕ} {ms : List Bytes}
    → Covers heard missed ms
    → missed ≡ 0
    → heard ≡ ms
Covers-none_missed none_yet n = refl
Covers-none_missed (hearing h m) n = ap (λ l. l ++ m ∷ []) (Covers-none_missed h n)
Covers-none_missed (missing {missed = missed} {ms = ms} h lost) n =
    Covers-none_missed h (omega (arith, n))
    ∙ sym (append-nil ms)
    ∙ ap (λ l. ms ++ l) (sym (length_zero lost (omega (arith, n))))

module _ {ext : External} (receiver : ReceiverApi ext.broadcast) (tx : ℕ) (key : Text) where
  Run-IsHearing :
      {s t : Subscriber ext} (r : Run receiver tx key s t) (base : List Bytes)
      → IsHearing receiver tx key base [] s
      → IsHearing receiver tx key base (published_in receiver tx key r) t
  unfolding subscribe
  Run-IsHearing here base h = h
  Run-IsHearing (next {t} r (hears m e)) base h =
      let k = Run-IsHearing r base h in
      let (xs, ys, log, n) = receiver.recv-value (topic_sender t.state key) t.place m e in
      moved-IsHearing receiver tx key base _ t (fanout_turn t.state tx (raw m)).0 (m ∷ []) ys _ _
        (fanout_turn-HasSameTopics t.state tx (raw m)) k
        (ahead receiver tx key base _ t k xs (m ∷ ys) log n) (hearing k.covers m)
  Run-IsHearing (next {t} r (lags n e)) base h =
      let k = Run-IsHearing r base h in
      let behind = receiver.recv-skipped (topic_sender t.state key) t.place n e in
      let (over, rest, split, many) =
        split_at n k.after (omega (arith, behind, length-log receiver tx key base _ t k)) in
      subst
        (λ i. IsHearing receiver tx key base (published_in receiver tx key r) (record {
          state = (fanout_turn t.state tx (lagged n)).0;
          place = t.place + i;
          heard = t.heard;
          missed = t.missed + i;
        }))
        many
        (moved-IsHearing receiver tx key base _ t (fanout_turn t.state tx (lagged n)).0 over rest _
          _ (fanout_turn-HasSameTopics t.state tx (lagged n)) k split (missing k.covers over))
  Run-IsHearing (next {t} r (told u e)) base h =
      let k = Run-IsHearing r base h in
      let (count, log) = Effects-log receiver key e k.alive in
      record {
        alive = omega (arith, count, k.alive);
        log =
            log
            ∙ ap (λ l. l ++ published_by key e) k.log
            ∙ append_assoc base _ (published_by key e);
        before = k.before;
        after = k.after ++ published_by key e;
        split =
            ap (λ l. l ++ published_by key e) k.split
            ∙ append_assoc k.before k.after (published_by key e);
        at = k.at;
        covers = k.covers;
      }
  Run-IsHearing (next {t} r (joined other)) base h =
      let c = topic_sender t.state other in
      set_topic-IsHearing receiver tx key base _ t other (ext.broadcast.subscribe c)
        (λ e. omega (arith, ext.broadcast.receivers-subscribe c)) (receiver.sent-subscribe c)
        (Run-IsHearing r base h)
  Run-IsHearing (next {t} r (left other stays)) base h =
      let c = topic_sender t.state other in
      set_topic-IsHearing receiver tx key base _ t other (ext.broadcast.unsubscribe c)
        (λ e.
          let many = subst (λ j. 1 < receivers_of t.state j) (sym e) (stays e) in
          omega (arith, many, ext.broadcast.receivers-unsubscribe c (omega (arith, many))))
        (receiver.sent-unsubscribe c) (Run-IsHearing r base h)
  Run-IsHearing (next {t} r (unrelated u e e')) base h =
      let k = Run-IsHearing r base h in
      let same = topic_sender-same key t.state u (e, e') in
      still-IsHearing receiver tx key base _ t u
        (subst (λ n. 0 < n) (sym (ap ext.broadcast.receivers same)) k.alive) (ap receiver.sent same)
        k

-- What the fan-out of a subscriber hears: since the subscription, what was published to the key of
-- its topic is, in order, what it heard with what it was told that it missed, followed by what it
-- has not come to yet, and nothing of that if `recv` has nothing new. Others publish, subscribe and
-- leave meanwhile.
pub Run-Covers :
    (ext : External) (receiver : ReceiverApi ext.broadcast) (tx : ℕ) (key : Text) (s : AppState ext)
    {t : Subscriber ext} (r : Run receiver tx key (subscribed receiver tx key s) t)
    → (before : List Bytes) × (after : List Bytes) × (published_in receiver tx key r
        ≡ before ++ after)
      × Covers t.heard t.missed before
      × (t.missed ≡ 0 → t.heard ≡ before)
      × (receiver.recv (topic_sender t.state key) t.place ≡ nothing_new → after ≡ [])
unfolding subscribe
Run-Covers ext receiver tx key s {t} r =
    let base = log_of receiver key s in
    let channel = topic_sender-set_topic s key (ext.broadcast.subscribe (topic_sender s key)) in
    let h = Run-IsHearing receiver tx key r base (record {
      alive = omega (arith, (receivers_of-subscribe s key).0);
      log =
          ap receiver.sent channel
          ∙ receiver.sent-subscribe (topic_sender s key)
          ∙ sym (append-nil base);
      before = [];
      after = [];
      split = refl;
      at = omega arith;
      covers = none_yet;
    }) in
    (
      h.before,
      h.after,
      h.split,
      h.covers,
      Covers-none_missed h.covers,
      λ e. length_zero h.after (
          omega (
            arith,
            receiver.recv-nothing_new (topic_sender t.state key) t.place e,
            length-log receiver tx key base _ t h,
          )),
    )
