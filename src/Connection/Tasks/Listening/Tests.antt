-- ===== src/Connection/Tasks/Listening/Tests.antt =====
-- A subscriber of "acme:news" hears what is published there, and not what goes to another topic.
use rust_ws_server.Base.{◌≡◌, refl, List, [], ◌∷◌, ◌++◌, Text, Text-discrete, text}
use rust_ws_server.Base.Map.{get, insert}
use rust_ws_server.Connection.Tasks.{raw, fanout_turn}
use rust_ws_server.External.Log.{logged, log_receiver}
use rust_ws_server.External.Model.{sample}
use rust_ws_server.External.Receiver.{nothing_new, value, skipped}
use rust_ws_server.Messages.Effects.{nothing, announced}
use rust_ws_server.Protocol.{Bytes}
use rust_ws_server.State
use rust_ws_server.State.{AppState, new, publish, subscribe, topic_sender, try_send}
use rust_ws_server.Connection.Tasks.Listening.{
  Subscriber, Covers, subscribed, Run, here, next, told, hears, published_in,
}
use rust_ws_server.Connection.Tasks.Listening.Hearing.{Run-Covers}

abbrev key : Text
key = text "acme:news"

abbrev start : AppState logged
start = new logged sample

abbrev published_one : AppState logged
published_one = (State.publish (subscribe start key) key (7 ∷ [])).0

abbrev published_two : AppState logged
published_two = (State.publish published_one (text "acme:ads") (8 ∷ [])).0

abbrev listening : Subscriber logged
listening = record {
  state = (fanout_turn published_two 1 (raw (7 ∷ []))).0;
  place = 1;
  heard = (7 ∷ []) ∷ [];
  missed = 0;
}

first_value : log_receiver.recv (topic_sender published_two key) 0 ≡ value (7 ∷ [])
unfolding State.publish subscribe topic_sender new get insert Text-discrete
first_value = refl

place_zero : log_receiver.sent (topic_sender start key) ≡ []
unfolding topic_sender new get
place_zero = refl

abbrev history : Run log_receiver 1 key (subscribed log_receiver 1 key start) listening
unfolding topic_sender new get
history =
    next
      (next (next here (told published_one (announced nothing key (7 ∷ []))))
        (told published_two (announced nothing (text "acme:ads") (8 ∷ []))))
      (hears (7 ∷ []) first_value)

history-published_in : published_in log_receiver 1 key history ≡ (7 ∷ []) ∷ []
unfolding Text-discrete history
history-published_in = refl

Run-Covers_example :
    (before : List Bytes) × (after : List Bytes) × (published_in log_receiver 1 key history
      ≡ before ++ after)
    × Covers ((7 ∷ []) ∷ []) 0 before
    × (listening.missed ≡ 0 → (7 ∷ []) ∷ [] ≡ before)
    × (log_receiver.recv (topic_sender listening.state key) 1 ≡ nothing_new → after ≡ [])
Run-Covers_example = Run-Covers logged log_receiver 1 key start history

-- With room for one message, the second of two pushes out the first.
abbrev narrow : AppState logged
narrow = new logged (record sample { topic_channel_capacity = 1 })

abbrev overrun : AppState logged
overrun = (State.publish (State.publish (subscribe narrow key) key (7 ∷ [])).0 key (8 ∷ [])).0

overrun_skipped : log_receiver.recv (topic_sender overrun key) 0 ≡ skipped 1
unfolding State.publish subscribe topic_sender new get insert Text-discrete
overrun_skipped = refl

overrun_value : log_receiver.recv (topic_sender overrun key) 1 ≡ value (8 ∷ [])
unfolding State.publish subscribe topic_sender new get insert Text-discrete
overrun_value = refl
