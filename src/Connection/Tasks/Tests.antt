-- ===== src/Connection/Tasks/Tests.antt =====
-- A connection of "ann" that writes, and one that is idle.
use rust_ws_server.Base.{arith, some, ◌≡◌, refl, true, false, [], ◌∷◌, ◌++◌, List, none, some, text}
use rust_ws_server.Auth.{AuthIdentity}
use rust_ws_server.Connection.{add_queue, begin_connection, send_ready}
use rust_ws_server.Connection.Tasks.Greeting.{Run-greeting}
use rust_ws_server.Topic.{extract_topic}
use rust_ws_server.Connection.Tasks.{
  done, reader, message, heartbeat, raw, writer_turn, write_received, fanout_turn, passed_on,
}
use rust_ws_server.Connection.Tasks.Delivery.{delivery, Run-Follows}
use rust_ws_server.Connection.Tasks.Ending.{stop_returns}
use rust_ws_server.Connection.Tasks.Order.{IsSettled, Run-IsSettled}
use rust_ws_server.Connection.Tasks.Session.{
  Place, Session, settle, session_write, session_fan, spawned, Run, here, next, write, fan,
}
use rust_ws_server.External.Model.{plain, sample, tagged_codec}
use rust_ws_server.Base.{ℕ_discrete, length, ◌<◌, map, Option}
use rust_ws_server.Base.Map.{get, insert}
use rust_ws_server.Messages.Effects.{nothing, sent}
use rust_ws_server.Protocol.{Bytes, OutboundMessage}
use rust_ws_server.State.{AppState, subscribe, next_connection_id, register_client}
use rust_ws_server.State.Clients.{queued_at, waiting}
use rust_ws_server.Messages.{send_encoded}
use rust_ws_server.Messages.Reader.{timed_out, stop, reader_turn}
use rust_ws_server.Protocol.{ServerEvent, Message, into_ws_message}
use rust_ws_server.State.{new, try_send}

abbrev ann : Place
ann = record {
  tx = 1;
  topic_key = text "acme:news";
  tenant_id = text "acme";
  client_id = text "ann";
  connection_id = 1;
}

abbrev begun : Session plain
begun = spawned ann (add_queue (new plain sample) 1) 0

abbrev heard : Session plain
heard = session_fan ann begun (raw (7 ∷ []))

abbrev beaten : Session plain
beaten = session_write ann heard heartbeat true

-- A queued broadcast is written after a heartbeat.
abbrev written : Session plain
written = session_write ann beaten message true

written-wire : written.wire ≡ Message.ping [] ∷ Message.binary (7 ∷ []) ∷ []
unfolding session_write session_fan settle writer_turn write_received fanout_turn passed_on
    send_encoded try_send new into_ws_message rust_ws_server.Base.Map.get
    rust_ws_server.Base.Map.insert rust_ws_server.Base.ℕ_discrete
written-wire = refl

heard_going : heard.ends.of_writer ≡ none
unfolding session_fan settle fanout_turn passed_on send_encoded try_send new
    rust_ws_server.Base.Map.get rust_ws_server.Base.Map.insert rust_ws_server.Base.ℕ_discrete
heard_going = refl

beaten_going : beaten.ends.of_writer ≡ none
unfolding session_write session_fan settle writer_turn write_received fanout_turn passed_on
    send_encoded try_send new into_ws_message rust_ws_server.Base.Map.get
    rust_ws_server.Base.Map.insert rust_ws_server.Base.ℕ_discrete
beaten_going = refl

run_written : Run ann begun written
run_written =
    next (next (next here (fan (raw (7 ∷ [])) refl)) (write heartbeat true heard_going))
      (write message true beaten_going)

going : written.ends.of_writer ≡ none
unfolding session_write session_fan settle writer_turn write_received fanout_turn passed_on
    send_encoded try_send new into_ws_message rust_ws_server.Base.Map.get
    rust_ws_server.Base.Map.insert rust_ws_server.Base.ℕ_discrete
going = refl

Run-Follows_example : (more : List Message) × (delivery ann written ≡ delivery ann begun ++ more)
Run-Follows_example = Run-Follows ann begun written run_written going

timeout_stops :
    (reader_turn begun.state begun.limiter 1
      (text "acme:news")
      (text "acme")
      (text "ann")
      timed_out
      61).next
    ≡ stop
unfolding reader_turn
timeout_stops = refl

stop_returns_example :
    (t : Session plain) × Run ann begun t
    × (t.over ≡ true)
    × (t.selected ≡ some (reader, done))
    × (t.wire ≡ [])
stop_returns_example = stop_returns ann begun timed_out (text "") 61 refl refl refl timeout_stops

run_idle :
    (t : Session plain) × Run ann begun t
    × (t.over ≡ true)
    × (t.selected ≡ some (reader, done))
    × (t.wire ≡ [])
run_idle = stop_returns ann begun timed_out (text "") 61 refl refl refl timeout_stops

Run-IsSettled_example : IsSettled run_idle.0
Run-IsSettled_example = Run-IsSettled ann (add_queue (new plain sample) 1) 0 run_idle.0 run_idle.1

abbrev ann_identity : AuthIdentity
ann_identity = record { client_id = text "ann"; tenant_id = text "acme" }

abbrev registered : AppState plain
registered = (begin_connection (new plain sample) 1 (text "acme:news") ann_identity).0

-- A direct message comes before the `Ready` event.
abbrev overtaken : AppState plain
overtaken = (try_send registered 1 (OutboundMessage.binary (7 ∷ []))).0

abbrev ready : Option Bytes
ready =
    tagged_codec.to_vec_named (ServerEvent.ready (extract_topic (text "acme:news")) (text "ann"))

abbrev opened : Session plain
opened = spawned ann (send_ready overtaken 1 ready).0 0

abbrev written_one : Session plain
written_one = session_write ann opened message true

one_queued : queued_at overtaken 1 ≡ OutboundMessage.binary (7 ∷ []) ∷ []
unfolding try_send subscribe next_connection_id register_client new insert get ℕ_discrete waiting
one_queued = refl

room_left : length (queued_at overtaken 1) < 16
room_left = rw one_queued (omega arith)

ready_encoded : ready ≡ some (text "rnews")
unfolding extract_topic
ready_encoded = refl

written_one_going : written_one.ends.of_writer ≡ none
unfolding session_write settle writer_turn write_received send_ready send_encoded try_send
    register_client next_connection_id subscribe insert get new ℕ_discrete
written_one_going = refl

Run-greeting_example :
    (more : List Message) × (delivery ann written_one
      ≡ map into_ws_message (queued_at overtaken 1) ++ Message.binary (text "rnews") ∷ more)
unfolding new
Run-greeting_example =
    Run-greeting ann (new plain sample) (text "acme:news") ann_identity overtaken (text "rnews") 0
      written_one (sent nothing 1 (OutboundMessage.binary (7 ∷ []))) room_left ready_encoded
      (next here (write message true refl)) written_one_going
