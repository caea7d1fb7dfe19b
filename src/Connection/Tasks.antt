-- ===== src/Connection/Tasks.antt =====
-- src/server.rs, `connection_loop`: the turns of the three tasks of a connection. src/state.rs:
-- `into_ws_message`, in Protocol.
pub mod Session
pub mod Listening
pub mod Order
pub mod Wire
pub mod Delivery
pub mod Greeting
pub mod Ending
mod Tests
use rust_ws_server.Base.{
  ℕ, ℕ_discrete, ◌≡◌, Bool, true, false, List, [], ◌∷◌, ◌++◌, Option, none, some, Result, ok, err,
  Text, text, if◌then◌else◌,
}
use rust_ws_server.Base.Map.{get, insert}
use rust_ws_server.External.{External, Received, pending, finished, oldest}
use rust_ws_server.Metrics
use rust_ws_server.Protocol.{Bytes, OutboundMessage, Message, into_ws_message}
use rust_ws_server.RateLimiter
use rust_ws_server.RateLimiter.{RateLimiter}
use rust_ws_server.State.{AppState, unregister_client, set_topic, topic_sender}
use rust_ws_server.Messages.{count_dropped, send_encoded}
use rust_ws_server.Messages.Effects.{Effects}
use rust_ws_server.Messages.Reader.{Incoming, Next, again, stop, failure, reader_turn}

-- `anyhow::Result<()>`, with the text of the error.
abbrev pub Outcome : Type 0
Outcome = Result (Unit {0}) Text

abbrev pub done : Outcome
done = ok tt

-- What awaiting a task gives: its outcome, or a `JoinError`.
pub data Joined : Type 0 where
  returned : Outcome → Joined
  cancelled : Joined
  panicked : (error : Text) → Joined

unfoldable pub task_result : (task_name : Text) → Joined → Outcome
task_result task_name (returned outcome) = outcome
task_result task_name cancelled = done
task_result task_name (panicked error) = err (task_name ++ text " task failed: " ++ error)

pub data ConnectionTask : Type 0 where
  reader writer fanout : ConnectionTask

abbrev pub name_of : ConnectionTask → Text
name_of reader = text "reader"
name_of writer = text "writer"
name_of fanout = text "fanout"

-- What wakes the writer, and whether the socket takes what it is given.
pub data Due : Type 0 where
  heartbeat message : Due

-- What the fan-out's `recv` comes to.
pub data Heard : Type 0 where
  raw : Bytes → Heard
  lagged : (skipped : ℕ) → Heard
  closed : Heard

-- By the outcome of the reader's turn, with the text of the error if a frame is one.
abbrev pub reader_outcome : (error : Text) → Next → Option Joined
reader_outcome error again = none
reader_outcome error stop = some (returned done)
reader_outcome error failure = some (returned (err error))

-- A turn of the writer: the state, what went to the socket, and its outcome if it ends.
abbrev pub Written : External → Type 0
Written ext = AppState ext × List Message × Option Joined

module _ {ext : External} where
  -- By the outcome of `recv`.
  unfoldable pub write_received :
      AppState ext → ℕ → (taken : Bool) → Received ext.mpsc.Queue → Written ext
  write_received s tx taken pending = (s, [], none)
  write_received s tx taken finished = (s, [], some (returned done))
  write_received s tx true (oldest m queue) = (
    record s {
      queues = insert ℕ_discrete tx queue s.queues;
      metrics = Metrics.message_out s.metrics;
    },
    into_ws_message m ∷ [],
    none,
  )
  write_received s tx false (oldest m queue) = (
    record s { queues = insert ℕ_discrete tx queue s.queues },
    [],
    some (returned (err (text "failed to send websocket message"))),
  )

  -- A queue is always there; without one nothing is received.
  unfoldable pub writer_turn : AppState ext → ℕ → Due → (taken : Bool) → Written ext
  unfolding write_received
  writer_turn s tx heartbeat taken =
      if taken
      then (s, Message.ping [] ∷ [], none)
      else (s, [], some (returned (err (text "failed to send websocket ping"))))
  writer_turn s tx message taken = elim (get ℕ_discrete tx s.queues) [
    | some queue ↦ write_received s tx taken (ext.mpsc.recv queue)
    | none ↦ (s, [], none)
  ]

  -- By the answer of `send_encoded`.
  unfoldable pub passed_on : AppState ext × Bool → AppState ext × Option Joined
  passed_on (s, true) = (s, none)
  passed_on (s, false) = (s, some (returned (err (text "client send queue is full or closed"))))

  unfoldable pub fanout_turn : AppState ext → ℕ → Heard → AppState ext × Option Joined
  unfolding passed_on
  fanout_turn s tx (raw bytes) = passed_on (send_encoded s tx bytes)
  fanout_turn s tx (lagged skipped) = (count_dropped s, none)
  fanout_turn s tx closed = (s, some (returned done))
