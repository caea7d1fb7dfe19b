-- ===== src/Connection/Tasks/Session.antt =====
-- src/server.rs, `connection_loop`: the tasks of a connection taking turns, and how they end.
use rust_ws_server.Base.{
  ℕ, ℕ_discrete, ◌≡◌, Bool, true, false, List, [], ◌∷◌, ◌++◌, ◌⊎◌, Option, none, some, Text,
}
use rust_ws_server.Base.Map.{get, insert}
use rust_ws_server.Connection.Tasks.{
  Outcome, Joined, cancelled, panicked, task_result, ConnectionTask, reader, writer, fanout,
  name_of, Due, Heard, reader_outcome, writer_turn, fanout_turn,
}
use rust_ws_server.External.{External}
use rust_ws_server.Messages.Effects.{Effects}
use rust_ws_server.Messages.Reader.{Incoming, reader_turn}
use rust_ws_server.Protocol.{Message}
use rust_ws_server.RateLimiter
use rust_ws_server.RateLimiter.{RateLimiter}
use rust_ws_server.State.{AppState, unregister_client, set_topic, topic_sender}

-- What the tasks of a connection share.
pub record Place : Type 0 where
  pub tx : ℕ
  pub topic_key : Text
  pub tenant_id : Text
  pub client_id : Text
  pub connection_id : ℕ

-- What awaiting each task gives, once it has ended.
pub record Ends : Type 0 where
  pub of_reader : Option Joined
  pub of_writer : Option Joined
  pub of_fanout : Option Joined

abbrev pub end_of : Ends → ConnectionTask → Option Joined
end_of e reader = e.of_reader
end_of e writer = e.of_writer
end_of e fanout = e.of_fanout

unfoldable pub set_end : Ends → ConnectionTask → Joined → Ends
set_end e reader r = record e { of_reader = some r }
set_end e writer r = record e { of_writer = some r }
set_end e fanout r = record e { of_fanout = some r }

-- The tasks that the loop aborts and awaits, by the one that it selected.
unfoldable pub aborts : ConnectionTask → List ConnectionTask
aborts reader = fanout ∷ writer ∷ []
aborts writer = reader ∷ fanout ∷ []
aborts fanout = reader ∷ writer ∷ []

abbrev pub IsAmong : ConnectionTask → List ConnectionTask → Type 0
IsAmong task [] = ⊥
IsAmong task (t ∷ ts) = (t ≡ task) ⊎ IsAmong task ts

-- Awaiting each of these tasks has come to its end.
abbrev pub AllEnded : Ends → List ConnectionTask → Type 0
AllEnded e [] = Unit
AllEnded e (task ∷ tasks) = ((r : Joined) × (end_of e task ≡ some r)) × AllEnded e tasks

-- What went to the socket; the ends of the tasks; the task that `select!` found, with its result;
-- and whether the loop has returned.
pub record Session (ext : External) : Type 0 where
  pub state : AppState ext
  pub limiter : RateLimiter
  pub wire : List Message
  pub ends : Ends
  pub selected : Option (ConnectionTask × Outcome)
  pub over : Bool

module _ {ext : External} (place : Place) where
  -- A task that ends drops what it owns: the writer the end of the queue from which it receives,
  -- the fan-out its receiver of the topic.
  unfoldable pub let_go : AppState ext → ConnectionTask → AppState ext
  let_go s reader = s
  let_go s writer = elim (get ℕ_discrete place.tx s.queues) [
    | some queue ↦ record s { queues = insert ℕ_discrete place.tx (ext.mpsc.close queue) s.queues }
    | none ↦ s
  ]
  let_go s fanout =
      set_topic s place.topic_key (ext.broadcast.unsubscribe (topic_sender s place.topic_key))

  -- The task ends with an outcome, or goes on.
  unfoldable pub settle : Session ext → ConnectionTask → Option Joined → Session ext
  unfolding set_end let_go
  settle s task none = s
  settle s task (some r) = record s { state = let_go s.state task; ends = set_end s.ends task r }

  unfoldable pub session_read : Session ext → Incoming → (error : Text) → (now : ℕ) → Session ext
  unfolding settle
  session_read s incoming error now =
      let turn =
        reader_turn s.state s.limiter place.tx place.topic_key place.tenant_id place.client_id
          incoming now in
      settle (record s { state = turn.state; limiter = turn.limiter }) reader
        (reader_outcome error turn.next)

  unfoldable pub session_write : Session ext → Due → (taken : Bool) → Session ext
  unfolding settle writer_turn
  session_write s due taken =
      let (state, messages, outcome) = writer_turn s.state place.tx due taken in
      settle (record s { state = state; wire = s.wire ++ messages }) writer outcome

  unfoldable pub session_fan : Session ext → Heard → Session ext
  unfolding settle fanout_turn
  session_fan s heard =
      let (state, outcome) = fanout_turn s.state place.tx heard in
      settle (record s { state = state }) fanout outcome

  -- After the tasks the client is unregistered, and the loop returns.
  unfoldable pub return_from : Session ext → Session ext
  return_from s = record s {
    state = unregister_client s.state place.client_id place.tenant_id place.connection_id;
    over = true;
  }

  -- The tasks take turns in any order, and other connections come in between, with messages and
  -- with what leaves this queue alone. The loop selects a task that has ended, aborts the
  -- others, and returns when it has awaited those.
  pub data Step (s : Session ext) : Session ext → Type 0 where
    read :
        (incoming : Incoming) (error : Text) (now : ℕ)
        → s.ends.of_reader ≡ none
        → Step s (session_read s incoming error now)
    write :
        (due : Due) (taken : Bool) → s.ends.of_writer ≡ none → Step s (session_write s due taken)
    fan : (heard : Heard) → s.ends.of_fanout ≡ none → Step s (session_fan s heard)
    crashed :
        (task : ConnectionTask) (error : Text)
        → end_of s.ends task ≡ none
        → Step s (settle s task (some (panicked error)))
    told : (s' : AppState ext) → Effects s.state s' → Step s (record s { state = s' })
    unrelated :
        (s' : AppState ext)
        → get ℕ_discrete place.tx s'.queues ≡ get ℕ_discrete place.tx s.state.queues
        → Step s (record s { state = s' })
    selects :
        (task : ConnectionTask) (r : Joined)
        → s.selected ≡ none
        → end_of s.ends task ≡ some r
        → Step s (record s { selected = some (task, task_result (name_of task) r) })
    aborted :
        (task first : ConnectionTask) (result : Outcome)
        → s.selected ≡ some (first, result)
        → IsAmong task (aborts first)
        → end_of s.ends task ≡ none
        → Step s (settle s task (some cancelled))
    left :
        (first : ConnectionTask) (result : Outcome)
        → s.selected ≡ some (first, result)
        → AllEnded s.ends (aborts first)
        → s.over ≡ false
        → Step s (return_from s)

  pub data Run (s : Session ext) : Session ext → Type 0 where
    here : Run s s
    next : {t u : Session ext} → Run s t → Step t u → Run s u

  -- The loop with its tasks just spawned.
  abbrev pub spawned : AppState ext → (now : ℕ) → Session ext
  spawned s now = record {
    state = s;
    limiter = RateLimiter.new s.config.max_messages_per_second s.config.message_burst now;
    wire = [];
    ends = record { of_reader = none; of_writer = none; of_fanout = none };
    selected = none;
    over = false;
  }
