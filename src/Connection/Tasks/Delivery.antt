-- ===== src/Connection/Tasks/Delivery.antt =====
-- What waits in the queue of a connection reaches the client in order, while its writer goes on.
use rust_ws_server.Base.{
  ◌≡◌, refl, sym, ◌∙◌, ap, Bool, List, [], ◌++◌, map, Option, none, some, Option-cases, inl, inr,
}
use mathlib.Core.List.{append-nil, append_assoc, map-append}
use rust_ws_server.Connection.Tasks.{
  Joined, cancelled, panicked, ConnectionTask, reader, writer, fanout, Due, reader_outcome,
  writer_turn, fanout_turn,
}
use rust_ws_server.Connection.Tasks.Order.{Step-end_of}
use rust_ws_server.Connection.Tasks.Session.{
  Place, Session, let_go, set_end, settle, session_read, session_write, session_fan, return_from,
  Step, read, write, fan, crashed, told, unrelated, selects, aborted, left, Run, here, next,
}
use rust_ws_server.External.{External}
use rust_ws_server.Messages.Effects.{nothing}
use rust_ws_server.Messages.Queues.{Extends, Effects-Extends}
use rust_ws_server.Messages.Reader.{reader_turn}
use rust_ws_server.Messages.Turns.{reader_turn-Effects}
use rust_ws_server.Protocol.{Message, into_ws_message}
use rust_ws_server.State.Clients.{waiting, queued_at}
use rust_ws_server.Connection.Tasks.Wire.{
  without_pings, without_pings-append, to_write, same_queue-queued_at, writer_turn-to_write,
  fanout_turn-Effects, queues-unregister_client,
}

module _ {ext : External} (place : Place) where
  -- What the client has got and is to get.
  abbrev pub delivery : Session ext → List Message
  delivery s = without_pings s.wire ++ to_write s.state place.tx

  abbrev pub Follows : Session ext → Session ext → Type 0
  Follows s t = (more : List Message) × (delivery t ≡ delivery s ++ more)

  Follows-eq : (s t : Session ext) → delivery t ≡ delivery s → Follows s t
  Follows-eq s t e = ([], e ∙ sym (append-nil (delivery s)))

  Follows-trans : (s t u : Session ext) → Follows s t → Follows t u → Follows s u
  Follows-trans s t u (more, e) (more', e') =
      (more ++ more', e' ∙ ap (λ l. l ++ more') e ∙ append_assoc (delivery s) more more')

  Extends-Follows :
      (s t : Session ext) → t.wire ≡ s.wire → Extends place.tx s.state t.state → Follows s t
  Extends-Follows s t w (more, e) = (
    map into_ws_message more,
    ap (λ wire. without_pings wire ++ to_write t.state place.tx) w
        ∙ ap (λ l. without_pings s.wire ++ map into_ws_message l) e
        ∙ ap (λ l. without_pings s.wire ++ l)
            (map-append into_ws_message (queued_at s.state place.tx) more)
        ∙ sym (
            append_assoc (without_pings s.wire) (to_write s.state place.tx)
              (map into_ws_message more)),
  )

  settle-delivery :
      (s : Session ext) (task : ConnectionTask) (o : Option Joined)
      → (settle place s task o).ends.of_writer ≡ none
      → delivery (settle place s task o) ≡ delivery s
  unfolding settle set_end let_go
  settle-delivery s task none h = refl
  settle-delivery s reader (some r) h = refl
  settle-delivery s writer (some r) h = absurd (cc h)
  settle-delivery s fanout (some r) h = refl

  settle-Follows :
      (s t : Session ext) (task : ConnectionTask) (o : Option Joined)
      → (settle place t task o).ends.of_writer ≡ none
      → Follows s t
      → Follows s (settle place t task o)
  settle-Follows s t task o h (more, e) = (more, settle-delivery t task o h ∙ e)

  settle-writer_none :
      (s : Session ext) (o : Option Joined)
      → (settle place s writer o).ends.of_writer ≡ none
      → o ≡ none
  unfolding settle set_end
  settle-writer_none s none h = refl
  settle-writer_none s (some r) h = absurd (cc h)

  -- The writer's turn moves a message from the queue to the socket.
  write-delivery :
      (s : Session ext) (due : Due) (taken : Bool)
      → (session_write place s due taken).ends.of_writer ≡ none
      → delivery (session_write place s due taken) ≡ delivery s
  unfolding session_write
  write-delivery s due taken h =
      let (state, messages, o) = writer_turn s.state place.tx due taken in
      let t : Session ext = record s { state = state; wire = s.wire ++ messages } in
      settle-delivery t writer o h
      ∙ ap (λ l. l ++ to_write state place.tx) (without_pings-append s.wire messages)
      ∙ append_assoc (without_pings s.wire) (without_pings messages) (to_write state place.tx)
      ∙ ap (λ l. without_pings s.wire ++ l)
          (writer_turn-to_write s.state place.tx due taken (settle-writer_none t o h))

  -- A step of a connection whose writer goes on.
  Step-Follows : (s t : Session ext) → Step place s t → t.ends.of_writer ≡ none → Follows s t
  unfolding session_read session_write session_fan return_from
  Step-Follows s t (read incoming error now going) h =
      let turn =
        reader_turn s.state s.limiter place.tx place.topic_key place.tenant_id place.client_id
          incoming now in
      let t : Session ext = record s { state = turn.state; limiter = turn.limiter } in
      settle-Follows s t reader (reader_outcome error turn.next) h (
        Extends-Follows s t refl (
          Effects-Extends
            (reader_turn-Effects s.state s.state s.limiter place.tx place.topic_key place.tenant_id
              place.client_id incoming now nothing)
            place.tx))
  Step-Follows s t (write due taken going) h =
      Follows-eq s (session_write place s due taken) (write-delivery s due taken h)
  Step-Follows s t (fan heard going) h =
      let (state, o) = fanout_turn s.state place.tx heard in
      let t : Session ext = record s { state = state } in
      settle-Follows s t fanout o h (
        Extends-Follows s t refl
          (Effects-Extends (fanout_turn-Effects s.state place.tx heard) place.tx))
  Step-Follows s t (crashed task error going) h =
      Follows-eq s t (settle-delivery s task (some (panicked error)) h)
  Step-Follows s t (told s' d) h = Extends-Follows s t refl (Effects-Extends d place.tx)
  Step-Follows s t (unrelated s' e) h =
      Follows-eq s (record s { state = s' })
        (ap (λ l. without_pings s.wire ++ map into_ws_message l)
          (same_queue-queued_at s' s.state place.tx e))
  Step-Follows s t (selects task x un e) h = Follows-eq s t refl
  Step-Follows s t (aborted task first result sel among going) h =
      Follows-eq s t (settle-delivery s task (some cancelled) h)
  Step-Follows s t (left first result sel all live) h = Follows-eq s (return_from place s) (
      ap (λ queues. without_pings s.wire ++ map into_ws_message (waiting ext queues place.tx))
        (queues-unregister_client s.state place.client_id place.tenant_id place.connection_id))

  -- The writer of a step that ends with it going went on before.
  going_before :
      (s t : Session ext) → Step place s t → t.ends.of_writer ≡ none → s.ends.of_writer ≡ none
  going_before s t step h = elim (Option-cases s.ends.of_writer) [
    | inl e ↦ e
    | inr (r, e) ↦ absurd (cc (Step-end_of place s t writer r step e, h))
  ]

  -- While its writer goes on, what a connection has got, but for the heartbeats, with what it is to
  -- get only grows at the end, whatever order the tasks and the other connections take their turns
  -- in: no message that was queued is lost, doubled or overtaken.
  pub Run-Follows : (s t : Session ext) → Run place s t → t.ends.of_writer ≡ none → Follows s t
  Run-Follows s t here h = Follows-eq s s refl
  Run-Follows s t (next {t = u} run step) h =
      Follows-trans s u t (Run-Follows s u run (going_before u t step h)) (Step-Follows u t step h)
