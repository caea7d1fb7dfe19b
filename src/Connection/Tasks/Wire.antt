-- ===== src/Connection/Tasks/Wire.antt =====
-- What the turns of a connection's tasks do to what is on the wire and to what waits for it.
use rust_ws_server.Base.{
  ℕ, ℕ_discrete, ◌≡◌, refl, sym, ◌∙◌, ap, Bool, true, false, List, [], ◌∷◌, ◌++◌, map, none, some,
  Option-cases, Bool-cases, Text, inl, inr, arith,
}
use rust_ws_server.Base.Map.{get}
use rust_ws_server.Connection.Tasks.{
  Due, heartbeat, message, Heard, raw, lagged, closed, writer_turn, write_received, fanout_turn,
  passed_on,
}
use rust_ws_server.External.{External, Received, pending, finished, oldest}
use rust_ws_server.Messages.{send_encoded}
use rust_ws_server.Messages.Effects.{Effects, nothing, send_encoded-Effects, count_dropped-Effects}
use rust_ws_server.Protocol.{OutboundMessage, Message, into_ws_message}
use rust_ws_server.State.{AppState, unregister_client, remove_client}
use rust_ws_server.State.Clients.{waiting, queued_at, waiting-insert_self, waiting-get}

-- What went to the socket but for the heartbeats.
unfoldable pub without_pings : List Message → List Message
without_pings [] = []
without_pings (Message.ping payload ∷ ms) = without_pings ms
without_pings (Message.binary bytes ∷ ms) = Message.binary bytes ∷ without_pings ms
without_pings (Message.pong payload ∷ ms) = Message.pong payload ∷ without_pings ms
without_pings (Message.close code reason ∷ ms) = Message.close code reason ∷ without_pings ms

pub without_pings-append :
    (ms ns : List Message) → without_pings (ms ++ ns) ≡ without_pings ms ++ without_pings ns
unfolding without_pings
without_pings-append [] ns = refl
without_pings-append (Message.ping b ∷ ms) ns = without_pings-append ms ns
without_pings-append (Message.binary b ∷ ms) ns =
    ap (λ l. Message.binary b ∷ l) (without_pings-append ms ns)
without_pings-append (Message.pong b ∷ ms) ns =
    ap (λ l. Message.pong b ∷ l) (without_pings-append ms ns)
without_pings-append (Message.close c r ∷ ms) ns =
    ap (λ l. Message.close c r ∷ l) (without_pings-append ms ns)

without_pings-message :
    (m : OutboundMessage) → without_pings (into_ws_message m ∷ []) ≡ into_ws_message m ∷ []
unfolding without_pings into_ws_message
without_pings-message (OutboundMessage.binary b) = refl
without_pings-message (OutboundMessage.pong b) = refl
without_pings-message (OutboundMessage.close c r) = refl

module _ {ext : External} where
  -- What waits in a queue, as the socket is to get it.
  abbrev pub to_write : AppState ext → ℕ → List Message
  to_write s tx = map into_ws_message (queued_at s tx)

  pub same_queue-queued_at :
      (s t : AppState ext) (tx : ℕ)
      → get ℕ_discrete tx s.queues ≡ get ℕ_discrete tx t.queues
      → queued_at s tx ≡ queued_at t tx
  unfolding waiting
  same_queue-queued_at s t tx e = rw (e, waiting) refl

  -- By the outcome of `recv`.
  write_received-to_write :
      (s : AppState ext) (tx : ℕ) (taken : Bool) (q : ext.mpsc.Queue) (r : Received ext.mpsc.Queue)
      → ext.mpsc.recv q ≡ r
      → get ℕ_discrete tx s.queues ≡ some q
      → (write_received s tx taken r).2 ≡ none
      → without_pings (write_received s tx taken r).1 ++ to_write (write_received s tx taken r).0 tx
        ≡ to_write s tx
  unfolding write_received without_pings
  write_received-to_write s tx taken q pending e g h = refl
  write_received-to_write s tx taken q finished e g h = refl
  write_received-to_write s tx true q (oldest m q') e g h =
      let front = waiting-get ext s.queues tx q g ∙ ext.mpsc.recv-oldest q q' m e in
      ap (λ l. l ++ to_write (write_received s tx true (oldest m q')).0 tx)
        (without_pings-message m)
      ∙ ap (λ l. into_ws_message m ∷ map into_ws_message l) (waiting-insert_self ext s.queues tx q')
      ∙ sym (ap (map into_ws_message) front)
  write_received-to_write s tx false q (oldest m q') e g h = absurd (cc h)

  pub writer_turn-message :
      (s : AppState ext) (tx : ℕ) (taken : Bool) (q : ext.mpsc.Queue)
      → get ℕ_discrete tx s.queues ≡ some q
      → writer_turn s tx message taken ≡ write_received s tx taken (ext.mpsc.recv q)
  unfolding writer_turn
  writer_turn-message s tx taken q e = rw (e, writer_turn) refl

  -- A writer that goes on has moved the oldest message to the socket, or nothing.
  pub writer_turn-to_write :
      (s : AppState ext) (tx : ℕ) (due : Due) (taken : Bool)
      → (writer_turn s tx due taken).2 ≡ none
      → without_pings (writer_turn s tx due taken).1 ++ to_write (writer_turn s tx due taken).0 tx
        ≡ to_write s tx
  unfolding writer_turn without_pings
  writer_turn-to_write s tx heartbeat true h = refl
  writer_turn-to_write s tx heartbeat false h = absurd (cc h)
  writer_turn-to_write s tx message taken h = elim (Option-cases (get ℕ_discrete tx s.queues)) [
    | inl e ↦ rw (e, writer_turn, without_pings) refl
    | inr (q, e) ↦ rw (writer_turn-message s tx taken q e) (
        write_received-to_write s tx taken q (ext.mpsc.recv q) refl e
          (ap (λ x. x.2) (sym (writer_turn-message s tx taken q e)) ∙ h))
  ]

  pub fanout_turn-Effects :
      (s : AppState ext) (tx : ℕ) (heard : Heard) → Effects s (fanout_turn s tx heard).0
  unfolding fanout_turn passed_on
  fanout_turn-Effects s tx (raw bytes) = elim (Bool-cases (send_encoded s tx bytes).1) [
    | inl e ↦ rw (e, passed_on) (send_encoded-Effects s s tx bytes nothing)
    | inr e ↦ rw (e, passed_on) (send_encoded-Effects s s tx bytes nothing)
  ]
  fanout_turn-Effects s tx (lagged skipped) = count_dropped-Effects s s nothing
  fanout_turn-Effects s tx closed = nothing

  pub queues-unregister_client :
      (s : AppState ext) (client tenant : Text) (id : ℕ)
      → (unregister_client s client tenant id).queues ≡ s.queues
  unfolding unregister_client remove_client
  queues-unregister_client s client tenant id = ground arith
