-- ===== src/Connection/Tasks/Greeting.antt =====
-- Where the `Ready` event stands among what a client gets.
use rust_ws_server.Base.{
  ℕ, ℕ_discrete, ◌<◌, ◌≡◌, refl, subst, false, sym, ◌∙◌, ap, List, [], ◌∷◌, ◌++◌, map, none, some,
  Text, length, inl, inr, Option-cases, arith,
}
use rust_ws_server.Auth.{AuthIdentity}
use rust_ws_server.Base.Map.{get, insert, get-insert_self, get-insert_ne}
use rust_ws_server.Connection.{send_ready, begin_connection}
use rust_ws_server.Connection.Tasks.Delivery.{delivery, Run-Follows}
use rust_ws_server.Connection.Tasks.Session.{Place, Session, spawned, Run}
use rust_ws_server.Connection.Tasks.Wire.{without_pings}
use rust_ws_server.External.{External, Sent, delivered, full, closed}
use mathlib.Core.List.{map-append, append_assoc}
use rust_ws_server.Messages.Queues.{queues-check_tenant_rate}
use rust_ws_server.Messages.Effects.{Effects, nothing, sent, counted, announced, rated}
use rust_ws_server.Messages.{after_send, send_encoded}
use rust_ws_server.Protocol.{Bytes, ServerEvent, OutboundMessage, Message, into_ws_message}
use rust_ws_server.State
use rust_ws_server.State.{
  AppState, try_send, check_tenant_rate, subscribe, next_connection_id, register_client,
}
use rust_ws_server.State.Clients.{waiting, queued_at, waiting-insert_self, waiting-get}
use rust_ws_server.Topic.{extract_topic}

module _ {ext : External} where
  after_send-queues : (s : AppState ext) (r : Sent) → (after_send s r).0.queues ≡ s.queues
  unfolding after_send
  after_send-queues s delivered = refl
  after_send-queues s full = refl
  after_send-queues s closed = refl

  -- The queue of the connection is there, open and with its capacity.
  abbrev IsOpen : AppState ext → ℕ → ℕ → Type 0
  IsOpen s tx capacity =
      (q : ext.mpsc.Queue) × (get ℕ_discrete tx s.queues ≡ some q)
      × (ext.mpsc.is_closed q ≡ false)
      × (ext.mpsc.capacity q ≡ capacity)

  try_send-IsOpen :
      (s : AppState ext) (to : ℕ) (m : OutboundMessage) (tx capacity : ℕ)
      → IsOpen s tx capacity
      → IsOpen (try_send s to m).0 tx capacity
  unfolding try_send
  try_send-IsOpen s to m tx capacity (q, e, open_, room) = elim (ℕ_discrete to tx) [
    | yes same ↦
        let q' = (ext.mpsc.try_send m q).0 in
        let own = subst (λ k. get ℕ_discrete k s.queues ≡ some q) (sym same) e in
        rw (own, try_send)
          (
            q',
            subst (λ k. get ℕ_discrete k (insert ℕ_discrete to q' s.queues) ≡ some q') same
                (get-insert_self ℕ_discrete to q' s.queues),
            ext.mpsc.is_closed-try_send m q ∙ open_,
            ext.mpsc.capacity-try_send m q ∙ room,
          )
    | no differ ↦ elim (Option-cases (get ℕ_discrete to s.queues)) [
      | inl g ↦ rw (g, try_send) (q, e, open_, room)
      | inr (other, g) ↦
          rw (g, try_send)
            (
              q,
              get-insert_ne ℕ_discrete tx to (ext.mpsc.try_send m other).0 s.queues
                    (λ same. differ (sym same))
                  ∙ e,
              open_,
              room,
            )
    ]
  ]

  Effects-IsOpen :
      {s t : AppState ext} (e : Effects s t) (tx capacity : ℕ)
      → IsOpen s tx capacity
      → IsOpen t tx capacity
  unfolding State.publish
  Effects-IsOpen nothing tx capacity h = h
  Effects-IsOpen (sent {t} e to m) tx capacity h =
      try_send-IsOpen t to m tx capacity (Effects-IsOpen e tx capacity h)
  Effects-IsOpen (counted e m k) tx capacity h = Effects-IsOpen e tx capacity h
  Effects-IsOpen (announced e key m) tx capacity h = Effects-IsOpen e tx capacity h
  Effects-IsOpen (rated {t} e tenant now _) tx capacity h =
      let (q, found, open_, room) = Effects-IsOpen e tx capacity h in
      (q, ap (get ℕ_discrete tx) (queues-check_tenant_rate t tenant now) ∙ found, open_, room)

  -- A message to a queue that is open and has room.
  send_ready_last :
      (s : AppState ext) (tx : ℕ) (encoded : Bytes) (capacity : ℕ)
      → IsOpen s tx capacity
      → length (queued_at s tx) < capacity
      → queued_at (send_ready s tx (some encoded)).0 tx
        ≡ queued_at s tx ++ OutboundMessage.binary encoded ∷ []
  unfolding send_ready send_encoded try_send
  send_ready_last s tx encoded capacity (q, e, open_, room) free =
      let m = OutboundMessage.binary encoded in
      let q' = (ext.mpsc.try_send m q).0 in
      let here = waiting-get ext s.queues tx q e in
      let fits : length (ext.mpsc.queued q) < ext.mpsc.capacity q =
        omega (arith, ap length here, free, room) in
      ap (λ queues. waiting ext queues tx)
        (after_send-queues (try_send s tx m).0 (try_send s tx m).1)
      ∙ elim (ext.mpsc.try_send_lem m q) [
        | inl (_, joined) ↦
            rw (e, try_send, waiting-insert_self ext s.queues tx q')
              (joined ∙ ap (λ l. l ++ m ∷ []) (sym here))
        | inr (refused, _) ↦ absurd (refused (ext.mpsc.try_send_room m q open_ fits))
      ]

module _ {ext : External} (place : Place) where
  -- After the registration of a connection others may act. If its queue has room when the `Ready`
  -- event is queued, and while its writer goes on, what it has got, but for the heartbeats, with what
  -- it is to get begins with what those others have sent to it meanwhile, and then comes `Ready`: it
  -- is the first where nobody sent anything.
  pub Run-greeting :
      (s : AppState ext) (topic_key : Text) (identity : AuthIdentity) (between : AppState ext)
      (encoded : Bytes) (now : ℕ) (t : Session ext)
      → Effects (begin_connection s place.tx topic_key identity).0 between
      → length (queued_at between place.tx) < s.config.client_queue_capacity
      → ext.codec.to_vec_named (ServerEvent.ready (extract_topic topic_key) identity.client_id)
        ≡ some encoded
      → Run place
          (spawned place
            (send_ready between place.tx (
              ext.codec.to_vec_named
                (ServerEvent.ready (extract_topic topic_key) identity.client_id))).0
            now)
          t
      → t.ends.of_writer ≡ none
      → (more : List Message) × (delivery place t
          ≡ map into_ws_message (queued_at between place.tx) ++ Message.binary encoded ∷ more)
  unfolding without_pings into_ws_message register_client next_connection_id subscribe
  Run-greeting s topic_key identity between encoded now t others room e run going =
      let n = s.config.client_queue_capacity in
      let q = ext.mpsc.channel n in
      let begun = (begin_connection s place.tx topic_key identity).0 in
      let open_ = Effects-IsOpen others place.tx n (
        q,
        get-insert_self ℕ_discrete place.tx q s.queues,
        ext.mpsc.is_closed-channel n,
        ext.mpsc.capacity-channel n,
      ) in
      let greeted =
        (send_ready between place.tx (
          ext.codec.to_vec_named
            (ServerEvent.ready (extract_topic topic_key) identity.client_id))).0 in
      let (more, grown) = Run-Follows place (spawned place greeted now) t run going in
      let queued = queued_at between place.tx in
      let m = OutboundMessage.binary encoded in
      let last : queued_at greeted place.tx ≡ queued ++ m ∷ [] =
        rw e (send_ready_last between place.tx encoded n open_ room) in
      (
        more,
        grown
            ∙ ap (λ l. map into_ws_message l ++ more) last
            ∙ ap (λ l. l ++ more) (map-append into_ws_message queued (m ∷ []))
            ∙ append_assoc (map into_ws_message queued) (Message.binary encoded ∷ []) more,
      )
