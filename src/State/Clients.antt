-- ===== src/State/Clients.antt =====
-- Direct messages reach the client of that name in that tenant, and no other queue.
use rust_ws_server.Base.{
  ℕ, ◌≡◌, ◌≢◌, ◌⊎◌, inl, inr, refl, ap, Bool, true, false, List, [], ◌∷◌, ◌++◌, Option, none, some,
  Text, ℕ_discrete, Option-cases, arith, if◌then◌else◌, ◌==◌, ite,
}
use rust_ws_server.Base.Map.{
  Map, get, insert, get-insert_self, get-insert_ne, get-remove_self, get-remove_ne,
}
use rust_ws_server.External.{External}
use rust_ws_server.Protocol.{Bytes, OutboundMessage}
use rust_ws_server.State.{
  AppState, ClientHandle, ClientKey, ClientKey-discrete, is_ok, register_client, is_registered,
  remove_client, unregister_client, try_send, send_to_client,
}

module _ (ext : External) where
  -- What waits in a queue; nothing where there is no queue.
  unfoldable pub waiting : Map ℕ ext.mpsc.Queue → ℕ → List OutboundMessage
  waiting queues sender = elim (get ℕ_discrete sender queues) [
    | some queue ↦ ext.mpsc.queued queue
    | none ↦ []
  ]

  pub waiting-insert_self :
      (queues : Map ℕ ext.mpsc.Queue) (sender : ℕ) (q : ext.mpsc.Queue)
      → waiting (insert ℕ_discrete sender q queues) sender ≡ ext.mpsc.queued q
  unfolding waiting
  waiting-insert_self queues sender q = rw (get-insert_self ℕ_discrete sender q queues, waiting)

  waiting-insert_ne :
      (queues : Map ℕ ext.mpsc.Queue) (k sender : ℕ) (q : ext.mpsc.Queue)
      → k ≢ sender
      → waiting (insert ℕ_discrete sender q queues) k ≡ waiting queues k
  unfolding waiting
  waiting-insert_ne queues k sender q ne =
      rw (get-insert_ne ℕ_discrete k sender q queues ne, waiting)

  pub waiting-get :
      (queues : Map ℕ ext.mpsc.Queue) (k : ℕ) (q : ext.mpsc.Queue)
      → get ℕ_discrete k queues ≡ some q
      → waiting queues k ≡ ext.mpsc.queued q
  unfolding waiting
  waiting-get queues k q e = rw (e, waiting)

module _ {ext : External} where
  abbrev pub handle_of : AppState ext → Text → Text → Option ClientHandle
  handle_of s client tenant = get ClientKey-discrete (tenant, client) s.clients

  abbrev pub queued_at : AppState ext → ℕ → List OutboundMessage
  queued_at s sender = waiting ext s.queues sender

  handle_of-register_client :
      (s : AppState ext) (client tenant : Text) (id sender : ℕ)
      → handle_of (register_client s client tenant id sender) client tenant
        ≡ some (record { connection_id = id; sender = sender })
  unfolding register_client
  handle_of-register_client s client tenant id sender = get-insert_self ClientKey-discrete _ _ _

  handle_of-register_client_ne :
      (s : AppState ext) (client tenant c t : Text) (id sender : ℕ)
      → ◌≢◌ {A = ClientKey} (t, c) (tenant, client)
      → handle_of (register_client s client tenant id sender) c t ≡ handle_of s c t
  unfolding register_client
  handle_of-register_client_ne s client tenant c t id sender ne =
      get-insert_ne ClientKey-discrete _ _ _ _ ne

  -- A connection that ends takes away the registration under its name if that is its own, and no
  -- other one: not that of a later connection under the same name, nor that under another name.
  pub handle_of-unregister_client :
      (s : AppState ext) (client tenant : Text) (id : ℕ) (c t : Text) (h : ClientHandle)
      → handle_of s c t ≡ some h
      → handle_of (unregister_client s client tenant id) c t
        ≡ ite
            (ClientKey-discrete (tenant, client) (t, c))
            (if h.connection_id == id then none else some h)
            (some h)
  unfolding unregister_client is_registered remove_client
  handle_of-unregister_client s client tenant id c t h e = ground (
    arith,
    get-remove_self ClientKey-discrete (t, c) s.clients,
    get-remove_ne ClientKey-discrete (t, c) (tenant, client) s.clients,
  )

  -- Between the test and the removal of `unregister_client` another connection may register under
  -- the name; the removal then takes the new registration, and messages no longer reach it.
  pub remove_client_race :
      (s : AppState ext) (client tenant : Text) (id id' sender : ℕ) (m : Bytes)
      → is_registered s client tenant id ≡ true
      → id' ≢ id
      → (send_to_client
          (remove_client (register_client s client tenant id' sender) client tenant)
          client
          tenant
          m).1
        ≡ false
  unfolding send_to_client remove_client
  remove_client_race s client tenant id id' sender m checked new =
      let gone =
        get-remove_self ClientKey-discrete (tenant, client)
          (register_client s client tenant id' sender).clients in
      rw (gone, send_to_client) refl

  abbrev pub Answered : AppState ext → ℕ → OutboundMessage → AppState ext × Bool → Type 0
  Answered s sender m (s', r) =
      ((r ≡ true) × (queued_at s' sender ≡ queued_at s sender ++ m ∷ []))
      ⊎ ((r ≡ false) × (queued_at s' sender ≡ queued_at s sender))

  pub try_send-Answered :
      (s : AppState ext) (sender : ℕ) (m : OutboundMessage)
      → let (s', sent) = try_send s sender m in Answered s sender m (s', is_ok sent)
  unfolding try_send
  try_send-Answered s sender m = elim (Option-cases (get ℕ_discrete sender s.queues)) [
    | inl e ↦ rw (e, try_send) (inr (refl, refl))
    | inr (q, e) ↦
        rw
          (
            e,
            try_send,
            waiting-insert_self ext s.queues sender (ext.mpsc.try_send m q).0,
            waiting-get ext s.queues sender q e,
          )
          (ground (arith, ext.mpsc.try_send_lem m q))
  ]

  pub queued_at-try_send_ne :
      (s : AppState ext) (sender q : ℕ) (m : OutboundMessage)
      → q ≢ sender
      → queued_at (try_send s sender m).0 q ≡ queued_at s q
  unfolding try_send
  queued_at-try_send_ne s sender q m ne = elim (Option-cases (get ℕ_discrete sender s.queues)) [
    | inl e ↦ rw (e, try_send)
    | inr (queue, e) ↦
        rw (e, try_send) (waiting-insert_ne ext s.queues q sender (ext.mpsc.try_send m queue).0 ne)
  ]

  -- A direct message to a name that is not registered in the sender's tenant changes nothing, and
  -- the answer is the same whether or not another tenant has a client of that name.
  pub send_to_client_absent :
      (s : AppState ext) (client tenant : Text) (m : Bytes)
      → handle_of s client tenant ≡ none
      → send_to_client s client tenant m ≡ (s, false)
  unfolding send_to_client
  send_to_client_absent s client tenant m e = rw (e, send_to_client)

  -- A direct message to a registered client joins the end of the queue of that registration or is
  -- reported as not sent, and every other queue stays as it is.
  pub send_to_client-Answered :
      (s : AppState ext) (client tenant : Text) (m : Bytes) (h : ClientHandle)
      → handle_of s client tenant ≡ some h
      → let (s', r) = send_to_client s client tenant m in
        Answered s h.sender (OutboundMessage.binary m) (s', r)
        × ((q : ℕ) → q ≢ h.sender → queued_at s' q ≡ queued_at s q)
  unfolding send_to_client
  send_to_client-Answered s client tenant m h e =
      rw (e, send_to_client)
        (
          try_send-Answered s h.sender (OutboundMessage.binary m),
          λ q ne. queued_at-try_send_ne s h.sender q (OutboundMessage.binary m) ne,
        )

  -- Where no client of the tenant has the queue, no direct message within the tenant gets there.
  pub send_to_client_isolated :
      (s : AppState ext) (client tenant : Text) (m : Bytes) (q : ℕ)
      → ((c : Text) (h : ClientHandle) → handle_of s c tenant ≡ some h → q ≢ h.sender)
      → queued_at (send_to_client s client tenant m).0 q ≡ queued_at s q
  send_to_client_isolated s client tenant m q outside =
      elim (Option-cases (handle_of s client tenant)) [
        | inl e ↦
            ap (λ (p : AppState ext × Bool). queued_at p.0 q)
              (send_to_client_absent s client tenant m e)
        | inr (h, e) ↦ (send_to_client-Answered s client tenant m h e).1 q (outside client h e)
      ]
