-- ===== src/Messages/Frame.antt =====
-- What sending, publishing and answering leave as it is.
use rust_ws_server.Base.{
  ℕ, zero, suc, ◌≡◌, ◌≢◌, inl, inr, refl, ◌∙◌, ap, Bool, true, false, Option, none, some, Text,
  text, Text-discrete, Option-cases, arith,
}
use rust_ws_server.Base.Map.{get}
use rust_ws_server.External.{External, Sent, delivered, full, closed}
use rust_ws_server.Protocol.{Bytes, ServerEvent, OutboundMessage}
use rust_ws_server.State
use rust_ws_server.State.{AppState, ClientHandle, try_send, send_to_client, check_tenant_rate}
use rust_ws_server.State.Clients.{
  handle_of, queued_at, queued_at-try_send_ne, send_to_client_isolated,
}
use rust_ws_server.State.Topics.{topics-publish_ne}
use rust_ws_server.Messages.{
  after_send, send_encoded, send_error, after_publish, publish_encoded, after_direct,
  direct_encoded, pong_encoded, count_protocol_error, count_dropped,
}

module _ {ext : External} where
  -- The channel of the key, what waits in the queue, and the registrations are as they were.
  abbrev pub Untouched : Text → ℕ → AppState ext → AppState ext → Type 0
  Untouched key q s s' =
      (get Text-discrete key s'.topics ≡ get Text-discrete key s.topics)
      × (queued_at s' q ≡ queued_at s q)
      × (s'.clients ≡ s.clients)

  pub Untouched-trans :
      (key : Text) (q : ℕ) (s t u : AppState ext)
      → Untouched key q s t
      → Untouched key q t u
      → Untouched key q s u
  Untouched-trans key q s t u (a, b, c) (a', b', c') = (a' ∙ a, b' ∙ b, c' ∙ c)

  pub try_send-frame :
      (s : AppState ext) (tx : ℕ) (m : OutboundMessage)
      → ((try_send s tx m).0.topics ≡ s.topics) × ((try_send s tx m).0.clients ≡ s.clients)
  unfolding try_send
  try_send-frame s tx m = (ground arith, ground arith)

  pub try_send-Untouched :
      (key : Text) (q : ℕ) (s : AppState ext) (tx : ℕ) (m : OutboundMessage)
      → q ≢ tx
      → Untouched key q s (try_send s tx m).0
  try_send-Untouched key q s tx m ne =
      let (topics, clients) = try_send-frame s tx m in
      (ap (get Text-discrete key) topics, queued_at-try_send_ne s tx q m ne, clients)

  pub after_send-Untouched :
      (key : Text) (q : ℕ) (s s' : AppState ext) (sent : Sent)
      → Untouched key q s s'
      → Untouched key q s (after_send s' sent).0
  unfolding after_send
  after_send-Untouched key q s s' delivered h = h
  after_send-Untouched key q s s' full h = h
  after_send-Untouched key q s s' closed h = h

  pub send_encoded-Untouched :
      (key : Text) (q : ℕ) (s : AppState ext) (tx : ℕ) (b : Bytes)
      → q ≢ tx
      → Untouched key q s (send_encoded s tx b).0
  unfolding send_encoded
  send_encoded-Untouched key q s tx b ne =
      let (s', sent) = try_send s tx (OutboundMessage.binary b) in
      after_send-Untouched key q s s' sent (try_send-Untouched key q s tx _ ne)

  pub send_error-Untouched :
      (key : Text) (q : ℕ) (s : AppState ext) (tx : ℕ) (code message : Text)
      → q ≢ tx
      → Untouched key q s (send_error s tx code message)
  unfolding send_error
  send_error-Untouched key q s tx code message ne =
      elim (Option-cases (ext.codec.to_vec_named (ServerEvent.error code message))) [
        | inl e ↦ rw (e, send_error) (refl, refl, refl)
        | inr (b, e) ↦ rw (e, send_error) (send_encoded-Untouched key q s tx b ne)
      ]

  pub then_error-Untouched :
      (key : Text) (q : ℕ) (s s' : AppState ext) (tx : ℕ) (code message : Text)
      → q ≢ tx
      → Untouched key q s s'
      → Untouched key q s (send_error s' tx code message)
  then_error-Untouched key q s s' tx code message ne h =
      Untouched-trans key q s s' (send_error s' tx code message) h
        (send_error-Untouched key q s' tx code message ne)

  pub after_publish-Untouched :
      (key : Text) (q : ℕ) (s s' : AppState ext) (n : ℕ)
      → Untouched key q s s'
      → Untouched key q s (after_publish (s', n))
  unfolding after_publish
  after_publish-Untouched key q s s' zero h = h
  after_publish-Untouched key q s s' (suc n) h = h

  pub publish-frame :
      (s : AppState ext) (k : Text) (m : Bytes)
      → ((State.publish s k m).0.queues ≡ s.queues) × ((State.publish s k m).0.clients ≡ s.clients)
  unfolding State.publish
  publish-frame s k m = (refl, refl)

  pub publish_encoded-Untouched :
      (key : Text) (q : ℕ) (s : AppState ext) (tx : ℕ) (k : Text) (encoded : Option Bytes)
      → key ≢ k
      → q ≢ tx
      → Untouched key q s (publish_encoded s tx k encoded)
  unfolding publish_encoded State.publish
  publish_encoded-Untouched key q s tx k (some b) other ne =
      after_publish-Untouched key q s (State.publish s k b).0 (State.publish s k b).1
        (topics-publish_ne s k key b other, refl, refl)
  publish_encoded-Untouched key q s tx k none other ne =
      send_error-Untouched key q (count_protocol_error s) tx _ _ ne

  -- The queue is not that of the connection, nor that of a client registered in its tenant.
  abbrev pub IsOutside : AppState ext → ℕ → Text → ℕ → Type 0
  IsOutside s tx tenant q =
      (q ≢ tx) × ((c : Text) (h : ClientHandle) → handle_of s c tenant ≡ some h → q ≢ h.sender)

  pub send_to_client-frame :
      (s : AppState ext) (to tenant : Text) (m : Bytes)
      → ((send_to_client s to tenant m).0.topics ≡ s.topics)
        × ((send_to_client s to tenant m).0.clients ≡ s.clients)
  unfolding send_to_client try_send
  send_to_client-frame s to tenant m = (ground arith, ground arith)

  pub after_direct-Untouched :
      (key : Text) (q : ℕ) (s s' : AppState ext) (tx : ℕ) (r : Bool)
      → q ≢ tx
      → Untouched key q s s'
      → Untouched key q s (after_direct tx (s', r))
  unfolding after_direct
  after_direct-Untouched key q s s' tx true ne h = h
  after_direct-Untouched key q s s' tx false ne h =
      then_error-Untouched key q s (count_dropped s') tx (text "client_not_found")
        (text "target client is not online") ne h

  pub direct_encoded-Untouched :
      (key : Text) (q : ℕ) (s : AppState ext) (tx : ℕ) (to tenant : Text) (encoded : Option Bytes)
      → IsOutside s tx tenant q
      → Untouched key q s (direct_encoded s tx to tenant encoded)
  unfolding direct_encoded
  direct_encoded-Untouched key q s tx to tenant (some b) (ne, outside) =
      let (topics, clients) = send_to_client-frame s to tenant b in
      let sent = send_to_client_isolated s to tenant b q outside in
      after_direct-Untouched key q s (send_to_client s to tenant b).0 tx
        (send_to_client s to tenant b).1 ne (ap (get Text-discrete key) topics, sent, clients)
  direct_encoded-Untouched key q s tx to tenant none (ne, outside) =
      send_error-Untouched key q (count_protocol_error s) tx _ _ ne

  pub pong_encoded-Untouched :
      (key : Text) (q : ℕ) (s : AppState ext) (tx : ℕ) (encoded : Option Bytes)
      → q ≢ tx
      → Untouched key q s (pong_encoded s tx encoded)
  unfolding pong_encoded
  pong_encoded-Untouched key q s tx (some b) ne = send_encoded-Untouched key q s tx b ne
  pong_encoded-Untouched key q s tx none ne = send_error-Untouched key q s tx _ _ ne
