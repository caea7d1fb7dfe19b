-- ===== src/Messages/Effects.antt =====
-- What handling messages can do to the shared state, one effect after another.
use rust_ws_server.Base.{
  ℕ, zero, suc, ◌≡◌, refl, Bool, true, false, Option, none, some, Text, Option-cases, inl, inr,
}
use rust_ws_server.External.{External, Sent, delivered, full, closed}
use rust_ws_server.Metrics
use rust_ws_server.Metrics.{Metrics}
use rust_ws_server.Protocol.{Bytes, ClientEvent, ServerEvent, OutboundMessage}
use rust_ws_server.State
use rust_ws_server.State.{
  AppState, ClientHandle, ClientKey-discrete, try_send, send_to_client, check_tenant_rate,
}
use rust_ws_server.Base.Map.{get}
use rust_ws_server.Messages.{
  count_dropped, count_protocol_error, after_send, send_encoded, send_error, after_publish,
  publish_encoded, after_direct, direct_encoded, pong_encoded, handle_client_event, handle_parsed,
}

module _ {ext : External} where
  -- A message to a queue, a count (never of the active connections), a publication, and, where
  -- `CanRate` has a proof, the check of a tenant's rate.
  pub data EffectsOf (CanRate : Type 0) (s : AppState ext) : AppState ext → Type 0 where
    nothing : EffectsOf CanRate s s
    sent :
        {t : AppState ext}
        → EffectsOf CanRate s t
        → (tx : ℕ) (m : OutboundMessage) → EffectsOf CanRate s (try_send t tx m).0
    counted :
        {t : AppState ext}
        → EffectsOf CanRate s t
        → (m : Metrics) → m.active_connections ≡ t.metrics.active_connections
        → EffectsOf CanRate s (record t { metrics = m })
    announced :
        {t : AppState ext}
        → EffectsOf CanRate s t
        → (key : Text) (m : Bytes) → EffectsOf CanRate s (State.publish t key m).0
    rated :
        {t : AppState ext}
        → EffectsOf CanRate s t
        → (tenant : Text) (now : ℕ) → CanRate
        → EffectsOf CanRate s (check_tenant_rate t tenant now).0

  abbrev pub Effects : AppState ext → AppState ext → Type 0
  Effects = EffectsOf Unit

module _ {ext : External} {CanRate : Type 0} (s : AppState ext) where
  pub count_dropped-Effects :
      (t : AppState ext) → EffectsOf CanRate s t → EffectsOf CanRate s (count_dropped t)
  unfolding Metrics.message_dropped
  count_dropped-Effects t h = counted h _ refl

  pub count_protocol_error-Effects :
      (t : AppState ext) → EffectsOf CanRate s t → EffectsOf CanRate s (count_protocol_error t)
  unfolding Metrics.protocol_error
  count_protocol_error-Effects t h = counted h _ refl

  pub after_send-Effects :
      (t : AppState ext) (r : Sent) → EffectsOf CanRate s t → EffectsOf CanRate s (after_send t r).0
  unfolding after_send
  after_send-Effects t delivered h = h
  after_send-Effects t full h = count_dropped-Effects t h
  after_send-Effects t closed h = count_dropped-Effects t h

  pub send_encoded-Effects :
      (t : AppState ext) (tx : ℕ) (m : Bytes)
      → EffectsOf CanRate s t
      → EffectsOf CanRate s (send_encoded t tx m).0
  unfolding send_encoded
  send_encoded-Effects t tx m h =
      let (t', r) = try_send t tx (OutboundMessage.binary m) in
      after_send-Effects t' r (sent h tx (OutboundMessage.binary m))

  pub send_error-Effects :
      (t : AppState ext) (tx : ℕ) (code message : Text)
      → EffectsOf CanRate s t
      → EffectsOf CanRate s (send_error t tx code message)
  unfolding send_error
  send_error-Effects t tx code message h =
      elim (Option-cases (ext.codec.to_vec_named (ServerEvent.error code message))) [
        | inl e ↦ rw (e, send_error) h
        | inr (m, e) ↦ rw (e, send_error) (send_encoded-Effects t tx m h)
      ]

  pub send_to_client-Effects :
      (t : AppState ext) (to tenant : Text) (m : Bytes)
      → EffectsOf CanRate s t
      → EffectsOf CanRate s (send_to_client t to tenant m).0
  unfolding send_to_client
  send_to_client-Effects t to tenant m h =
      elim (Option-cases (get ClientKey-discrete (tenant, to) t.clients)) [
        | inl e ↦ rw (e, send_to_client) h
        | inr (handle, e) ↦ rw (e, send_to_client) (sent h handle.sender (OutboundMessage.binary m))
      ]

  after_publish-Effects :
      (t : AppState ext) (n : ℕ)
      → EffectsOf CanRate s t
      → EffectsOf CanRate s (after_publish (t, n))
  unfolding after_publish
  after_publish-Effects t zero h = count_dropped-Effects t h
  after_publish-Effects t (suc n) h = h

  publish_encoded-Effects :
      (t : AppState ext) (tx : ℕ) (key : Text) (encoded : Option Bytes)
      → EffectsOf CanRate s t
      → EffectsOf CanRate s (publish_encoded t tx key encoded)
  unfolding publish_encoded
  publish_encoded-Effects t tx key (some m) h =
      let (t', n) = State.publish t key m in after_publish-Effects t' n (announced h key m)
  publish_encoded-Effects t tx key none h =
      send_error-Effects (count_protocol_error t) tx _ _ (count_protocol_error-Effects t h)

  after_direct-Effects :
      (t : AppState ext) (tx : ℕ) (r : Bool)
      → EffectsOf CanRate s t
      → EffectsOf CanRate s (after_direct tx (t, r))
  unfolding after_direct
  after_direct-Effects t tx true h = h
  after_direct-Effects t tx false h =
      send_error-Effects (count_dropped t) tx _ _ (count_dropped-Effects t h)

  direct_encoded-Effects :
      (t : AppState ext) (tx : ℕ) (to tenant : Text) (encoded : Option Bytes)
      → EffectsOf CanRate s t
      → EffectsOf CanRate s (direct_encoded t tx to tenant encoded)
  unfolding direct_encoded
  direct_encoded-Effects t tx to tenant (some m) h =
      let (t', r) = send_to_client t to tenant m in
      after_direct-Effects t' tx r (send_to_client-Effects t to tenant m h)
  direct_encoded-Effects t tx to tenant none h =
      send_error-Effects (count_protocol_error t) tx _ _ (count_protocol_error-Effects t h)

  pong_encoded-Effects :
      (t : AppState ext) (tx : ℕ) (encoded : Option Bytes)
      → EffectsOf CanRate s t
      → EffectsOf CanRate s (pong_encoded t tx encoded)
  unfolding pong_encoded
  pong_encoded-Effects t tx (some m) h = send_encoded-Effects t tx m h
  pong_encoded-Effects t tx none h = send_error-Effects t tx _ _ h

  handle_client_event-Effects :
      (t : AppState ext) (tx : ℕ) (key tenant client : Text) (event : ClientEvent ext.codec.Value)
      → EffectsOf CanRate s t
      → EffectsOf CanRate s (handle_client_event t tx key tenant client event)
  unfolding handle_client_event
  handle_client_event-Effects t tx key tenant client (ClientEvent.publish topic r p) h =
      publish_encoded-Effects t tx _ _ h
  handle_client_event-Effects t tx key tenant client (ClientEvent.direct to r p) h =
      direct_encoded-Effects t tx to tenant _ h
  handle_client_event-Effects t tx key tenant client (ClientEvent.ping r p) h =
      pong_encoded-Effects t tx _ h

  pub handle_parsed-Effects :
      (t : AppState ext) (tx : ℕ) (key tenant client code message : Text)
      (event : Option (ClientEvent ext.codec.Value))
      → EffectsOf CanRate s t
      → EffectsOf CanRate s (handle_parsed t tx key tenant client code message event)
  unfolding handle_parsed
  handle_parsed-Effects t tx key tenant client code message (some event) h =
      handle_client_event-Effects t tx key tenant client event h
  handle_parsed-Effects t tx key tenant client code message none h =
      send_error-Effects (count_protocol_error t) tx code message (count_protocol_error-Effects t h)
