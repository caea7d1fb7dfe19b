-- ===== src/Api/Counting.antt =====
-- What a direct message over HTTP adds to the count of outbound messages, until it is written.
use rust_ws_server.Base.{
  ℕ, ℕ_discrete, ◌≡◌, refl, ◌∙◌, ap, Bool, true, false, Option, none, some, Result, ok, err, Text,
  Option-cases, inl, inr, arith,
}
use rust_ws_server.Api.{
  DirectBody, direct_ok, direct_sent, direct_encoded, direct_as, api_direct, resolve_identity,
}
use rust_ws_server.Auth.{AuthIdentity}
use rust_ws_server.Base.Map.{get}
use rust_ws_server.Connection.Tasks.{message, writer_turn, write_received}
use rust_ws_server.Connection.Tasks.Wire.{writer_turn-message}
use rust_ws_server.External.{External, oldest}
use rust_ws_server.Handshake.{HeaderMap}
use rust_ws_server.Metrics
use rust_ws_server.Metrics.{fetch_add_1}
use rust_ws_server.Protocol.{Bytes, OutboundMessage}
use rust_ws_server.State.{AppState, send_to_client, try_send, ClientKey-discrete}

module _ {ext : External} where
  metrics-try_send :
      (s : AppState ext) (tx : ℕ) (m : OutboundMessage) → (try_send s tx m).0.metrics ≡ s.metrics
  unfolding try_send
  metrics-try_send s tx m = ground arith

  metrics-send_to_client :
      (s : AppState ext) (to tenant : Text) (m : Bytes)
      → (send_to_client s to tenant m).0.metrics ≡ s.metrics
  unfolding send_to_client
  metrics-send_to_client s to tenant m =
      elim (Option-cases (get ClientKey-discrete (tenant, to) s.clients)) [
        | inl e ↦ rw (e, send_to_client) refl
        | inr (handle, e) ↦
            rw (e, send_to_client) (metrics-try_send s handle.sender (OutboundMessage.binary m))
      ]

  direct_sent_counts :
      (s : AppState ext) (r : Bool)
      → (direct_sent (s, r)).1 ≡ direct_ok
      → (direct_sent (s, r)).0.metrics.messages_out ≡ fetch_add_1 s.metrics.messages_out
  unfolding direct_sent Metrics.message_out
  direct_sent_counts s true e = refl
  direct_sent_counts s false e = absurd cc

  direct_encoded_counts :
      (s : AppState ext) (to tenant : Text) (encoded : Option Bytes)
      → (direct_encoded s to tenant encoded).1 ≡ direct_ok
      → (direct_encoded s to tenant encoded).0.metrics.messages_out
        ≡ fetch_add_1 s.metrics.messages_out
  unfolding direct_encoded
  direct_encoded_counts s to tenant (some m) e =
      let (s', r) = send_to_client s to tenant m in
      direct_sent_counts s' r e
      ∙ ap (λ k. fetch_add_1 k.messages_out) (metrics-send_to_client s to tenant m)
  direct_encoded_counts s to tenant none e = absurd cc

  direct_as_counts :
      (s : AppState ext) (body : DirectBody ext) (r : Result AuthIdentity Text)
      → (direct_as s body r).1 ≡ direct_ok
      → (direct_as s body r).0.metrics.messages_out ≡ fetch_add_1 s.metrics.messages_out
  unfolding direct_as
  direct_as_counts s body (ok id) e = direct_encoded_counts s body.to id.tenant_id _ e
  direct_as_counts s body (err m) e = absurd cc

  -- A direct message over HTTP that is reported as sent counts as one outbound message, and the
  -- message that a writer then writes counts as another.
  pub direct_counted_twice :
      (s : AppState ext) (headers : HeaderMap) (body : DirectBody ext) (tx : ℕ)
      (queue rest : ext.mpsc.Queue) (m : OutboundMessage)
      → let (s', r) = api_direct s headers body in
        r ≡ direct_ok
        → get ℕ_discrete tx s'.queues ≡ some queue
        → ext.mpsc.recv queue ≡ oldest m rest
        → (writer_turn s' tx message true).0.metrics.messages_out
          ≡ fetch_add_1 (fetch_add_1 s.metrics.messages_out)
  unfolding api_direct write_received Metrics.message_out
  direct_counted_twice s headers body tx queue rest m e found received =
      let s' = (api_direct s headers body).0 in
      rw (writer_turn-message s' tx true queue found, received)
        (ap fetch_add_1 (direct_as_counts s body (resolve_identity s.auth headers) e))
