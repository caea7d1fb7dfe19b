-- ===== src/Api/Direct.antt =====
-- What a direct message over HTTP does, and what its response says of that.
use rust_ws_server.Base.{
  ℕ_discrete, ℕ, ◌≡◌, ◌≢◌, ◌⊎◌, inl, inr, refl, Bool, true, false, [], ◌∷◌, ◌++◌, Option, none,
  some, Result, ok, err, Text, Option-cases,
}
use rust_ws_server.Auth.{AuthIdentity}
use rust_ws_server.External.{External}
use rust_ws_server.Handshake.{HeaderMap}
use rust_ws_server.Protocol.{Bytes, ServerEvent, OutboundMessage}
use rust_ws_server.State.{AppState, ClientHandle, send_to_client}
use rust_ws_server.State.Clients.{
  handle_of, queued_at, send_to_client_absent, send_to_client-Answered,
}
use rust_ws_server.Api.{
  DirectBody, Response, unauthorized, published, publish_failed, direct_ok, direct_not_found,
  direct_failed, resolve_identity, direct_sent, direct_encoded, direct_as, api_direct,
}

module _ {ext : External} where
  -- The message joins the queue of the client that the tenant has under the name, and no other.
  abbrev pub Reaches : AppState ext → Text → Text → Bytes → AppState ext → Type 0
  Reaches s to tenant m s' =
      (h : ClientHandle) × (handle_of s to tenant ≡ some h)
      × (queued_at s' h.sender ≡ queued_at s h.sender ++ OutboundMessage.binary m ∷ [])
      × ((q : ℕ) → q ≢ h.sender → queued_at s' q ≡ queued_at s q)

  send_to_client-Reaches :
      (s : AppState ext) (to tenant : Text) (m : Bytes)
      → let (s', r) = send_to_client s to tenant m in
        ((r ≡ true) × Reaches s to tenant m s')
        ⊎ ((r ≡ false) × ((q : ℕ) → queued_at s' q ≡ queued_at s q))
  send_to_client-Reaches s to tenant m = elim (Option-cases (handle_of s to tenant)) [
    | inl e ↦ rw (send_to_client_absent s to tenant m e) (inr (refl, λ q. refl))
    | inr (h, e) ↦
        let (own, others) = send_to_client-Answered s to tenant m h e in
        elim own [
          | inl (sent, joined) ↦ inl (sent, (h, e, joined, others))
          | inr (unsent, same) ↦ inr (
            unsent,
            λ q. elim (ℕ_discrete q h.sender) [ yes at ↦ rw at same | no ne ↦ others q ne ],
          )
        ]
  ]

  -- Success is for the identity of the request, and its event is in the queue of the client that
  -- the identity's tenant has under the name; after any other response no queue has changed.
  abbrev pub Directs : AppState ext → HeaderMap → DirectBody ext → AppState ext × Response → Type 0
  Directs s headers body (s', r) = elim r [
    | direct_ok ↦
        (id : AuthIdentity) × (m : Bytes) × (resolve_identity s.auth headers ≡ ok id)
        × (ext.codec.to_vec_named
              (ServerEvent.direct_message id.client_id body.to body.request_id body.payload)
            ≡ some m)
        × Reaches s body.to id.tenant_id m s'
    | unauthorized _ ↦ (q : ℕ) → queued_at s' q ≡ queued_at s q
    | direct_not_found _ ↦ (q : ℕ) → queued_at s' q ≡ queued_at s q
    | direct_failed _ ↦ (q : ℕ) → queued_at s' q ≡ queued_at s q
    | published _ ↦ (q : ℕ) → queued_at s' q ≡ queued_at s q
    | publish_failed _ ↦ (q : ℕ) → queued_at s' q ≡ queued_at s q
  ]

  direct_sent-Directs :
      (s s' : AppState ext) (headers : HeaderMap) (body : DirectBody ext) (id : AuthIdentity)
      (m : Bytes) (r : Bool)
      → resolve_identity s.auth headers ≡ ok id
      → ext.codec.to_vec_named
          (ServerEvent.direct_message id.client_id body.to body.request_id body.payload)
        ≡ some m
      → ((r ≡ true) × Reaches s body.to id.tenant_id m s')
        ⊎ ((r ≡ false) × ((q : ℕ) → queued_at s' q ≡ queued_at s q))
      → Directs s headers body (direct_sent (s', r))
  unfolding direct_sent
  direct_sent-Directs s s' headers body id m true e c (inl (_, reached)) = (id, m, e, c, reached)
  direct_sent-Directs s s' headers body id m true e c (inr (bad, _)) = absurd cc
  direct_sent-Directs s s' headers body id m false e c (inl (bad, _)) = absurd cc
  direct_sent-Directs s s' headers body id m false e c (inr (_, same)) = same

  direct_encoded-Directs :
      (s : AppState ext) (headers : HeaderMap) (body : DirectBody ext) (id : AuthIdentity)
      (encoded : Option Bytes)
      → resolve_identity s.auth headers ≡ ok id
      → ext.codec.to_vec_named
          (ServerEvent.direct_message id.client_id body.to body.request_id body.payload)
        ≡ encoded
      → Directs s headers body (direct_encoded s body.to id.tenant_id encoded)
  unfolding direct_encoded
  direct_encoded-Directs s headers body id (some m) e c =
      let (s', r) = send_to_client s body.to id.tenant_id m in
      direct_sent-Directs s s' headers body id m r e c
        (send_to_client-Reaches s body.to id.tenant_id m)
  direct_encoded-Directs s headers body id none e c = λ q. refl

  direct_as-Directs :
      (s : AppState ext) (headers : HeaderMap) (body : DirectBody ext)
      (r : Result AuthIdentity Text)
      → resolve_identity s.auth headers ≡ r
      → Directs s headers body (direct_as s body r)
  unfolding direct_as
  direct_as-Directs s headers body (ok id) e = direct_encoded-Directs s headers body id _ e refl
  direct_as-Directs s headers body (err message) e = λ q. refl

  -- A direct message over HTTP that is reported as sent is for the identity of the request, and its
  -- encoded event has joined the queue of the client that the identity's tenant has under the name,
  -- and no other queue. After any other response every queue is as it was.
  pub api_direct-Directs :
      (s : AppState ext) (headers : HeaderMap) (body : DirectBody ext)
      → Directs s headers body (api_direct s headers body)
  unfolding api_direct
  api_direct-Directs s headers body =
      direct_as-Directs s headers body (resolve_identity s.auth headers) refl
