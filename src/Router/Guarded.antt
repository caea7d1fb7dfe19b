-- ===== src/Router/Guarded.antt =====
-- What a request does that has no accepted token.
use rust_ws_server.Base.{ℕ, ◌≡◌, ◌≢◌, refl, subst, Option, none, some, Result, ok, err, Text}
use rust_ws_server.Api.{
  unauthorized, check_bearer, resolve_identity, extract_bearer, mapped, publish_as, direct_as,
  api_publish, api_direct,
}
use rust_ws_server.Auth
use rust_ws_server.Auth.{AuthVerifier, AuthIdentity, AuthError}
use rust_ws_server.External.{External, JwtApi}
use rust_ws_server.Handshake.{Handshake, rejected, upgraded, ws_handler, WsQuery}
use rust_ws_server.Handshake.Login.{IsAuthentic, ws_handler-IsAuthentic}
use rust_ws_server.Server.Handshakes.{ws_handler-Kept}
use rust_ws_server.State.{AppState}
use rust_ws_server.Router.{
  Request, to_healthz, to_readyz, to_metrics, to_ws, to_publish, to_direct, Answer, body, handshake,
  response, handle, token_of,
}

-- The verifier accepts no such token.
abbrev pub IsRefused : {jwt : JwtApi} → AuthVerifier jwt → Option Text → Type 0
IsRefused verifier given =
    (token : Text) (id : AuthIdentity) → given ≡ some token → Auth.verify verifier token ≢ ok id

-- A request to open a connection is rejected, one to the API is unauthorized.
abbrev pub IsDenied : Answer → Type 0
IsDenied (body t) = Unit
IsDenied (handshake (rejected status message)) = Unit
IsDenied (handshake (upgraded topic id p has)) = ⊥
IsDenied (response r) = (message : Text) × (r ≡ unauthorized message)

module _ {ext : External} where
  -- What others see of a request: who is registered and connected, the messages that wait, the
  -- topics, and the rates.
  abbrev pub IsUnseen : AppState ext → AppState ext → Type 0
  IsUnseen s s' =
      (s'.clients ≡ s.clients)
      × (s'.topics ≡ s.topics)
      × (s'.queues ≡ s.queues)
      × (s'.tenant_rate_limits ≡ s.tenant_rate_limits)
      × (s'.metrics.active_connections ≡ s.metrics.active_connections)

mapped_refused :
    (r : Result AuthIdentity AuthError)
    → ((id : AuthIdentity) → r ≢ ok id)
    → (message : Text) × (mapped r ≡ err message)
unfolding mapped
mapped_refused (ok id) refused = absurd (refused id refl)
mapped_refused (err error) refused = (_, refl)

check_bearer_refused :
    {jwt : JwtApi} (verifier : AuthVerifier jwt) (given : Option Text)
    → IsRefused verifier given
    → (message : Text) × (check_bearer verifier given ≡ err message)
unfolding check_bearer
check_bearer_refused verifier none refused = (_, refl)
check_bearer_refused verifier (some token) refused =
    mapped_refused (Auth.verify verifier token) (λ id e. refused token id refl e)

handshake_refused :
    {jwt : JwtApi} (auth : Option (AuthVerifier jwt)) (verifier : AuthVerifier jwt)
    (query : WsQuery) (h : Handshake)
    → auth ≡ some verifier
    → IsRefused verifier query.token
    → IsAuthentic auth query h
    → IsDenied (handshake h)
handshake_refused auth verifier query (rejected status message) e refused a = tt
handshake_refused auth verifier query (upgraded topic id p has) e refused a =
    let (_, (token, given, good)) =
      subst (λ k. IsAuthentic k query (upgraded topic id p has)) e a in
    refused token id given good

-- Where a verifier is configured and accepts no token of a request, the request is denied, if it is
-- not for one of the routes about the server itself, and leaves the registrations, the topics, the
-- queues, the rates of the tenants and the number of active connections as they were.
pub handle_refused :
    (ext : External) (s : AppState ext) (request : Request ext) (now : ℕ)
    (verifier : AuthVerifier ext.jwt)
    → s.auth ≡ some verifier
    → IsRefused verifier (token_of request)
    → let (s', answer) = handle s request now in IsDenied answer × IsUnseen s s'
unfolding handle api_publish api_direct resolve_identity publish_as direct_as
handle_refused ext s to_healthz now verifier e refused = (tt, (refl, refl, refl, refl, refl))
handle_refused ext s to_readyz now verifier e refused = (tt, (refl, refl, refl, refl, refl))
handle_refused ext s to_metrics now verifier e refused = (tt, (refl, refl, refl, refl, refl))
handle_refused ext s (to_ws peer headers query) now verifier e refused =
    let k = ws_handler-Kept s peer headers query now in
    (
      handshake_refused s.auth verifier query (ws_handler s peer headers query now).1 e refused
          (ws_handler-IsAuthentic s peer headers query now),
      (k.clients, k.topics, k.queues, k.buckets, k.active),
    )
handle_refused ext s (to_publish headers b) now verifier e refused =
    let (message, denied) = check_bearer_refused verifier (extract_bearer headers) refused in
    rw (e, handle, denied) ((message, refl), (refl, refl, refl, refl, refl))
handle_refused ext s (to_direct headers b) now verifier e refused =
    let (message, denied) = check_bearer_refused verifier (extract_bearer headers) refused in
    rw (e, handle, denied) ((message, refl), (refl, refl, refl, refl, refl))
