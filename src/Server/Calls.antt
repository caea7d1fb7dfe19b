-- ===== src/Server/Calls.antt =====
-- What follows an admission: turns of readers and calls of the HTTP API are effects of messages, and
-- the beginning of a connection is one but for the count of connections.
use rust_ws_server.Base.{
  ℕ, zero, suc, ◌≡◌, refl, ◌∙◌, Bool, true, false, Option, none, some, Result, ok, err, Text,
}
use rust_ws_server.Auth.{AuthIdentity}
use rust_ws_server.External.{External}
use rust_ws_server.Metrics
use rust_ws_server.Metrics.{fetch_add_1}
use rust_ws_server.Protocol.{Bytes}
use rust_ws_server.State
use rust_ws_server.State.{AppState, send_to_client, subscribe, next_connection_id, register_client}
use rust_ws_server.Api
use rust_ws_server.Api.{
  PublishBody, DirectBody, resolve_identity, count_out, published_to, publish_as, api_publish,
  direct_sent, direct_as, api_direct,
}
use rust_ws_server.Connection.{send_ready, open_connection}
use rust_ws_server.Messages.Effects.{
  Effects, EffectsOf, nothing, counted, announced, count_dropped-Effects, send_encoded-Effects,
  send_to_client-Effects,
}
use rust_ws_server.Handshake.{HeaderMap}
use rust_ws_server.Messages.Turns.{reader_turn-Effects}
use rust_ws_server.Server.{Serves, turned, published, directed}
use rust_ws_server.Server.Core.{Core, core, core-Effects}

module _ {ext : External} {CanRate : Type 0} (s : AppState ext) where
  count_out-Effects :
      (n : ℕ) (t : AppState ext) → EffectsOf CanRate s t → EffectsOf CanRate s (count_out n t)
  unfolding count_out Metrics.message_out
  count_out-Effects zero t h = h
  count_out-Effects (suc n) t h =
      count_out-Effects n (record t { metrics = Metrics.message_out t.metrics }) (counted h _ refl)

  published_to-Effects :
      (t : AppState ext) (n : ℕ)
      → EffectsOf CanRate s t
      → EffectsOf CanRate s (published_to (t, n)).0
  unfolding published_to
  published_to-Effects t zero h = count_dropped-Effects s t h
  published_to-Effects t (suc n) h = count_out-Effects (suc n) t h

  publish_encoded-Effects :
      (t : AppState ext) (key : Text) (m : Option Bytes)
      → EffectsOf CanRate s t
      → EffectsOf CanRate s (Api.publish_encoded t key m).0
  unfolding Api.publish_encoded
  publish_encoded-Effects t key (some m) h =
      let (t', n) = State.publish t key m in published_to-Effects t' n (announced h key m)
  publish_encoded-Effects t key none h = h

  publish_as-Effects :
      (t : AppState ext) (body : PublishBody ext) (r : Result AuthIdentity Text)
      → EffectsOf CanRate s t
      → EffectsOf CanRate s (publish_as t body r).0
  unfolding publish_as
  publish_as-Effects t body (ok id) h = publish_encoded-Effects t _ _ h
  publish_as-Effects t body (err message) h = h

  direct_sent-Effects :
      (t : AppState ext) (r : Bool)
      → EffectsOf CanRate s t
      → EffectsOf CanRate s (direct_sent (t, r)).0
  unfolding direct_sent Metrics.message_out
  direct_sent-Effects t true h = counted h _ refl
  direct_sent-Effects t false h = count_dropped-Effects s t h

  direct_encoded-Effects :
      (t : AppState ext) (to tenant : Text) (m : Option Bytes)
      → EffectsOf CanRate s t
      → EffectsOf CanRate s (Api.direct_encoded t to tenant m).0
  unfolding Api.direct_encoded
  direct_encoded-Effects t to tenant (some m) h =
      let (t', r) = send_to_client t to tenant m in
      direct_sent-Effects t' r (send_to_client-Effects s t to tenant m h)
  direct_encoded-Effects t to tenant none h = h

  direct_as-Effects :
      (t : AppState ext) (body : DirectBody ext) (r : Result AuthIdentity Text)
      → EffectsOf CanRate s t
      → EffectsOf CanRate s (direct_as t body r).0
  unfolding direct_as
  direct_as-Effects t body (ok id) h = direct_encoded-Effects t body.to id.tenant_id _ h
  direct_as-Effects t body (err message) h = h

module _ {ext : External} {CanRate : Type 0} (s : AppState ext) (headers : HeaderMap) where
  pub api_publish-Effects :
      (body : PublishBody ext) → EffectsOf CanRate s (api_publish s headers body).0
  unfolding api_publish
  api_publish-Effects body = publish_as-Effects s s body (resolve_identity s.auth headers) nothing

  pub api_direct-Effects :
      (body : DirectBody ext) → EffectsOf CanRate s (api_direct s headers body).0
  unfolding api_direct
  api_direct-Effects body = direct_as-Effects s s body (resolve_identity s.auth headers) nothing

module _ {ext : External} where
  pub Serves-Effects : {s t : AppState ext} → Serves s t → Effects s t
  Serves-Effects {s} (turned limiter tx key tenant client incoming now) =
      reader_turn-Effects s s limiter tx key tenant client incoming now nothing
  Serves-Effects {s} (published headers body) = api_publish-Effects s headers body
  Serves-Effects {s} (directed headers body) = api_direct-Effects s headers body

  pub send_ready-Effects :
      {CanRate : Type 0} (s : AppState ext) (tx : ℕ) (m : Option Bytes)
      → EffectsOf CanRate s (send_ready s tx m).0
  unfolding send_ready
  send_ready-Effects s tx (some m) = send_encoded-Effects s s tx m nothing
  send_ready-Effects s tx none = nothing

  -- The core with one connection more.
  abbrev pub with_one_more : Core ext → Core ext
  with_one_more c = record c { active = fetch_add_1 c.active }

  pub core-open_connection :
      (s : AppState ext) (tx : ℕ) (raw : Text) (id : AuthIdentity)
      → core (open_connection s tx raw id).0 ≡ with_one_more (core s)
  unfolding open_connection subscribe next_connection_id register_client Metrics.connection_accepted
  core-open_connection s tx raw id = core-Effects (send_ready-Effects _ tx _) ∙ refl
