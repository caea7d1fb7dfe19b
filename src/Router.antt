-- ===== src/Router.antt =====
-- src/server.rs: `router`, `healthz`, `readyz` and `metrics`: one function of every request that
-- the routes take. Which request goes to which route, and the rendering of answers, is axum's.
pub mod Guarded
mod Tests
use rust_ws_server.Base.{ℕ, Option, none, Text, text}
use rust_ws_server.Api.{PublishBody, DirectBody, Response, extract_bearer, api_publish, api_direct}
use rust_ws_server.External.{External}
use rust_ws_server.Handshake.{WsQuery, HeaderMap, Handshake, ws_handler}
use rust_ws_server.Metrics.Render.{render_prometheus}
use rust_ws_server.Net.{SocketAddr}
use rust_ws_server.State.{AppState}

-- What axum extracts for the handler of a route.
pub data Request (ext : External) : Type 0 where
  to_healthz to_readyz to_metrics : Request ext
  to_ws : (peer : SocketAddr) → HeaderMap → WsQuery → Request ext
  to_publish : HeaderMap → PublishBody ext → Request ext
  to_direct : HeaderMap → DirectBody ext → Request ext

pub data Method : Type 0 where
  get post : Method

pub data Answer : Type 0 where
  body : Text → Answer
  handshake : Handshake → Answer
  response : Response → Answer

unfoldable pub healthz : Text
healthz = text "ok\n"

unfoldable pub readyz : Text
readyz = text "ready\n"

module _ {ext : External} where
  unfoldable pub metrics : AppState ext → Text
  metrics s = render_prometheus s.metrics

  -- The routes.
  unfoldable pub route_of : Request ext → Method × Text
  route_of to_healthz = (get, text "/healthz")
  route_of to_readyz = (get, text "/readyz")
  route_of to_metrics = (get, text "/metrics")
  route_of (to_ws peer headers query) = (get, text "/ws")
  route_of (to_publish headers b) = (post, text "/api/publish")
  route_of (to_direct headers b) = (post, text "/api/direct")

  unfoldable pub handle : AppState ext → Request ext → (now : ℕ) → AppState ext × Answer
  handle s to_healthz now = (s, body healthz)
  handle s to_readyz now = (s, body readyz)
  handle s to_metrics now = (s, body (metrics s))
  handle s (to_ws peer headers query) now =
      let (s', h) = ws_handler s peer headers query now in (s', handshake h)
  handle s (to_publish headers b) now = let (s', r) = api_publish s headers b in (s', response r)
  handle s (to_direct headers b) now = let (s', r) = api_direct s headers b in (s', response r)

  -- Where a request has its token.
  abbrev pub token_of : Request ext → Option Text
  token_of to_healthz = none
  token_of to_readyz = none
  token_of to_metrics = none
  token_of (to_ws peer headers query) = query.token
  token_of (to_publish headers b) = extract_bearer headers
  token_of (to_direct headers b) = extract_bearer headers
