-- ===== src/Router/Tests.antt =====
-- A call with an empty token, of a server with a secret.
use rust_ws_server.Base.{◌≡◌, refl, sym, subst, [], ◌∷◌, none, some, ok, text, Text-discrete}
use rust_ws_server.Api.{extract_bearer}
use rust_ws_server.Auth.{AuthVerifier, hmac, verify}
use rust_ws_server.Base.Map.{get}
use rust_ws_server.External.Model.{plain, sample}
use rust_ws_server.External.Tokens.{plain_jwt}
use rust_ws_server.Handshake.{HeaderMap}
use rust_ws_server.State.{AppState, new}
use rust_ws_server.Str.{strip_prefix}
use rust_ws_server.Router.{Request, to_publish, post, route_of, handle}
use rust_ws_server.Router.Guarded.{IsRefused, IsDenied, IsUnseen, handle_refused}

abbrev by_secret : AuthVerifier plain_jwt
by_secret = record { decoding = hmac (text "secret"); issuer = none }

abbrev guarded : AppState plain
guarded = record (new plain sample) { auth = some by_secret }

abbrev headers : HeaderMap
headers = (text "authorization", text "Bearer ") ∷ []

abbrev call : Request plain
call = to_publish headers (record { topic = some (text "news"); request_id = none; payload = tt })

call_route : route_of call ≡ (post, text "/api/publish")
unfolding route_of
call_route = refl

empty-IsRefused : IsRefused by_secret (extract_bearer headers)
unfolding extract_bearer get strip_prefix Text-discrete verify
empty-IsRefused token id given good =
    let same : [] ≡ token = cc given in
    absurd (cc (subst (λ t. verify by_secret t ≡ ok id) (sym same) good))

handle_refused_example :
    IsDenied (handle guarded call 5).1 × IsUnseen guarded (handle guarded call 5).0
handle_refused_example = handle_refused plain guarded call 5 by_secret refl empty-IsRefused
