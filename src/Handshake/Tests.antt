-- ===== src/Handshake/Tests.antt =====
-- Requests to a server with sample settings.
use rust_ws_server.Base.{
  ◌+◌, ◌<◌, ◌^◌, ◌≡◌, ◌≢◌, refl, [], ◌∷◌, ◌++◌, none, some, Text, text, Text-discrete, arith,
}
use rust_ws_server.Auth
use rust_ws_server.IpLimiter
use rust_ws_server.Base.Map.{get}
use rust_ws_server.Config.{Config}
use rust_ws_server.External.Model.{plain, sample}
use rust_ws_server.External.Tokens.{plain_jwt}
use rust_ws_server.External.{External}
use rust_ws_server.Net.{SocketAddr, v4}
use rust_ws_server.State.{AppState, new}
use rust_ws_server.Str.{trim}
use rust_ws_server.Str.Split.{IsFree}
use rust_ws_server.Handshake.{
  acquire_ip, acquire_ip_from, after_ip, after_limit, after_login, identify, check_token, WsQuery,
  HeaderMap, unauthorized, rejected, ws_handler,
}
use rust_ws_server.Handshake.Login.{IsAuthentic, ws_handler-IsAuthentic, ws_handler_bad_key}
use rust_ws_server.State.Tenants.{Holds, new-Holds}
use rust_ws_server.Handshake.Permits.{Settles, permits_left, ip_connections, ws_handler-Settles}

abbrev peer : SocketAddr
peer = record { ip = v4 9; port = 4000 }

abbrev query : WsQuery
query = record {
  topic = text "news";
  client_id = some (text "ann");
  tenant_id = none;
  token = none;
}

-- What a client sent, with what the proxy appended.
abbrev forwarded : HeaderMap
forwarded = (text "x-forwarded-for", text "7" ++ b',' ∷ text " 9") ∷ []

abbrev start : AppState plain
start = new plain sample

ws_handler-IsAuthentic_example :
    IsAuthentic start.auth query (ws_handler start peer forwarded query 0).1
ws_handler-IsAuthentic_example = ws_handler-IsAuthentic start peer forwarded query 0

few : ip_connections start (v4 9) + 1 < 2 ^ 32
unfolding new IpLimiter.from_config get
few = omega arith

forwarded_value :
    get Text-discrete (text "x-forwarded-for") forwarded ≡ some (text "7" ++ b',' ∷ text " 9")
unfolding get Text-discrete
forwarded_value = refl

parsed_seven : plain.parse_ip (trim (text "7")) ≡ some (v4 b'7')
unfolding trim
parsed_seven = refl

ws_handler-Settles_example :
    Settles
      (v4 9)
      (permits_left start)
      (ip_connections start (v4 9))
      (ws_handler start peer forwarded query 0)
ws_handler-Settles_example = ws_handler-Settles start peer forwarded query 0 (v4 9) few

seven-IsFree : IsFree b',' (text "7")
seven-IsFree = ground arith

-- Settings with a public key, on a parser that takes none.
abbrev keyless : External
keyless = record plain { jwt = record plain_jwt { from_ed_pem = λ s. none } }

abbrev with_key : Config
with_key = record sample { jwt_public_key = some (text "key") }

no_parser : Auth.pem_key keyless.jwt (text "key") ≡ none
unfolding Auth.pem_key
no_parser = refl

ws_handler_bad_key_example :
    IsAuthentic {jwt = keyless.jwt} none query
      (ws_handler (new keyless with_key) peer forwarded query 0).1
    × ((message : Text)
        → (ws_handler (new keyless with_key) peer forwarded query 0).1
          ≢ rejected unauthorized message)
ws_handler_bad_key_example =
    ws_handler_bad_key keyless with_key (text "key") peer forwarded query 0 refl refl no_parser

start-Holds : Holds start 2 []
start-Holds = new-Holds sample 2 refl

-- A request without a token to a server with a secret.
abbrev with_secret : Config
with_secret = record sample { jwt_secret = some (text "secret"); ip_max_concurrent = none }

turned_away :
    (ws_handler (new plain with_secret) peer forwarded query 0).1
    ≡ rejected unauthorized (text "missing token\n")
unfolding ws_handler new Auth.from_config IpLimiter.from_config acquire_ip acquire_ip_from after_ip
    after_limit after_login identify check_token
turned_away = refl
