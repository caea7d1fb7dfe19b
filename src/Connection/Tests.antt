-- ===== src/Connection/Tests.antt =====
-- A connection of "ann" begins and ends.
use rust_ws_server.Base.{◌+◌, ◌-◌, ◌≡◌, refl, true, [], Option, none, some, text}
use rust_ws_server.Auth.{AuthIdentity}
use rust_ws_server.External.Model.{plain, sample}
use rust_ws_server.Handshake.Permits.{held_by, permits_left, ip_connections}
use rust_ws_server.Handshake.{ws_handler}
use rust_ws_server.IpLimiter.{IpPermit}
use mathlib.Core.Option
use rust_ws_server.IpLimiter.Accounting.{open_from}
use rust_ws_server.Net.{v4}
use rust_ws_server.State.{AppState, new, subscribe, next_connection_id}
use rust_ws_server.Connection.{open_connection, close_connection}
use rust_ws_server.Connection.Closing.{tenant_left, given_back, close_connection-Closes}

abbrev ann : AuthIdentity
ann = record { client_id = text "ann"; tenant_id = text "acme" }

first_id : (open_connection (new plain sample) 1 (text "/news") ann).1 ≡ 1
unfolding open_connection new subscribe next_connection_id
first_id = refl

abbrev let_in : AppState plain
let_in =
    (ws_handler (new plain sample) (record { ip = v4 9; port = 4000 }) []
      (record {
        topic = text "news";
        client_id = some (text "ann");
        tenant_id = some (text "acme");
        token = none;
      })
      0).0

abbrev permit : Option IpPermit
permit = some (record { ip = some (v4 9) })

close_connection-Closes_example :
    let s' = close_connection let_in ann 1 true permit true 5 in
    (permits_left s' ≡ permits_left let_in + 1)
    × (ip_connections s' (v4 9) ≡ ip_connections let_in (v4 9) - open_from (v4 9) (held_by permit))
    × (tenant_left s' (text "acme")
        ≡ Option.map
            (λ n. n + given_back true (text "acme") (text "acme"))
            (tenant_left let_in (text "acme")))
close_connection-Closes_example =
    close_connection-Closes let_in ann 1 true permit true 5 (v4 9) (text "acme")
