-- ===== src/Server/Admission.antt =====
-- The permits that are out are those of the connections, and every step keeps it so.
use rust_ws_server.Base.{
  ℕ, ◌+◌, ◌%◌, ◌^◌, ◌<◌, ◌≡◌, sym, ◌∙◌, ap, subst, Bool, List, ◌∷◌, ◌++◌, Option, Text, length,
  arith,
}
use rust_ws_server.Auth.{AuthIdentity}
use rust_ws_server.Config.{Config}
use rust_ws_server.Connection.{open_connection, drop_permits, close_connection}
use rust_ws_server.Connection.Closing.{drop_permits-permits, close_connection-permits}
use rust_ws_server.External.{External}
use rust_ws_server.Handshake.{StatusCode, WsQuery, HeaderMap, rejected, upgraded, ws_handler}
use rust_ws_server.Handshake.Permits.{
  held_by, permits_left, ip_connections, counted_by, Settles, ws_handler-Settles,
}
use rust_ws_server.IpLimiter
use rust_ws_server.IpLimiter.{IpLimiter, IpPermit}
use rust_ws_server.IpLimiter.Accounting.{open_from}
use rust_ws_server.Net.{v4, IpAddr, SocketAddr}
use rust_ws_server.State.{AppState}
use rust_ws_server.Server.{
  upgrading, running, Connection, System, addresses, count_running, running_in, Serves,
}
use rust_ws_server.Server.Core.{core, core-Effects}
use rust_ws_server.Server.Calls.{Serves-Effects, core-open_connection}
use rust_ws_server.Server.Handshakes.{cap_of, Kept, ws_handler-Kept}
use rust_ws_server.Server.Ends.{drop_permits-Kept, close_connection-keeps}
use rust_ws_server.Server.Counting.{
  open_from-append, addresses_middle, addresses_bound, running_middle, length_middle,
}

module _ {ext : External} where
  -- The permits that are out are those of the connections.
  pub record IsAccounted (config : Config) (s : System ext) : Type 0 where
    pub settings : s.state.config ≡ config
    pub cap : cap_of s.state.ip_limiter ≡ cap_of (IpLimiter.from_config config)
    pub limit : permits_left s.state + length s.connections ≡ config.max_connections
    pub ips : (j : IpAddr) → ip_connections s.state j ≡ open_from j (addresses s.connections)
    pub active : s.state.metrics.active_connections ≡ running_in s.connections % 2 ^ 64

  -- A handler that leaves the core alone leaves all of this alone.
  pub IsAccounted-of_core :
      (config : Config) (s : System ext) (s' : AppState ext)
      → core s' ≡ core s.state
      → IsAccounted config s
      → IsAccounted config (record { state = s'; connections = s.connections })
  IsAccounted-of_core config s s' e a = record {
    settings = ap (λ c. c.settings) e ∙ a.settings;
    cap = ap (λ c. cap_of c.limiter) e ∙ a.cap;
    limit = ap (λ c. ext.semaphore.available c.limit + length s.connections) e ∙ a.limit;
    ips = λ j. ap (λ c. counted_by c.limiter j) e ∙ a.ips j;
    active = ap (λ c. c.active) e ∙ a.active;
  }

  pub core-Serves : {s s' : AppState ext} → Serves s s' → core s' ≡ core s
  core-Serves v = core-Effects (Serves-Effects v)

  module _ (config : Config) (small : config.max_connections + 1 < 2 ^ 32) where
    few_ips :
        (s : System ext) (j : IpAddr) → IsAccounted config s → ip_connections s.state j + 1 < 2 ^ 32
    few_ips s j a = omega (arith, a.ips j, addresses_bound j s.connections, a.limit)

    pub refused-IsAccounted :
        (s : System ext) (peer : SocketAddr) (headers : HeaderMap) (query : WsQuery) (now : ℕ)
        (s' : AppState ext) (status : StatusCode) (message : Text)
        → ws_handler s.state peer headers query now ≡ (s', rejected status message)
        → IsAccounted config s
        → IsAccounted config (record { state = s'; connections = s.connections })
    refused-IsAccounted s peer headers query now s' status message e a =
        let kept =
          subst (λ r. Kept s.state r.0) e (ws_handler-Kept s.state peer headers query now) in
        let settled = λ (j : IpAddr).
          subst (Settles j (permits_left s.state) (ip_connections s.state j)) e
            (ws_handler-Settles s.state peer headers query now j (few_ips s j a)) in
        record {
          settings = kept.settings ∙ a.settings;
          cap = kept.cap ∙ a.cap;
          limit = omega (arith, (settled (v4 0)).0, a.limit);
          ips = λ j. (settled j).1 ∙ a.ips j;
          active = kept.active ∙ a.active;
        }

    pub accepted-IsAccounted :
        (s : System ext) (peer : SocketAddr) (headers : HeaderMap) (query : WsQuery) (now : ℕ)
        (s' : AppState ext) (topic : Text) (id : AuthIdentity) (p : Option IpPermit) (has : Bool)
        → ws_handler s.state peer headers query now ≡ (s', upgraded topic id p has)
        → IsAccounted config s
        → IsAccounted config (record {
          state = s';
          connections =
              record {
                identity = id;
                ip_permit = p;
                has_tenant_permit = has;
                phase = upgrading topic;
              }
              ∷ s.connections;
        })
    accepted-IsAccounted s peer headers query now s' topic id p has e a =
        let kept =
          subst (λ r. Kept s.state r.0) e (ws_handler-Kept s.state peer headers query now) in
        let settled = λ (j : IpAddr).
          subst (Settles j (permits_left s.state) (ip_connections s.state j)) e
            (ws_handler-Settles s.state peer headers query now j (few_ips s j a)) in
        record {
          settings = kept.settings ∙ a.settings;
          cap = kept.cap ∙ a.cap;
          limit = omega (arith, (settled (v4 0)).0, a.limit);
          ips = λ j. omega (
            arith,
            (settled j).1,
            a.ips j,
            open_from-append j (held_by p) (addresses s.connections),
          );
          active = kept.active ∙ a.active ∙ ap (λ n. n % 2 ^ 64) (omega arith);
        }

    pub abandoned-IsAccounted :
        (s : System ext) (before : List Connection) (c : Connection) (after : List Connection)
        (topic : Text) (now : ℕ)
        → s.connections ≡ before ++ c ∷ after
        → c.phase ≡ upgrading topic
        → IsAccounted config s
        → IsAccounted config (record {
          state = drop_permits s.state c.identity.tenant_id c.ip_permit c.has_tenant_permit now;
          connections = before ++ after;
        })
    abandoned-IsAccounted s before c after topic now at phase a =
        let kept =
          drop_permits-Kept s.state c.identity.tenant_id c.ip_permit c.has_tenant_permit now in
        let back = λ (j : IpAddr).
          drop_permits-permits s.state c.identity.tenant_id c.ip_permit c.has_tenant_permit now j in
        record {
          settings = kept.settings ∙ a.settings;
          cap = kept.cap ∙ a.cap;
          limit =
              omega (arith, (back (v4 0)).0, a.limit, ap length at, length_middle before c after);
          ips = λ j. omega (
            arith,
            (back j).1,
            a.ips j,
            ap (λ cs. open_from j (addresses cs)) at,
            addresses_middle j before c after,
          );
          active = omega (
            arith,
            kept.active,
            a.active,
            ap running_in at,
            running_middle before c after,
            ap count_running phase,
          );
        }

    pub opened-IsAccounted :
        (s : System ext) (before : List Connection) (c : Connection) (after : List Connection)
        (topic : Text) (tx : ℕ) (s' : AppState ext) (id : ℕ) (started : Bool)
        → s.connections ≡ before ++ c ∷ after
        → c.phase ≡ upgrading topic
        → open_connection s.state tx topic c.identity ≡ (s', id, started)
        → IsAccounted config s
        → IsAccounted config (record {
          state = s';
          connections = before ++ record c { phase = running id started } ∷ after;
        })
    opened-IsAccounted s before c after topic tx s' id started at phase e a =
        let c' : Connection = record c { phase = running id started } in
        let same = ap (λ r. core r.0) (sym e) ∙ core-open_connection s.state tx topic c.identity in
        record {
          settings = ap (λ k. k.settings) same ∙ a.settings;
          cap = ap (λ k. cap_of k.limiter) same ∙ a.cap;
          limit = omega (
            arith,
            ap (λ k. ext.semaphore.available k.limit) same,
            a.limit,
            ap length at,
            length_middle before c after,
            length_middle before c' after,
          );
          ips = λ j. omega (
            arith,
            ap (λ k. counted_by k.limiter j) same,
            a.ips j,
            ap (λ cs. open_from j (addresses cs)) at,
            addresses_middle j before c after,
            addresses_middle j before c' after,
          );
          active = omega (
            arith,
            ap (λ k. k.active) same,
            a.active,
            ap running_in at,
            running_middle before c after,
            running_middle before c' after,
            ap count_running phase,
          );
        }

    pub ended-IsAccounted :
        (s : System ext) (before : List Connection) (c : Connection) (after : List Connection)
        (id now : ℕ) (started : Bool)
        → s.connections ≡ before ++ c ∷ after
        → c.phase ≡ running id started
        → IsAccounted config s
        → IsAccounted config (record {
          state =
              close_connection s.state c.identity id started c.ip_permit c.has_tenant_permit now;
          connections = before ++ after;
        })
    ended-IsAccounted s before c after id now started at phase a =
        let (settings, cap, active) =
          close_connection-keeps s.state c.identity id started c.ip_permit c.has_tenant_permit
            now in
        let back = λ (j : IpAddr).
          close_connection-permits s.state c.identity id started c.ip_permit c.has_tenant_permit now
            j in
        record {
          settings = settings ∙ a.settings;
          cap = cap ∙ a.cap;
          limit =
              omega (arith, (back (v4 0)).0, a.limit, ap length at, length_middle before c after);
          ips = λ j. omega (
            arith,
            (back j).1,
            a.ips j,
            ap (λ cs. open_from j (addresses cs)) at,
            addresses_middle j before c after,
          );
          active = omega (
            arith,
            active,
            a.active,
            ap running_in at,
            running_middle before c after,
            ap count_running phase,
          );
        }
