-- ===== src/Server/Limits.antt =====
-- The limits hold along every history of the server.
use rust_ws_server.Base.{
  ℕ, ◌+◌, ◌^◌, ◌<◌, ◌≤◌, ◌≡◌, refl, sym, ◌∙◌, ap, subst, Bool, [], Option, some, Text, length,
  count, arith,
}
use rust_ws_server.Auth.{AuthIdentity}
use rust_ws_server.Base.Map.{get}
use rust_ws_server.Config.{Config}
use rust_ws_server.External.{External}
use rust_ws_server.Handshake.{WsQuery, HeaderMap, upgraded, ws_handler, resolve_client_ip}
use rust_ws_server.Handshake.Permits.{held_by, ip_connections, counted_by}
use rust_ws_server.IpLimiter
use rust_ws_server.IpLimiter.{IpLimiter, IpPermit}
use rust_ws_server.IpLimiter.Accounting.{open_from}
use rust_ws_server.Metrics
use rust_ws_server.Net.{IpAddr, SocketAddr}
use rust_ws_server.State
use rust_ws_server.State.{AppState}
use rust_ws_server.Server.{
  running, System, addresses, running_in, Step, refused, accepted, abandoned, opened, served, ended,
  Reach, here, next,
}
use rust_ws_server.Server.Handshakes.{cap_of}
use rust_ws_server.Server.IpCap.{IsBelow, ws_handler-IsBelow}
use rust_ws_server.Server.Counting.{running_in-le-length, open_from-append, addresses_middle}
use rust_ws_server.Server.Admission.{
  IsAccounted, IsAccounted-of_core, core-Serves, refused-IsAccounted, accepted-IsAccounted,
  abandoned-IsAccounted, opened-IsAccounted, ended-IsAccounted,
}

module _ {ext : External} where
  -- The connections of an address are as many as the cap allows, where there is one.
  abbrev pub IsCapped : Config → System ext → Type 0
  IsCapped config s =
      (cap : ℕ)
      → cap_of (IpLimiter.from_config config) ≡ some (some cap)
      → (j : IpAddr) → open_from j (addresses s.connections) ≤ cap

  module _ (config : Config) (small : config.max_connections + 1 < 2 ^ 32) where
    Step-IsAccounted : {s t : System ext} → Step s t → IsAccounted config s → IsAccounted config t
    Step-IsAccounted {s} (refused peer headers query now s' status message e) a =
        refused-IsAccounted config small s peer headers query now s' status message e a
    Step-IsAccounted {s} (accepted peer headers query now s' topic id p has e) a =
        accepted-IsAccounted config small s peer headers query now s' topic id p has e a
    Step-IsAccounted {s} (abandoned before c after topic now at phase) a =
        abandoned-IsAccounted config small s before c after topic now at phase a
    Step-IsAccounted {s} (opened before c after topic tx s' id started at phase free e) a =
        opened-IsAccounted config small s before c after topic tx s' id started at phase e a
    Step-IsAccounted {s} (served s' v) a = IsAccounted-of_core config s s' (core-Serves v) a
    Step-IsAccounted {s} (ended before c after id now started at phase) a =
        ended-IsAccounted config small s before c after id now started at phase a

    accepted_bound :
        (s : System ext) (peer : SocketAddr) (headers : HeaderMap) (query : WsQuery) (now : ℕ)
        (s' : AppState ext) (topic : Text) (id : AuthIdentity) (p : Option IpPermit) (has : Bool)
        (cap : ℕ) (j : IpAddr)
        → ws_handler s.state peer headers query now ≡ (s', upgraded topic id p has)
        → IsAccounted config s
        → cap_of (IpLimiter.from_config config) ≡ some (some cap)
        → open_from j (addresses s.connections) ≤ cap
        → open_from j (held_by p) + open_from j (addresses s.connections) ≤ cap
    unfolding count
    accepted_bound s peer headers query now s' topic id p has cap j e a capped h =
        let ip = resolve_client_ip ext peer headers s.state.config.trust_proxy_headers in
        let (own, below) =
          subst (λ r. IsBelow ip (ip_connections s.state ip) cap r.1) e
            (ws_handler-IsBelow s.state peer headers query now cap (a.cap ∙ capped)) in
        subst (λ o. open_from j (held_by o) + open_from j (addresses s.connections) ≤ cap) (sym own)
          (ground (arith, a.ips ip, below, h))

    Step-IsCapped :
        {s t : System ext} → Step s t → IsAccounted config s → IsCapped config s → IsCapped config t
    Step-IsCapped {s} (refused peer headers query now s' status message e) a h cap capped j =
        h cap capped j
    Step-IsCapped {s} (accepted peer headers query now s' topic id p has e) a h cap capped j =
        omega (
          arith,
          open_from-append j (held_by p) (addresses s.connections),
          accepted_bound s peer headers query now s' topic id p has cap j e a capped
              (h cap capped j),
        )
    Step-IsCapped {s} (abandoned before c after topic now at phase) a h cap capped j = omega (
      arith,
      h cap capped j,
      ap (λ cs. open_from j (addresses cs)) at,
      addresses_middle j before c after,
    )
    Step-IsCapped {s} (opened before c after topic tx s' id started at phase free e) a h cap capped
          j =
        omega (
          arith,
          h cap capped j,
          ap (λ cs. open_from j (addresses cs)) at,
          addresses_middle j before c after,
          addresses_middle j before (record c { phase = running id started }) after,
        )
    Step-IsCapped {s} (served s' v) a h cap capped j = h cap capped j
    Step-IsCapped {s} (ended before c after id now started at phase) a h cap capped j = omega (
      arith,
      h cap capped j,
      ap (λ cs. open_from j (addresses cs)) at,
      addresses_middle j before c after,
    )

    Reach-IsAccounted : {s t : System ext} → Reach s t → IsAccounted config s → IsAccounted config t
    Reach-IsAccounted here a = a
    Reach-IsAccounted (next r st) a = Step-IsAccounted st (Reach-IsAccounted r a)

    Reach-IsCapped :
        {s t : System ext}
        → Reach s t
        → IsAccounted config s
        → IsCapped config s
        → IsCapped config t
    Reach-IsCapped here a h = h
    Reach-IsCapped (next r st) a h = Step-IsCapped st (Reach-IsAccounted r a) (Reach-IsCapped r a h)

counted_by-from_config :
    (config : Config) (j : IpAddr) → counted_by (IpLimiter.from_config config) j ≡ 0
unfolding IpLimiter.from_config get
counted_by-from_config config j = ground arith

cap_of-from_config :
    (config : Config) (cap : ℕ)
    → config.ip_max_concurrent ≡ some cap
    → cap < 2 ^ 32
    → cap_of (IpLimiter.from_config config) ≡ some (some cap)
unfolding IpLimiter.from_config
cap_of-from_config config cap e small = ground arith

-- The server as `AppState::new` leaves it.
abbrev pub fresh : (ext : External) → Config → System ext
fresh ext config = record { state = State.new ext config; connections = [] }

fresh-IsAccounted : (ext : External) (config : Config) → IsAccounted config (fresh ext config)
unfolding State.new Metrics.default count
fresh-IsAccounted ext config = record {
  settings = refl;
  cap = refl;
  limit = omega (arith, ext.semaphore.available-new config.max_connections);
  ips = counted_by-from_config config;
  active = omega arith;
}

-- Along every history of a server, with a global limit that fits in 32 bits: there are no more
-- connections, those being upgraded included, than the global limit; no more of one address than
-- the IP cap, where it is configured and below 2³²; and the gauge of active connections is the
-- number of those that run.
pub Reach-fresh :
    (ext : External) (config : Config) (s : System ext)
    → config.max_connections + 1 < 2 ^ 32
    → Reach (fresh ext config) s
    → (length s.connections ≤ config.max_connections)
      × ((cap : ℕ)
          → config.ip_max_concurrent ≡ some cap
          → cap < 2 ^ 32
          → (j : IpAddr) → open_from j (addresses s.connections) ≤ cap)
      × (s.state.metrics.active_connections ≡ running_in s.connections)
unfolding count
Reach-fresh ext config s small r =
    let start = fresh-IsAccounted ext config in
    let a = Reach-IsAccounted config small r start in
    (
      omega (arith, a.limit),
      λ cap c below.
          Reach-IsCapped config small r start (λ k _ j. omega arith) cap
            (cap_of-from_config config cap c below),
      omega (arith, a.active, a.limit, running_in-le-length s.connections),
    )
