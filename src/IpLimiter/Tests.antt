-- ===== src/IpLimiter/Tests.antt =====
-- Runs of the limiter, as in the unit tests of the source.
use rust_ws_server.Base.{
  inr, ℕ, ◌+◌, ◌*◌, ◌^◌, ◌<◌, ◌≤◌, ◌≡◌, ◌≢◌, refl, false, [], ◌∷◌, Option, none, some, ok, err,
  arith,
}
use rust_ws_server.Base.Map.{get, insert, remove}
use rust_ws_server.Bucket
use rust_ws_server.Bucket.{token}
use rust_ws_server.Config.{Config}
use rust_ws_server.Net.{IpAddr, v4, IpAddr-discrete}
use rust_ws_server.IpLimiter.{
  IpLimiter, IpState, concurrency_limited, idle_ttl, from_config, is_idle, idle_ips, remove_if_idle,
  remove_victims, reap_idle, entry, check_rate, admit, try_acquire, release, drop,
}
use rust_ws_server.IpLimiter.WellFormed.{IsWellFormed}
use rust_ws_server.IpLimiter.Branches.{Decides, try_acquire-Decides}
use rust_ws_server.IpLimiter.Entries.{concurrent_of}
use rust_ws_server.IpLimiter.Accounting.{
  Reach, here, next, admitted, open_from, IsAccounted, Reach-from_config, try_acquire_truncated_cap,
}
use rust_ws_server.IpLimiter.Reaping.{reap_idle_keeps, reap_idle_forgets, entry-reap_idle_full}

abbrev config : Option ℕ → Option ℕ → Option ℕ → Config
config max_concurrent rate burst = record {
  bind_addr = record { ip = v4 0; port = 8080 };
  max_connections = 100;
  client_queue_capacity = 16;
  topic_channel_capacity = 32;
  max_text_bytes = 64 * 1024;
  max_messages_per_second = 100;
  message_burst = 200;
  idle_timeout = 5 * token;
  heartbeat_interval = 60 * token;
  json_logs = false;
  jwt_secret = none;
  jwt_public_key = none;
  jwt_issuer = none;
  ip_max_concurrent = max_concurrent;
  ip_connection_rate = rate;
  ip_rate_burst = burst;
  trust_proxy_headers = false;
  tenant_max_connections = none;
  tenant_max_messages_per_second = none;
  tenant_message_burst = none;
}

abbrev localhost : IpAddr
localhost = v4 0x7F000001

-- What `from_config` makes of a cap of one.
abbrev one_each : IpLimiter
one_each = record {
  max_concurrent = some 1;
  rate_configured = false;
  refill_per_second = 1;
  burst = 1;
  states = [];
}

from_config_one : from_config (config (some 1) none none) ≡ some one_each
unfolding from_config
from_config_one = refl

from_config-none : from_config (config none none (some 3)) ≡ none
unfolding from_config
from_config-none = refl

abbrev first_state : IpState
first_state = record { concurrent = 1; bucket = Bucket.new 1 1 0; last_seen = 0 }

abbrev one_open : IpLimiter
one_open = record one_each { states = (localhost, first_state) ∷ [] }

-- All that a run of the operations unfolds.
abbrev runs : Unit {0}
unfolding get insert remove IpAddr-discrete is_idle idle_ips remove_if_idle remove_victims reap_idle
    entry check_rate admit try_acquire release drop Bucket.try_consume Bucket.new
runs = tt

enforces_concurrency_cap :
    (try_acquire one_each localhost 0 ≡ (one_open, ok (record { ip = some localhost })))
    × ((try_acquire one_open localhost 1).1 ≡ err concurrency_limited)
unfolding runs
enforces_concurrency_cap = (refl, refl)

permit_release_allows_reentry :
    (try_acquire (drop one_open (record { ip = some localhost }) 1) localhost 2).1
    ≡ ok (record { ip = some localhost })
unfolding runs
permit_release_allows_reentry = refl

one_open-IsWellFormed : IsWellFormed one_open
unfolding Bucket.new
one_open-IsWellFormed = omega arith

try_acquire-Decides_example :
    Decides one_open localhost
      (entry (reap_idle one_open 3) localhost 3)
      (concurrent_of one_open localhost)
      3
      (try_acquire one_open localhost 3).1
try_acquire-Decides_example = try_acquire-Decides one_open localhost 3 one_open-IsWellFormed

-- One connection is opened and a second one refused.
one_held :
    Reach
      (record { limiter = one_each; held = [] })
      (record { limiter = one_open; held = localhost ∷ [] })
unfolding runs
one_held = next here (admitted localhost 0 one_open refl (omega arith))

Reach-from_config_example :
    IsAccounted (record { limiter = one_open; held = localhost ∷ [] })
    × ((cap : ℕ)
        → (config (some 1) none none).ip_max_concurrent ≡ some cap
        → cap < 2 ^ 32
        → (ip : IpAddr) → open_from ip (localhost ∷ []) ≤ cap)
Reach-from_config_example =
    Reach-from_config (config (some 1) none none) one_each
      (record { limiter = one_open; held = localhost ∷ [] }) from_config_one one_held

try_acquire_truncated_cap_example :
    (try_acquire (record one_each { max_concurrent = some 0 }) localhost 0)
    ≢ (one_open, ok (record { ip = some localhost }))
unfolding from_config
try_acquire_truncated_cap_example =
    try_acquire_truncated_cap (config (some (1 * 2 ^ 32)) none none)
      (record one_each { max_concurrent = some 0 }) one_open localhost 0 1
      (record { ip = some localhost }) refl refl

-- The connection has closed; five minutes and a nanosecond later the entry is forgotten.
abbrev closed_state : IpState
closed_state = record first_state { concurrent = 0 }

abbrev none_open : IpLimiter
none_open = record one_each { states = (localhost, closed_state) ∷ [] }

-- Used five minutes ago, and without a connection.
reap_idle_keeps_example :
    get IpAddr-discrete localhost (reap_idle none_open idle_ttl).states ≡ some closed_state
unfolding runs
reap_idle_keeps_example =
    reap_idle_keeps none_open idle_ttl localhost closed_state refl (inr (omega arith))

reap_idle_forgets_example :
    get IpAddr-discrete localhost (reap_idle none_open (idle_ttl + 1)).states ≡ none
unfolding runs
reap_idle_forgets_example =
    reap_idle_forgets none_open (idle_ttl + 1) localhost closed_state refl refl (omega arith)

entry-reap_idle_full_example :
    (entry (reap_idle none_open (idle_ttl + 1)) localhost (idle_ttl + 1)).bucket
    ≡ Bucket.new 1 1 (idle_ttl + 1)
unfolding runs
entry-reap_idle_full_example =
    entry-reap_idle_full none_open (idle_ttl + 1) localhost closed_state refl refl (omega arith)
