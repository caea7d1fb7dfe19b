-- ===== src/IpLimiter.antt =====
-- src/ip_limiter.rs, `IpLimiter`: concurrent connections and the rate of new ones for each source
-- address. A call happens at one instant, `now`.
pub mod Entries
pub mod WellFormed
pub mod Branches
pub mod Accounting
pub mod Reaping
mod Tests
use mathlib.Core.Option
use rust_ws_server.Base.{
  ℕ, ◌+◌, ◌-◌, ◌*◌, ◌%◌, ◌^◌, max, Bool, true, false, ◌&&◌, not, List, [], ◌∷◌, Option, none, some,
  Result, ok, err, take, ltb, leb, ◌==◌, if◌then◌else◌,
}
use rust_ws_server.Base.Map.{Map, get, insert, remove}
use rust_ws_server.Bucket
use rust_ws_server.Bucket.{TokenBucket, token}
use rust_ws_server.Config.{Config}
use rust_ws_server.Net.{IpAddr, IpAddr-discrete}

pub record IpState : Type 0 where
  pub concurrent : ℕ
  pub bucket : TokenBucket
  pub last_seen : ℕ

-- Five minutes.
abbrev pub idle_ttl : ℕ
idle_ttl = 5 * 60 * 1_000_000_000

pub record IpLimiter : Type 0 where
  pub max_concurrent : Option ℕ
  pub rate_configured : Bool
  pub refill_per_second : ℕ
  pub burst : ℕ
  pub states : Map IpAddr IpState

pub data IpRejection : Type 0 where
  rate_limited concurrency_limited : IpRejection

-- The limiter that a permit refers to is the one that the operations below thread through.
pub record IpPermit : Type 0 where
  pub ip : Option IpAddr

abbrev pub u32 : ℕ → ℕ
u32 n = n % 2 ^ 32

abbrev pub or_default : Option ℕ → ℕ → ℕ
or_default (some n) d = n
or_default none d = d

-- A rate or burst is a u32, so its f64 is exact. `v as u32` keeps the low 32 bits of the cap.
unfoldable pub from_config : Config → Option IpLimiter
from_config config =
    let max_concurrent = Option.map u32 config.ip_max_concurrent in
    let limiter : IpLimiter = record {
      max_concurrent = max_concurrent;
      rate_configured = elim config.ip_connection_rate [ some _ ↦ true | none ↦ false ];
      refill_per_second = or_default config.ip_connection_rate 1;
      burst =
          or_default config.ip_rate_burst
            (or_default (Option.map (λ r. max r 1) config.ip_connection_rate) 1);
      states = [];
    } in
    elim max_concurrent [
      | some _ ↦ some limiter
      | none ↦ elim config.ip_connection_rate [ some _ ↦ some limiter | none ↦ none ]
    ]

unfoldable pub is_idle : ℕ → IpState → Bool
is_idle now st = st.concurrent == 0 && ltb idle_ttl (now - st.last_seen)

-- The addresses of the idle entries, in the order of iteration.
unfoldable pub idle_ips : ℕ → Map IpAddr IpState → List IpAddr
unfolding is_idle
idle_ips now [] = []
idle_ips now ((ip, st) ∷ m) =
    let rest = idle_ips now m in if is_idle now st then ip ∷ rest else rest

-- `states.remove_if` with the closure of `reap_idle`.
unfoldable pub remove_if_idle : ℕ → IpAddr → Map IpAddr IpState → Map IpAddr IpState
remove_if_idle now ip m = elim (get IpAddr-discrete ip m) [
  | some st ↦ if is_idle now st then remove IpAddr-discrete ip m else m
  | none ↦ m
]

unfoldable pub remove_victims : ℕ → List IpAddr → Map IpAddr IpState → Map IpAddr IpState
remove_victims now [] m = m
remove_victims now (ip ∷ ips) m = remove_victims now ips (remove_if_idle now ip m)

-- The loop that gathers victims stops at 64 of them.
unfoldable pub reap_idle : IpLimiter → ℕ → IpLimiter
reap_idle lim now = record lim {
  states = remove_victims now (take 64 (idle_ips now lim.states)) lim.states;
}

-- `entry(ip).or_insert_with(…)`: the entry that is there, or a new one.
unfoldable pub entry : IpLimiter → IpAddr → ℕ → IpState
entry lim ip now = elim (get IpAddr-discrete ip lim.states) [
  | some st ↦ st
  | none ↦ record {
    concurrent = 0;
    bucket = Bucket.new lim.refill_per_second lim.burst now;
    last_seen = now;
  }
]

abbrev pub put : IpLimiter → IpAddr → IpState → IpLimiter
put lim ip st = record lim { states = insert IpAddr-discrete ip st lim.states }

-- The rate check, which spends a token where a rate is configured.
unfoldable pub check_rate : IpLimiter → IpState → ℕ → IpState × Bool
check_rate lim st now =
    if lim.rate_configured
    then (let (bucket, admitted) = Bucket.try_consume st.bucket now in
        (record st { bucket = bucket }, admitted))
    else (st, true)

unfoldable pub at_cap : Option ℕ → ℕ → Bool
at_cap (some cap) concurrent = leb cap concurrent
at_cap none concurrent = false

-- What `try_acquire` does once it holds the entry.
unfoldable pub admit : IpLimiter → IpAddr → IpState → ℕ → IpLimiter × Result IpPermit IpRejection
unfolding at_cap
admit lim ip st now =
    let (st', admitted) = check_rate lim st now in
    if not admitted
    then (put lim ip st', err rate_limited)
    else if at_cap lim.max_concurrent st'.concurrent
    then (put lim ip st', err concurrency_limited)
    else (
      put lim ip (record st' { concurrent = u32 (st'.concurrent + 1); last_seen = now }),
      ok (record { ip = some ip }),
    )

unfoldable pub try_acquire : IpLimiter → IpAddr → ℕ → IpLimiter × Result IpPermit IpRejection
try_acquire lim ip now = let reaped = reap_idle lim now in admit reaped ip (entry reaped ip now) now

unfoldable pub release : IpLimiter → IpAddr → ℕ → IpLimiter
release lim ip now = elim (get IpAddr-discrete ip lim.states) [
  | some st ↦ put lim ip (record st {
    concurrent = if ltb 0 st.concurrent then st.concurrent - 1 else st.concurrent;
    last_seen = now;
  })
  | none ↦ lim
]

-- `IpPermit::drop`
unfoldable pub drop : IpLimiter → IpPermit → ℕ → IpLimiter
drop lim permit now = elim permit.ip [ some ip ↦ release lim ip now | none ↦ lim ]
