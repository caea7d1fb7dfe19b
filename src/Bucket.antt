-- ===== src/Bucket.antt =====
-- src/ip_limiter.rs, `TokenBucket`: the bucket of the per-IP and the per-tenant limits.
pub mod Bounds
pub mod Admission
mod Tests
use rust_ws_server.Base.{ℕ, ◌+◌, ◌-◌, ◌*◌, min, max, Bool, true, false, leb, if◌then◌else◌}

-- One token, in the unit in which `tokens` and `capacity` are counted: 10⁻⁹ token, so that a
-- refill by nanoseconds times tokens per second is exact.
abbrev pub token : ℕ
token = 1_000_000_000

-- Times are nanoseconds of the monotonic clock.
pub record TokenBucket : Type 0 where
  pub capacity : ℕ
  pub tokens : ℕ
  pub refill_per_second : ℕ
  pub last_refill : ℕ

unfoldable pub new : ℕ → ℕ → ℕ → TokenBucket
new refill_per_second burst now =
    let capacity : ℕ = max burst 1 * token in
    record {
      capacity = capacity;
      tokens = capacity;
      refill_per_second = max refill_per_second 1;
      last_refill = now;
    }

-- `duration_since` saturates at zero, as `-` does.
unfoldable pub refill : TokenBucket → ℕ → TokenBucket
refill b now =
    let elapsed : ℕ = now - b.last_refill in
    record b {
      last_refill = now;
      tokens = min (b.tokens + elapsed * b.refill_per_second) b.capacity;
    }

unfoldable pub try_consume : TokenBucket → ℕ → TokenBucket × Bool
unfolding refill
try_consume b now =
    let b' = refill b now in
    if leb token b'.tokens then (record b' { tokens = b'.tokens - token }, true) else (b', false)
