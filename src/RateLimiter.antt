-- ===== src/RateLimiter.antt =====
-- src/server.rs, `RateLimiter`: the message rate of one connection. Its arguments are u32.
mod Tests
use rust_ws_server.Base.{
  ℕ, ◌+◌, ◌-◌, ◌*◌, min, max, ◌≡◌, refl, Bool, true, false, leb, if◌then◌else◌, arith,
}
use rust_ws_server.Bucket.{TokenBucket, token}
use rust_ws_server.Bucket

pub record RateLimiter : Type 0 where
  pub capacity : ℕ
  pub tokens : ℕ
  pub refill_per_second : ℕ
  pub last_refill : ℕ

unfoldable pub new : ℕ → ℕ → ℕ → RateLimiter
new refill_per_second burst now =
    let capacity : ℕ = max burst 1 * token in
    record {
      capacity = capacity;
      tokens = capacity;
      refill_per_second = max refill_per_second 1;
      last_refill = now;
    }

-- The product of nanoseconds and tokens per second, in the unit of `token`.
unfoldable pub tokens_to_add : ℕ → ℕ → ℕ
tokens_to_add elapsed refill_per_second = elapsed * refill_per_second

unfoldable pub refill : RateLimiter → ℕ → RateLimiter
unfolding tokens_to_add
refill r now =
    let elapsed : ℕ = now - r.last_refill in
    record r {
      last_refill = now;
      tokens = min (r.tokens + tokens_to_add elapsed r.refill_per_second) r.capacity;
    }

unfoldable pub allow : RateLimiter → ℕ → RateLimiter × Bool
unfolding refill
allow r now =
    let r' = refill r now in
    if leb token r'.tokens then (record r' { tokens = r'.tokens - token }, true) else (r', false)

abbrev pub as_bucket : RateLimiter → TokenBucket
as_bucket r = record {
  capacity = r.capacity;
  tokens = r.tokens;
  refill_per_second = r.refill_per_second;
  last_refill = r.last_refill;
}

pub as_bucket-new :
    (rate burst now : ℕ) → as_bucket (new rate burst now) ≡ Bucket.new rate burst now
unfolding new Bucket.new
as_bucket-new rate burst now = refl

-- At every instant `allow` answers as `TokenBucket::try_consume` does on the same fields, and
-- leaves the same fields.
pub allow-try_consume :
    (r : RateLimiter) (now : ℕ)
    → let (r', allowed) = allow r now in
      Bucket.try_consume (as_bucket r) now ≡ (as_bucket r', allowed)
unfolding allow Bucket.try_consume
allow-try_consume r now = ground arith
