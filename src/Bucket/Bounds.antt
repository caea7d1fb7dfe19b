-- ===== src/Bucket/Bounds.antt =====
-- What holds of a bucket at every moment, and when it lets a call through.
use rust_ws_server.Base.{ℕ, ◌+◌, ◌-◌, ◌*◌, ◌≤◌, ◌≡◌, ◌↔◌, true, arith}
use rust_ws_server.Bucket.{TokenBucket, token, new, try_consume}

-- A bucket can hold a token, holds no more than its capacity, and fills by a token a second or more.
pub record IsValid (b : TokenBucket) : Type 0 where
  pub room : token ≤ b.capacity
  pub filled : b.tokens ≤ b.capacity
  pub flows : 1 ≤ b.refill_per_second

pub new-IsValid : (rate burst now : ℕ) → IsValid (new rate burst now)
unfolding new
new-IsValid rate burst now = omega arith

pub try_consume-IsValid : (b : TokenBucket) (now : ℕ) → IsValid b → IsValid (try_consume b now).0
unfolding try_consume
try_consume-IsValid b now v = ground arith

-- What a call at `now` has to spend.
abbrev pub funds : TokenBucket → ℕ → ℕ
funds b now = b.tokens + (now - b.last_refill) * b.refill_per_second

-- A valid bucket lets a call through exactly when a whole token is there, counting what has flowed
-- in since the last call.
pub try_consume_iff :
    (b : TokenBucket) (now : ℕ) → IsValid b → ((try_consume b now).1 ≡ true) ↔ (token ≤ funds b now)
unfolding try_consume
try_consume_iff b now v = ground arith

pub last_refill-try_consume : (b : TokenBucket) (now : ℕ) → (try_consume b now).0.last_refill ≡ now
unfolding try_consume
last_refill-try_consume b now = ground arith

pub refill_per_second-try_consume :
    (b : TokenBucket) (now : ℕ) → (try_consume b now).0.refill_per_second ≡ b.refill_per_second
unfolding try_consume
refill_per_second-try_consume b now = ground arith

-- A second after any call the bucket lets the next call through, whatever the first one was told.
pub try_consume_after_second :
    (b : TokenBucket) (t now : ℕ)
    → IsValid b
    → t + token ≤ now
    → (try_consume (try_consume b t).0 now).1 ≡ true
try_consume_after_second b t now v h =
    let b' = (try_consume b t).0 in
    let clock = last_refill-try_consume b t in
    let rate = refill_per_second-try_consume b t in
    (try_consume_iff b' now (try_consume-IsValid b t v)).1 (rw (clock, rate) (grind arith))
