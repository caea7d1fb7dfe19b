-- ===== src/Bucket/Admission.antt =====
-- The rate that a bucket enforces over a run of calls.
use rust_ws_server.Base.{ℕ, suc, ◌+◌, ◌-◌, ◌*◌, ◌≤◌, max, ◌≡◌, List, [], ◌∷◌, arith, if◌then◌else◌}
use rust_ws_server.Bucket.{TokenBucket, token, new, try_consume}
use rust_ws_server.Bucket.Bounds.{last_refill-try_consume, refill_per_second-try_consume}

-- The bucket after calls at the listed instants, and how many of them it let through.
unfoldable pub run : TokenBucket → List ℕ → TokenBucket × ℕ
run b [] = (b, 0)
run b (now ∷ times) =
    let (b', allowed) = try_consume b now in
    let (b'', admitted) = run b' times in (b'', if allowed then suc admitted else admitted)

-- Instants in order, from `start` to `end` at most.
abbrev pub Within : ℕ → ℕ → List ℕ → Type 0
Within start end [] = start ≤ end
Within start end (now ∷ times) = (start ≤ now) × Within now end times

pub try_consume_cost :
    (b : TokenBucket) (now : ℕ)
    → let (b', allowed) = try_consume b now in
      (if allowed then token else 0) + b'.tokens
      ≤ b.tokens + (now - b.last_refill) * b.refill_per_second
unfolding try_consume
try_consume_cost b now = ground arith

pub Within-le : (start end : ℕ) (times : List ℕ) → Within start end times → start ≤ end
Within-le start end [] w = w
Within-le start end (now ∷ times) w = omega (arith, Within-le now end times w.1)

-- Time passes in two stretches: what flows in adds up.
pub flow_split : (a b c r : ℕ) → a ≤ b → b ≤ c → (b - a) * r + (c - b) * r ≡ (c - a) * r
flow_split a b c r h k = grind arith

pub run_cost :
    (b : TokenBucket) (end : ℕ) (times : List ℕ)
    → Within b.last_refill end times
    → let (b', admitted) = run b times in
      admitted * token + b'.tokens ≤ b.tokens + (end - b.last_refill) * b.refill_per_second
unfolding run
run_cost b end [] w = omega arith
run_cost b end (now ∷ times) (h, w) =
    let b' = (try_consume b now).0 in
    let clock = last_refill-try_consume b now in
    let rate = refill_per_second-try_consume b now in
    let rest = run_cost b' end times (rw clock w) in
    ground (
      arith,
      (rw (clock, rate) at rest),
      try_consume_cost b now,
      flow_split b.last_refill now end b.refill_per_second h (Within-le now end times w),
    )

-- Over any stretch of time, and however the calls are spread over it, a new bucket lets through no
-- more calls than its burst and the rate times the length of the stretch (both at least one).
pub run_bound :
    (rate burst start end : ℕ) (times : List ℕ)
    → Within start end times
    → (run (new rate burst start) times).1 * token
      ≤ max burst 1 * token + (end - start) * max rate 1
unfolding new
run_bound rate burst start end times w = omega (arith, run_cost (new rate burst start) end times w)
