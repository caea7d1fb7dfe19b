-- ===== src/IpLimiter/Branches.antt =====
-- Which outcome `try_acquire` has.
use rust_ws_server.Base.{
  ℕ, ◌<◌, ◌≤◌, ◌≡◌, ◌↔◌, inl, inr, ◌∙◌, subst, true, false, some, Result, ok, err, arith,
  Option-cases,
}
use rust_ws_server.Bucket.{token}
use rust_ws_server.Bucket.Bounds.{funds, try_consume_iff}
use rust_ws_server.Net.{IpAddr}
use rust_ws_server.IpLimiter.{
  IpState, IpLimiter, IpPermit, IpRejection, rate_limited, concurrency_limited, reap_idle, entry,
  check_rate, at_cap, admit, try_acquire,
}
use rust_ws_server.IpLimiter.Entries.{
  concurrent_of, concurrent_of-reap_idle, concurrent-entry, concurrent-check_rate,
}
use rust_ws_server.IpLimiter.WellFormed.{
  IsWellFormed, HasValidBucket, reap_idle-IsWellFormed, entry-HasValidBucket,
}

-- A rate is configured, and the bucket holds less than a token.
abbrev pub IsPoor : IpLimiter → IpState → ℕ → Type 0
IsPoor lim st now = (lim.rate_configured ≡ true) × (funds st.bucket now < token)

-- A cap is configured, and that many connections are counted.
abbrev pub IsFull : IpLimiter → ℕ → Type 0
IsFull lim n = (cap : ℕ) × (lim.max_concurrent ≡ some cap) × (cap ≤ n)

-- The rules, in their order: the rate, then the cap.
pub record Decides (lim : IpLimiter) (ip : IpAddr) (st : IpState) (n now : ℕ)
    (r : Result IpPermit IpRejection) : Type 0 where
  pub poor : IsPoor lim st now → r ≡ err rate_limited
  pub full : ¬ IsPoor lim st now → IsFull lim n → r ≡ err concurrency_limited
  pub free : ¬ IsPoor lim st now → ¬ IsFull lim n → r ≡ ok (record { ip = some ip })

check_rate_iff :
    (lim : IpLimiter) (st : IpState) (now : ℕ)
    → HasValidBucket st
    → ((check_rate lim st now).1 ≡ false) ↔ IsPoor lim st now
unfolding check_rate
check_rate_iff lim st now v = ground (arith, try_consume_iff st.bucket now v)

at_cap_iff : (lim : IpLimiter) (n : ℕ) → (at_cap lim.max_concurrent n ≡ true) ↔ IsFull lim n
unfolding at_cap
at_cap_iff lim n = elim (Option-cases lim.max_concurrent) [
  | inl e ↦ (ground arith, λ f. ground arith)
  | inr (cap, e) ↦ (λ h. (cap, e, ground arith), λ f. ground arith)
]

admit-Decides :
    (lim : IpLimiter) (ip : IpAddr) (st : IpState) (now : ℕ)
    → HasValidBucket st
    → Decides lim ip st st.concurrent now (admit lim ip st now).1
unfolding admit
admit-Decides lim ip st now v =
    let rate = check_rate_iff lim st now v in
    let cap = at_cap_iff lim st.concurrent in
    let same = concurrent-check_rate lim st now in
    record { poor = λ p. ground arith; full = λ p f. ground arith; free = λ p f. ground arith }

-- From a well-formed limiter, an attempt is refused for its rate when the address's bucket is
-- short of a token; otherwise for the cap when as many connections are counted for the address as
-- the cap allows; and otherwise it is granted a permit for that address.
pub try_acquire-Decides :
    (lim : IpLimiter) (ip : IpAddr) (now : ℕ)
    → IsWellFormed lim
    → Decides lim ip
        (entry (reap_idle lim now) ip now)
        (concurrent_of lim ip)
        now
        (try_acquire lim ip now).1
unfolding try_acquire reap_idle
try_acquire-Decides lim ip now h =
    let reaped = reap_idle lim now in
    let st = entry reaped ip now in
    let v = entry-HasValidBucket reaped ip now (reap_idle-IsWellFormed lim now h) in
    let same = concurrent-entry reaped ip now ∙ concurrent_of-reap_idle lim now ip in
    let d =
      subst (λ n. Decides reaped ip st n now (admit reaped ip st now).1) same
        (admit-Decides reaped ip st now v) in
    record { poor = d.poor; full = d.full; free = d.free }
