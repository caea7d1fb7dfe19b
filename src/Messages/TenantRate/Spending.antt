-- ===== src/Messages/TenantRate/Spending.antt =====
-- What the calls of one token bucket (src/ip_limiter.rs) spend over a stretch of time.
use rust_ws_server.Base.{
  ℕ, ◌+◌, ◌-◌, ◌*◌, ◌≤◌, max, ◌≡◌, ◌⊎◌, inl, inr, refl, ◌∙◌, Option, none, some, Text,
  Text-discrete, arith, if◌then◌else◌,
}
use rust_ws_server.Base.Map.{Map, get}
use rust_ws_server.Bucket
use rust_ws_server.Bucket.{TokenBucket, token, try_consume}
use rust_ws_server.Bucket.Admission.{try_consume_cost, flow_split}
use rust_ws_server.Bucket.Bounds.{last_refill-try_consume, refill_per_second-try_consume}
use rust_ws_server.IpLimiter.{or_default}
use rust_ws_server.State.{tenant_bucket}

-- What the messages let through and the bucket's tokens come to, since `start`.
pub record IsSpent (rate burst start now n : ℕ) (b : TokenBucket) : Type 0 where
  pub early : start ≤ b.last_refill
  pub late : b.last_refill ≤ now
  pub flow : b.refill_per_second ≡ max rate 1
  pub spent : n * token + b.tokens ≤ max burst 1 * token + (b.last_refill - start) * max rate 1

-- No bucket yet, and nothing let through; or a bucket that covers what was.
abbrev pub Covers : (rate burst start now n : ℕ) → Option TokenBucket → Type 0
Covers rate burst start now n o =
    ((o ≡ none) × (n ≡ 0)) ⊎ ((b : TokenBucket) × (o ≡ some b) × IsSpent rate burst start now n b)

pub later-Covers :
    (rate burst start now end n : ℕ) (o : Option TokenBucket)
    → now ≤ end
    → Covers rate burst start now n o
    → Covers rate burst start end n o
later-Covers rate burst start now end n o le (inl h) = inl h
later-Covers rate burst start now end n o le (inr (b, e, h)) =
    inr (
      b,
      e,
      record { early = h.early; late = omega (arith, h.late); flow = h.flow; spent = h.spent },
    )

-- One call of the bucket.
pub consumed-IsSpent :
    (rate burst start now end n : ℕ) (b : TokenBucket)
    → now ≤ end
    → IsSpent rate burst start now n b
    → let (b', ok) = try_consume b end in
      IsSpent rate burst start end (n + (if ok then 1 else 0)) b'
consumed-IsSpent rate burst start now end n b le h =
    let clock = last_refill-try_consume b end in
    record {
      early = omega (arith, clock, h.early, h.late);
      late = omega (arith, clock);
      flow = refill_per_second-try_consume b end ∙ h.flow;
      spent = ground (
        arith,
        clock,
        h.spent,
        rw h.flow at (try_consume_cost b end),
        flow_split start b.last_refill end (max rate 1) h.early (omega (arith, h.late)),
      );
    }

-- The bucket that the check finds or makes.
pub found-IsSpent :
    (limits : Map Text TokenBucket) (tenant : Text) (rate : ℕ) (burst : Option ℕ)
    (start now end n : ℕ)
    → start ≤ end
    → now ≤ end
    → Covers rate (or_default burst (max rate 1)) start now n (get Text-discrete tenant limits)
    → IsSpent rate
        (or_default burst (max rate 1))
        start
        end
        n
        (tenant_bucket limits tenant rate burst end)
unfolding tenant_bucket Bucket.new
found-IsSpent limits tenant rate burst start now end n le le' (inl (e, zero_admitted)) =
    rw (e, tenant_bucket, zero_admitted)
      (record { early = le; late = omega arith; flow = refl; spent = omega arith })
found-IsSpent limits tenant rate burst start now end n le le' (inr (b, e, h)) =
    rw (e, tenant_bucket)
      (record { early = h.early; late = omega (arith, h.late); flow = h.flow; spent = h.spent })
