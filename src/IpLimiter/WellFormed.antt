-- ===== src/IpLimiter/WellFormed.antt =====
-- Every bucket that the limiter keeps is a valid one.
use rust_ws_server.Base.{ℕ, ◌+◌, List, [], ◌∷◌, take, arith, inl, inr, Option-cases, Bool-cases}
use rust_ws_server.Base.Map.{Map, get, Values, Values-get, Values-insert, Values-remove}
use rust_ws_server.Bucket.Bounds.{IsValid, new-IsValid, try_consume-IsValid}
use rust_ws_server.Net.{IpAddr, IpAddr-discrete}
use rust_ws_server.IpLimiter.{
  IpState, IpLimiter, is_idle, idle_ips, remove_if_idle, remove_victims, reap_idle, entry, put,
  check_rate, at_cap, u32, admit, try_acquire, release,
}

abbrev pub HasValidBucket : IpState → Type 0
HasValidBucket st = IsValid st.bucket

abbrev pub AllValid : Map IpAddr IpState → Type 0
AllValid = Values IpAddr-discrete HasValidBucket

abbrev pub IsWellFormed : IpLimiter → Type 0
IsWellFormed lim = AllValid lim.states

remove_if_idle-AllValid :
    (now : ℕ) (ip : IpAddr) (m : Map IpAddr IpState)
    → AllValid m
    → AllValid (remove_if_idle now ip m)
unfolding remove_if_idle
remove_if_idle-AllValid now ip m h = elim (Option-cases (get IpAddr-discrete ip m)) [
  | inl e ↦ rw (e, remove_if_idle) h
  | inr (st, e) ↦ elim (Bool-cases (is_idle now st)) [
    | inl i ↦ rw (e, remove_if_idle, i) (Values-remove IpAddr-discrete HasValidBucket ip m h)
    | inr i ↦ rw (e, remove_if_idle, i) h
  ]
]

remove_victims-AllValid :
    (now : ℕ) (ips : List IpAddr) (m : Map IpAddr IpState)
    → AllValid m
    → AllValid (remove_victims now ips m)
unfolding remove_victims
remove_victims-AllValid now [] m h = h
remove_victims-AllValid now (ip ∷ ips) m h =
    remove_victims-AllValid now ips (remove_if_idle now ip m) (remove_if_idle-AllValid now ip m h)

pub reap_idle-IsWellFormed :
    (lim : IpLimiter) (now : ℕ) → IsWellFormed lim → IsWellFormed (reap_idle lim now)
unfolding reap_idle
reap_idle-IsWellFormed lim now h =
    remove_victims-AllValid now (take 64 (idle_ips now lim.states)) lim.states h

pub entry-HasValidBucket :
    (lim : IpLimiter) (ip : IpAddr) (now : ℕ) → IsWellFormed lim → HasValidBucket (entry lim ip now)
unfolding entry
entry-HasValidBucket lim ip now h = elim (Option-cases (get IpAddr-discrete ip lim.states)) [
  | inl e ↦ rw (e, entry) (new-IsValid lim.refill_per_second lim.burst now)
  | inr (st, e) ↦ rw (e, entry) (Values-get IpAddr-discrete HasValidBucket ip lim.states h e)
]

put-IsWellFormed :
    (lim : IpLimiter) (ip : IpAddr) (st : IpState)
    → IsWellFormed lim
    → HasValidBucket st
    → IsWellFormed (put lim ip st)
put-IsWellFormed lim ip st h v = Values-insert IpAddr-discrete HasValidBucket ip st lim.states h v

check_rate-HasValidBucket :
    (lim : IpLimiter) (st : IpState) (now : ℕ)
    → HasValidBucket st
    → HasValidBucket (check_rate lim st now).0
unfolding check_rate
check_rate-HasValidBucket lim st now v = ground (arith, try_consume-IsValid st.bucket now v)

admit-IsWellFormed :
    (lim : IpLimiter) (ip : IpAddr) (st : IpState) (now : ℕ)
    → IsWellFormed lim
    → HasValidBucket st
    → IsWellFormed (admit lim ip st now).0
unfolding admit
admit-IsWellFormed lim ip st now h v =
    let spent = check_rate-HasValidBucket lim st now v in
    let st' = (check_rate lim st now).0 in
    let kept = put-IsWellFormed lim ip st' h spent in
    elim (Bool-cases (check_rate lim st now).1) [
      | inl paid ↦ elim (Bool-cases (at_cap lim.max_concurrent st'.concurrent)) [
        | inl full ↦ rw (paid, full) kept
        | inr room ↦
            rw (paid, room)
              (put-IsWellFormed lim ip
                (record st' { concurrent = u32 (st'.concurrent + 1); last_seen = now }) h spent)
      ]
      | inr poor ↦ rw poor kept
    ]

pub try_acquire-IsWellFormed :
    (lim : IpLimiter) (ip : IpAddr) (now : ℕ)
    → IsWellFormed lim
    → IsWellFormed (try_acquire lim ip now).0
unfolding try_acquire
try_acquire-IsWellFormed lim ip now h =
    let reaped = reap_idle lim now in
    let v = reap_idle-IsWellFormed lim now h in
    admit-IsWellFormed reaped ip (entry reaped ip now) now v (entry-HasValidBucket reaped ip now v)

pub release-IsWellFormed :
    (lim : IpLimiter) (ip : IpAddr) (now : ℕ) → IsWellFormed lim → IsWellFormed (release lim ip now)
unfolding release
release-IsWellFormed lim ip now h = elim (Option-cases (get IpAddr-discrete ip lim.states)) [
  | inl e ↦ rw (e, release) h
  | inr (st, e) ↦
      rw (e, release)
        (put-IsWellFormed lim ip _ h (Values-get IpAddr-discrete HasValidBucket ip lim.states h e))
]
