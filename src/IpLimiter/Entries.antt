-- ===== src/IpLimiter/Entries.antt =====
-- How each operation changes the count of connections that the limiter keeps for an address.
use rust_ws_server.Base.{
  ℕ, ◌+◌, ◌-◌, ◌≡◌, ◌≢◌, refl, ◌∙◌, List, [], ◌∷◌, Option, none, some, take, Result, ok, err, arith,
}
use rust_ws_server.Base.Map.{
  Map, get, insert, get-insert_self, get-insert_ne, get-remove_self, get-remove_ne,
}
use rust_ws_server.Net.{IpAddr, IpAddr-discrete}
use rust_ws_server.IpLimiter.{
  IpState, IpLimiter, IpPermit, IpRejection, u32, is_idle, idle_ips, remove_if_idle, remove_victims,
  reap_idle, entry, check_rate, admit, try_acquire, release,
}

abbrev pub count_of : Option IpState → ℕ
count_of (some st) = st.concurrent
count_of none = 0

-- The connections that the limiter counts for an address; an absent entry counts none.
abbrev pub concurrent_of : IpLimiter → IpAddr → ℕ
concurrent_of lim ip = count_of (get IpAddr-discrete ip lim.states)

abbrev pub counted : Map IpAddr IpState → IpAddr → ℕ
counted m ip = count_of (get IpAddr-discrete ip m)

counted-remove_if_idle :
    (now : ℕ) (victim ip : IpAddr) (m : Map IpAddr IpState)
    → counted (remove_if_idle now victim m) ip ≡ counted m ip
unfolding remove_if_idle is_idle
counted-remove_if_idle now victim ip m = elim (IpAddr-discrete ip victim) [
  | yes e ↦ rw e (ground (arith, get-remove_self IpAddr-discrete victim m))
  | no ne ↦ ground (arith, get-remove_ne IpAddr-discrete ip victim m ne)
]

counted-remove_victims :
    (now : ℕ) (victims : List IpAddr) (ip : IpAddr) (m : Map IpAddr IpState)
    → counted (remove_victims now victims m) ip ≡ counted m ip
unfolding remove_victims
counted-remove_victims now [] ip m = refl
counted-remove_victims now (v ∷ vs) ip m =
    counted-remove_victims now vs ip (remove_if_idle now v m) ∙ counted-remove_if_idle now v ip m

-- Reaping forgets only entries that count no connection.
pub concurrent_of-reap_idle :
    (lim : IpLimiter) (now : ℕ) (ip : IpAddr)
    → concurrent_of (reap_idle lim now) ip ≡ concurrent_of lim ip
unfolding reap_idle
concurrent_of-reap_idle lim now ip =
    counted-remove_victims now (take 64 (idle_ips now lim.states)) ip lim.states

pub concurrent-entry :
    (lim : IpLimiter) (ip : IpAddr) (now : ℕ) → (entry lim ip now).concurrent ≡ concurrent_of lim ip
unfolding entry
concurrent-entry lim ip now = ground arith

counted-insert :
    (ip : IpAddr) (st : IpState) (m : Map IpAddr IpState)
    → counted (insert IpAddr-discrete ip st m) ip ≡ st.concurrent
counted-insert ip st m = rw (get-insert_self IpAddr-discrete ip st m)

counted-insert_ne :
    (j ip : IpAddr) (st : IpState) (m : Map IpAddr IpState)
    → j ≢ ip
    → counted (insert IpAddr-discrete ip st m) j ≡ counted m j
counted-insert_ne j ip st m h = rw (get-insert_ne IpAddr-discrete j ip st m h)

pub concurrent-check_rate :
    (lim : IpLimiter) (st : IpState) (now : ℕ)
    → (check_rate lim st now).0.concurrent ≡ st.concurrent
unfolding check_rate
concurrent-check_rate lim st now = ground arith

-- The count after a call: one more if it admitted the connection, in 32 bits.
abbrev pub after : Result IpPermit IpRejection → ℕ → ℕ
after (ok _) n = u32 (n + 1)
after (err _) n = n

concurrent_of-admit :
    (lim : IpLimiter) (ip : IpAddr) (st : IpState) (now : ℕ)
    → let (lim', r) = admit lim ip st now in concurrent_of lim' ip ≡ after r st.concurrent
unfolding admit
concurrent_of-admit lim ip st now = grind (arith, counted-insert, concurrent-check_rate)

concurrent_of-admit_ne :
    (lim : IpLimiter) (ip j : IpAddr) (st : IpState) (now : ℕ)
    → j ≢ ip
    → concurrent_of (admit lim ip st now).0 j ≡ concurrent_of lim j
unfolding admit
concurrent_of-admit_ne lim ip j st now h = grind (arith, counted-insert_ne)

-- An admission counts one more connection for its address; a rejection counts none.
pub concurrent_of-try_acquire :
    (lim : IpLimiter) (ip : IpAddr) (now : ℕ)
    → let (lim', r) = try_acquire lim ip now in
      concurrent_of lim' ip ≡ after r (concurrent_of lim ip)
unfolding try_acquire
concurrent_of-try_acquire lim ip now =
    let reaped = reap_idle lim now in
    cc (
      concurrent_of-admit reaped ip (entry reaped ip now) now,
      concurrent-entry reaped ip now,
      concurrent_of-reap_idle lim now ip,
    )

-- Neither counts anything for another address.
pub concurrent_of-try_acquire_ne :
    (lim : IpLimiter) (ip j : IpAddr) (now : ℕ)
    → j ≢ ip
    → concurrent_of (try_acquire lim ip now).0 j ≡ concurrent_of lim j
unfolding try_acquire
concurrent_of-try_acquire_ne lim ip j now h =
    let reaped = reap_idle lim now in
    concurrent_of-admit_ne reaped ip j (entry reaped ip now) now h
    ∙ concurrent_of-reap_idle lim now j

pub concurrent_of-release :
    (lim : IpLimiter) (ip : IpAddr) (now : ℕ)
    → concurrent_of (release lim ip now) ip ≡ concurrent_of lim ip - 1
unfolding release
concurrent_of-release lim ip now = grind (arith, counted-insert)

pub concurrent_of-release_ne :
    (lim : IpLimiter) (ip j : IpAddr) (now : ℕ)
    → j ≢ ip
    → concurrent_of (release lim ip now) j ≡ concurrent_of lim j
unfolding release
concurrent_of-release_ne lim ip j now h = grind (arith, counted-insert_ne)
