-- ===== src/IpLimiter/Accounting.antt =====
-- Connections come and go: what the limiter counts is what is open, and the cap holds.
use rust_ws_server.Base.{
  count, count-le-length, count_middle, ℕ, suc, ◌<◌, ◌≤◌, ◌≡◌, ◌≢◌, refl, ◌∙◌, List, [], ◌∷◌, ◌++◌,
  some, Result, ok, err, length, arith, ite, ◌^◌, ap, sym, if_pos, if_neg, ◌-◌, ◌*◌,
}
use rust_ws_server.Net.{IpAddr, IpAddr-discrete}
use rust_ws_server.IpLimiter.{
  IpLimiter, IpPermit, IpRejection, IpState, try_acquire, release, drop, u32, admit, reap_idle,
  entry, from_config,
}
use rust_ws_server.Config.{Config}
use mathlib.Core.Option
use rust_ws_server.Base.Map.{get}
use rust_ws_server.IpLimiter.Entries.{
  concurrent_of, after, concurrent_of-try_acquire, concurrent_of-try_acquire_ne,
  concurrent_of-release, concurrent_of-release_ne, concurrent-entry, concurrent-check_rate,
  concurrent_of-reap_idle,
}

-- The limiter and the addresses of the open connections, each of which holds its permit.
pub record System : Type 0 where
  pub limiter : IpLimiter
  pub held : List IpAddr

abbrev pub open_from : IpAddr → List IpAddr → ℕ
open_from = count IpAddr-discrete

-- Attempts are made and connections end in any order. Fewer than 2³² connections are open.
pub data Step (s : System) : System → Type 0 where
  admitted :
      (ip : IpAddr) (now : ℕ) (lim : IpLimiter)
      → try_acquire s.limiter ip now ≡ (lim, ok (record { ip = some ip }))
      → suc (length s.held) < 2 ^ 32
      → Step s (record { limiter = lim; held = ip ∷ s.held })
  refused :
      (ip : IpAddr) (now : ℕ) (lim : IpLimiter) (why : IpRejection)
      → try_acquire s.limiter ip now ≡ (lim, err why)
      → Step s (record { limiter = lim; held = s.held })
  closed :
      (before : List IpAddr) (ip : IpAddr) (rest : List IpAddr) (now : ℕ)
      → s.held ≡ before ++ ip ∷ rest
      → Step s
          (record { limiter = drop s.limiter (record { ip = some ip }) now; held = before ++ rest })

pub data Reach (s : System) : System → Type 0 where
  here : Reach s s
  next : {t u : System} → Reach s t → Step t u → Reach s u

-- For every address the limiter counts exactly the open connections.
abbrev pub IsAccounted : System → Type 0
IsAccounted s = (ip : IpAddr) → concurrent_of s.limiter ip ≡ open_from ip s.held

pub concurrent_of-drop :
    (lim : IpLimiter) (ip j : IpAddr) (now : ℕ)
    → concurrent_of (drop lim (record { ip = some ip }) now) j
      ≡ ite (IpAddr-discrete ip j) (concurrent_of lim j - 1) (concurrent_of lim j)
unfolding drop
concurrent_of-drop lim ip j now = elim (IpAddr-discrete ip j) [
  | yes same ↦ rw (if_pos _ same, same) (concurrent_of-release lim j now)
  | no other ↦ rw (if_neg _ other) (concurrent_of-release_ne lim ip j now (λ e. other (sym e)))
]

pub concurrent_of-attempt :
    (lim lim' : IpLimiter) (ip j : IpAddr) (now : ℕ) (r : Result IpPermit IpRejection)
    → try_acquire lim ip now ≡ (lim', r)
    → concurrent_of lim' j
      ≡ ite (IpAddr-discrete ip j) (after r (concurrent_of lim j)) (concurrent_of lim j)
concurrent_of-attempt lim lim' ip j now r e = elim (IpAddr-discrete ip j) [
  | yes same ↦ rw (if_pos _ same, ← same) (cc (concurrent_of-try_acquire lim ip now))
  | no other ↦
      rw (if_neg _ other) (cc (concurrent_of-try_acquire_ne lim ip j now (λ p. other (sym p))))
]

pub Step-IsAccounted : {s t : System} → Step s t → IsAccounted s → IsAccounted t
unfolding count
Step-IsAccounted {s} (admitted ip now lim e small) h j = ground (
  arith,
  concurrent_of-attempt s.limiter lim ip j now _ e,
  h j,
  count-le-length IpAddr-discrete j s.held,
)
Step-IsAccounted {s} (refused ip now lim why e) h j =
    ground (arith, concurrent_of-attempt s.limiter lim ip j now _ e, h j)
Step-IsAccounted {s} (closed before ip rest now e) h j = ground (
  arith,
  concurrent_of-drop s.limiter ip j now,
  h j,
  ap (open_from j) e,
  count_middle IpAddr-discrete j ip before rest,
)

Reach-IsAccounted : {s t : System} → Reach s t → IsAccounted s → IsAccounted t
Reach-IsAccounted here h = h
Reach-IsAccounted (next r st) h = Step-IsAccounted st (Reach-IsAccounted r h)

-- The permit of an admission is for the address that asked.
pub attempt_permit :
    (lim lim' : IpLimiter) (ip : IpAddr) (now : ℕ) (p : IpPermit)
    → try_acquire lim ip now ≡ (lim', ok p)
    → p ≡ record { ip = some ip }
unfolding try_acquire admit
attempt_permit lim lim' ip now p e = ground arith

pub max_concurrent-attempt :
    (lim lim' : IpLimiter) (ip : IpAddr) (now : ℕ) (r : Result IpPermit IpRejection)
    → try_acquire lim ip now ≡ (lim', r)
    → lim'.max_concurrent ≡ lim.max_concurrent
unfolding try_acquire admit reap_idle
max_concurrent-attempt lim lim' ip now r e = ground arith

pub max_concurrent-drop :
    (lim : IpLimiter) (permit : IpPermit) (now : ℕ)
    → (drop lim permit now).max_concurrent ≡ lim.max_concurrent
unfolding drop release
max_concurrent-drop lim permit now = ground arith

-- A step leaves the cap alone.
Step-max_concurrent :
    {s t : System} → Step s t → t.limiter.max_concurrent ≡ s.limiter.max_concurrent
Step-max_concurrent {s} (admitted ip now lim e small) =
    max_concurrent-attempt s.limiter lim ip now _ e
Step-max_concurrent {s} (refused ip now lim why e) = max_concurrent-attempt s.limiter lim ip now _ e
Step-max_concurrent {s} (closed before ip rest now e) = max_concurrent-drop s.limiter _ now

admit_below_cap :
    (lim lim' : IpLimiter) (ip : IpAddr) (st : IpState) (now : ℕ) (p : IpPermit) (cap : ℕ)
    → lim.max_concurrent ≡ some cap
    → admit lim ip st now ≡ (lim', ok p)
    → st.concurrent < cap
unfolding admit
admit_below_cap lim lim' ip st now p cap c e = ground (arith, concurrent-check_rate lim st now)

pub attempt_below_cap :
    (lim lim' : IpLimiter) (ip : IpAddr) (now : ℕ) (p : IpPermit) (cap : ℕ)
    → lim.max_concurrent ≡ some cap
    → try_acquire lim ip now ≡ (lim', ok p)
    → concurrent_of lim ip < cap
unfolding try_acquire reap_idle
attempt_below_cap lim lim' ip now p cap c e =
    let reaped = reap_idle lim now in
    omega (
      arith,
      admit_below_cap reaped lim' ip (entry reaped ip now) now p cap c e,
      concurrent-entry reaped ip now,
      concurrent_of-reap_idle lim now ip,
    )

-- No address has more open connections than the cap, where one is set.
abbrev pub IsCapped : System → Type 0
IsCapped s =
    (cap : ℕ) → s.limiter.max_concurrent ≡ some cap → (ip : IpAddr) → open_from ip s.held ≤ cap

Step-IsCapped : {s t : System} → Step s t → IsAccounted s → IsCapped s → IsCapped t
unfolding count
Step-IsCapped {s} (admitted ip now lim e small) acc h cap c j =
    let c' = sym (Step-max_concurrent {s = s} (admitted ip now lim e small)) ∙ c in
    ground (arith, attempt_below_cap s.limiter lim ip now _ cap c' e, acc ip, h cap c' j)
Step-IsCapped {s} (refused ip now lim why e) acc h cap c j =
    h cap (sym (Step-max_concurrent {s = s} (refused ip now lim why e)) ∙ c) j
Step-IsCapped {s} (closed before ip rest now e) acc h cap c j =
    let c' = sym (Step-max_concurrent {s = s} (closed before ip rest now e)) ∙ c in
    ground (arith, h cap c' j, ap (open_from j) e, count_middle IpAddr-discrete j ip before rest)

Reach-IsCapped : {s t : System} → Reach s t → IsAccounted s → IsCapped s → IsCapped t
Reach-IsCapped here acc h = h
Reach-IsCapped (next r st) acc h =
    Step-IsCapped st (Reach-IsAccounted r acc) (Reach-IsCapped r acc h)

Reach-max_concurrent :
    {s t : System} → Reach s t → t.limiter.max_concurrent ≡ s.limiter.max_concurrent
Reach-max_concurrent here = refl
Reach-max_concurrent (next r st) = Step-max_concurrent st ∙ Reach-max_concurrent r

concurrent_of-from_config :
    (config : Config) (lim : IpLimiter) (ip : IpAddr)
    → from_config config ≡ some lim
    → concurrent_of lim ip ≡ 0
unfolding from_config get
concurrent_of-from_config config lim ip e = ground arith

max_concurrent-from_config :
    (config : Config) (lim : IpLimiter)
    → from_config config ≡ some lim
    → lim.max_concurrent ≡ Option.map u32 config.ip_max_concurrent
unfolding from_config
max_concurrent-from_config config lim e = ground arith

-- Along every history of attempts and closings that begins with the limiter of a configuration, and
-- in which fewer than 2³² connections are open at any time, the limiter counts for each address
-- exactly its open connections; and where the configured cap is below 2³², no address has more of
-- them than the cap.
pub Reach-from_config :
    (config : Config) (lim : IpLimiter) (s : System)
    → from_config config ≡ some lim
    → Reach (record { limiter = lim; held = [] }) s
    → IsAccounted s
      × ((cap : ℕ)
          → config.ip_max_concurrent ≡ some cap
          → cap < 2 ^ 32
          → (ip : IpAddr) → open_from ip s.held ≤ cap)
unfolding count
Reach-from_config config lim s e r =
    let acc : IsAccounted (record { limiter = lim; held = [] }) =
      λ ip. concurrent_of-from_config config lim ip e in
    let cap_of = Reach-max_concurrent r ∙ max_concurrent-from_config config lim e in
    (
      Reach-IsAccounted r acc,
      λ cap c small. Reach-IsCapped r acc (λ k _ ip. omega arith) cap (cap_of ∙ ground arith),
    )

-- A configured cap that is a multiple of 2³² becomes the cap 0, and every attempt is refused.
pub try_acquire_truncated_cap :
    (config : Config) (lim lim' : IpLimiter) (ip : IpAddr) (now k : ℕ) (p : IpPermit)
    → config.ip_max_concurrent ≡ some (k * 2 ^ 32)
    → from_config config ≡ some lim
    → try_acquire lim ip now ≢ (lim', ok p)
try_acquire_truncated_cap config lim lim' ip now k p c e t =
    let zero_cap : u32 (k * 2 ^ 32) ≡ 0 = omega arith in
    let none_below =
      attempt_below_cap lim lim' ip now p 0
        (max_concurrent-from_config config lim e ∙ rw (c, zero_cap) refl) t in
    absurd (omega arith)
