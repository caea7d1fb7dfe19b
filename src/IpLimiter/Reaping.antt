-- ===== src/IpLimiter/Reaping.antt =====
-- Which entries `reap_idle` forgets.
use rust_ws_server.Base.{
  ℕ, ◌+◌, ◌*◌, ◌<◌, ◌≤◌, ◌≡◌, ◌≢◌, ◌⊎◌, ◌∙◌, true, false, List, [], ◌∷◌, Option, none, some, take,
  take_of_length-le, length, arith,
}
use rust_ws_server.Base.Map.{Map, get, get-remove_self, get-remove_ne}
use rust_ws_server.Bucket
use rust_ws_server.Net.{IpAddr, IpAddr-discrete}
use rust_ws_server.IpLimiter.{
  IpState, IpLimiter, is_idle, idle_ips, remove_if_idle, remove_victims, reap_idle, entry,
}

abbrev lookup : IpAddr → Map IpAddr IpState → Option IpState
lookup = get IpAddr-discrete

lookup-remove_if_idle_busy :
    (now : ℕ) (victim ip : IpAddr) (m : Map IpAddr IpState) (st : IpState)
    → lookup ip m ≡ some st
    → is_idle now st ≡ false
    → lookup ip (remove_if_idle now victim m) ≡ some st
unfolding remove_if_idle
lookup-remove_if_idle_busy now victim ip m st e busy = elim (IpAddr-discrete ip victim) [
  | yes same ↦ rw (← same) (ground arith)
  | no ne ↦ ground (arith, get-remove_ne IpAddr-discrete ip victim m ne)
]

lookup-remove_victims_busy :
    (now : ℕ) (victims : List IpAddr) (ip : IpAddr) (m : Map IpAddr IpState) (st : IpState)
    → lookup ip m ≡ some st
    → is_idle now st ≡ false
    → lookup ip (remove_victims now victims m) ≡ some st
unfolding remove_victims
lookup-remove_victims_busy now [] ip m st e busy = e
lookup-remove_victims_busy now (v ∷ vs) ip m st e busy =
    lookup-remove_victims_busy now vs ip (remove_if_idle now v m) st
      (lookup-remove_if_idle_busy now v ip m st e busy) busy

is_idle_busy :
    (now : ℕ) (st : IpState)
    → (0 < st.concurrent) ⊎ (now ≤ st.last_seen + 5 * 60 * 1_000_000_000)
    → is_idle now st ≡ false
unfolding is_idle
is_idle_busy now st h = ground arith

-- An entry that counts a connection, or was used within the last five minutes, is kept as it is.
-- Instants are in nanoseconds.
pub reap_idle_keeps :
    (lim : IpLimiter) (now : ℕ) (ip : IpAddr) (st : IpState)
    → get IpAddr-discrete ip lim.states ≡ some st
    → (0 < st.concurrent) ⊎ (now ≤ st.last_seen + 5 * 60 * 1_000_000_000)
    → get IpAddr-discrete ip (reap_idle lim now).states ≡ some st
unfolding reap_idle
reap_idle_keeps lim now ip st e used =
    lookup-remove_victims_busy now (take 64 (idle_ips now lim.states)) ip lim.states st e
      (is_idle_busy now st used)

lookup-remove_if_idle-none :
    (now : ℕ) (victim ip : IpAddr) (m : Map IpAddr IpState)
    → lookup ip m ≡ none
    → lookup ip (remove_if_idle now victim m) ≡ none
unfolding remove_if_idle
lookup-remove_if_idle-none now victim ip m e = elim (IpAddr-discrete ip victim) [
  | yes same ↦ rw (← same) (ground arith)
  | no ne ↦ ground (arith, get-remove_ne IpAddr-discrete ip victim m ne)
]

lookup-remove_victims-none :
    (now : ℕ) (victims : List IpAddr) (ip : IpAddr) (m : Map IpAddr IpState)
    → lookup ip m ≡ none
    → lookup ip (remove_victims now victims m) ≡ none
unfolding remove_victims
lookup-remove_victims-none now [] ip m e = e
lookup-remove_victims-none now (v ∷ vs) ip m e =
    lookup-remove_victims-none now vs ip (remove_if_idle now v m)
      (lookup-remove_if_idle-none now v ip m e)

abbrev IsIn : IpAddr → List IpAddr → Type 0
IsIn ip [] = ⊥
IsIn ip (j ∷ js) = (j ≡ ip) ⊎ IsIn ip js

IsIn-idle_ips :
    (now : ℕ) (ip : IpAddr) (m : Map IpAddr IpState) (st : IpState)
    → lookup ip m ≡ some st
    → is_idle now st ≡ true
    → IsIn ip (idle_ips now m)
unfolding idle_ips get
IsIn-idle_ips now ip [] st e idle = cc
IsIn-idle_ips now ip ((j, w) ∷ m) st e idle = ground (arith, IsIn-idle_ips now ip m st)

lookup-remove_if_idle_self :
    (now : ℕ) (ip : IpAddr) (m : Map IpAddr IpState) (st : IpState)
    → lookup ip m ≡ some st
    → is_idle now st ≡ true
    → lookup ip (remove_if_idle now ip m) ≡ none
unfolding remove_if_idle
lookup-remove_if_idle_self now ip m st e idle = ground (arith, get-remove_self IpAddr-discrete ip m)

lookup-remove_if_idle_ne :
    (now : ℕ) (victim ip : IpAddr) (m : Map IpAddr IpState)
    → ip ≢ victim
    → lookup ip (remove_if_idle now victim m) ≡ lookup ip m
unfolding remove_if_idle
lookup-remove_if_idle_ne now victim ip m ne =
    ground (arith, get-remove_ne IpAddr-discrete ip victim m ne)

lookup-remove_victims_idle :
    (now : ℕ) (victims : List IpAddr) (ip : IpAddr) (m : Map IpAddr IpState) (st : IpState)
    → lookup ip m ≡ some st
    → is_idle now st ≡ true
    → IsIn ip victims
    → lookup ip (remove_victims now victims m) ≡ none
unfolding remove_victims
lookup-remove_victims_idle now [] ip m st e idle member = absurd member
lookup-remove_victims_idle now (v ∷ vs) ip m st e idle member = elim (IpAddr-discrete ip v) [
  | yes same ↦
      lookup-remove_victims-none now vs ip (remove_if_idle now v m)
        (rw (← same) (lookup-remove_if_idle_self now ip m st e idle))
  | no ne ↦
      lookup-remove_victims_idle now vs ip (remove_if_idle now v m) st
        (lookup-remove_if_idle_ne now v ip m ne ∙ e) idle (ground arith)
]

-- While at most 64 entries are idle, each of them is forgotten at the next attempt from any
-- address: an idle one is one that counts no connection and was last used over five minutes ago.
pub reap_idle_forgets :
    (lim : IpLimiter) (now : ℕ) (ip : IpAddr) (st : IpState)
    → get IpAddr-discrete ip lim.states ≡ some st
    → is_idle now st ≡ true
    → length (idle_ips now lim.states) ≤ 64
    → get IpAddr-discrete ip (reap_idle lim now).states ≡ none
unfolding reap_idle
reap_idle_forgets lim now ip st e idle few =
    lookup-remove_victims_idle now (take 64 (idle_ips now lim.states)) ip lim.states st e idle (
      rw (take_of_length-le 64 (idle_ips now lim.states) few)
        (IsIn-idle_ips now ip lim.states st e idle))

bucket-entry-none :
    (lim : IpLimiter) (ip : IpAddr) (now : ℕ)
    → lookup ip lim.states ≡ none
    → (entry lim ip now).bucket ≡ Bucket.new lim.refill_per_second lim.burst now
unfolding entry
bucket-entry-none lim ip now e = rw (e, entry)

-- The bucket goes with the entry: the next attempt from such an address finds a full bucket,
-- whatever the tokens that were left.
pub entry-reap_idle_full :
    (lim : IpLimiter) (now : ℕ) (ip : IpAddr) (st : IpState)
    → get IpAddr-discrete ip lim.states ≡ some st
    → is_idle now st ≡ true
    → length (idle_ips now lim.states) ≤ 64
    → (entry (reap_idle lim now) ip now).bucket ≡ Bucket.new lim.refill_per_second lim.burst now
unfolding reap_idle
entry-reap_idle_full lim now ip st e idle few =
    bucket-entry-none (reap_idle lim now) ip now (reap_idle_forgets lim now ip st e idle few)
