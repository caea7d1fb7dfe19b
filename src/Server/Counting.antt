-- ===== src/Server/Counting.antt =====
-- Counting over the connections of the server.
use rust_ws_server.Base.{
  suc, ◌+◌, ◌≤◌, ◌≡◌, refl, List, [], ◌∷◌, ◌++◌, Option, none, some, length, count, arith,
}
use rust_ws_server.Handshake.Permits.{held_by}
use rust_ws_server.IpLimiter.{IpPermit}
use rust_ws_server.IpLimiter.Accounting.{open_from}
use rust_ws_server.Net.{IpAddr}
use rust_ws_server.Server.{
  Phase, upgrading, running, Connection, addresses, count_running, running_in,
}

pub open_from-append :
    (j : IpAddr) (xs ys : List IpAddr) → open_from j (xs ++ ys) ≡ open_from j xs + open_from j ys
unfolding count
open_from-append j [] ys = omega arith
open_from-append j (x ∷ xs) ys = ground (arith, open_from-append j xs ys)

held_by_bound : (j : IpAddr) (p : Option IpPermit) → open_from j (held_by p) ≤ 1
unfolding count
held_by_bound j none = omega arith
held_by_bound j (some p) = ground arith

-- A connection in the list, and the rest.
pub addresses_middle :
    (j : IpAddr) (before : List Connection) (c : Connection) (after : List Connection)
    → open_from j (addresses (before ++ c ∷ after))
      ≡ open_from j (held_by c.ip_permit) + open_from j (addresses (before ++ after))
unfolding count
addresses_middle j [] c after = open_from-append j (held_by c.ip_permit) (addresses after)
addresses_middle j (b ∷ before) c after = omega (
  arith,
  open_from-append j (held_by b.ip_permit) (addresses (before ++ c ∷ after)),
  open_from-append j (held_by b.ip_permit) (addresses (before ++ after)),
  addresses_middle j before c after,
)

pub addresses_bound : (j : IpAddr) (cs : List Connection) → open_from j (addresses cs) ≤ length cs
unfolding count
addresses_bound j [] = omega arith
addresses_bound j (c ∷ cs) = omega (
  arith,
  open_from-append j (held_by c.ip_permit) (addresses cs),
  held_by_bound j c.ip_permit,
  addresses_bound j cs,
)

count_running_bound : (phase : Phase) → count_running phase ≤ 1
count_running_bound (upgrading topic) = omega arith
count_running_bound (running id started) = omega arith

pub running_middle :
    (before : List Connection) (c : Connection) (after : List Connection)
    → running_in (before ++ c ∷ after) ≡ count_running c.phase + running_in (before ++ after)
running_middle [] c after = refl
running_middle (b ∷ before) c after = omega (arith, running_middle before c after)

pub length_middle :
    (before : List Connection) (c : Connection) (after : List Connection)
    → length (before ++ c ∷ after) ≡ suc (length (before ++ after))
length_middle [] c after = refl
length_middle (b ∷ before) c after = omega (arith, length_middle before c after)

pub running_in-le-length : (cs : List Connection) → running_in cs ≤ length cs
running_in-le-length [] = omega arith
running_in-le-length (c ∷ cs) = omega (arith, count_running_bound c.phase, running_in-le-length cs)
