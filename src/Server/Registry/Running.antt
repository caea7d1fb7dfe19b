-- ===== src/Server/Registry/Running.antt =====
-- The ids under which connections run.
use rust_ws_server.Base.{
  ℕ, ℕ_discrete, ◌+◌, ◌<◌, ◌≤◌, ◌≡◌, ◌≢◌, ap, List, [], ◌∷◌, ◌++◌, Text, arith, count,
  count-le-length,
}
use rust_ws_server.Server.{Phase, upgrading, running, Connection}
use rust_ws_server.Server.Registry.{Runs, this, other}

abbrev pub id_of : Phase → List ℕ
id_of (upgrading topic) = []
id_of (running id started) = id ∷ []

-- The ids of the connections that run.
abbrev pub ids : List Connection → List ℕ
ids [] = []
ids (c ∷ cs) = id_of c.phase ++ ids cs

-- How many of the connections run under an id.
abbrev pub running_under : ℕ → List Connection → ℕ
running_under i cs = count ℕ_discrete i (ids cs)

count-id_of :
    (i : ℕ) (phase : Phase) (rest : List ℕ)
    → count ℕ_discrete i (id_of phase ++ rest)
      ≡ count ℕ_discrete i (id_of phase) + count ℕ_discrete i rest
unfolding count
count-id_of i (upgrading topic) rest = omega arith
count-id_of i (running id started) rest = ground arith

pub running_under_middle :
    (i : ℕ) (before : List Connection) (c : Connection) (after : List Connection)
    → running_under i (before ++ c ∷ after)
      ≡ count ℕ_discrete i (id_of c.phase) + running_under i (before ++ after)
running_under_middle i [] c after = count-id_of i c.phase (ids after)
running_under_middle i (b ∷ before) c after = omega (
  arith,
  count-id_of i b.phase (ids (before ++ c ∷ after)),
  count-id_of i b.phase (ids (before ++ after)),
  running_under_middle i before c after,
)

pub count_self : (i : ℕ) → count ℕ_discrete i (i ∷ []) ≡ 1
unfolding count
count_self i = ground arith

pub count_ne : (i j : ℕ) → i ≢ j → count ℕ_discrete i (j ∷ []) ≡ 0
unfolding count
count_ne i j h = ground arith

-- A connection that runs counts under its id.
pub Runs-running_under :
    {client tenant : Text} {id : ℕ} (cs : List Connection)
    → Runs client tenant id cs
    → 0 < running_under id cs
Runs-running_under [] r = elim r [ ]
Runs-running_under {id} (c ∷ cs) (this (_, _, phase)) = omega (
  arith,
  count-id_of id c.phase (ids cs),
  ap (λ p. count ℕ_discrete id (id_of p)) phase,
  count_self id,
)
Runs-running_under {id} (c ∷ cs) (other r) =
    omega (arith, count-id_of id c.phase (ids cs), Runs-running_under cs r)

pub one_more_once :
    (n i id rest : ℕ) {all new : ℕ}
    → id ≡ n + 1
    → rest ≤ all
    → all ≤ 1
    → (n < i → all ≡ 0)
    → new ≡ count ℕ_discrete i (id ∷ []) + rest
    → new ≤ 1
one_more_once n i id rest own fewer once above e = elim (ℕ_discrete i id) [
  | yes same ↦ omega (arith, above (omega arith), count-le-length ℕ_discrete i (id ∷ []))
  | no differ ↦ omega (arith, count_ne i id differ)
]
