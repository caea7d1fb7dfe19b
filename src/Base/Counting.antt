-- ===== src/Base/Counting.antt =====
-- How often a value stands in a list.
use Prim.Native.Nat.{ℕ, suc, ◌≤◌}
use mathlib.Core.Path.{◌≡◌, refl}
use mathlib.Core.Logic.{ite}
use mathlib.Core.List.{List, [], ◌∷◌, ◌++◌}
use native.Mathlib.Omega.{arith}
use rust_ws_server.Base.Lists.{length}

module _ {A : Type 0} (dec : Discrete A) where
  unfoldable pub count : A → List A → ℕ
  count a [] = 0
  count a (b ∷ bs) = let more = count a bs in ite (dec b a) (suc more) more

  pub count-le-length : (a : A) (bs : List A) → count a bs ≤ length bs
  unfolding count
  count-le-length a [] = omega arith
  count-le-length a (b ∷ bs) = ground (arith, count-le-length a bs)

  -- The place of an entry does not matter.
  pub count_middle :
      (a b : A) (before after : List A)
      → count a (before ++ b ∷ after) ≡ count a (b ∷ before ++ after)
  unfolding count
  count_middle a b [] after = refl
  count_middle a b (c ∷ before) after = ground (arith, count_middle a b before after)
