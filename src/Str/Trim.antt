-- ===== src/Str/Trim.antt =====
-- What trimming leaves.
use rust_ws_server.Base.{ℕ, ◌≤◌, ◌≡◌, refl, Bool, false, [], ◌∷◌, Text, length, arith}
use rust_ws_server.Str.{trim_start_matches, trim_end_matches}

-- The first character, if there is one, fails the test.
abbrev pub StartsOff : (ℕ → Bool) → Text → Type 0
StartsOff p [] = Unit
StartsOff p (c ∷ _) = p c ≡ false

-- So does the last one.
abbrev pub EndsOff : (ℕ → Bool) → Text → Type 0
EndsOff p [] = Unit
EndsOff p (c ∷ []) = p c ≡ false
EndsOff p (_ ∷ d ∷ s) = EndsOff p (d ∷ s)

pub trim_start_matches-StartsOff : (p : ℕ → Bool) (s : Text) → StartsOff p (trim_start_matches p s)
unfolding trim_start_matches
trim_start_matches-StartsOff p [] = tt
trim_start_matches-StartsOff p (c ∷ s) = ground (arith, trim_start_matches-StartsOff p s)

pub trim_start_matches_of_StartsOff :
    (p : ℕ → Bool) (s : Text) → StartsOff p s → trim_start_matches p s ≡ s
unfolding trim_start_matches
trim_start_matches_of_StartsOff p [] h = refl
trim_start_matches_of_StartsOff p (c ∷ s) h = rw h

pub trim_end_matches_of_EndsOff : (p : ℕ → Bool) (s : Text) → EndsOff p s → trim_end_matches p s ≡ s
unfolding trim_end_matches
trim_end_matches_of_EndsOff p [] h = refl
trim_end_matches_of_EndsOff p (c ∷ []) h = rw h
trim_end_matches_of_EndsOff p (c ∷ d ∷ s) h = rw (trim_end_matches_of_EndsOff p (d ∷ s) h)

length-trim_start_matches-le :
    (p : ℕ → Bool) (s : Text) → length (trim_start_matches p s) ≤ length s
unfolding trim_start_matches
length-trim_start_matches-le p [] = omega arith
length-trim_start_matches-le p (c ∷ s) = ground (arith, length-trim_start_matches-le p s)
