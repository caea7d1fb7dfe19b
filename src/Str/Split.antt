-- ===== src/Str/Split.antt =====
-- Splitting at a separator.
use rust_ws_server.Base.{
  ℕ, ◌≡◌, ◌≢◌, refl, Bool, true, false, not, ◌&&◌, ◌==◌, [], ◌∷◌, ◌++◌, some, Text, All, arith,
}
use rust_ws_server.Str.{split_once, split_first}

-- The separator does not occur.
abbrev pub IsFree : ℕ → Text → Type 0
IsFree sep = All λ c. c ≢ sep

pub split_once-append :
    (sep : ℕ) (s t : Text) → IsFree sep s → split_once sep (s ++ sep ∷ t) ≡ some (s, t)
unfolding split_once
split_once-append sep [] t h = ground arith
split_once-append sep (c ∷ s) t (h, hs) = rw (split_once-append sep s t hs) (ground arith)

pub split_first-append : (sep : ℕ) (s t : Text) → IsFree sep s → split_first sep (s ++ sep ∷ t) ≡ s
unfolding split_first
split_first-append sep [] t h = ground arith
split_first-append sep (c ∷ s) t (h, hs) = rw (split_first-append sep s t hs) (ground arith)

pub IsFree-append : (c : ℕ) (s t : Text) → IsFree c s → IsFree c t → IsFree c (s ++ t)
IsFree-append c [] t h h' = h'
IsFree-append c (x ∷ s) t (h, hs) h' = (h, IsFree-append c s t hs h')

-- The test of a text that has none of a character.
abbrev pub is_free : ℕ → Text → Bool
is_free sep [] = true
is_free sep (c ∷ s) = not (c == sep) && is_free sep s

pub both : (a b : Bool) → a && b ≡ true → (a ≡ true) × (b ≡ true)
both true b h = (refl, h)
both false b h = absurd (cc h)

differs : (a b : ℕ) → not (a == b) ≡ true → a ≢ b
differs a b h = ground arith

pub is_free-IsFree : (sep : ℕ) (s : Text) → is_free sep s ≡ true → IsFree sep s
is_free-IsFree sep [] h = tt
is_free-IsFree sep (c ∷ s) h =
    let (ne, rest) = both (not (c == sep)) (is_free sep s) h in
    (differs c sep ne, is_free-IsFree sep s rest)
