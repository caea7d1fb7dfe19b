-- ===== src/Str.antt =====
-- The methods of Rust's `str` that the program calls, over code points.
pub mod Trim
pub mod Split
use rust_ws_server.Base.{
  ℕ, ◌+◌, Bool, true, false, ◌&&◌, ◌||◌, List, [], ◌∷◌, Option, none, some, Text, ltb, leb, ◌==◌,
  if◌then◌else◌,
}
use mathlib.Core.Option

-- `char::is_whitespace`: the code points with the Unicode property White_Space.
unfoldable pub is_whitespace : ℕ → Bool
is_whitespace c =
    (leb 0x9 c && leb c 0xD)
    || c == 0x20
    || c == 0x85
    || c == 0xA0
    || c == 0x1680
    || (leb 0x2000 c && leb c 0x200A)
    || c == 0x2028
    || c == 0x2029
    || c == 0x202F
    || c == 0x205F
    || c == 0x3000

unfoldable pub is_empty : Text → Bool
is_empty [] = true
is_empty (_ ∷ _) = false

-- `trim_start_matches`, for a test on characters.
unfoldable pub trim_start_matches : (ℕ → Bool) → Text → Text
trim_start_matches p [] = []
trim_start_matches p (c ∷ s) = if p c then trim_start_matches p s else c ∷ s

unfoldable pub trim_end_matches : (ℕ → Bool) → Text → Text
unfolding is_empty
trim_end_matches p [] = []
trim_end_matches p (c ∷ s) =
    let rest = trim_end_matches p s in if is_empty rest && p c then [] else c ∷ rest

unfoldable pub trim : Text → Text
unfolding trim_start_matches trim_end_matches is_whitespace
trim s = trim_end_matches is_whitespace (trim_start_matches is_whitespace s)

-- `split_once(sep)`: around the first separator.
unfoldable pub split_once : ℕ → Text → Option (Text × Text)
split_once sep [] = none
split_once sep (c ∷ s) =
    if c == sep
    then some ([], s)
    else Option.map (λ (p : Text × Text). (c ∷ p.0, p.1)) (split_once sep s)

-- `split(sep).next()`, which is never `None`.
unfoldable pub split_first : ℕ → Text → Text
split_first sep [] = []
split_first sep (c ∷ s) = if c == sep then [] else c ∷ split_first sep s

-- `strip_prefix(prefix)`.
unfoldable pub strip_prefix : Text → Text → Option Text
strip_prefix [] s = some s
strip_prefix (p ∷ ps) [] = none
strip_prefix (p ∷ ps) (c ∷ s) = if p == c then strip_prefix ps s else none

-- `contains(pattern)`.
unfoldable pub contains : Text → Text → Bool
unfolding strip_prefix
contains pattern [] = elim (strip_prefix pattern []) [ some _ ↦ true | none ↦ false ]
contains pattern (c ∷ s) = elim (strip_prefix pattern (c ∷ s)) [
  | some _ ↦ true
  | none ↦ contains pattern s
]

-- `char::len_utf8`.
unfoldable pub len_utf8 : ℕ → ℕ
len_utf8 c = if ltb c 0x80 then 1 else if ltb c 0x800 then 2 else if ltb c 0x10000 then 3 else 4

-- `len`: bytes of UTF-8.
unfoldable pub len : Text → ℕ
unfolding len_utf8
len [] = 0
len (c ∷ s) = len_utf8 c + len s
