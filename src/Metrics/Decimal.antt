-- ===== src/Metrics/Decimal.antt =====
-- `Display` of a `u64`, and a reader of decimal digits.
use rust_ws_server.Base.{
  ℕ, zero, suc, ◌+◌, ◌-◌, ◌*◌, ◌/◌, ◌%◌, ◌^◌, ◌<◌, ◌≡◌, ◌≢◌, ◌⊎◌, refl, subst, ◌∙◌, ap, Bool, ◌&&◌,
  [], ◌∷◌, Option, none, some, Text, leb, inl, inr, zero-or-pos, if◌then◌else◌, arith,
}
use rust_ws_server.Str.Split.{IsFree}

abbrev digit : ℕ → ℕ
digit n = b'0' + n % 10

-- The digits of `n` in front of `out`, at most `fuel` of them.
unfoldable pub digits : (fuel n : ℕ) → (out : Text) → Text
digits zero n out = out
digits (suc fuel) n out = elim (n / 10) [
  | zero ↦ digit n ∷ out
  | suc q ↦ digits fuel (suc q) (digit n ∷ out)
]

-- A word of 64 bits has at most twenty digits.
unfoldable pub to_string : ℕ → Text
unfolding digits
to_string n = digits 20 n []

abbrev pub is_digit : ℕ → Bool
is_digit c = leb b'0' c && leb c b'9'

-- The number of which `n` has the digits read so far.
unfoldable pub read_from : (n : ℕ) → Text → Option ℕ
read_from n [] = some n
read_from n (c ∷ s) =
    let rest = read_from (n * 10 + (c - b'0')) s in if is_digit c then rest else none

unfoldable pub parse : Text → Option ℕ
unfolding read_from
parse [] = none
parse (c ∷ s) = read_from 0 (c ∷ s)

parse_max : parse (to_string (2 ^ 64 - 1)) ≡ some (2 ^ 64 - 1)
unfolding parse to_string
parse_max = refl

read_from-digit : (a n : ℕ) (s : Text) → read_from a (digit n ∷ s) ≡ read_from (a * 10 + n % 10) s
unfolding read_from
read_from-digit a n s = ground arith

-- What stands before the last digit, if anything does.
tenth_cases : (n : ℕ) → (n / 10 ≡ 0) ⊎ ((q : ℕ) × (n / 10 ≡ suc q))
tenth_cases n = elim (zero-or-pos (n / 10)) [
  | inl e ↦ inl e
  | inr lt ↦ inr (n / 10 - 1, omega arith)
]

power : (k : ℕ) → 10 ^ suc k ≡ 10 * 10 ^ k
power k = ground arith

tenth_below : (n q p : ℕ) → n / 10 ≡ suc q → n < 10 * p → suc q < p
tenth_below n q p e h = omega arith

digit_ne : (n sep : ℕ) → sep < b'0' → digit n ≢ sep
digit_ne n sep h e = omega arith

read_from-digits :
    (fuel n : ℕ) (out : Text)
    → n < 10 ^ suc fuel
    → read_from 0 (digits (suc fuel) n out) ≡ read_from n out
unfolding digits
read_from-digits zero n out h =
    let e : n / 10 ≡ 0 = omega arith in
    rw (e, digits) (read_from-digit 0 n out ∙ ap (λ m. read_from m out) (omega arith))
read_from-digits (suc fuel) n out h = elim (tenth_cases n) [
  | inl e ↦ rw (e, digits) (read_from-digit 0 n out ∙ ap (λ m. read_from m out) (omega arith))
  | inr (q, e) ↦
      let below : suc q < 10 ^ suc fuel =
        tenth_below n q (10 ^ suc fuel) e (subst (λ p. n < p) (power (suc fuel)) h) in
      rw (e, digits)
        (read_from-digits fuel (suc q) (digit n ∷ out) below
          ∙ read_from-digit (suc q) n out
          ∙ ap (λ m. read_from m out) (omega arith))
]

digits-IsFree :
    (sep fuel n : ℕ) (out : Text) → sep < b'0' → IsFree sep out → IsFree sep (digits fuel n out)
unfolding digits
digits-IsFree sep zero n out h free = free
digits-IsFree sep (suc fuel) n out h free = elim (tenth_cases n) [
  | inl e ↦ rw (e, digits) (digit_ne n sep h, free)
  | inr (q, e) ↦
      rw (e, digits) (digits-IsFree sep fuel (suc q) (digit n ∷ out) h (digit_ne n sep h, free))
]

parse-digits :
    (fuel n c : ℕ) (out : Text)
    → parse (digits fuel n (c ∷ out)) ≡ read_from 0 (digits fuel n (c ∷ out))
unfolding digits parse
parse-digits zero n c out = refl
parse-digits (suc fuel) n c out = elim (tenth_cases n) [
  | inl e ↦ rw (e, digits) refl
  | inr (q, e) ↦ rw (e, digits) (parse-digits fuel (suc q) (digit n) (c ∷ out))
]

parse-digits_fresh :
    (fuel n : ℕ) → parse (digits (suc fuel) n []) ≡ read_from 0 (digits (suc fuel) n [])
unfolding digits parse
parse-digits_fresh fuel n = elim (tenth_cases n) [
  | inl e ↦ rw (e, digits) refl
  | inr (q, e) ↦ rw (e, digits) (parse-digits fuel (suc q) (digit n) [])
]

pub parse-to_string : (n : ℕ) → n < 2 ^ 64 → parse (to_string n) ≡ some n
unfolding to_string read_from
parse-to_string n h = parse-digits_fresh 19 n ∙ read_from-digits 19 n [] (omega arith)

pub to_string-IsFree : (sep n : ℕ) → sep < b'0' → IsFree sep (to_string n)
unfolding to_string
to_string-IsFree sep n h = digits-IsFree sep 20 n [] h tt
