-- ===== src/Mint.antt =====
-- examples/mint-token.rs: the tool that makes a token for the server. `none` stands for a panic, of
-- an `expect` or of the addition.
pub mod Login
mod Tests
use rust_ws_server.Base.{
  ℕ, zero, suc, ◌≡◌, [], ◌∷◌, Option, none, some, Text, text, ℤ, pos, negsuc, ◌+ℤ◌, fits_i64,
  as_i64, ◌==◌, if◌then◌else◌,
}
use mathlib.Core.Option
use rust_ws_server.Auth.{unwrap_or}
use rust_ws_server.External.{JwtApi, hs256, Claims}
use rust_ws_server.Metrics.Decimal.{parse}

-- The variables that the tool reads.
pub record Environment : Type 0 where
  pub ws_jwt_secret : Option Text
  pub client_id : Option Text
  pub tenant_id : Option Text
  pub ttl_secs : Option Text
  pub iss : Option Text

abbrev negated : ℕ → ℤ
negated zero = pos 0
negated (suc n) = negsuc n

unfoldable pub checked : ℤ → Option ℤ
checked z = if fits_i64 z then some z else none

-- Digits behind a sign or none.
unfoldable signed : Text → Option ℤ
unfolding parse
signed [] = none
signed (c ∷ s) =
    if c == b'-'
    then Option.map negated (parse s)
    else if c == b'+'
    then Option.map pos (parse s)
    else Option.map pos (parse (c ∷ s))

-- `parse::<i64>`
unfoldable pub parse_i64 : Text → Option ℤ
unfolding signed checked
parse_i64 s = Option.bind (signed s) checked

unfoldable pub ttl : Environment → Option ℤ
unfolding parse_i64
ttl env = elim env.ttl_secs [ some s ↦ parse_i64 s | none ↦ some (pos 3600) ]

-- In debug mode, as examples are run, an addition that does not fit panics.
unfoldable pub now_plus : (now : ℕ) → (secs : ℤ) → Option ℤ
unfolding checked
now_plus now secs = checked (as_i64 now +ℤ secs)

unfoldable pub claims : Environment → (exp : ℤ) → Claims
claims env exp = record {
  sub = unwrap_or env.client_id (text "alice");
  tenant_id = env.tenant_id;
  exp = exp;
  iss = env.iss;
}

module _ (jwt : JwtApi) where
  -- The token that the tool prints.
  unfoldable pub mint : Environment → (now : ℕ) → Option Text
  unfolding ttl now_plus claims
  mint env now = Option.bind env.ws_jwt_secret λ secret. Option.bind (ttl env) λ secs.
      Option.bind (now_plus now secs)
        λ exp. jwt.encode hs256 (claims env exp) (jwt.encoding_secret secret)
