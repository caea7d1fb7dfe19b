-- ===== src/Mint/Tests.antt =====
-- A token for "ann" and a server with the same secret.
use rust_ws_server.Base.{◌≡◌, refl, [], ◌∷◌, inl, none, some, ok, Text, text, pos, negsuc, arith}
use mathlib.Core.Option
use rust_ws_server.Auth.{AuthVerifier, from_config, verify}
use rust_ws_server.Config.{Config}
use rust_ws_server.External.Model.{sample}
use rust_ws_server.External.Tokens.{plain_jwt}
use rust_ws_server.Mint.{Environment, parse_i64, ttl, mint}
use rust_ws_server.Mint.Login.{mint-verify}

parse_i64_lowest : parse_i64 (text "-9223372036854775808") ≡ some (negsuc 9_223_372_036_854_775_807)
unfolding parse_i64 Option.bind
parse_i64_lowest = refl

parse_i64_overflow : parse_i64 (text "9223372036854775808") ≡ none
unfolding parse_i64 Option.bind
parse_i64_overflow = refl

parse_i64_plus : parse_i64 (text "+60") ≡ some (pos 60)
unfolding parse_i64 Option.bind
parse_i64_plus = refl

abbrev guarded : Config
guarded = record sample { jwt_secret = some (text "secret") }

abbrev ann : Environment
ann = record {
  ws_jwt_secret = some (text "secret");
  client_id = some (text "ann");
  tenant_id = none;
  ttl_secs = some (text "600");
  iss = none;
}

abbrev ann_token : Text
ann_token = 0 ∷ 1 ∷ b'a' ∷ 1 ∷ b'n' ∷ 1 ∷ b'n' ∷ 0 ∷ 0 ∷ 0 ∷ 0 ∷ 1_600 ∷ []

minutes : ttl ann ≡ some (pos 600)
unfolding ttl Option.bind
minutes = refl

minted : mint plain_jwt ann 1_000 ≡ some ann_token
unfolding mint Option.bind
minted = refl

mint-verify_example :
    (v : AuthVerifier plain_jwt) × (from_config plain_jwt guarded ≡ some v)
    × (verify v ann_token ≡ ok (record { client_id = text "ann"; tenant_id = text "default" }))
mint-verify_example =
    mint-verify plain_jwt guarded ann (text "secret") ann_token 1_000 600 refl refl minutes
      (omega arith) (omega arith) (inl refl) minted
