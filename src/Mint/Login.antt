-- ===== src/Mint/Login.antt =====
-- A token that the tool makes with the secret of the server lets its bearer in.
use rust_ws_server.Base.{
  ℕ, ◌+◌, ◌^◌, ◌≤◌, ◌<◌, ◌≡◌, ◌⊎◌, refl, sym, ◌∙◌, ap, inl, inr, Option, none, some, ok, Text, text,
  ℤ, pos, arith,
}
use mathlib.Core.Option
use rust_ws_server.Auth.{
  AuthVerifier, hmac, unwrap_or, from_config, decoding_key, validation, verdict, verify,
}
use rust_ws_server.Config.{Config}
use rust_ws_server.External.{JwtApi, hs256, IsLive, Claims}
use rust_ws_server.Mint.{Environment, ttl, checked, now_plus, claims, mint}

now_plus_fits : (now s : ℕ) → now + s < 2 ^ 63 → now_plus now (pos s) ≡ some (pos (now + s))
unfolding now_plus checked
now_plus_fits now s h = ground arith

module _ (jwt : JwtApi) where
  mint-encode :
      (env : Environment) (now : ℕ) (secret : Text) (s exp : ℤ)
      → env.ws_jwt_secret ≡ some secret
      → ttl env ≡ some s
      → now_plus now s ≡ some exp
      → mint jwt env now ≡ jwt.encode hs256 (claims env exp) (jwt.encoding_secret secret)
  unfolding mint Option.bind
  mint-encode env now secret s exp e e' e'' = rw (e, mint, e', e'') refl

  -- The verifier of a secret.
  abbrev by_secret : Text → Option Text → AuthVerifier jwt
  by_secret secret issuer = record { decoding = hmac (jwt.from_secret secret); issuer = issuer }

  from_config-by_secret :
      (config : Config) (secret : Text)
      → config.jwt_secret ≡ some secret
      → from_config jwt config ≡ some (by_secret secret config.jwt_issuer)
  unfolding from_config
  from_config-by_secret config secret e = rw (e, from_config) refl

  verify-by_secret :
      (c : Claims) (secret token : Text) (issuer : Option Text)
      → jwt.encode hs256 c (jwt.encoding_secret secret) ≡ some token
      → IsLive c.exp jwt.clock
      → (issuer ≡ none) ⊎ ((i : Text) × (issuer ≡ some i) × (c.iss ≡ some i))
      → verify (by_secret secret issuer) token ≡ verdict (ok c)
  unfolding verify decoding_key validation
  verify-by_secret c secret token issuer e live (inl none') =
      rw (none', verify, validation) (ap verdict (jwt.decode-encode c secret token e live))
  verify-by_secret c secret token issuer e live (inr (i, some', own)) =
      rw (some', verify, validation)
        (ap verdict (jwt.decode-encode_issuer c secret token i e live own))

  -- A token that the tool makes with the secret of the server, for a time that is not over, is
  -- accepted for the client and the tenant of the tool's variables, "alice" and "default" without
  -- them, if the server asks for no issuer or for that of the variables.
  pub mint-verify :
      (config : Config) (env : Environment) (secret token : Text) (now s : ℕ)
      → config.jwt_secret ≡ some secret
      → env.ws_jwt_secret ≡ some secret
      → ttl env ≡ some (pos s)
      → now + s < 2 ^ 63
      → jwt.clock ≤ now + s
      → (config.jwt_issuer ≡ none)
        ⊎ ((i : Text) × (config.jwt_issuer ≡ some i) × (env.iss ≡ some i))
      → mint jwt env now ≡ some token
      → (v : AuthVerifier jwt) × (from_config jwt config ≡ some v)
        × (verify v token
            ≡ ok (record {
              client_id = unwrap_or env.client_id (text "alice");
              tenant_id = unwrap_or env.tenant_id (text "default");
            }))
  unfolding verdict claims
  mint-verify config env secret token now s key same time fits live issuer e =
      let c = claims env (pos (now + s)) in
      let encoded =
        sym
          (mint-encode env now secret (pos s) (pos (now + s)) same time (now_plus_fits now s fits))
        ∙ e in
      (
        by_secret secret config.jwt_issuer,
        from_config-by_secret config secret key,
        verify-by_secret c secret token config.jwt_issuer encoded live issuer,
      )
