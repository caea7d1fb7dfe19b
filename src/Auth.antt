-- ===== src/Auth.antt =====
-- src/auth.rs: the verifier that the configuration asks for, and what it makes of a token.
pub mod Verdicts
mod Tests
use rust_ws_server.Base.{
  ℕ, Bool, true, ◌||◌, Option, none, some, Result, ok, err, Text, text, if◌then◌else◌,
}
use rust_ws_server.Config.{Config}
use rust_ws_server.External.{
  JwtApi, Algorithm, hs256, rs256, ed_dsa, ErrorKind, expired_signature, invalid_issuer, other,
  Claims,
}
use rust_ws_server.Str.{contains}

pub record AuthIdentity : Type 0 where
  pub client_id : Text
  pub tenant_id : Text

pub data AuthError : Type 0 where
  invalid expired issuer_mismatch : AuthError

-- The text that `Display` gives.
abbrev pub to_string : AuthError → Text
to_string invalid = text "invalid token"
to_string expired = text "token expired"
to_string issuer_mismatch = text "token issuer mismatch"

abbrev pub unwrap_or : Option Text → Text → Text
unwrap_or (some t) d = t
unwrap_or none d = d

abbrev pub or_else {ℓ} : {A : Type ℓ} → Option A → Option A → Option A
or_else (some a) b = some a
or_else none b = b

module _ (jwt : JwtApi) where
  pub data Decoding : Type 0 where
    hmac : jwt.DecodingKey → Decoding
    asymmetric : jwt.DecodingKey → Algorithm → Decoding

  pub record AuthVerifier : Type 0 where
    pub decoding : Decoding
    pub issuer : Option Text

module _ (jwt : JwtApi) where
  unfoldable pub pem_algorithm : Text → Algorithm
  unfolding contains
  pem_algorithm pem =
      if contains (text "ED25519") pem || contains (text "Ed25519") pem then ed_dsa else rs256

  unfoldable pub pem_key : Text → Option jwt.DecodingKey
  pem_key pem = or_else (or_else (jwt.from_rsa_pem pem) (jwt.from_ec_pem pem)) (jwt.from_ed_pem pem)

  unfoldable pub from_config : Config → Option (AuthVerifier jwt)
  from_config config = elim config.jwt_secret [
    | some secret ↦
        some (record { decoding = hmac (jwt.from_secret secret); issuer = config.jwt_issuer })
    | none ↦ elim config.jwt_public_key [
      | some pem ↦ elim (pem_key pem) [
        | some key ↦
            some
              (record { decoding = asymmetric key (pem_algorithm pem); issuer = config.jwt_issuer })
        | none ↦ none
      ]
      | none ↦ none
    ]
  ]

-- What `verify` makes of the outcome of `decode`.
unfoldable pub verdict : Result Claims ErrorKind → Result AuthIdentity AuthError
verdict (ok claims) =
    ok (record { client_id = claims.sub; tenant_id = unwrap_or claims.tenant_id (text "default") })
verdict (err expired_signature) = err expired
verdict (err invalid_issuer) = err issuer_mismatch
verdict (err other) = err invalid

module _ {jwt : JwtApi} where
  unfoldable pub decoding_key : AuthVerifier jwt → jwt.DecodingKey
  decoding_key v = elim v.decoding [ hmac k ↦ k | asymmetric k _ ↦ k ]

  unfoldable pub validation : AuthVerifier jwt → jwt.Validation
  validation v =
      let base : jwt.Validation = elim v.decoding [
        | hmac _ ↦ jwt.new hs256
        | asymmetric _ algo ↦ jwt.new algo
      ] in
      let issued : jwt.Validation = elim v.issuer [
        | some iss ↦ jwt.set_issuer iss base
        | none ↦ base
      ] in
      jwt.set_validate_exp true issued

  unfoldable pub verify : AuthVerifier jwt → Text → Result AuthIdentity AuthError
  unfolding verdict
  verify v token = verdict (jwt.decode token (decoding_key v) (validation v))

  -- For the `Debug` output.
  unfoldable pub algorithm_name : AuthVerifier jwt → Text
  algorithm_name v = elim v.decoding [
    | hmac _ ↦ text "HS256"
    | asymmetric _ algo ↦ elim algo [ ed_dsa ↦ text "EdDSA" | _ ↦ text "RS256" ]
  ]
