-- ===== src/Auth/Verdicts.antt =====
-- When a verifier is made, and whom it lets in.
use rust_ws_server.Base.{
  ◌≡◌, ◌↔◌, ◌⊎◌, inl, inr, refl, true, Option, none, some, Result, ok, err, Text, text, arith,
  Option-cases,
}
use rust_ws_server.Config.{Config}
use rust_ws_server.External.{
  JwtApi, hs256, Claims, ErrorKind, expired_signature, invalid_issuer, other,
}
use rust_ws_server.Auth.{
  AuthIdentity, AuthVerifier, Decoding, hmac, asymmetric, unwrap_or, pem_key, from_config,
  decoding_key, validation, verdict, verify,
}

module _ (jwt : JwtApi) where
  -- There is no verifier exactly when there is no secret, and no public key or one that no parser
  -- takes: authentication is then off.
  pub from_config-none_iff :
      (config : Config)
      → (from_config jwt config ≡ none) ↔ (
          (config.jwt_secret ≡ none)
          × ((config.jwt_public_key ≡ none)
              ⊎ ((pem : Text) × (config.jwt_public_key ≡ some pem) × (pem_key jwt pem ≡ none))))
  unfolding from_config
  from_config-none_iff config = (
    λ h. elim (Option-cases config.jwt_public_key) [
      | inl e ↦ (ground arith, inl e)
      | inr (pem, e) ↦ (ground arith, inr (pem, e, ground arith))
    ],
    λ h. ground arith,
  )

  -- With a secret the verifier checks HS256 under that secret, whatever public key is set.
  pub from_config_secret :
      (config : Config) (secret : Text)
      → config.jwt_secret ≡ some secret
      → from_config jwt config
        ≡ some (record { decoding = hmac (jwt.from_secret secret); issuer = config.jwt_issuer })
  unfolding from_config
  from_config_secret config secret e = ground arith

verdict-ok :
    (r : Result Claims ErrorKind) (id : AuthIdentity)
    → verdict r ≡ ok id
    → (claims : Claims) × (r ≡ ok claims)
      × (id.client_id ≡ claims.sub)
      × (id.tenant_id ≡ unwrap_or claims.tenant_id (text "default"))
unfolding verdict
verdict-ok (ok claims) id h = (claims, refl, ground arith, ground arith)
verdict-ok (err expired_signature) id h = cc
verdict-ok (err invalid_issuer) id h = cc
verdict-ok (err other) id h = cc

-- What the program asks of a token: that it decodes under the secret with HS256, or under the public
-- key with the algorithm of the key; with the expiry checked; and with the issuer, if there is one.
abbrev pub Decodes : {jwt : JwtApi} → Decoding jwt → Option Text → Text → Claims → Type 0
Decodes {jwt} (hmac key) none token claims =
    jwt.decode token key (jwt.set_validate_exp true (jwt.new hs256)) ≡ ok claims
Decodes {jwt} (hmac key) (some iss) token claims =
    jwt.decode token key (jwt.set_validate_exp true (jwt.set_issuer iss (jwt.new hs256)))
    ≡ ok claims
Decodes {jwt} (asymmetric key algo) none token claims =
    jwt.decode token key (jwt.set_validate_exp true (jwt.new algo)) ≡ ok claims
Decodes {jwt} (asymmetric key algo) (some iss) token claims =
    jwt.decode token key (jwt.set_validate_exp true (jwt.set_issuer iss (jwt.new algo))) ≡ ok claims

decode_iff :
    {jwt : JwtApi} (decoding : Decoding jwt) (issuer : Option Text) (token : Text) (claims : Claims)
    → let v : AuthVerifier jwt = record { decoding = decoding; issuer = issuer } in
      (jwt.decode token (decoding_key v) (validation v) ≡ ok claims)
      ↔ Decodes decoding issuer token claims
unfolding decoding_key validation
decode_iff (hmac key) none token claims = (λ h. h, λ h. h)
decode_iff (hmac key) (some iss) token claims = (λ h. h, λ h. h)
decode_iff (asymmetric key algo) none token claims = (λ h. h, λ h. h)
decode_iff (asymmetric key algo) (some iss) token claims = (λ h. h, λ h. h)

module _ {jwt : JwtApi} where
  -- A token is accepted exactly when it decodes with HS256 under the secret of the verifier, or under
  -- its public key with the algorithm of that, with the expiry checked, and for its issuer if it has
  -- one; the identity is that of the claims, in the tenant "default" if they name none.
  pub verify_ok_iff :
      (v : AuthVerifier jwt) (token : Text) (id : AuthIdentity)
      → (verify v token ≡ ok id) ↔ (
          (claims : Claims) × Decodes v.decoding v.issuer token claims
          × (id.client_id ≡ claims.sub)
          × (id.tenant_id ≡ unwrap_or claims.tenant_id (text "default")))
  unfolding verify
  verify_ok_iff v token id = (
    λ h.
        let (claims, e, client, tenant) =
          verdict-ok (jwt.decode token (decoding_key v) (validation v)) id h in
        (claims, (decode_iff v.decoding v.issuer token claims).0 e, client, tenant),
    λ h.
        let (claims, d, client, tenant) = h in
        let e = (decode_iff v.decoding v.issuer token claims).1 d in ground arith,
  )
