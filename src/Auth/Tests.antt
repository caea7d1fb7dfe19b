-- ===== src/Auth/Tests.antt =====
-- The verifier of sample settings, and a token that it accepts.
use rust_ws_server.Base.{◌≡◌, ◌↔◌, refl, true, none, ok, text}
use rust_ws_server.External.{Claims}
use rust_ws_server.External.Tokens.{plain_jwt}
use rust_ws_server.Auth.{AuthVerifier, hmac, unwrap_or, pem_algorithm, verify}
use rust_ws_server.External.{hs256, ed_dsa, rs256}
use rust_ws_server.Auth.Verdicts.{verify_ok_iff}

abbrev by_secret : AuthVerifier plain_jwt
by_secret = record { decoding = hmac (text "secret"); issuer = none }

verify_ann :
    verify by_secret (text "token")
    ≡ ok (record { client_id = text "oken"; tenant_id = text "default" })
unfolding verify
verify_ann = refl

pem_algorithm_rsa : pem_algorithm plain_jwt (text "-----BEGIN PUBLIC KEY-----") ≡ rs256
unfolding pem_algorithm
pem_algorithm_rsa = refl

pem_algorithm_ed : pem_algorithm plain_jwt (text "# Ed25519 key") ≡ ed_dsa
unfolding pem_algorithm
pem_algorithm_ed = refl

verify_ok_iff_example :
    (verify by_secret (text "token")
      ≡ ok (record { client_id = text "oken"; tenant_id = text "default" }))
    ↔ ((claims : Claims) × (plain_jwt.decode
            (text "token")
            (text "secret")
            (plain_jwt.set_validate_exp true (plain_jwt.new hs256))
          ≡ ok claims)
        × (text "oken" ≡ claims.sub)
        × (text "default" ≡ unwrap_or claims.tenant_id (text "default")))
verify_ok_iff_example =
    verify_ok_iff by_secret (text "token")
      (record { client_id = text "oken"; tenant_id = text "default" })
