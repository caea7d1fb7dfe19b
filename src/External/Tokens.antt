-- ===== src/External/Tokens.antt =====
-- A plain `jsonwebtoken`, whose tokens show their claims.
use rust_ws_server.Base.{
  zero, suc, ◌≡◌, refl, [], ◌∷◌, Option, none, some, ok, err, Text, Result, ℤ, pos, negsuc, ap, sym,
}
use rust_ws_server.External.{JwtApi, other, Claims, ErrorKind}

-- Texts one after another, each character marked and each text closed.
abbrev quote : Text → Text → Text
quote [] rest = 0 ∷ rest
quote (c ∷ s) rest = 1 ∷ c ∷ quote s rest

abbrev unquote : Text → Text × Text
unquote (suc _ ∷ c ∷ s) = (c ∷ (unquote s).0, (unquote s).1)
unquote (suc _ ∷ []) = ([], [])
unquote (zero ∷ s) = ([], s)
unquote [] = ([], [])

pub unquote-quote : (s rest : Text) → unquote (quote s rest) ≡ (s, rest)
unquote-quote [] rest = refl
unquote-quote (c ∷ s) rest = ap (λ (p : Text × Text). (c ∷ p.0, p.1)) (unquote-quote s rest)

abbrev quote_option : Option Text → Text → Text
quote_option none rest = 0 ∷ rest
quote_option (some s) rest = 1 ∷ quote s rest

abbrev unquote_option : Text → Option Text × Text
unquote_option (zero ∷ s) = (none, s)
unquote_option (suc _ ∷ s) = (some (unquote s).0, (unquote s).1)
unquote_option [] = (none, [])

pub unquote_option-quote_option :
    (o : Option Text) (rest : Text) → unquote_option (quote_option o rest) ≡ (o, rest)
unquote_option-quote_option none rest = refl
unquote_option-quote_option (some s) rest =
    ap (λ (p : Text × Text). (some p.0, p.1)) (unquote-quote s rest)

abbrev quote_int : ℤ → Text
quote_int (pos n) = 0 ∷ n ∷ []
quote_int (negsuc n) = 1 ∷ n ∷ []

abbrev unquote_int : Text → ℤ
unquote_int (zero ∷ n ∷ s) = pos n
unquote_int (suc _ ∷ n ∷ s) = negsuc n
unquote_int (n ∷ []) = pos 0
unquote_int [] = pos 0

pub unquote_int-quote_int : (n : ℤ) → unquote_int (quote_int n) ≡ n
unquote_int-quote_int (pos n) = refl
unquote_int-quote_int (negsuc n) = refl

abbrev write_claims : Claims → Text
write_claims c = quote c.sub (quote_option c.tenant_id (quote_option c.iss (quote_int c.exp)))

abbrev read_claims : Text → Claims
read_claims t =
    let (sub, t1) = unquote t in
    let (tenant, t2) = unquote_option t1 in
    let (iss, t3) = unquote_option t2 in
    record { sub = sub; tenant_id = tenant; exp = unquote_int t3; iss = iss }

pub read_claims-write_claims : (c : Claims) → read_claims (write_claims c) ≡ c
read_claims-write_claims c =
    rw
      (
        unquote-quote c.sub (quote_option c.tenant_id (quote_option c.iss (quote_int c.exp))),
        unquote_option-quote_option c.tenant_id (quote_option c.iss (quote_int c.exp)),
        unquote_option-quote_option c.iss (quote_int c.exp),
        unquote_int-quote_int c.exp,
      )
      refl

-- A token is its claims after the character 0; any other text names its bearer.
abbrev read_token : Text → Result Claims ErrorKind
read_token [] = err other
read_token (zero ∷ s) = ok (read_claims s)
read_token (suc _ ∷ s) = ok (record { sub = s; tenant_id = none; exp = pos 0; iss = none })

pub token_read : (c : Claims) (t : Text) → some (0 ∷ write_claims c) ≡ some t → read_token t ≡ ok c
token_read c t e =
    let e' : 0 ∷ write_claims c ≡ t = cc e in rw (sym e') (ap ok (read_claims-write_claims c))

abbrev pub plain_jwt : JwtApi
plain_jwt = record {
  DecodingKey = Text;
  Validation = Unit {0};
  from_secret = λ s. s;
  from_rsa_pem = λ s. none;
  from_ec_pem = λ s. none;
  from_ed_pem = some;
  new = λ a. tt;
  set_issuer = λ i v. v;
  set_validate_exp = λ b v. v;
  decode = λ token key v. read_token token;
  EncodingKey = Text;
  encoding_secret = λ s. s;
  encode = λ a c k. some (0 ∷ write_claims c);
  clock = 1_000;
  decode-encode = λ c s t e h. token_read c t e;
  decode-encode_issuer = λ c s t i e h h'. token_read c t e;
}
