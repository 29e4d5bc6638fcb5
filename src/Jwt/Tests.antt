-- ===== src/Jwt/Tests.antt =====
-- Runs of jwt with a small library: a token is the text of its claims, signed with HS256 and a secret.
-- A PEM text is a letter and a number, and for a curve its size.
use fuck.Base.{
  ℕ, ◌≡◌, refl, ap, subst, ◌∙◌, sym, true, false, [], ◌∷◌, ◌++◌, Option, none, some, Bytes, codes,
  replicate, inl, inr, Bool-cases, arith, ◌==◌, if◌then◌else◌,
}
use fuck.Crypto.Outcome.{Outcome, ok, failed, panicked, from_ok}
use fuck.Jwt.{
  Algorithm, hs256, rs256, es384, family, hmac, Key, no_key, secret, rsa_private, ec_private,
  JwtError, invalid_token, not_signed, TokenMethod, known, Token, Library, JwtConfig, find_key,
  no_public_key, invalid_curve, token_algorithm, new_jwt_config, parse_with_claims, signed_string,
}
use fuck.Jwt.Json.{Plain}
use fuck.Jwt.Laws.{
  verifier, method_fits, Documented, parse_with_claims-signed_string, parse_with_claims-family,
}
use fuck.Jwt.RandomKey.{Random, Readable, new_random_key}

abbrev accept : TokenMethod → Bytes → Outcome JwtError Key → Outcome JwtError (Token Bytes)
accept m claims (ok key) =
    if method_fits m key
    then ok (record { token_method = m; claims = claims })
    else failed invalid_token
accept m claims _ = failed invalid_token

abbrev read_pem : ℕ → Bytes → Option ℕ
read_pem letter [] = none
read_pem letter (c ∷ []) = none
read_pem letter (c ∷ n ∷ rest) = if c == letter then some n else none

abbrev read_ec : Bytes → Option (ℕ × ℕ)
read_ec (c ∷ n ∷ bits ∷ rest) = if c == 69 then some (n, bits) else none
read_ec _ = none

abbrev sample : Library Bytes
sample = record {
  parse =
      λ s find. accept (known hs256) s (find (record { token_method = known hs256; claims = s }));
  parse_unverified = λ s. some (record { token_method = known hs256; claims = s }, 3);
  signed = λ algorithm claims key. elim key [
    | secret text ↦ elim algorithm [ hs256 ↦ ok claims | _ ↦ failed not_signed ]
    | _ ↦ failed not_signed
  ];
  set_issuer = λ issuer claims. issuer ++ claims;
  is_valid = λ claims. true;
  parse_rsa_pem = read_pem 82;
  parse_ec_pem = read_ec;
  pem_decode = λ text. elim text [ [] ↦ none | c ∷ cs ↦ if c == 82 then some cs else none ];
  is_pkcs1 = λ block. true;
  is_ec = λ block. false;
  parse_pkcs8 = λ block. none;
}

accept-own :
    (algorithm : Algorithm) (claims : Bytes) (key : Key) (s : Bytes)
    (find : Token Bytes → Outcome JwtError Key)
    → sample.signed algorithm claims key ≡ ok s
    → find (record { token_method = known algorithm; claims = claims }) ≡ ok (verifier key)
    → sample.parse s find ≡ ok (record { token_method = known algorithm; claims = claims })
accept-own hs256 claims (secret text) s find h f =
    let e : claims ≡ s = ap (from_ok s) h in
    subst (λ x. sample.parse x find ≡ ok (record { token_method = known hs256; claims = claims })) e
      (ap (accept (known hs256) claims) f)
accept-own algorithm claims key s find h f = absurd (ground (arith, h))

accepted :
    (m : TokenMethod) (claims : Bytes) (r : Outcome JwtError Key) (token : Token Bytes)
    → accept m claims r ≡ ok token
    → (key : Key) × (r ≡ ok key)
      × (method_fits m key ≡ true)
      × (record { token_method = m; claims = claims } ≡ token)
accepted m claims (ok key) token h =
    let own : Token Bytes = record { token_method = m; claims = claims } in
    elim (Bool-cases (method_fits m key)) [
      | inl fit ↦
          let e : ok own ≡ ok token =
            sym (ap (λ b. if b then ok own else failed invalid_token) fit) ∙ h in
          (key, refl, fit, ap (from_ok own) e)
      | inr other ↦ absurd (ground (arith, other, h))
    ]
accepted m claims (failed err) token h = absurd (ground (arith, h))
accepted m claims panicked token h = absurd (ground (arith, h))

sample-Documented : Documented sample
sample-Documented = record {
  accepts_own = λ algorithm claims key s find h valid f. accept-own algorithm claims key s find h f;
  checks_type = λ s find token h.
      let own : Token Bytes = record { token_method = known hs256; claims = s } in
      let (key, found, fit, e) = accepted (known hs256) s (find own) token h in
      (
        key,
        subst (λ t. find t ≡ ok key) e found,
        subst (λ t. method_fits t.token_method key ≡ true) e fit,
      );
}

abbrev config : JwtConfig
config = record {
  private_key = secret (codes "key");
  public_key = no_key;
  algorithm = hs256;
  issuer = codes "me";
}

config_made : new_jwt_config sample (codes "me") (codes "HS256") (codes "key") ≡ ok config
unfolding new_jwt_config
config_made = refl

config_signed : signed_string sample config (codes "x") ≡ ok (codes "mex")
unfolding signed_string
config_signed = refl

config_accepted :
    parse_with_claims sample config (codes "mex")
    ≡ ok (record { token_method = known hs256; claims = codes "mex" })
unfolding parse_with_claims
config_accepted = refl

parse_with_claims-signed_string_example :
    parse_with_claims sample config (codes "mex")
    ≡ ok (record { token_method = known hs256; claims = codes "mex" })
parse_with_claims-signed_string_example =
    parse_with_claims-signed_string sample sample-Documented (codes "me") (codes "HS256")
      (codes "key") config (codes "x") (codes "mex") config_made config_signed refl

parse_with_claims-family_example :
    (algorithm : Algorithm) × (known hs256 ≡ known algorithm) × (family algorithm ≡ hmac)
parse_with_claims-family_example =
    parse_with_claims-family sample sample-Documented (codes "me") (codes "HS256") (codes "key")
      config (codes "mex") (record { token_method = known hs256; claims = codes "mex" }) config_made
      config_accepted

-- A configuration with a secret has no key for a token of RS256.
other_family :
    find_key config (record { token_method = known rs256; claims = codes "x" })
    ≡ failed no_public_key
other_family = refl

-- P-521, the curve of ES512, is refused.
no_es512 : new_jwt_config sample [] (codes "ES512") (69 ∷ 7 ∷ 521 ∷ []) ≡ failed invalid_curve
unfolding new_jwt_config
no_es512 = refl

abbrev from_some : Bytes → Option Bytes → Bytes
from_some d none = d
from_some d (some text) = text

abbrev random : Random
random = record {
  read = λ n. some (replicate n 7);
  rsa_key = some 7;
  p256_key = some 9;
  pem_of = λ key. elim key [
    | rsa_private id ↦ some (82 ∷ id ∷ [])
    | ec_private id bits ↦ some (69 ∷ id ∷ bits ∷ [])
    | _ ↦ none
  ];
}

random-Readable : Readable sample random
random-Readable = record {
  reads_rsa = λ id text h. rw (sym (ap (from_some []) h)) refl;
  reads_ec = λ id bits text h. rw (sym (ap (from_some []) h)) refl;
}

es384_known : token_algorithm (codes "ES384") ≡ some es384
unfolding token_algorithm
es384_known = refl

es384_made : new_random_key random (codes "ES384") ≡ ok (69 ∷ 9 ∷ 256 ∷ [])
unfolding new_random_key
es384_made = refl

abbrev broken : Plain
broken = record { secret = []; private_key = codes "x"; algorithm = [] }
