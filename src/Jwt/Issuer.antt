-- ===== src/Jwt/Issuer.antt =====
-- jwt/jwt.go: the checking of a token with an issuer that is found by the token.
use fuck.Base.{none, some, Bytes, ltb, if◌then◌else◌}
use fuck.Crypto.Outcome.{Outcome, ok, failed, panicked}
use fuck.Jwt.{JwtError, invalid_token, Token, Library}

module _ {C : Type 0} (lib : Library C) where
  -- the package's `ParseWithClaims`; an issuer is its method `ParseWithClaims`
  unfoldable pub parse_with_claims :
      Bytes
      → (Token C → Outcome JwtError (Bytes → Outcome JwtError (Token C)))
      → Outcome JwtError (Token C)
  parse_with_claims token_string issuer_func = elim (lib.parse_unverified token_string) [
    | none ↦ failed invalid_token
    | some (token, parts) ↦ if ltb parts 3 then failed invalid_token else elim (issuer_func token) [
      | panicked ↦ panicked
      | failed err ↦ failed err
      | ok issuer ↦ issuer token_string
    ]
  ]
