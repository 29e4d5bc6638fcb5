-- ===== src/Jwt/Json.antt =====
-- jwt/jwt.go: `(*JWTConfig) UnmarshalJSON`.
use fuck.Base.{
  ℕ, ◌≡◌, ◌≢◌, ◌↔◌, refl, [], ◌∷◌, Option, none, some, Bytes, codes, length, arith, ◌==◌,
  if◌then◌else◌,
}
use fuck.Crypto.Outcome.{Outcome, ok, failed, panicked}
use fuck.Jwt.{
  Algorithm, Family, hmac, rsa, ecdsa, family, JwtError, invalid_algorithm, unsupported_key,
  load_rsa, with_curve, load_ec, load_key, curve_algorithm, token_algorithm, KeyType, rsa_key,
  ecdsa_key, other_key, Library, JwtConfig, new_jwt_config,
}
use fuck.Wrapper.Values.{default_string}

-- what a decoder of JSON has read
pub record Plain : Type 0 where
  pub secret : Bytes
  pub private_key : Bytes
  pub algorithm : Bytes

-- the algorithm for a private key; the fields of a nil block are read, which panics
abbrev pub by_pkcs8 : Option KeyType → Outcome JwtError Bytes
by_pkcs8 none = ok []
by_pkcs8 (some ecdsa_key) = ok (codes "ES256")
by_pkcs8 (some rsa_key) = ok (codes "RS256")
by_pkcs8 (some other_key) = failed unsupported_key

module _ {C : Type 0} (lib : Library C) where
  abbrev pub block_algorithm : Option Bytes → Outcome JwtError Bytes
  block_algorithm none = panicked
  block_algorithm (some block) =
      if lib.is_pkcs1 block
      then ok (codes "RS256")
      else if lib.is_ec block
      then ok (codes "ES256")
      else by_pkcs8 (lib.parse_pkcs8 block)

  -- `c.Algorithm` after the tests, for the algorithm, the private key and the secret
  abbrev pub choose_algorithm : Bytes → Bytes → Bytes → Outcome JwtError Bytes
  choose_algorithm (c ∷ algorithm) private_key secret = ok (c ∷ algorithm)
  choose_algorithm [] (c ∷ private_key) secret = block_algorithm (lib.pem_decode (c ∷ private_key))
  choose_algorithm [] [] secret = ok (if length secret == 0 then [] else codes "HS256")

  unfoldable pub unmarshal_json : Plain → Outcome JwtError JwtConfig
  unfolding new_jwt_config
  unmarshal_json c = elim (choose_algorithm c.algorithm c.private_key c.secret) [
    | panicked ↦ panicked
    | failed err ↦ failed err
    | ok algorithm ↦
        new_jwt_config lib [] algorithm (default_string (c.private_key ∷ c.secret ∷ []))
  ]

by_pkcs8_returns : (found : Option KeyType) → by_pkcs8 found ≢ panicked
by_pkcs8_returns none h = ground (arith, h)
by_pkcs8_returns (some ecdsa_key) h = ground (arith, h)
by_pkcs8_returns (some rsa_key) h = ground (arith, h)
by_pkcs8_returns (some other_key) h = ground (arith, h)

with_curve_returns :
    (issuer : Bytes) (id bits : ℕ) (found : Option Algorithm)
    → with_curve issuer id bits found ≢ panicked
with_curve_returns issuer id bits none h = ground (arith, h)
with_curve_returns issuer id bits (some found) h = ground (arith, h)

load_ec_returns : (issuer : Bytes) (found : Option (ℕ × ℕ)) → load_ec issuer found ≢ panicked
load_ec_returns issuer none h = ground (arith, h)
load_ec_returns issuer (some (id, bits)) h =
    with_curve_returns issuer id bits (curve_algorithm bits) h

load_rsa_returns :
    (issuer : Bytes) (algorithm : Algorithm) (found : Option ℕ)
    → load_rsa issuer algorithm found ≢ panicked
load_rsa_returns issuer algorithm none h = ground (arith, h)
load_rsa_returns issuer algorithm (some id) h = ground (arith, h)

module _ {C : Type 0} (lib : Library C) where
  load_key_returns :
      (issuer text : Bytes) (algorithm : Algorithm) (f : Family)
      → load_key lib issuer algorithm text f ≢ panicked
  load_key_returns issuer text algorithm hmac h = ground (arith, h)
  load_key_returns issuer text algorithm rsa h =
      load_rsa_returns issuer algorithm (lib.parse_rsa_pem text) h
  load_key_returns issuer text algorithm ecdsa h = load_ec_returns issuer (lib.parse_ec_pem text) h

  by_method_returns :
      (issuer text : Bytes) (found : Option Algorithm)
      → elim found [
        | none ↦ failed invalid_algorithm
        | some algorithm ↦ load_key lib issuer algorithm text (family algorithm)
      ]
        ≢ panicked
  by_method_returns issuer text none h = ground (arith, h)
  by_method_returns issuer text (some algorithm) h =
      load_key_returns issuer text algorithm (family algorithm) h

  new_jwt_config_returns :
      (issuer method text : Bytes) → new_jwt_config lib issuer method text ≢ panicked
  unfolding new_jwt_config
  new_jwt_config_returns issuer method text h =
      by_method_returns issuer text (token_algorithm method) h

  block_algorithm_panics :
      (block : Option Bytes) → block_algorithm lib block ≡ panicked → block ≡ none
  block_algorithm_panics none h = refl
  block_algorithm_panics (some block) h =
      absurd (by_pkcs8_returns (lib.parse_pkcs8 block) (ground (arith, h)))

  choose_algorithm_panics :
      (algorithm private_key secret : Bytes)
      → choose_algorithm lib algorithm private_key secret ≡ panicked
      → (algorithm ≡ []) × (private_key ≢ []) × (lib.pem_decode private_key ≡ none)
  choose_algorithm_panics (c ∷ algorithm) private_key secret h = absurd (ground (arith, h))
  choose_algorithm_panics [] (c ∷ private_key) secret h =
      (refl, λ e. ground (arith, e), block_algorithm_panics (lib.pem_decode (c ∷ private_key)) h)
  choose_algorithm_panics [] [] secret h = absurd (ground (arith, h))

  choose_algorithm-no_block :
      (algorithm private_key secret : Bytes)
      → algorithm ≡ []
      → private_key ≢ []
      → lib.pem_decode private_key ≡ none
      → choose_algorithm lib algorithm private_key secret ≡ panicked
  choose_algorithm-no_block (c ∷ algorithm) private_key secret a p n = absurd (ground (arith, a))
  choose_algorithm-no_block [] (c ∷ private_key) secret a p n = rw n refl
  choose_algorithm-no_block [] [] secret a p n = absurd (p refl)

  make_panics :
      (chosen : Outcome JwtError Bytes) (text : Bytes)
      → elim chosen [
        | panicked ↦ panicked
        | failed err ↦ failed err
        | ok algorithm ↦ new_jwt_config lib [] algorithm text
      ]
        ≡ panicked
      → chosen ≡ panicked
  make_panics panicked text h = refl
  make_panics (failed err) text h = absurd (ground (arith, h))
  make_panics (ok algorithm) text h = absurd (new_jwt_config_returns [] algorithm text h)

  -- `UnmarshalJSON` panics exactly when it is given no algorithm and a private key that is not a text
  -- with a PEM block.
  pub unmarshal_json_panics :
      (c : Plain)
      → (unmarshal_json lib c ≡ panicked)
        ↔ ((c.algorithm ≡ []) × (c.private_key ≢ []) × (lib.pem_decode c.private_key ≡ none))
  unfolding unmarshal_json
  unmarshal_json_panics c =
      let text = default_string (c.private_key ∷ c.secret ∷ []) in
      let chosen = choose_algorithm lib c.algorithm c.private_key c.secret in
      (
        λ h. choose_algorithm_panics c.algorithm c.private_key c.secret (make_panics chosen text h),
        λ (a, p, n).
            rw (unmarshal_json, choose_algorithm-no_block c.algorithm c.private_key c.secret a p n)
              refl,
      )
