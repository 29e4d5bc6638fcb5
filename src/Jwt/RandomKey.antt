-- ===== src/Jwt/RandomKey.antt =====
-- jwt/jwt.go: `NewRandomKey` and `NewRandomRSAJWTConfig`.
use fuck.Base.{ℕ, ◌≡◌, refl, sym, ap, ◌∙◌, [], Option, none, some, Bytes, arith}
use fuck.Crypto.Outcome.{Outcome, ok, failed, or_fail, from_ok}
use fuck.Jwt.{
  Algorithm, Family, hmac, rsa, ecdsa, family, rs256, es256, Library, load_rsa, load_ec, load_key,
  new_jwt_config, Key, rsa_private, rsa_public, ec_private, JwtError, invalid_algorithm, no_random,
  JwtConfig, token_algorithm,
}

-- the random source, what the generators make with it, and the PEM text of a key in PKCS #8
pub record Random : Type 0 where
  pub read : ℕ → Option Bytes
  pub rsa_key : Option ℕ
  pub p256_key : Option ℕ
  pub pem_of : Key → Option Bytes

module _ (random : Random) where
  abbrev pub rsa_text : Option ℕ → Outcome JwtError Bytes
  rsa_text none = failed no_random
  rsa_text (some id) = or_fail no_random (random.pem_of (rsa_private id))

  abbrev pub ec_text : Option ℕ → Outcome JwtError Bytes
  ec_text none = failed no_random
  ec_text (some id) = or_fail no_random (random.pem_of (ec_private id 256))

  abbrev pub new_key : Family → Outcome JwtError Bytes
  new_key hmac = or_fail no_random (random.read 2048)
  new_key rsa = rsa_text random.rsa_key
  new_key ecdsa = ec_text random.p256_key

  -- `NewRandomKey`, whose cases are the names in `tokenAlgorithmMap` by their families
  unfoldable pub new_random_key : Bytes → Outcome JwtError Bytes
  unfolding token_algorithm
  new_random_key method = elim (token_algorithm method) [
    | none ↦ failed invalid_algorithm
    | some algorithm ↦ new_key (family algorithm)
  ]

  unfoldable pub new_random_rsa_jwt_config : Outcome JwtError JwtConfig
  new_random_rsa_jwt_config = elim random.rsa_key [
    | none ↦ failed no_random
    | some id ↦ ok (record {
      private_key = rsa_private id;
      public_key = rsa_public id;
      algorithm = rs256;
      issuer = [];
    })
  ]

or_fail-ok : {E A : Type 0} {a : A} (e : E) (o : Option A) → or_fail e o ≡ ok a → o ≡ some a
or_fail-ok e none h = absurd (ground (arith, h))
or_fail-ok {a} e (some b) h = ap (λ r. some (from_ok a r)) h

abbrev pub random_algorithm : Algorithm → Family → Algorithm
random_algorithm algorithm ecdsa = es256
random_algorithm algorithm _ = algorithm

module _ {C : Type 0} (lib : Library C) (random : Random) where
  -- the PEM texts of keys are read back
  pub record Readable : Type 0 where
    pub reads_rsa :
        (id : ℕ) (text : Bytes)
        → random.pem_of (rsa_private id) ≡ some text
        → lib.parse_rsa_pem text ≡ some id
    pub reads_ec :
        (id bits : ℕ) (text : Bytes)
        → random.pem_of (ec_private id bits) ≡ some text
        → lib.parse_ec_pem text ≡ some (id, bits)

  load_rsa-rsa_text :
      (issuer text : Bytes) (algorithm : Algorithm) (made : Option ℕ)
      → Readable
      → rsa_text random made ≡ ok text
      → (j : JwtConfig) × (load_rsa issuer algorithm (lib.parse_rsa_pem text) ≡ ok j)
        × (j.algorithm ≡ algorithm)
  load_rsa-rsa_text issuer text algorithm none readable h = absurd (ground (arith, h))
  load_rsa-rsa_text issuer text algorithm (some id) readable h =
      let found =
        readable.reads_rsa id text (or_fail-ok no_random (random.pem_of (rsa_private id)) h) in
      rw found (_, refl, refl)

  load_ec-ec_text :
      (issuer text : Bytes) (made : Option ℕ)
      → Readable
      → ec_text random made ≡ ok text
      → (j : JwtConfig) × (load_ec issuer (lib.parse_ec_pem text) ≡ ok j) × (j.algorithm ≡ es256)
  load_ec-ec_text issuer text none readable h = absurd (ground (arith, h))
  load_ec-ec_text issuer text (some id) readable h =
      let found =
        readable.reads_ec id 256 text
          (or_fail-ok no_random (random.pem_of (ec_private id 256)) h) in
      rw found (_, refl, refl)

  load_key-new_key :
      (issuer text : Bytes) (algorithm : Algorithm) (f : Family)
      → Readable
      → new_key random f ≡ ok text
      → (j : JwtConfig) × (load_key lib issuer algorithm text f ≡ ok j)
        × (j.algorithm ≡ random_algorithm algorithm f)
  load_key-new_key issuer text algorithm hmac readable h = (_, refl, refl)
  load_key-new_key issuer text algorithm rsa readable h =
      load_rsa-rsa_text issuer text algorithm random.rsa_key readable h
  load_key-new_key issuer text algorithm ecdsa readable h =
      load_ec-ec_text issuer text random.p256_key readable h

  -- `NewJWTConfig` takes each key that `NewRandomKey` makes for the same method, and the algorithm is
  -- that method, or ES256 for each of the ES methods, if the PEM texts of keys are read back.
  pub new_jwt_config-new_random_key :
      (issuer method text : Bytes) (algorithm : Algorithm)
      → Readable
      → token_algorithm method ≡ some algorithm
      → new_random_key random method ≡ ok text
      → (j : JwtConfig) × (new_jwt_config lib issuer method text ≡ ok j)
        × (j.algorithm ≡ random_algorithm algorithm (family algorithm))
  unfolding new_jwt_config new_random_key
  new_jwt_config-new_random_key issuer method text algorithm readable found h =
      let made : new_key random (family algorithm) ≡ ok text =
        sym (
          ap (λ o. elim o [ none ↦ failed invalid_algorithm | some a ↦ new_key random (family a) ])
            found)
        ∙ h in
      rw (new_jwt_config, found)
        (load_key-new_key issuer text algorithm (family algorithm) readable made)
