-- ===== src/Jwt/Laws.antt =====
-- The configurations that `NewJWTConfig` makes, and the tokens that they sign and accept.
use fuck.Base.{
  ℕ, ◌≡◌, refl, sym, ap, subst, ◌∙◌, Bool, true, false, Option, none, some, Bytes, arith,
}
use fuck.Crypto.Outcome.{Outcome, ok, failed, from_ok}
use fuck.Jwt.{
  Algorithm, Family, hmac, rsa, ecdsa, family, Key, no_key, secret, rsa_private, rsa_public,
  ec_private, ec_public, JwtError, TokenMethod, known, other_method, Token, Library, JwtConfig,
  token_algorithm, curve_algorithm, invalid_algorithm, load_rsa, with_curve, load_ec, key_for,
  find_key, load_key, new_jwt_config, parse_with_claims, signed_string,
}

-- the key that checks what a key has signed
abbrev pub verifier : Key → Key
verifier (rsa_private id) = rsa_public id
verifier (ec_private id bits) = ec_public id bits
verifier key = key

-- the Go types of keys that the methods of a family take for a check
abbrev pub fits : Family → Key → Bool
fits hmac (secret text) = true
fits rsa (rsa_public id) = true
fits ecdsa (ec_public id bits) = true
fits _ _ = false

abbrev pub method_fits : TokenMethod → Key → Bool
method_fits (known algorithm) key = fits (family algorithm) key
method_fits other_method key = true

-- What golang-jwt documents: a token that it has signed is accepted with the key that belongs to the
-- key of the signature while its claims are valid, and each method refuses a key of another type.
pub record Documented {C : Type 0} (lib : Library C) : Type 0 where
  pub accepts_own :
      (algorithm : Algorithm) (claims : C) (key : Key) (s : Bytes)
      (find : Token C → Outcome JwtError Key)
      → lib.signed algorithm claims key ≡ ok s
      → lib.is_valid claims ≡ true
      → find (record { token_method = known algorithm; claims = claims }) ≡ ok (verifier key)
      → lib.parse s find ≡ ok (record { token_method = known algorithm; claims = claims })
  pub checks_type :
      (s : Bytes) (find : Token C → Outcome JwtError Key) (token : Token C)
      → lib.parse s find ≡ ok token
      → (key : Key) × (find token ≡ ok key) × (method_fits token.token_method key ≡ true)

-- the key for its own family checks what it signs, and no other family is given a key that fits
Loaded : JwtConfig → Type 0
Loaded j =
    (key_for j (family j.algorithm) ≡ ok (verifier j.private_key))
    × ((f : Family) (key : Key) → key_for j f ≡ ok key → fits f key ≡ true → f ≡ family j.algorithm)

curve_algorithm-ecdsa :
    (bits : ℕ) (found : Algorithm) → curve_algorithm bits ≡ some found → family found ≡ ecdsa
curve_algorithm-ecdsa bits found h = ground (arith, h)

of_secret : Bytes → Bytes → Algorithm → JwtConfig
of_secret issuer text algorithm = record {
  private_key = secret text;
  public_key = no_key;
  algorithm = algorithm;
  issuer = issuer;
}

of_rsa : Bytes → ℕ → Algorithm → JwtConfig
of_rsa issuer id algorithm = record {
  private_key = rsa_private id;
  public_key = rsa_public id;
  algorithm = algorithm;
  issuer = issuer;
}

of_ec : Bytes → ℕ → ℕ → Algorithm → JwtConfig
of_ec issuer id bits algorithm = record {
  private_key = ec_private id bits;
  public_key = ec_public id bits;
  algorithm = algorithm;
  issuer = issuer;
}

of_secret_only :
    (issuer text : Bytes) (algorithm : Algorithm) (f : Family) (key : Key)
    → key_for (of_secret issuer text algorithm) f ≡ ok key
    → fits f key ≡ true
    → f ≡ hmac
unfolding of_secret
of_secret_only issuer text algorithm hmac key h t = refl
of_secret_only issuer text algorithm rsa key h t = absurd (ground (arith, h))
of_secret_only issuer text algorithm ecdsa key h t = absurd (ground (arith, h))

of_rsa_only :
    (issuer : Bytes) (id : ℕ) (algorithm : Algorithm) (f : Family) (key : Key)
    → key_for (of_rsa issuer id algorithm) f ≡ ok key
    → fits f key ≡ true
    → f ≡ rsa
unfolding of_rsa
of_rsa_only issuer id algorithm hmac key h t = absurd (ground (arith, ap (from_ok no_key) h, t))
of_rsa_only issuer id algorithm rsa key h t = refl
of_rsa_only issuer id algorithm ecdsa key h t = absurd (ground (arith, ap (from_ok no_key) h, t))

of_ec_only :
    (issuer : Bytes) (id bits : ℕ) (algorithm : Algorithm) (f : Family) (key : Key)
    → key_for (of_ec issuer id bits algorithm) f ≡ ok key
    → fits f key ≡ true
    → f ≡ ecdsa
unfolding of_ec
of_ec_only issuer id bits algorithm hmac key h t = absurd (ground (arith, ap (from_ok no_key) h, t))
of_ec_only issuer id bits algorithm rsa key h t = absurd (ground (arith, ap (from_ok no_key) h, t))
of_ec_only issuer id bits algorithm ecdsa key h t = refl

-- a configuration whose other families get no key that fits
only-Loaded :
    (j : JwtConfig) (f : Family)
    → family j.algorithm ≡ f
    → key_for j f ≡ ok (verifier j.private_key)
    → ((g : Family) (key : Key) → key_for j g ≡ ok key → fits g key ≡ true → g ≡ f)
    → Loaded j
unfolding Loaded
only-Loaded j f e own only = (rw e own, λ g key k t. only g key k t ∙ sym e)

load_rsa-Loaded :
    (issuer : Bytes) (algorithm : Algorithm) (found : Option ℕ) (j : JwtConfig)
    → family algorithm ≡ rsa
    → load_rsa issuer algorithm found ≡ ok j
    → Loaded j
unfolding of_rsa
load_rsa-Loaded issuer algorithm none j e h = absurd (ground (arith, h))
load_rsa-Loaded issuer algorithm (some id) j e h =
    subst Loaded (ap (from_ok j) h)
      (only-Loaded (of_rsa issuer id algorithm) rsa e refl (of_rsa_only issuer id algorithm))

with_curve-Loaded :
    (issuer : Bytes) (id bits : ℕ) (found : Option Algorithm) (j : JwtConfig)
    → ((algorithm : Algorithm) → found ≡ some algorithm → family algorithm ≡ ecdsa)
    → with_curve issuer id bits found ≡ ok j
    → Loaded j
unfolding of_ec
with_curve-Loaded issuer id bits none j e h = absurd (ground (arith, h))
with_curve-Loaded issuer id bits (some algorithm) j e h = subst Loaded (ap (from_ok j) h) (
    only-Loaded (of_ec issuer id bits algorithm) ecdsa (e algorithm refl) refl
      (of_ec_only issuer id bits algorithm))

load_ec-Loaded :
    (issuer : Bytes) (found : Option (ℕ × ℕ)) (j : JwtConfig)
    → load_ec issuer found ≡ ok j
    → Loaded j
load_ec-Loaded issuer none j h = absurd (ground (arith, h))
load_ec-Loaded issuer (some (id, bits)) j h =
    with_curve-Loaded issuer id bits (curve_algorithm bits) j (curve_algorithm-ecdsa bits) h

module _ {C : Type 0} (lib : Library C) where
  load_key-Loaded :
      (issuer text : Bytes) (algorithm : Algorithm) (f : Family) (j : JwtConfig)
      → family algorithm ≡ f
      → load_key lib issuer algorithm text f ≡ ok j
      → Loaded j
  unfolding of_secret
  load_key-Loaded issuer text algorithm hmac j e h = subst Loaded (ap (from_ok j) h) (
      only-Loaded (of_secret issuer text algorithm) hmac e refl
        (of_secret_only issuer text algorithm))
  load_key-Loaded issuer text algorithm rsa j e h =
      load_rsa-Loaded issuer algorithm (lib.parse_rsa_pem text) j e h
  load_key-Loaded issuer text algorithm ecdsa j e h =
      load_ec-Loaded issuer (lib.parse_ec_pem text) j h

  by_method-Loaded :
      (issuer text : Bytes) (found : Option Algorithm) (j : JwtConfig)
      → elim found [
        | none ↦ failed invalid_algorithm
        | some algorithm ↦ load_key lib issuer algorithm text (family algorithm)
      ]
        ≡ ok j
      → Loaded j
  by_method-Loaded issuer text none j h = absurd (ground (arith, h))
  by_method-Loaded issuer text (some algorithm) j h =
      load_key-Loaded issuer text algorithm (family algorithm) j refl h

  new_jwt_config-Loaded :
      (issuer method text : Bytes) (j : JwtConfig)
      → new_jwt_config lib issuer method text ≡ ok j
      → Loaded j
  unfolding new_jwt_config
  new_jwt_config-Loaded issuer method text j h =
      by_method-Loaded issuer text (token_algorithm method) j h

own_family :
    {C : Type 0} (j : JwtConfig) (m : TokenMethod) (claims : C) (key : Key)
    → Loaded j
    → find_key j (record { token_method = m; claims = claims }) ≡ ok key
    → method_fits m key ≡ true
    → (algorithm : Algorithm) × (m ≡ known algorithm) × (family algorithm ≡ family j.algorithm)
unfolding Loaded
own_family j other_method claims key loaded found fit = absurd (ground (arith, found))
own_family j (known algorithm) claims key loaded found fit =
    (algorithm, refl, loaded.1 (family algorithm) key found fit)

module _ {C : Type 0} (lib : Library C) (documented : Documented lib) where
  -- A token that a configuration of `NewJWTConfig` signs is accepted by the same configuration, and
  -- its claims are the given ones with the issuer of the configuration, while they are valid, if
  -- golang-jwt keeps what it documents.
  pub parse_with_claims-signed_string :
      (issuer method text : Bytes) (j : JwtConfig) (claims : C) (s : Bytes)
      → new_jwt_config lib issuer method text ≡ ok j
      → signed_string lib j claims ≡ ok s
      → lib.is_valid (lib.set_issuer j.issuer claims) ≡ true
      → parse_with_claims lib j s
        ≡ ok (record { token_method = known j.algorithm; claims = lib.set_issuer j.issuer claims })
  unfolding parse_with_claims signed_string Loaded
  parse_with_claims-signed_string issuer method text j claims s made signed valid =
      documented.accepts_own j.algorithm (lib.set_issuer j.issuer claims) j.private_key s
        (find_key j) signed valid (new_jwt_config-Loaded lib issuer method text j made).0

  -- A configuration of `NewJWTConfig` accepts only tokens whose method is of the family of its own
  -- algorithm: a token that is signed by HMAC with a public key as the secret is not accepted, if
  -- golang-jwt keeps what it documents.
  pub parse_with_claims-family :
      (issuer method text : Bytes) (j : JwtConfig) (s : Bytes) (token : Token C)
      → new_jwt_config lib issuer method text ≡ ok j
      → parse_with_claims lib j s ≡ ok token
      → (algorithm : Algorithm) × (token.token_method ≡ known algorithm)
        × (family algorithm ≡ family j.algorithm)
  unfolding parse_with_claims
  parse_with_claims-family issuer method text j s token made accepted =
      let (key, found, fit) = documented.checks_type s (find_key j) token accepted in
      own_family j token.token_method token.claims key
        (new_jwt_config-Loaded lib issuer method text j made) found fit
