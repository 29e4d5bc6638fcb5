-- ===== src/Jwt.antt =====
-- jwt/jwt.go: `JWTConfig`, the keys with which tokens are signed and checked. golang-jwt, crypto/x509,
-- encoding/pem and crypto/rand are parameters, in the record `Library`; `C` is the type of the claims.
pub mod Laws
pub mod Json
pub mod RandomKey
pub mod Issuer
pub mod Tests
use fuck.Base.{
  ℕ, Bool, true, false, List, [], ◌∷◌, Option, none, some, Bytes, codes, same, ◌==◌, if◌then◌else◌,
}
use fuck.Crypto.Outcome.{Outcome, ok, failed, panicked}

pub data Algorithm : Type 0 where
  hs256 hs384 hs512 rs256 rs384 rs512 es256 es384 es512 : Algorithm

pub data Family : Type 0 where
  hmac rsa ecdsa : Family

-- the Go type of the signing method
abbrev pub family : Algorithm → Family
family hs256 = hmac
family hs384 = hmac
family hs512 = hmac
family rs256 = rsa
family rs384 = rsa
family rs512 = rsa
family es256 = ecdsa
family es384 = ecdsa
family es512 = ecdsa

-- A pair of keys is a number; `bits` is the `BitSize` of its curve.
pub data Key : Type 0 where
  no_key : Key
  secret : (text : Bytes) → Key
  rsa_private rsa_public : (id : ℕ) → Key
  ec_private ec_public : (id bits : ℕ) → Key

pub data JwtError : Type 0 where
  invalid_algorithm bad_rsa_key bad_ec_key invalid_curve unsupported_key : JwtError
  no_public_key invalid_token not_signed no_random : JwtError

-- `other_method` is a method of golang-jwt that is of none of the three types: RSA-PSS, EdDSA, none.
pub data TokenMethod : Type 0 where
  known : (algorithm : Algorithm) → TokenMethod
  other_method : TokenMethod

pub record Token (C : Type 0) : Type 0 where
  pub token_method : TokenMethod
  pub claims : C

pub data KeyType : Type 0 where
  rsa_key ecdsa_key other_key : KeyType

-- `parse` is `jwt.ParseWithClaims` with a function that finds the key, `parse_unverified` also gives
-- the number of parts, `signed` is `SignedString` of a new token, and
-- `is_valid` what the validator says of the claims. `pem_decode` is none for a nil block,
-- `is_pkcs1` and `is_ec` tell whether the parser has no error, and so do the options of the others.
pub record Library (C : Type 0) : Type 0 where
  pub parse : Bytes → (Token C → Outcome JwtError Key) → Outcome JwtError (Token C)
  pub parse_unverified : Bytes → Option (Token C × ℕ)
  pub signed : Algorithm → C → Key → Outcome JwtError Bytes
  pub set_issuer : Bytes → C → C
  pub is_valid : C → Bool
  pub parse_rsa_pem : Bytes → Option ℕ
  pub parse_ec_pem : Bytes → Option (ℕ × ℕ)
  pub pem_decode : Bytes → Option Bytes
  pub is_pkcs1 : Bytes → Bool
  pub is_ec : Bytes → Bool
  pub parse_pkcs8 : Bytes → Option KeyType

pub record JwtConfig : Type 0 where
  pub private_key : Key
  pub public_key : Key
  pub algorithm : Algorithm
  pub issuer : Bytes

abbrev pub algorithms : List (Bytes × Algorithm)
algorithms =
    (codes "HS256", hs256)
    ∷ (codes "HS384", hs384)
    ∷ (codes "HS512", hs512)
    ∷ (codes "RS256", rs256)
    ∷ (codes "RS384", rs384)
    ∷ (codes "RS512", rs512)
    ∷ (codes "ES256", es256)
    ∷ (codes "ES384", es384)
    ∷ (codes "ES512", es512)
    ∷ []

abbrev pub find_algorithm : Bytes → List (Bytes × Algorithm) → Option Algorithm
find_algorithm method [] = none
find_algorithm method (entry ∷ entries) =
    if same method entry.0 then some entry.1 else find_algorithm method entries

-- `tokenAlgorithmMap[method]`
unfoldable pub token_algorithm : Bytes → Option Algorithm
token_algorithm method = find_algorithm method algorithms

-- `switch privk.Curve.Params().BitSize`
abbrev pub curve_algorithm : ℕ → Option Algorithm
curve_algorithm bits =
    if bits == 256
    then some es256
    else if bits == 384
    then some es384
    else if bits == 512
    then some es512
    else none

-- the key function of `(*JWTConfig) ParseWithClaims`
abbrev pub public_key_of : JwtConfig → Outcome JwtError Key
public_key_of j = elim j.public_key [ no_key ↦ failed no_public_key | _ ↦ ok j.public_key ]

abbrev pub key_for : JwtConfig → Family → Outcome JwtError Key
key_for j hmac = ok j.private_key
key_for j rsa = public_key_of j
key_for j ecdsa = public_key_of j

abbrev pub find_key : {C : Type 0} → JwtConfig → Token C → Outcome JwtError Key
find_key j token = elim token.token_method [
  | known algorithm ↦ key_for j (family algorithm)
  | other_method ↦ failed invalid_algorithm
]

-- the cases of the second switch of `NewJWTConfig`
abbrev pub load_rsa : Bytes → Algorithm → Option ℕ → Outcome JwtError JwtConfig
load_rsa issuer algorithm none = failed bad_rsa_key
load_rsa issuer algorithm (some id) = ok (record {
  private_key = rsa_private id;
  public_key = rsa_public id;
  algorithm = algorithm;
  issuer = issuer;
})

abbrev pub with_curve : Bytes → ℕ → ℕ → Option Algorithm → Outcome JwtError JwtConfig
with_curve issuer id bits none = failed invalid_curve
with_curve issuer id bits (some algorithm) = ok (record {
  private_key = ec_private id bits;
  public_key = ec_public id bits;
  algorithm = algorithm;
  issuer = issuer;
})

abbrev pub load_ec : Bytes → Option (ℕ × ℕ) → Outcome JwtError JwtConfig
load_ec issuer none = failed bad_ec_key
load_ec issuer (some (id, bits)) = with_curve issuer id bits (curve_algorithm bits)

module _ {C : Type 0} (lib : Library C) where
  unfoldable pub parse_with_claims : JwtConfig → Bytes → Outcome JwtError (Token C)
  parse_with_claims j token_string = lib.parse token_string (find_key j)

  unfoldable pub signed_string : JwtConfig → C → Outcome JwtError Bytes
  signed_string j claims = lib.signed j.algorithm (lib.set_issuer j.issuer claims) j.private_key

  -- that switch; it goes by the names that have led to the algorithm
  abbrev pub load_key : Bytes → Algorithm → Bytes → Family → Outcome JwtError JwtConfig
  load_key issuer algorithm private_key hmac = ok (record {
    private_key = secret private_key;
    public_key = no_key;
    algorithm = algorithm;
    issuer = issuer;
  })
  load_key issuer algorithm private_key rsa =
      load_rsa issuer algorithm (lib.parse_rsa_pem private_key)
  load_key issuer algorithm private_key ecdsa = load_ec issuer (lib.parse_ec_pem private_key)

  -- `NewJWTConfig`
  unfoldable pub new_jwt_config : Bytes → Bytes → Bytes → Outcome JwtError JwtConfig
  unfolding token_algorithm
  new_jwt_config issuer method private_key = elim (token_algorithm method) [
    | none ↦ failed invalid_algorithm
    | some algorithm ↦ load_key issuer algorithm private_key (family algorithm)
  ]

abbrev pub new_jwt_config_by_secret : Bytes → JwtConfig
new_jwt_config_by_secret text = record {
  private_key = secret text;
  public_key = no_key;
  algorithm = hs256;
  issuer = [];
}
