-- ===== src/Safe/Options.antt =====
-- safe/encrypt.go: the options and the algorithms. The block ciphers, SHA-256 and base64 without
-- padding are parameters, in the record `Libraries`.
use fuck.Base.{
  ℕ, ◌+◌, ◌-◌, ◌/◌, ◌%◌, Bool, true, false, not, ◌&&◌, ◌||◌, List, [], ◌∷◌, Option, Bytes, codes,
  length, ltb, leb, ◌==◌, if◌then◌else◌,
}
use fuck.Crypto.Cbc.{Block}
use fuck.Crypto.Outcome.{Outcome, failed, or_fail}

-- `EncryptionAlgorithm` is a byte: 0 for 3DES, 1 for DES, 2 for AES, 3 for TEA.
pub record EncryptOptions : Type 0 where
  pub algo : ℕ
  pub mode : ℕ
  pub padding_method : ℕ
  pub fix_algo : Bool

pub data CryptError : Type 0 where
  bad_key unknown_algorithm unknown_padding no_random : CryptError
  invalid_ciphertext end_of_text invalid_algorithm bad_hex bad_base64 : CryptError

-- `cipher algo key` is the `NewCipher` of the package for that algorithm, none for a key that it
-- refuses; `decode` is none for a text that is not base64.
pub record Libraries : Type 0 where
  pub cipher : ℕ → Bytes → Option Block
  pub sum256 : Bytes → Bytes
  pub encode : Bytes → Bytes
  pub decode : Bytes → Option Bytes

abbrev pub ciphertext_prefix : Bytes
ciphertext_prefix = codes "{CRYPT}"

abbrev set_options : List (EncryptOptions → EncryptOptions) → EncryptOptions → EncryptOptions
set_options [] o = o
set_options (of ∷ ofs) o = set_options ofs (of o)

-- 3DES, CBC and PKCS5, then one function after another
abbrev pub new_encrypt_options : List (EncryptOptions → EncryptOptions) → EncryptOptions
new_encrypt_options ofs =
    set_options ofs (record { algo = 0; mode = 0; padding_method = 0; fix_algo = false })

abbrev pub with_algorithm : ℕ → EncryptOptions → EncryptOptions
with_algorithm algo o = record o { algo = algo }

abbrev pub with_fix_algo : EncryptOptions → EncryptOptions
with_fix_algo o = record o { fix_algo = true }

abbrev pub without_fix_algo : EncryptOptions → EncryptOptions
without_fix_algo o = record o { fix_algo = false }

-- the digits of a byte in hexadecimal, as `strings.ToUpper(hex.EncodeToString(…))` has them
abbrev pub hex_digit : ℕ → ℕ
hex_digit n = if ltb n 10 then n + b'0' else n - 10 + b'A'

-- `(algo EncryptionAlgorithm) String()`
abbrev pub algo_string : ℕ → Bytes
algo_string algo =
    if algo / 16 == 0
    then hex_digit algo ∷ []
    else hex_digit (algo / 16) ∷ hex_digit (algo % 16) ∷ []

abbrev pub with_mode : ℕ → EncryptOptions → EncryptOptions
with_mode mode o = record o { mode = mode }

abbrev pub with_padding : ℕ → EncryptOptions → EncryptOptions
with_padding padding_method o = record o { padding_method = padding_method }

-- the sizes of the keys of the ciphers
abbrev pub is_key_size : ℕ → Bool
is_key_size n = n == 8 || n == 16 || n == 24 || n == 32

module _ (lib : Libraries) where
  -- the key in use, and the options with an algorithm that takes such a key
  unfoldable pub fix_algo : Bytes → EncryptOptions → Bytes × EncryptOptions
  fix_algo key o =
      if length key == 8
      then (key, record o { algo = if not (o.algo == 1) then 1 else o.algo })
      else if length key == 16
      then (key, record o { algo = if not (o.algo == 2) && not (o.algo == 3) then 2 else o.algo })
      else if length key == 24
      then (key, record o { algo = if not (o.algo == 2) && not (o.algo == 0) then 0 else o.algo })
      else if length key == 32
      then (key, record o { algo = if not (o.algo == 2) then 2 else o.algo })
      else (lib.sum256 key, record o { algo = if not (o.algo == 2) then 2 else o.algo })

  -- `(algo EncryptionAlgorithm) NewCipher(key)`
  unfoldable pub new_cipher : ℕ → Bytes → Outcome CryptError Block
  new_cipher algo key =
      if leb algo 3 then or_fail bad_key (lib.cipher algo key) else failed unknown_algorithm
