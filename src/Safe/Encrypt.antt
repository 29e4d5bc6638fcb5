-- ===== src/Safe/Encrypt.antt =====
-- safe/encrypt.go: `Encrypt` and `Decrypt`, and the format of a cipher text.
pub mod Laws
pub mod RoundTrip
pub mod Total
pub mod Tests
use fuck.Base.{
  ℕ, zero, suc, ◌+◌, ◌-◌, ◌*◌, ◌/◌, ◌%◌, ◌^◌, Bool, true, false, not, ◌&&◌, ◌||◌, List, [], ◌∷◌,
  ◌++◌, Option, none, some, Bytes, codes, length, take, drop, ltb, leb, ◌==◌, if◌then◌else◌, same,
}
use fuck.Crypto.Cbc.{Block, encrypter, decrypter}
use fuck.Crypto.Outcome.{Outcome, ok, failed, panicked, ◌>>=◌, or_panic, or_fail}
use fuck.Crypto.Padding.{padding, pad, cut_tail}
use fuck.Crypto.Xor.{xor}
use fuck.Safe.Options.{
  EncryptOptions, CryptError, bad_hex, invalid_algorithm, unknown_padding, no_random,
  invalid_ciphertext, end_of_text, bad_base64, Libraries, ciphertext_prefix, new_encrypt_options,
  with_fix_algo, algo_string, is_key_size, fix_algo, new_cipher,
}
use Prim.Native.Nat.{bit_or}

-- `buf.ReadString(delim)`: the text in front of the delimiter, and what follows
pub read_until : ℕ → Bytes → Option (Bytes × Bytes)
read_until delim [] = none
read_until delim (c ∷ s) =
    let rest = read_until delim s in
    if c == delim then some ([], s) else elim rest [ none ↦ none | some (u, t) ↦ some (c ∷ u, t) ]

-- one digit of `hex.DecodeString`
pub un_hex : ℕ → Option ℕ
un_hex c =
    if leb b'0' c && leb c b'9'
    then some (c - b'0')
    else if leb b'a' c && leb c b'f'
    then some (c - b'a' + 10)
    else if leb b'A' c && leb c b'F'
    then some (c - b'A' + 10)
    else none

pub hex_byte : ℕ → ℕ → Outcome CryptError ℕ
unfolding un_hex
hex_byte c d = do a ← or_fail bad_hex (un_hex c); b ← or_fail bad_hex (un_hex d); ok (a * 16 + b)

-- the algorithm from the text in front of its `$`, of at most two characters; `algos[0]` panics for
-- the empty one
pub read_algo : Bytes → Outcome CryptError ℕ
unfolding hex_byte
read_algo [] = panicked
read_algo (c ∷ []) = hex_byte b'0' c
read_algo (c ∷ d ∷ []) = hex_byte c d
read_algo (c ∷ d ∷ e ∷ s) = failed invalid_algorithm

-- `binary.BigEndian.PutUint32` of `uint32(n)`, and `Uint32`
abbrev pub put_uint32 : ℕ → Bytes
put_uint32 n = n / 2 ^ 24 % 256 ∷ n / 2 ^ 16 % 256 ∷ n / 2 ^ 8 % 256 ∷ n % 256 ∷ []

pub get_uint32 : Bytes → ℕ
get_uint32 (a ∷ b ∷ c ∷ d ∷ s) = ((a * 256 + b) * 256 + c) * 256 + d
get_uint32 _ = 0

-- the five bytes of arguments, mixed with the iv if that is long enough
abbrev pub mix : Bytes → Bytes → Bytes
mix args iv = if leb 5 (length iv) then xor args iv else args

-- `(p PaddingMethod) Padding`: the padded text and the length of its padding
unfoldable pub apply_padding : ℕ → Bytes → ℕ → Outcome CryptError (Bytes × ℕ)
apply_padding p text block_size =
    if p == 0 then ok (pad text block_size, padding text block_size) else failed unknown_padding

-- `(p PaddingMethod) UnPadding`
pub un_padding : ℕ → Bytes → ℕ → Outcome CryptError Bytes
un_padding p text padding_length =
    if p == 0 then or_panic (cut_tail text padding_length) else failed unknown_padding

-- `NewEncrypter`, `NewDecrypter` and `CryptBlocks`: a mode other than CBC is a nil pointer.
abbrev pub encrypt_blocks : ℕ → Block → Bytes → Bytes → Outcome CryptError Bytes
encrypt_blocks mode b iv text = if mode == 0 then or_panic (encrypter b iv text) else panicked

abbrev pub decrypt_blocks : ℕ → Block → Bytes → Bytes → Outcome CryptError Bytes
decrypt_blocks mode b iv text = if mode == 0 then or_panic (decrypter b iv text) else panicked

-- `args[5:]` is the iv, and the five bytes in front are mixed with it
pub split_args : Bytes → Outcome CryptError (Bytes × Bytes)
split_args args =
    let iv = drop 5 args in if ltb (length args) 5 then panicked else ok (mix (take 5 args) iv, iv)

abbrev pub first : Bytes → ℕ
first [] = 0
first (x ∷ xs) = x

module _ (lib : Libraries) where
  abbrev pub render : ℕ → Bytes → Bytes → Bytes
  render algo args cipher_bytes =
      ciphertext_prefix
      ++ b'$' ∷ (algo_string algo ++ b'$' ∷ (lib.encode args ++ b'$' ∷ lib.encode cipher_bytes))

  -- the body of `Encrypt` from `o.algo.NewCipher` on; `random` is what `rand.Read` puts into a slice
  -- of a given length
  unfoldable pub encrypt_with :
      (ℕ → Option Bytes) → Bytes → Bytes → EncryptOptions → Outcome CryptError Bytes
  unfolding apply_padding
  encrypt_with random text key o = do
    b ← new_cipher lib o.algo key
    padded ← apply_padding o.padding_method text b.block_size
    iv ← or_fail no_random (random b.block_size)
    let args = mix (bit_or (o.mode * 16 % 256) o.padding_method ∷ put_uint32 (padded.1 % 2 ^ 32)) iv
    cipher_bytes ← encrypt_blocks o.mode b iv padded.0
    ok (render o.algo (args ++ iv) cipher_bytes)

  -- `if o.fixAlgo { key = fixAlgo(key, o) }`
  pub chosen : Bytes → EncryptOptions → Bytes × EncryptOptions
  chosen key o = if o.fix_algo then fix_algo lib key o else (key, o)

  -- `Encrypt`: the text, and the options afterwards, which `fixAlgo` changes
  unfoldable pub encrypt :
      (ℕ → Option Bytes)
      → Bytes
      → Bytes
      → Option EncryptOptions
      → Outcome CryptError Bytes × Option EncryptOptions
  unfolding encrypt_with chosen
  encrypt random text key none =
      let (key', o) = chosen key (new_encrypt_options (with_fix_algo ∷ [])) in
      (encrypt_with random text key' o, none)
  encrypt random text key (some o) =
      let (key', o') = chosen key o in (encrypt_with random text key' o', some o')

  -- `Decrypt` behind the prefix and its `$`
  unfoldable pub decrypt_with : Bytes → Bytes → Outcome CryptError Bytes
  unfolding read_algo split_args un_padding
  decrypt_with buf key = do
    (algo_str, rest) ← or_fail end_of_text (read_until b'$' buf)
    algo ← read_algo algo_str
    b ← new_cipher lib algo key
    (args_str, s) ← or_fail end_of_text (read_until b'$' rest)
    raw ← or_fail bad_base64 (lib.decode args_str)
    (args, iv) ← split_args raw
    cipher_bytes ← or_fail bad_base64 (lib.decode s)
    padding_bytes ← decrypt_blocks (first args / 16) b iv cipher_bytes
    un_padding (first args % 16) padding_bytes (get_uint32 (drop 1 args))

  unfoldable pub decrypt : Bytes → Bytes → Outcome CryptError Bytes
  unfolding decrypt_with
  decrypt cipher_string key =
      let n = length ciphertext_prefix in
      let key' = if is_key_size (length key) then key else lib.sum256 key in
      if leb (length cipher_string) (n + 5)
      then failed invalid_ciphertext
      else if not (same ciphertext_prefix (take n cipher_string))
          || not (same (codes "$") (take 1 (drop n cipher_string)))
      then failed invalid_ciphertext
      else decrypt_with (drop (n + 1) cipher_string) key'
