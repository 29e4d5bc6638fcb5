-- ===== src/Crypto/Aes.antt =====
-- crypto/aes.go: `AESCipher`. The AES block cipher of the standard library is a parameter.
use fuck.Base.{
  ℕ, ◌-◌, ◌<◌, ◌≤◌, ◌≡◌, refl, true, false, [], Option, none, some, Bytes, length, take, get_elem?,
  ltb, le→ltb, arith, if◌then◌else◌, length-take, inl, inr, Bool-cases,
}
use fuck.Crypto.Cbc.{Block, IsBlock, encrypter, decrypter, encrypter-undone, decrypter-nil}
use fuck.Crypto.Outcome.{Outcome, ok, failed, panicked, ◌>>=◌, or_panic}
use fuck.Crypto.Padding.{pad, cut_tail, pad_full, all_bytes-pad, cut_tail-pad, last_byte}
use fuck.Crypto.Xor.{all_bytes}

-- `aes.KeySizeError`
pub data KeySizeError : Type 0 where
  key_size : ℕ → KeySizeError

-- `block` is none if `err` is set.
pub record AesCipher : Type 0 where
  pub block : Option Block
  pub key : Bytes

-- `pkcs7UnPadding`: the last byte tells how much to cut off
pub pkcs7_un_padding : Bytes → Option Bytes
pkcs7_un_padding orig_data = elim (get_elem? orig_data (length orig_data - 1)) [
  | none ↦ none
  | some un_padding ↦ cut_tail orig_data un_padding
]

-- `key[:blockSize]`
abbrev pub iv_of : Block → Bytes → Option Bytes
iv_of b key = if ltb (length key) b.block_size then none else some (take b.block_size key)

-- `aes.NewCipher`, where none is a `KeySizeError`
module _ (new_cipher : Bytes → Option Block) where
  unfoldable pub new_aes_cipher : Bytes → AesCipher
  new_aes_cipher key = record { block = new_cipher key; key = key }

-- the bodies behind the test of `c.err`
encrypt_with : Block → Bytes → Bytes → Outcome KeySizeError Bytes
encrypt_with b key orig_data = do
  iv ← or_panic (iv_of b key)
  or_panic (encrypter b iv (pad orig_data b.block_size))

decrypt_with : Block → Bytes → Bytes → Outcome KeySizeError Bytes
unfolding pkcs7_un_padding
decrypt_with b key cryted_byte = do
  iv ← or_panic (iv_of b key)
  orig ← or_panic (decrypter b iv cryted_byte)
  or_panic (pkcs7_un_padding orig)

unfoldable pub cbc_encrypt : AesCipher → Bytes → Outcome KeySizeError Bytes
unfolding encrypt_with
cbc_encrypt c orig_data = elim c.block [
  | none ↦ failed (key_size (length c.key))
  | some b ↦ encrypt_with b c.key orig_data
]

unfoldable pub cbc_decrypt : AesCipher → Bytes → Outcome KeySizeError Bytes
unfolding decrypt_with
cbc_decrypt c cryted_byte = elim c.block [
  | none ↦ failed (key_size (length c.key))
  | some b ↦ decrypt_with b c.key cryted_byte
]

un_padding-pad :
    (text : Bytes) (block_size : ℕ)
    → 0 < block_size
    → block_size < 256
    → pkcs7_un_padding (pad text block_size) ≡ some text
unfolding pkcs7_un_padding
un_padding-pad text block_size positive small =
    rw (last_byte text block_size positive small, pkcs7_un_padding)
      (cut_tail-pad text block_size positive)

with_undone :
    (b : Block) (key text : Bytes)
    → IsBlock b
    → b.block_size ≤ length key
    → all_bytes text ≡ true
    → (c : Bytes) × (encrypt_with b key text ≡ ok c) × (decrypt_with b key c ≡ ok text)
unfolding encrypt_with decrypt_with
with_undone b key text w h t =
    let iv = take b.block_size key in
    let long : ltb (length key) b.block_size ≡ false = le→ltb b.block_size (length key) h in
    let iv_fits : length iv ≡ b.block_size = omega (arith, length-take b.block_size key) in
    let (c, enc, same, bytes, dec) =
      encrypter-undone b w iv (pad text b.block_size) (all_bytes-pad text b.block_size w.positive t)
        iv_fits (pad_full text b.block_size w.positive) in
    (
      c,
      rw (long, enc) refl,
      rw (long, dec, un_padding-pad text b.block_size w.positive w.small) refl,
    )

-- With a key that the block cipher accepts and that is at least as long as a block, `CBCEncrypt`
-- succeeds on every text of bytes, and `CBCDecrypt` gives the text back.
pub cbc_decrypt-cbc_encrypt :
    (new_cipher : Bytes → Option Block) (key text : Bytes) (b : Block)
    → new_cipher key ≡ some b
    → IsBlock b
    → b.block_size ≤ length key
    → all_bytes text ≡ true
    → (c : Bytes) × (cbc_encrypt (new_aes_cipher new_cipher key) text ≡ ok c)
      × (cbc_decrypt (new_aes_cipher new_cipher key) c ≡ ok text)
unfolding cbc_encrypt cbc_decrypt new_aes_cipher
cbc_decrypt-cbc_encrypt new_cipher key text b accepted w h t =
    rw accepted (with_undone b key text w h t)

-- `CBCDecrypt` panics on an empty cipher text, whatever the key that the block cipher accepts.
pub cbc_decrypt-nil :
    (new_cipher : Bytes → Option Block) (key : Bytes) (b : Block)
    → new_cipher key ≡ some b
    → cbc_decrypt (new_aes_cipher new_cipher key) [] ≡ panicked
unfolding cbc_decrypt decrypt_with new_aes_cipher pkcs7_un_padding
cbc_decrypt-nil new_cipher key b accepted =
    rw accepted (elim (Bool-cases (ltb (length key) b.block_size)) [
      | inl short ↦ rw (short, decrypt_with) refl
      | inr long ↦ elim (decrypter-nil b (take b.block_size key)) [
        | inl stop ↦ rw (long, stop, decrypt_with) refl
        | inr empty ↦ rw (long, empty, decrypt_with) refl
      ]
    ])
