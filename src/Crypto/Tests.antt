-- ===== src/Crypto/Tests.antt =====
-- Runs of `AESCipher` over a stand-in for the block cipher, and instances of the theorems.
use fuck.Base.{◌≡◌, refl, [], Option, none, some, Bytes, codes, arith}
use fuck.Crypto.Aes.{new_aes_cipher, cbc_encrypt, cbc_decrypt, cbc_decrypt-cbc_encrypt, key_size}
use fuck.Crypto.Cbc.{Block}
use fuck.Crypto.Outcome.{ok, failed}
use fuck.Crypto.Sample.{shift_block, shift_block-IsBlock}

-- accepts any key of 16 bytes
abbrev accept : Bytes → Option Block
accept key = some (shift_block 8)

abbrev key : Bytes
key = codes "0123456789abcdef"

refused : cbc_encrypt (new_aes_cipher (λ k. none) (codes "short")) [] ≡ failed (key_size 5)
unfolding cbc_encrypt new_aes_cipher
refused = refl

cbc_decrypt-cbc_encrypt_example :
    (c : Bytes) × (cbc_encrypt (new_aes_cipher accept key) (codes "attack at dawn") ≡ ok c)
    × (cbc_decrypt (new_aes_cipher accept key) c ≡ ok (codes "attack at dawn"))
cbc_decrypt-cbc_encrypt_example =
    cbc_decrypt-cbc_encrypt accept key (codes "attack at dawn") (shift_block 8) refl
      shift_block-IsBlock (omega arith) refl
