-- ===== src/Safe/Encrypt/Tests.antt =====
-- Runs of `Encrypt` and `Decrypt` over stand-ins for the libraries, and instances of the theorems.
use fuck.Safe.Hash.{hex_string, new_hash}
use fuck.Base.{◌≡◌, refl, ap, inl, [], ◌∷◌, none, some, Bytes, codes, replicate}
use fuck.Base.Int.{pos}
use fuck.Base.Equality.{nat_eq}
use fuck.Crypto.Cbc.{encrypter}
use fuck.Crypto.Outcome.{ok}
use fuck.Crypto.Padding.{pad}
use fuck.Crypto.Xor.{xor, xor_byte}
use fuck.Safe.Encrypt.{encrypt, decrypt, encrypt_with, apply_padding}
use fuck.Safe.Encrypt.RoundTrip.{decrypt-encrypt}
use fuck.Safe.Encrypt.Total.{encrypt_total}
use fuck.Safe.Sample.{sample, fives, sample-IsLibraries, fives-IsRandom}
use fuck.Safe.Options.{new_cipher, fix_algo}

abbrev text : Bytes
text = codes "abc"

-- an iv of eight fives, arguments 0 0 0 0 5 mixed with it, and the block abc55555
abbrev crypted : Bytes
crypted = codes "{CRYPT}$2$AFAFAFAFAAAFAFAFAFAFAFAFAF$GFGIGHABABABABAB"

encrypt_run : encrypt sample fives text (codes "key") none ≡ (ok crypted, none)
unfolding encrypt encrypt_with apply_padding new_cipher fix_algo pad xor xor_byte encrypter
encrypt_run = refl

decrypt-encrypt_example : decrypt sample crypted (codes "key") ≡ ok text
decrypt-encrypt_example =
    decrypt-encrypt sample fives sample-IsLibraries text (codes "key") crypted none fives-IsRandom
      refl (ap (λ x. x.0) encrypt_run)

encrypt_total_example : (c : Bytes) × ((encrypt sample fives text (codes "any key") none).0 ≡ ok c)
encrypt_total_example =
    encrypt_total sample sample-IsLibraries fives fives-IsRandom text (codes "any key") none refl
      (λ n. (replicate n 5, refl)) (inl refl)

first_three : hex_string (new_hash (λ data_. 10 ∷ data_) (255 ∷ [])) (pos 3) ≡ some (codes "0af")
unfolding hex_string
first_three = refl
