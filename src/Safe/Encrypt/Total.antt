-- ===== src/Safe/Encrypt/Total.antt =====
-- safe/encrypt.go: when `Encrypt` succeeds, and where `Decrypt` panics.
use fuck.Base.{
  ℕ, ◌<◌, ◌≡◌, refl, ap, ◌∙◌, ◌⊎◌, inl, inr, true, false, [], ◌∷◌, ◌++◌, Option, none, some, Bytes,
  length, leb, ◌==◌, if◌then◌else◌, arith, Bool-cases,
}
use fuck.Crypto.Outcome.{ok, panicked}
use fuck.Crypto.Xor.{all_bytes}
use fuck.Safe.Encrypt.{encrypt_with, encrypt, chosen, decrypt, decrypt_with, read_until, read_algo}
use fuck.Safe.Encrypt.Laws.{takes, IsLibraries, IsRandom, with_cipher}
use fuck.Safe.Options.{
  EncryptOptions, Libraries, ciphertext_prefix, fix_algo, new_encrypt_options, with_fix_algo,
}

module _ (lib : Libraries) where
  -- the algorithm that `fixAlgo` leaves takes the key that it leaves
  fix_algo-takes :
      (key : Bytes) (o : EncryptOptions)
      → length (lib.sum256 key) ≡ 32
      → takes (fix_algo lib key o).1.algo (length (fix_algo lib key o).0) ≡ true
  unfolding fix_algo
  fix_algo-takes key o h = elim (Bool-cases (length key == 8)) [
    | inl e ↦ rw e (ground arith)
    | inr n8 ↦ elim (Bool-cases (length key == 16)) [
      | inl e ↦ rw (n8, e) (ground arith)
      | inr n16 ↦ elim (Bool-cases (length key == 24)) [
        | inl e ↦ rw (n8, n16, e) (ground arith)
        | inr n24 ↦ elim (Bool-cases (length key == 32)) [
          | inl e ↦ rw (n8, n16, n24, e) (ground arith)
          | inr n32 ↦ rw (n8, n16, n24, n32, h) (ground arith)
        ]
      ]
    ]
  ]

  fix_algo-keeps :
      (key : Bytes) (o : EncryptOptions)
      → ((fix_algo lib key o).1.mode ≡ o.mode)
        × ((fix_algo lib key o).1.padding_method ≡ o.padding_method)
  unfolding fix_algo
  fix_algo-keeps key o = ground arith

  -- only the four algorithms take a key
  takes_known : (algo n : ℕ) → takes algo n ≡ true → leb algo 3 ≡ true
  takes_known algo n h = ground arith

  module _ (w : IsLibraries lib) (random : ℕ → Option Bytes) (wr : IsRandom random) where
    with_fixed :
        (text key : Bytes) (o : EncryptOptions)
        → all_bytes text ≡ true
        → ((n : ℕ) → (iv : Bytes) × (random n ≡ some iv))
        → o.mode ≡ 0
        → o.padding_method ≡ 0
        → (c : Bytes) × (encrypt_with lib random text (fix_algo lib key o).0 (fix_algo lib key o).1
            ≡ ok c)
    with_fixed text key o t source mode method =
        let k = (fix_algo lib key o).0 in
        let o' = (fix_algo lib key o).1 in
        let fits = fix_algo-takes key o (w.hash_size key) in
        let (b, found) = w.accepts o'.algo k fits in
        let (iv, filled) = source b.block_size in
        let wb = w.block o'.algo k b found in
        let (mode', method') = fix_algo-keeps key o in
        let (d, enc, _) =
          with_cipher lib w text iv b wb t (wr.bytes b.block_size iv filled)
            (wr.fills b.block_size iv filled) random k o' (takes_known o'.algo (length k) fits)
            found filled (mode' ∙ mode) (method' ∙ method) in
        (_, enc)

    -- With a random source that does not fail, `Encrypt` succeeds on every text of bytes with every
    -- key, whatever its length, if no options are given or they have `fixAlgo`, CBC and PKCS5.
    pub encrypt_total :
        (text key : Bytes) (o : Option EncryptOptions)
        → all_bytes text ≡ true
        → ((n : ℕ) → (iv : Bytes) × (random n ≡ some iv))
        → (o ≡ none)
          ⊎ ((p : EncryptOptions) × (o ≡ some p)
              × (p.fix_algo ≡ true)
              × (p.mode ≡ 0)
              × (p.padding_method ≡ 0))
        → (c : Bytes) × ((encrypt lib random text key o).0 ≡ ok c)
    unfolding encrypt chosen
    encrypt_total text key o t source (inl e) =
        rw e (with_fixed text key (new_encrypt_options (with_fix_algo ∷ [])) t source refl refl)
    encrypt_total text key o t source (inr (p, e, fix, mode, method)) =
        let (c, h) = with_fixed text key p t source mode method in
        let same_pair : chosen lib key p ≡ fix_algo lib key p =
          ap (λ f. if f then fix_algo lib key p else (key, p)) fix in
        (c, rw e (ap (λ x. encrypt_with lib random text x.0 x.1) same_pair ∙ h))

  -- `Decrypt` panics on a text of more than 12 bytes that has the prefix and its `$`, and no character
  -- for the algorithm in front of the next `$`.
  pub decrypt_no_algo :
      (rest key : Bytes)
      → 3 < length rest
      → decrypt lib (ciphertext_prefix ++ b'$' ∷ b'$' ∷ rest) key ≡ panicked
  unfolding decrypt decrypt_with read_until read_algo
  decrypt_no_algo rest key h =
      let s = ciphertext_prefix ++ b'$' ∷ b'$' ∷ rest in
      let long : leb (length s) 12 ≡ false = ground arith in rw (long, decrypt) refl
