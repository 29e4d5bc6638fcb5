-- ===== src/Safe/Encrypt/RoundTrip.antt =====
-- safe/encrypt.go: what comes out of `Encrypt`, and that `Decrypt` reads it.
use fuck.Base.{
  ℕ, ◌<◌, ◌≤◌, ◌≡◌, refl, sym, ap, ◌∙◌, subst, inl, inr, true, false, [], ◌∷◌, ◌++◌, Option, none,
  some, Bytes, length, drop, leb, ◌==◌, if◌then◌else◌, arith, Bool-cases, Option-cases,
  length-append, ==_iff,
}
use fuck.Crypto.Cbc.{Block}
use fuck.Crypto.Outcome.{Outcome, ok}
use fuck.Crypto.Xor.{all_bytes}
use fuck.Safe.Encrypt.{
  mix, render, encrypt_with, encrypt, apply_padding, decrypt_with, decrypt, chosen,
}
use fuck.Safe.Encrypt.Laws.{takes, IsLibraries, IsRandom, args, length-mix, with_cipher}
use fuck.Safe.Options.{
  EncryptOptions, CryptError, Libraries, algo_string, is_key_size, fix_algo, new_cipher,
  new_encrypt_options, with_fix_algo,
}

module _ (lib : Libraries) (random : ℕ → Option Bytes) where
  -- what a success of `Encrypt` says of its parts
  record Succeeds (key : Bytes) (o : EncryptOptions) : Type 0 where
    pub b : Block
    pub iv : Bytes
    pub known : leb o.algo 3 ≡ true
    pub found : lib.cipher o.algo key ≡ some b
    pub filled : random b.block_size ≡ some iv
    pub mode_cbc : o.mode ≡ 0
    pub method_pkcs5 : o.padding_method ≡ 0

  succeeded :
      (text key : Bytes) (o : EncryptOptions) (c : Bytes)
      → encrypt_with lib random text key o ≡ ok c
      → Succeeds key o
  unfolding encrypt_with new_cipher apply_padding
  succeeded text key o c h = elim (Bool-cases (leb o.algo 3)) [
    | inr unknown ↦ absurd (ground (arith, h, unknown))
    | inl known ↦ elim (Option-cases (lib.cipher o.algo key)) [
      | inl refused ↦ absurd (ground (arith, h, known, refused))
      | inr (b, found) ↦ elim (Bool-cases (o.padding_method == 0)) [
        | inr other ↦ absurd (ground (arith, h, known, found, other))
        | inl method ↦ elim (Option-cases (random b.block_size)) [
          | inl dry ↦ absurd (ground (arith, h, known, found, method, dry))
          | inr (iv, filled) ↦ elim (Bool-cases (o.mode == 0)) [
            | inr nil ↦ absurd (ground (arith, h, known, found, method, filled, nil))
            | inl mode ↦ record {
              b = b;
              iv = iv;
              known = known;
              found = found;
              filled = filled;
              mode_cbc = (==_iff o.mode 0).0 mode;
              method_pkcs5 = (==_iff o.padding_method 0).0 method;
            }
          ]
        ]
      ]
    ]
  ]

  value : Bytes → Outcome CryptError Bytes → Bytes
  value d (ok a) = a
  value d _ = d

  -- the key that `Decrypt` works with
  abbrev key_in_use : Bytes → Bytes
  key_in_use key = if is_key_size (length key) then key else lib.sum256 key

  lt→leb : (m n : ℕ) → m < n → leb n m ≡ false
  lt→leb m n h = ground arith

  module _ (w : IsLibraries lib) where
    -- a key that a cipher takes is used as it is
    taken_as_is :
        (algo : ℕ) (key : Bytes) (b : Block) → lib.cipher algo key ≡ some b → key_in_use key ≡ key
    taken_as_is algo key b h = elim (Bool-cases (takes algo (length key))) [
      | inr out ↦ absurd (ground (arith, h, w.rejects algo key out))
      | inl fits ↦ let size : is_key_size (length key) ≡ true = ground arith in rw size refl
    ]

    fix_algo-key : (key : Bytes) (o : EncryptOptions) → (fix_algo lib key o).0 ≡ key_in_use key
    unfolding fix_algo
    fix_algo-key key o = elim (Bool-cases (length key == 8)) [
      | inl e ↦ rw e refl
      | inr n8 ↦ elim (Bool-cases (length key == 16)) [
        | inl e ↦ rw (n8, e) refl
        | inr n16 ↦ elim (Bool-cases (length key == 24)) [
          | inl e ↦ rw (n8, n16, e) refl
          | inr n24 ↦ elim (Bool-cases (length key == 32)) [
            | inl e ↦ rw (n8, n16, n24, e) refl
            | inr n32 ↦ rw (n8, n16, n24, n32) refl
          ]
        ]
      ]
    ]

    -- `Decrypt` passes its tests on a text of the format, and goes on behind the prefix
    decrypt-render :
        (key : Bytes) (algo : ℕ) (a c : Bytes)
        → 5 ≤ length a
        → decrypt lib (render lib algo a c) key
          ≡ decrypt_with lib (drop 8 (render lib algo a c)) (key_in_use key)
    unfolding decrypt
    decrypt-render key algo a c h =
        let tail = lib.encode a ++ b'$' ∷ lib.encode c in
        let long : leb (length (render lib algo a c)) 12 ≡ false =
          lt→leb 12 (length (render lib algo a c)) (
            omega (
              arith,
              length-append (algo_string algo) (b'$' ∷ tail),
              length-append (lib.encode a) (b'$' ∷ lib.encode c),
              w.longer a,
            )) in
        rw (long, decrypt) refl

    round_trip :
        (text key given : Bytes) (o : EncryptOptions) (c : Bytes)
        → IsRandom random
        → all_bytes text ≡ true
        → (key ≡ key_in_use given)
        → encrypt_with lib random text key o ≡ ok c
        → decrypt lib c given ≡ ok text
    unfolding value
    round_trip text key given o c wr t k h =
        let p = succeeded text key o c h in
        let ti = wr.bytes p.b.block_size p.iv p.filled in
        let li = wr.fills p.b.block_size p.iv p.filled in
        let wb = w.block o.algo key p.b p.found in
        let (d, enc, dec) =
          with_cipher lib w text p.iv p.b wb t ti li random key o p.known p.found p.filled
            p.mode_cbc p.method_pkcs5 in
        let head = args lib w text p.iv p.b wb t ti li in
        let a = mix head p.iv ++ p.iv in
        let five : 5 ≤ length a =
          omega (arith, length-append (mix head p.iv) p.iv, length-mix head p.iv) in
        let written : c ≡ render lib o.algo a d = ap (value c) (sym h ∙ enc) in
        ap (λ s. decrypt lib s given) written
        ∙ (decrypt-render given o.algo a d five
            ∙ (ap (decrypt_with lib (drop 8 (render lib o.algo a d))) (sym k) ∙ dec))

    chosen-key :
        (key : Bytes) (o : EncryptOptions) (b : Block)
        → lib.cipher (chosen lib key o).1.algo (chosen lib key o).0 ≡ some b
        → (chosen lib key o).0 ≡ key_in_use key
    unfolding chosen
    chosen-key key o b found = elim (Bool-cases o.fix_algo) [
      | inl fix ↦ ap (λ f. (if f then fix_algo lib key o else (key, o)).0) fix ∙ fix_algo-key key o
      | inr keep ↦
          let same_pair : chosen lib key o ≡ (key, o) =
            ap (λ f. if f then fix_algo lib key o else (key, o)) keep in
          let found' = subst (λ x. lib.cipher x.1.algo x.0 ≡ some b) same_pair found in
          ap (λ x. x.0) same_pair ∙ sym (taken_as_is o.algo key b found')
    ]

    with_chosen :
        (text key : Bytes) (o : EncryptOptions) (c : Bytes)
        → IsRandom random
        → all_bytes text ≡ true
        → encrypt_with lib random text (chosen lib key o).0 (chosen lib key o).1 ≡ ok c
        → decrypt lib c key ≡ ok text
    with_chosen text key o c wr t h =
        let p = succeeded text (chosen lib key o).0 (chosen lib key o).1 c h in
        round_trip text (chosen lib key o).0 key (chosen lib key o).1 c wr t
          (chosen-key key o p.b p.found) h

    -- `Decrypt` with the same key gives back every text of bytes that `Encrypt` has encrypted, with
    -- any options, where the libraries and the random source keep what their documentation says.
    pub decrypt-encrypt :
        (text key c : Bytes) (o : Option EncryptOptions)
        → IsRandom random
        → all_bytes text ≡ true
        → (encrypt lib random text key o).0 ≡ ok c
        → decrypt lib c key ≡ ok text
    unfolding encrypt
    decrypt-encrypt text key c none wr t h =
        with_chosen text key (new_encrypt_options (with_fix_algo ∷ [])) c wr t h
    decrypt-encrypt text key c (some o) wr t h = with_chosen text key o c wr t h
