-- ===== src/Crypto/Cbc.antt =====
-- crypto/cipher of Go's standard library: a block cipher is a pair of functions on blocks, and
-- `CryptBlocks` chains its blocks (CBC). `none` is a panic.
use fuck.Base.{
  ℕ, zero, suc, ◌*◌, ◌/◌, ◌%◌, ◌<◌, ◌≤◌, ◌≡◌, refl, sym, ap, ◌∙◌, Bool, true, ◌&&◌, [], ◌∷◌, ◌++◌,
  Option, none, some, Bytes, length, take, drop, ◌==◌, arith, if◌then◌else◌, ==_iff, ◌⊎◌, inl, inr,
  Bool-cases, length-take, length-drop, length-append, take_prefix, drop_prefix, take-append-drop,
}
use fuck.Crypto.Xor.{
  xor, all_bytes, length-xor, all_bytes-xor, xor_twice, all_bytes-append, all_bytes-take,
  all_bytes-drop,
}
use native.Mathlib.Nat.{div-add-mod, zero-div}

-- `cipher.Block`
pub record Block : Type 0 where
  pub block_size : ℕ
  pub encrypt : Bytes → Bytes
  pub decrypt : Bytes → Bytes

-- What its documentation says: it works on blocks of `BlockSize` bytes, and `Decrypt` undoes
-- `Encrypt`. The sizes of the ciphers in use are 8 and 16.
pub record IsBlock (b : Block) : Type 0 where
  pub positive : 0 < b.block_size
  pub small : b.block_size < 256
  pub keeps_size : (x : Bytes) → length x ≡ b.block_size → length (b.encrypt x) ≡ b.block_size
  pub keeps_bytes :
      (x : Bytes) → all_bytes x ≡ true → length x ≡ b.block_size → all_bytes (b.encrypt x) ≡ true
  pub undone :
      (x : Bytes) → all_bytes x ≡ true → length x ≡ b.block_size → b.decrypt (b.encrypt x) ≡ x

module _ (b : Block) where
  -- n blocks, each mixed with the cipher text of the one before
  encrypt_blocks : ℕ → Bytes → Bytes → Bytes
  encrypt_blocks zero iv src = []
  encrypt_blocks (suc n) iv src =
      let c = b.encrypt (xor (take b.block_size src) iv) in
      c ++ encrypt_blocks n c (drop b.block_size src)

  decrypt_blocks : ℕ → Bytes → Bytes → Bytes
  decrypt_blocks zero iv src = []
  decrypt_blocks (suc n) iv src =
      let c = take b.block_size src in
      xor (b.decrypt c) iv ++ decrypt_blocks n c (drop b.block_size src)

  -- `NewCBCEncrypter` wants an iv of one block, and `CryptBlocks` full blocks
  abbrev valid : Bytes → Bytes → Bool
  valid iv src = length iv == b.block_size && length src % b.block_size == 0

  -- `cipher.NewCBCEncrypter(b, iv).CryptBlocks(dst, src)`
  unfoldable pub encrypter : Bytes → Bytes → Option Bytes
  unfolding encrypt_blocks
  encrypter iv src =
      if valid iv src then some (encrypt_blocks (length src / b.block_size) iv src) else none

  -- `cipher.NewCBCDecrypter(b, iv).CryptBlocks(dst, src)`
  unfoldable pub decrypter : Bytes → Bytes → Option Bytes
  unfolding decrypt_blocks
  decrypter iv src =
      if valid iv src then some (decrypt_blocks (length src / b.block_size) iv src) else none

  -- no blocks come of none, if the iv fits
  pub decrypter-nil : (iv : Bytes) → (decrypter iv [] ≡ none) ⊎ (decrypter iv [] ≡ some [])
  unfolding decrypter decrypt_blocks
  decrypter-nil iv = elim (Bool-cases (valid iv [])) [
    | inl fits ↦ inr (rw (fits, zero-div b.block_size) refl)
    | inr wrong ↦ inl (rw wrong refl)
  ]

  module _ (w : IsBlock b) where
    -- the block that is enciphered, and what comes of it
    mixed_size :
        (iv src : Bytes)
        → b.block_size ≤ length src
        → length (xor (take b.block_size src) iv) ≡ b.block_size
    mixed_size iv src h =
        omega (arith, length-xor (take b.block_size src) iv, length-take b.block_size src)

    mixed_bytes :
        (iv src : Bytes) → all_bytes src ≡ true → all_bytes (xor (take b.block_size src) iv) ≡ true
    mixed_bytes iv src h =
        all_bytes-xor (take b.block_size src) iv (all_bytes-take b.block_size src h)

    enough : (n : ℕ) (src : Bytes) → length src ≡ suc n * b.block_size → b.block_size ≤ length src
    enough n src h = omega arith

    rest_size :
        (n : ℕ) (src : Bytes)
        → length src ≡ suc n * b.block_size
        → length (drop b.block_size src) ≡ n * b.block_size
    rest_size n src h = omega (arith, length-drop b.block_size src)

    length-encrypt_blocks :
        (n : ℕ) (iv src : Bytes)
        → length src ≡ n * b.block_size
        → length (encrypt_blocks n iv src) ≡ n * b.block_size
    unfolding encrypt_blocks
    length-encrypt_blocks zero iv src h = omega arith
    length-encrypt_blocks (suc n) iv src h =
        let x = xor (take b.block_size src) iv in
        let rest = drop b.block_size src in
        let size = w.keeps_size x (mixed_size iv src (enough n src h)) in
        length-append (b.encrypt x) (encrypt_blocks n (b.encrypt x) rest)
        ∙ omega (arith, size, length-encrypt_blocks n (b.encrypt x) rest (rest_size n src h))

    all_bytes-encrypt_blocks :
        (n : ℕ) (iv src : Bytes)
        → all_bytes src ≡ true
        → length src ≡ n * b.block_size
        → all_bytes (encrypt_blocks n iv src) ≡ true
    unfolding encrypt_blocks
    all_bytes-encrypt_blocks zero iv src h l = refl
    all_bytes-encrypt_blocks (suc n) iv src h l =
        let x = xor (take b.block_size src) iv in
        let rest = drop b.block_size src in
        let first = w.keeps_bytes x (mixed_bytes iv src h) (mixed_size iv src (enough n src l)) in
        let others =
          all_bytes-encrypt_blocks n (b.encrypt x) rest (all_bytes-drop b.block_size src h)
            (rest_size n src l) in
        all_bytes-append (b.encrypt x) (encrypt_blocks n (b.encrypt x) rest)
        ∙ rw (first, others) refl

    blocks_undone :
        (n : ℕ) (iv src : Bytes)
        → all_bytes src ≡ true
        → length src ≡ n * b.block_size
        → decrypt_blocks n iv (encrypt_blocks n iv src) ≡ src
    unfolding encrypt_blocks decrypt_blocks
    blocks_undone zero iv [] h l = refl
    blocks_undone zero iv (x ∷ src) h l = absurd (omega arith)
    blocks_undone (suc n) iv src h l =
        let first = take b.block_size src in
        let x = xor first iv in
        let c = b.encrypt x in
        let rest = drop b.block_size src in
        let more = encrypt_blocks n c rest in
        let x_size = mixed_size iv src (enough n src l) in
        let c_size : b.block_size ≡ length c = sym (w.keeps_size x x_size) in
        let head : take b.block_size (c ++ more) ≡ c =
          ap (λ k. take k (c ++ more)) c_size ∙ take_prefix c more in
        let tail : drop b.block_size (c ++ more) ≡ more =
          ap (λ k. drop k (c ++ more)) c_size ∙ drop_prefix c more in
        rw
          (
            head,
            tail,
            w.undone x (mixed_bytes iv src h) x_size,
            xor_twice first iv (all_bytes-take b.block_size src h),
            blocks_undone n c rest (all_bytes-drop b.block_size src h) (rest_size n src l),
          )
          (take-append-drop b.block_size src)

    -- what a check of the length says
    block_count :
        (src : Bytes)
        → length src % b.block_size ≡ 0
        → length src ≡ length src / b.block_size * b.block_size
    block_count src h = omega (arith, div-add-mod (length src) b.block_size)

    -- full blocks of bytes are enciphered, to as many full blocks of bytes, and back
    pub encrypter-undone :
        (iv src : Bytes)
        → all_bytes src ≡ true
        → length iv ≡ b.block_size
        → length src % b.block_size ≡ 0
        → (c : Bytes) × (encrypter iv src ≡ some c)
          × (length c ≡ length src)
          × (all_bytes c ≡ true)
          × (decrypter iv c ≡ some src)
    unfolding encrypter decrypter
    encrypter-undone iv src h li ls =
        let n = length src / b.block_size in
        let l = block_count src ls in
        let c = encrypt_blocks n iv src in
        let lc : length c ≡ length src = length-encrypt_blocks n iv src l ∙ sym l in
        let iv_fits = (==_iff (length iv) b.block_size).1 li in
        let full = (==_iff (length src % b.block_size) 0).1 ls in
        (
          c,
          rw (iv_fits, full) refl,
          lc,
          all_bytes-encrypt_blocks n iv src h l,
          rw (lc, iv_fits, full) (ap some (blocks_undone n iv src h l)),
        )
