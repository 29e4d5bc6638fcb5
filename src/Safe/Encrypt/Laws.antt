-- ===== src/Safe/Encrypt/Laws.antt =====
-- safe/encrypt.go: `Decrypt` undoes `Encrypt`.
use fuck.Base.{
  ℕ, zero, suc, ◌%◌, ◌^◌, ◌<◌, ◌≤◌, ◌≡◌, refl, sym, ap, ◌∙◌, inl, inr, Bool, true, false, ◌&&◌,
  ◌||◌, [], ◌∷◌, ◌++◌, Option, none, some, Bytes, length, take, drop, ltb, leb, ◌==◌, arith,
  Bool-cases, length-append, take_prefix, drop_prefix, le→ltb,
}
use fuck.Base.Equality.{nat_eq, member}
use fuck.Crypto.Cbc.{Block, IsBlock, encrypter-undone}
use fuck.Crypto.Outcome.{ok}
use fuck.Crypto.Padding.{padding, pad, padding_small, pad_full, all_bytes-pad, cut_tail-pad}
use fuck.Crypto.Xor.{all_bytes, length-xor, all_bytes-xor, xor_twice, all_bytes-append}
use fuck.Safe.Encrypt.{
  read_until, read_algo, hex_byte, un_hex, put_uint32, get_uint32, mix, apply_padding, un_padding,
  render, encrypt_with, split_args, decrypt_with,
}
use fuck.Safe.Options.{EncryptOptions, Libraries, algo_string, new_cipher}

-- the keys that the ciphers take: 3DES of 24 bytes, DES of 8, AES of 16, 24 or 32, TEA of 16
abbrev pub takes : ℕ → ℕ → Bool
takes algo n =
    (algo == 0 && n == 24)
    || (algo == 1 && n == 8)
    || (algo == 2 && (n == 16 || n == 24 || n == 32))
    || (algo == 3 && n == 16)

-- what the documentation of the libraries says
pub record IsLibraries (lib : Libraries) : Type 0 where
  pub accepts :
      (algo : ℕ) (key : Bytes)
      → takes algo (length key) ≡ true
      → (b : Block) × (lib.cipher algo key ≡ some b)
  pub rejects :
      (algo : ℕ) (key : Bytes) → takes algo (length key) ≡ false → lib.cipher algo key ≡ none
  pub block : (algo : ℕ) (key : Bytes) (b : Block) → lib.cipher algo key ≡ some b → IsBlock b
  pub hash_size : (key : Bytes) → length (lib.sum256 key) ≡ 32
  pub decoded : (xs : Bytes) → all_bytes xs ≡ true → lib.decode (lib.encode xs) ≡ some xs
  pub longer : (xs : Bytes) → length xs ≤ length (lib.encode xs)
  pub alphabet : (xs : Bytes) → member b'$' (lib.encode xs) ≡ false

-- `rand.Read` fills the slice with bytes, or fails
pub record IsRandom (random : ℕ → Option Bytes) : Type 0 where
  pub fills : (n : ℕ) (iv : Bytes) → random n ≡ some iv → length iv ≡ n
  pub bytes : (n : ℕ) (iv : Bytes) → random n ≡ some iv → all_bytes iv ≡ true

read_until-append :
    (d : ℕ) (xs ys : Bytes) → member d xs ≡ false → read_until d (xs ++ d ∷ ys) ≡ some (xs, ys)
unfolding read_until
read_until-append d [] ys h = ground arith
read_until-append d (x ∷ xs) ys h =
    let other : (x == d) ≡ false = ground arith in
    rw (read_until-append d xs ys (ground arith), other) refl

read_algo-algo_string :
    (algo : ℕ)
    → leb algo 3 ≡ true
    → (read_algo (algo_string algo) ≡ ok algo) × (member b'$' (algo_string algo) ≡ false)
unfolding read_algo hex_byte un_hex
read_algo-algo_string zero h = (refl, refl)
read_algo-algo_string (suc zero) h = (refl, refl)
read_algo-algo_string (suc (suc zero)) h = (refl, refl)
read_algo-algo_string (suc (suc (suc zero))) h = (refl, refl)
read_algo-algo_string (suc (suc (suc (suc n)))) h = absurd (ground arith)

get_uint32-put_uint32 : (n : ℕ) → n < 256 → get_uint32 (put_uint32 (n % 2 ^ 32)) ≡ n
unfolding get_uint32
get_uint32-put_uint32 n h = omega arith

all_bytes-put_uint32 : (n : ℕ) → all_bytes (put_uint32 n) ≡ true
all_bytes-put_uint32 n = ground arith

pub length-mix : (args iv : Bytes) → length (mix args iv) ≡ length args
length-mix args iv = elim (Bool-cases (leb 5 (length iv))) [
  | inl long ↦ rw long (length-xor args iv)
  | inr short ↦ rw short refl
]

all_bytes-mix : (args iv : Bytes) → all_bytes args ≡ true → all_bytes (mix args iv) ≡ true
all_bytes-mix args iv h = elim (Bool-cases (leb 5 (length iv))) [
  | inl long ↦ rw long (all_bytes-xor args iv h)
  | inr short ↦ rw short h
]

mix_twice : (args iv : Bytes) → all_bytes args ≡ true → mix (mix args iv) iv ≡ args
mix_twice args iv h = elim (Bool-cases (leb 5 (length iv))) [
  | inl long ↦ rw long (xor_twice args iv h)
  | inr short ↦ rw short refl
]

split_five : (m iv : Bytes) → length m ≡ 5 → split_args (m ++ iv) ≡ ok (mix m iv, iv)
unfolding split_args
split_five m iv l =
    let head : take 5 (m ++ iv) ≡ m = ap (λ k. take k (m ++ iv)) (sym l) ∙ take_prefix m iv in
    let tail : drop 5 (m ++ iv) ≡ iv = ap (λ k. drop k (m ++ iv)) (sym l) ∙ drop_prefix m iv in
    let long : ltb (length (m ++ iv)) 5 ≡ false =
      le→ltb 5 (length (m ++ iv)) (omega (arith, length-append m iv, l)) in
    rw (head, tail, long) refl

split_args-mix :
    (args iv : Bytes)
    → length args ≡ 5
    → all_bytes args ≡ true
    → split_args (mix args iv ++ iv) ≡ ok (args, iv)
split_args-mix args iv l h =
    split_five (mix args iv) iv (length-mix args iv ∙ l)
    ∙ ap (λ m. ok (m, iv)) (mix_twice args iv h)

module _ (lib : Libraries) (w : IsLibraries lib) where
  module _ (text iv : Bytes) (b : Block) (wb : IsBlock b) (t : all_bytes text ≡ true)
      (ti : all_bytes iv ≡ true) (li : length iv ≡ b.block_size) where
    -- the five bytes in front of the iv
    abbrev pub args : Bytes
    args = 0 ∷ put_uint32 (padding text b.block_size % 2 ^ 32)

    pub args_bytes : all_bytes args ≡ true
    args_bytes = all_bytes-put_uint32 (padding text b.block_size % 2 ^ 32)

    -- what `Encrypt` writes with a cipher and an iv, and that `Decrypt` reads it with the same cipher
    pub with_cipher :
        (random : ℕ → Option Bytes) (key : Bytes) (o : EncryptOptions)
        → leb o.algo 3 ≡ true
        → lib.cipher o.algo key ≡ some b
        → random b.block_size ≡ some iv
        → o.mode ≡ 0
        → o.padding_method ≡ 0
        → (c : Bytes) × (encrypt_with lib random text key o
            ≡ ok (render lib o.algo (mix args iv ++ iv) c))
          × (decrypt_with lib (drop 8 (render lib o.algo (mix args iv ++ iv) c)) key ≡ ok text)
    unfolding encrypt_with decrypt_with new_cipher apply_padding un_padding
    with_cipher random key o known found filled mode method =
        let (c, enc, same_size, bytes, dec) =
          encrypter-undone b wb iv (pad text b.block_size)
            (all_bytes-pad text b.block_size wb.positive t) li
            (pad_full text b.block_size wb.positive) in
        let a = mix args iv ++ iv in
        let name = algo_string o.algo in
        let (algo_read, no_dollar) = read_algo-algo_string o.algo known in
        let a_bytes : all_bytes a ≡ true =
          all_bytes-append (mix args iv) iv ∙ rw (all_bytes-mix args iv args_bytes, ti) refl in
        let n = padding text b.block_size in
        let n_small : n < 256 =
          omega (arith, padding_small text b.block_size wb.positive, wb.small) in
        (
          c,
          rw (known, found, method, filled, mode, enc) refl,
          rw
              (
                read_until-append b'$' name (lib.encode a ++ b'$' ∷ lib.encode c) no_dollar,
                algo_read,
                known,
                found,
                read_until-append b'$' (lib.encode a) (lib.encode c) (w.alphabet a),
                w.decoded a a_bytes,
                split_args-mix args iv refl args_bytes,
                w.decoded c bytes,
                dec,
                get_uint32-put_uint32 n n_small,
                cut_tail-pad text b.block_size wb.positive,
              )
              refl,
        )
