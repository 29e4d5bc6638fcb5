-- ===== src/Crypto/Padding.antt =====
-- `pkcs7Padding` of crypto/aes.go and `pkcs5Padding` of safe/encrypt.go, which are the same, and the
-- removal of a padding.
use fuck.Base.{
  ℕ, zero, suc, ◌+◌, ◌-◌, ◌*◌, ◌/◌, ◌%◌, ◌<◌, ◌≤◌, ◌≡◌, refl, ap, ◌∙◌, true, false, [], ◌∷◌, ◌++◌,
  Option, none, some, Bytes, length, take, replicate, ltb, le→ltb, get_elem?, arith, if◌then◌else◌,
  length-append, length-replicate, take_prefix,
}
use fuck.Crypto.Xor.{all_bytes, all_bytes-append, all_bytes-replicate}
use native.Mathlib.Nat.{div-add-mod, mod-lt, mul-mod_right}

-- the number of bytes to add: from 1 to the size of a block
abbrev pub padding : Bytes → ℕ → ℕ
padding text block_size = block_size - length text % block_size

-- `append(data, bytes.Repeat([]byte{byte(padding)}, padding)...)`
unfoldable pub pad : Bytes → ℕ → Bytes
pad text block_size = text ++ replicate (padding text block_size) (padding text block_size % 256)

-- `data[:len(data)-n]`; `none` is a panic
pub cut_tail : Bytes → ℕ → Option Bytes
cut_tail text n = if ltb (length text) n then none else some (take (length text - n) text)

get_elem?-append : (xs ys : Bytes) (k : ℕ) → get_elem? (xs ++ ys) (length xs + k) ≡ get_elem? ys k
get_elem?-append [] ys k = let e : 0 + k ≡ k = omega arith in rw e
get_elem?-append (x ∷ xs) ys k =
    let e : suc (length xs) + k ≡ suc (length xs + k) = omega arith in
    rw e (get_elem?-append xs ys k)

get_elem?-replicate : (n k z : ℕ) → k < n → get_elem? (replicate n z) k ≡ some z
get_elem?-replicate zero k z h = absurd (omega arith)
get_elem?-replicate (suc n) zero z h = refl
get_elem?-replicate (suc n) (suc k) z h = get_elem?-replicate n k z (omega arith)

mul_add : (a q : ℕ) → a * (q + 1) ≡ a * q + a
mul_add a q = omega arith

module _ (text : Bytes) (block_size : ℕ) (positive : 0 < block_size) where
  pub padding_positive : 0 < padding text block_size
  padding_positive = omega (arith, mod-lt (length text) positive)

  pub padding_small : padding text block_size ≤ block_size
  padding_small = omega arith

  length-pad : length (pad text block_size) ≡ length text + padding text block_size
  unfolding pad
  length-pad =
      let n = padding text block_size in
      length-append text (replicate n (n % 256))
      ∙ ap (λ k. length text + k) (length-replicate n (n % 256))

  -- the padded text has full blocks
  pub pad_full : length (pad text block_size) % block_size ≡ 0
  pad_full =
      let q = length text / block_size in
      let whole : length (pad text block_size) ≡ block_size * (q + 1) = omega (
        arith,
        length-pad,
        div-add-mod (length text) block_size,
        mod-lt (length text) positive,
        mul_add block_size q,
      ) in
      rw (whole, mul-mod_right block_size (q + 1)) refl

  pub all_bytes-pad : all_bytes text ≡ true → all_bytes (pad text block_size) ≡ true
  unfolding pad
  all_bytes-pad h =
      let n = padding text block_size in
      all_bytes-append text (replicate n (n % 256))
      ∙ rw (h, all_bytes-replicate n (n % 256) (omega arith)) refl

  -- the padding can be cut off again
  pub cut_tail-pad : cut_tail (pad text block_size) (padding text block_size) ≡ some text
  unfolding cut_tail pad
  cut_tail-pad =
      let n = padding text block_size in
      let filler = replicate n (n % 256) in
      let fits : ltb (length (text ++ filler)) n ≡ false =
        le→ltb n (length (text ++ filler)) (omega (arith, length-pad)) in
      let left : length (text ++ filler) - n ≡ length text = omega (arith, length-pad) in
      rw (fits, left, take_prefix text filler) refl

  -- and its last byte is its length
  pub last_byte :
      block_size < 256
      → get_elem? (pad text block_size) (length (pad text block_size) - 1)
        ≡ some (padding text block_size)
  unfolding pad
  last_byte small =
      let n = padding text block_size in
      let filler = replicate n (n % 256) in
      let byte : n % 256 ≡ n = omega arith in
      let at : length (text ++ filler) - 1 ≡ length text + (n - 1) =
        omega (arith, length-pad, padding_positive) in
      rw
        (
          at,
          get_elem?-append text filler (n - 1),
          get_elem?-replicate n (n - 1) (n % 256) (omega (arith, padding_positive)),
        )
        (ap some byte)
