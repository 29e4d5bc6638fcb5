-- ===== src/Crypto/Xor.antt =====
-- Exclusive or of bytes, and of byte slices.
use fuck.Base.{
  ℕ, zero, suc, ◌+◌, ◌*◌, ◌/◌, ◌%◌, ◌<◌, ◌≡◌, refl, ap, ap₂, Bool, true, ◌&&◌, [], ◌∷◌, ◌++◌, Bytes,
  length, take, drop, replicate, ltb, ltb→lt, arith,
}

-- 2 ^ n
abbrev bound : ℕ → ℕ
bound zero = 1
bound (suc n) = 2 * bound n

-- the lowest n digits
xor_bits : ℕ → ℕ → ℕ → ℕ
xor_bits zero a b = 0
xor_bits (suc n) a b = 2 * xor_bits n (a / 2) (b / 2) + (a + b) % 2

unfoldable pub xor_byte : ℕ → ℕ → ℕ
unfolding xor_bits
xor_byte a b = xor_bits 8 a b

-- `dst[i] ^= src[i]` for every index of `src`
unfoldable pub xor : Bytes → Bytes → Bytes
unfolding xor_byte
xor [] src = []
xor (a ∷ dst) [] = a ∷ dst
xor (a ∷ dst) (b ∷ src) = xor_byte a b ∷ xor dst src

abbrev pub all_bytes : Bytes → Bool
all_bytes [] = true
all_bytes (x ∷ xs) = ltb x 256 && all_bytes xs

xor_bits_lt : (n a b : ℕ) → xor_bits n a b < bound n
unfolding xor_bits
xor_bits_lt zero a b = omega arith
xor_bits_lt (suc n) a b = omega (arith, xor_bits_lt n (a / 2) (b / 2))

xor_bits_twice : (n a b : ℕ) → a < bound n → xor_bits n (xor_bits n a b) b ≡ a
unfolding xor_bits
xor_bits_twice zero a b h = omega arith
xor_bits_twice (suc n) a b h =
    let r = xor_bits n (a / 2) (b / 2) in
    let half : (2 * r + (a + b) % 2) / 2 ≡ r = omega arith in
    rw half (omega (arith, xor_bits_twice n (a / 2) (b / 2) (omega arith)))

pub length-xor : (dst src : Bytes) → length (xor dst src) ≡ length dst
unfolding xor xor_byte
length-xor [] src = refl
length-xor (a ∷ dst) [] = refl
length-xor (a ∷ dst) (b ∷ src) = ap suc (length-xor dst src)

pub all_bytes-xor : (dst src : Bytes) → all_bytes dst ≡ true → all_bytes (xor dst src) ≡ true
unfolding xor xor_byte
all_bytes-xor [] src h = refl
all_bytes-xor (a ∷ dst) [] h = h
all_bytes-xor (a ∷ dst) (b ∷ src) h = ground (arith, xor_bits_lt 8 a b, all_bytes-xor dst src)

pub xor_twice : (dst src : Bytes) → all_bytes dst ≡ true → xor (xor dst src) src ≡ dst
unfolding xor xor_byte
xor_twice [] src h = refl
xor_twice (a ∷ dst) [] h = refl
xor_twice (a ∷ dst) (b ∷ src) h =
    ap₂ ◌∷◌ (xor_bits_twice 8 a b (ltb→lt a 256 (ground arith))) (xor_twice dst src (ground arith))

pub all_bytes-append : (xs ys : Bytes) → all_bytes (xs ++ ys) ≡ (all_bytes xs && all_bytes ys)
all_bytes-append [] ys = refl
all_bytes-append (x ∷ xs) ys = ground (arith, all_bytes-append xs ys)

pub all_bytes-take : (n : ℕ) (xs : Bytes) → all_bytes xs ≡ true → all_bytes (take n xs) ≡ true
all_bytes-take zero xs h = refl
all_bytes-take (suc n) [] h = refl
all_bytes-take (suc n) (x ∷ xs) h = ground (arith, all_bytes-take n xs)

pub all_bytes-drop : (n : ℕ) (xs : Bytes) → all_bytes xs ≡ true → all_bytes (drop n xs) ≡ true
all_bytes-drop zero xs h = h
all_bytes-drop (suc n) [] h = refl
all_bytes-drop (suc n) (x ∷ xs) h = all_bytes-drop n xs (ground arith)

pub all_bytes-replicate : (n x : ℕ) → x < 256 → all_bytes (replicate n x) ≡ true
all_bytes-replicate zero x h = refl
all_bytes-replicate (suc n) x h = ground (arith, all_bytes-replicate n x h)
