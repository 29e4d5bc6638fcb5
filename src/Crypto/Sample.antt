-- ===== src/Crypto/Sample.antt =====
-- A block cipher for the tests: it adds one to each byte of a block.
use fuck.Base.{ℕ, suc, ◌+◌, ◌%◌, ◌≡◌, refl, ap, ap₂, true, [], ◌∷◌, Bytes, length, arith}
use fuck.Crypto.Cbc.{Block, IsBlock}
use fuck.Crypto.Xor.{all_bytes}

abbrev pub shift : ℕ → Bytes → Bytes
shift n [] = []
shift n (x ∷ xs) = (x + n) % 256 ∷ shift n xs

abbrev pub shift_block : ℕ → Block
shift_block size = record { block_size = size; encrypt = shift 1; decrypt = shift 255 }

length-shift : (n : ℕ) (xs : Bytes) → length (shift n xs) ≡ length xs
length-shift n [] = refl
length-shift n (x ∷ xs) = ap suc (length-shift n xs)

all_bytes-shift : (n : ℕ) (xs : Bytes) → all_bytes (shift n xs) ≡ true
all_bytes-shift n [] = refl
all_bytes-shift n (x ∷ xs) = ground (arith, all_bytes-shift n xs)

shift-shift : (xs : Bytes) → all_bytes xs ≡ true → shift 255 (shift 1 xs) ≡ xs
shift-shift [] h = refl
shift-shift (x ∷ xs) h =
    let byte : ((x + 1) % 256 + 255) % 256 ≡ x = ground arith in
    ap₂ ◌∷◌ byte (shift-shift xs (ground arith))

pub shift_block-IsBlock : IsBlock (shift_block 8)
shift_block-IsBlock = record {
  positive = omega arith;
  small = omega arith;
  keeps_size = λ x h. let l = length-shift 1 x in omega (arith, l, h);
  keeps_bytes = λ x t h. all_bytes-shift 1 x;
  undone = λ x t h. shift-shift x t;
}
