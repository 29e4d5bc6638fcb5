-- ===== src/Safe/Sample.antt =====
-- Stand-ins for the libraries and the random source of `safe`, for the tests.
use fuck.Base.{
  ℕ, ◌+◌, ◌-◌, ◌*◌, ◌/◌, ◌%◌, ◌≤◌, ◌≡◌, refl, sym, subst, ◌∙◌, ap, inl, inr, true, false, [], ◌∷◌,
  Option, none, some, Bytes, length, replicate, if◌then◌else◌, arith, Bool-cases, length-replicate,
}
use fuck.Base.Equality.{nat_eq, member}
use fuck.Crypto.Cbc.{Block, IsBlock}
use fuck.Crypto.Sample.{shift_block, shift_block-IsBlock}
use fuck.Crypto.Xor.{all_bytes, all_bytes-replicate}
use fuck.Safe.Encrypt.Laws.{takes, IsLibraries, IsRandom}
use fuck.Safe.Options.{Libraries}

-- two letters for each byte
abbrev pub letters : Bytes → Bytes
letters [] = []
letters (x ∷ xs) = (x / 16 + 65) ∷ (x % 16 + 65) ∷ letters xs

abbrev pub un_letters : Bytes → Option Bytes
un_letters [] = some []
un_letters (a ∷ []) = none
un_letters (a ∷ b ∷ s) = elim (un_letters s) [
  | none ↦ none
  | some xs ↦ some (((a - 65) * 16 + (b - 65)) ∷ xs)
]

un_letters-letters : (xs : Bytes) → all_bytes xs ≡ true → un_letters (letters xs) ≡ some xs
un_letters-letters [] h = refl
un_letters-letters (x ∷ xs) h =
    let back : (x / 16 + 65 - 65) * 16 + (x % 16 + 65 - 65) ≡ x = omega arith in
    rw (un_letters-letters xs (ground arith), back) refl

length-letters : (xs : Bytes) → length xs ≤ length (letters xs)
length-letters [] = omega arith
length-letters (x ∷ xs) = omega (arith, length-letters xs)

no_dollar : (xs : Bytes) → member b'$' (letters xs) ≡ false
no_dollar [] = refl
no_dollar (x ∷ xs) = ground (arith, no_dollar xs)

abbrev pub sample_cipher : ℕ → Bytes → Option Block
sample_cipher algo key = if takes algo (length key) then some (shift_block 8) else none

abbrev pub sample : Libraries
sample = record {
  cipher = sample_cipher;
  sum256 = λ key. replicate 32 (length key % 256);
  encode = letters;
  decode = un_letters;
}

sample_accepts :
    (algo : ℕ) (key : Bytes)
    → takes algo (length key) ≡ true
    → (b : Block) × (sample_cipher algo key ≡ some b)
sample_accepts algo key h = (shift_block 8, rw h refl)

sample_rejects :
    (algo : ℕ) (key : Bytes) → takes algo (length key) ≡ false → sample_cipher algo key ≡ none
sample_rejects algo key h = rw h refl

abbrev from_some : Block → Option Block → Block
from_some d none = d
from_some d (some b) = b

sample_block : (algo : ℕ) (key : Bytes) (b : Block) → sample_cipher algo key ≡ some b → IsBlock b
sample_block algo key b h = elim (Bool-cases (takes algo (length key))) [
  | inl fits ↦
      let found = sym (ap (λ f. if f then some (shift_block 8) else none) fits) ∙ h in
      subst IsBlock (ap (from_some b) found) shift_block-IsBlock
  | inr out ↦ absurd (ground (arith, h, sample_rejects algo key out))
]

pub sample-IsLibraries : IsLibraries sample
sample-IsLibraries = record {
  accepts = sample_accepts;
  rejects = sample_rejects;
  block = sample_block;
  hash_size = λ key. length-replicate 32 (length key % 256);
  decoded = un_letters-letters;
  longer = length-letters;
  alphabet = no_dollar;
}

abbrev pub fives : ℕ → Option Bytes
fives n = some (replicate n 5)

fives-bytes : (n : ℕ) (iv : Bytes) → fives n ≡ some iv → all_bytes iv ≡ true
fives-bytes n iv h =
    subst (λ xs. all_bytes xs ≡ true) (ap (λ o. elim o [ none ↦ [] | some xs ↦ xs ]) h)
      (all_bytes-replicate n 5 (omega arith))

fives-length : (n : ℕ) (iv : Bytes) → fives n ≡ some iv → length iv ≡ n
fives-length n iv h =
    subst (λ xs. length xs ≡ n) (ap (λ o. elim o [ none ↦ [] | some xs ↦ xs ]) h)
      (length-replicate n 5)

pub fives-IsRandom : IsRandom fives
fives-IsRandom = record { fills = fives-length; bytes = fives-bytes }
