-- ===== src/Capacity/Parse/Terms.antt =====
-- One printed term is read back, whatever follows it.
use fuck.Base.{
  ℕ, zero, suc, ◌+◌, ◌-◌, ◌*◌, ◌/◌, ◌%◌, ◌≤◌, ◌<◌, ◌≡◌, refl, ◌∙◌, ◌≢◌, Bool, true, false, not,
  ◌||◌, [], ◌∷◌, ◌++◌, some, Bytes, length, ◌==◌, arith, le→ltb,
}
use native.Mathlib.Nat.{le_trans}
use fuck.Base.Words.{max_int64}
use fuck.Capacity.Parse.{
  ok, is_digit, leading_int, fraction, span_unit, unit_size, term_value, term_sized, term_unit,
  after_int, parse_term,
}
use fuck.Capacity.Parse.Digits.{leading_int-digits}
use fuck.Base.Text.{digits}

-- neither a digit nor a `.`
abbrev is_letter : ℕ → Bool
is_letter c = not (c == b'.' || is_digit c)

abbrev AllLetters : Bytes → Type 0
AllLetters [] = Unit
AllLetters (c ∷ s) = (is_letter c ≡ true) × AllLetters s

-- `unit` is a name for `size`
pub record IsUnit (unit : Bytes) (size : ℕ) : Type 0 where
  pub letters : AllLetters unit
  pub ne_nil : unit ≢ []
  pub size_is : unit_size unit ≡ some size
  pub size_pos : 0 < size
  pub size_fits : 1023 ≤ max_int64 / size

-- nothing follows, or a digit
abbrev pub starts_digit : Bytes → Bool
starts_digit [] = true
starts_digit (c ∷ s) = is_digit c

pub length-digits : (fuel v : ℕ) (rest : Bytes) → length rest ≤ length (digits fuel v rest)
length-digits zero v rest = omega arith
length-digits (suc fuel) v rest =
    ground (arith, length-digits fuel (v / 10) ((v % 10 + b'0') ∷ rest))

pub digits_head :
    (fuel v : ℕ) (rest : Bytes)
    → v ≤ fuel
    → starts_digit rest ≡ true
    → starts_digit (digits fuel v rest) ≡ true
digits_head zero v rest le h = h
digits_head (suc fuel) v rest le h =
    ground (arith, digits_head fuel (v / 10) ((v % 10 + b'0') ∷ rest))

-- the first step is made
pub digits_pos :
    (v : ℕ) (rest : Bytes)
    → 0 < v
    → digits v v rest ≡ digits (v - 1) (v / 10) ((v % 10 + b'0') ∷ rest)
digits_pos zero rest h = absurd (omega arith)
digits_pos (suc v) rest h = let e : suc v - 1 ≡ v = omega arith in rw e (ground arith)

span_unit-append :
    (unit rest : Bytes)
    → AllLetters unit
    → starts_digit rest ≡ true
    → span_unit (unit ++ rest) ≡ (unit, rest)
unfolding span_unit
span_unit-append [] [] a h = refl
span_unit-append [] (c ∷ rest) a h = ground arith
span_unit-append (c ∷ unit) rest (l, a) h = rw (span_unit-append unit rest a h) (ground arith)

fraction_unit :
    (unit rest : Bytes)
    → AllLetters unit
    → unit ≢ []
    → fraction (unit ++ rest) ≡ (record { x = 0; scale = 1; rem = unit ++ rest }, false)
unfolding fraction
fraction_unit [] rest a h = absurd (h refl)
fraction_unit (c ∷ unit) rest (l, a) h = ground arith

leading_int_unit :
    (unit rest : Bytes) (v : ℕ)
    → AllLetters unit
    → unit ≢ []
    → leading_int v (unit ++ rest) ≡ some (v, unit ++ rest)
unfolding leading_int
leading_int_unit [] rest v a h = absurd (h refl)
leading_int_unit (c ∷ unit) rest v (l, a) h = ground arith

module _ (scaled : ℕ → ℕ → ℕ → ℕ) where
  after_int_unit :
      (orig s unit rest : Bytes) (size v : ℕ)
      → IsUnit unit size
      → v < 1024
      → starts_digit rest ≡ true
      → length s ≢ length (unit ++ rest)
      → after_int scaled orig s (some (v, unit ++ rest)) ≡ ok (v * size, rest)
  unfolding after_int term_unit term_sized term_value
  after_int_unit orig s [] rest size v u h d ne = absurd (u.ne_nil refl)
  after_int_unit orig s (c ∷ unit) rest size v u h d ne =
      let differ : (length s == length ((c ∷ unit) ++ rest)) ≡ false = ground arith in
      rw
        (
          differ,
          fraction_unit (c ∷ unit) rest u.letters u.ne_nil,
          span_unit-append (c ∷ unit) rest u.letters d,
          u.size_is,
        )
        (rw (le→ltb v (max_int64 / size) (le_trans {m = 1023} (omega arith) u.size_fits)))

  parse_term_read :
      (orig s unit rest : Bytes) (size v : ℕ)
      → IsUnit unit size
      → v < 1024
      → starts_digit rest ≡ true
      → starts_digit s ≡ true
      → length (unit ++ rest) < length s
      → leading_int 0 s ≡ some (v, unit ++ rest)
      → parse_term scaled orig s ≡ ok (v * size, rest)
  unfolding parse_term
  parse_term_read orig [] unit rest size v u h d first long read = absurd (omega arith)
  parse_term_read orig (c ∷ s) unit rest size v u h d first long read =
      let starts : (c == b'.' || is_digit c) ≡ true = ground arith in
      rw (starts, read)
        (after_int_unit orig (c ∷ s) unit rest size v u h d (λ e. absurd (omega arith)))

  -- A printed term is parsed as its value, and leaves what follows it.
  pub parse_term-term :
      (orig unit rest : Bytes) (size v : ℕ)
      → IsUnit unit size
      → 0 < v
      → v < 1024
      → starts_digit rest ≡ true
      → parse_term scaled orig (digits v v (unit ++ rest)) ≡ ok (v * size, rest)
  parse_term-term orig unit rest size v u p h d =
      let t = unit ++ rest in
      let digit = v % 10 + b'0' in
      let e = digits_pos v t p in
      parse_term_read orig (digits v v t) unit rest size v u h d
        (rw e (digits_head (v - 1) (v / 10) (digit ∷ t) (omega arith) (ground arith)))
        (rw e (omega (arith, length-digits (v - 1) (v / 10) (digit ∷ t))))
        (leading_int-digits v v t (omega arith) (omega arith)
          ∙ leading_int_unit unit rest v u.letters u.ne_nil)
