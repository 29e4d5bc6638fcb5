-- ===== src/Capacity/Parse.antt =====
-- capacity/format.go: `leadingInt`, `leadingFraction` and `ParseCapacities`. A text is its bytes.
pub mod Digits
pub mod Total
pub mod Terms
pub mod RoundTrip
pub mod Scale
pub mod Modulo
use fuck.Base.{
  same, ℕ, zero, suc, ◌+◌, ◌-◌, ◌*◌, ◌/◌, ◌%◌, ◌^◌, Bool, true, false, not, ◌&&◌, ◌||◌, List, [],
  ◌∷◌, ◌++◌, Option, none, some, Bytes, codes, length, ltb, leb, ◌==◌, if◌then◌else◌,
}
use fuck.Base.Int.{ℤ, pos, negsuc}
use fuck.Base.Words.{max_int64, is_neg_int64, negated}

-- the errors, each with the text that it quotes
pub data Error : Type 0 where
  invalid_capacity : Bytes → Error
  bad_int : Bytes → Error
  missing_unit : Bytes → Error
  unknown_unit : Bytes → Bytes → Error
  overflow : Bytes → Error

-- `running` is a loop that is out of rounds.
pub data Result {ℓ} (A : Type ℓ) : Type ℓ where
  ok : A → Result A
  err : Error → Result A
  running : Result A

infixl 5 ◌>>=◌
abbrev pub ◌>>=◌ {ℓ κ} : {A : Type ℓ} {B : Type κ} → Result A → (A → Result B) → Result B
ok a >>= f = f a
err e >>= f = err e
running >>= f = running

abbrev pub is_digit : ℕ → Bool
is_digit c = leb b'0' c && leb c b'9'

-- `x*10 + int64(c) - '0'`
abbrev pub next_int : ℕ → ℕ → ℕ
next_int x c = (x * 10 + c - b'0') % 2 ^ 64

unfoldable pub leading_int : ℕ → Bytes → Option (ℕ × Bytes)
leading_int x [] = some (x, [])
leading_int x (c ∷ s) =
    let y = next_int x c in
    if not (is_digit c)
    then some (x, c ∷ s)
    else if ltb (max_int64 / 10) x
    then none
    else if is_neg_int64 y
    then none
    else leading_int y s

-- `x`, `scale` (a power of ten, exact as a float64), and what is left
pub record Fraction : Type 0 where
  pub x : ℕ
  pub scale : ℕ
  pub rem : Bytes

-- once `overflow` is set, the digits are only skipped
leading_fraction : ℕ → ℕ → Bool → Bytes → Fraction
leading_fraction x scale over [] = record { x = x; scale = scale; rem = [] }
leading_fraction x scale over (c ∷ s) =
    let y = next_int x c in
    let full = over || ltb (max_int64 / 10) x || is_neg_int64 y in
    let rest =
      leading_fraction (if full then x else y) (if full then scale else scale * 10) full s in
    if not (is_digit c) then record { x = x; scale = scale; rem = c ∷ s } else rest

-- `(\.[0-9]*)?`, with the flag `post`
fraction : Bytes → Fraction × Bool
unfolding leading_fraction
fraction [] = (record { x = 0; scale = 1; rem = [] }, false)
fraction (c ∷ s) =
    let f = leading_fraction 0 1 false s in
    if c == b'.'
    then (f, not (length f.rem == length s))
    else (record { x = 0; scale = 1; rem = c ∷ s }, false)

-- the unit, up to the next `.` or digit, and what is left
pub span_unit : Bytes → Bytes × Bytes
span_unit [] = ([], [])
span_unit (c ∷ s) =
    let (u, rest) = span_unit s in if c == b'.' || is_digit c then ([], c ∷ s) else (c ∷ u, rest)

-- `strings.ToLower` as far as a key of `unitMap` can tell: ASCII letters, and the Kelvin sign
-- U+212A (bytes e2 84 aa), whose lower case is `k`. Other runes beyond ASCII have no ASCII lower
-- case that stands in a key.
pub to_lower : Bytes → Bytes
to_lower (a ∷ b ∷ c ∷ s) =
    let kelvin = to_lower s in
    let plain = to_lower (b ∷ c ∷ s) in
    if a == 0xe2 && b == 0x84 && c == 0xaa
    then b'k' ∷ kelvin
    else (if leb b'A' a && leb a b'Z' then a + 32 else a) ∷ plain
to_lower (a ∷ s) = (if leb b'A' a && leb a b'Z' then a + 32 else a) ∷ to_lower s
to_lower [] = []

abbrev unit_map : List (Bytes × ℕ)
unit_map =
    (codes "b", 1)
    ∷ (codes "kb", 2 ^ 10)
    ∷ (codes "mb", 2 ^ 20)
    ∷ (codes "gb", 2 ^ 30)
    ∷ (codes "tb", 2 ^ 40)
    ∷ (codes "k", 2 ^ 10)
    ∷ (codes "m", 2 ^ 20)
    ∷ (codes "g", 2 ^ 30)
    ∷ (codes "t", 2 ^ 40)
    ∷ []

find_unit : Bytes → List (Bytes × ℕ) → Option ℕ
find_unit u [] = none
find_unit u ((name, size) ∷ units) = if same name u then some size else find_unit u units

-- `unitMap[strings.ToLower(u)]`
pub unit_size : Bytes → Option ℕ
unfolding find_unit to_lower
unit_size u = find_unit (to_lower u) unit_map

-- `int64(float64(f) * (float64(unit) / scale))`, as the bit pattern of an int64: the arithmetic of
-- floats is a parameter.
module _ (scaled : ℕ → ℕ → ℕ → ℕ) where
  -- the value of a term from its parts
  term_value : Bytes → ℕ → Fraction → ℕ → Result ℕ
  term_value orig v f unit =
      let whole = v * unit in
      let total = (whole + scaled f.x f.scale unit) % 2 ^ 64 in
      if ltb (max_int64 / unit) v
      then err (overflow orig)
      else if ltb 0 f.x
      then (if is_neg_int64 total then err (invalid_capacity orig) else ok total)
      else ok whole

  -- the look-up in `unitMap` has come back
  term_sized : Bytes → ℕ → Fraction → Bytes → Bytes → Option ℕ → Result (ℕ × Bytes)
  unfolding term_value
  term_sized orig v f u rest none = err (unknown_unit u orig)
  term_sized orig v f u rest (some unit) = term_value orig v f unit >>= λ n. ok (n, rest)

  term_unit : Bytes → ℕ → Fraction → Bytes × Bytes → Result (ℕ × Bytes)
  unfolding term_sized
  term_unit orig v f ([], rest) = err (missing_unit orig)
  term_unit orig v f (c ∷ u, rest) = term_sized orig v f (c ∷ u) rest (unit_size (c ∷ u))

  -- `leadingInt` has come back from the text `s`
  after_int : Bytes → Bytes → Option (ℕ × Bytes) → Result (ℕ × Bytes)
  unfolding fraction term_unit span_unit unit_size
  after_int orig s none = err (bad_int orig)
  after_int orig s (some (v, t)) =
      let pre = not (length s == length t) in
      let (f, post) = fraction t in
      if not pre && not post
      then err (invalid_capacity orig)
      else term_unit orig v f (span_unit f.rem)

  -- the body of the loop on a text that is not empty: the value of one term, and what is left
  unfoldable pub parse_term : Bytes → Bytes → Result (ℕ × Bytes)
  unfolding after_int
  parse_term orig [] = err (invalid_capacity orig)
  parse_term orig (c ∷ s) =
      if not (c == b'.' || is_digit c)
      then err (invalid_capacity orig)
      else after_int orig (c ∷ s) (leading_int 0 (c ∷ s))

  -- `d += v`, then the test for a sum that wrapped around
  add_term : Bytes → ℕ → ℕ → Result ℕ
  add_term orig d v =
      let sum = (d + v) % 2 ^ 64 in if is_neg_int64 sum then err (invalid_capacity orig) else ok sum

  -- `for s != ""`, in at most `fuel` rounds
  unfoldable pub parse_terms : ℕ → Bytes → Bytes → ℕ → Result ℕ
  unfolding add_term
  parse_terms fuel orig [] d = ok d
  parse_terms zero orig (c ∷ s) d = running
  parse_terms (suc fuel) orig (c ∷ s) d = do
    (v, rest) ← parse_term orig (c ∷ s)
    sum ← add_term orig d v
    parse_terms fuel orig rest sum

  -- the sign, and the text behind it
  sign : Bytes → Bool × Bytes
  sign [] = (false, [])
  sign (c ∷ s) = if c == b'-' || c == b'+' then (c == b'-', s) else (false, c ∷ s)

  parse_unsigned : Bytes → Bool → Bytes → Result ℤ
  unfolding parse_terms
  parse_unsigned orig neg [] = err (invalid_capacity orig)
  parse_unsigned orig neg (c ∷ s) =
      if same (codes "0") (c ∷ s)
      then ok (pos 0)
      else parse_terms (length (c ∷ s)) orig (c ∷ s) 0 >>= λ d.
          ok (if neg then negated d else pos d)

  unfoldable pub parse_capacities : Bytes → Result ℤ
  unfolding sign parse_unsigned
  parse_capacities s = let (neg, rest) = sign s in parse_unsigned s neg rest
