-- ===== src/Base/Decimal.antt =====
-- `strconv.ParseInt` in base 10, and that it reads back what `strconv.FormatInt` prints.
use Prim.Native.Nat.{ℕ, zero, suc, ◌+◌, ◌-◌, ◌*◌, ◌/◌, ◌%◌, ◌≤◌, ◌<◌}
use mathlib.Core.Bool.{Bool, true, false, ◌&&◌}
use mathlib.Core.List.{[], ◌∷◌}
use mathlib.Core.Logic.{inl, inr}
use mathlib.Core.Option.{Option, none, some}
use mathlib.Core.Path.{◌≡◌, refl, sym, ap, ◌∙◌}
use native.Mathlib.Omega.{arith}
use fuck.Base.Int.{ℤ, pos, negsuc}
use fuck.Base.Lists.{Bytes}
use fuck.Base.Tests.{ltb, leb, ◌==◌, if◌then◌else◌, Bool-cases}
use fuck.Base.Text.{digits, format_uint, itoa}

-- 2 ^ 63
abbrev pub bound : ℕ
bound = 9223372036854775808

-- digits behind the value `x`; none for another byte
abbrev pub digits_value : ℕ → Bytes → Option ℕ
digits_value x [] = some x
digits_value x (c ∷ s) =
    let rest = digits_value (x * 10 + (c - b'0')) s in
    if leb b'0' c && leb c b'9' then rest else none

abbrev pub read_digits : Bytes → Option ℕ
read_digits [] = none
read_digits (c ∷ s) = digits_value 0 (c ∷ s)

abbrev pub positive : Option ℕ → Option ℤ
positive none = none
positive (some n) = if ltb n bound then some (pos n) else none

abbrev pub negative : Option ℕ → Option ℤ
negative none = none
negative (some zero) = some (pos 0)
negative (some (suc n)) = if ltb n bound then some (negsuc n) else none

-- `strconv.ParseInt(s, 10, 64)`; none for an error
unfoldable pub read_int : Bytes → Option ℤ
read_int [] = none
read_int (c ∷ s) =
    if c == b'-'
    then negative (read_digits s)
    else if c == b'+'
    then positive (read_digits s)
    else positive (read_digits (c ∷ s))

abbrev pub is_int64 : ℤ → Bool
is_int64 (pos n) = ltb n bound
is_int64 (negsuc n) = ltb n bound

last_digit :
    (x d : ℕ) (rest : Bytes)
    → d < 10
    → digits_value x ((d + b'0') ∷ rest) ≡ digits_value (x * 10 + (d + b'0' - b'0')) rest
last_digit x d rest h = ground (arith, h)

digits_value-digits :
    (fuel v : ℕ) (rest : Bytes)
    → v ≤ fuel
    → digits_value 0 (digits fuel v rest) ≡ digits_value v rest
digits_value-digits zero v rest h = let z : v ≡ 0 = omega arith in rw z refl
digits_value-digits (suc fuel) v rest h = elim (Bool-cases (ltb 0 v)) [
  | inl go ↦
      let small : v / 10 ≤ fuel = ground arith in
      let e : v / 10 * 10 + (v % 10 + b'0' - b'0') ≡ v = omega arith in
      rw (go, digits)
        (digits_value-digits fuel (v / 10) ((v % 10 + b'0') ∷ rest) small
          ∙ last_digit (v / 10) (v % 10) rest (omega arith)
          ∙ ap (λ x. digits_value x rest) e)
  | inr stop ↦
      let z : v ≡ 0 = ground arith in rw (stop, digits) (ap (λ x. digits_value x rest) (sym z))
]

digits_zero : (fuel v : ℕ) (rest : Bytes) → v ≡ 0 → digits fuel v rest ≡ rest
digits_zero zero v rest z = refl
digits_zero (suc fuel) v rest z =
    let stop : ltb 0 v ≡ false = ground (arith, z) in rw (digits, stop) refl

-- the digits of a number that is not 0 begin with a digit
first_digit :
    (fuel v : ℕ) (rest : Bytes)
    → v ≤ fuel
    → 0 < v
    → (c : ℕ) × (s : Bytes) × (digits fuel v rest ≡ c ∷ s) × (b'0' ≤ c) × (c ≤ b'9')
first_digit zero v rest h p = absurd (omega arith)
first_digit (suc fuel) v rest h p =
    let go : ltb 0 v ≡ true = ground (arith, p) in
    rw (digits, go)
      (elim (Bool-cases (ltb 0 (v / 10))) [
        | inl more ↦
            first_digit fuel (v / 10) ((v % 10 + b'0') ∷ rest) (omega arith) (ground (arith, more))
        | inr stop ↦
            let z : v / 10 ≡ 0 = ground (arith, stop) in
            (
              v % 10 + b'0',
              rest,
              digits_zero fuel (v / 10) ((v % 10 + b'0') ∷ rest) z,
              omega arith,
              omega arith,
            )
      ])

-- a printed number begins with a digit, and spells that number
format_uint-spells :
    (n : ℕ)
    → (c : ℕ) × (s : Bytes) × (format_uint n ≡ c ∷ s)
      × (b'0' ≤ c)
      × (c ≤ b'9')
      × (digits_value 0 (c ∷ s) ≡ some n)
format_uint-spells n = elim (Bool-cases (n == 0)) [
  | inl zero_ ↦
      let z : n ≡ 0 = ground (arith, zero_) in
      (b'0', [], rw zero_ refl, omega arith, omega arith, ap some (sym z))
  | inr other ↦
      let (c, s, e, low, high) = first_digit n n [] (omega arith) (ground (arith, other)) in
      (
        c,
        s,
        rw other e,
        low,
        high,
        ap (digits_value 0) (sym e) ∙ digits_value-digits n n [] (omega arith),
      )
]

-- `ParseInt` of what `FormatInt` prints is the number, if it is an int64.
pub read_int-itoa : (z : ℤ) → is_int64 z ≡ true → read_int (itoa z) ≡ some z
unfolding read_int
read_int-itoa (pos n) h =
    let (c, s, e, low, high, spells) = format_uint-spells n in
    let plain : (c == b'-') ≡ false = ground (arith, low) in
    let plain' : (c == b'+') ≡ false = ground (arith, low) in
    ap read_int e ∙ rw (read_int, plain, plain') (ap positive spells ∙ (rw h refl))
read_int-itoa (negsuc n) h =
    let (c, s, e, low, high, spells) = format_uint-spells (suc n) in
    ap (λ t. negative (read_digits t)) e ∙ ap negative spells ∙ rw h refl
