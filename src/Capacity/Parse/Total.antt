-- ===== src/Capacity/Parse/Total.antt =====
-- `ParseCapacities` ends on every text, and what it returns fits an int64.
use fuck.Base.{
  same, ℕ, zero, suc, ◌+◌, ◌-◌, ◌*◌, ◌/◌, ◌%◌, ◌^◌, ◌≤◌, ◌<◌, ◌≡◌, refl, Bool, true, false, not,
  ◌&&◌, ◌||◌, List, [], ◌∷◌, Option, none, some, Bytes, codes, length, ltb, ◌==◌, if◌then◌else◌,
  arith, Bool-cases, inl, inr,
}
use fuck.Base.Int.{ℤ, pos, negsuc}
use fuck.Base.Words.{max_int64, is_neg_int64, negated}
use fuck.Capacity.Parse.{
  Result, ok, err, running, ◌>>=◌, is_digit, leading_int, leading_fraction, Fraction, fraction,
  span_unit, unit_size, term_value, term_sized, term_unit, after_int, add_term, find_unit, unit_map,
  to_lower, parse_term, parse_terms, sign, parse_unsigned, parse_capacities,
}

leading_int_shrinks :
    (s : Bytes) (x v : ℕ) (t : Bytes) → leading_int x s ≡ some (v, t) → length t ≤ length s
unfolding leading_int
leading_int_shrinks [] x v t e = ground arith
leading_int_shrinks (c ∷ s) x v t e =
    ground (arith, leading_int_shrinks s ((x * 10 + c - b'0') % 2 ^ 64) v t)

leading_fraction_shrinks :
    (s : Bytes) (x scale : ℕ) (over : Bool)
    → length (leading_fraction x scale over s).rem ≤ length s
unfolding leading_fraction
leading_fraction_shrinks [] x scale over = omega arith
leading_fraction_shrinks (c ∷ s) x scale over =
    let y = (x * 10 + c - b'0') % 2 ^ 64 in
    let full = over || ltb (max_int64 / 10) x || is_neg_int64 y in
    ground (
      arith,
      leading_fraction_shrinks s (if full then x else y) (if full then scale else scale * 10) full,
    )

fraction_shrinks : (s : Bytes) → length (fraction s).0.rem ≤ length s
unfolding fraction
fraction_shrinks [] = omega arith
fraction_shrinks (c ∷ s) = ground (arith, leading_fraction_shrinks s 0 1 false)

span_unit_splits : (s : Bytes) → length (span_unit s).0 + length (span_unit s).1 ≡ length s
unfolding span_unit
span_unit_splits [] = omega arith
span_unit_splits (c ∷ s) = ground (arith, span_unit_splits s)

abbrev Positive : List (Bytes × ℕ) → Type 0
Positive [] = Unit
Positive ((name, size) ∷ units) = (0 < size) × Positive units

find_unit_pos :
    (u : Bytes) (units : List (Bytes × ℕ)) (n : ℕ)
    → Positive units
    → find_unit u units ≡ some n
    → 0 < n
unfolding find_unit
find_unit_pos u [] n p e = cc
find_unit_pos u ((name, size) ∷ units) n p e = ground (arith, find_unit_pos u units n)

unit_size_pos : (u : Bytes) (n : ℕ) → unit_size u ≡ some n → 0 < n
unfolding unit_size
unit_size_pos u n e = find_unit_pos (to_lower u) unit_map n (omega arith) e

whole_fits : (v unit : ℕ) → 0 < unit → v ≤ max_int64 / unit → v * unit ≤ max_int64
whole_fits v unit h le = grind arith

module _ (scaled : ℕ → ℕ → ℕ → ℕ) where
  -- an error, or a value that fits an int64 and a shorter text
  abbrev Ends : Bytes → Result (ℕ × Bytes) → Type 0
  Ends s (ok (v, rest)) = (v ≤ max_int64) × (length rest < length s)
  Ends s (err e) = Unit
  Ends s running = ⊥

  abbrev Fits : Result ℕ → Type 0
  Fits (ok v) = v ≤ max_int64
  Fits (err e) = Unit
  Fits running = ⊥

  term_value-Fits :
      (orig : Bytes) (v : ℕ) (f : Fraction) (unit : ℕ)
      → 0 < unit
      → Fits (term_value scaled orig v f unit)
  unfolding term_value
  term_value-Fits orig v f unit h = ground (arith, whole_fits v unit h)

  term_sized-Ends :
      (orig s : Bytes) (v : ℕ) (f : Fraction) (u rest : Bytes) (o : Option ℕ)
      → ((n : ℕ) → o ≡ some n → 0 < n)
      → length rest < length s
      → Ends s (term_sized scaled orig v f u rest o)
  unfolding term_sized
  term_sized-Ends orig s v f u rest none positive h = tt
  term_sized-Ends orig s v f u rest (some unit) positive h =
      bound (term_value scaled orig v f unit) (term_value-Fits orig v f unit (positive unit refl))
    where
      bound : (r : Result ℕ) → Fits r → Ends s (r >>= λ n. ok (n, rest))
      bound (ok n) fits = (fits, h)
      bound (err e) fits = tt
      bound running fits = fits

  term_unit-Ends :
      (orig s : Bytes) (v : ℕ) (f : Fraction) (u : Bytes × Bytes)
      → length u.0 + length u.1 ≤ length s
      → Ends s (term_unit scaled orig v f u)
  unfolding term_unit
  term_unit-Ends orig s v f ([], rest) h = tt
  term_unit-Ends orig s v f (c ∷ u, rest) h =
      term_sized-Ends orig s v f (c ∷ u) rest (unit_size (c ∷ u)) (unit_size_pos (c ∷ u))
        (omega arith)

  after_int-Ends :
      (orig s : Bytes) (o : Option (ℕ × Bytes))
      → ((v : ℕ) (t : Bytes) → o ≡ some (v, t) → length t ≤ length s)
      → Ends s (after_int scaled orig s o)
  unfolding after_int
  after_int-Ends orig s none h = tt
  after_int-Ends orig s (some (v, t)) h =
      elim (Bool-cases (not (not (length s == length t)) && not (fraction t).1)) [
        | inl nothing ↦ rw nothing tt
        | inr digits ↦ rw digits (
            term_unit-Ends orig s v (fraction t).0 (span_unit (fraction t).0.rem)
              (omega (arith, span_unit_splits (fraction t).0.rem, fraction_shrinks t, h v t refl)))
      ]

  -- A term leaves less than it was given, and its value fits an int64.
  parse_term-Ends : (orig s : Bytes) → Ends s (parse_term scaled orig s)
  unfolding parse_term
  parse_term-Ends orig [] = tt
  parse_term-Ends orig (c ∷ s) = elim (Bool-cases (not (c == b'.' || is_digit c))) [
    | inl other ↦ rw other tt
    | inr starts ↦
        rw starts
          (after_int-Ends orig (c ∷ s) (leading_int 0 (c ∷ s)) (leading_int_shrinks (c ∷ s) 0))
  ]

  add_term-Fits : (orig : Bytes) (d v : ℕ) → Fits (add_term scaled orig d v)
  unfolding add_term
  add_term-Fits orig d v = ground arith

  parse_terms-Fits :
      (fuel : ℕ) (orig s : Bytes) (d : ℕ)
      → length s ≤ fuel
      → d ≤ max_int64
      → Fits (parse_terms scaled fuel orig s d)
  unfolding parse_terms
  parse_terms-Fits fuel orig [] d le h = h
  parse_terms-Fits zero orig (c ∷ s) d le h = absurd (omega arith)
  parse_terms-Fits (suc fuel) orig (c ∷ s) d le h =
      after_term (parse_term scaled orig (c ∷ s)) (parse_term-Ends orig (c ∷ s))
        (λ rest shorter n fits. parse_terms-Fits fuel orig rest n shorter fits)
    where
      after_sum :
          (r : Result ℕ) (rest : Bytes)
          → Fits r
          → ((n : ℕ) → n ≤ max_int64 → Fits (parse_terms scaled fuel orig rest n))
          → Fits (r >>= parse_terms scaled fuel orig rest)
      after_sum (ok n) rest fits next = next n fits
      after_sum (err e) rest fits next = tt
      after_sum running rest fits next = fits

      after_term :
          (r : Result (ℕ × Bytes))
          → Ends (c ∷ s) r
          → ((rest : Bytes)
              → length rest ≤ fuel
              → (n : ℕ) → n ≤ max_int64
              → Fits (parse_terms scaled fuel orig rest n))
          → Fits (r >>= λ t. add_term scaled orig d t.0 >>= parse_terms scaled fuel orig t.1)
      after_term (ok (v, rest)) ends next =
          after_sum (add_term scaled orig d v) rest (add_term-Fits orig d v)
            (next rest (omega arith))
      after_term (err e) ends next = tt
      after_term running ends next = ends

  -- what `ParseCapacities` may return: an error, or a value in the range of int64
  abbrev pub InRange : Result ℤ → Type 0
  InRange (ok (pos n)) = n ≤ max_int64
  InRange (ok (negsuc n)) = suc n ≤ max_int64
  InRange (err e) = Unit
  InRange running = ⊥

  signed-InRange :
      (neg : Bool) (r : Result ℕ)
      → Fits r
      → InRange (r >>= λ d. ok (if neg then negated d else pos d))
  signed-InRange true (ok zero) h = h
  signed-InRange true (ok (suc n)) h = h
  signed-InRange false (ok n) h = h
  signed-InRange neg (err e) h = tt
  signed-InRange neg running h = h

  parse_unsigned-InRange :
      (orig : Bytes) (neg : Bool) (s : Bytes) → InRange (parse_unsigned scaled orig neg s)
  unfolding parse_unsigned
  parse_unsigned-InRange orig neg [] = tt
  parse_unsigned-InRange orig neg (c ∷ s) = elim (Bool-cases (same (codes "0") (c ∷ s))) [
    | inl nought ↦ rw nought (omega arith)
    | inr other ↦ rw other (
        signed-InRange neg _
          (parse_terms-Fits (length (c ∷ s)) orig (c ∷ s) 0 (omega arith) (omega arith)))
  ]

  -- `ParseCapacities` ends on every text, whatever the floats compute: its loop makes at most one
  -- round for each byte, and a value that it returns lies within the range of int64.
  pub parse_capacities-InRange : (s : Bytes) → InRange (parse_capacities scaled s)
  unfolding parse_capacities
  parse_capacities-InRange s = parse_unsigned-InRange s (sign scaled s).0 (sign scaled s).1
