-- ===== src/Capacity/Parse/Digits.antt =====
-- `leadingInt` reads the number that the leading digits spell, or refuses it if an int64 is too small.
use fuck.Base.{
  ℕ, zero, suc, ◌+◌, ◌-◌, ◌*◌, ◌/◌, ◌%◌, ◌^◌, ◌≤◌, ◌<◌, ◌≡◌, sym, ap, ◌∙◌, Bool, true, not, [], ◌∷◌,
  ◌++◌, none, some, Bytes, ltb, leb, if◌then◌else◌, arith, Bool-cases, inl, inr,
}
use fuck.Base.Words.{max_int64}
use fuck.Capacity.Parse.{is_digit, next_int, leading_int}
use fuck.Base.Text.{digits}

-- the number that digits spell behind `x`, with no bound
abbrev pub value : ℕ → Bytes → ℕ
value x [] = x
value x (c ∷ ds) = value (x * 10 + (c - b'0')) ds

abbrev pub AllDigits : Bytes → Type 0
AllDigits [] = Unit
AllDigits (c ∷ ds) = (is_digit c ≡ true) × AllDigits ds

-- no digit comes first
abbrev pub starts_plain : Bytes → Bool
starts_plain [] = true
starts_plain (c ∷ s) = not (is_digit c)

le-value : (ds : Bytes) (x : ℕ) → x ≤ value x ds
le-value [] x = omega arith
le-value (c ∷ ds) x = omega (arith, le-value ds (x * 10 + (c - b'0')))

-- A run of digits is read as the number that it spells, if an int64 holds that, and is refused if not.
pub leading_int_exact :
    (ds rest : Bytes) (x : ℕ)
    → x ≤ max_int64
    → AllDigits ds
    → starts_plain rest ≡ true
    → leading_int x (ds ++ rest)
      ≡ (if leb (value x ds) max_int64 then some (value x ds, rest) else none)
unfolding leading_int
leading_int_exact [] [] x le all plain = ground arith
leading_int_exact [] (c ∷ rest) x le all plain = ground arith
leading_int_exact (c ∷ ds) rest x le (d, all) plain =
    ground
      (arith, leading_int_exact ds rest (x * 10 + (c - b'0')), le-value ds (x * 10 + (c - b'0')))

leading_int_last :
    (v : ℕ) (rest : Bytes)
    → v < 2 ^ 20
    → leading_int (v / 10) ((v % 10 + b'0') ∷ rest) ≡ leading_int v rest
unfolding leading_int
leading_int_last v rest h =
    let e : next_int (v / 10) (v % 10 + b'0') ≡ v = omega arith in
    rw (leading_int, e) (ground arith)

-- reading back what was printed
pub leading_int-digits :
    (fuel v : ℕ) (rest : Bytes)
    → v ≤ fuel
    → v < 2 ^ 20
    → leading_int 0 (digits fuel v rest) ≡ leading_int v rest
leading_int-digits zero v rest le h = let z : v ≡ 0 = omega arith in rw z
leading_int-digits (suc fuel) v rest le h = elim (Bool-cases (ltb 0 v)) [
  | inl go ↦
      rw (go, digits)
        (leading_int-digits fuel (v / 10) ((v % 10 + b'0') ∷ rest) (ground arith) (omega arith)
          ∙ leading_int_last v rest h)
  | inr stop ↦
      let z : v ≡ 0 = ground arith in rw (stop, digits) (ap (λ x. leading_int x rest) (sym z))
]
