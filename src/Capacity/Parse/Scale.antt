-- ===== src/Capacity/Parse/Scale.antt =====
-- capacity/format.go: the sizes of the units that `String` prints, as `ParseCapacities` knows them.
use fuck.Base.{
  ℕ, ◌+◌, ◌-◌, ◌*◌, ◌/◌, ◌%◌, ◌^◌, ◌≡◌, refl, ap, true, List, [], ◌∷◌, ◌++◌, Bytes, codes, ltb,
  arith, Bool-cases, inl, inr,
}
use fuck.Capacity.Parse.{unit_size}
use fuck.Capacity.Parse.Terms.{IsUnit, starts_digit, digits_head, digits_pos}
use fuck.Capacity.Print.{magic_unit}
use fuck.Capacity.Print.Digits.{term}

-- each unit is 1024 of the one before, the first is `k`
abbrev pub Scale : List Bytes → ℕ → Type 0
Scale [] k = Unit
Scale (unit ∷ units) k = IsUnit unit k × Scale units (k * 1024)

-- `u` is less than 1024 of the last unit
abbrev pub Small : List Bytes → ℕ → Type 0
Small [] u = u ≡ 0
Small (unit ∷ units) u = Small units (u / 1024)

pub starts-term :
    (unit : Bytes) (v : ℕ) (rest : Bytes)
    → starts_digit rest ≡ true
    → starts_digit (term unit v rest) ≡ true
starts-term unit v rest h = elim (Bool-cases (ltb 0 v)) [
  | inl p ↦
      rw (p, digits_pos v (unit ++ rest) (ground arith))
        (digits_head (v - 1) (v / 10) ((v % 10 + b'0') ∷ (unit ++ rest)) (ground arith)
          (ground arith))
  | inr z ↦ rw z h
]

pub regroup : (d u k : ℕ) → d + u * k ≡ d + u / 1024 * (k * 1024) + u % 1024 * k
regroup d u k =
    let e : u ≡ u / 1024 * 1024 + u % 1024 = omega arith in omega (arith, ap (λ (t : ℕ). t * k) e)

pub magic-Scale : Scale magic_unit 1
unfolding unit_size
magic-Scale = (unit₁, (unit₂, (unit₃, (unit₄, (unit₅, tt)))))
  where
    unit₁ : IsUnit (codes "B") 1
    unit₁ = record {
      letters = (refl, tt);
      ne_nil = λ e. cc;
      size_is = refl;
      size_pos = omega arith;
      size_fits = omega arith;
    }

    unit₂ : IsUnit (codes "KB") (2 ^ 10)
    unit₂ = record {
      letters = (refl, (refl, tt));
      ne_nil = λ e. cc;
      size_is = refl;
      size_pos = omega arith;
      size_fits = omega arith;
    }

    unit₃ : IsUnit (codes "MB") (2 ^ 20)
    unit₃ = record {
      letters = (refl, (refl, tt));
      ne_nil = λ e. cc;
      size_is = refl;
      size_pos = omega arith;
      size_fits = omega arith;
    }

    unit₄ : IsUnit (codes "GB") (2 ^ 30)
    unit₄ = record {
      letters = (refl, (refl, tt));
      ne_nil = λ e. cc;
      size_is = refl;
      size_pos = omega arith;
      size_fits = omega arith;
    }

    unit₅ : IsUnit (codes "TB") (2 ^ 40)
    unit₅ = record {
      letters = (refl, (refl, tt));
      ne_nil = λ e. cc;
      size_is = refl;
      size_pos = omega arith;
      size_fits = omega arith;
    }
