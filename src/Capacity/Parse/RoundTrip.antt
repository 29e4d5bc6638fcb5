-- ===== src/Capacity/Parse/RoundTrip.antt =====
-- What `String` prints is read back by `ParseCapacities`, below 1024 TB.
use fuck.Base.{
  same, ℕ, zero, suc, ◌+◌, ◌-◌, ◌*◌, ◌/◌, ◌%◌, ◌^◌, ◌≤◌, ◌<◌, ◌≡◌, ◌≢◌, subst, refl, sym, ap, ◌∙◌,
  Bool, true, false, List, [], ◌∷◌, ◌++◌, some, Bytes, codes, length, length-append, ltb,
  if◌then◌else◌, arith, Bool-cases, inl, inr,
}
use fuck.Base.Int.{ℤ, pos, negsuc, pos_part, neg_part}
use fuck.Base.Words.{max_int64, negated}
use fuck.Capacity.Parse.{
  ok, parse_term, leading_int, add_term, parse_terms, sign, parse_unsigned, parse_capacities,
}
use fuck.Capacity.Parse.Terms.{IsUnit, starts_digit, length-digits, digits_pos, parse_term-term}
use fuck.Capacity.Print.{magic_unit, string}
use fuck.Base.Text.{digits}
use fuck.Capacity.Print.Render.{string-render}
use fuck.Capacity.Print.Digits.{term, render}
use fuck.Capacity.Parse.Scale.{Scale, Small, magic-Scale, regroup, starts-term}

module _ (scaled : ℕ → ℕ → ℕ → ℕ) where
  -- the parser gets on from `s` with `d` to `rest` with `d'`
  record Reads (orig s : Bytes) (d fuel : ℕ) (rest : Bytes) (d' : ℕ) : Type 0 where
    left : ℕ
    enough : length rest ≤ left
    same_result : parse_terms scaled fuel orig s d ≡ parse_terms scaled left orig rest d'

  read_one :
      (fuel : ℕ) (orig s rest : Bytes) (d v : ℕ)
      → parse_term scaled orig s ≡ ok (v, rest)
      → length rest < length s
      → length s ≤ fuel
      → d + v ≤ max_int64
      → Reads orig s d fuel rest (d + v)
  unfolding parse_terms add_term
  read_one zero orig s rest d v e lt le h = absurd (omega arith)
  read_one (suc fuel) orig [] rest d v e lt le h = absurd (omega arith)
  read_one (suc fuel) orig (c ∷ s) rest d v e lt le h = record {
    left = fuel;
    enough = omega arith;
    same_result = let sum : (d + v) % 2 ^ 64 ≡ d + v = omega arith in rw (e, sum) (ground arith);
  }

  read_term :
      (fuel : ℕ) (orig unit rest : Bytes) (size v d : ℕ)
      → IsUnit unit size
      → v < 1024
      → starts_digit rest ≡ true
      → length (term unit v rest) ≤ fuel
      → d + v * size ≤ max_int64
      → Reads orig (term unit v rest) d fuel rest (d + v * size)
  read_term fuel orig unit rest size v d u h st le fits = elim (Bool-cases (ltb 0 v)) [
    | inl p ↦
        let pv : 0 < v = ground arith in
        let t = unit ++ rest in
        let longer : length t < length (digits v v t) =
          rw (digits_pos v t pv)
            (omega (arith, length-digits (v - 1) (v / 10) ((v % 10 + b'0') ∷ t))) in
        let all : length (term unit v rest) ≡ length (digits v v t) = rw p in
        rw p (
          read_one fuel orig (digits v v t) rest d (v * size)
            (parse_term-term scaled orig unit rest size v u pv h st)
            (omega (arith, longer, length-append unit rest)) (omega (arith, all)) fits)
    | inr z ↦
        let e : v ≡ 0 = ground arith in
        let all : length (term unit v rest) ≡ length rest = rw z in
        rw z (record {
          left = fuel;
          enough = omega (arith, all);
          same_result = ap (parse_terms scaled fuel orig rest) (rw e (omega arith));
        })
  ]

  read_units :
      (units : List Bytes) (k u : ℕ) (orig rest : Bytes) (d fuel : ℕ)
      → Scale units k
      → Small units u
      → starts_digit rest ≡ true
      → length (render units u rest) ≤ fuel
      → d + u * k ≤ max_int64
      → Reads orig (render units u rest) d fuel rest (d + u * k)
  read_units [] k u orig rest d fuel sc sm st le h = record {
    left = fuel;
    enough = le;
    same_result = ap (parse_terms scaled fuel orig rest) (rw sm (omega arith));
  }
  read_units (unit ∷ units) k u orig rest d fuel (is, sc) sm st le h =
      let v = u % 1024 in
      let more : d + u * k ≡ d + u / 1024 * (k * 1024) + v * k = regroup d u k in
      let r =
        read_units units (k * 1024) (u / 1024) orig (term unit v rest) d fuel sc sm
          (starts-term unit v rest st) le (omega (arith, more)) in
      let r' =
        read_term r.left orig unit rest k v (d + u / 1024 * (k * 1024)) is (omega arith) st r.enough
          (omega (arith, more)) in
      record {
        left = r'.left;
        enough = r'.enough;
        same_result =
            r.same_result ∙ r'.same_result ∙ ap (parse_terms scaled r'.left orig rest) (sym more);
      }

  read_all :
      (n : ℕ) (orig : Bytes)
      → n < 2 ^ 50
      → let s = render magic_unit n [] in parse_terms scaled (length s) orig s 0 ≡ ok n
  unfolding parse_terms
  read_all n orig h =
      let r =
        read_units magic_unit 1 n orig [] 0 (length (render magic_unit n [])) magic-Scale
          (omega arith) refl (omega arith) (omega arith) in
      r.same_result ∙ ap ok (omega arith)

  -- a single `0` has no unit
  no_unit : (orig : Bytes) (c n : ℕ) → c ≡ b'0' → parse_terms scaled 1 orig (c ∷ []) 0 ≢ ok n
  unfolding parse_terms parse_term leading_int
  no_unit orig c n z e = cc (subst (λ c. parse_terms scaled 1 orig (c ∷ []) 0 ≡ ok n) z e)

  unsigned_lem :
      (orig : Bytes) (neg : Bool) (s : Bytes) (n : ℕ)
      → 0 < n
      → parse_terms scaled (length s) orig s 0 ≡ ok n
      → parse_unsigned scaled orig neg s ≡ ok (if neg then negated n else pos n)
  unfolding parse_unsigned parse_terms
  unsigned_lem orig neg [] n h e = absurd (ground arith)
  unsigned_lem orig neg (c ∷ []) n h e = elim (Bool-cases (same (codes "0") (c ∷ []))) [
    | inl nought ↦ absurd (no_unit orig c n (ground arith) e)
    | inr other ↦ rw (other, e)
  ]
  unsigned_lem orig neg (c ∷ c' ∷ s) n h e =
      let other : same (codes "0") (c ∷ c' ∷ s) ≡ false = ground arith in rw (other, e)

  starts_render :
      (units : List Bytes) (u : ℕ) (rest : Bytes)
      → starts_digit rest ≡ true
      → starts_digit (render units u rest) ≡ true
  starts_render [] u rest h = h
  starts_render (unit ∷ units) u rest h =
      starts_render units (u / 1024) (term unit (u % 1024) rest)
        (starts-term unit (u % 1024) rest h)

  sign_digit : (s : Bytes) → starts_digit s ≡ true → sign scaled s ≡ (false, s)
  unfolding sign
  sign_digit [] h = refl
  sign_digit (c ∷ s) h = ground arith

  -- What `String` prints for a capacity other than 0, and of less than 1024 TB either way, is read
  -- back by `ParseCapacities` as that capacity.
  pub parse_capacities-string :
      (c : ℤ)
      → 0 < pos_part c + neg_part c
      → pos_part c + neg_part c < 2 ^ 50
      → (s : Bytes) × (string (some c) ≡ some s) × (parse_capacities scaled s ≡ ok c)
  unfolding parse_capacities sign
  parse_capacities-string (pos n) h h' =
      let s = render magic_unit n [] in
      let m : n % 2 ^ 64 ≡ n = omega arith in
      (
        s,
        string-render (pos n) ∙ rw m,
        rw (sign_digit s (starts_render magic_unit n [] refl))
            (unsigned_lem s false s n (omega arith) (read_all n s (omega arith))),
      )
  parse_capacities-string (negsuc n) h h' =
      let s = render magic_unit (suc n) [] in
      let m : (2 ^ 64 - (2 ^ 64 - 1 - n % 2 ^ 64)) % 2 ^ 64 ≡ suc n = omega arith in
      (
        b'-' ∷ s,
        string-render (negsuc n) ∙ rw m,
        unsigned_lem (b'-' ∷ s) true s (suc n) (omega arith)
            (read_all (suc n) (b'-' ∷ s) (omega arith)),
      )
