-- ===== src/Base/Equality.antt =====
-- Go's `==` on a comparable type as an interface, and lists seen through it.
use fuck.Base.{
  ℕ, zero, suc, replicate, ltb, ◌+◌, ◌≤◌, ◌≡◌, refl, sym, ap, ◌↔◌, inl, inr, Bool, true, false, not,
  ◌&&◌, ◌||◌, List, [], ◌∷◌, ◌++◌, length, arith, Bool-cases, if◌then◌else◌, ==_iff, ◌==◌,
}

pub record Eq {ℓ} (A : Type ℓ) : Type ℓ where
  pub beq : A → A → Bool
  pub beq_iff : (a b : A) → (beq a b ≡ true) ↔ (a ≡ b)

instance abbrev pub nat_eq : Eq ℕ
nat_eq = record { beq = ◌==◌; beq_iff = ==_iff }

pub Bool-ext : (a b : Bool) → (a ≡ true → b ≡ true) → (b ≡ true → a ≡ true) → a ≡ b
Bool-ext true b f g = sym (f refl)
Bool-ext false true f g = g refl
Bool-ext false false f g = refl

module _ {ℓ} {A : Type ℓ} ⦃e : Eq A⦄ where
  pub beq_refl : (a : A) → e.beq a a ≡ true
  beq_refl a = (e.beq_iff a a).1 refl

  pub beq-sym : (a b : A) → e.beq a b ≡ e.beq b a
  beq-sym a b =
      Bool-ext (e.beq a b) (e.beq b a) (λ h. (e.beq_iff b a).1 (sym ((e.beq_iff a b).0 h)))
        (λ h. (e.beq_iff a b).1 (sym ((e.beq_iff b a).0 h)))

  abbrev pub member : A → List A → Bool
  member a [] = false
  member a (x ∷ xs) = e.beq a x || member a xs

  abbrev pub distinct : List A → Bool
  distinct [] = true
  distinct (x ∷ xs) = not (member x xs) && distinct xs

  -- the list less the first `a`
  without : A → List A → List A
  without a [] = []
  without a (x ∷ xs) = if e.beq a x then xs else x ∷ without a xs

  pub member-append : (a : A) (xs ys : List A) → member a (xs ++ ys) ≡ (member a xs || member a ys)
  member-append a [] ys = refl
  member-append a (x ∷ xs) ys = ground (arith, member-append a xs ys)

  pub member-replicate : (a z : A) (n : ℕ) → member a (replicate n z) ≡ (e.beq a z && ltb 0 n)
  member-replicate a z zero = ground arith
  member-replicate a z (suc n) = ground (arith, member-replicate a z n)

  member_other : (a b : A) (xs : List A) → e.beq a b ≡ false → member a (without b xs) ≡ member a xs
  unfolding without
  member_other a b [] h = refl
  member_other a b (x ∷ xs) h = elim (Bool-cases (e.beq b x)) [
    | inl eq ↦ let p : e.beq a x ≡ false = rw (sym ((e.beq_iff b x).0 eq)) h in rw (eq, p)
    | inr ne ↦ rw ne (ap (λ m. e.beq a x || m) (member_other a b xs h))
  ]

  pub member_tail :
      (a x : A) (xs : List A) → member a (x ∷ xs) ≡ true → e.beq a x ≡ false → member a xs ≡ true
  member_tail a x xs h ne = ground arith

  pub member_later : (a x : A) (xs : List A) → member a xs ≡ true → member a (x ∷ xs) ≡ true
  member_later a x xs h = ground arith

  -- what is in a list differs from what is not
  pub beq_apart :
      (a x : A) (xs : List A) → member a xs ≡ true → member x xs ≡ false → e.beq a x ≡ false
  beq_apart a x xs m n = elim (Bool-cases (e.beq a x)) [
    | inl eq ↦
        let m' : member x xs ≡ true = rw (← ((e.beq_iff a x).0 eq)) m in
        absurd (ground (arith, m', n))
    | inr ne ↦ ne
  ]

  length_less : (b : A) (xs : List A) → member b xs ≡ true → length xs ≡ 1 + length (without b xs)
  unfolding without
  length_less b [] h = absurd (ground arith)
  length_less b (x ∷ xs) h = elim (Bool-cases (e.beq b x)) [
    | inl eq ↦ rw eq omega arith
    | inr ne ↦
        let m : member b xs ≡ true = member_tail b x xs h ne in
        rw ne (omega (arith, length_less b xs m))
  ]

  pub distinct_le :
      (xs ys : List A)
      → distinct xs ≡ true
      → ((a : A) → member a xs ≡ true → member a ys ≡ true)
      → length xs ≤ length ys
  distinct_le [] ys d h = omega arith
  distinct_le (x ∷ xs) ys d h =
      let fresh : member x xs ≡ false = ground arith in
      let rest : distinct xs ≡ true = ground arith in
      let here : member x ys ≡ true = h x (rw (beq_refl x) refl) in
      omega (
        arith,
        length_less x ys here,
        distinct_le xs (without x ys) rest (λ a m.
            rw (member_other a x ys (beq_apart a x xs m fresh)) (h a (member_later a x xs m))),
      )

  pub distinct-append :
      (xs : List A) (a : A)
      → distinct xs ≡ true
      → member a xs ≡ false
      → distinct (xs ++ a ∷ []) ≡ true
  distinct-append [] a d m = refl
  distinct-append (x ∷ xs) a d m =
      ground (arith, distinct-append xs a, member-append x xs (a ∷ []), beq-sym a x)
