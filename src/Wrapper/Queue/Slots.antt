-- ===== src/Wrapper/Queue/Slots.antt =====
-- The slots of a ring by index, and what a run of them holds.
use fuck.Base.{
  ℕ, zero, suc, ◌+◌, ◌-◌, ◌≤◌, ◌<◌, ◌≡◌, sym, ◌∙◌, ◌≢◌, List, [], ◌∷◌, ◌++◌, Option, some, length,
  arith, ltb, if◌then◌else◌,
}

-- the index `n` places after `h`, round the end at `max`
abbrev pub ahead : ℕ → ℕ → ℕ → ℕ
ahead max h n = if ltb (h + n) max then h + n else h + n - max

pub ahead-lt : (max h n : ℕ) → h < max → n ≤ max → ahead max h n < max
ahead-lt max h n p q = ground arith

pub ahead-suc :
    (max h n : ℕ) → h < max → n < max → ahead max (ahead max h 1) n ≡ ahead max h (suc n)
ahead-suc max h n p q = ground arith

pub ahead-ne : (max h n : ℕ) → h < max → suc n < max → ahead max h (suc n) ≢ h
ahead-ne max h n p q = ground arith

module _ {ℓ} {A : Type ℓ} (max : ℕ) where
  -- from index `h` on the slots `v` hold `xs`
  abbrev pub Slots : (ℕ → Option A) → ℕ → List A → Type ℓ
  Slots v h [] = Unit
  Slots v h (x ∷ xs) = (v h ≡ some x) × Slots v (ahead max h 1) xs

  -- Slots that agree below `max` hold the same, except where slot `j` is not part of the run.
  pub Slots-congr :
      (v w : ℕ → Option A) (j : ℕ)
      → ((i : ℕ) → i < max → i ≢ j → v i ≡ w i)
      → (xs : List A) (h d : ℕ) → h < max
      → d < max
      → length xs ≤ d
      → j ≡ ahead max h d
      → Slots v h xs
      → Slots w h xs
  Slots-congr v w j same [] h d p q le e s = tt
  Slots-congr v w j same (x ∷ xs) h zero p q le e s = absurd (omega arith)
  Slots-congr v w j same (x ∷ xs) h (suc d) p q le e (s, t) = (
    sym (same h p (λ e'. ahead-ne max h d p (omega arith) (sym (e' ∙ e)))) ∙ s,
    Slots-congr v w j same xs (ahead max h 1) d (ahead-lt max h 1 p (omega arith)) (omega arith)
        (omega arith) (e ∙ sym (ahead-suc max h d p (omega arith))) t,
  )

  pub Slots-snoc :
      (v : ℕ → Option A) (y : A) (xs : List A) (h : ℕ)
      → h < max
      → length xs < max
      → v (ahead max h (length xs)) ≡ some y
      → Slots v h xs
      → Slots v h (xs ++ y ∷ [])
  Slots-snoc v y [] h p q e s = (rw (ahead_zero) at e, tt)
    where
      ahead_zero : ahead max h 0 ≡ h
      ahead_zero = ground arith
  Slots-snoc v y (x ∷ xs) h p q e (s, t) = (
    s,
    Slots-snoc v y xs (ahead max h 1) (ahead-lt max h 1 p (omega arith)) (omega arith)
        (rw (ahead-suc max h (length xs) p (omega arith)) e) t,
  )
