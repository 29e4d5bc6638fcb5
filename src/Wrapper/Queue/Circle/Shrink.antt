-- ===== src/Wrapper/Queue/Circle/Shrink.antt =====
-- A node taken out of a circle.
use fuck.Base.{
  ℕ, ◌+◌, ◌-◌, ◌≤◌, ◌<◌, ◌≡◌, refl, sym, ap, ◌∙◌, ◌≢◌, arith, ◌==◌, ltb, true, false, inl, inr,
  Bool-cases,
}
use fuck.Wrapper.Queue.Ring.{Nodes, link}
use fuck.Wrapper.Queue.Circle.{after, after-lt, after-injective, Circle, shrink}

module _ {A : Type 0} (n : Nodes A) (m : ℕ) (q : ℕ → ℕ) (c : Circle n (m + 1) q) (k : ℕ)
    (low : 0 < k) (in_ : k < m + 1) where
  abbrev pub prev : ℕ
  prev = n.prev (q k)

  abbrev pub shrunk : Nodes A
  shrunk = link n prev (n.next (q k))

  apart : (i j : ℕ) → i < m + 1 → j < m + 1 → i ≢ j → (q i == q j) ≡ false
  apart i j h h' ne = ground (arith, c.distinct i j h h')

  pub prev_lem : prev ≡ q (k - 1)
  prev_lem =
      let e : after (m + 1) (k - 1) ≡ k = ground arith in
      ap (λ i. n.prev (q i)) (sym e) ∙ c.prev_is (k - 1) (omega arith)

  abbrev second : ℕ
  second = after (m + 1) k

  second_in : second < m + 1
  second_in = after-lt (m + 1) k in_

  prev_next : n.next (q (k - 1)) ≡ q k
  prev_next =
      let e : after (m + 1) (k - 1) ≡ k = ground arith in c.next_is (k - 1) (omega arith) ∙ ap q e

  next_gap : shrunk.next (q (k - 1)) ≡ q second
  unfolding link
  next_gap = ground (
    arith,
    prev_lem,
    prev_next,
    c.next_is k in_,
    c.prev_is k in_,
    apart (k - 1) k (omega arith) in_ (omega arith),
  )

  next_old : (i : ℕ) → i < m + 1 → i ≢ k → i ≢ k - 1 → shrunk.next (q i) ≡ q (after (m + 1) i)
  unfolding link
  next_old i h ne ne' = ground (
    arith,
    prev_lem,
    prev_next,
    c.next_is k in_,
    c.prev_is k in_,
    apart i k h in_ ne,
    apart i (k - 1) h (omega arith) ne',
    c.next_is i h,
  )

  prev_gap : shrunk.prev (q second) ≡ q (k - 1)
  unfolding link
  prev_gap =
      let ne : second ≢ k = ground arith in
      ground (
        arith,
        prev_lem,
        prev_next,
        c.next_is k in_,
        c.prev_is k in_,
        apart second k second_in in_ ne,
      )

  prev_old : (i : ℕ) → i < m + 1 → i ≢ k → i ≢ k - 1 → shrunk.prev (q (after (m + 1) i)) ≡ q i
  unfolding link
  prev_old i h ne ne' =
      let a : after (m + 1) i ≢ k = λ e.
        let ek : after (m + 1) (k - 1) ≡ k = ground arith in
        ne' (after-injective (m + 1) i (k - 1) h (omega arith) (e ∙ sym ek)) in
      let b : after (m + 1) i ≢ second = λ e. ne (after-injective (m + 1) i k h in_ e) in
      ground (
        arith,
        prev_lem,
        prev_next,
        c.next_is k in_,
        c.prev_is k in_,
        apart (after (m + 1) i) k (after-lt (m + 1) i h) in_ a,
        apart (after (m + 1) i) second (after-lt (m + 1) i h) second_in b,
        c.prev_is i h,
      )

  abbrev shorter : ℕ → ℕ
  shorter = shrink q k

  shorter_low : (i : ℕ) → i < k → shorter i ≡ q i
  shorter_low i h = let b : ltb i k ≡ true = ground arith in rw b refl

  shorter_high : (i : ℕ) → k ≤ i → shorter i ≡ q (i + 1)
  shorter_high i h = let b : ltb i k ≡ false = ground arith in rw b refl

  after_low : (i : ℕ) → i + 1 < k → shorter (after m i) ≡ q (after (m + 1) i)
  after_low i h =
      let a : after m i ≡ i + 1 = ground arith in
      let b : after (m + 1) i ≡ i + 1 = ground arith in rw (a, b) (shorter_low (i + 1) h)

  after_high : (i : ℕ) → k ≤ i + 1 → i < m → shorter (after m i) ≡ q (after (m + 1) (i + 1))
  after_high i h h' = elim (Bool-cases (i + 1 == m)) [
    | inl last ↦
        let a : after m i ≡ 0 = ground arith in
        let b : after (m + 1) (i + 1) ≡ 0 = ground arith in rw (a, b) (shorter_low 0 low)
    | inr inner ↦
        let a : after m i ≡ i + 1 = ground arith in
        let b : after (m + 1) (i + 1) ≡ i + 1 + 1 = ground arith in
        rw (a, b) (shorter_high (i + 1) h)
  ]

  -- an index of the shorter circle stands before the gap, at it, or behind it
  data Seat (i : ℕ) : Type 0 where
    before_gap : i + 1 < k → Seat i
    at_gap : i ≡ k - 1 → Seat i
    past_gap : k ≤ i → Seat i

  seat : (i : ℕ) → Seat i
  seat i = elim (Bool-cases (ltb i k)) [
    | inl l ↦ elim (Bool-cases (ltb (i + 1) k)) [
      | inl l' ↦ before_gap (ground arith)
      | inr g ↦ at_gap (ground arith)
    ]
    | inr g ↦ past_gap (ground arith)
  ]

  at_end : k - 1 + 1 ≡ k
  at_end = omega arith

  shrunk_next : (i : ℕ) → i < m → shrunk.next (shorter i) ≡ shorter (after m i)
  shrunk_next i h = elim (seat i) [
    | before_gap l ↦
        rw (shorter_low i (omega arith), after_low i l)
          (next_old i (omega arith) (omega arith) (omega arith))
    | at_gap e ↦
        rw
          (
            e,
            shorter_low (k - 1) (omega arith),
            after_high (k - 1) (omega arith) (omega arith),
            at_end,
          )
          next_gap
    | past_gap g ↦
        rw (shorter_high i g, after_high i (omega arith) h)
          (next_old (i + 1) (omega arith) (omega arith) (omega arith))
  ]

  shrunk_prev : (i : ℕ) → i < m → shrunk.prev (shorter (after m i)) ≡ shorter i
  shrunk_prev i h = elim (seat i) [
    | before_gap l ↦
        rw (shorter_low i (omega arith), after_low i l)
          (prev_old i (omega arith) (omega arith) (omega arith))
    | at_gap e ↦
        rw
          (
            e,
            shorter_low (k - 1) (omega arith),
            after_high (k - 1) (omega arith) (omega arith),
            at_end,
          )
          prev_gap
    | past_gap g ↦
        rw (shorter_high i g, after_high i (omega arith) h)
          (prev_old (i + 1) (omega arith) (omega arith) (omega arith))
  ]

  shorter_fresh : (i : ℕ) → Seat i → i < m → shorter i < n.used
  shorter_fresh i (before_gap l) h = rw (shorter_low i (omega arith)) (c.fresh i (omega arith))
  shorter_fresh i (at_gap e) h = rw (shorter_low i (omega arith)) (c.fresh i (omega arith))
  shorter_fresh i (past_gap g) h = rw (shorter_high i g) (c.fresh (i + 1) (omega arith))

  data Side (i : ℕ) : Type 0 where
    left : i < k → Side i
    right : k ≤ i → Side i

  side : (i : ℕ) → Side i
  side i = elim (seat i) [
    | before_gap l ↦ left (omega arith)
    | at_gap e ↦ left (omega arith)
    | past_gap g ↦ right g
  ]

  shorter_distinct : (i j : ℕ) → Side i → Side j → i < m → j < m → shorter i ≡ shorter j → i ≡ j
  shorter_distinct i j (left l) (left l') h h' r =
      c.distinct i j (omega arith) (omega arith) (sym (shorter_low i l) ∙ r ∙ shorter_low j l')
  shorter_distinct i j (left l) (right g) h h' r =
      let e =
        c.distinct i (j + 1) (omega arith) (omega arith)
          (sym (shorter_low i l) ∙ r ∙ shorter_high j g) in
      absurd (omega arith)
  shorter_distinct i j (right g) (left l) h h' r =
      let e =
        c.distinct (i + 1) j (omega arith) (omega arith)
          (sym (shorter_high i g) ∙ r ∙ shorter_low j l) in
      absurd (omega arith)
  shorter_distinct i j (right g) (right g') h h' r =
      let e =
        c.distinct (i + 1) (j + 1) (omega arith) (omega arith)
          (sym (shorter_high i g) ∙ r ∙ shorter_high j g') in
      omega arith

  -- `Link` of the node before index `k` with the node behind it
  pub shrunk-Circle : Circle shrunk m (shrink q k)
  unfolding link
  shrunk-Circle = record {
    next_is = shrunk_next;
    prev_is = shrunk_prev;
    fresh = λ i h. shorter_fresh i (seat i) h;
    distinct = λ i j. shorter_distinct i j (side i) (side j);
  }
