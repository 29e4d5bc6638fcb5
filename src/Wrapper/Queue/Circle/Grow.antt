-- ===== src/Wrapper/Queue/Circle/Grow.antt =====
-- A new node linked into a circle.
use fuck.Base.{
  ℕ, ◌+◌, ◌-◌, ◌≤◌, ◌<◌, ◌≡◌, refl, sym, ap, ◌∙◌, ◌≢◌, arith, ◌==◌, ltb, true, false, inl, inr,
  Bool-cases,
}
use fuck.Wrapper.Queue.Ring.{Nodes, link, new_one}
use fuck.Wrapper.Queue.Circle.{
  after, after-lt, after-injective, Circle, grow, before, at, behind, beyond, place_of,
}

module _ {A : Type 0} (n : Nodes A) (m : ℕ) (p : ℕ → ℕ) (c : Circle n m p) (e : ℕ)
    (in_ : e < m) where
  abbrev pub grown : Nodes A
  grown = link (new_one n) (p e) n.used

  -- an old node is not the new one
  old : (i : ℕ) → i < m → (p i == n.used) ≡ false
  old i h = let f = c.fresh i h in ground arith

  apart : (i j : ℕ) → i < m → j < m → i ≢ j → (p i == p j) ≡ false
  apart i j h h' ne = ground (arith, c.distinct i j h h')

  next_new : grown.next n.used ≡ p (after m e)
  unfolding link new_one
  next_new = ground (arith, old e in_, c.next_is e in_)

  next_end : grown.next (p e) ≡ n.used
  unfolding link new_one
  next_end = ground (arith, old e in_)

  next_old : (i : ℕ) → i < m → i ≢ e → grown.next (p i) ≡ p (after m i)
  unfolding link new_one
  next_old i h ne = ground (arith, old i h, apart i e h in_ ne, c.next_is i h)

  prev_new : grown.prev n.used ≡ p e
  unfolding link new_one
  prev_new = ground (arith, old e in_, c.next_is e in_, old (after m e) (after-lt m e in_))

  prev_after : grown.prev (p (after m e)) ≡ n.used
  unfolding link new_one
  prev_after = ground (arith, old e in_, c.next_is e in_, old (after m e) (after-lt m e in_))

  prev_old : (i : ℕ) → i < m → i ≢ e → grown.prev (p (after m i)) ≡ p i
  unfolding link new_one
  prev_old i h ne =
      let other : after m i ≢ after m e = λ q. ne (after-injective m i e h in_ q) in
      ground (
        arith,
        old e in_,
        c.next_is e in_,
        old (after m i) (after-lt m i h),
        c.prev_is i h,
        apart (after m i) (after m e) (after-lt m i h) (after-lt m e in_) other,
      )

  abbrev pub longer : ℕ → ℕ
  longer = grow p e n.used

  pub longer_before : (i : ℕ) → i ≤ e → longer i ≡ p i
  longer_before i h = let q : ltb e i ≡ false = ground arith in rw q refl

  longer_at : longer (e + 1) ≡ n.used
  longer_at = ground arith

  pub longer_beyond : (i : ℕ) → e < i → longer (i + 1) ≡ p i
  longer_beyond i h =
      let a : ltb e (i + 1) ≡ true = ground arith in
      let b : (i + 1 == e + 1) ≡ false = ground arith in
      let d : i + 1 - 1 ≡ i = omega arith in rw (a, b, d) refl

  after_before : (i : ℕ) → i < e → longer (after (m + 1) i) ≡ p (after m i)
  after_before i h =
      let a : after (m + 1) i ≡ i + 1 = ground arith in
      let b : after m i ≡ i + 1 = ground arith in rw (a, b) (longer_before (i + 1) (omega arith))

  after_at : longer (after (m + 1) e) ≡ n.used
  after_at = let a : after (m + 1) e ≡ e + 1 = ground arith in rw a longer_at

  after_beyond : (i : ℕ) → e ≤ i → i < m → longer (after (m + 1) (i + 1)) ≡ p (after m i)
  after_beyond i h h' = elim (Bool-cases (i + 1 == m)) [
    | inl last ↦
        let a : after (m + 1) (i + 1) ≡ 0 = ground arith in
        let b : after m i ≡ 0 = ground arith in rw (a, b) (longer_before 0 (omega arith))
    | inr inner ↦
        let a : after (m + 1) (i + 1) ≡ i + 1 + 1 = ground arith in
        let b : after m i ≡ i + 1 = ground arith in rw (a, b) (longer_beyond (i + 1) (omega arith))
  ]

  -- an index of the longer circle is that of an old node, before or behind the new one, or is new
  data Seat (i : ℕ) : Type 0 where
    low : i ≤ e → longer i ≡ p i → Seat i
    new : i ≡ e + 1 → longer i ≡ n.used → Seat i
    high : (j : ℕ) → i ≡ j + 1 → e < j → j < m → longer i ≡ p j → Seat i

  seat : (i : ℕ) → i < m + 1 → Seat i
  seat i h = elim (place_of e i) [
    | before l ↦ low (omega arith) (longer_before i (omega arith))
    | at q ↦ low (omega arith) (longer_before i (omega arith))
    | behind q ↦ new q (rw q longer_at)
    | beyond l ↦
        let q : i ≡ i - 1 + 1 = omega arith in
        high (i - 1) q (omega arith) (omega arith)
          (ap longer q ∙ longer_beyond (i - 1) (omega arith))
  ]

  grown_next : (i : ℕ) → i < m + 1 → grown.next (longer i) ≡ longer (after (m + 1) i)
  grown_next i h = elim (seat i h) [
    | low l q ↦ elim (Bool-cases (i == e)) [
      | inl here ↦ let k : i ≡ e = ground arith in rw (q, k) (next_end ∙ sym after_at)
      | inr there ↦ rw q (
          next_old i (omega arith) (λ k. absurd (ground arith))
          ∙ sym (after_before i (ground arith)))
    ]
    | new k q ↦ rw (q, k) (next_new ∙ sym (after_beyond e (omega arith) in_))
    | high j k l l' q ↦
        rw (q, k)
          (next_old j l' (λ k'. absurd (omega (arith, k'))) ∙ sym (after_beyond j (omega arith) l'))
  ]

  grown_prev : (i : ℕ) → i < m + 1 → grown.prev (longer (after (m + 1) i)) ≡ longer i
  grown_prev i h = elim (seat i h) [
    | low l q ↦ elim (Bool-cases (i == e)) [
      | inl here ↦ let k : i ≡ e = ground arith in rw (q, k, after_at) prev_new
      | inr there ↦
          rw (q, after_before i (ground arith))
            (prev_old i (omega arith) (λ k. absurd (ground arith)))
    ]
    | new k q ↦ rw (q, k, after_beyond e (omega arith) in_) prev_after
    | high j k l l' q ↦
        rw (q, k, after_beyond j (omega arith) l')
          (prev_old j l' (λ k'. absurd (omega (arith, k'))))
  ]

  seated_fresh : (i : ℕ) → Seat i → i < m + 1 → longer i < n.used + 1
  seated_fresh i (low l q) h = let f = c.fresh i (omega arith) in rw q (omega arith)
  seated_fresh i (new k q) h = rw q (omega arith)
  seated_fresh i (high j k l l' q) h = let f = c.fresh j l' in rw q (omega arith)

  seated_distinct :
      (i j : ℕ) → Seat i → Seat j → i < m + 1 → j < m + 1 → longer i ≡ longer j → i ≡ j
  seated_distinct i j (low l q) (low l' q') h h' r =
      c.distinct i j (omega arith) (omega arith) (sym q ∙ r ∙ q')
  seated_distinct i j (low l q) (new k q') h h' r =
      absurd (ground (arith, old i (omega arith), sym q ∙ r ∙ q'))
  seated_distinct i j (low l q) (high b k l' l'' q') h h' r =
      absurd (omega (arith, c.distinct i b (omega arith) l'' (sym q ∙ r ∙ q')))
  seated_distinct i j (new k q) (low l q') h h' r =
      absurd (ground (arith, old j (omega arith), sym q' ∙ sym r ∙ q))
  seated_distinct i j (new k q) (new k' q') h h' r = omega arith
  seated_distinct i j (new k q) (high b k' l l' q') h h' r =
      absurd (ground (arith, old b l', sym q' ∙ sym r ∙ q))
  seated_distinct i j (high a k l l' q) (low l'' q') h h' r =
      absurd (omega (arith, c.distinct a j l' (omega arith) (sym q ∙ r ∙ q')))
  seated_distinct i j (high a k l l' q) (new k' q') h h' r =
      absurd (ground (arith, old a l', sym q ∙ r ∙ q'))
  seated_distinct i j (high a k l l' q) (high b k' l'' l3 q') h h' r =
      let t = c.distinct a b l' l3 (sym q ∙ r ∙ q') in omega arith

  -- `Link` of a new node behind index `e`
  pub grown-Circle : Circle grown (m + 1) (grow p e n.used)
  unfolding link new_one
  grown-Circle = record {
    next_is = grown_next;
    prev_is = grown_prev;
    fresh = λ i h. seated_fresh i (seat i h) h;
    distinct = λ i j h h' r. seated_distinct i j (seat i h) (seat j h') h h' r;
  }
