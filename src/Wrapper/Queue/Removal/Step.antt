-- ===== src/Wrapper/Queue/Removal/Step.antt =====
-- What a round of `Remove` that drops a node leaves.
use fuck.Base.{
  ℕ, suc, ◌+◌, ◌-◌, ◌≤◌, ◌<◌, ◌≡◌, refl, ap, ◌∙◌, List, ◌∷◌, length, arith, ltb, Bool-cases, inl,
  inr,
}
use fuck.Wrapper.Queue.{RingQueue}
use fuck.Wrapper.Queue.Circle.{after}
use fuck.Wrapper.Queue.Circle.Grow.{longer_before, longer_beyond}
use fuck.Wrapper.Queue.Removal.{State, seen, Slots-shift}
use fuck.Wrapper.Queue.Removal.Drop
use fuck.Wrapper.Queue.Removal.Drop.{
  nodes_of, before, from_start, from_end, renumbered, low_index, later_index, moved_index,
  high_index, renumbered-Circle, same_value,
}
use fuck.Wrapper.Queue.Slots.{ahead, ahead-lt}

module _ {A : Type 0} (q : RingQueue A) (p : ℕ → ℕ) (ks rest : List A) (x : A)
    (s : State q p ks (x ∷ rest)) where
  abbrev n : ℕ
  n = length ks

  abbrev pub here : ℕ
  here = ahead q.max q.start n

  pub here_in : here < q.max
  here_in = ahead-lt q.max q.start n s.start_in (omega (arith, s.fits))

  pub end_in : q.end < q.max
  end_in =
      rw s.end_is
        (ahead-lt q.max q.start (n + length (x ∷ rest)) s.start_in (omega (arith, s.fits)))

  -- how a drop ends: the state, and where the walk goes on and stops
  pub record Dropped (q' : RingQueue A) (prev : ℕ) : Type 0 where
    pub p' : ℕ → ℕ
    pub state : State q' p' ks rest
    pub stop_is : p' q'.end ≡ p q.end
    pub next_is : q'.nodes.next prev ≡ p' (ahead q'.max q'.start n)
    pub same_r : q'.r ≡ q.r
    pub same_root : q'.nodes.value q'.r ≡ q.nodes.value q.r

  -- the walk has not come to the node `r.r`, which is ahead
  module _ (wrapped : q.end < q.start) (early : q.start + n < q.max) where
    abbrev pub at_start : RingQueue A
    at_start = from_start q (p here) (p q.end)

    here_is : here ≡ q.start + n
    here_is = ground arith

    abbrev new_p : ℕ → ℕ
    new_p = renumbered q p s.circle q.end end_in (here + 1)

    goes_on : ahead q.max (ahead q.max q.start 1) n ≡ ahead q.max here 1
    goes_on = ground (arith, s.start_in, s.fits)

    end_there : q.end ≡ q.start + (n + suc (length rest)) - q.max
    end_there = ground (arith, s.end_is, s.fits)

    kept_index :
        (t : ℕ) → t < n → new_p (ahead q.max (ahead q.max q.start 1) t) ≡ p (ahead q.max q.start t)
    kept_index t l =
        let a : ahead q.max (ahead q.max q.start 1) t ≡ q.start + t + 1 =
          ground (arith, s.start_in) in
        let b : ahead q.max q.start t ≡ q.start + t = ground (arith, s.start_in) in
        rw (a, b)
          (later_index q p s.circle q.end end_in (here + 1) (q.start + t) (omega (arith, here_is))
            (omega arith))

    left_index :
        (t : ℕ)
        → t < length rest
        → new_p (ahead q.max (ahead q.max (ahead q.max q.start 1) n) t)
          ≡ p (ahead q.max (ahead q.max here 1) t)
    left_index t l = rw goes_on (elim (Bool-cases (ltb (q.start + n + 1 + t) q.max)) [
      | inl inner ↦
          let j : ahead q.max (ahead q.max here 1) t ≡ q.start + n + 1 + t =
            ground (arith, here_is) in
          rw j (
            high_index q p s.circle q.end end_in (here + 1) (q.start + n + 1 + t)
              (omega (arith, here_is)) (omega arith))
      | inr round ↦
          let j : ahead q.max (ahead q.max here 1) t ≡ q.start + n + 1 + t - q.max =
            ground (arith, here_is, s.fits) in
          rw j (
            low_index q p s.circle q.end end_in (here + 1) (q.start + n + 1 + t - q.max)
              (omega (arith, here_is, end_there, s.fits)) (omega (arith, end_there, s.fits)))
    ])

    pub at_start-Dropped : Dropped at_start (before q (p here) (p q.end))
    at_start-Dropped = record {
      p' = new_p;
      state = record {
        circle =
            renumbered-Circle q p s.circle q.end end_in (here + 1) here (omega arith)
              (omega (arith, here_in))
              (longer_beyond q.nodes q.max p s.circle q.end end_in here (omega (arith, here_is)));
        root =
            low_index q p s.circle q.end end_in (here + 1) 0 (omega arith) (omega arith) ∙ s.root;
        start_in = ahead-lt q.max q.start 1 s.start_in (omega (arith, s.fits));
        fits = omega (arith, s.fits);
        end_is = ground (arith, end_there, s.fits, s.start_in);
        kept_slots =
            Slots-shift q.max (seen q p) (seen at_start new_p) q.start (ahead q.max q.start 1) ks
              s.start_in (ahead-lt q.max q.start 1 s.start_in (omega (arith, s.fits)))
              (omega (arith, s.fits))
              (λ t l.
                same_value q p s.circle q.end end_in (here + 1) (p here) (p q.end) _
                  (ahead q.max q.start t)
                  (ahead-lt q.max q.start t s.start_in (omega (arith, s.fits))) (kept_index t l))
              s.kept_slots;
        left =
            Slots-shift q.max (seen q p) (seen at_start new_p) (ahead q.max here 1)
              (ahead q.max (ahead q.max q.start 1) n) rest
              (ahead-lt q.max here 1 here_in (omega (arith, s.fits)))
              (ahead-lt q.max (ahead q.max q.start 1) n
                (ahead-lt q.max q.start 1 s.start_in (omega (arith, s.fits)))
                (omega (arith, s.fits)))
              (omega (arith, s.fits))
              (λ t l.
                same_value q p s.circle q.end end_in (here + 1) (p here) (p q.end) _
                  (ahead q.max (ahead q.max here 1) t)
                  (ahead-lt q.max (ahead q.max here 1) t
                    (ahead-lt q.max here 1 here_in (omega (arith, s.fits))) (omega (arith, s.fits)))
                  (left_index t l))
              s.left.1;
      };
      stop_is =
          low_index q p s.circle q.end end_in (here + 1) q.end (omega (arith, here_is))
            (omega arith);
      next_is =
          let a : after q.max (here + 1 - 1) ≡ ahead q.max (ahead q.max q.start 1) n =
            ground (arith, here_is, s.start_in, s.fits) in
          Drop.goes_on q p s.circle q.end end_in (here + 1) here (omega arith)
            (omega (arith, here_in))
            (longer_beyond q.nodes q.max p s.circle q.end end_in here (omega (arith, here_is)))
          ∙ ap new_p a;
      same_r = refl;
      same_root =
          Drop.same_root q p s.circle q.end end_in (here + 1) (p here) (p q.end)
            (omega (arith, s.fits)) s.root;
    }

  -- the walk has passed the node `r.r`, or will not come to it
  module _ (low : 0 < here) (late : q.end < q.start → q.max < q.start + n) where
    abbrev pub at_end : RingQueue A
    at_end = from_end q (p here) (p q.end)

    abbrev moved_p : ℕ → ℕ
    moved_p = renumbered q p s.circle q.end end_in here

    pub end_is_late : q.end ≡ here + suc (length rest)
    end_is_late = elim (Bool-cases (ltb q.end q.start)) [
      | inl w ↦
          let l : q.max < q.start + n = late (ground arith) in
          ground (arith, s.end_is, s.fits, s.start_in, l)
      | inr w ↦ ground (arith, s.end_is, s.fits, s.start_in, w)
    ]

    far_index : (t : ℕ) → t < n → here ≤ ahead q.max q.start t → q.end < ahead q.max q.start t
    far_index t l b = elim (Bool-cases (ltb q.end q.start)) [
      | inl w ↦
          let l' : q.max < q.start + n = late (ground arith) in
          ground (arith, s.start_in, s.fits, b, l')
      | inr w ↦ absurd (ground (arith, s.end_is, s.fits, s.start_in, w, b))
    ]

    kept_late : (t : ℕ) → t < n → moved_p (ahead q.max q.start t) ≡ p (ahead q.max q.start t)
    kept_late t l = elim (Bool-cases (ltb (ahead q.max q.start t) here)) [
      | inl b ↦
          low_index q p s.circle q.end end_in here (ahead q.max q.start t) (ground arith)
            (ground (arith, end_is_late, b))
      | inr b ↦
          high_index q p s.circle q.end end_in here (ahead q.max q.start t) (ground arith)
            (far_index t l (ground arith))
    ]

    left_late :
        (t : ℕ)
        → t < length rest
        → moved_p (ahead q.max here t) ≡ p (ahead q.max (ahead q.max here 1) t)
    left_late t l =
        let a : ahead q.max here t ≡ here + t = ground (arith, end_is_late, end_in) in
        let b : ahead q.max (ahead q.max here 1) t ≡ here + t + 1 =
          ground (arith, end_is_late, end_in) in
        rw (a, b)
          (moved_index q p s.circle q.end end_in here (here + t) (omega arith)
            (omega (arith, end_is_late)))

    pub at_end-Dropped : Dropped at_end (before q (p here) (p q.end))
    at_end-Dropped = record {
      p' = moved_p;
      state = record {
        circle =
            renumbered-Circle q p s.circle q.end end_in here here low (omega (arith, here_in)) (
              longer_before q.nodes q.max p s.circle q.end end_in here
                (omega (arith, end_is_late)));
        root = low_index q p s.circle q.end end_in here 0 low (omega arith) ∙ s.root;
        start_in = s.start_in;
        fits = omega (arith, s.fits);
        end_is = ground (arith, end_is_late, s.end_is, s.fits, s.start_in);
        kept_slots =
            Slots-shift q.max (seen q p) (seen at_end moved_p) q.start q.start ks s.start_in
              s.start_in (omega (arith, s.fits))
              (λ t l.
                same_value q p s.circle q.end end_in here (p here) (p q.end) _
                  (ahead q.max q.start t)
                  (ahead-lt q.max q.start t s.start_in (omega (arith, s.fits))) (kept_late t l))
              s.kept_slots;
        left =
            Slots-shift q.max (seen q p) (seen at_end moved_p) (ahead q.max here 1) here rest
              (ahead-lt q.max here 1 here_in (omega (arith, s.fits))) here_in
              (omega (arith, s.fits))
              (λ t l.
                same_value q p s.circle q.end end_in here (p here) (p q.end) _
                  (ahead q.max (ahead q.max here 1) t)
                  (ahead-lt q.max (ahead q.max here 1) t
                    (ahead-lt q.max here 1 here_in (omega (arith, s.fits))) (omega (arith, s.fits)))
                  (left_late t l))
              s.left.1;
      };
      stop_is =
          let e : q.end - 1 + 1 ≡ q.end = omega (arith, end_is_late) in
          moved_index q p s.circle q.end end_in here (q.end - 1) (omega (arith, end_is_late))
            (omega (arith, end_is_late))
          ∙ ap p e;
      next_is =
          let a : after q.max (here - 1) ≡ here = ground (arith, here_in, low) in
          Drop.goes_on q p s.circle q.end end_in here here low (omega (arith, here_in))
            (longer_before q.nodes q.max p s.circle q.end end_in here (omega (arith, end_is_late)))
          ∙ ap moved_p a;
      same_r = refl;
      same_root =
          Drop.same_root q p s.circle q.end end_in here (p here) (p q.end) (omega (arith, s.fits))
            s.root;
    }
