-- ===== src/Wrapper/Queue/Removal/Filter.antt =====
-- `Remove` of a `RingQueue` against a filter of the list that it holds.
use fuck.Base.{
  ℕ, zero, suc, ◌+◌, ◌<◌, ◌≡◌, ◌≢◌, refl, sym, ap, ◌∙◌, Bool, true, false, not, ◌&&◌, List, [], ◌∷◌,
  ◌++◌, some, length, length-append, append_assoc, append-nil, arith, ltb, ◌==◌, ==_iff,
  if◌then◌else◌, inl, inr, Bool-cases,
}
use fuck.Wrapper.Queue.{RingQueue, done, node, remove_from, remove, drop_node}
use fuck.Wrapper.Queue.Circle.{after}
use fuck.Wrapper.Queue.Invariant.{Holds}
use fuck.Wrapper.Queue.Removal.{State, seen, ahead_zero, Holds-State, State-Holds}
use fuck.Wrapper.Queue.Removal.Drop.{before, drop_node_start, drop_node_end}
use fuck.Wrapper.Queue.Removal.Step.{
  Dropped, here, here_in, end_in, end_is_late, at_start, at_start-Dropped, at_end, at_end-Dropped,
}
use fuck.Wrapper.Queue.Slots.{ahead, Slots-snoc}

module _ {A : Type 0} where
  -- the values that `f` does not select
  unfoldable pub unselected : (A → Bool) → List A → List A
  unselected f [] = []
  unselected f (x ∷ xs) = if f x then unselected f xs else x ∷ unselected f xs

  -- `is_prev` says whether the walk has passed the node `r.r`, where the queue goes round the end
  abbrev Met : RingQueue A → ℕ → Bool → Type 0
  Met q n is_prev = q.end < q.start → is_prev ≡ ltb q.max (q.start + n)

  module _ (q : RingQueue A) (p : ℕ → ℕ) (ks rest : List A) (x : A)
      (s : State q p ks (x ∷ rest)) where
    longer_by : length (ks ++ x ∷ []) ≡ length ks + 1
    longer_by = length-append ks (x ∷ [])

    onward : ahead q.max (here q p ks rest x s) 1 ≡ ahead q.max q.start (length ks + 1)
    onward = ground (arith, s.start_in, s.fits)

    keep-State : State q p (ks ++ x ∷ []) rest
    keep-State = record {
      circle = s.circle;
      root = s.root;
      start_in = s.start_in;
      fits = omega (arith, s.fits, longer_by);
      end_is =
          let e : length ks + length (x ∷ rest) ≡ length (ks ++ x ∷ []) + length rest =
            omega (arith, longer_by) in
          s.end_is ∙ ap (ahead q.max q.start) e;
      kept_slots =
          Slots-snoc q.max (seen q p) x ks q.start s.start_in (omega (arith, s.fits)) s.left.0
            s.kept_slots;
      left = rw (longer_by, ← onward) s.left.1;
    }

    abbrev at : ℕ
    at = here q p ks rest x s

    at_in : at < q.max
    at_in = here_in q p ks rest x s

    not_end : (p at == p q.end) ≡ false
    not_end =
        let ne : at ≢ q.end = ground (arith, s.end_is, s.start_in, s.fits) in
        ground (arith, s.circle.distinct at q.end at_in (end_in q p ks rest x s))

    on_next : q.nodes.next (p at) ≡ p (ahead q.max q.start (length (ks ++ x ∷ [])))
    on_next =
        let e : after q.max at ≡ ahead q.max q.start (length ks + 1) =
          ground (arith, at_in, s.start_in, s.fits) in
        s.circle.next_is at at_in ∙ ap p (e ∙ ap (ahead q.max q.start) (sym longer_by))

    at_root : (p at == q.r) ≡ (at == 0)
    at_root = elim (Bool-cases (at == 0)) [
      | inl z ↦ let e : at ≡ 0 = ground arith in rw (z, e, s.root) ((==_iff _ _).1 refl)
      | inr nz ↦ rw nz (
          let ne : at ≢ 0 = ground arith in
          ground (arith, s.root, s.circle.distinct at 0 at_in (omega (arith, s.fits))))
    ]

    Met-next :
        (is_prev : Bool)
        → Met q (length ks) is_prev
        → Met q (length (ks ++ x ∷ [])) (if p at == q.r then true else is_prev)
    Met-next is_prev m w =
        let m' : is_prev ≡ ltb q.max (q.start + length ks) = m w in
        rw (at_root, longer_by) (ground (arith, m', s.start_in, s.fits))

    off_root :
        (f : A → Bool)
        → ((v : A) → q.nodes.value q.r ≡ some v → f v ≡ false)
        → f x ≡ true
        → (at == 0) ≡ false
    off_root f root hit = elim (Bool-cases (at == 0)) [
      | inl z ↦
          let e : at ≡ 0 = ground arith in
          let v : q.nodes.value q.r ≡ some x =
            ap q.nodes.value (sym s.root ∙ ap p (sym e)) ∙ s.left.0 in
          absurd (ground (arith, root x v, hit))
      | inr nz ↦ nz
    ]

    -- a node that is dropped, with the flag of the walk
    abbrev GoesOn : Bool → Type 0
    GoesOn is_prev =
        (q' : RingQueue A) × (prev : ℕ) × (drop_node q (p at) (p q.end) is_prev ≡ (q', prev))
        × Dropped q p ks rest x s q' prev
        × Met q' (length ks) is_prev

    drop-GoesOn : (is_prev : Bool) → Met q (length ks) is_prev → (at == 0) ≡ false → GoesOn is_prev
    drop-GoesOn is_prev m nz = elim (Bool-cases (ltb q.end q.start && not is_prev)) [
      | inl c ↦
          let w : q.end < q.start = ground (arith, c) in
          let b : is_prev ≡ false = ground (arith, c) in
          let early : q.start + length ks < q.max =
            ground (arith, m w, b, nz, s.start_in, s.fits) in
          (
            at_start q p ks rest x s w early,
            before q (p at) (p q.end),
            drop_node_start q (p at) (p q.end) is_prev s.start_in c,
            at_start-Dropped q p ks rest x s w early,
            λ w'. ground (arith, b, w', early, s.start_in),
          )
      | inr c ↦
          let low : 0 < at = ground (arith, nz) in
          let late : q.end < q.start → q.max < q.start + length ks =
            λ w. ground (arith, m w, c, w) in
          let used : 0 < q.end = omega (arith, end_is_late q p ks rest x s low late) in
          (
            at_end q p ks rest x s low late,
            before q (p at) (p q.end),
            drop_node_end q (p at) (p q.end) is_prev used c,
            at_end-Dropped q p ks rest x s low late,
            λ w'. let w : q.end < q.start = ground (arith, s.end_is, s.start_in, s.fits, w') in m w,
          )
    ]

  -- how `Remove` ends: the queue, with the values that it keeps
  abbrev Removed : (A → Bool) → ℕ → RingQueue A → ℕ → ℕ → Bool → List A → Type 0
  Removed f fuel q start stop is_prev ks =
      (q' : RingQueue A) × (remove_from f fuel q start stop is_prev ≡ done q') × Holds q' ks

  module _ (f : A → Bool) where
    relocate :
        (fuel : ℕ) (q : RingQueue A) (start stop begin end : ℕ) (is_prev : Bool) (ks : List A)
        → begin ≡ start
        → end ≡ stop
        → Removed f fuel q start stop is_prev ks
        → Removed f fuel q begin end is_prev ks
    relocate fuel q start stop begin end is_prev ks e e' r = rw (e, e') r

    remove_from_lem :
        (xs ks : List A) (fuel : ℕ) (q : RingQueue A) (p : ℕ → ℕ) (is_prev : Bool)
        → State q p ks xs
        → Met q (length ks) is_prev
        → ((v : A) → q.nodes.value q.r ≡ some v → f v ≡ false)
        → length xs < fuel
        → Removed f fuel q
            (p (ahead q.max q.start (length ks)))
            (p q.end)
            is_prev
            (ks ++ unselected f xs)
    unfolding remove_from unselected
    remove_from_lem xs ks zero q p is_prev s m root h = absurd (omega arith)
    remove_from_lem [] ks (suc fuel) q p is_prev s m root h =
        let all : length ks + 0 ≡ length ks = omega arith in
        let same : (p (ahead q.max q.start (length ks)) == p q.end) ≡ true =
          (==_iff _ _).1 (ap p (ap (ahead q.max q.start) (sym all) ∙ sym s.end_is)) in
        rw (remove_from, same, append-nil ks) (q, refl, State-Holds q p ks s)
    remove_from_lem (x ∷ xs) ks (suc fuel) q p is_prev s m root h =
        let i = ahead q.max q.start (length ks) in
        let apart = not_end q p ks xs x s in
        let value : q.nodes.value (p i) ≡ some x = s.left.0 in
        elim (Bool-cases (f x)) [
          | inr keeps ↦
              let met = if p i == q.r then true else is_prev in
              rw (remove_from, apart, value, keeps, ← append_assoc ks (x ∷ []) (unselected f xs))
                (relocate fuel q _ _ (q.nodes.next (p i)) (p q.end) met _ (on_next q p ks xs x s)
                  refl
                  (remove_from_lem xs (ks ++ x ∷ []) fuel q p met (keep-State q p ks xs x s)
                    (Met-next q p ks xs x s is_prev m) root (omega arith)))
          | inl hit ↦
              let nz : (i == 0) ≡ false = off_root q p ks xs x s f root hit in
              let off : (p i == q.r) ≡ false = at_root q p ks xs x s ∙ nz in
              let (q', prev, dropped, d, m') = drop-GoesOn q p ks xs x s is_prev m nz in
              rw (remove_from, apart, value, hit, off, dropped)
                (relocate fuel q' _ _ (q'.nodes.next prev) (p q.end) is_prev _ d.next_is
                  (sym d.stop_is)
                  (remove_from_lem xs ks fuel q' d.p' is_prev d.state m'
                    (λ v e. root v (sym d.same_root ∙ e)) (omega arith)))
        ]

  -- `Remove` with a function that does not select the value of the node `r.r`, if there is one, ends
  -- within a round for each value and one more, and the queue that it leaves holds the values that the
  -- function does not select, in their order.
  pub remove_refines :
      (f : A → Bool) (q : RingQueue A) (xs : List A) (fuel : ℕ)
      → Holds q xs
      → ((v : A) → q.nodes.value q.r ≡ some v → f v ≡ false)
      → length xs < fuel
      → (q' : RingQueue A) × (remove f fuel q ≡ done q') × Holds q' (unselected f xs)
  unfolding remove
  remove_refines f q xs fuel v root h =
      let s = Holds-State q xs v in
      let z = ahead_zero q.max q.start v.start_in in
      relocate f fuel q _ _ (node q q.start) (node q q.end) false _ (ap (node q) (sym z)) refl
        (remove_from_lem f xs [] fuel q (node q) false s (λ w. ground (arith, v.start_in)) root h)
