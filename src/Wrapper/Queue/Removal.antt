-- ===== src/Wrapper/Queue/Removal.antt =====
-- A `RingQueue` inside `Remove`: the values that are kept so far, and those still to be looked at.
pub mod Drop
pub mod Step
pub mod Filter
use fuck.Base.{
  ℕ, zero, suc, ◌+◌, ◌-◌, ◌≤◌, ◌<◌, ◌≡◌, refl, sym, ap, ◌∙◌, List, [], ◌∷◌, ◌++◌, Option, length,
  arith, inl, inr, Bool-cases, ◌==◌, ltb, if◌then◌else◌, true, false, Bool, append-nil,
}
use fuck.Wrapper.Queue.{RingQueue, node}
use fuck.Wrapper.Queue.Circle.{after, after-lt, Circle}
use fuck.Wrapper.Queue.Invariant.{slot, Holds}
use fuck.Wrapper.Queue.Ring.{move}
use fuck.Wrapper.Queue.Slots.{ahead, ahead-lt, ahead-suc, Slots}

pub ahead_zero : (max s : ℕ) → s < max → ahead max s 0 ≡ s
ahead_zero max s p = ground arith

module _ {A : Type 0} where
  -- what the slots hold under the numbering `p` of the nodes
  abbrev pub seen : RingQueue A → (ℕ → ℕ) → ℕ → Option A
  seen q p i = q.nodes.value (p i)

  pub record State (q : RingQueue A) (p : ℕ → ℕ) (ks xs : List A) : Type 0 where
    pub circle : Circle q.nodes q.max p
    pub root : p 0 ≡ q.r
    pub start_in : q.start < q.max
    pub fits : length ks + length xs < q.max
    pub end_is : q.end ≡ ahead q.max q.start (length ks + length xs)
    pub kept_slots : Slots q.max (seen q p) q.start ks
    pub left : Slots q.max (seen q p) (ahead q.max q.start (length ks)) xs

  -- A run of slots read elsewhere, from another index on.
  pub Slots-shift :
      (max : ℕ) (v w : ℕ → Option A) (h h' : ℕ) (xs : List A)
      → h < max
      → h' < max
      → length xs ≤ max
      → ((t : ℕ) → t < length xs → w (ahead max h' t) ≡ v (ahead max h t))
      → Slots max v h xs
      → Slots max w h' xs
  Slots-shift max v w h h' [] p p' le same s = tt
  Slots-shift max v w h h' (x ∷ xs) p p' le same (s, ss) = (
    ap w (sym (ahead_zero max h' p')) ∙ same 0 (omega arith) ∙ ap v (ahead_zero max h p) ∙ s,
    Slots-shift max v w (ahead max h 1) (ahead max h' 1) xs (ahead-lt max h 1 p (omega arith))
        (ahead-lt max h' 1 p' (omega arith)) (omega arith)
        (λ t l.
          ap w (ahead-suc max h' t p' (omega arith))
          ∙ same (suc t) (omega arith)
          ∙ ap v (sym (ahead-suc max h t p (omega arith))))
        ss,
  )

  -- Before the loop nothing is kept, and the nodes have the numbers they have from `r.r` on.
  pub Holds-State : (q : RingQueue A) (xs : List A) → Holds q xs → State q (node q) [] xs
  unfolding move
  Holds-State q xs v =
      let next_is : (i : ℕ) → i < q.max → q.nodes.next (node q i) ≡ node q (after q.max i) = λ i h.
        elim (Bool-cases (i + 1 == q.max)) [
          | inl last ↦
              let m : suc i ≡ q.max = ground arith in
              let z : after q.max i ≡ 0 = ground arith in rw z (ap (node q) m ∙ v.circle)
          | inr inner ↦ let z : after q.max i ≡ suc i = ground arith in rw z refl
        ] in
      let none_kept : length xs ≡ 0 + length xs = omega arith in
      record {
        circle = record {
          next_is = next_is;
          prev_is = λ i h. ap q.nodes.prev (sym (next_is i h)) ∙ v.linked i h;
          fresh = v.fresh;
          distinct = v.distinct;
        };
        root = refl;
        start_in = v.start_in;
        fits = omega (arith, v.fits);
        end_is = v.end_is ∙ ap (ahead q.max q.start) none_kept;
        kept_slots = tt;
        left = rw (ahead_zero q.max q.start v.start_in) v.slots;
      }

  node_is :
      (q : RingQueue A) (p : ℕ → ℕ)
      → Circle q.nodes q.max p
      → p 0 ≡ q.r
      → (i : ℕ) → i < q.max
      → node q i ≡ p i
  unfolding move
  node_is q p c r zero h = sym r
  node_is q p c r (suc i) h =
      let e : after q.max i ≡ suc i = ground arith in
      ap q.nodes.next (node_is q p c r i (omega arith)) ∙ c.next_is i (omega arith) ∙ ap p e

  -- Behind the loop the queue holds what is kept.
  pub State-Holds : (q : RingQueue A) (p : ℕ → ℕ) (ks : List A) → State q p ks [] → Holds q ks
  unfolding move
  State-Holds q p ks s =
      let at = node_is q p s.circle s.root in
      let e : length ks + 0 ≡ length ks = omega arith in
      let m : suc (q.max - 1) ≡ q.max = omega (arith, s.fits) in
      let z : after q.max (q.max - 1) ≡ 0 = ground arith in
      let around : node q q.max ≡ q.r =
        ap (node q) (sym m)
        ∙ ap q.nodes.next (at (q.max - 1) (omega arith))
        ∙ s.circle.next_is (q.max - 1) (omega arith)
        ∙ ap p z
        ∙ s.root in
      record {
        start_in = s.start_in;
        fits = omega (arith, s.fits);
        end_is = s.end_is ∙ ap (ahead q.max q.start) e;
        circle = around;
        fresh = λ i h. rw (at i h) (s.circle.fresh i h);
        linked = λ i h. rw (at i h, s.circle.next_is i h) (s.circle.prev_is i h);
        distinct = λ i j h h' r. s.circle.distinct i j h h' (sym (at i h) ∙ r ∙ at j h');
        slots =
            Slots-shift q.max (seen q p) (slot q) q.start q.start ks s.start_in s.start_in
              (omega (arith, s.fits))
              (λ t l. ap q.nodes.value (
                at (ahead q.max q.start t)
                  (ahead-lt q.max q.start t s.start_in (omega (arith, s.fits)))))
              s.kept_slots;
      }
