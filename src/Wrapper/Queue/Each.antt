-- ===== src/Wrapper/Queue/Each.antt =====
-- `Do` and `List` of a `RingQueue`: the walk from `start` to `end`.
use fuck.Base.{
  ℕ, zero, suc, ◌<◌, ◌≡◌, sym, ap, ◌∙◌, List, [], ◌∷◌, ◌++◌, append_assoc, append-nil, length,
  arith, ◌==◌, ==_iff, true, false, Bool-cases, inl, inr,
}
use mathlib.Core.List.{foldl}
use fuck.Wrapper.Queue.Ring.{move}
use fuck.Wrapper.Queue.Slots.{ahead, ahead-lt, ahead-ne, Slots}
use fuck.Wrapper.Queue.{RingQueue, node, done, walk, list, do_each}
use fuck.Wrapper.Queue.Invariant.{slot, Holds}
use fuck.Wrapper.Queue.Refine.{next_end, ahead_zero}

module _ {ℓ κ} {A : Type ℓ} {S : Type κ} (f : S → A → S) (q : RingQueue A) where
  next_node :
      (i : ℕ) → i < q.max → node q q.max ≡ q.r → q.nodes.next (node q i) ≡ node q (ahead q.max i 1)
  unfolding move
  next_node i p c = elim (Bool-cases (suc i == q.max)) [
    | inl e ↦
        let last : suc i ≡ q.max = ground arith in
        let z : ahead q.max i 1 ≡ 0 = ground arith in rw z (ap (node q) last ∙ c)
    | inr e ↦ let z : ahead q.max i 1 ≡ suc i = ground arith in rw z
  ]

  walk_run :
      (xs : List A) (fuel i e : ℕ) (s : S)
      → node q q.max ≡ q.r
      → ((j k : ℕ) → j < q.max → k < q.max → node q j ≡ node q k → j ≡ k)
      → i < q.max
      → length xs < q.max
      → length xs < fuel
      → e ≡ ahead q.max i (length xs)
      → Slots q.max (slot q) i xs
      → walk f q.nodes fuel (node q i) (node q e) s ≡ done (foldl f s xs)
  unfolding walk
  walk_run xs zero i e s c dist p len_lt fu end_is t = absurd (omega arith)
  walk_run [] (suc fuel) i e s c dist p len_lt fu end_is t =
      let here : (node q i == node q e) ≡ true =
        (==_iff _ _).1 (ap (node q) (sym (end_is ∙ ahead_zero q.max i p))) in
      rw (here, walk)
  walk_run (x ∷ xs) (suc fuel) i e s c dist p len_lt fu end_is (v, t) =
      let away : (node q i == node q e) ≡ false = elim (Bool-cases (node q i == node q e)) [
        | inl same ↦ absurd (
            ahead-ne q.max i (length xs) p len_lt (
              sym (
                dist i e p (rw end_is (ahead-lt q.max i (suc (length xs)) p (omega arith)))
                  ((==_iff _ _).0 same)
                ∙ end_is)))
        | inr other ↦ other
      ] in
      rw (away, walk, v, next_node i p c)
        (walk_run xs fuel (ahead q.max i 1) e (f s x) c dist (ahead-lt q.max i 1 p (omega arith))
          (omega arith) (omega arith) (end_is ∙ next_end q.max i (length xs) p len_lt) t)

  -- `Do` calls its function on the values from the oldest to the newest, and ends within `max` steps.
  pub do_each-foldl :
      (xs : List A) (fuel : ℕ) (s : S)
      → Holds q xs
      → length xs < fuel
      → do_each f fuel q s ≡ done (foldl f s xs)
  unfolding do_each
  do_each-foldl xs fuel s v h =
      walk_run xs fuel q.start q.end s v.circle v.distinct v.start_in v.fits h v.end_is v.slots

foldl-snoc {ℓ} :
    {A : Type ℓ} (xs acc : List A) → foldl (λ items v. items ++ v ∷ []) acc xs ≡ acc ++ xs
foldl-snoc [] acc = sym (append-nil acc)
foldl-snoc (x ∷ xs) acc = foldl-snoc xs (acc ++ x ∷ []) ∙ append_assoc acc (x ∷ []) xs

-- `List` returns the values from the oldest to the newest, and ends within `max` steps.
pub list_refines {ℓ} :
    {A : Type ℓ} (q : RingQueue A) (xs : List A) (fuel : ℕ)
    → Holds q xs
    → length xs < fuel
    → list fuel q ≡ done xs
unfolding list
list_refines q xs fuel v h =
    walk_run _ q xs fuel q.start q.end [] v.circle v.distinct v.start_in v.fits h v.end_is v.slots
    ∙ ap done (foldl-snoc xs [])
