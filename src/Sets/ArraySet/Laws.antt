-- ===== src/Sets/ArraySet/Laws.antt =====
-- sets/array.go: `Append` against a list without repetitions, and what `Index` and `Include` see in
-- the free slots.
use fuck.Base.{
  ℕ, zero, suc, ◌+◌, ◌-◌, ◌≤◌, ◌<◌, ◌≡◌, refl, sym, ap, ◌∙◌, ◌⊎◌, inl, inr, Bool, true, false, ◌&&◌,
  ◌||◌, List, [], ◌∷◌, ◌++◌, Option, none, some, length, take, drop, set, get_elem?, replicate, ltb,
  leb, arith, Bool-cases, if◌then◌else◌, take-append-drop, length-take, length-set, drop-drop,
}
use fuck.Base.Equality.{
  Eq, member, distinct, member-append, beq-sym, distinct-append, member-replicate,
}
use fuck.Sets.ArraySet.{
  ArraySet, AppendError, set_full, store, place, step, list, append, index, index_from, include,
}

module _ {ℓ} {A : Type ℓ} where
  take_store :
      (xs : List A) (n : ℕ) (v : A)
      → n < length xs
      → take (suc n) (set xs n v) ≡ take n xs ++ v ∷ []
  take_store [] n v h = absurd (omega arith)
  take_store (x ∷ xs) zero v h = refl
  take_store (x ∷ xs) (suc n) v h = ap (◌∷◌ x) (take_store xs n v (omega arith))

  drop_store : (xs : List A) (n : ℕ) (v : A) → drop (suc n) (set xs n v) ≡ drop (suc n) xs
  drop_store [] n v = refl
  drop_store (x ∷ xs) zero v = refl
  drop_store (x ∷ xs) (suc n) v = drop_store xs n v

  drop-replicate :
      (n k : ℕ) (xs : List A) (z : A)
      → drop n xs ≡ replicate (suc k) z
      → drop (suc n) xs ≡ replicate k z
  drop-replicate n k xs z h =
      let e : suc n ≡ n + 1 = omega arith in rw e (sym (drop-drop 1 n xs) ∙ ap (drop 1) h)

module _ {ℓ} {A : Type ℓ} ⦃e : Eq A⦄ (zero_value : A) where
  -- the array has its size, the free slots hold the zero value, and the items differ
  pub record IsValid (s : ArraySet A) : Type ℓ where
    pub whole : length s.arr ≡ s.size
    pub bound : s.next ≤ s.size
    pub free : drop s.next s.arr ≡ replicate (s.size - s.next) zero_value
    pub apart : distinct (list s) ≡ true

  -- `Include` sees the items and, while a slot is free, the zero value.
  pub include_lem :
      (s : ArraySet A) (value : A)
      → IsValid s
      → include value s ≡ (member value (list s) || (e.beq value zero_value && ltb s.next s.size))
  unfolding include
  include_lem s value w =
      let room : ltb 0 (s.size - s.next) ≡ ltb s.next s.size = ground arith in
      ap (member value) (sym (take-append-drop s.next s.arr))
      ∙ rw (member-append value (list s) (drop s.next s.arr), w.free, ← room)
          (ap (λ b. member value (list s) || b)
            (member-replicate value zero_value (s.size - s.next)))

  pub store-IsValid :
      (s : ArraySet A) (value : A)
      → IsValid s
      → s.next < s.size
      → member value (list s) ≡ false
      → IsValid (store value s) × (list (store value s) ≡ list s ++ value ∷ [])
  unfolding store
  store-IsValid s value w h m =
      let e : s.next + 1 ≡ suc s.next = omega arith in
      let less : s.size - s.next ≡ suc (s.size - s.next - 1) = omega arith in
      let left : s.size - s.next - 1 ≡ s.size - suc s.next = omega arith in
      let stored = take_store s.arr s.next value (omega (arith, w.whole)) in
      (
        record {
          whole = length-set s.arr s.next value ∙ w.whole;
          bound = omega arith;
          free =
              rw (e, drop_store s.arr s.next value, ← left)
                (drop-replicate s.next (s.size - s.next - 1) s.arr zero_value
                  (w.free ∙ ap (λ n. replicate n zero_value) less));
          apart = rw (e, stored) (distinct-append (list s) value w.apart m);
        },
        rw e stored,
      )

  -- the list that a set of at most `cap` items stands for: whether it ran full, and its items
  pub add_all : ℕ → List A → List A → Bool × List A
  add_all cap xs [] = (false, xs)
  add_all cap xs (value ∷ values) =
      if member value xs || (e.beq value zero_value && ltb (length xs) cap)
      then add_all cap xs values
      else if leb cap (length xs)
      then (true, xs)
      else add_all cap (xs ++ value ∷ []) values

  length-list : (s : ArraySet A) → IsValid s → length (list s) ≡ s.next
  length-list s w = omega (arith, length-take s.next s.arr, w.whole, w.bound)

  -- what `append` leaves, against a result of `add_all`
  pub Refines : {E : Type 0} → Bool × List A → Option (AppendError E) × ArraySet A → Type ℓ
  Refines model (err, s) =
      (err ≡ (if model.0 then some set_full else none)) × (list s ≡ model.1) × IsValid s

  -- whether the model passes over a value
  abbrev known : A → ArraySet A → Bool
  known value s = member value (list s) || (e.beq value zero_value && ltb s.next s.size)

  append_nil :
      (E : Type 0) (s : ArraySet A)
      → IsValid s
      → Refines {E = E} (add_all s.size (list s) []) (append none [] s)
  unfolding append add_all Refines
  append_nil E s w = (refl, refl, w)

  Refines-full :
      (E : Type 0) (s : ArraySet A) → IsValid s → Refines {E = E} (true, list s) (some set_full, s)
  unfolding Refines
  Refines-full E s w = (refl, refl, w)

  module _ (E : Type 0) (value : A) (values : List A) (s : ArraySet A) where
    append_skip :
        member value s.arr ≡ true → append {E = E} none (value ∷ values) s ≡ append none values s
    unfolding append step
    append_skip h = rw (h, append, step)

    append_full :
        member value s.arr ≡ false
        → leb s.size s.next ≡ true
        → append {E = E} none (value ∷ values) s ≡ (some set_full, s)
    unfolding append step place
    append_full h f = rw (h, f, append, step, place)

    append_room :
        member value s.arr ≡ false
        → leb s.size s.next ≡ false
        → append {E = E} none (value ∷ values) s ≡ append none values (store value s)
    unfolding append step place
    append_room h f = rw (h, f, append, step, place)

  module _ (s : ArraySet A) (value : A) (values : List A) (w : IsValid s) where
    add_skip :
        known value s ≡ true
        → add_all s.size (list s) (value ∷ values) ≡ add_all s.size (list s) values
    unfolding add_all
    add_skip h = rw (length-list s w, h)

    add_full :
        known value s ≡ false
        → leb s.size s.next ≡ true
        → add_all s.size (list s) (value ∷ values) ≡ (true, list s)
    unfolding add_all
    add_full h f = rw (length-list s w, h, f)

    add_room :
        known value s ≡ false
        → leb s.size s.next ≡ false
        → add_all s.size (list s) (value ∷ values) ≡ add_all s.size (list s ++ value ∷ []) values
    unfolding add_all
    add_room h f = rw (length-list s w, h, f)

  -- `Append` without a full callback acts on the items as on a list without repetitions: it skips
  -- what is in the list, and the zero value while a slot is free, and fails on the first other value
  -- that finds no slot.
  pub append-Refines :
      (E : Type 0) (values : List A) (s : ArraySet A)
      → IsValid s
      → Refines {E = E} (add_all s.size (list s) values) (append none values s)
  unfolding include store
  append-Refines E [] s w = append_nil E s w
  append-Refines E (value ∷ values) s w = elim (Bool-cases (member value s.arr)) [
    | inl old ↦
        let known = sym (include_lem s value w) ∙ old in
        rw (append_skip E value values s old, add_skip s value values w known)
          (append-Refines E values s w)
    | inr new ↦
        let unknown = sym (include_lem s value w) ∙ new in
        elim (Bool-cases (leb s.size s.next)) [
          | inl full ↦
              rw (append_full E value values s new full, add_full s value values w unknown full)
                (Refines-full E s w)
          | inr room ↦
              let (w', l) = store-IsValid s value w (ground arith) (ground arith) in
              rw
                (append_room E value values s new room, add_room s value values w unknown room, ← l)
                (append-Refines E values (store value s) w')
        ]
  ]

module _ {ℓ} {A : Type ℓ} ⦃e : Eq A⦄ where
  index_from_lem :
      (value : A) (idx : ℕ) (xs : List A)
      → ((index_from value idx xs ≡ none) × (member value xs ≡ false))
        ⊎ ((i : ℕ) × (index_from value idx xs ≡ some (idx + i))
            × (get_elem? xs i ≡ some value)
            × (member value (take i xs) ≡ false))
  unfolding index_from
  index_from_lem value idx [] = inl (refl, refl)
  index_from_lem value idx (x ∷ xs) = elim (Bool-cases (e.beq x value)) [
    | inl eq ↦
        let z : idx + 0 ≡ idx = omega arith in
        inr (0, rw (eq, z) refl, ap some ((e.beq_iff x value).0 eq), refl)
    | inr ne ↦
        let ne' : e.beq value x ≡ false = beq-sym value x ∙ ne in
        elim (index_from_lem value (idx + 1) xs) [
          | inl (missing, absent) ↦ inl (rw ne missing, rw (ne', absent) refl)
          | inr (i, found, at, before) ↦
              let up : idx + 1 + i ≡ idx + suc i = omega arith in
              inr (suc i, rw (ne, ← up) found, at, rw (ne', before) refl)
        ]
  ]

  -- `Index` gives the first slot that holds a value, and -1 exactly if `Include` does not find it.
  pub index_lem :
      (value : A) (s : ArraySet A)
      → ((index value s ≡ none) × (include value s ≡ false))
        ⊎ ((i : ℕ) × (index value s ≡ some i)
            × (get_elem? s.arr i ≡ some value)
            × (member value (take i s.arr) ≡ false))
  unfolding index include
  index_lem value s = elim (index_from_lem value 0 s.arr) [
    | inl missing ↦ inl missing
    | inr (i, found, at, before) ↦
        let z : 0 + i ≡ i = omega arith in inr (i, simp z at found, at, before)
  ]
