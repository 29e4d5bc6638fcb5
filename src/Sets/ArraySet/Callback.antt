-- ===== src/Sets/ArraySet/Callback.antt =====
-- sets/array.go: `Append` under a full callback.
use fuck.Base.{
  ◌≤◌, ◌<◌, ◌≡◌, refl, ap, inl, inr, true, false, List, [], ◌∷◌, none, some, replicate, leb, arith,
  Bool-cases, length-replicate,
}
use fuck.Base.Equality.{Eq, member}
use fuck.Sets.ArraySet.{
  ArraySet, FullCallback, placed, store, place, step, list, reset, append, on_full, after_call,
  include,
}
use fuck.Sets.ArraySet.Laws.{IsValid, store-IsValid, include_lem}

module _ {ℓ} {A : Type ℓ} ⦃e : Eq A⦄ where
  -- If a new value finds no slot and the full callback returns nil but makes no room, `Append`
  -- returns nil with the set as the callback left it: the value and all values after it are dropped.
  pub append_dropped :
      {E : Type 0} (call : FullCallback E A) (value : A) (values : List A) (s s' : ArraySet A)
      → member value s.arr ≡ false
      → s.size ≤ s.next
      → call s ≡ (none, s')
      → s'.size ≤ s'.next
      → append (some call) (value ∷ values) s ≡ (none, s')
  unfolding append step place on_full after_call
  append_dropped call value values s s' new full answer full' =
      let no_slot : leb s.size s.next ≡ true = ground arith in
      let no_room : leb s'.size s'.next ≡ true = ground arith in
      rw (new, no_slot, answer, no_room, append, step, place, on_full, after_call)

module _ {ℓ} {A : Type ℓ} ⦃e : Eq A⦄ (zero_value : A) where
  reset-IsValid :
      (s : ArraySet A) → IsValid zero_value (reset zero_value s) × (list (reset zero_value s) ≡ [])
  unfolding reset
  reset-IsValid s = (
    record {
      whole = length-replicate s.size zero_value;
      bound = omega arith;
      free = ap (λ n. replicate n zero_value) (omega arith);
      apart = refl;
    },
    refl,
  )

  -- a round of the loop under a full callback that resets the set
  step-reset :
      {E : Type 0} (call : FullCallback E A) (value : A) (s : ArraySet A)
      → call s ≡ (none, reset zero_value s)
      → 0 < s.size
      → IsValid zero_value s
      → (s' : ArraySet A) × (step (some call) value s ≡ placed s')
        × (0 < s'.size)
        × IsValid zero_value s'
  unfolding step place on_full after_call store reset include
  step-reset call value s flush h w = elim (Bool-cases (member value s.arr)) [
    | inl old ↦ (s, rw old refl, h, w)
    | inr new ↦ elim (Bool-cases (leb s.size s.next)) [
      | inl full ↦
          let (w', empty) = reset-IsValid s in
          let room : leb s.size 0 ≡ false = ground arith in
          (
            store value (reset zero_value s),
            rw (new, full, flush, room) refl,
            h,
            (store-IsValid zero_value (reset zero_value s) value w' h refl).0,
          )
      | inr room ↦ (
        store value s,
        rw (new, room) refl,
        h,
        (store-IsValid zero_value s value w (ground arith)
            (ground (arith, include_lem zero_value s value w))).0,
      )
    ]
  ]

  -- With a full callback that resets the set and returns nil, `Append` to a set that has slots at
  -- all never fails, and leaves the set valid.
  pub append-reset :
      {E : Type 0} (call : FullCallback E A) (values : List A) (s : ArraySet A)
      → ((t : ArraySet A) → call t ≡ (none, reset zero_value t))
      → 0 < s.size
      → IsValid zero_value s
      → ((append (some call) values s).0 ≡ none)
        × IsValid zero_value (append (some call) values s).1
  unfolding append
  append-reset call [] s flush h w = (refl, w)
  append-reset call (value ∷ values) s flush h w =
      let (s', eq, h', w') = step-reset call value s (flush s) h w in
      rw (eq, append) (append-reset call values s' flush h' w')
