-- ===== src/Signals/Groups.antt =====
-- The wait groups are counters, one for each level, that start at 0.
use fuck.Base.{
  ◌∙◌, ℕ, ◌≡◌, refl, List, [], ◌∷◌, Option, none, some, arith, zero, suc, ◌<◌, ◌-◌, if◌then◌else◌,
  ◌==◌,
}
use fuck.Base.Int.{ℤ, negsuc}
use fuck.Base.Monad.{◌>>=◌}
use fuck.Signals.{
  Handler, load_or_store, store, add_counter, get_wait_group, add_for, done_for, wait_for,
}

counter : ℕ → List (ℕ × ℕ) → ℕ
counter level [] = 0
counter level (entry ∷ wg) = if entry.0 == level then entry.1 else counter level wg

load_or_store-counter :
    (level : ℕ) (wg : List (ℕ × ℕ)) → (load_or_store level wg).0 ≡ counter level wg
unfolding load_or_store counter
load_or_store-counter level [] = refl
load_or_store-counter level (entry ∷ wg) = ground (arith, load_or_store-counter level wg)

counter-load_or_store :
    (j level : ℕ) (wg : List (ℕ × ℕ)) → counter j (load_or_store level wg).1 ≡ counter j wg
unfolding load_or_store counter
counter-load_or_store j level [] = ground arith
counter-load_or_store j level (entry ∷ wg) = ground (arith, counter-load_or_store j level wg)

counter-store :
    (j level n : ℕ) (wg : List (ℕ × ℕ))
    → counter j (store level n (load_or_store level wg).1)
      ≡ (if j == level then n else counter j wg)
unfolding load_or_store counter store
counter-store j level n [] = ground arith
counter-store j level n (entry ∷ wg) = ground (arith, counter-store j level n wg)

module _ {F : Type 0} where
  abbrev pub count : ℕ → Handler F → ℕ
  count level s = (get_wait_group level s).0

  count-counter : (level : ℕ) (s : Handler F) → count level s ≡ counter level s.wg
  unfolding get_wait_group
  count-counter level s = load_or_store-counter level s.wg

  pub count_others : (j level : ℕ) (s : Handler F) → count j (get_wait_group level s).1 ≡ count j s
  unfolding get_wait_group
  count_others j level s =
      rw (load_or_store-counter j (load_or_store level s.wg).1, load_or_store-counter j s.wg)
        (counter-load_or_store j level s.wg)

  pub wait_for_lem :
      (level : ℕ) (s : Handler F)
      → wait_for level s ≡ (if count level s == 0 then some (get_wait_group level s).1 else none)
  unfolding wait_for
  wait_for_lem level s = refl

  -- the group of `level` has the counter `n`, all others as before
  abbrev Counts : ℕ → ℕ → Handler F → Handler F → Type 0
  Counts level n s h = (j : ℕ) → count j h ≡ (if j == level then n else count j s)

  pub add_for-Counts :
      (level : ℕ) (delta : ℤ) (n : ℕ) (s : Handler F)
      → add_counter (count level s) delta ≡ some n
      → (h : Handler F) × (add_for level delta s ≡ some h) × Counts level n s h
  unfolding add_for get_wait_group
  add_for-Counts level delta n s e = (
    record ((get_wait_group level s).1) { wg = store level n (get_wait_group level s).1.wg },
    rw e refl,
    λ j.
        rw
          (
            load_or_store-counter j (store level n (load_or_store level s.wg).1),
            load_or_store-counter j s.wg,
          )
          (counter-store j level n s.wg),
  )

  pub add_for-none :
      (level : ℕ) (delta : ℤ) (s : Handler F)
      → add_counter (count level s) delta ≡ none
      → add_for level delta s ≡ none
  unfolding add_for
  add_for-none level delta s e = rw e refl

  -- `n` calls of `DoneFor`, one after another
  abbrev pub dones : ℕ → ℕ → Handler F → Option (Handler F)
  dones zero level s = some s
  dones (suc n) level s = done_for level s >>= dones n level

  done_for-suc :
      (level n : ℕ) (s : Handler F)
      → count level s ≡ suc n
      → (h : Handler F) × (done_for level s ≡ some h) × (count level h ≡ n)
  unfolding add_counter
  done_for-suc level n s e =
      let (h, ok, counts) = add_for-Counts level (negsuc 0) n s (ground (arith, e)) in
      (h, ok, ground (arith, counts level))

  dones-exact :
      (n level : ℕ) (s : Handler F)
      → count level s ≡ n
      → (h : Handler F) × (dones n level s ≡ some h) × (count level h ≡ 0)
  dones-exact zero level s e = (s, refl, e)
  dones-exact (suc n) level s e =
      let (h, one, left) = done_for-suc level n s e in
      let (h', rest, zero_left) = dones-exact n level h left in (h', rw one rest, zero_left)

  dones-fewer :
      (m n level : ℕ) (s h : Handler F)
      → count level s ≡ n
      → m < n
      → dones m level s ≡ some h
      → count level h ≡ n - m
  dones-fewer zero n level s h e lt d = ground (arith, e, d)
  dones-fewer (suc m) zero level s h e lt d = absurd (omega arith)
  dones-fewer (suc m) (suc n) level s h e lt d =
      let (h', one, left) = done_for-suc level n s e in
      let d' : dones m level h' ≡ some h = rw one at d in
      omega (arith, dones-fewer m n level h' h left (omega arith) d')

-- On a wait group with the counter `n`, `n` calls of `DoneFor` succeed and then `WaitFor` returns
-- and one more call panics; after fewer calls `WaitFor` blocks.
pub wait-dones :
    {F : Type 0} (n level : ℕ) (s : Handler F)
    → count level s ≡ n
    → ((h : Handler F) × (dones n level s ≡ some h)
        × (wait_for level h ≡ some (get_wait_group level h).1)
        × (done_for level h ≡ none))
      × ((m : ℕ) (h : Handler F) → m < n → dones m level s ≡ some h → wait_for level h ≡ none)
unfolding add_counter
wait-dones n level s e =
    let (h, ok, zero_left) = dones-exact n level s e in
    (
      (
        h,
        ok,
        wait_for_lem level h ∙ rw zero_left refl,
        add_for-none level (negsuc 0) h (ground (arith, zero_left)),
      ),
      λ m h lt d. wait_for_lem level h ∙ ground (arith, dones-fewer m n level s h e lt d),
    )
