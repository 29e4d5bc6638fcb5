-- ===== src/Sets/ArraySet.antt =====
-- sets/array.go: `ArraySet`, whose slots beyond its items hold the zero value of the type. `compare`
-- is the `==` of a comparable type, the argument `e`.
pub mod Laws
pub mod Callback
pub mod Tests
use fuck.Base.{
  ℕ, zero, suc, ◌+◌, Bool, true, false, List, [], ◌∷◌, Option, none, some, take, set, replicate,
  leb, if◌then◌else◌,
}
use fuck.Base.Equality.{Eq, member}
use fuck.Base.Monad.{◌>>=◌}

-- `cur + 1` is `next`, the index of the next free slot.
pub record ArraySet {ℓ} (A : Type ℓ) : Type ℓ where
  pub arr : List A
  pub next : ℕ
  pub size : ℕ

-- the error of the full callback, or `ErrorSetFull`
pub data AppendError (E : Type 0) : Type 0 where
  set_full : AppendError E
  callback : E → AppendError E

-- `fullCallback`: it may change the set, and returns an error or nil.
abbrev pub FullCallback {ℓ} : Type 0 → Type ℓ → Type ℓ
FullCallback E A = ArraySet A → Option E × ArraySet A

-- what one round of the loop of `Append` comes to: on to the next value, or a return
pub data Placed {ℓ} (E : Type 0) (A : Type ℓ) : Type ℓ where
  placed : ArraySet A → Placed E A
  returned : Option (AppendError E) → ArraySet A → Placed E A

module _ {ℓ} {A : Type ℓ} where
  -- `s.arr[idx] = value` behind `atomic.AddInt64(&s.cur, 1)`
  pub store : A → ArraySet A → ArraySet A
  store value s = record s { arr = set s.arr s.next value; next = s.next + 1 }

module _ {ℓ} {E : Type 0} {A : Type ℓ} where
  -- the callback has come back
  after_call : A → Option E × ArraySet A → Placed E A
  unfolding store
  after_call value (some err, s) = returned (some (callback err)) s
  after_call value (none, s) = if leb s.size s.next then returned none s else placed (store value s)

  -- no slot is free
  on_full : Option (FullCallback E A) → A → ArraySet A → Placed E A
  unfolding after_call
  on_full none value s = returned (some set_full) s
  on_full (some full_callback) value s = after_call value (full_callback s)

  pub place : Option (FullCallback E A) → A → ArraySet A → Placed E A
  unfolding on_full store
  place full value s = if leb s.size s.next then on_full full value s else placed (store value s)

  unfoldable pub call_full_callback : Option (FullCallback E A) → ArraySet A → Option E × ArraySet A
  call_full_callback none s = (none, s)
  call_full_callback (some full_callback) s = full_callback s

module _ {ℓ} {A : Type ℓ} where
  abbrev pub list : ArraySet A → List A
  list s = take s.next s.arr

  abbrev pub length : ArraySet A → ℕ
  length s = s.next

  -- `zero_value` is the zero value of the type
  module _ (zero_value : A) where
    pub reset : ArraySet A → ArraySet A
    reset s = record s { arr = replicate s.size zero_value; next = 0 }

module _ {ℓ} {A : Type ℓ} ⦃e : Eq A⦄ where
  -- the body of the loop of `Append`: a value that stands in some slot is passed over
  pub step : {E : Type 0} → Option (FullCallback E A) → A → ArraySet A → Placed E A
  unfolding place
  step full value s = if member value s.arr then placed s else place full value s

  unfoldable pub append :
      {E : Type 0}
      → Option (FullCallback E A)
      → List A
      → ArraySet A
      → Option (AppendError E) × ArraySet A
  unfolding step
  append full [] s = (none, s)
  append full (value ∷ values) s = elim (step full value s) [
    | placed s' ↦ append full values s'
    | returned err s' ↦ (err, s')
  ]

  unfoldable pub new_array_set : {E : Type 0} → A → ℕ → List A → Option (AppendError E) × ArraySet A
  unfolding append
  new_array_set zero_value size val =
      append none val (record { arr = replicate size zero_value; next = 0; size = size })

  -- `none` is Go's -1
  index_from : A → ℕ → List A → Option ℕ
  index_from value idx [] = none
  index_from value idx (val ∷ arr) =
      if e.beq val value then some idx else index_from value (idx + 1) arr

  unfoldable pub index : A → ArraySet A → Option ℕ
  unfolding index_from
  index value s = index_from value 0 s.arr

  unfoldable pub include : A → ArraySet A → Bool
  include value s = member value s.arr
