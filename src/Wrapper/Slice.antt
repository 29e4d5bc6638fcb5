-- ===== src/Wrapper/Slice.antt =====
-- wrapper/slice.go: the functions on slices.
pub mod OneOrMore
pub mod Laws
mod Tests
use fuck.Base.{
  ℕ, zero, suc, ◌+◌, ◌-◌, ◌/◌, Bool, true, false, List, [], ◌∷◌, ◌++◌, Option, none, some, length,
  take, drop, if◌then◌else◌,
}
use fuck.Base.Equality.{Eq, member}
use fuck.Base.Int.{ℤ, pos, negsuc, ◌-ℤ◌, ltb_ℤ}

module _ {ℓ} {A : Type ℓ} where
  unfoldable pub filter : (A → Bool) → List A → List A
  filter f [] = []
  filter f (item ∷ old) = if f item then item ∷ filter f old else filter f old

  -- `Has`, with a comparison
  pub has : List A → A → (A → A → Bool) → Bool
  has [] t compare = false
  has (val ∷ s) t compare = if compare val t then true else has s t compare

  find_from : ℕ → List A → A → (A → A → Bool) → Option ℕ
  find_from idx [] t compare = none
  find_from idx (val ∷ s) t compare =
      if compare val t then some idx else find_from (idx + 1) s t compare

  -- `FindIndex`; `none` is -1
  pub find_index : List A → A → (A → A → Bool) → Option ℕ
  unfolding find_from
  find_index s t compare = find_from 0 s t compare

  -- `Find`, with the zero value of the type
  pub find : A → List A → (A → Bool) → A
  find zero_value [] f = zero_value
  find zero_value (val ∷ s) f = if f val then val else find zero_value s f

-- `Map`
pub map_slice {ℓ κ} : {S : Type ℓ} {T : Type κ} → List S → (S → T) → List T
map_slice [] f = []
map_slice (item ∷ old) f = f item ∷ map_slice old f

-- where `Limit` leaves something out; `other` is any other number
pub data HidePosition : Type 0 where
  pos_right pos_left pos_center other : HidePosition

module _ {ℓ} {A : Type ℓ} where
  -- the `switch`, with the items that are left beside `manySuffix`; `none` is a slice out of range
  shorten : List A → ℤ → HidePosition → List A → Option (List A)
  shorten s limit other many_suffix = some s
  shorten s (pos limit) pos_right many_suffix = some (take limit s ++ many_suffix)
  shorten s (pos limit) pos_left many_suffix = some (many_suffix ++ drop (length s - limit) s)
  shorten s (pos limit) pos_center many_suffix =
      some (take (limit / 2) s ++ many_suffix ++ drop (length s - (limit - limit / 2)) s)
  shorten s (negsuc n) _ many_suffix = none

  -- `Limit`; a negative capacity is a panic of `make`
  unfoldable pub limit : List A → ℤ → HidePosition → List A → Option (List A)
  unfolding shorten
  limit s total hide_position many_suffix =
      let left = total -ℤ pos (length many_suffix) in
      if ltb_ℤ left (pos (length s))
      then (if ltb_ℤ total (pos 0) then none else shorten s left hide_position many_suffix)
      else some s

-- `GroupBy`: the map of groups as a list of its entries
module _ {ℓ κ} {K : Type ℓ} {V : Type κ} ⦃e : Eq K⦄ where
  -- `group[key]`, nil for a key that is not there
  pub group_of : K → List (K × List V) → List V
  group_of key [] = []
  group_of key (entry ∷ group) = if e.beq key entry.0 then entry.1 else group_of key group

  -- `group[key] = append(of, value)`
  pub put_group : K → List V → List (K × List V) → List (K × List V)
  put_group key of [] = (key, of) ∷ []
  put_group key of (entry ∷ group) =
      if e.beq key entry.0 then (key, of) ∷ group else entry ∷ put_group key of group

  group_all {ι} : {A : Type ι} → (A → K × V) → List (K × List V) → List A → List (K × List V)
  unfolding group_of put_group
  group_all f group [] = group
  group_all f group (item ∷ old) =
      let (key, value) = f item in
      group_all f (put_group key (group_of key group ++ value ∷ []) group) old

  unfoldable pub group_by {ι} : {A : Type ι} → List A → (A → K × V) → List (K × List V)
  unfolding group_all
  group_by old f = group_all f [] old
