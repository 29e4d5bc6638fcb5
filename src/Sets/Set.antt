-- ===== src/Sets/Set.antt =====
-- sets/sets.go: `Set`, a Go map from each item to its index. The list of entries stands for the
-- map, and no function depends on its order: one that ranges over a map takes the order in which
-- the entries are met, any permutation of them, as an argument.
pub mod Members
pub mod Equality
pub mod Order
pub mod Tests
use fuck.Base.{
  ℕ, ◌+◌, Bool, true, false, not, ◌&&◌, ◌||◌, List, [], ◌∷◌, ◌++◌, map, Option, none, some, length,
  ltb, ◌==◌, if◌then◌else◌,
}
use fuck.Base.Equality.{Eq, member, distinct}

abbrev pub Set {ℓ} : Type ℓ → Type ℓ
Set A = List (A × ℕ)

-- `sort.Sort` of the standard library, given the `Less` of the slice
abbrev pub Sort {ℓ} : Type ℓ → Type ℓ
Sort A = (A → A → Bool) → List A → List A

module _ {ℓ} {A : Type ℓ} where
  abbrev pub keys : Set A → List A
  keys = map (λ entry. entry.0)

  abbrev pub len : Set A → ℕ
  len s = length s

module _ {ℓ} {A : Type ℓ} ⦃e : Eq A⦄ where
  abbrev pub has : Set A → A → Bool
  has s item = member item (keys s)

  -- `if _, ok := s[item]; !ok { s[item] = s.Len() }`
  pub insert_one : Set A → A → Set A
  insert_one s item = if not (has s item) then s ++ (item, len s) ∷ [] else s

  unfoldable pub insert : Set A → List A → Set A
  unfolding insert_one
  insert s [] = s
  insert s (item ∷ items) = insert (insert_one s item) items

  -- the built-in `delete`
  pub delete_one : Set A → A → Set A
  delete_one [] item = []
  delete_one (entry ∷ s) item =
      if e.beq item entry.0 then delete_one s item else entry ∷ delete_one s item

  unfoldable pub delete : Set A → List A → Set A
  unfolding delete_one
  delete s [] = s
  delete s (item ∷ items) = delete (delete_one s item) items

  abbrev pub new : List A → Set A
  new items = insert [] items

  pub has_all : Set A → List A → Bool
  has_all s [] = true
  has_all s (item ∷ items) = if not (has s item) then false else has_all s items

  pub has_any : Set A → List A → Bool
  has_any s [] = false
  has_any s (item ∷ items) = if has s item then true else has_any s items

  -- `for key := range … { if test(key) { result.Insert(key) } }` from the set `result`
  pub insert_if : (A → Bool) → Set A → Set A → Set A
  unfolding insert_one
  insert_if test result [] = result
  insert_if test result (entry ∷ order) =
      insert_if test (if test entry.0 then insert_one result entry.0 else result) order

  unfoldable pub difference : Set A → Set A → Set A
  unfolding insert_if
  difference order s2 = insert_if (λ key. not (has s2 key)) [] order

  unfoldable pub union : Set A → Set A → Set A
  unfolding insert_if
  union order order2 = insert_if (λ key. true) (insert_if (λ key. true) [] order) order2

  -- `order` and `order2` are the orders in which `s` and `s2` are met
  unfoldable pub intersection : Set A → Set A → Set A → Set A → Set A
  unfolding insert_if
  intersection s order s2 order2 =
      if ltb (len s) (len s2) then insert_if (has s2) [] order else insert_if (has s) [] order2

  pub is_superset : Set A → Set A → Bool
  is_superset s [] = true
  is_superset s (entry ∷ order2) = if not (has s entry.0) then false else is_superset s order2

  unfoldable pub equal : Set A → Set A → Set A → Bool
  unfolding is_superset
  equal s s2 order2 = len s == len s2 && is_superset s order2

  -- `List`, through `sortableSet`
  unfoldable pub list : Sort (A × ℕ) → Set A → List A
  list sort order = keys (sort (λ a b. ltb a.1 b.1) order)

  unfoldable pub sorted_list : (A → A → Bool) → Sort A → Set A → List A
  sorted_list less sort order = sort less (keys order)

  unfoldable pub clone : Sort (A × ℕ) → Set A → Set A
  unfolding list
  clone sort order = new (list sort order)

  -- the first entry that the range meets, if there is one
  unfoldable pub pop_any : Set A → Set A → Option A × Set A
  unfolding delete_one
  pop_any s [] = (none, s)
  pop_any s (entry ∷ order) = (some entry.0, delete_one s entry.0)
