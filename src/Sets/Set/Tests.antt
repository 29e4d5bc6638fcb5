-- ===== src/Sets/Set/Tests.antt =====
-- Runs of the set operations, and instances of the theorems.
use fuck.Base.{
  ℕ, ◌≡◌, refl, inl, inr, ◌↔◌, Bool, true, false, not, ◌&&◌, ◌||◌, List, [], ◌∷◌, ltb, arith,
  Bool-cases, if◌then◌else◌,
}
use fuck.Base.Equality.{nat_eq, member}
use fuck.Sets.Set.{
  Set, Sort, has, insert, delete, new, difference, union, intersection, equal, list,
}
use fuck.Sets.Set.Equality.{IsMap, equal_iff}
use fuck.Sets.Set.Members.{has_after}
use fuck.Sets.Set.Order.{IsSort, no_less, ordered}
use mathlib.Core.List.{Perm}
use mathlib.Core.List.Perm

abbrev insert_sorted {ℓ} : {A : Type ℓ} → (A → A → Bool) → A → List A → List A
insert_sorted less a [] = a ∷ []
insert_sorted less a (b ∷ xs) = if less b a then b ∷ insert_sorted less a xs else a ∷ b ∷ xs

abbrev sort {ℓ} : {A : Type ℓ} → Sort A
sort less [] = []
sort less (a ∷ xs) = insert_sorted less a (sort less xs)

module _ {ℓ} {A : Type ℓ} where
  insert_sorted-perm :
      (less : A → A → Bool) (a : A) (xs : List A) → Perm (insert_sorted less a xs) (a ∷ xs)
  insert_sorted-perm less a [] = Perm.rfl
  insert_sorted-perm less a (b ∷ xs) = elim (Bool-cases (less b a)) [
    | inl lt ↦ rw lt (Perm.trans (Perm.cons b (insert_sorted-perm less a xs)) (Perm.swap a b xs))
    | inr ge ↦ rw ge Perm.rfl
  ]

  sort-perm : (less : A → A → Bool) (xs : List A) → Perm (sort less xs) xs
  sort-perm less [] = Perm.rfl
  sort-perm less (a ∷ xs) =
      Perm.trans (insert_sorted-perm less a (sort less xs)) (Perm.cons a (sort-perm less xs))

  module _ (key : A → ℕ) where
    abbrev by_key : A → A → Bool
    by_key a b = ltb (key a) (key b)

    no_less-insert_sorted :
        (c a : A) (xs : List A)
        → by_key a c ≡ false
        → no_less by_key c xs ≡ true
        → no_less by_key c (insert_sorted by_key a xs) ≡ true
    no_less-insert_sorted c a [] h n = ground arith
    no_less-insert_sorted c a (b ∷ xs) h n = ground (arith, no_less-insert_sorted c a xs)

    no_less_trans :
        (a b : A) (xs : List A)
        → by_key b a ≡ false
        → no_less by_key b xs ≡ true
        → no_less by_key a xs ≡ true
    no_less_trans a b [] h n = refl
    no_less_trans a b (c ∷ xs) h n = ground (arith, no_less_trans a b xs)

    insert_sorted-ordered :
        (a : A) (xs : List A)
        → ordered by_key xs ≡ true
        → ordered by_key (insert_sorted by_key a xs) ≡ true
    insert_sorted-ordered a [] h = refl
    insert_sorted-ordered a (b ∷ xs) h =
        ground
          (arith, insert_sorted-ordered a xs, no_less-insert_sorted b a xs, no_less_trans a b xs)

    sort-ordered : (xs : List A) → ordered by_key (sort by_key xs) ≡ true
    sort-ordered [] = refl
    sort-ordered (a ∷ xs) = insert_sorted-ordered a (sort by_key xs) (sort-ordered xs)

  sort-IsSort : IsSort {A = A} sort
  sort-IsSort = record { permutes = sort-perm; sorts = sort-ordered }

abbrev s1 : Set ℕ
s1 = (7, 0) ∷ (3, 1) ∷ (5, 2) ∷ []

abbrev items : List ℕ
items = 4 ∷ 3 ∷ []

abbrev s2 : Set ℕ
s2 = (3, 0) ∷ (9, 1) ∷ []

-- an order in which `s1` may be met
abbrev s1_order : Set ℕ
s1_order = (3, 1) ∷ (7, 0) ∷ (5, 2) ∷ []

s1-IsMap : IsMap s1
unfolding IsMap
s1-IsMap = refl

s1_perm : Perm s1_order s1
s1_perm = Perm.swap (7, 0) (3, 1) ((5, 2) ∷ [])

runs :
    (new (7 ∷ 3 ∷ 7 ∷ 5 ∷ []) ≡ s1)
    × (list sort s1_order ≡ 7 ∷ 3 ∷ 5 ∷ [])
    × (union s1_order s2 ≡ (3, 0) ∷ (7, 1) ∷ (5, 2) ∷ (9, 3) ∷ [])
    × (equal s1 s2 s2 ≡ false)
unfolding insert list union equal
runs = (refl, refl, refl, refl)

-- after a deletion two items can share an index, so that the order of `List` is not settled
shared_index : insert {A = ℕ} (delete (new (1 ∷ 2 ∷ [])) (1 ∷ [])) (3 ∷ []) ≡ (2, 1) ∷ (3, 1) ∷ []
unfolding insert delete
shared_index = refl

has_after_example :
    (has (insert s1 items) 4 ≡ (has s1 4 || member 4 items))
    × (has (delete s1 items) 4 ≡ (has s1 4 && not (member 4 items)))
    × (has (union s1_order s2) 4 ≡ (has s1 4 || has s2 4))
    × (has (difference s1_order s2) 4 ≡ (has s1 4 && not (has s2 4)))
    × (has (intersection s1 s1_order s2 s2) 4 ≡ (has s1 4 && has s2 4))
has_after_example = has_after s1 s1_order s2 s2 items 4 s1_perm Perm.rfl

equal_iff_example : (equal s1 s1 s1_order ≡ true) ↔ ((x : ℕ) → has s1 x ≡ has s1 x)
equal_iff_example = equal_iff s1 s1 s1_order s1-IsMap s1-IsMap s1_perm
