-- ===== src/Sets/Set/Order.antt =====
-- sets/sets.go: `List` gives the items of a set that was only inserted into in the order in which
-- they came.
use fuck.Base.{
  ℕ, suc, ◌+◌, ◌≡◌, refl, sym, ap, ap₂, inl, inr, Bool, true, false, not, ◌&&◌, List, [], ◌∷◌, ◌++◌,
  length, ltb, arith, Bool-cases, if◌then◌else◌, append_assoc, append-nil, subst, ◌∙◌,
}
use fuck.Base.Equality.{Eq, member, beq_refl}
use fuck.Sets.Set.{Set, Sort, keys, len, has, insert_one, insert, new, list, clone, sorted_list}
use fuck.Sets.Set.Members.{has-insert, has_perm, member_perm}
use mathlib.Core.Bool.{Bool-set}
use mathlib.Core.List.{Mem, Perm, mem-cons_self, eq-or-mem_of_mem-cons, not-mem-nil}
use mathlib.Core.List.Perm
use mathlib.Core.Logic.Or

module _ {ℓ} {A : Type ℓ} where
  abbrev pub no_less : (A → A → Bool) → A → List A → Bool
  no_less less a [] = true
  no_less less a (b ∷ xs) = not (less b a) && no_less less a xs

  -- nothing in the list is less than what stands before it
  abbrev pub ordered : (A → A → Bool) → List A → Bool
  ordered less [] = true
  ordered less (a ∷ xs) = no_less less a xs && ordered less xs

-- What the standard library says of `sort.Sort`, for a `Less` that compares keys: it permutes the
-- data, and puts it in ascending order. Equal keys may come in any order.
pub record IsSort {ℓ} {A : Type ℓ} (sort : Sort A) : Type ℓ where
  pub permutes : (less : A → A → Bool) (xs : List A) → Perm (sort less xs) xs
  pub sorts :
      (key : A → ℕ) (xs : List A)
      → ordered (λ a b. ltb (key a) (key b)) (sort (λ a b. ltb (key a) (key b)) xs) ≡ true

module _ {ℓ} {A : Type ℓ} where
  -- the items with the indices from `n` on
  pub indexed : ℕ → List A → Set A
  indexed n [] = []
  indexed n (x ∷ xs) = (x, n) ∷ indexed (n + 1) xs

  abbrev less : A × ℕ → A × ℕ → Bool
  less a b = ltb a.1 b.1

  keys-indexed : (n : ℕ) (xs : List A) → keys (indexed n xs) ≡ xs
  unfolding indexed
  keys-indexed n [] = refl
  keys-indexed n (x ∷ xs) = ap (◌∷◌ x) (keys-indexed (n + 1) xs)

  len-indexed : (n : ℕ) (xs : List A) → len (indexed n xs) ≡ length xs
  unfolding indexed
  len-indexed n [] = refl
  len-indexed n (x ∷ xs) = ap suc (len-indexed (n + 1) xs)

  indexed-append :
      (n : ℕ) (xs : List A) (x : A)
      → indexed n xs ++ (x, n + length xs) ∷ [] ≡ indexed n (xs ++ x ∷ [])
  unfolding indexed
  indexed-append n [] x = let h : n + 0 ≡ n = omega arith in rw h
  indexed-append n (y ∷ xs) x =
      let h : n + suc (length xs) ≡ n + 1 + length xs = omega arith in
      rw h (ap (◌∷◌ (y, n)) (indexed-append (n + 1) xs x))

  index_from :
      (n : ℕ) (xs : List A) (entry : A × ℕ) → Mem entry (indexed n xs) → ltb entry.1 n ≡ false
  unfolding indexed
  index_from n [] entry m = absurd (not-mem-nil m)
  index_from n (x ∷ xs) entry m =
      Or.elim (Bool-set (ltb entry.1 n) false) (eq-or-mem_of_mem-cons m)
        (λ eq. rw eq (ground arith)) (λ rest. ground (arith, index_from (n + 1) xs entry rest))

  not_less : (a b : A × ℕ) (xs : Set A) → no_less less a xs ≡ true → Mem b xs → less b a ≡ false
  not_less a b [] h m = absurd (not-mem-nil m)
  not_less a b (c ∷ xs) h m =
      Or.elim (Bool-set (less b a) false) (eq-or-mem_of_mem-cons m) (λ eq. rw eq (ground arith))
        (λ rest. not_less a b xs (ground arith) rest)

module _ {ℓ} {A : Type ℓ} ⦃e : Eq A⦄ where
  -- an ascending permutation of entries with ascending indices is the same list
  heads_eq :
      (n : ℕ) (x : A) (xs : List A) (b : A × ℕ) (r : Set A)
      → ordered less (b ∷ r) ≡ true
      → Perm (b ∷ r) (indexed n (x ∷ xs))
      → b ≡ (x, n)
  unfolding indexed
  heads_eq n x xs b r h p =
      let in_b = (Perm.mem_iff p).0 mem-cons_self in
      let in_x = (Perm.mem_iff p).1 mem-cons_self in
      let from : ltb b.1 n ≡ false = index_from n (x ∷ xs) b in_b in
      let upto : ltb n b.1 ≡ false =
        Or.elim (Bool-set (ltb n b.1) false) (eq-or-mem_of_mem-cons in_x)
          (λ eq. rw (← eq) (ground arith)) (λ rest. not_less b (x, n) r (ground arith) rest) in
      let same : e.beq b.0 x ≡ true =
        Or.elim (Bool-set (e.beq b.0 x) true) (eq-or-mem_of_mem-cons in_b)
          (λ eq. rw eq (beq_refl x))
          (λ rest. absurd (ground (arith, index_from (n + 1) xs b rest))) in
      ap₂ (λ item index. (item, index)) ((e.beq_iff b.0 x).0 same) (ground arith)

  pub ordered-indexed :
      (n : ℕ) (xs : List A) (r : Set A)
      → ordered less r ≡ true
      → Perm r (indexed n xs)
      → r ≡ indexed n xs
  unfolding indexed
  ordered-indexed n [] r h p = Perm.eq-nil p
  ordered-indexed n (x ∷ xs) [] h p = Perm.nil-eq p
  ordered-indexed n (x ∷ xs) (b ∷ r) h p =
      let heads = heads_eq n x xs b r h p in
      let tails = Perm.cons_inv (Perm.trans (Perm.cons' (sym heads) Perm.rfl) p) in
      ap₂ ◌∷◌ heads (ordered-indexed (n + 1) xs r (ground arith) tails)

  -- the items that are not among those seen, each at its first place
  pub first_seen : List A → List A → List A
  first_seen seen [] = []
  first_seen seen (x ∷ xs) =
      if member x seen then first_seen seen xs else x ∷ first_seen (seen ++ x ∷ []) xs

  insert-indexed :
      (seen items : List A)
      → insert (indexed 0 seen) items ≡ indexed 0 (seen ++ first_seen seen items)
  unfolding insert insert_one first_seen
  insert-indexed seen [] = rw (append-nil seen)
  insert-indexed seen (x ∷ items) = elim (Bool-cases (member x seen)) [
    | inl old ↦ rw (keys-indexed 0 seen, old) (insert-indexed seen items)
    | inr new ↦
        let h : 0 + length seen ≡ length seen = omega arith in
        let step = simp h at (indexed-append 0 seen x) in
        rw (keys-indexed 0 seen, new, len-indexed 0 seen)
          (rw (step, ← (append_assoc seen (x ∷ []) (first_seen (seen ++ x ∷ []) items)))
            (insert-indexed (seen ++ x ∷ []) items))
  ]

  -- `List` on a set made by `New` gives the items in the order of their first occurrences, in
  -- whatever order the map is met.
  pub list-new :
      (sort : Sort (A × ℕ)) (items : List A) (order : Set A)
      → IsSort sort
      → Perm order (new items)
      → list sort order ≡ first_seen [] items
  unfolding list indexed
  list-new sort items order s p =
      let sorted =
        ordered-indexed 0 (first_seen [] items) (sort less order) (s.sorts (λ entry. entry.1) order)
          (Perm.trans (s.permutes less order) (subst (Perm order) (insert-indexed [] items) p)) in
      ap keys sorted ∙ keys-indexed 0 (first_seen [] items)

  -- `Clone`, `List` and `SortedList` hold exactly the items of the set, in whatever order the map is
  -- met.
  pub member-lists :
      (sort : Sort (A × ℕ)) (sort_items : Sort A) (below : A → A → Bool) (s order : Set A) (x : A)
      → IsSort sort
      → IsSort sort_items
      → Perm order s
      → (has (clone sort order) x ≡ has s x)
        × (member x (list sort order) ≡ has s x)
        × (member x (sorted_list below sort_items order) ≡ has s x)
  unfolding list clone sorted_list
  member-lists sort sort_items below s order x w wi p =
      let listed : member x (keys (sort less order)) ≡ has s x =
        has_perm x (w.permutes less order) ∙ has_perm x p in
      (
        has-insert [] (keys (sort less order)) x ∙ listed,
        listed,
        member_perm x (wi.permutes below (keys order)) ∙ has_perm x p,
      )
