-- ===== src/Sets/Set/Equality.antt =====
-- sets/sets.go: the keys of a set stay distinct, and `Equal` compares memberships.
use fuck.Base.{
  ℕ, suc, ◌+◌, ◌≤◌, ◌≡◌, refl, sym, ap, ◌⊎◌, inl, inr, ◌↔◌, Bool, true, false, not, ◌&&◌, List, [],
  ◌∷◌, none, some, length, ltb, ◌==◌, arith, Bool-cases, ==_iff,
}
use fuck.Base.Equality.{
  Eq, Bool-ext, distinct, distinct_le, distinct-append, member_tail, member_later, beq_refl,
}
use fuck.Sets.Set.{
  Set, keys, len, has, insert_one, insert, delete_one, delete, new, insert_if, difference, union,
  intersection, is_superset, equal, pop_any,
}
use fuck.Sets.Set.Members.{keys-append, has_perm, has-delete_one}
use mathlib.Core.List.{Perm}
use mathlib.Core.List.Perm

module _ {ℓ} {A : Type ℓ} ⦃e : Eq A⦄ where
  -- a list of entries that stands for a map
  unfoldable pub IsMap : Set A → Type 0
  IsMap s = distinct (keys s) ≡ true

  insert_one-IsMap : (s : Set A) (item : A) → IsMap s → IsMap (insert_one s item)
  unfolding IsMap insert_one
  insert_one-IsMap s item w = elim (Bool-cases (has s item)) [
    | inl old ↦ rw old w
    | inr new ↦ rw (new, keys-append s ((item, len s) ∷ [])) (distinct-append (keys s) item w new)
  ]

  insert-IsMap : (s : Set A) (items : List A) → IsMap s → IsMap (insert s items)
  unfolding insert
  insert-IsMap s [] w = w
  insert-IsMap s (item ∷ items) w =
      insert-IsMap (insert_one s item) items (insert_one-IsMap s item w)

  tail-IsMap : (entry : A × ℕ) (s : Set A) → IsMap (entry ∷ s) → IsMap s
  unfolding IsMap
  tail-IsMap entry s w = ground arith

  head_fresh : (entry : A × ℕ) (s : Set A) → IsMap (entry ∷ s) → has s entry.0 ≡ false
  unfolding IsMap
  head_fresh entry s w = ground arith

  cons-IsMap : (entry : A × ℕ) (s : Set A) → has s entry.0 ≡ false → IsMap s → IsMap (entry ∷ s)
  unfolding IsMap
  cons-IsMap entry s fresh w = ground arith

  delete_one-IsMap : (s : Set A) (item : A) → IsMap s → IsMap (delete_one s item)
  unfolding IsMap delete_one
  delete_one-IsMap [] item w = w
  delete_one-IsMap (entry ∷ s) item w = elim (Bool-cases (e.beq item entry.0)) [
    | inl eq ↦ rw eq (delete_one-IsMap s item (tail-IsMap entry s w))
    | inr ne ↦ rw ne (
        cons-IsMap entry (delete_one s item)
          (rw (has-delete_one s item entry.0, head_fresh entry s w) refl)
          (delete_one-IsMap s item (tail-IsMap entry s w)))
  ]

  delete-IsMap : (s : Set A) (items : List A) → IsMap s → IsMap (delete s items)
  unfolding delete
  delete-IsMap s [] w = w
  delete-IsMap s (item ∷ items) w =
      delete-IsMap (delete_one s item) items (delete_one-IsMap s item w)

  insert_if-IsMap :
      (test : A → Bool) (result order : Set A) → IsMap result → IsMap (insert_if test result order)
  unfolding insert_if
  insert_if-IsMap test result [] w = w
  insert_if-IsMap test result (entry ∷ order) w = elim (Bool-cases (test entry.0)) [
    | inl holds ↦
        rw holds (
          insert_if-IsMap test (insert_one result entry.0) order
            (insert_one-IsMap result entry.0 w))
    | inr fails ↦ rw fails (insert_if-IsMap test result order w)
  ]

  is_superset_iff :
      (s s2 : Set A) → (is_superset s s2 ≡ true) ↔ ((x : A) → has s2 x ≡ true → has s x ≡ true)
  unfolding is_superset
  is_superset_iff s [] = (λ _ x h. absurd (ground arith), λ _. refl)
  is_superset_iff s (entry ∷ s2) = (
    λ h x m. elim (Bool-cases (e.beq x entry.0)) [
      | inl eq ↦ rw ((e.beq_iff x entry.0).0 eq) (ground arith)
      | inr ne ↦ (is_superset_iff s s2).0 (ground arith) x (member_tail x entry.0 (keys s2) m ne)
    ],
    λ h.
        let here : has s entry.0 ≡ true = h entry.0 (rw (beq_refl entry.0) refl) in
        rw here ((is_superset_iff s s2).1 (λ x m. h x (member_later x entry.0 (keys s2) m))),
  )

  length-keys : (s : Set A) → length (keys s) ≡ len s
  length-keys [] = refl
  length-keys (entry ∷ s) = ap suc (length-keys s)

  len_le : (s s2 : Set A) → IsMap s → ((x : A) → has s x ≡ true → has s2 x ≡ true) → len s ≤ len s2
  unfolding IsMap
  len_le s s2 w h = omega (arith, distinct_le (keys s) (keys s2) w h, length-keys s, length-keys s2)

  -- a set that holds another and has no more items holds nothing else
  same_members :
      (s s2 : Set A)
      → IsMap s2
      → len s ≡ len s2
      → ((x : A) → has s2 x ≡ true → has s x ≡ true)
      → (x : A) → has s x ≡ has s2 x
  same_members s s2 w2 l h x =
      Bool-ext (has s x) (has s2 x)
        (λ m. elim (Bool-cases (has s2 x)) [
          | inl in2 ↦ in2
          | inr out ↦ absurd (
              omega (
                arith,
                len_le ((x, 0) ∷ s2) s (cons-IsMap (x, 0) s2 out w2) (λ y my.
                    elim (Bool-cases (e.beq y x)) [
                      | inl eq ↦ rw ((e.beq_iff y x).0 eq) m
                      | inr ne ↦ h y (member_tail y x (keys s2) my ne)
                    ]),
              ))
        ])
        (h x)

  same_size :
      (s s2 : Set A)
      → IsMap s
      → IsMap s2
      → ((x : A) → has s x ≡ has s2 x)
      → (len s == len s2) ≡ true
  same_size s s2 w w2 h =
      (==_iff (len s) (len s2)).1
        (omega (arith, len_le s s2 w (λ x m. rw (← (h x)) m), len_le s2 s w2 (λ x m. rw (h x) m)))

  -- `Equal` is true exactly if both sets have the same members, in whatever order the second one is
  -- met.
  pub equal_iff :
      (s s2 order2 : Set A)
      → IsMap s
      → IsMap s2
      → Perm order2 s2
      → (equal s s2 order2 ≡ true) ↔ ((x : A) → has s x ≡ has s2 x)
  unfolding equal
  equal_iff s s2 order2 w w2 p = (
    λ h.
        same_members s s2 w2 ((==_iff (len s) (len s2)).0 (ground arith))
          (λ x m. (is_superset_iff s order2).0 (ground arith) x (rw (has_perm x p) m)),
    λ h.
        rw (same_size s s2 w w2 h)
          ((is_superset_iff s order2).1 (λ x m. rw (h x) (rw (← (has_perm x p)) m))),
  )

  -- `Insert` and `Delete` keep the keys of a set distinct, and the sets that `Union`, `Difference`
  -- and `Intersection` make have distinct keys.
  pub operations-IsMap :
      (s order s2 order2 : Set A) (items : List A)
      → IsMap s
      → IsMap (insert s items)
        × IsMap (delete s items)
        × IsMap (union order order2)
        × IsMap (difference order s2)
        × IsMap (intersection s order s2 order2)
  unfolding IsMap union difference intersection
  operations-IsMap s order s2 order2 items w = (
    insert-IsMap s items w,
    delete-IsMap s items w,
    insert_if-IsMap (λ key. true) (insert_if (λ key. true) [] order) order2
        (insert_if-IsMap (λ key. true) [] order refl),
    insert_if-IsMap (λ key. not (has s2 key)) [] order refl,
    elim (Bool-cases (ltb (len s) (len s2))) [
      | inl lt ↦ rw lt (insert_if-IsMap (has s2) [] order refl)
      | inr ge ↦ rw ge (insert_if-IsMap (has s) [] order2 refl)
    ],
  )

  delete_absent : (s : Set A) (item : A) → has s item ≡ false → delete_one s item ≡ s
  unfolding delete_one
  delete_absent [] item h = refl
  delete_absent (entry ∷ s) item h =
      let ne : e.beq item entry.0 ≡ false = ground arith in
      rw ne (ap (λ rest. entry ∷ rest) (delete_absent s item (ground arith)))

  len-delete_one :
      (s : Set A) (item : A) → IsMap s → has s item ≡ true → len s ≡ 1 + len (delete_one s item)
  unfolding delete_one
  len-delete_one [] item w h = absurd (ground arith)
  len-delete_one (entry ∷ s) item w h = elim (Bool-cases (e.beq item entry.0)) [
    | inl eq ↦
        let gone : has s item ≡ false = rw ((e.beq_iff item entry.0).0 eq) (head_fresh entry s w) in
        rw (eq, delete_absent s item gone) (omega arith)
    | inr ne ↦ rw ne (
        omega (
          arith,
          len-delete_one s item (tail-IsMap entry s w) (member_tail item entry.0 (keys s) h ne),
        ))
  ]

  -- `PopAny` on a set with distinct keys answers with nothing only if the set is empty, and
  -- otherwise with an item of the set; it leaves all other items and no more.
  pub pop_any_lem :
      (s order : Set A)
      → IsMap s
      → Perm order s
      → ((pop_any s order ≡ (none, s)) × (s ≡ []))
        ⊎ ((item : A) × ((pop_any s order).0 ≡ some item)
            × (has s item ≡ true)
            × (len s ≡ 1 + len (pop_any s order).1)
            × ((x : A) → has (pop_any s order).1 x ≡ (has s x && not (e.beq x item))))
  unfolding pop_any
  pop_any_lem s [] w p = inl (refl, sym (Perm.nil-eq p))
  pop_any_lem s (entry ∷ order) w p =
      let h : has s entry.0 ≡ true = rw (← (has_perm entry.0 p)) (rw (beq_refl entry.0) refl) in
      inr (entry.0, refl, h, len-delete_one s entry.0 w h, has-delete_one s entry.0)
