-- ===== src/Sets/Set/Members.antt =====
-- sets/sets.go: what each operation does to the membership of a set.
use fuck.Base.{
  ◌≡◌, refl, sym, ap, inl, inr, Bool, true, false, not, ◌&&◌, ◌||◌, List, [], ◌∷◌, ◌++◌, ltb, arith,
  Bool-cases,
}
use fuck.Base.Equality.{Eq, Bool-ext, member, member-append, member_tail, beq-sym}
use fuck.Sets.Set.{
  Set, keys, len, has, insert_one, insert, delete_one, delete, new, insert_if, difference, union,
  intersection,
}
use mathlib.Core.Bool.{Bool-set}
use mathlib.Core.List.{
  Mem, Perm, mem-cons_self, mem-cons_of_mem, eq-or-mem_of_mem-cons, not-mem-nil,
}
use mathlib.Core.List.Perm
use mathlib.Core.Logic.Or

module _ {ℓ} {A : Type ℓ} ⦃e : Eq A⦄ where
  member_of_Mem : (a : A) (xs : List A) → Mem a xs → member a xs ≡ true
  member_of_Mem a [] m = absurd (not-mem-nil m)
  member_of_Mem a (x ∷ xs) m =
      Or.elim (Bool-set (member a (x ∷ xs)) true) (eq-or-mem_of_mem-cons m)
        (λ eq. ground (arith, (e.beq_iff a x).1 eq))
        (λ rest. ground (arith, member_of_Mem a xs rest))

  Mem_of_member : (a : A) (xs : List A) → member a xs ≡ true → Mem a xs
  Mem_of_member a [] h = absurd (ground arith)
  Mem_of_member a (x ∷ xs) h = elim (Bool-cases (e.beq a x)) [
    | inl eq ↦ rw ((e.beq_iff a x).0 eq) mem-cons_self
    | inr ne ↦ mem-cons_of_mem x (Mem_of_member a xs (member_tail a x xs h ne))
  ]

  pub member_perm : {xs ys : List A} (x : A) → Perm xs ys → member x xs ≡ member x ys
  member_perm {xs} {ys} x p =
      Bool-ext (member x xs) (member x ys)
        (λ h. member_of_Mem x ys ((Perm.mem_iff p).0 (Mem_of_member x xs h)))
        (λ h. member_of_Mem x xs ((Perm.mem_iff p).1 (Mem_of_member x ys h)))

  pub has_perm : {order s : Set A} (x : A) → Perm order s → has order x ≡ has s x
  has_perm x p = member_perm x (Perm.map (λ entry. entry.0) p)

  pub member_known :
      (x item : A) (xs : List A)
      → member item xs ≡ true
      → (member x xs || e.beq x item) ≡ member x xs
  member_known x item xs h = elim (Bool-cases (e.beq x item)) [
    | inl eq ↦ let m : member x xs ≡ true = rw ((e.beq_iff x item).0 eq) h in ground (arith, m)
    | inr ne ↦ ground (arith, ne)
  ]

  pub keys-append : (s t : Set A) → keys (s ++ t) ≡ keys s ++ keys t
  keys-append [] t = refl
  keys-append (entry ∷ s) t = ap (◌∷◌ entry.0) (keys-append s t)

  has-insert_one : (s : Set A) (item x : A) → has (insert_one s item) x ≡ (has s x || e.beq x item)
  unfolding insert_one
  has-insert_one s item x = elim (Bool-cases (has s item)) [
    | inl old ↦ rw old (sym (member_known x item (keys s) old))
    | inr new ↦
        rw (new, keys-append s ((item, len s) ∷ []), member-append x (keys s) (item ∷ [])) ground
          arith
  ]

  pub has-insert :
      (s : Set A) (items : List A) (x : A) → has (insert s items) x ≡ (has s x || member x items)
  unfolding insert
  has-insert s [] x = ground arith
  has-insert s (item ∷ items) x =
      ground (arith, has-insert (insert_one s item) items x, has-insert_one s item x)

  beq_other : (x item key : A) → e.beq item key ≡ false → e.beq x key ≡ true → e.beq x item ≡ false
  beq_other x item key ne eq = rw ((e.beq_iff x key).0 eq) (rw (beq-sym key item) ne)

  test_known : (test : A → Bool) (x key : A) → e.beq x key ≡ true → test x ≡ test key
  test_known test x key h = ap test ((e.beq_iff x key).0 h)

  pub has-delete_one :
      (s : Set A) (item x : A) → has (delete_one s item) x ≡ (has s x && not (e.beq x item))
  unfolding delete_one
  has-delete_one [] item x = refl
  has-delete_one (entry ∷ s) item x = elim (Bool-cases (e.beq item entry.0)) [
    | inl eq ↦
        let same : e.beq x item ≡ e.beq x entry.0 = rw ((e.beq_iff item entry.0).0 eq) in
        rw eq (ground (arith, same, has-delete_one s item x))
    | inr ne ↦ rw ne (ground (arith, has-delete_one s item x, beq_other x item entry.0 ne))
  ]

  has-delete :
      (s : Set A) (items : List A) (x : A)
      → has (delete s items) x ≡ (has s x && not (member x items))
  unfolding delete
  has-delete s [] x = ground arith
  has-delete s (item ∷ items) x =
      ground (arith, has-delete (delete_one s item) items x, has-delete_one s item x)

  has-insert_if :
      (test : A → Bool) (result order : Set A) (x : A)
      → has (insert_if test result order) x ≡ (has result x || (has order x && test x))
  unfolding insert_if
  has-insert_if test result [] x = ground arith
  has-insert_if test result (entry ∷ order) x = elim (Bool-cases (test entry.0)) [
    | inl holds ↦ rw holds (
        ground (
          arith,
          has-insert_if test (insert_one result entry.0) order x,
          has-insert_one result entry.0 x,
          test_known test x entry.0,
        ))
    | inr fails ↦
        rw fails (ground (arith, has-insert_if test result order x, test_known test x entry.0))
  ]

  has-union :
      (order s order2 s2 : Set A) (x : A)
      → Perm order s
      → Perm order2 s2
      → has (union order order2) x ≡ (has s x || has s2 x)
  unfolding union
  has-union order s order2 s2 x p p2 = ground (
    arith,
    has-insert_if (λ key. true) (insert_if (λ key. true) [] order) order2 x,
    has-insert_if (λ key. true) [] order x,
    has_perm x p,
    has_perm x p2,
  )

  has-difference :
      (order s s2 : Set A) (x : A)
      → Perm order s
      → has (difference order s2) x ≡ (has s x && not (has s2 x))
  unfolding difference
  has-difference order s s2 x p =
      ground (arith, has-insert_if (λ key. not (has s2 key)) [] order x, has_perm x p)

  has-intersection :
      (s order s2 order2 : Set A) (x : A)
      → Perm order s
      → Perm order2 s2
      → has (intersection s order s2 order2) x ≡ (has s x && has s2 x)
  unfolding intersection
  has-intersection s order s2 order2 x p p2 = elim (Bool-cases (ltb (len s) (len s2))) [
    | inl lt ↦ rw lt (ground (arith, has-insert_if (has s2) [] order x, has_perm x p))
    | inr ge ↦ rw ge (ground (arith, has-insert_if (has s) [] order2 x, has_perm x p2))
  ]

  -- An item is in the result of each set operation exactly if set theory says so: after `Insert` if
  -- it was in or is inserted, after `Delete` if it was in and is not deleted, in the `Union`,
  -- `Difference` and `Intersection` by its being in the two sets, in whatever order they are met.
  pub has_after :
      (s order s2 order2 : Set A) (items : List A) (x : A)
      → Perm order s
      → Perm order2 s2
      → (has (insert s items) x ≡ (has s x || member x items))
        × (has (delete s items) x ≡ (has s x && not (member x items)))
        × (has (union order order2) x ≡ (has s x || has s2 x))
        × (has (difference order s2) x ≡ (has s x && not (has s2 x)))
        × (has (intersection s order s2 order2) x ≡ (has s x && has s2 x))
  has_after s order s2 order2 items x p p2 = (
    has-insert s items x,
    has-delete s items x,
    has-union order s order2 s2 x p p2,
    has-difference order s s2 x p,
    has-intersection s order s2 order2 x p p2,
  )
