-- ===== src/Wrapper/Slice/Laws.antt =====
-- wrapper/slice.go: the length of what `Limit` gives, and the groups of `GroupBy`.
use fuck.Base.{
  ℕ, ◌+◌, ◌-◌, ◌/◌, ◌≤◌, ◌<◌, ◌≡◌, refl, sym, ap, ◌∙◌, ◌⊎◌, inl, inr, true, false, List, [], ◌∷◌,
  ◌++◌, some, length, take, drop, ltb, arith, Bool-cases, ltb→lt, if◌then◌else◌, length-append,
  length-take, length-drop, append_assoc, append-nil, ◌≢◌,
}
use fuck.Base.Equality.{Eq}
use fuck.Base.Int.{pos, ◌-ℤ◌}
use fuck.Wrapper.Slice.{
  filter, map_slice, HidePosition, pos_right, pos_left, pos_center, other, shorten, limit, group_of,
  put_group, group_all, group_by,
}

not_lt : (a b : ℕ) → ltb a b ≡ false → b ≤ a
not_lt a b h = ground arith

module _ {ℓ} {A : Type ℓ} where
  shorten_lem :
      (s : List A) (left : ℕ) (hide_position : HidePosition) (many_suffix : List A)
      → left < length s
      → hide_position ≢ other
      → (r : List A) × (shorten s (pos left) hide_position many_suffix ≡ some r)
        × (length r ≡ left + length many_suffix)
  unfolding shorten
  shorten_lem s left pos_right many_suffix h p = (
    take left s ++ many_suffix,
    refl,
    omega (arith, length-append (take left s) many_suffix, length-take left s),
  )
  shorten_lem s left pos_left many_suffix h p = (
    many_suffix ++ drop (length s - left) s,
    refl,
    omega (
      arith,
      length-append many_suffix (drop (length s - left) s),
      length-drop (length s - left) s,
    ),
  )
  shorten_lem s left pos_center many_suffix h p = (
    take (left / 2) s ++ many_suffix ++ drop (length s - (left - left / 2)) s,
    refl,
    omega (
      arith,
      length-append (take (left / 2) s ++ many_suffix) (drop (length s - (left - left / 2)) s),
      length-append (take (left / 2) s) many_suffix,
      length-take (left / 2) s,
      length-drop (length s - (left - left / 2)) s,
    ),
  )
  shorten_lem s left other many_suffix h p = absurd (p refl)

  -- `Limit` to n items, with a position that it knows and a suffix of at most n items, never panics:
  -- a slice that fits beside the suffix is given back, and any other becomes one of exactly n items.
  pub limit_lem :
      (s : List A) (n : ℕ) (hide_position : HidePosition) (many_suffix : List A)
      → length many_suffix ≤ n
      → hide_position ≢ other
      → ((length s + length many_suffix ≤ n) × (limit s (pos n) hide_position many_suffix ≡ some s))
        ⊎ ((r : List A) × (limit s (pos n) hide_position many_suffix ≡ some r) × (length r ≡ n))
  unfolding limit ◌-ℤ◌
  limit_lem s n hide_position many_suffix h p =
      let left : pos n -ℤ pos (length many_suffix) ≡ pos (n - length many_suffix) = ground arith in
      elim (Bool-cases (ltb (n - length many_suffix) (length s))) [
        | inr fits ↦
            let test : ltb (n - length many_suffix + 0) (length s + 0) ≡ false = ground arith in
            inl
              (omega (arith, not_lt (n - length many_suffix) (length s) fits), rw (left, test) refl)
        | inl long ↦
            let test : ltb (n - length many_suffix + 0) (length s + 0) ≡ true = ground arith in
            let natural : ltb (n + 0) 0 ≡ false = ground arith in
            let (r, eq, l) =
              shorten_lem s (n - length many_suffix) hide_position many_suffix
                (ltb→lt (n - length many_suffix) (length s) long) p in
            inr (r, rw (left, test, natural) eq, omega (arith, l))
      ]

module _ {ℓ κ} {K : Type ℓ} {V : Type κ} ⦃e : Eq K⦄ where
  group_of-put_group :
      (k key : K) (of : List V) (group : List (K × List V))
      → group_of k (put_group key of group) ≡ (if e.beq k key then of else group_of k group)
  unfolding group_of put_group
  group_of-put_group k key of [] = refl
  group_of-put_group k key of (entry ∷ group) = elim (Bool-cases (e.beq key entry.0)) [
    | inl eq ↦ elim (Bool-cases (e.beq k key)) [
      | inl here ↦ rw (eq, here) refl
      | inr there ↦
          let apart : e.beq k entry.0 ≡ false =
            ap (e.beq k) (sym ((e.beq_iff key entry.0).0 eq)) ∙ there in
          rw (eq, there, apart) refl
    ]
    | inr ne ↦ elim (Bool-cases (e.beq k key)) [
      | inl here ↦
          let apart : e.beq k entry.0 ≡ false =
            ap (λ x. e.beq x entry.0) ((e.beq_iff k key).0 here) ∙ ne in
          rw (ne, apart, here) (group_of-put_group k key of group ∙ rw here refl)
      | inr there ↦
          rw (ne, there)
            (ap (λ rest. if e.beq k entry.0 then entry.1 else rest)
              (group_of-put_group k key of group ∙ rw there refl))
    ]
  ]

  module _ {ι} {A : Type ι} (f : A → K × V) where
    -- the values of the items with a key, in order
    pub values_of : K → List A → List V
    values_of k old = map_slice (filter (λ item. e.beq k (f item).0) old) (λ item. (f item).1)

    group_all_lem :
        (k : K) (group : List (K × List V)) (old : List A)
        → group_of k (group_all f group old) ≡ group_of k group ++ values_of k old
    unfolding group_all values_of filter map_slice
    group_all_lem k group [] = sym (append-nil (group_of k group))
    group_all_lem k group (item ∷ old) =
        let key = (f item).0 in
        let of = group_of key group ++ (f item).1 ∷ [] in
        let next = group_all_lem k (put_group key of group) old in
        let now = group_of-put_group k key of group in
        elim (Bool-cases (e.beq k key)) [
          | inl here ↦
              let same_group : group_of key group ≡ group_of k group =
                ap (λ x. group_of x group) (sym ((e.beq_iff k key).0 here)) in
              let now' : group_of k (put_group key of group) ≡ group_of k group ++ (f item).1 ∷ [] =
                now ∙ rw (here, same_group) refl in
              let kept : values_of k (item ∷ old) ≡ (f item).1 ∷ values_of k old = rw here refl in
              next
              ∙ (ap (λ g. g ++ values_of k old) now'
                  ∙ (append_assoc (group_of k group) ((f item).1 ∷ []) (values_of k old)
                      ∙ ap (λ vs. group_of k group ++ vs) (sym kept)))
          | inr there ↦
              let now' : group_of k (put_group key of group) ≡ group_of k group =
                now ∙ rw there refl in
              let left : values_of k (item ∷ old) ≡ values_of k old = rw there refl in
              next
              ∙ (ap (λ g. g ++ values_of k old) now' ∙ ap (λ vs. group_of k group ++ vs) (sym left))
        ]

    -- `GroupBy` puts under each key the values of exactly the items with that key, in their order.
    pub group_of-group_by : (k : K) (old : List A) → group_of k (group_by old f) ≡ values_of k old
    unfolding group_by group_of
    group_of-group_by k old = group_all_lem k [] old
