-- ===== src/Wrapper/Maps.antt =====
-- wrapper/map.go: maps as lists of entries, none of which has the key of another. A function that
-- ranges over a map takes the order in which the entries are met.
use fuck.Base.{
  ◌≡◌, refl, ap, ◌∙◌, Bool, true, false, not, ◌&&◌, ◌||◌, List, [], ◌∷◌, ◌++◌, Option, none, some,
  arith, inl, inr, Bool-cases, if◌then◌else◌,
}
use fuck.Base.Equality.{Eq, beq-sym}
use fuck.Sets.Set.{Sort}

-- the value `v`, or `d`
abbrev pub or_else {κ} : {V : Type κ} → Option V → Option V → Option V
or_else d none = d
or_else d (some v) = some v

module _ {ℓ κ} {K : Type ℓ} {V : Type κ} ⦃e : Eq K⦄ where
  -- `m[key]`
  abbrev pub lookup : K → List (K × V) → Option V
  lookup key [] = none
  lookup key (entry ∷ m) = if e.beq key entry.0 then some entry.1 else lookup key m

  -- `m[key] = val`
  abbrev pub put : K → V → List (K × V) → List (K × V)
  put key val [] = (key, val) ∷ []
  put key val (entry ∷ m) =
      let later = put key val m in if e.beq key entry.0 then (key, val) ∷ m else entry ∷ later

  -- one map into another
  abbrev pub put_all : List (K × V) → List (K × V) → List (K × V)
  put_all merged [] = merged
  put_all merged (entry ∷ m) = put_all (put entry.0 entry.1 merged) m

  abbrev pub merge_into : List (K × V) → List (List (K × V)) → List (K × V)
  merge_into merged [] = merged
  merge_into merged (m ∷ maps) = merge_into (put_all merged m) maps

  -- `Merge`
  unfoldable pub merge : List (List (K × V)) → List (K × V)
  merge maps = merge_into [] maps

  abbrev pub has_key : K → List (K × V) → Bool
  has_key key [] = false
  has_key key (entry ∷ m) = e.beq key entry.0 || has_key key m

  -- no two entries with one key
  abbrev pub is_map : List (K × V) → Bool
  is_map [] = true
  is_map (entry ∷ m) = not (has_key entry.0 m) && is_map m

  abbrev pub all_maps : List (List (K × V)) → Bool
  all_maps [] = true
  all_maps (m ∷ maps) = is_map m && all_maps maps

  -- the value in the last map that has the key, or `d`
  abbrev pub rightmost : K → Option V → List (List (K × V)) → Option V
  rightmost key d [] = d
  rightmost key d (m ∷ maps) = rightmost key (or_else d (lookup key m)) maps

  lookup-put :
      (key key' : K) (val : V) (m : List (K × V))
      → lookup key (put key' val m) ≡ (if e.beq key key' then some val else lookup key m)
  lookup-put key key' val [] = refl
  lookup-put key key' val (entry ∷ m) = elim (Bool-cases (e.beq key' entry.0)) [
    | inl same_ ↦
        let k : key' ≡ entry.0 = (e.beq_iff key' entry.0).0 same_ in
        ground (arith, same_, ap (e.beq key) k)
    | inr other ↦ elim (Bool-cases (e.beq key entry.0)) [
      | inl here ↦
          let k : key ≡ entry.0 = (e.beq_iff key entry.0).0 here in
          let apart : e.beq key key' ≡ false = beq-sym key key' ∙ ap (e.beq key') k ∙ other in
          ground (arith, other, here, apart)
      | inr there ↦ ground (arith, other, there, lookup-put key key' val m)
    ]
  ]

  missing :
      (key key' : K) (m : List (K × V))
      → e.beq key key' ≡ true
      → has_key key' m ≡ false
      → lookup key m ≡ none
  missing key key' [] same_ h = refl
  missing key key' (entry ∷ m) same_ h =
      let k : key ≡ key' = (e.beq_iff key key').0 same_ in
      let other : e.beq key entry.0 ≡ false = ap (λ x. e.beq x entry.0) k ∙ ground (arith, h) in
      rw other (missing key key' m same_ (ground (arith, h)))

  lookup-put_all :
      (key : K) (merged m : List (K × V))
      → is_map m ≡ true
      → lookup key (put_all merged m) ≡ or_else (lookup key merged) (lookup key m)
  lookup-put_all key merged [] h = refl
  lookup-put_all key merged (entry ∷ m) h =
      let rest = lookup-put_all key (put entry.0 entry.1 merged) m (ground (arith, h)) in
      let now = lookup-put key entry.0 entry.1 merged in
      elim (Bool-cases (e.beq key entry.0)) [
        | inl here ↦
            let gone : lookup key m ≡ none = missing key entry.0 m here (ground (arith, h)) in
            rw (here, rest, now, here, gone) refl
        | inr there ↦ rw (there, rest, now, there) refl
      ]

  lookup-merge_into :
      (key : K) (merged : List (K × V)) (maps : List (List (K × V)))
      → all_maps maps ≡ true
      → lookup key (merge_into merged maps) ≡ rightmost key (lookup key merged) maps
  lookup-merge_into key merged [] h = refl
  lookup-merge_into key merged (m ∷ maps) h =
      lookup-merge_into key (put_all merged m) maps (ground (arith, h))
      ∙ ap (λ d. rightmost key d maps) (lookup-put_all key merged m (ground (arith, h)))

  -- `Merge` has for each key the value of the last map that has the key, in whatever orders the maps
  -- are met.
  pub lookup-merge :
      (key : K) (maps : List (List (K × V)))
      → all_maps maps ≡ true
      → lookup key (merge maps) ≡ rightmost key none maps
  unfolding merge
  lookup-merge key maps h = lookup-merge_into key [] maps h

module _ {ℓ κ} {K : Type ℓ} {V : Type κ} where
  -- the entries of the maps, one map after another
  abbrev pub all_entries : List (List (K × V)) → List (K × V)
  all_entries [] = []
  all_entries (kv_map ∷ kvs) = kv_map ++ all_entries kvs

  -- `NewSortedMap`, for `sort.Sort` and `<` on the keys
  unfoldable pub new_sorted_map : Sort (K × V) → (K → K → Bool) → List (List (K × V)) → List (K × V)
  new_sorted_map sort less kvs = sort (λ a b. less a.0 b.0) (all_entries kvs)
