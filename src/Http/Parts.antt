-- ===== src/Http/Parts.antt =====
-- http/http.go: the entries of a list with commas, and the host of an address.
use fuck.Base.{
  ℕ, ◌≡◌, refl, sym, ap, ap₂, ◌∙◌, ◌⊎◌, inl, inr, Bool, true, not, ◌&&◌, List, [], ◌∷◌, ◌++◌, none,
  some, Bytes, ◌==◌, ==_iff, Bool-cases, take, suc, arith,
}
use fuck.Http.{host, last_index, split}

-- the parts of a text with a separator in between
pub join : ℕ → List Bytes → Bytes
join sep [] = []
join sep (part ∷ []) = part
join sep (part ∷ p ∷ parts) = part ++ sep ∷ join sep (p ∷ parts)

-- a text without the byte `c`, and such texts
abbrev pub is_free : ℕ → Bytes → Bool
is_free c [] = true
is_free c (x ∷ s) = not (x == c) && is_free c s

abbrev pub all_free : ℕ → List Bytes → Bool
all_free c [] = true
all_free c (part ∷ parts) = is_free c part && all_free c parts

-- the host of an address: what stands before its last colon, or all of it
pub data IsHost (addr : Bytes) : Bytes → Type 0 where
  with_port :
      (name port : Bytes) → addr ≡ name ++ b':' ∷ port → is_free b':' port ≡ true → IsHost addr name
  alone : is_free b':' addr ≡ true → IsHost addr addr

-- a character in front of the first part
join_char :
    (sep x : ℕ) (part : Bytes) (parts : List Bytes)
    → join sep ((x ∷ part) ∷ parts) ≡ x ∷ join sep (part ∷ parts)
unfolding join
join_char sep x part [] = refl
join_char sep x part (p ∷ parts) = refl

split-cons :
    (sep : ℕ) (s : Bytes) → (part : Bytes) × (parts : List Bytes) × (split sep s ≡ part ∷ parts)
unfolding split
split-cons sep [] = ([], [], refl)
split-cons sep (x ∷ s) = elim (Bool-cases (x == sep)) [
  | inl eq ↦ ([], split sep s, rw eq refl)
  | inr ne ↦ let (part, parts, h) = split-cons sep s in (x ∷ part, parts, rw (ne, h) refl)
]

pub join-split : (sep : ℕ) (s : Bytes) → join sep (split sep s) ≡ s
unfolding join split
join-split sep [] = refl
join-split sep (x ∷ s) = elim (Bool-cases (x == sep)) [
  | inl eq ↦
      let (part, parts, h) = split-cons sep s in
      let whole = sym (ap (join sep) h) ∙ join-split sep s in
      rw (eq, h) (ap₂ ◌∷◌ (sym ((==_iff x sep).0 eq)) whole)
  | inr ne ↦
      let (part, parts, h) = split-cons sep s in
      let whole = sym (ap (join sep) h) ∙ join-split sep s in
      rw (ne, h) (join_char sep x part parts ∙ ap (λ t. x ∷ t) whole)
]

pub all_free-split : (sep : ℕ) (s : Bytes) → all_free sep (split sep s) ≡ true
unfolding split
all_free-split sep [] = refl
all_free-split sep (x ∷ s) = elim (Bool-cases (x == sep)) [
  | inl eq ↦ rw eq (all_free-split sep s)
  | inr ne ↦
      let (part, parts, h) = split-cons sep s in
      let free = sym (ap (all_free sep) h) ∙ all_free-split sep s in
      rw (ne, h) (ground (arith, ne, free))
]

-- where the last byte `c` of a text stands
last_index_lem :
    (c : ℕ) (s : Bytes)
    → ((last_index c s ≡ none) × (is_free c s ≡ true))
      ⊎ ((i : ℕ) × (after : Bytes) × (last_index c s ≡ some i)
          × (s ≡ take i s ++ c ∷ after)
          × (is_free c after ≡ true))
unfolding last_index
last_index_lem c [] = inl (refl, refl)
last_index_lem c (x ∷ s) = elim (last_index_lem c s) [
  | inl (no_one, free) ↦ elim (Bool-cases (x == c)) [
    | inl eq ↦ inr (0, s, rw (no_one, eq) refl, ap (λ y. y ∷ s) ((==_iff x c).0 eq), free)
    | inr ne ↦ inl (rw (no_one, ne) refl, rw (ne, free) refl)
  ]
  | inr (i, after, found, whole, free) ↦ inr (suc i, after, rw found refl, ap (◌∷◌ x) whole, free)
]

pub host-IsHost : (addr : Bytes) → IsHost addr (host addr)
unfolding host
host-IsHost addr = elim (last_index_lem b':' addr) [
  | inl (no_one, free) ↦ rw (host, no_one) (alone free)
  | inr (i, after, found, whole, free) ↦ rw (host, found) (with_port (take i addr) after whole free)
]
