-- ===== src/Wrapper/Slice/Tests.antt =====
-- Runs of the functions on slices, and instances of the theorems.
use fuck.Base.{
  codes, same, ◌==◌, if◌then◌else◌, ℕ, ◌%◌, ◌≡◌, refl, Bool, true, false, List, [], ◌∷◌, none, some,
  arith, ap, ◌≢◌,
}
use fuck.Base.Equality.{nat_eq}
use fuck.Base.Int.{pos, ◌-ℤ◌}
use fuck.Wrapper.Maps.{lookup, merge, rightmost, lookup-merge}
use fuck.Wrapper.Values.{default_pointer, default_number, m}
use fuck.Wrapper.Slice.OneOrMore.{
  Json, alias, scalar, contains, marshal_json, unmarshal_json, unmarshal_yaml,
}
use fuck.Wrapper.Slice.{limit, pos_right, pos_left, pos_center, other, HidePosition}

abbrev five : List ℕ
five = 1 ∷ 2 ∷ 3 ∷ 4 ∷ 5 ∷ []

abbrev dots : List ℕ
dots = 0 ∷ []

limit_runs :
    (limit five (pos 4) pos_right dots ≡ some (1 ∷ 2 ∷ 3 ∷ 0 ∷ []))
    × (limit five (pos 4) pos_left dots ≡ some (0 ∷ 3 ∷ 4 ∷ 5 ∷ []))
    × (limit five (pos 4) pos_center dots ≡ some (1 ∷ 0 ∷ 4 ∷ 5 ∷ []))
    × (limit five (pos 4) other dots ≡ some five)
    × (limit five (pos 0) pos_right dots ≡ none)
unfolding limit ◌-ℤ◌
limit_runs = (refl, refl, refl, refl, refl)

-- whether a position is the unknown one
abbrev is_other : HidePosition → Bool
is_other other = true
is_other _ = false

center_known : pos_center ≢ other
center_known h = absurd (ground (arith, ap is_other h))

-- the parity of a number, and the number
abbrev parity : ℕ → ℕ × ℕ
parity n = (n % 2, n)

-- three maps from numbers to numbers
abbrev maps : List (List (ℕ × ℕ))
maps = ((1, 10) ∷ (2, 20) ∷ []) ∷ ((2, 21) ∷ (3, 31) ∷ []) ∷ ((3, 32) ∷ []) ∷ []

lookup-merge_example : lookup 2 (merge maps) ≡ rightmost 2 none maps
lookup-merge_example = lookup-merge 2 maps refl

merge_run : merge maps ≡ (1, 10) ∷ (2, 21) ∷ (3, 32) ∷ []
unfolding merge
merge_run = refl

value_runs :
    (default_pointer {A = ℕ} (none ∷ some 3 ∷ some 4 ∷ []) ≡ some 3)
    × (default_number (0 ∷ 5 ∷ []) ≡ 5)
    × (m {A = ℕ} {E = ℕ} 3 (some 4) ≡ none)
value_runs = (refl, refl, refl)

-- With a method `Equal` the first item decides alone, without one every item is compared.
second_item :
    (contains (some ◌==◌) ◌==◌ (1 ∷ 2 ∷ []) 2 ≡ false) × (contains none ◌==◌ (1 ∷ 2 ∷ []) 2 ≡ true)
unfolding contains
second_item = (refl, refl)

-- numbers of one digit as JSON
abbrev digits_json : Json ℕ
digits_json = record {
  decode_all = λ data_. if same data_ (codes "[1,2]") then some (1 ∷ 2 ∷ []) else none;
  decode_one = λ data_. if same data_ (codes "7") then some 7 else none;
  encode_all = λ s. some (codes "[1,2]");
  encode_one = λ c. some (codes "7");
  is_nil_interface = λ c. false;
}

one_or_more :
    (marshal_json digits_json (7 ∷ []) ≡ some (codes "7"))
    × (unmarshal_json digits_json (codes "7") ≡ some (7 ∷ []))
    × (marshal_json digits_json (1 ∷ 2 ∷ []) ≡ some (codes "[1,2]"))
    × (unmarshal_json digits_json (codes "[1,2]") ≡ some (1 ∷ 2 ∷ []))
    × (unmarshal_yaml {T = ℕ} (alias (scalar (some 7))) ≡ some (7 ∷ []))
unfolding marshal_json unmarshal_json unmarshal_yaml
one_or_more = (refl, refl, refl, refl, refl)
