-- ===== src/Sets/ArraySet/Tests.antt =====
-- Runs of `ArraySet`, and instances of the theorems.
use fuck.Base.{ℕ, ◌≡◌, refl, true, List, [], ◌∷◌, none, some, arith}
use fuck.Base.Equality.{nat_eq}
use fuck.Sets.ArraySet.{ArraySet, set_full, FullCallback, list, reset, append, index, include}
use fuck.Sets.ArraySet.Laws.{IsValid, Refines, add_all, append-Refines}

-- room for four, two of them taken
abbrev two : ArraySet ℕ
two = record { arr = 7 ∷ 3 ∷ 0 ∷ 0 ∷ []; next = 2; size = 4 }

abbrev full : ArraySet ℕ
full = record { arr = 7 ∷ 3 ∷ []; next = 2; size = 2 }

two-IsValid : IsValid 0 two
two-IsValid = record { whole = refl; bound = omega arith; free = refl; apart = refl }

full-IsValid : IsValid 0 full
full-IsValid = record { whole = refl; bound = omega arith; free = refl; apart = refl }

abbrev values : List ℕ
values = 3 ∷ 0 ∷ 5 ∷ 6 ∷ 8 ∷ []

-- 0 is never stored, and 8 finds no slot
append_run :
    append {E = ℕ} none values two
    ≡ (some set_full, record { arr = 7 ∷ 3 ∷ 5 ∷ 6 ∷ []; next = 4; size = 4 })
unfolding append
append_run = refl

-- 0 is reported at the first free slot
zero_runs : (include 0 two ≡ true) × (index 0 two ≡ some 2) × (list two ≡ 7 ∷ 3 ∷ [])
unfolding include index
zero_runs = (refl, refl, refl)

append-Refines_example :
    Refines 0 (add_all 0 4 (7 ∷ 3 ∷ []) values) (append {E = ℕ} none values two)
append-Refines_example = append-Refines 0 ℕ values two two-IsValid

-- a callback that does nothing
abbrev ignore : FullCallback ℕ ℕ
ignore s = (none, s)

abbrev flush : FullCallback ℕ ℕ
flush s = (none, reset 0 s)
