-- ===== src/Signals/Register.antt =====
-- What `PreStop` does to the functions of the levels.
use fuck.Base.{
  ◌≢◌, ℕ, zero, suc, ◌+◌, ◌≤◌, ◌<◌, ◌≡◌, refl, true, false, ◌||◌, List, [], ◌∷◌, ◌++◌, none, some,
  length, get_elem?, set, ltb, arith, inl, inr, Bool-cases, get_elem?-set_self, get_elem?-set_ne,
  if◌then◌else◌, ◌==◌,
}
use fuck.Signals.{Handler, level_root, level_max, pre_stop, level_funcs}

inside : {A : Type 0} (xs : List A) (i : ℕ) → i < length xs → (x : A) × (get_elem? xs i ≡ some x)
inside [] i h = absurd (omega arith)
inside (x ∷ xs) zero h = (x, refl)
inside (x ∷ xs) (suc i) h = inside xs i (omega arith)

module _ {F : Type 0} (lvl : ℕ) (f : F) (s : Handler F) where
  with_funcs : List F → Handler F
  with_funcs fs = record s { pre_stop_funcs = set s.pre_stop_funcs lvl (fs ++ f ∷ []) }

  pre_stop-some :
      (fs : List F)
      → lvl ≤ level_max
      → get_elem? s.pre_stop_funcs lvl ≡ some fs
      → pre_stop lvl f s ≡ some (with_funcs fs)
  unfolding pre_stop with_funcs
  pre_stop-some fs le e =
      let low : (ltb level_max lvl || ltb lvl level_root) ≡ false = ground arith in rw (low, e) refl

  level_funcs-with_funcs :
      (fs : List F) (j : ℕ)
      → lvl < length s.pre_stop_funcs
      → get_elem? s.pre_stop_funcs lvl ≡ some fs
      → level_funcs (with_funcs fs) j
        ≡ (if j == lvl then level_funcs s j ++ f ∷ [] else level_funcs s j)
  unfolding with_funcs level_funcs
  level_funcs-with_funcs fs j lt e = elim (Bool-cases (j == lvl)) [
    | inl here ↦
        let k : j ≡ lvl = ground arith in
        rw (here, k, get_elem?-set_self s.pre_stop_funcs lvl (fs ++ f ∷ []) lt, e) refl
    | inr there ↦
        let k : lvl ≢ j = λ q. absurd (ground (arith, q, there)) in
        rw (there, get_elem?-set_ne s.pre_stop_funcs (fs ++ f ∷ []) k) refl
  ]

-- On a handler with the 32 levels `PreStop` does not panic for a level up to 31: it adds the function
-- behind those of the level, and to no other level.
pub pre_stop-level_funcs :
    {F : Type 0} (lvl : ℕ) (f : F) (s : Handler F)
    → length s.pre_stop_funcs ≡ level_max + 1
    → lvl ≤ level_max
    → (h : Handler F) × (pre_stop lvl f s ≡ some h)
      × ((j : ℕ)
          → level_funcs h j ≡ (if j == lvl then level_funcs s j ++ f ∷ [] else level_funcs s j))
pre_stop-level_funcs lvl f s size le =
    let (fs, e) = inside s.pre_stop_funcs lvl (omega arith) in
    (
      with_funcs lvl f s fs,
      pre_stop-some lvl f s fs le e,
      λ j. level_funcs-with_funcs lvl f s fs j (omega arith) e,
    )

pub pre_stop_refused :
    {F : Type 0} (lvl : ℕ) (f : F) (s : Handler F) → level_max < lvl → pre_stop lvl f s ≡ none
unfolding pre_stop
pre_stop_refused lvl f s lt = let high : ltb level_max lvl ≡ true = ground arith in rw high refl
