-- ===== src/Signals/Finish.antt =====
-- `safeStop` comes to its call of `exitFunc` if the stop functions return.
use fuck.Base.{
  ℕ, zero, suc, ◌≡◌, refl, sym, subst, ◌∙◌, Bool, true, false, List, [], ◌∷◌, some, arith, ◌==◌,
}
use fuck.Signals.{Handler, load_or_store, get_wait_group, wait_for, level_funcs}
use fuck.Signals.Groups.{count, count_others, wait_for_lem}
use fuck.Signals.Stop.{
  Pc, idle, level, calling, waiting, exiting, crashed, System, Step, launch, begin, finish, join,
  drain, exit, Steps, stay, go,
}

module _ {F : Type 0} where
  abbrev pub is_stopping : Pc F → Bool
  is_stopping (level _) = true
  is_stopping (calling _ _ _) = true
  is_stopping (waiting _) = true
  is_stopping _ = false

  abbrev pub IsQuiet : Handler F → Type 0
  IsQuiet h = (j : ℕ) → count j h ≡ 0

  pub no_groups-IsQuiet : (h : Handler F) → h.wg ≡ [] → IsQuiet h
  unfolding get_wait_group load_or_store
  no_groups-IsQuiet h e j = rw e refl

  -- a run from `s` to a place, with the handler of `s`
  abbrev Comes : System F → Pc F → Type 0
  Comes s pc = (t : System F) × Steps s t × (t.pc ≡ pc) × (t.handler ≡ s.handler)

  calls_return :
      (k : ℕ) (pending running : List F) (s : System F)
      → s.pc ≡ calling k pending running
      → Comes s (waiting k)
  calls_return k [] [] s e = (_, go (join k e) stay, refl, refl)
  calls_return k (f ∷ pending) [] s e =
      let (t, run, at, same) = calls_return k pending (f ∷ []) _ refl in
      (t, go (begin k f [] pending [] e) run, at, same)
  calls_return k pending (f ∷ running) s e =
      let (t, run, at, same) = calls_return k pending running _ refl in
      (t, go (finish k f pending [] running e) run, at, same)

  Steps-trans : {s t u : System F} → Steps s t → Steps t u → Steps s u
  Steps-trans stay b = b
  Steps-trans (go st a) b = go st (Steps-trans a b)

  abbrev Exits : System F → Type 0
  Exits s = (t : System F) × Steps s t × (t.pc ≡ exiting)

  before : {s t : System F} → Steps s t → Exits t → Exits s
  before run (u, rest, at) = (u, Steps-trans run rest, at)

  quiet-drain :
      (k : ℕ) (s : System F)
      → s.pc ≡ waiting k
      → IsQuiet s.handler
      → (t : System F) × Step s t × (t.pc ≡ level k) × IsQuiet t.handler
  quiet-drain k s e quiet =
      let zero_here : (count k s.handler == 0) ≡ true = ground (arith, quiet k) in
      let passed : wait_for k s.handler ≡ some (get_wait_group k s.handler).1 =
        wait_for_lem k s.handler ∙ rw zero_here refl in
      (_, drain k e passed, refl, λ j. count_others j k s.handler ∙ quiet j)

  waiting_exit :
      (k : ℕ)
      → ((s : System F) → s.pc ≡ level k → IsQuiet s.handler → Exits s)
      → (s : System F) → s.pc ≡ waiting k
      → IsQuiet s.handler
      → Exits s
  waiting_exit k pass s e quiet =
      let (t, st, at, quiet') = quiet-drain k s e quiet in before (go st stay) (pass t at quiet')

  calling_exit :
      (k : ℕ)
      → ((s : System F) → s.pc ≡ level k → IsQuiet s.handler → Exits s)
      → (pending running : List F) (s : System F) → s.pc ≡ calling k pending running
      → IsQuiet s.handler
      → Exits s
  calling_exit k pass pending running s e quiet =
      let (t, run, at, same) = calls_return k pending running s e in
      before run (waiting_exit k pass t at (subst IsQuiet (sym same) quiet))

  levels_exit : (k : ℕ) (s : System F) → s.pc ≡ level k → IsQuiet s.handler → Exits s
  levels_exit zero s e quiet = (_, go (exit e) stay, refl)
  levels_exit (suc k) s e quiet =
      before (go (launch k e) stay)
        (calling_exit k (levels_exit k) (level_funcs s.handler k) [] _ refl quiet)

  can_exit :
      (pc : Pc F) (s : System F) → s.pc ≡ pc → is_stopping pc ≡ true → IsQuiet s.handler → Exits s
  can_exit idle s e st quiet = absurd (ground (arith, st))
  can_exit (level k) s e st quiet = levels_exit k s e quiet
  can_exit (calling k pending running) s e st quiet =
      calling_exit k (levels_exit k) pending running s e quiet
  can_exit (waiting k) s e st quiet = waiting_exit k (levels_exit k) s e quiet
  can_exit exiting s e st quiet = absurd (ground (arith, st))
  can_exit crashed s e st quiet = absurd (ground (arith, st))

-- From every state inside the loop of `safeStop` in which all wait groups have the counter 0, some
-- further steps lead to its call of `exitFunc`, so no state of that kind is a deadlock.
pub stop_ends :
    {F : Type 0} (s : System F)
    → is_stopping s.pc ≡ true
    → IsQuiet s.handler
    → (t : System F) × Steps s t × (t.pc ≡ exiting)
stop_ends s st quiet = can_exit s.pc s refl st quiet
