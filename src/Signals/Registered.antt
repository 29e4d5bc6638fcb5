-- ===== src/Signals/Registered.antt =====
-- A stop function that is registered stays registered, up to the end of `safeStop`.
use fuck.Base.{
  ℕ, ◌+◌, ◌≤◌, ◌≡◌, subst, true, [], ◌∷◌, some, arith, inl, inr, length, Bool-cases, ltb, ◌==◌,
}
use fuck.Signals.{Handler, level_max, pre_stop, level_funcs}
use fuck.Signals.Invariant.{Alike, add_for-Alike, wait_for-Alike, Reach-Inv}
use fuck.Signals.Order.{exit_last}
use fuck.Signals.Register.{pre_stop-level_funcs, pre_stop_refused}
use fuck.Signals.Stop.{
  idle, exiting, System, Step, count, register, call, time_out, lock, close_again, launch, begin,
  finish, join, drain, exit, unlock, Reach, later, Steps, stay, go,
}
use mathlib.Core.List.{Mem, mem-append_left, mem-append_right, mem-cons_self}
use mathlib.Core.List.Perm

module _ {F : Type 0} (f : F) (j : ℕ) where
  abbrev Registered : Handler F → Type 0
  Registered h = Mem f (level_funcs h j)

  Registered-Alike : (s h : Handler F) → Alike h s → Registered s → Registered h
  unfolding level_funcs
  Registered-Alike s h a m = rw a.0 m

  -- `PreStop` of any function, at any level
  Registered-pre_stop :
      (lvl : ℕ) (g : F) (s h : Handler F)
      → length s.pre_stop_funcs ≡ level_max + 1
      → pre_stop lvl g s ≡ some h
      → Registered s
      → Registered h
  Registered-pre_stop lvl g s h size e m = elim (Bool-cases (ltb level_max lvl)) [
    | inl high ↦ absurd (ground (arith, e, high, pre_stop_refused lvl g s))
    | inr low ↦
        let (h', made, funcs) = pre_stop-level_funcs lvl g s size (ground (arith, low)) in
        let same : h' ≡ h = cc in
        subst Registered same (elim (Bool-cases (j == lvl)) [
          | inl here ↦ rw (funcs j, here) (mem-append_left (g ∷ []) m)
          | inr there ↦ rw (funcs j, there) m
        ])
  ]

  Registered-Step :
      {s t : System F} → Reach s → Step s t → Registered s.handler → Registered t.handler
  unfolding level_funcs
  Registered-Step {s} r (count lvl delta {h} alive e) m =
      Registered-Alike s.handler h (add_for-Alike lvl delta s.handler h e) m
  Registered-Step {s} r (register lvl g {h} at e) m =
      Registered-pre_stop lvl g s.handler h (Reach-Inv r).size e m
  Registered-Step r (call alive) m = m
  Registered-Step r (time_out alive e) m = m
  Registered-Step r (lock at e o) m = m
  Registered-Step r (close_again at e o) m = m
  Registered-Step r (launch k at) m = m
  Registered-Step r (begin k g before after running at) m = m
  Registered-Step r (finish k g pending before after at) m = m
  Registered-Step r (join k at) m = m
  Registered-Step {s} r (drain k {h} at e) m =
      Registered-Alike s.handler h (wait_for-Alike k s.handler h e) m
  Registered-Step r (exit at) m = m
  Registered-Step r (unlock at) m = m

  -- A function that is registered in a reachable state has returned when `safeStop`, later on, calls
  -- `exitFunc`.
  pub returned_by_exit :
      {s t : System F}
      → Reach s
      → Mem f (level_funcs s.handler j)
      → Steps s t
      → t.pc ≡ exiting
      → Mem f (t.returned j)
  returned_by_exit r m stay at = (Perm.mem_iff {a = f} (exit_last r at j)).1 m
  returned_by_exit r m (go st run) at =
      returned_by_exit (later r st) (Registered-Step r st m) run at

-- In a reachable state in which nobody stops the process, `PreStop` for a level up to 31 succeeds, and
-- the function has returned when `safeStop`, later on, calls `exitFunc`.
pub pre_stop-exiting :
    {F : Type 0} (lvl : ℕ) (f : F) (s : System F)
    → Reach s
    → s.pc ≡ idle
    → lvl ≤ level_max
    → (h : Handler F) × (pre_stop lvl f s.handler ≡ some h)
      × ((t : System F)
          → Steps (record s { handler = h }) t
          → t.pc ≡ exiting
          → Mem f (t.returned lvl))
pre_stop-exiting lvl f s r at le =
    let (h, made, funcs) = pre_stop-level_funcs lvl f s.handler (Reach-Inv r).size le in
    let here : (lvl == lvl) ≡ true = ground arith in
    let registered : Mem f (level_funcs h lvl) =
      rw (funcs lvl, here) (mem-append_right (level_funcs s.handler lvl) mem-cons_self) in
    (h, made, λ t run. returned_by_exit f lvl (later r (register lvl f at made)) registered run)
