-- ===== src/Signals/Stop.antt =====
-- `safeStop` among the other goroutines, a step for each action that they can see.
use fuck.Base.{ℕ, suc, ◌+◌, ◌≡◌, Bool, true, false, List, [], ◌∷◌, ◌++◌, some, if◌then◌else◌, ◌==◌}
use fuck.Base.Int.{ℤ}
use fuck.Signals.{Handler, level_max, new_handler, add_for, wait_for, pre_stop, level_funcs}

-- Where the goroutine stands that holds the mutex in `safeStop`. `idle` is a free mutex, `level k`
-- the head of the loop with k levels to go, `calling` the wait for the functions of a level (which
-- goroutines have not begun, and which run), `waiting` the wait for the wait group of the level,
-- `exiting` the call of `exitFunc`, and `crashed` a panic, which ends the process.
pub data Pc (F : Type 0) : Type 0 where
  idle : Pc F
  level : (k : ℕ) → Pc F
  calling : (k : ℕ) (pending running : List F) → Pc F
  waiting : (k : ℕ) → Pc F
  exiting : Pc F
  crashed : Pc F

-- `callers` are the calls of `safeStop` at the mutex, `timers` the timers that have not fired,
-- `exits` the calls of `exitFunc`, and `returned` the stop functions of each level that have
-- returned.
pub record System (F : Type 0) : Type 0 where
  pub handler : Handler F
  pub pc : Pc F
  pub callers : ℕ
  pub timers : ℕ
  pub exits : ℕ
  pub returned : ℕ → List F

module _ {F : Type 0} where
  abbrev pub update : (ℕ → List F) → ℕ → List F → ℕ → List F
  update returned k fs j = if j == k then fs else returned j

  abbrev pub is_alive : Pc F → Bool
  is_alive crashed = false
  is_alive _ = true

  pub data Step (s : System F) : System F → Type 0 where
    -- the wait groups change and stop functions are registered while nobody holds the mutex
    count :
        (lvl : ℕ) (delta : ℤ) {h : Handler F}
        → is_alive s.pc ≡ true
        → add_for lvl delta s.handler ≡ some h
        → Step s (record s { handler = h })
    register :
        (lvl : ℕ) (f : F) {h : Handler F}
        → s.pc ≡ idle
        → pre_stop lvl f s.handler ≡ some h
        → Step s (record s { handler = h })
    -- `safeStop` starts its timer and goes to the mutex
    call :
        is_alive s.pc ≡ true → Step s (record s { callers = s.callers + 1; timers = s.timers + 1 })
    time_out :
        {t : ℕ}
        → is_alive s.pc ≡ true
        → s.timers ≡ suc t
        → Step s (record s { timers = t; exits = s.exits + 1 })
    lock :
        {c : ℕ}
        → s.pc ≡ idle
        → s.callers ≡ suc c
        → s.handler.stopped ≡ false
        → Step s (record s {
          pc = level (level_max + 1);
          callers = c;
          handler = record (s.handler) { stopped = true };
        })
    -- a second close of `stopCh`
    close_again :
        {c : ℕ}
        → s.pc ≡ idle
        → s.callers ≡ suc c
        → s.handler.stopped ≡ true
        → Step s (record s { pc = crashed; callers = c })
    launch :
        (k : ℕ)
        → s.pc ≡ level (suc k)
        → Step s (record s { pc = calling k (level_funcs s.handler k) [] })
    begin :
        (k : ℕ) (f : F) (before after running : List F)
        → s.pc ≡ calling k (before ++ f ∷ after) running
        → Step s (record s { pc = calling k (before ++ after) (f ∷ running) })
    finish :
        (k : ℕ) (f : F) (pending before after : List F)
        → s.pc ≡ calling k pending (before ++ f ∷ after)
        → Step s (record s {
          pc = calling k pending (before ++ after);
          returned = update s.returned k (f ∷ s.returned k);
        })
    join : (k : ℕ) → s.pc ≡ calling k [] [] → Step s (record s { pc = waiting k })
    drain :
        (k : ℕ) {h : Handler F}
        → s.pc ≡ waiting k
        → wait_for k s.handler ≡ some h
        → Step s (record s { handler = h; pc = level k })
    exit : s.pc ≡ level 0 → Step s (record s { pc = exiting; exits = s.exits + 1 })
    -- an `exitFunc` that returns
    unlock : s.pc ≡ exiting → Step s (record s { pc = idle })

  abbrev pub init : System F
  init = record {
    handler = new_handler;
    pc = idle;
    callers = 0;
    timers = 0;
    exits = 0;
    returned = λ _. [];
  }

  pub data Steps : System F → System F → Type 0 where
    stay : {s : System F} → Steps s s
    go : {s t u : System F} → Step s t → Steps t u → Steps s u

  pub data Reach : System F → Type 0 where
    start : Reach init
    later : {s t : System F} → Reach s → Step s t → Reach t
