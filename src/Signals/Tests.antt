-- ===== src/Signals/Tests.antt =====
-- Runs of `safeStop`, a stop function being a number, and examples of the theorems.
use fuck.Base.{ℕ, ◌<◌, ◌≡◌, refl, true, [], ◌∷◌, some, none, ◌++◌, replicate, false}
use fuck.Base.Monad.{◌>>=◌}
use fuck.Signals.{Handler, pre_stop, new_handler, level_funcs, Globals, setup_signal_handler}
use fuck.Signals.Stop.{
  update, go, stay, idle, close_again, crashed, level, calling, exiting, System, Step, register,
  call, lock, launch, begin, finish, Steps, Reach, start, later, init,
}
use fuck.Signals.Order.{stop_order, exit_last}
use fuck.Signals.Finish.{IsQuiet, no_groups-IsQuiet, stop_ends}
use mathlib.Core.List.{Perm}

-- two functions at level 31 and one at level 5
abbrev handler1 : Handler ℕ
handler1 = record (new_handler {F = ℕ}) { pre_stop_funcs = replicate 31 [] ++ (1 ∷ []) ∷ [] }

abbrev handler3 : Handler ℕ
handler3 = record (new_handler {F = ℕ}) {
  pre_stop_funcs = replicate 5 [] ++ (2 ∷ []) ∷ replicate 25 [] ++ (1 ∷ 3 ∷ []) ∷ [];
}

pre_stop_results :
    ((pre_stop 31 1 new_handler) ≡ some handler1)
    × ((pre_stop 31 1 new_handler >>= pre_stop 5 2 >>= pre_stop 31 3) ≡ some handler3)
    × (pre_stop 32 4 handler3 ≡ none)
unfolding pre_stop
pre_stop_results = (refl, refl, refl)

-- the second set-up returns the handler of the first
setup_twice :
    let g : Globals ℕ = record { once = false; stop_handler = none; listeners = 0 } in
    let first = setup_signal_handler g in
    (first.0 ≡ some new_handler) × (setup_signal_handler first.1 ≡ first)
unfolding setup_signal_handler
setup_twice = (refl, refl)

abbrev called : System ℕ
called = record init { handler = handler3; callers = 2; timers = 2 }

-- two calls of `safeStop` at the mutex
called-Reach : Reach called
unfolding pre_stop
called-Reach =
    let a = later (later start (register 31 1 refl refl)) (register 5 2 refl refl) in
    later (later (later a (register 31 3 refl refl)) (call refl)) (call refl)

abbrev locked : System ℕ
locked = record called { handler = record handler3 { stopped = true }; callers = 1; pc = level 32 }

abbrev one_left : System ℕ
one_left = record locked { pc = calling 31 [] (3 ∷ []); returned = update (λ _. []) 31 (1 ∷ []) }

locked-Reach : Reach locked
locked-Reach = later called-Reach (lock refl refl refl)

one_left-Reach : Reach one_left
unfolding level_funcs
one_left-Reach =
    let both =
      later (later (later locked-Reach (launch 31 refl)) (begin 31 1 [] (3 ∷ []) [] refl))
        (begin 31 3 [] [] (1 ∷ []) refl) in
    later both (finish 31 1 [] (3 ∷ []) [] refl)

stop_order_example :
    ((j : ℕ) → 31 < j → Perm (one_left.returned j) (level_funcs one_left.handler j))
    × ((j : ℕ) → j < 31 → one_left.returned j ≡ [])
stop_order_example = stop_order one_left-Reach refl

quiet : IsQuiet one_left.handler
quiet = no_groups-IsQuiet one_left.handler refl

stop_ends_example : (t : System ℕ) × Steps one_left t × (t.pc ≡ exiting)
stop_ends_example = stop_ends one_left refl quiet

Reach-Steps : {s t : System ℕ} → Reach s → Steps s t → Reach t
Reach-Steps r stay = r
Reach-Steps r (go st run) = Reach-Steps (later r st) run

abbrev ended : (t : System ℕ) × Steps one_left t × (t.pc ≡ exiting)
ended = stop_ends one_left refl quiet

exit_last_example : Perm (ended.0.returned 5) (level_funcs ended.0.handler 5)
exit_last_example = exit_last (Reach-Steps one_left-Reach ended.1) ended.2 5

-- the second call panics when the first one has let go of the mutex
second_call : Step (record locked { pc = idle }) (record locked { pc = crashed; callers = 0 })
second_call = close_again refl refl refl

abbrev two_requests : Handler ℕ
two_requests = record (new_handler {F = ℕ}) { wg = (0, 1) ∷ (20, 2) ∷ [] }
