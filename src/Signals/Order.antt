-- ===== src/Signals/Order.antt =====
-- The order in which `safeStop` calls the stop functions, in every reachable state.
use fuck.Base.{ℕ, ◌<◌, ◌≡◌, List, [], arith}
use fuck.Signals.{level_funcs}
use fuck.Signals.Stop.{calling, exiting, System, Reach}
use fuck.Signals.Invariant.{Standing-here, Reach-Inv}
use mathlib.Core.List.{Perm}

-- While the functions of a level are pending or run, every function that is registered for a higher
-- level has returned, as often as it is registered, and none of a lower level has.
pub stop_order :
    {F : Type 0} {s : System F} {k : ℕ} {pending running : List F}
    → Reach s
    → s.pc ≡ calling k pending running
    → ((j : ℕ) → k < j → Perm (s.returned j) (level_funcs s.handler j))
      × ((j : ℕ) → j < k → s.returned j ≡ [])
stop_order {s} r e =
    let (stopped, above, below, all) = Standing-here s (Reach-Inv r) e in
    (λ j h. above j (omega arith), below)

-- When `safeStop` itself calls `exitFunc`, every stop function has returned, as often as it is
-- registered.
pub exit_last :
    {F : Type 0} {s : System F}
    → Reach s
    → s.pc ≡ exiting
    → (j : ℕ) → Perm (s.returned j) (level_funcs s.handler j)
exit_last {s} r e j =
    let (stopped, above) = Standing-here s (Reach-Inv r) e in above j (omega arith)
