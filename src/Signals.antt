-- ===== src/Signals.antt =====
-- signals/signal.go: `Handler`, which keeps functions to be called before the process stops, by
-- level, and a wait group for each level. A stop function is a value of the type `F`.
pub mod Stop
pub mod Invariant
pub mod Groups
pub mod Register
pub mod Order
pub mod Registered
pub mod Finish
pub mod Tests
use fuck.Base.{
  ℕ, ◌+◌, ◌-◌, Bool, true, false, ◌||◌, List, [], ◌∷◌, ◌++◌, Option, none, some, get_elem?, set,
  replicate, ltb, leb, ◌==◌, if◌then◌else◌,
}
use fuck.Base.Int.{ℤ, pos, negsuc}
use fuck.Base.Monad.{◌>>=◌}

-- `stopped` says that `stopCh` is closed; `wg` is the `sync.Map` of the wait groups, each by its
-- counter.
pub record Handler (F : Type 0) : Type 0 where
  pub stopped : Bool
  pub wg : List (ℕ × ℕ)
  pub pre_stop_funcs : List (List F)

abbrev pub level_root : ℕ
level_root = 0

-- the functions that close a client
abbrev pub level_db : ℕ
level_db = 10

abbrev pub level_request : ℕ
level_request = 20

abbrev pub level_max : ℕ
level_max = 31

-- `LoadOrStore` of a new wait group
pub load_or_store : ℕ → List (ℕ × ℕ) → ℕ × List (ℕ × ℕ)
load_or_store level [] = (0, (level, 0) ∷ [])
load_or_store level (entry ∷ wg) =
    let rest = load_or_store level wg in
    if entry.0 == level then (entry.1, entry ∷ wg) else (rest.0, entry ∷ rest.1)

-- the counter of a wait group set to another number
pub store : ℕ → ℕ → List (ℕ × ℕ) → List (ℕ × ℕ)
store level n [] = []
store level n (entry ∷ wg) =
    if entry.0 == level then (entry.0, n) ∷ wg else entry ∷ store level n wg

-- `(*sync.WaitGroup).Add` panics if the counter would be negative.
pub add_counter : ℕ → ℤ → Option ℕ
add_counter n (pos delta) = some (n + delta)
add_counter n (negsuc delta) = if leb (1 + delta) n then some (n - (1 + delta)) else none

module _ {F : Type 0} where
  -- the counter of the wait group, and the handler that has it
  unfoldable pub get_wait_group : ℕ → Handler F → ℕ × Handler F
  unfolding load_or_store
  get_wait_group level s =
      let found = load_or_store level s.wg in (found.0, record s { wg = found.1 })

  -- none for a panic
  unfoldable pub add_for : ℕ → ℤ → Handler F → Option (Handler F)
  unfolding get_wait_group store add_counter
  add_for level delta s =
      let found = get_wait_group level s in
      do n ← add_counter found.0 delta; some (record found.1 { wg = store level n found.1.wg })

  abbrev pub done_for : ℕ → Handler F → Option (Handler F)
  done_for level s = add_for level (negsuc 0) s

  -- none as long as the call blocks
  unfoldable pub wait_for : ℕ → Handler F → Option (Handler F)
  unfolding get_wait_group
  wait_for level s =
      let found = get_wait_group level s in if found.0 == 0 then some found.1 else none

  abbrev pub add_request : ℤ → Handler F → Option (Handler F)
  add_request delta s = add_for level_request delta s

  abbrev pub done_request : Handler F → Option (Handler F)
  done_request s = done_for level_request s

  abbrev pub wait_request : Handler F → Option (Handler F)
  wait_request s = wait_for level_request s

  abbrev pub add : ℤ → Handler F → Option (Handler F)
  add delta s = add_for level_root delta s

  abbrev pub done : Handler F → Option (Handler F)
  done s = done_for level_root s

  abbrev pub wait : Handler F → Option (Handler F)
  wait s = wait_for level_root s

  -- an index out of range panics
  unfoldable pub pre_stop : ℕ → F → Handler F → Option (Handler F)
  pre_stop level f s = if ltb level_max level || ltb level level_root then none else do
    fs ← get_elem? s.pre_stop_funcs level
    some (record s { pre_stop_funcs = set s.pre_stop_funcs level (fs ++ f ∷ []) })

  abbrev pub new_handler : Handler F
  new_handler = record { stopped = false; wg = []; pre_stop_funcs = replicate (level_max + 1) [] }

  -- the stop functions of a level, in the order in which they were registered
  unfoldable pub level_funcs : Handler F → ℕ → List F
  level_funcs s level = or_empty (get_elem? s.pre_stop_funcs level)
    where
      or_empty : Option (List F) → List F
      or_empty none = []
      or_empty (some fs) = fs

-- The package's variables: `once` has run or not, `stopHandler`, and the number of goroutines that
-- wait for the first signal.
pub record Globals (F : Type 0) : Type 0 where
  pub once : Bool
  pub stop_handler : Option (Handler F)
  pub listeners : ℕ

module _ {F : Type 0} where
  unfoldable pub setup_signal_handler : Globals F → Option (Handler F) × Globals F
  setup_signal_handler g =
      if g.once
      then (g.stop_handler, g)
      else let g' : Globals F = record {
        once = true;
        stop_handler = some new_handler;
        listeners = g.listeners + 1;
      } in
        (g'.stop_handler, g')

  -- none for a panic
  abbrev pub signal_handler : Globals F → Option (Handler F)
  signal_handler g = g.stop_handler
