-- ===== src/Clients/Nacos/Watch/Tests.antt =====
-- Runs of the watchdog, and examples of the theorems.
use fuck.Base.{ℕ, ◌*◌, ◌≡◌, refl, List, [], ◌∷◌, Option, none, some, Bytes, codes}
use fuck.Clients.Nacos.Watch.{
  Content, WatchItem, register, second, run_item_watch, watch_from, loop_watch, Ticker, ticker,
  backoff_ticker, next_backoff,
}
use fuck.Clients.Nacos.Watch.Changes.{
  listeners, last_seen, watch_all, at_changes, watch_all-at_changes,
}
use fuck.Clients.Nacos.Watch.Laws.{watchdog-IsValid}
use fuck.Clients.Nacos.Watch.Valid.{IsValid}

abbrev item : Bytes → ℕ → WatchItem
item data_id backoff = record {
  data_id = data_id;
  group = codes "g";
  last_hash = none;
  backoff = backoff;
  backoff_start = 0;
  on_changes = codes "l1" ∷ [];
}

abbrev targets : List WatchItem
targets = item (codes "a") 0 ∷ item (codes "b") (4 * second) ∷ []

targets-IsValid : IsValid targets
targets-IsValid = record { backoffs = refl; unique = refl }

watchdog-IsValid_example :
    ((data_id group id : Bytes) → IsValid (register data_id group id targets))
    × ((now : ℕ) (answer : Option Content) (data_id group : Bytes)
        → IsValid (run_item_watch now answer data_id group targets).0)
    × ((t : Ticker) (now : ℕ) (query : Bytes → Bytes → Option Content)
        → IsValid (loop_watch t now query targets).0)
watchdog-IsValid_example = watchdog-IsValid targets targets-IsValid

abbrev answer : Bytes → Option Content
answer md5 = some (record { content_md5 = md5; content = [] })

abbrev calls : List (ℕ × Option Content)
calls = (1, answer (codes "x")) ∷ (2, none) ∷ (3, answer (codes "x")) ∷ (4, answer (codes "y")) ∷ []

watch_all-at_changes_example :
    watch_all (codes "a") (codes "g") calls targets
    ≡ at_changes
        (last_seen (codes "a") (codes "g") targets)
        (listeners (codes "a") (codes "g") targets)
        calls
watch_all-at_changes_example = watch_all-at_changes (codes "a") (codes "g") calls targets refl

watch_run : watch_all (codes "a") (codes "g") calls targets ≡ [] ∷ [] ∷ [] ∷ (codes "l1" ∷ []) ∷ []
unfolding run_item_watch
watch_run = refl

-- the backoff stops at 16 seconds
backoff_run : (next_backoff (8 * second) ≡ 16 * second) × (next_backoff (16 * second) ≡ 16 * second)
backoff_run = (refl, refl)

-- each ticker asks for its own targets
loop_run :
    ((loop_watch ticker 9 (λ d g. none) targets).0
      ≡ record (item (codes "a") second) { backoff_start = 9 } ∷ item (codes "b") (4 * second) ∷ [])
    × ((loop_watch backoff_ticker (5 * second) (λ d g. none) targets).0
        ≡ item (codes "a") 0
          ∷ record (item (codes "b") (8 * second)) { backoff_start = 5 * second }
          ∷ [])
unfolding loop_watch watch_from run_item_watch
loop_run = (refl, refl)
