-- ===== src/Clients/Nacos/Watch.antt =====
-- clients/nacos/client.go: `watchdog`, which asks for its targets again and again and tells of
-- changes. Times and durations are in nanoseconds.
pub mod Laws
pub mod Valid
pub mod Changes
pub mod Tests
use fuck.Base.{
  ℕ, zero, suc, ◌+◌, ◌*◌, Bool, true, false, not, ◌&&◌, List, [], ◌∷◌, ◌++◌, map, Option, none,
  some, Bytes, get_elem?, set, length, same, ltb, ◌==◌, if◌then◌else◌,
}

-- `ConfigQueryResponse`, by its hash and its content
pub record Content : Type 0 where
  pub content_md5 : Bytes
  pub content : Bytes

-- `onChanges` maps the ids of listeners to functions, and every one of them is called; the order is
-- not fixed by the code. The list holds their ids.
pub record WatchItem : Type 0 where
  pub data_id : Bytes
  pub group : Bytes
  pub last_hash : Option Bytes
  pub backoff : ℕ
  pub backoff_start : ℕ
  pub on_changes : List Bytes

abbrev pub is_for : Bytes → Bytes → WatchItem → Bool
is_for data_id group target = same target.data_id data_id && same target.group group

-- `target.onChanges[id] = onChange` for the first target that fits; none if there is none
pub add_listener : Bytes → Bytes → Bytes → List WatchItem → Option (List WatchItem)
add_listener data_id group id [] = none
add_listener data_id group id (target ∷ targets) =
    let later = add_listener data_id group id targets in
    if is_for data_id group target
    then some (record target { on_changes = target.on_changes ++ id ∷ [] } ∷ targets)
    else elim later [ none ↦ none | some ts ↦ some (target ∷ ts) ]

-- `Register`, with the new id
unfoldable pub register : Bytes → Bytes → Bytes → List WatchItem → List WatchItem
unfolding add_listener
register data_id group id targets = elim (add_listener data_id group id targets) [
  | some targets' ↦ targets'
  | none ↦
      targets
      ++ record {
        data_id = data_id;
        group = group;
        last_hash = none;
        backoff = 0;
        backoff_start = 0;
        on_changes = id ∷ [];
      }
        ∷ []
]

abbrev pub second : ℕ
second = 1000000000

-- The code has `2^8*time.Second`, and `^` is the exclusive or: 2 and 8 seconds have no bit in
-- common.
abbrev pub backoff_bound : ℕ
backoff_bound = 2 + 8 * second

abbrev pub next_backoff : ℕ → ℕ
next_backoff backoff =
    if backoff == 0 then second else if ltb backoff backoff_bound then backoff * 2 else backoff

-- `queryItem`, at the time `now` with the answer of `QueryConfig`: what is done to a target that
-- fits
abbrev pub answered : ℕ → Option Content → WatchItem → WatchItem
answered now none target = record target {
  backoff = next_backoff target.backoff;
  backoff_start = now;
}
answered now (some answer) target = record target {
  backoff = if ltb 0 target.backoff then 0 else target.backoff;
}

-- what `runItemWatch` does with an answer, and the listeners that it calls
abbrev pub noticed : Content → WatchItem → WatchItem × List Bytes
noticed answer item = elim item.last_hash [
  | none ↦ (record item { last_hash = some answer.content_md5 }, [])
  | some hash ↦
      if not (same hash answer.content_md5)
      then (record item { last_hash = some answer.content_md5 }, item.on_changes)
      else (item, [])
]

-- Both on the targets: an error meets every target that fits, an answer the first one only.
unfoldable pub run_item_watch :
    ℕ → Option Content → Bytes → Bytes → List WatchItem → List WatchItem × List Bytes
run_item_watch now answer data_id group [] = ([], [])
run_item_watch now answer data_id group (target ∷ targets) =
    let later = run_item_watch now answer data_id group targets in
    if is_for data_id group target
    then elim answer [
      | none ↦ (answered now none target ∷ later.0, later.1)
      | some a ↦ let told = noticed a (answered now (some a) target) in (told.0 ∷ targets, told.1)
    ]
    else (target ∷ later.0, later.1)

-- the two tickers: which targets they ask for
pub data Ticker : Type 0 where
  ticker backoff_ticker : Ticker

abbrev pub is_due : Ticker → ℕ → WatchItem → Bool
is_due ticker now item = item.backoff == 0
is_due backoff_ticker now item = ltb 0 item.backoff && ltb (item.backoff_start + item.backoff) now

-- One round of `loopWatch` over the targets from the index `i` on, `n` of them; `query` is the
-- server at that time.
pub watch_from :
    Ticker
    → ℕ
    → (Bytes → Bytes → Option Content)
    → ℕ
    → ℕ
    → List WatchItem
    → List WatchItem × List Bytes
unfolding run_item_watch
watch_from t now query i zero targets = (targets, [])
watch_from t now query i (suc n) targets = elim (get_elem? targets i) [
  | none ↦ (targets, [])
  | some item ↦
      let run =
        if is_due t now item
        then run_item_watch now (query item.data_id item.group) item.data_id item.group targets
        else (targets, []) in
      let rest = watch_from t now query (i + 1) n run.0 in (rest.0, run.1 ++ rest.1)
]

unfoldable pub loop_watch :
    Ticker → ℕ → (Bytes → Bytes → Option Content) → List WatchItem → List WatchItem × List Bytes
unfolding watch_from
loop_watch t now query targets = watch_from t now query 0 (length targets) targets
