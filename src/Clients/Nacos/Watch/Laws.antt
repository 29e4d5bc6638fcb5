-- ===== src/Clients/Nacos/Watch/Laws.antt =====
-- What `Register` and the rounds of the watchdog keep: the backoffs, and one target for each key.
use fuck.Base.{
  ℕ, zero, suc, ◌+◌, ◌≡◌, refl, ◌∙◌, true, false, ◌&&◌, ◌||◌, List, [], ◌∷◌, ◌++◌, Option, none,
  some, Bytes, get_elem?, length, same, arith, inl, inr, Bool-cases, Option-cases, ◌⊎◌,
}
use fuck.Base.Text.{same-sym}
use fuck.Clients.Nacos.Watch.{
  Content, WatchItem, is_for, add_listener, register, answered, noticed, run_item_watch, Ticker,
  is_due, watch_from, loop_watch,
}
use fuck.Clients.Nacos.Watch.Valid.{
  Alike, Alike-refl, Alike-trans, AllAlike, AllAlike-refl, AllAlike-trans, IsValid, all_backoffs,
  answered-Alike, is_backoff, is_known, is_unique, no_more, noticed-Alike, one_more,
}

-- one target of a round
abbrev target_after : ℕ → Option Content → WatchItem → WatchItem
target_after now none t = answered now none t
target_after now (some a) t = (noticed a (answered now (some a) t)).0

target_after-Alike : (now : ℕ) (a : Option Content) (t : WatchItem) → Alike t (target_after now a t)
target_after-Alike now none t = answered-Alike now none t
target_after-Alike now (some a) t =
    Alike-trans (answered-Alike now (some a) t) (noticed-Alike a (answered now (some a) t))

run_item_watch-AllAlike :
    (now : ℕ) (answer : Option Content) (data_id group : Bytes) (ts : List WatchItem)
    → AllAlike ts (run_item_watch now answer data_id group ts).0
unfolding run_item_watch
run_item_watch-AllAlike now answer data_id group [] = no_more
run_item_watch-AllAlike now none data_id group (t ∷ ts) =
    let rest = run_item_watch-AllAlike now none data_id group ts in
    elim (Bool-cases (is_for data_id group t)) [
      | inl fits ↦ rw fits (one_more (target_after-Alike now none t) rest)
      | inr other ↦ rw other (one_more (Alike-refl t) rest)
    ]
run_item_watch-AllAlike now (some a) data_id group (t ∷ ts) =
    let rest = run_item_watch-AllAlike now (some a) data_id group ts in
    elim (Bool-cases (is_for data_id group t)) [
      | inl fits ↦ rw fits (one_more (target_after-Alike now (some a) t) (AllAlike-refl ts))
      | inr other ↦ rw other (one_more (Alike-refl t) rest)
    ]

watch_from-AllAlike :
    (t : Ticker) (now : ℕ) (query : Bytes → Bytes → Option Content) (i n : ℕ) (ts : List WatchItem)
    → AllAlike ts (watch_from t now query i n ts).0
unfolding watch_from
watch_from-AllAlike t now query i zero ts = AllAlike-refl ts
watch_from-AllAlike t now query i (suc n) ts = elim (Option-cases (get_elem? ts i)) [
  | inl out ↦ rw (watch_from, out) (AllAlike-refl ts)
  | inr (item, e) ↦ elim (Bool-cases (is_due t now item)) [
    | inl due ↦
        rw (watch_from, e, due)
          (AllAlike-trans
            (run_item_watch-AllAlike now (query item.data_id item.group) item.data_id item.group ts)
            (watch_from-AllAlike t now query (i + 1) n _))
    | inr early ↦ rw (watch_from, e, early) (watch_from-AllAlike t now query (i + 1) n ts)
  ]
]

is_known-AllAlike :
    {ts us : List WatchItem} (d g : Bytes) → AllAlike ts us → is_known d g us ≡ is_known d g ts
is_known-AllAlike d g no_more = refl
is_known-AllAlike d g (one_more a rest) = rw (a.data_id, a.group, is_known-AllAlike d g rest)

AllAlike-IsValid : {ts us : List WatchItem} → AllAlike ts us → IsValid ts → IsValid us
AllAlike-IsValid no_more v = v
AllAlike-IsValid (one_more {t} {t'} {ts} {ts'} a rest) v =
    let tail =
      AllAlike-IsValid rest
        (record { backoffs = ground (arith, v.backoffs); unique = ground (arith, v.unique) }) in
    let fresh : is_known t'.data_id t'.group ts' ≡ false =
      rw (a.data_id, a.group, is_known-AllAlike t.data_id t.group rest)
        (ground (arith, v.unique)) in
    let b : is_backoff t'.backoff ≡ true = a.backoff (ground (arith, v.backoffs)) in
    record {
      backoffs = ground (arith, b, tail.backoffs);
      unique = ground (arith, fresh, tail.unique);
    }

module _ (data_id group id : Bytes) where
  abbrev fresh_target : WatchItem
  fresh_target = record {
    data_id = data_id;
    group = group;
    last_hash = none;
    backoff = 0;
    backoff_start = 0;
    on_changes = id ∷ [];
  }

  add_listener-cases :
      (ts : List WatchItem)
      → (is_known data_id group ts ≡ false) × (add_listener data_id group id ts ≡ none)
        ⊎ ((us : List WatchItem) × (add_listener data_id group id ts ≡ some us)
            × (all_backoffs us ≡ all_backoffs ts)
            × (is_unique us ≡ is_unique ts)
            × ((d g : Bytes) → is_known d g us ≡ is_known d g ts))
  unfolding add_listener
  add_listener-cases [] = inl (refl, refl)
  add_listener-cases (t ∷ ts) = elim (Bool-cases (is_for data_id group t)) [
    | inl fits ↦ inr (
      record t { on_changes = t.on_changes ++ id ∷ [] } ∷ ts,
      rw fits refl,
      refl,
      refl,
      λ d g. refl,
    )
    | inr other ↦ elim (add_listener-cases ts) [
      | inl (unknown, nothing) ↦ inl (rw (other, unknown) refl, rw (other, nothing) refl)
      | inr (us, e, b, u, k) ↦ inr (
        t ∷ us,
        rw (other, e) refl,
        rw b refl,
        rw (u, k t.data_id t.group) refl,
        λ d g. rw (k d g) refl,
      )
    ]
  ]

  is_known-append :
      (d g : Bytes) (ts : List WatchItem)
      → is_known d g (ts ++ fresh_target ∷ []) ≡ (is_known d g ts || same data_id d && same group g)
  is_known-append d g [] = ground arith
  is_known-append d g (t ∷ ts) = ground (arith, is_known-append d g ts)

  append-IsValid :
      (ts : List WatchItem)
      → is_known data_id group ts ≡ false
      → IsValid ts
      → IsValid (ts ++ fresh_target ∷ [])
  append-IsValid [] k v = record { backoffs = refl; unique = refl }
  append-IsValid (t ∷ ts) k v =
      let tail =
        append-IsValid ts (ground (arith, k))
          (record { backoffs = ground (arith, v.backoffs); unique = ground (arith, v.unique) }) in
      let apart : (same data_id t.data_id && same group t.group) ≡ false =
        ground (arith, k, same-sym data_id t.data_id, same-sym group t.group) in
      record {
        backoffs = ground (arith, v.backoffs, tail.backoffs);
        unique = ground (arith, v.unique, tail.unique, is_known-append t.data_id t.group ts, apart);
      }

  register-IsValid : (ts : List WatchItem) → IsValid ts → IsValid (register data_id group id ts)
  unfolding register
  register-IsValid ts v = elim (add_listener-cases ts) [
    | inl (unknown, nothing) ↦ rw (register, nothing) (append-IsValid ts unknown v)
    | inr (us, e, b, u, k) ↦
        rw (register, e) (record { backoffs = b ∙ v.backoffs; unique = u ∙ v.unique })
  ]

-- `Register`, a round of `runItemWatch` and a round of `loopWatch` keep the targets valid: no two
-- have the same data id and group, and each backoff is 0, 1, 2, 4, 8 or 16 seconds.
pub watchdog-IsValid :
    (ts : List WatchItem)
    → IsValid ts
    → ((data_id group id : Bytes) → IsValid (register data_id group id ts))
      × ((now : ℕ) (answer : Option Content) (data_id group : Bytes)
          → IsValid (run_item_watch now answer data_id group ts).0)
      × ((t : Ticker) (now : ℕ) (query : Bytes → Bytes → Option Content)
          → IsValid (loop_watch t now query ts).0)
unfolding loop_watch
watchdog-IsValid ts v = (
  λ data_id group id. register-IsValid data_id group id ts v,
  λ now answer data_id group.
      AllAlike-IsValid (run_item_watch-AllAlike now answer data_id group ts) v,
  λ t now query. AllAlike-IsValid (watch_from-AllAlike t now query 0 (length ts) ts) v,
)
