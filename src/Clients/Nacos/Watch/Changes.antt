-- ===== src/Clients/Nacos/Watch/Changes.antt =====
-- Whom the watchdog tells, and when: the listeners of a key, at the changes of its hash.
use fuck.Base.{
  ℕ, ◌≡◌, refl, sym, ap₂, ◌∙◌, Bool, true, false, ◌&&◌, List, [], ◌∷◌, ◌++◌, Option, none, some,
  Bytes, same, if◌then◌else◌, arith, inl, inr, Bool-cases, Option-cases,
}
use fuck.Base.Text.{same_refl, same→eq, same-sym}
use fuck.Clients.Nacos.Watch.Valid.{is_known}
use fuck.Clients.Nacos.Watch.{Content, WatchItem, is_for, add_listener, register, run_item_watch}

abbrev pub listeners : Bytes → Bytes → List WatchItem → List Bytes
listeners data_id group [] = []
listeners data_id group (t ∷ ts) =
    if is_for data_id group t then t.on_changes else listeners data_id group ts

-- the hash that was seen last
abbrev pub last_seen : Bytes → Bytes → List WatchItem → Option Bytes
last_seen data_id group [] = none
last_seen data_id group (t ∷ ts) =
    if is_for data_id group t then t.last_hash else last_seen data_id group ts

abbrev is_key : Bytes → Bytes → Bytes → Bytes → Bool
is_key data_id group d g = same data_id d && same group g

-- a target has one key only
one_key :
    (data_id group d g : Bytes) (t : WatchItem)
    → is_for data_id group t ≡ true
    → is_for d g t ≡ is_key data_id group d g
one_key data_id group d g t h =
    let e : t.data_id ≡ data_id = same→eq t.data_id data_id (ground (arith, h)) in
    let e' : t.group ≡ group = same→eq t.group group (ground (arith, h)) in rw (e, e') refl

other_key :
    (data_id group d g : Bytes) (t : WatchItem)
    → is_for data_id group t ≡ false
    → is_for d g t ≡ true
    → is_key data_id group d g ≡ false
other_key data_id group d g t h f =
    let e : is_key d g data_id group ≡ false = sym (one_key d g data_id group t f) ∙ h in
    ground (arith, e, same-sym data_id d, same-sym group g)

module _ (data_id group id d g : Bytes) where
  listeners-add_listener :
      (ts us : List WatchItem)
      → add_listener data_id group id ts ≡ some us
      → listeners d g us ≡ (
          if is_key data_id group d g
          then listeners data_id group ts ++ id ∷ []
          else listeners d g ts)
  unfolding add_listener
  listeners-add_listener [] us e = absurd (ground (arith, e))
  listeners-add_listener (t ∷ ts) us e = elim (Bool-cases (is_for data_id group t)) [
    | inl fits ↦ ground (arith, fits, e, one_key data_id group d g t fits)
    | inr other ↦ elim (Option-cases (add_listener data_id group id ts)) [
      | inl nothing ↦ absurd (ground (arith, other, e, nothing))
      | inr (vs, e') ↦
          let rest = listeners-add_listener ts vs e' in
          elim (Bool-cases (is_for d g t)) [
            | inl fits ↦
                ground (arith, other, e, e', fits, other_key data_id group d g t other fits)
            | inr unfit ↦ ground (arith, other, e, e', unfit, rest)
          ]
    ]
  ]

  listeners-append :
      (ts : List WatchItem) (t : WatchItem)
      → add_listener data_id group id ts ≡ none
      → is_for data_id group t ≡ true
      → t.on_changes ≡ id ∷ []
      → listeners d g (ts ++ t ∷ []) ≡ (
          if is_key data_id group d g
          then listeners data_id group ts ++ id ∷ []
          else listeners d g ts)
  unfolding add_listener
  listeners-append [] t e f o = ground (arith, o, f, one_key data_id group d g t f)
  listeners-append (u ∷ ts) t e f o = elim (Bool-cases (is_for data_id group u)) [
    | inl fits ↦ absurd (ground (arith, fits, e))
    | inr other ↦ elim (Option-cases (add_listener data_id group id ts)) [
      | inr (vs, e') ↦ absurd (ground (arith, other, e, e'))
      | inl nothing ↦
          let rest = listeners-append ts t nothing f o in
          elim (Bool-cases (is_for d g u)) [
            | inl fits ↦ ground (arith, other, fits, other_key data_id group d g u other fits)
            | inr unfit ↦ ground (arith, other, unfit, rest)
          ]
    ]
  ]

-- `Register` adds the new listener to those of its data id and group, and to those of no other
-- key.
pub listeners-register :
    (data_id group id d g : Bytes) (ts : List WatchItem)
    → listeners d g (register data_id group id ts) ≡ (
        if same data_id d && same group g
        then listeners data_id group ts ++ id ∷ []
        else listeners d g ts)
unfolding register
listeners-register data_id group id d g ts =
    elim (Option-cases (add_listener data_id group id ts)) [
      | inr (us, e) ↦ rw (register, e) (listeners-add_listener data_id group id d g ts us e)
      | inl nothing ↦
          rw (register, nothing)
            (listeners-append data_id group id d g ts _ nothing
              (ground (arith, same_refl data_id, same_refl group)) refl)
    ]

-- whom an answer is to be told to, after the hash seen before it
abbrev told : Option Bytes → Option Content → List Bytes → List Bytes
told seen none ids = []
told none (some a) ids = []
told (some hash) (some a) ids = if same hash a.content_md5 then [] else ids

abbrev seen_after : Option Bytes → Option Content → Option Bytes
seen_after seen none = seen
seen_after seen (some a) = some a.content_md5

told_nothing :
    (now : ℕ) (data_id group : Bytes) (ts : List WatchItem)
    → (run_item_watch now none data_id group ts).1 ≡ []
unfolding run_item_watch
told_nothing now data_id group [] = refl
told_nothing now data_id group (t ∷ ts) = ground (arith, told_nothing now data_id group ts)

-- what one call of `runItemWatch` tells, and what it leaves
run_item_watch_lem :
    (now : ℕ) (answer : Option Content) (data_id group : Bytes) (ts : List WatchItem)
    → is_known data_id group ts ≡ true
    → let run = run_item_watch now answer data_id group ts in
      (run.1 ≡ told (last_seen data_id group ts) answer (listeners data_id group ts))
      × (last_seen data_id group run.0 ≡ seen_after (last_seen data_id group ts) answer)
      × (listeners data_id group run.0 ≡ listeners data_id group ts)
      × (is_known data_id group run.0 ≡ true)
unfolding run_item_watch
run_item_watch_lem now answer data_id group [] k = absurd (ground (arith, k))
run_item_watch_lem now none data_id group (t ∷ ts) k = elim (Bool-cases (is_for data_id group t)) [
  | inl fits ↦ ground (arith, fits, told_nothing now data_id group ts)
  | inr other ↦
      ground (arith, other, run_item_watch_lem now none data_id group ts (ground (arith, k, other)))
]
run_item_watch_lem now (some a) data_id group (t ∷ ts) k =
    elim (Bool-cases (is_for data_id group t)) [
      | inl fits ↦ elim (Option-cases t.last_hash) [
        | inl unseen ↦ ground (arith, fits, unseen)
        | inr (hash, e) ↦ elim (Bool-cases (same hash a.content_md5)) [
          | inl same_ ↦ ground (arith, fits, e, same_, same→eq hash a.content_md5 same_)
          | inr differs ↦ ground (arith, fits, e, differs)
        ]
      ]
      | inr other ↦ ground (
        arith,
        other,
        run_item_watch_lem now (some a) data_id group ts (ground (arith, k, other)),
      )
    ]

-- calls of `runItemWatch` for a key, each at its time and with its answer: whom each of them tells
abbrev pub watch_all :
    Bytes → Bytes → List (ℕ × Option Content) → List WatchItem → List (List Bytes)
watch_all data_id group [] ts = []
watch_all data_id group ((now, answer) ∷ calls) ts =
    let run = run_item_watch now answer data_id group ts in
    run.1 ∷ watch_all data_id group calls run.0

-- the listeners at each answer whose hash differs from the hash of the answer before it
abbrev pub at_changes : Option Bytes → List Bytes → List (ℕ × Option Content) → List (List Bytes)
at_changes seen ids [] = []
at_changes seen ids ((now, answer) ∷ calls) =
    told seen answer ids ∷ at_changes (seen_after seen answer) ids calls

-- Calls of `runItemWatch` for a key with a target tell all its listeners exactly at those answers
-- whose hash differs from the hash of the last answer before; errors between them change nothing.
pub watch_all-at_changes :
    (data_id group : Bytes) (calls : List (ℕ × Option Content)) (ts : List WatchItem)
    → is_known data_id group ts ≡ true
    → watch_all data_id group calls ts
      ≡ at_changes (last_seen data_id group ts) (listeners data_id group ts) calls
watch_all-at_changes data_id group [] ts k = refl
watch_all-at_changes data_id group ((now, answer) ∷ calls) ts k =
    let (now_told, seen, ids, known) = run_item_watch_lem now answer data_id group ts k in
    ap₂ ◌∷◌ now_told (
      watch_all-at_changes data_id group calls (run_item_watch now answer data_id group ts).0 known
      ∙ ap₂ (λ s i. at_changes s i calls) seen ids)
