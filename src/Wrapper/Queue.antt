-- ===== src/Wrapper/Queue.antt =====
-- wrapper/queue.go: `RingQueue` over the nodes of Go's `container/ring`. The mutex makes the
-- operations atomic, so each is a function of the queue.
pub mod Ring
pub mod Slots
pub mod Invariant
pub mod Refine
pub mod Each
pub mod RemoveRoot
pub mod Circle
pub mod Removal
pub mod History
pub mod Tests
use fuck.Base.{
  ℕ, zero, suc, ◌+◌, ◌-◌, Bool, true, false, not, ◌&&◌, List, [], ◌∷◌, ◌++◌, Option, none, some,
  ltb, leb, ◌==◌, if◌then◌else◌,
}
use Ring.{Nodes, new, move, link, new_one}

pub record RingQueue {ℓ} (A : Type ℓ) : Type ℓ where
  pub nodes : Nodes A
  pub r : ℕ
  pub start : ℕ
  pub end : ℕ
  pub max : ℕ

unfoldable pub new_ring_queue {ℓ} : (A : Type ℓ) → ℕ → RingQueue A
new_ring_queue A n = record { nodes = new A (n + 1); r = 0; start = 0; end = 0; max = n + 1 }

pub data PutResult : Type 0 where
  stored queue_full : PutResult

-- `panic` is the failed type assertion `Value.(T)` on a node with no value.
pub data GetResult {ℓ} (A : Type ℓ) : Type ℓ where
  got : A → GetResult A
  queue_null panic : GetResult A

-- a walk round the ring: it ended, met a node with no value, or is still on its way
pub data Walk {ℓ} (S : Type ℓ) : Type ℓ where
  done : S → Walk S
  nil_value running : Walk S

module _ {ℓ} {A : Type ℓ} where
  -- the node `r.r.Move(i)`
  abbrev pub node : RingQueue A → ℕ → ℕ
  node q i = move q.nodes q.r i

  unfoldable pub put : A → RingQueue A → PutResult × RingQueue A
  put val q =
      let written = record q.nodes {
        value = λ i. if i == node q q.end then some val else q.nodes.value i;
      } in
      let next = if q.end + 1 == q.max then 0 else q.end + 1 in
      if q.start == q.end + 1
      then (queue_full, q)
      else if q.end + 1 == q.max && q.start == 0
      then (queue_full, q)
      else (stored, record q { nodes = written; end = next })

  -- The value read from a node, and the queue behind it. `none` is the nil of an empty node; a stored
  -- value is not a nil of an interface type T, on which the assertion `Value.(T)` panics too.
  taken : Option A → RingQueue A → GetResult A × RingQueue A
  taken none q = (panic, q)
  taken (some val) q =
      let cleared = record q.nodes {
        value = λ i. if i == node q q.start then none else q.nodes.value i;
      } in
      let next = if q.start + 1 == q.max then 0 else q.start + 1 in
      (got val, record q { nodes = cleared; start = next })

  unfoldable pub get : RingQueue A → GetResult A × RingQueue A
  unfolding taken
  get q = if q.start == q.end then (queue_null, q) else taken (q.nodes.value (node q q.start)) q

  unfoldable pub len : RingQueue A → ℕ
  len q =
      if ltb q.start q.end
      then q.end - q.start
      else if q.start == q.end
      then 0
      else q.end + q.max - q.start

  -- `for ; start != end; start = start.Next()` with `f` on each value
  walk {κ} : {S : Type κ} → (S → A → S) → Nodes A → ℕ → ℕ → ℕ → S → Walk S
  walk f nodes zero start end s = running
  walk f nodes (suc fuel) start end s = elim (start == end) [
    | true ↦ done s
    | false ↦ elim (nodes.value start) [
      | none ↦ nil_value
      | some v ↦ walk f nodes fuel (nodes.next start) end (f s v)
    ]
  ]

  -- `Do(f)`, where `f` works on a state
  unfoldable pub do_each {κ} : {S : Type κ} → (S → A → S) → ℕ → RingQueue A → S → Walk S
  unfolding walk
  do_each f fuel q s = walk f q.nodes fuel (node q q.start) (node q q.end) s

  unfoldable pub list : ℕ → RingQueue A → Walk (List A)
  unfolding walk
  list fuel q = walk (λ items v. items ++ v ∷ []) q.nodes fuel (node q q.start) (node q q.end) []

  -- the counters after the removal of a node; `is_prev` tells whether the walk has met `r.r`
  abbrev recount : RingQueue A → Bool → RingQueue A
  recount q is_prev =
      if ltb q.end q.start && not is_prev
      then record q { start = if leb q.max (q.start + 1) then q.start + 1 - q.max else q.start + 1 }
      else record q { end = if q.end == 0 then q.max - 1 else q.end - 1 }

  -- A new node behind `end`, and the links round `start`: the queue and the node before `start`.
  pub drop_node : RingQueue A → ℕ → ℕ → Bool → RingQueue A × ℕ
  drop_node q start end is_prev =
      let grown = link (new_one q.nodes) end q.nodes.used in
      let prev = grown.prev start in
      (record (recount q is_prev) { nodes = link grown prev (grown.next start) }, prev)

  pub remove_from : (A → Bool) → ℕ → RingQueue A → ℕ → ℕ → Bool → Walk (RingQueue A)
  remove_from f zero q start end is_prev = running
  remove_from f (suc fuel) q start end is_prev =
      let met = if start == q.r then true else is_prev in
      let (q', prev) = drop_node q start end met in
      elim (start == end) [
        | true ↦ done q
        | false ↦ elim (q.nodes.value start) [
          | none ↦ nil_value
          | some v ↦ elim (f v) [
            | true ↦ remove_from f fuel q' (q'.nodes.next prev) end met
            | false ↦ remove_from f fuel q (q.nodes.next start) end met
          ]
        ]
      ]

  unfoldable pub remove : (A → Bool) → ℕ → RingQueue A → Walk (RingQueue A)
  unfolding remove_from drop_node new_one link move
  remove f fuel q = remove_from f fuel q (node q q.start) (node q q.end) false
