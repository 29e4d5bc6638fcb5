-- ===== src/Wrapper/Queue/Invariant.antt =====
-- The invariant of a `RingQueue`: its ring is a circle, and the run of slots in use holds a list.
use fuck.Base.{
  ℕ, zero, suc, ◌+◌, ◌<◌, ◌≡◌, refl, sym, ap, ◌∙◌, ◌≢◌, List, [], Option, length, arith, ◌==◌,
  if◌then◌else◌,
}
use fuck.Wrapper.Queue.Ring.{Nodes, new, move}
use fuck.Wrapper.Queue.Slots.{ahead, ahead-lt, Slots}
use fuck.Wrapper.Queue.{RingQueue, new_ring_queue, node}

module _ {ℓ} {A : Type ℓ} where
  -- the value in the slot of an index
  abbrev pub slot : RingQueue A → ℕ → Option A
  slot q i = q.nodes.value (node q i)

  -- `max` different nodes in a circle, and `xs` in the slots from `start` up to `end`
  pub record Holds (q : RingQueue A) (xs : List A) : Type ℓ where
    pub start_in : q.start < q.max
    pub fits : length xs < q.max
    pub end_is : q.end ≡ ahead q.max q.start (length xs)
    pub circle : node q q.max ≡ q.r
    pub fresh : (i : ℕ) → i < q.max → node q i < q.nodes.used
    pub linked : (i : ℕ) → i < q.max → q.nodes.prev (q.nodes.next (node q i)) ≡ node q i
    pub distinct : (i j : ℕ) → i < q.max → j < q.max → node q i ≡ node q j → i ≡ j
    pub slots : Slots q.max (slot q) q.start xs

  -- values play no part in moving
  pub move_value :
      (n : Nodes A) (v : ℕ → Option A) (r i : ℕ) → move (record n { value = v }) r i ≡ move n r i
  unfolding move
  move_value n v r zero = refl
  move_value n v r (suc i) = ap n.next (move_value n v r i)

  -- one slot is written, the run `xs` does not reach it
  module _ (q : RingQueue A) (o : Option A) (d : ℕ) where
    abbrev pub target : ℕ
    target = ahead q.max q.start d

    abbrev pub values : ℕ → Option A
    values i = if i == node q target then o else q.nodes.value i

    -- `q` with `values` for its values
    abbrev pub new_slot : ℕ → Option A
    new_slot i = values (move (record q.nodes { value = values }) q.r i)

    pub new_slot_same :
        {xs : List A}
        → Holds q xs
        → d < q.max
        → (i : ℕ) → i < q.max
        → i ≢ target
        → slot q i ≡ new_slot i
    new_slot_same v p i h ne =
        rw (move_value q.nodes values q.r i) (
          ground (arith, v.distinct i target h (ahead-lt q.max q.start d v.start_in (omega arith))))

    pub new_slot_self : {xs : List A} → Holds q xs → d < q.max → new_slot target ≡ o
    new_slot_self v p = rw (move_value q.nodes values q.r target) (ground arith)

move-new {ℓ} : (A : Type ℓ) (n i : ℕ) → i < suc n → move (new A (n + 1)) 0 i ≡ i
unfolding move new
move-new A n zero h = refl
move-new A n (suc i) h = ground (arith, move-new A n i (omega arith))

move-new_all {ℓ} : (A : Type ℓ) (n : ℕ) → move (new A (n + 1)) 0 (n + 1) ≡ 0
move-new_all A n =
    let e : n + 1 ≡ suc n = omega arith in
    rw e (unfold move new in ground (arith, move-new A n n (omega arith)))

-- A new queue is empty, whatever its size.
pub new_ring_queue-Holds {ℓ} : (A : Type ℓ) (n : ℕ) → Holds (new_ring_queue A n) []
unfolding new_ring_queue new
new_ring_queue-Holds A n = record {
  start_in = omega arith;
  fits = omega arith;
  end_is = ground arith;
  circle = move-new_all A n;
  fresh = λ i p. rw (move-new A n i (omega arith)) p;
  linked = λ i p. rw (move-new A n i (omega arith)) (unfold new in ground arith);
  distinct = λ i j p q e. sym (move-new A n i (omega arith)) ∙ e ∙ move-new A n j (omega arith);
  slots = tt;
}
