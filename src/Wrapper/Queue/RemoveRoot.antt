-- ===== src/Wrapper/Queue/RemoveRoot.antt =====
-- What `Remove` does to the node `r.r` that all indices count from.
use fuck.Base.{
  ℕ, suc, ◌-◌, ◌<◌, ◌≡◌, sym, ap, ◌∙◌, ◌≢◌, [], ◌∷◌, some, arith, ◌==◌, Bool, true, false,
}
use fuck.Wrapper.Queue.Ring.{move, link, new_one}
use fuck.Wrapper.Queue.{RingQueue, got, node, put, taken, get, done, drop_node, remove_from, remove}
use fuck.Wrapper.Queue.Invariant.{Holds}

module _ {A : Type 0} (q : RingQueue A) (x : A) (v : Holds q (x ∷ [])) (s0 : q.start ≡ 0)
    (big : 2 < q.max) where
  root : ℕ
  root = q.r

  abbrev second : ℕ
  second = q.nodes.next q.r

  end_one : q.end ≡ 1
  end_one = ground (arith, v.end_is)

  abbrev last : ℕ
  last = q.nodes.prev q.r

  -- the nodes that the removal touches are different, and are not the new node
  record Apart : Type 0 where
    root_used : q.r < q.nodes.used
    second_used : second < q.nodes.used
    last_used : last < q.nodes.used
    second_root : second ≢ q.r
    third_root : q.nodes.next second ≢ q.r
    third_second : q.nodes.next second ≢ second
    last_root : last ≢ q.r
    last_second : last ≢ second
    next_last : q.nodes.next last ≡ q.r
    prev_second : q.nodes.prev second ≡ q.r

  alone_at_root : last ≡ node q (q.max - 1)
  unfolding move
  alone_at_root =
      let e : suc (q.max - 1) ≡ q.max = omega arith in
      let c : q.nodes.next (node q (q.max - 1)) ≡ q.r = ap (node q) e ∙ v.circle in
      sym (ap q.nodes.prev c) ∙ v.linked (q.max - 1) (omega arith)

  apart : Apart
  unfolding move
  apart = record {
    root_used = v.fresh 0 (omega arith);
    second_used = v.fresh 1 (omega arith);
    last_used = rw alone_at_root (v.fresh (q.max - 1) (omega arith));
    second_root = λ e. absurd (omega (arith, v.distinct 1 0 (omega arith) (omega arith) e));
    third_root = λ e. absurd (omega (arith, v.distinct 2 0 big (omega arith) e));
    third_second = λ e. absurd (omega (arith, v.distinct 2 1 big (omega arith) e));
    last_root = λ e. absurd (
        omega
          (arith, v.distinct (q.max - 1) 0 (omega arith) (omega arith) (sym alone_at_root ∙ e)));
    last_second = λ e. absurd (
        omega
          (arith, v.distinct (q.max - 1) 1 (omega arith) (omega arith) (sym alone_at_root ∙ e)));
    next_last =
        let e : suc (q.max - 1) ≡ q.max = omega arith in
        ap q.nodes.next alone_at_root ∙ ap (node q) e ∙ v.circle;
    prev_second = v.linked 0 (omega arith);
  }

  drop_prev : (drop_node q q.r second true).1 ≡ last
  unfolding drop_node link new_one
  drop_prev = ground (arith, apart)

  drop_lem :
      let q' = (drop_node q q.r second true).0 in
      (q'.nodes.next q.r ≡ q.r)
      × (q'.nodes.next last ≡ second)
      × (q'.start ≡ 0)
      × (q'.end ≡ 0)
      × (q'.max ≡ q.max)
      × (q'.r ≡ q.r)
  unfolding drop_node link new_one
  drop_lem =
      let g = apart in
      (
        ground arith,
        ground arith,
        ground (arith, s0, end_one),
        ground (arith, s0, end_one),
        ground (arith, s0, end_one),
        ground (arith, s0, end_one),
      )

  abbrev dropped : RingQueue A
  dropped = (drop_node q q.r second true).0

  module _ (f : A → Bool) (hit : f x ≡ true) where
    remove_lem : (fuel : ℕ) → remove f (suc (suc fuel)) q ≡ done dropped
    unfolding remove remove_from move
    remove_lem fuel =
        let differ : (q.r == second) ≡ false = ground (arith, apart) in
        let same : (q.r == q.r) ≡ true = ground arith in
        let value : q.nodes.value q.r ≡ some x = rw s0 at v.slots.0 in
        ground (arith, differ, same, value, s0, end_one, drop_prev, drop_lem, hit, apart)

    put_twice : (a b : A) → (get (put b (put a dropped).1).1).0 ≡ got b
    unfolding put get taken move
    put_twice a b = let d = drop_lem in ground (arith, drop_lem)

-- If the only value of a queue for two or more stands in the node `r.r`, and `Remove` takes it
-- out, then the queue it leaves is no longer a FIFO: of two values put, the newer comes out first.
pub remove_root :
    {A : Type 0} (f : A → Bool) (q : RingQueue A) (x a b : A) (fuel : ℕ)
    → Holds q (x ∷ [])
    → q.start ≡ 0
    → 2 < q.max
    → f x ≡ true
    → (q' : RingQueue A) × (remove f (suc (suc fuel)) q ≡ done q')
      × ((get (put b (put a q').1).1).0 ≡ got b)
remove_root f q x a b fuel v s0 big hit =
    (dropped q x v s0 big, remove_lem q x v s0 big f hit fuel, put_twice q x v s0 big f hit a b)
