-- ===== src/Wrapper/Queue/Removal/Drop.antt =====
-- One node dropped by `Remove`, with its two ways of counting.
use fuck.Base.{
  ℕ, ◌+◌, ◌-◌, ◌≤◌, ◌<◌, ◌≡◌, refl, sym, subst, ap, ◌∙◌, arith, Bool, true, false, not, ◌&&◌, ltb,
  leb, ◌==◌, if◌then◌else◌,
}
use fuck.Wrapper.Queue.{RingQueue, drop_node}
use fuck.Wrapper.Queue.Circle.{after, Circle, grow, shrink}
use fuck.Wrapper.Queue.Circle.Grow.{grown, grown-Circle, longer_before, longer_beyond}
use fuck.Wrapper.Queue.Circle.Shrink.{shrunk-Circle, prev_lem}
use fuck.Wrapper.Queue.Ring.{Nodes, link, new_one}
use fuck.Wrapper.Queue.Slots.{ahead}

module _ {A : Type 0} (q : RingQueue A) where
  -- the nodes without `a`, with a new one behind `b`
  abbrev pub nodes_of : ℕ → ℕ → Nodes A
  nodes_of a b = let g = link (new_one q.nodes) b q.nodes.used in link g (g.prev a) (g.next a)

  abbrev pub before : ℕ → ℕ → ℕ
  before a b = (link (new_one q.nodes) b q.nodes.used).prev a

  -- the queue that starts one node later, and the one that ends one node earlier
  abbrev pub from_start : ℕ → ℕ → RingQueue A
  from_start a b = record q { nodes = nodes_of a b; start = ahead q.max q.start 1 }

  abbrev pub from_end : ℕ → ℕ → RingQueue A
  from_end a b = record q { nodes = nodes_of a b; end = q.end - 1 }

  pub drop_node_start :
      (a b : ℕ) (met : Bool)
      → q.start < q.max
      → (ltb q.end q.start && not met) ≡ true
      → drop_node q a b met ≡ (from_start a b, before a b)
  unfolding drop_node
  drop_node_start a b met h c =
      let s : (if leb q.max (q.start + 1) then q.start + 1 - q.max else q.start + 1)
          ≡ ahead q.max q.start 1 =
        ground arith in
      rw (c, s) refl

  pub drop_node_end :
      (a b : ℕ) (met : Bool)
      → 0 < q.end
      → (ltb q.end q.start && not met) ≡ false
      → drop_node q a b met ≡ (from_end a b, before a b)
  unfolding drop_node
  drop_node_end a b met h c = let s : (q.end == 0) ≡ false = ground arith in rw (c, s) refl

  module _ (p : ℕ → ℕ) (c : Circle q.nodes q.max p) (e : ℕ) (in_ : e < q.max) (k : ℕ) where
    -- the numbering of the nodes behind the drop
    abbrev pub renumbered : ℕ → ℕ
    renumbered = shrink (grow p e q.nodes.used) k

    pub low_index : (i : ℕ) → i < k → i ≤ e → renumbered i ≡ p i
    low_index i h l =
        let b : ltb i k ≡ true = ground arith in rw b (longer_before q.nodes q.max p c e in_ i l)

    pub later_index : (i : ℕ) → i + 1 < k → e < i → renumbered (i + 1) ≡ p i
    later_index i h l =
        let b : ltb (i + 1) k ≡ true = ground arith in
        rw b (longer_beyond q.nodes q.max p c e in_ i l)

    pub moved_index : (i : ℕ) → k ≤ i → i + 1 ≤ e → renumbered i ≡ p (i + 1)
    moved_index i h l =
        let b : ltb i k ≡ false = ground arith in
        rw b (longer_before q.nodes q.max p c e in_ (i + 1) l)

    pub high_index : (i : ℕ) → k ≤ i → e < i → renumbered i ≡ p i
    high_index i h l =
        let b : ltb i k ≡ false = ground arith in rw b (longer_beyond q.nodes q.max p c e in_ i l)

    pub renumbered-Circle :
        (i : ℕ)
        → 0 < k
        → k < q.max + 1
        → grow p e q.nodes.used k ≡ p i
        → Circle (nodes_of (p i) (p e)) q.max renumbered
    renumbered-Circle i low h at =
        let g = grown q.nodes q.max p c e in_ in
        subst (λ a. Circle (link g (g.prev a) (g.next a)) q.max renumbered) at
          (shrunk-Circle g q.max (grow p e q.nodes.used) (grown-Circle q.nodes q.max p c e in_) k
            low h)

    -- an old node has its value still
    pub same_value :
        (a b i j : ℕ)
        → j < q.max
        → renumbered i ≡ p j
        → (nodes_of a b).value (renumbered i) ≡ q.nodes.value (p j)
    unfolding link new_one
    same_value a b i j h e = let f = c.fresh j h in rw e (ground arith)

    pub same_root : (a b : ℕ) → 0 < q.max → p 0 ≡ q.r → (nodes_of a b).value q.r ≡ q.nodes.value q.r
    unfolding link new_one
    same_root a b h e = let f = c.fresh 0 h in ground (arith, e)

    -- the walk goes on behind the index before `k`
    pub goes_on :
        (i : ℕ)
        → 0 < k
        → k < q.max + 1
        → grow p e q.nodes.used k ≡ p i
        → (nodes_of (p i) (p e)).next (before (p i) (p e)) ≡ renumbered (after q.max (k - 1))
    goes_on i low h at =
        let g = grown q.nodes q.max p c e in_ in
        let q_c = grown-Circle q.nodes q.max p c e in_ in
        let b : ltb (k - 1) k ≡ true = ground arith in
        let there : renumbered (k - 1) ≡ grow p e q.nodes.used (k - 1) = rw b refl in
        let prev_is : before (p i) (p e) ≡ renumbered (k - 1) =
          ap g.prev (sym at) ∙ prev_lem g q.max (grow p e q.nodes.used) q_c k low h ∙ sym there in
        ap (nodes_of (p i) (p e)).next prev_is
        ∙ (renumbered-Circle i low h at).next_is (k - 1) (omega arith)
