-- ===== src/Signals/Invariant.antt =====
-- What has returned in each place of `safeStop`; true at the start and kept by every step.
use fuck.Base.{
  ◌+◌, ℕ, zero, suc, ◌≤◌, ◌<◌, ◌≡◌, refl, sym, subst, true, false, List, [], ◌∷◌, ◌++◌, none, some,
  arith, length, get_elem?, length-set, inl, inr, Bool-cases, Option-cases, append-nil, ◌==◌,
}
use fuck.Base.Int.{ℤ}
use fuck.Signals.{
  Handler, level_max, get_wait_group, add_counter, add_for, wait_for, pre_stop, level_funcs,
}
use fuck.Signals.Stop.{
  Pc, idle, level, calling, waiting, exiting, crashed, System, update, Step, count, register, call,
  time_out, lock, close_again, launch, begin, finish, join, drain, exit, unlock, Reach, start,
  later,
}
use mathlib.Core.List.{Perm, perm_middle}
use mathlib.Core.List.Perm

get_elem?-beyond : {A : Type 0} (xs : List A) (j : ℕ) → length xs ≤ j → get_elem? xs j ≡ none
get_elem?-beyond [] j h = refl
get_elem?-beyond (x ∷ xs) zero h = absurd (omega arith)
get_elem?-beyond (x ∷ xs) (suc j) h = get_elem?-beyond xs j (omega arith)

module _ {F : Type 0} where
  -- a handler with the same functions, closed or not as before
  abbrev pub Alike : Handler F → Handler F → Type 0
  Alike h s = (h.pre_stop_funcs ≡ s.pre_stop_funcs) × (h.stopped ≡ s.stopped)

  pub add_for-Alike :
      (lvl : ℕ) (delta : ℤ) (s h : Handler F) → add_for lvl delta s ≡ some h → Alike h s
  unfolding add_for get_wait_group
  add_for-Alike lvl delta s h e = elim (Option-cases (add_counter (get_wait_group lvl s).0 delta)) [
    | inl neg ↦ absurd (ground (arith, e, neg))
    | inr (n, eq) ↦ ground (arith, e, eq)
  ]

  pub wait_for-Alike : (lvl : ℕ) (s h : Handler F) → wait_for lvl s ≡ some h → Alike h s
  unfolding wait_for get_wait_group
  wait_for-Alike lvl s h e = elim (Bool-cases ((get_wait_group lvl s).0 == 0)) [
    | inl eq ↦ ground (arith, e, eq)
    | inr ne ↦ absurd (ground (arith, e, ne))
  ]

  level_funcs-beyond : (s : Handler F) (j : ℕ) → length s.pre_stop_funcs ≤ j → level_funcs s j ≡ []
  unfolding level_funcs
  level_funcs-beyond s j h = rw (get_elem?-beyond s.pre_stop_funcs j h)

  -- the functions of the levels from `k` on have returned
  abbrev pub Above : Handler F → (ℕ → List F) → ℕ → Type 0
  Above h returned k = (j : ℕ) → k ≤ j → Perm (returned j) (level_funcs h j)

  -- no function of a level below `k` has returned
  abbrev pub Below : (ℕ → List F) → ℕ → Type 0
  Below returned k = (j : ℕ) → j < k → returned j ≡ []

  abbrev pub Standing : Handler F → (ℕ → List F) → Pc F → Type 0
  Standing h returned idle = h.stopped ≡ false → (j : ℕ) → returned j ≡ []
  Standing h returned (level k) = (h.stopped ≡ true) × Above h returned k × Below returned k
  Standing h returned (calling k pending running) =
      (h.stopped ≡ true)
      × Above h returned (suc k)
      × Below returned k
      × Perm (returned k ++ running ++ pending) (level_funcs h k)
  Standing h returned (waiting k) = (h.stopped ≡ true) × Above h returned k × Below returned k
  Standing h returned exiting = (h.stopped ≡ true) × Above h returned 0
  Standing h returned crashed = Unit

  pub record Inv (s : System F) : Type 0 where
    pub size : length s.handler.pre_stop_funcs ≡ level_max + 1
    pub standing : Standing s.handler s.returned s.pc

  Standing-Alike :
      (h s : Handler F) (returned : ℕ → List F) (pc : Pc F)
      → Alike h s
      → Standing s returned pc
      → Standing h returned pc
  unfolding level_funcs
  Standing-Alike h s returned idle a st = rw a.1 st
  Standing-Alike h s returned (level k) a st = rw (a.0, a.1) st
  Standing-Alike h s returned (calling k pending running) a st = rw (a.0, a.1) st
  Standing-Alike h s returned (waiting k) a st = rw (a.0, a.1) st
  Standing-Alike h s returned exiting a st = rw (a.0, a.1) st
  Standing-Alike h s returned crashed a st = st

  pre_stop-keeps :
      (lvl : ℕ) (f : F) (s h : Handler F)
      → pre_stop lvl f s ≡ some h
      → (length h.pre_stop_funcs ≡ length s.pre_stop_funcs) × (h.stopped ≡ s.stopped)
  unfolding pre_stop
  pre_stop-keeps lvl f s h e = elim (Option-cases (get_elem? s.pre_stop_funcs lvl)) [
    | inl out ↦ absurd (ground (arith, e, out))
    | inr (fs, eq) ↦ ground (arith, e, eq, length-set s.pre_stop_funcs lvl (fs ++ f ∷ []))
  ]

  -- a function that goes from the pending to the running ones
  begun_perm :
      (f : F) (r q before after : List F)
      → Perm (r ++ f ∷ q ++ (before ++ after)) (r ++ q ++ (before ++ f ∷ after))
  begun_perm f r q before after =
      Perm.trans (Perm.append_right (before ++ after) (perm_middle r q)) (
        Perm.symm (
          Perm.trans (Perm.append_left (r ++ q) (perm_middle before after))
            (perm_middle (r ++ q) (before ++ after))))

  -- a function that goes from the running to the returned ones
  returned_perm :
      (f : F) (r before after p : List F)
      → Perm ((f ∷ r) ++ (before ++ after) ++ p) (r ++ (before ++ f ∷ after) ++ p)
  returned_perm f r before after p =
      let back : Perm (r ++ (before ++ f ∷ after) ++ p) (f ∷ (r ++ (before ++ after)) ++ p) =
        Perm.append_right p (
          Perm.trans (Perm.append_left r (perm_middle before after))
            (perm_middle r (before ++ after))) in
      Perm.symm back

  pub Standing-here :
      {pc : Pc F} (s : System F) → Inv s → s.pc ≡ pc → Standing s.handler s.returned pc
  Standing-here s inv e = subst (Standing s.handler s.returned) e inv.standing

  -- what the new place asks for, at the lock, the launch, an end and the join
  all_back :
      (s : System F)
      → ((j : ℕ) → s.returned j ≡ [])
      → length s.handler.pre_stop_funcs ≡ level_max + 1
      → Above (record (s.handler) { stopped = true }) s.returned (level_max + 1)
  unfolding level_funcs
  all_back s none_back size j h =
      rw (none_back j, get_elem?-beyond s.handler.pre_stop_funcs j (omega arith)) Perm.rfl

  unstarted :
      (s : System F) (k : ℕ)
      → s.returned k ≡ []
      → Perm (s.returned k ++ [] ++ level_funcs s.handler k) (level_funcs s.handler k)
  unstarted s k e = rw e Perm.rfl

  finished :
      (s : System F) (k : ℕ) (f : F) (pending before after : List F)
      → Perm (s.returned k ++ (before ++ f ∷ after) ++ pending) (level_funcs s.handler k)
      → Perm
          (update s.returned k (f ∷ s.returned k) k ++ (before ++ after) ++ pending)
          (level_funcs s.handler k)
  finished s k f pending before after all =
      let here : (k == k) ≡ true = ground arith in
      rw here (Perm.trans (returned_perm f (s.returned k) before after pending) all)

  joined :
      (s : System F) (k : ℕ)
      → Above s.handler s.returned (suc k)
      → Perm (s.returned k ++ [] ++ []) (level_funcs s.handler k)
      → Above s.handler s.returned k
  joined s k above all j h = elim (Bool-cases (j == k)) [
    | inl eq ↦
        let e : k ≡ j = ground arith in
        let all' : Perm (s.returned k) (level_funcs s.handler k) =
          rw (append-nil (s.returned k), append-nil (s.returned k)) at all in
        subst (λ i. Perm (s.returned i) (level_funcs s.handler i)) e all'
    | inr ne ↦ above j (ground arith)
  ]

  Step-Inv : {s t : System F} → Step s t → Inv s → Inv t
  Step-Inv {s} (count lvl delta {h} alive e) inv =
      let a : Alike h s.handler = add_for-Alike lvl delta s.handler h e in
      record {
        size = rw a.0 inv.size;
        standing = Standing-Alike h s.handler s.returned s.pc a inv.standing;
      }
  Step-Inv {s} (register lvl f {h} e r) inv =
      let same_size = pre_stop-keeps lvl f s.handler h r in
      let before : Standing s.handler s.returned idle =
        subst (Standing s.handler s.returned) e inv.standing in
      record {
        size = rw same_size.0 inv.size;
        standing =
            subst (Standing h s.returned) (sym e) (λ open_. before (rw (← same_size.1) open_));
      }
  Step-Inv (call e) inv = record { size = inv.size; standing = inv.standing }
  Step-Inv (time_out e f) inv = record { size = inv.size; standing = inv.standing }
  Step-Inv {s} (lock e f g) inv =
      let before : Standing s.handler s.returned idle =
        subst (Standing s.handler s.returned) e inv.standing in
      record {
        size = inv.size;
        standing = (refl, all_back s (before g) inv.size, λ j h. before g j);
      }
  Step-Inv (close_again e f g) inv = record { size = inv.size; standing = tt }
  Step-Inv {s} (launch k e) inv =
      let (stopped, above, below) = Standing-here s inv e in
      record {
        size = inv.size;
        standing = (
          stopped,
          λ j h. above j h,
          λ j h. below j (omega arith),
          unstarted s k (below k (omega arith)),
        );
      }
  Step-Inv {s} (begin k f before after running e) inv =
      let (stopped, above, below, all) = Standing-here s inv e in
      record {
        size = inv.size;
        standing = (
          stopped,
          above,
          below,
          Perm.trans (begun_perm f (s.returned k) running before after) all,
        );
      }
  Step-Inv {s} (finish k f pending before after e) inv =
      let (stopped, above, below, all) = Standing-here s inv e in
      record {
        size = inv.size;
        standing = (
          stopped,
          λ j h. let other : (j == k) ≡ false = ground (arith, h) in rw other (above j h),
          λ j h. let other : (j == k) ≡ false = ground (arith, h) in rw other (below j h),
          finished s k f pending before after all,
        );
      }
  Step-Inv {s} (join k e) inv =
      let (stopped, above, below, all) = Standing-here s inv e in
      record { size = inv.size; standing = (stopped, joined s k above all, below) }
  Step-Inv {s} (drain k {h} e f) inv =
      let a : Alike h s.handler = wait_for-Alike k s.handler h f in
      record {
        size = rw a.0 inv.size;
        standing = Standing-Alike h s.handler s.returned (level k) a (Standing-here s inv e);
      }
  Step-Inv {s} (exit e) inv =
      let (stopped, above, below) = Standing-here s inv e in
      record { size = inv.size; standing = (stopped, above) }
  Step-Inv {s} (unlock e) inv =
      let (stopped, above) = Standing-here s inv e in
      record { size = inv.size; standing = λ open_. absurd (cc) }

  pub Reach-Inv : {s : System F} → Reach s → Inv s
  Reach-Inv start = record { size = refl; standing = λ open_ j. refl }
  Reach-Inv (later r st) = Step-Inv st (Reach-Inv r)
