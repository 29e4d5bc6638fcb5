-- ===== src/Wrapper/Queue/History.antt =====
-- A `RingQueue` against a FIFO over any sequence of operations.
use fuck.Base.{
  ℕ, ◌+◌, ◌-◌, ◌≡◌, refl, ap, ap₂, subst, ◌∙◌, List, [], ◌∷◌, Option, none, some, length, arith,
  ◌==◌, inl, inr, Bool-cases,
}
use fuck.Wrapper.Queue.{
  RingQueue, new_ring_queue, PutResult, GetResult, Walk, done, put, taken, get, len, list, node,
}
use fuck.Wrapper.Queue.Each.{list_refines}
use fuck.Wrapper.Queue.Invariant.{Holds, new_ring_queue-Holds}
use fuck.Wrapper.Queue.Refine.{push, pop, put_refines, get_refines, len_refines}

pub data Op (A : Type 0) : Type 0 where
  put_op : (val : A) → Op A
  get_op len_op list_op : Op A

pub data Answer (A : Type 0) : Type 0 where
  put_answer : (r : PutResult) → Answer A
  get_answer : (r : GetResult A) → Answer A
  len_answer : (n : ℕ) → Answer A
  list_answer : (items : Walk (List A)) → Answer A

module _ {A : Type 0} where
  abbrev pub perform : Op A → RingQueue A → Answer A × RingQueue A
  perform (put_op val) q = (put_answer (put val q).0, (put val q).1)
  perform get_op q = (get_answer (get q).0, (get q).1)
  perform len_op q = (len_answer (len q), q)
  perform list_op q = (list_answer (list q.max q), q)

  -- the same on a FIFO of at most `cap` values
  abbrev pub expect : ℕ → Op A → List A → Answer A × List A
  expect cap (put_op val) xs = (put_answer (push cap val xs).0, (push cap val xs).1)
  expect cap get_op xs = (get_answer (pop xs).0, (pop xs).1)
  expect cap len_op xs = (len_answer (length xs), xs)
  expect cap list_op xs = (list_answer (done xs), xs)

  -- the answers to a sequence of operations
  abbrev pub perform_all : List (Op A) → RingQueue A → List (Answer A)
  perform_all [] q = []
  perform_all (op ∷ ops) q = (perform op q).0 ∷ perform_all ops (perform op q).1

  abbrev pub expect_all : ℕ → List (Op A) → List A → List (Answer A)
  expect_all cap [] xs = []
  expect_all cap (op ∷ ops) xs = (expect cap op xs).0 ∷ expect_all cap ops (expect cap op xs).1

  put_max : (val : A) (q : RingQueue A) → (put val q).1.max ≡ q.max
  unfolding put
  put_max val q = ground arith

  taken_max : (v : Option A) (q : RingQueue A) → (taken v q).1.max ≡ q.max
  unfolding taken
  taken_max none q = refl
  taken_max (some val) q = refl

  get_max : (q : RingQueue A) → (get q).1.max ≡ q.max
  unfolding get
  get_max q = elim (Bool-cases (q.start == q.end)) [
    | inl same ↦ rw (get, same) refl
    | inr other ↦ rw (get, other) (taken_max (q.nodes.value (node q q.start)) q)
  ]

  perform_lem :
      (cap : ℕ) (op : Op A) (q : RingQueue A) (xs : List A)
      → Holds q xs
      → q.max ≡ cap + 1
      → ((perform op q).0 ≡ (expect cap op xs).0)
        × Holds (perform op q).1 (expect cap op xs).1
        × ((perform op q).1.max ≡ cap + 1)
  perform_lem cap (put_op val) q xs v e =
      let c : q.max - 1 ≡ cap = omega arith in
      let (r, v') = put_refines q val xs v in
      (
        ap put_answer (r ∙ ap (λ k. (push k val xs).0) c),
        subst (λ k. Holds (put val q).1 (push k val xs).1) c v',
        put_max val q ∙ e,
      )
  perform_lem cap get_op q xs v e =
      let (r, v') = get_refines q xs v in (ap get_answer r, v', get_max q ∙ e)
  perform_lem cap len_op q xs v e = (ap len_answer (len_refines q xs v), v, e)
  perform_lem cap list_op q xs v e = (ap list_answer (list_refines q xs q.max v v.fits), v, e)

  perform_all_lem :
      (cap : ℕ) (ops : List (Op A)) (q : RingQueue A) (xs : List A)
      → Holds q xs
      → q.max ≡ cap + 1
      → perform_all ops q ≡ expect_all cap ops xs
  perform_all_lem cap [] q xs v e = refl
  perform_all_lem cap (op ∷ ops) q xs v e =
      let (r, v', e') = perform_lem cap op q xs v e in
      ap₂ ◌∷◌ r (perform_all_lem cap ops (perform op q).1 (expect cap op xs).1 v' e')

  -- A new `RingQueue` for n values answers any sequence of `Put`, `Get`, `Len` and `List` as a FIFO of
  -- at most n values does that is empty at the start.
  pub perform_all-new_ring_queue :
      (n : ℕ) (ops : List (Op A)) → perform_all ops (new_ring_queue A n) ≡ expect_all n ops []
  unfolding new_ring_queue
  perform_all-new_ring_queue n ops =
      perform_all_lem n ops (new_ring_queue A n) [] (new_ring_queue-Holds A n) refl
