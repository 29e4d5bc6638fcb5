-- ===== src/Wrapper/Queue/Refine.antt =====
-- `Put`, `Get` and `Len` of a `RingQueue` against a FIFO of at most `max - 1` values.
use fuck.Base.{
  ℕ, suc, ◌+◌, ◌-◌, ◌<◌, ◌≡◌, refl, sym, subst, ◌∙◌, ◌≢◌, List, [], ◌∷◌, ◌++◌, Option, none, some,
  length, length-append, arith, ◌==◌, if◌then◌else◌, ◌&&◌, Bool, true, false, Bool-cases, inl, inr,
}
use fuck.Wrapper.Queue.Ring.{move}
use fuck.Wrapper.Queue.Slots.{ahead, ahead-lt, Slots, Slots-congr, Slots-snoc}
use fuck.Wrapper.Queue.{
  RingQueue, PutResult, stored, queue_full, GetResult, got, queue_null, node, put, taken, get, len,
}
use fuck.Wrapper.Queue.Invariant.{
  slot, Holds, move_value, values, new_slot, new_slot_same, new_slot_self,
}

-- a queue of at most `cap` values, oldest first
unfoldable pub push {ℓ} : {A : Type ℓ} → ℕ → A → List A → PutResult × List A
push cap x xs = if length xs == cap then (queue_full, xs) else (stored, xs ++ x ∷ [])

unfoldable pub pop {ℓ} : {A : Type ℓ} → List A → GetResult A × List A
pop [] = (queue_null, [])
pop (x ∷ xs) = (got x, xs)

-- The two tests of `Put` together ask whether all slots but one are in use.
full_tests :
    (max s n : ℕ)
    → s < max
    → n < max
    → let e = ahead max s n in
      (if s == e + 1 then true else e + 1 == max && s == 0) ≡ (n == max - 1)
full_tests max s n p q = ground arith

step_index : (max e : ℕ) → e < max → (if e + 1 == max then 0 else e + 1) ≡ ahead max e 1
step_index max e p = ground arith

end_step : (max s n : ℕ) → s < max → n < max → ahead max (ahead max s n) 1 ≡ ahead max s (n + 1)
end_step max s n p q = ground arith

start_test : (max s n : ℕ) → s < max → n < max → (s == ahead max s n) ≡ (n == 0)
start_test max s n p q = ground arith

-- from the second slot of the run, `start` is `max - 1` places away
far : (max s : ℕ) → s < max → 1 < max → s ≡ ahead max (ahead max s 1) (max - 1)
far max s p q = ground arith

pub next_end :
    (max s n : ℕ) → s < max → suc n < max → ahead max s (suc n) ≡ ahead max (ahead max s 1) n
next_end max s n p q = ground arith

pub ahead_zero : (max s : ℕ) → s < max → ahead max s 0 ≡ s
ahead_zero max s p = ground arith

if-if {ℓ} :
    {B : Type ℓ} (b c : Bool) (x y : B)
    → (if b then x else if c then x else y) ≡ (if (if b then true else c) then x else y)
if-if true c x y = refl
if-if false c x y = refl

module _ {ℓ} {A : Type ℓ} where
  -- `Put` with its tests put together
  put_lem :
      (q : RingQueue A) (y : A) (xs : List A)
      → Holds q xs
      → put y q ≡ (
          if length xs == q.max - 1 then (queue_full, q) else (
            stored,
            record q {
              nodes = record q.nodes { value = values q (some y) (length xs) };
              end = ahead q.max q.end 1;
            },
          ))
  unfolding put
  put_lem q y xs v = rw (
    if-if,
    v.end_is,
    full_tests q.max q.start (length xs) v.start_in v.fits,
    step_index q.max _ (ahead-lt q.max q.start (length xs) v.start_in (omega (arith, v.fits))),
  )

  put_room :
      (q : RingQueue A) (y : A) (xs : List A)
      → Holds q xs
      → length xs ≢ q.max - 1
      → Holds
          (record q {
            nodes = record q.nodes { value = values q (some y) (length xs) };
            end = ahead q.max q.end 1;
          })
          (xs ++ y ∷ [])
  put_room q y xs v ne =
      let n = length xs in
      let grows : length (xs ++ y ∷ []) ≡ n + 1 = length-append xs (y ∷ []) in
      let w = new_slot q (some y) n in
      record {
        start_in = v.start_in;
        fits = omega (arith, v.fits);
        end_is = rw (grows, v.end_is) (end_step q.max q.start n v.start_in v.fits);
        circle = move_value q.nodes _ q.r q.max ∙ v.circle;
        fresh = λ i p. rw (move_value q.nodes _ q.r i) (v.fresh i p);
        linked = λ i p. rw (move_value q.nodes _ q.r i) (v.linked i p);
        distinct = λ i j p p' e.
            v.distinct i j p p' (sym (move_value q.nodes _ q.r i) ∙ e ∙ move_value q.nodes _ q.r j);
        slots =
            Slots-snoc q.max w y xs q.start v.start_in v.fits (new_slot_self q (some y) n v v.fits)
              (Slots-congr q.max (slot q) w (ahead q.max q.start n)
                (new_slot_same q (some y) n v v.fits) xs q.start n v.start_in v.fits (omega arith)
                refl v.slots);
      }

  -- `Put` on a queue that holds `xs` does what `push` does on `xs`, and keeps the ring in order.
  pub put_refines :
      (q : RingQueue A) (y : A) (xs : List A)
      → Holds q xs
      → ((put y q).0 ≡ (push (q.max - 1) y xs).0) × Holds (put y q).1 (push (q.max - 1) y xs).1
  unfolding push
  put_refines q y xs v = rw (put_lem q y xs v) (elim (Bool-cases (length xs == q.max - 1)) [
    | inl full ↦ rw full (refl, v)
    | inr room ↦ rw room (refl, put_room q y xs v (λ e. ground arith))
  ])

  get_null : (q : RingQueue A) → Holds q [] → get q ≡ (queue_null, q)
  unfolding get
  get_null q v = rw (v.end_is, start_test q.max q.start 0 v.start_in v.fits)

  get_got :
      (q : RingQueue A) (x : A) (xs : List A)
      → Holds q (x ∷ xs)
      → get q ≡ (
        got x,
        record q {
          nodes = record q.nodes {
            value = λ i. if i == node q q.start then none else q.nodes.value i;
          };
          start = ahead q.max q.start 1;
        },
      )
  unfolding get taken
  get_got q x xs v =
      let busy : (q.start == q.end) ≡ false =
        ground (arith, v.end_is, v.start_in, v.fits, start_test q.max q.start (suc (length xs))) in
      rw (busy, v.slots.0) (rw (step_index q.max q.start v.start_in))

  get_rest :
      (q : RingQueue A) (x : A) (xs : List A)
      → Holds q (x ∷ xs)
      → Holds
          (record q {
            nodes = record q.nodes {
              value = λ i. if i == node q q.start then none else q.nodes.value i;
            };
            start = ahead q.max q.start 1;
          })
          xs
  get_rest q x xs v =
      let w = new_slot q none 0 in
      let cleared : ℕ → ℕ → Option A = λ j k. if k == node q j then none else q.nodes.value k in
      let two : 1 < q.max = omega (arith, v.fits) in
      let same = new_slot_same q none 0 v (omega arith) in
      let z = ahead_zero q.max q.start v.start_in in
      record {
        start_in = ahead-lt q.max q.start 1 v.start_in (omega arith);
        fits = omega (arith, v.fits);
        end_is = v.end_is ∙ next_end q.max q.start (length xs) v.start_in v.fits;
        circle = move_value q.nodes _ q.r q.max ∙ v.circle;
        fresh = λ i p. rw (move_value q.nodes _ q.r i) (v.fresh i p);
        linked = λ i p. rw (move_value q.nodes _ q.r i) (v.linked i p);
        distinct = λ i j p p' e.
            v.distinct i j p p' (sym (move_value q.nodes _ q.r i) ∙ e ∙ move_value q.nodes _ q.r j);
        slots =
            subst
              (λ j.
                Slots q.max (λ i. cleared j (move (record q.nodes { value = cleared j }) q.r i))
                  (ahead q.max q.start 1) xs)
              z
              (Slots-congr q.max (slot q) w (ahead q.max q.start 0) same xs (ahead q.max q.start 1)
                (q.max - 1) (ahead-lt q.max q.start 1 v.start_in (omega arith)) (omega arith)
                (omega (arith, v.fits)) (z ∙ far q.max q.start v.start_in two) v.slots.1);
      }

  -- `Get` on a queue that holds `xs` does what `pop` does on `xs`: it never fails on an empty node,
  -- and keeps the ring in order.
  pub get_refines :
      (q : RingQueue A) (xs : List A)
      → Holds q xs
      → ((get q).0 ≡ (pop xs).0) × Holds (get q).1 (pop xs).1
  unfolding pop
  get_refines q [] v = rw (get_null q v) (refl, v)
  get_refines q (x ∷ xs) v = rw (get_got q x xs v) (refl, get_rest q x xs v)

  -- `Len` is the number of values.
  pub len_refines : (q : RingQueue A) (xs : List A) → Holds q xs → len q ≡ length xs
  unfolding len
  len_refines q xs v = ground (arith, v.start_in, v.end_is, v.fits)
