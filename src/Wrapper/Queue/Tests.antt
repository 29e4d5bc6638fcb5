-- ===== src/Wrapper/Queue/Tests.antt =====
-- Runs of `RingQueue`, in the order of wrapper/queue_test.go, and instances of its theorems.
use fuck.Base.{ℕ, zero, suc, ◌≡◌, refl, true, false, some, ◌||◌, List, [], ◌∷◌, arith, ◌==◌}
use fuck.Wrapper.Queue.{
  RingQueue, new_ring_queue, queue_full, got, put, get, Walk, done, list, remove,
}
use fuck.Wrapper.Queue.Ring.{move, new}
use fuck.Wrapper.Queue.Invariant.{Holds, new_ring_queue-Holds}
use fuck.Wrapper.Queue.Refine.{push, pop, put_refines, get_refines}
use fuck.Wrapper.Queue.History.{
  put_op, get_op, len_op, list_op, perform_all, expect_all, perform_all-new_ring_queue,
}
use fuck.Wrapper.Queue.Removal.Filter.{unselected, remove_refines}

abbrev puts : List ℕ → RingQueue ℕ → RingQueue ℕ
puts [] q = q
puts (x ∷ xs) q = puts xs (put x q).1

abbrev gets : ℕ → RingQueue ℕ → RingQueue ℕ
gets zero q = q
gets (suc n) q = gets n (get q).1

abbrev after_remove : Walk (RingQueue ℕ) → RingQueue ℕ → RingQueue ℕ
after_remove (done q) d = q
after_remove _ d = d

abbrev test_queue : RingQueue ℕ
test_queue = puts (0 ∷ 1 ∷ 2 ∷ []) (
    gets 3 (
      puts (0 ∷ 1 ∷ 2 ∷ 3 ∷ 4 ∷ [])
        (gets 5 (puts (0 ∷ 1 ∷ 2 ∷ 3 ∷ 4 ∷ 5 ∷ 6 ∷ 7 ∷ 8 ∷ 9 ∷ []) (new_ring_queue ℕ 10)))))

abbrev removed : RingQueue ℕ
removed = after_remove (remove (λ a. a == 7 || a == 2 || a == 9) 20 test_queue) test_queue

list_runs : list 11 test_queue ≡ done (8 ∷ 9 ∷ 0 ∷ 1 ∷ 2 ∷ 3 ∷ 4 ∷ 0 ∷ 1 ∷ 2 ∷ [])
unfolding list put get new_ring_queue move new
list_runs = refl

full_runs : (put 5 test_queue).0 ≡ queue_full
unfolding put get new_ring_queue move new
full_runs = refl

remove_runs : list 11 removed ≡ done (8 ∷ 0 ∷ 1 ∷ 3 ∷ 4 ∷ 0 ∷ 1 ∷ [])
unfolding list put get remove new_ring_queue move new
remove_runs = refl

remove_again :
    list 11 (after_remove (remove (λ a. a == 8 || a == 0) 20 removed) removed)
    ≡ done (1 ∷ 3 ∷ 4 ∷ 1 ∷ [])
unfolding list put get remove new_ring_queue move new
remove_again = refl

abbrev emptied : RingQueue ℕ
emptied = let q = puts (1 ∷ []) (new_ring_queue ℕ 3) in after_remove (remove (λ a. true) 5 q) q

newest_first : (get (puts (7 ∷ 8 ∷ []) emptied)).0 ≡ got 8
unfolding list put get remove new_ring_queue move new
newest_first = refl

abbrev empty : RingQueue ℕ
empty = new_ring_queue ℕ 3

empty-Holds : Holds empty []
empty-Holds = new_ring_queue-Holds ℕ 3

put_refines_example :
    ((put 7 empty).0 ≡ (push {A = ℕ} 3 7 []).0) × Holds (put 7 empty).1 (push {A = ℕ} 3 7 []).1
unfolding new_ring_queue
put_refines_example = put_refines empty 7 [] empty-Holds

one-Holds : Holds (put 7 empty).1 (7 ∷ [])
unfolding push new_ring_queue
one-Holds = (put_refines empty 7 [] empty-Holds).1

get_refines_example :
    ((get (put 7 empty).1).0 ≡ (pop {A = ℕ} (7 ∷ [])).0)
    × Holds (get (put 7 empty).1).1 (pop {A = ℕ} (7 ∷ [])).1
get_refines_example = get_refines (put 7 empty).1 (7 ∷ []) one-Holds

new_ring_queue-Holds_example : Holds (new_ring_queue ℕ 3) []
new_ring_queue-Holds_example = new_ring_queue-Holds ℕ 3

-- the value 7 stands in the node `r.r`
two-Holds : Holds (put 8 (put 7 empty).1).1 (7 ∷ 8 ∷ [])
unfolding push put new_ring_queue
two-Holds = (put_refines (put 7 empty).1 8 (7 ∷ []) one-Holds).1

root_stays :
    (v : ℕ)
    → (put 8 (put 7 empty).1).1.nodes.value (put 8 (put 7 empty).1).1.r ≡ some v
    → (v == 8) ≡ false
unfolding put new_ring_queue move new
root_stays v e = ground (arith, e)

remove_refines_example :
    (q' : RingQueue ℕ) × (remove (λ v. v == 8) 3 (put 8 (put 7 empty).1).1 ≡ done q')
    × Holds q' (unselected (λ v. v == 8) (7 ∷ 8 ∷ []))
remove_refines_example =
    remove_refines (λ v. v == 8) (put 8 (put 7 empty).1).1 (7 ∷ 8 ∷ []) 3 two-Holds root_stays
      (omega arith)

perform_all-new_ring_queue_example :
    perform_all
      (put_op 1 ∷ put_op 2 ∷ put_op 3 ∷ list_op ∷ get_op ∷ put_op 4 ∷ len_op ∷ list_op ∷ [])
      (new_ring_queue ℕ 2)
    ≡ expect_all 2
        (put_op 1 ∷ put_op 2 ∷ put_op 3 ∷ list_op ∷ get_op ∷ put_op 4 ∷ len_op ∷ list_op ∷ [])
        []
perform_all-new_ring_queue_example =
    perform_all-new_ring_queue 2
      (put_op 1 ∷ put_op 2 ∷ put_op 3 ∷ list_op ∷ get_op ∷ put_op 4 ∷ len_op ∷ list_op ∷ [])
