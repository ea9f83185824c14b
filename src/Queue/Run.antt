-- ===== src/Queue/Run.antt =====
-- Any sequence of calls on a queue, against a list.
use why3_fork.Base.{
  ℕ, ◌+◌, ◌≤◌, ◌<◌, ◌^◌, ◌≡◌, refl, List, [], ◌∷◌, ◌++◌, arith, length, length-append, Result, ok,
  err, assertion, ◌>>=◌,
}
use why3_fork.Queue.{Queue, init_queue, queue_pop, queue_push}
use why3_fork.Queue.Holds.{Holds, init_queue-Holds, queue_pop_lem, queue_pop-empty}
use why3_fork.Queue.Push.{queue_push_lem}

pub data Call (A : Type 0) : Type 0 where
  push : A → Call A
  pop : Call A

module _ {A : Type 0} where
  -- The elements that the pops return, in order.
  unfoldable pub run : Queue A → List (Call A) → Result (List A)
  run q [] = ok []
  run q (push x ∷ cs) = do q' ← queue_push q x; run q' cs
  run q (pop ∷ cs) = do (x, q') ← queue_pop q; xs ← run q' cs; ok (x ∷ xs)

  -- The same calls on a first-in first-out list.
  unfoldable pub run_fifo : List A → List (Call A) → Result (List A)
  run_fifo l [] = ok []
  run_fifo l (push x ∷ cs) = run_fifo (l ++ x ∷ []) cs
  run_fifo [] (pop ∷ cs) = err assertion
  run_fifo (x ∷ l) (pop ∷ cs) = do xs ← run_fifo l cs; ok (x ∷ xs)

  run-Holds :
      (cs : List (Call A)) {q : Queue A} (l : List A)
      → Holds q l
      → length l + length cs ≤ 2 ^ 30
      → run q cs ≡ run_fifo l cs
  unfolding run run_fifo
  run-Holds [] l v h = refl
  run-Holds (push x ∷ cs) {q} l v h =
      let (q', e, w) = queue_push_lem x l v (omega arith) in
      rw e (run-Holds cs (l ++ x ∷ []) w (omega (arith, length-append l (x ∷ []))))
  run-Holds (pop ∷ cs) [] v h = rw (queue_pop-empty v)
  run-Holds (pop ∷ cs) {q} (x ∷ l) v h =
      let (e, w) = queue_pop_lem x l v in rw e (rw (run-Holds cs l w (omega arith)))

  -- No sequence of at most 2^30 pushes and pops on a new queue, of any capacity from 1 to 2^31,
  -- tells it from a first-in first-out list: the elements come out in the order in which they went
  -- in, and only a pop of the empty queue stops, by its assertion.
  pub run_refines :
      (capacity : ℕ) (cs : List (Call A))
      → 0 < capacity
      → capacity ≤ 2 ^ 31
      → length cs ≤ 2 ^ 30
      → (init_queue capacity >>= λ q. run q cs) ≡ run_fifo [] cs
  run_refines capacity cs h k small =
      let (q, e, v) = init_queue-Holds {A = A} capacity h k in
      rw e (run-Holds cs [] v (omega arith))
