-- ===== src/Queue/Holds.antt =====
-- Which sequence a ring holds, oldest element first, and the empty queue and `queue_pop`.
use native.Mathlib.Nat.{mod-add-mod, mod-eq_of_lt}
use why3_fork.Base.{
  ℕ, suc, ◌+◌, ◌-◌, ◌%◌, ◌≤◌, ◌<◌, ◌^◌, ◌≡◌, refl, sym, ap, ◌∙◌, none, some, List, [], ◌∷◌, arith,
  length, get_elem?, replicate, length-replicate, ok, err, assertion, load_lem, ◌==◌, false,
}
use why3_fork.Queue.{Queue, init_queue, queue_pop, queue_is_empty, queue_length, free_queue}

-- Element `i` of the sequence stands `i` cells past the pointer, round the end. The capacity is at
-- most 2^31, so that no sum of two indices wraps.
pub record Holds {A : Type 0} (q : Queue A) (xs : List A) : Type 0 where
  pub room : q.capacity ≤ 2 ^ 31
  pub storage : length q.data_ ≡ q.capacity
  pub head : q.pointer < q.capacity
  pub count : q.len ≡ length xs
  pub fits : q.len ≤ q.capacity
  pub cells :
      (i : ℕ)
      → i < length xs
      → get_elem? q.data_ ((q.pointer + i) % q.capacity) ≡ some (get_elem? xs i)

module _ {A : Type 0} where
  pub init_queue-Holds :
      (n : ℕ) → 0 < n → n ≤ 2 ^ 31 → (q : Queue A) × (init_queue n ≡ ok q) × Holds q []
  unfolding init_queue
  init_queue-Holds n h k = (
    record { data_ = replicate n none; pointer = 0; len = 0; capacity = n },
    ground arith,
    record {
      room = k;
      storage = length-replicate n none;
      head = h;
      count = refl;
      fits = omega arith;
      cells = λ i p. elim p [ ];
    },
  )

  init_queue-zero : init_queue {A = A} 0 ≡ err assertion
  unfolding init_queue
  init_queue-zero = refl

  -- The queue after a pop.
  abbrev pub popped : Queue A → Queue A
  popped q = record q { pointer = (q.pointer + 1) % q.capacity; len = q.len - 1 }

  popped-Holds : {q : Queue A} (x : A) (xs : List A) → Holds q (x ∷ xs) → Holds (popped q) xs
  popped-Holds {q} x xs v = record {
    room = v.room;
    storage = v.storage;
    head = omega (arith, v.head);
    count = omega (arith, v.count);
    fits = omega (arith, v.fits);
    cells = λ i p.
        ap (get_elem? q.data_) (rw mod-add-mod (ap (λ k. k % q.capacity) (omega arith)))
        ∙ v.cells (suc i) (omega arith);
  }

  pub queue_pop_lem :
      {q : Queue A} (x : A) (xs : List A)
      → Holds q (x ∷ xs)
      → (queue_pop q ≡ ok (x, popped q)) × Holds (popped q) xs
  unfolding queue_pop
  queue_pop_lem {q} x xs v =
      (ground (arith, load_lem q.data_ q.pointer {a = x} read), popped-Holds x xs v)
    where
      read : get_elem? q.data_ q.pointer ≡ some (some x)
      read =
          ap (get_elem? q.data_)
            (sym (mod-eq_of_lt v.head) ∙ ap (λ k. k % q.capacity) (omega arith))
          ∙ v.cells 0 (omega arith)

  -- Popping the empty queue fails its assertion.
  pub queue_pop-empty : {q : Queue A} → Holds q [] → queue_pop q ≡ err assertion
  unfolding queue_pop
  queue_pop-empty v = ground (arith, v.count)

  pub queue_is_empty_lem :
      {q : Queue A} (xs : List A) → Holds q xs → queue_is_empty q ≡ (length xs == 0)
  unfolding queue_is_empty
  queue_is_empty_lem {q} xs v = ap (λ n. n == 0) v.count

  -- With an element the queue is not empty.
  pub queue_is_empty-cons :
      {q : Queue A} (x : A) (xs : List A) → Holds q (x ∷ xs) → queue_is_empty q ≡ false
  unfolding queue_is_empty
  queue_is_empty-cons x xs v = ground (arith, v.count)

  pub queue_length_lem : {q : Queue A} (xs : List A) → Holds q xs → queue_length q ≡ length xs
  unfolding queue_length
  queue_length_lem xs v = v.count

  pub free_queue_lem : {q : Queue A} → Holds q [] → free_queue q ≡ ok tt
  unfolding free_queue
  free_queue_lem v = ground (arith, v.count)
