-- ===== src/Queue/Push.antt =====
-- `queue_push`, with the growth of the ring.
use native.Mathlib.Nat.{mod-eq_of_lt, mod-eq-sub-mod}
use native.Mathlib.Decide.{dec_lt}
use why3_fork.Base.{
  ℕ, ◌+◌, ◌-◌, ◌*◌, ◌%◌, ◌≤◌, ◌<◌, ◌^◌, ◌≡◌, ◌≢◌, sym, ap, ◌∙◌, Option, some, List, [], ◌∷◌, ◌++◌,
  inl, inr, arith, length, get_elem?, set, length-append, length-set, get_elem?-set_self,
  get_elem?-set_ne, get_elem?-append_left, get_elem?-append_right, ok, store_lem, memcpy_lem,
  realloc, length-realloc, get_elem?-realloc, ◌==◌, Bool-cases,
}
use why3_fork.Queue.{Queue, simple_push, resize_queue, queue_push}
use why3_fork.Queue.Holds.{Holds}

-- Two places of a ring that are less than a round apart differ.
mod-ne : {cap h i j : ℕ} → h < cap → i < j → j < cap → (h + j) % cap ≢ (h + i) % cap
mod-ne {cap} {h} {i} {j} hh hij hj = elim (dec_lt (h + j) cap) [
  | yes p ↦ omega (arith, mod-eq_of_lt p, mod-eq_of_lt {n = h + i} {m = cap} (omega arith))
  | no p ↦ elim (dec_lt (h + i) cap) [
    | yes q ↦ omega (
      arith,
      mod-eq-sub-mod {n = h + j} {m = cap} (omega arith),
      mod-eq_of_lt {n = h + j - cap} {m = cap} (omega arith),
      mod-eq_of_lt q,
    )
    | no q ↦ omega (
      arith,
      mod-eq-sub-mod {n = h + j} {m = cap} (omega arith),
      mod-eq_of_lt {n = h + j - cap} {m = cap} (omega arith),
      mod-eq-sub-mod {n = h + i} {m = cap} (omega arith),
      mod-eq_of_lt {n = h + i - cap} {m = cap} (omega arith),
    )
  ]
]

module _ {A : Type 0} where
  -- The queue after a push into a free cell.
  abbrev pushed : Queue A → A → Queue A
  pushed q x = record q {
    data_ = set q.data_ ((q.pointer + q.len) % q.capacity) (some x);
    len = q.len + 1;
  }

  pushed-cells :
      {q : Queue A} (x : A) (xs : List A)
      → Holds q xs
      → q.len < q.capacity
      → (i : ℕ) → i < length (xs ++ x ∷ [])
      → get_elem? (pushed q x).data_ ((q.pointer + i) % q.capacity)
        ≡ some (get_elem? (xs ++ x ∷ []) i)
  pushed-cells {q} x xs v free i h = elim (dec_lt i (length xs)) [
    | yes p ↦
        get_elem?-set_ne q.data_ (some x) (mod-ne v.head (omega (arith, v.count)) free)
        ∙ v.cells i p
        ∙ ap some (sym (get_elem?-append_left xs (x ∷ []) i p))
    | no p ↦
        ap (λ k. get_elem? (pushed q x).data_ ((q.pointer + k) % q.capacity)) (last p)
        ∙ get_elem?-set_self q.data_ _ (some x) (omega (arith, v.storage))
        ∙ ap some (sym (get_elem?-append_right xs (x ∷ []) i 0 (omega (arith, last p, v.count))))
  ]
    where
      last : ¬ (i < length xs) → i ≡ q.len
      last p = omega (arith, v.count, length-append xs (x ∷ []))

  simple_push_lem :
      {q : Queue A} (x : A) (xs : List A)
      → Holds q xs
      → q.len < q.capacity
      → (simple_push q x ≡ ok (pushed q x)) × Holds (pushed q x) (xs ++ x ∷ [])
  unfolding simple_push
  simple_push_lem {q} x xs v free = (
    ground
        (arith, store_lem q.data_ ((q.pointer + q.len) % q.capacity) x (omega (arith, v.storage))),
    record {
      room = v.room;
      storage = length-set q.data_ _ _ ∙ v.storage;
      head = v.head;
      count = omega (arith, v.count, length-append xs (x ∷ []));
      fits = omega arith;
      cells = pushed-cells x xs v free;
    },
  )

  -- The block after a growth: the ring's cells, with those from the pointer on moved to its end.
  record Moved (q : Queue A) (m : List (Option A)) : Type 0 where
    size : length m ≡ 2 * q.capacity
    low : (i : ℕ) → i < q.pointer → get_elem? m i ≡ get_elem? q.data_ i
    high :
        (i : ℕ)
        → i < q.capacity - q.pointer
        → get_elem? m (q.capacity + q.pointer + i) ≡ get_elem? q.data_ (q.pointer + i)

  Moved-cells :
      {q : Queue A} {m : List (Option A)} (xs : List A)
      → Holds q xs
      → Moved q m
      → (i : ℕ) → i < length xs
      → get_elem? m ((q.capacity + q.pointer + i) % (2 * q.capacity)) ≡ some (get_elem? xs i)
  Moved-cells {q} {m} xs v d i h = elim (dec_lt i (q.capacity - q.pointer)) [
    | yes p ↦
        ap (get_elem? m) (mod-eq_of_lt {n = q.capacity + q.pointer + i} (omega arith))
        ∙ d.high i p
        ∙ ap (get_elem? q.data_) (sym (mod-eq_of_lt {n = q.pointer + i} (omega arith)))
        ∙ v.cells i h
    | no p ↦
        ap (get_elem? m) (
          mod-eq-sub-mod {n = q.capacity + q.pointer + i} (omega (arith, v.head))
          ∙ mod-eq_of_lt {n = q.capacity + q.pointer + i - 2 * q.capacity} inside
          ∙ omega (arith, v.head))
        ∙ d.low (q.pointer + i - q.capacity) (omega (arith, v.head, v.count, v.fits))
        ∙ ap (get_elem? q.data_) (
            sym (
              mod-eq-sub-mod {n = q.pointer + i} (omega (arith, v.head))
              ∙ mod-eq_of_lt {n = q.pointer + i - q.capacity} (omega (arith, v.head))))
        ∙ v.cells i h
  ]
    where
      inside : q.capacity + q.pointer + i - 2 * q.capacity < 2 * q.capacity
      inside = omega (arith, v.head, v.count, v.fits)

  -- The queue after the growth, over the new block.
  abbrev grown : Queue A → List (Option A) → Queue A
  grown q m = record {
    data_ = m;
    pointer = q.capacity + q.pointer;
    len = q.len;
    capacity = 2 * q.capacity;
  }

  resized :
      {q : Queue A} (xs : List A)
      → Holds q xs
      → q.capacity ≤ 2 ^ 30
      → (m : List (Option A)) × (resize_queue q ≡ ok (grown q m)) × Moved q m
  unfolding resize_queue
  resized {q} xs v small =
      let (m, copied, size, low, high) =
        memcpy_lem block dst q.pointer n (omega (arith, block_size, v.head)) (omega arith) in
      (
        m,
        ground (arith, copied),
        record {
          size = size ∙ block_size;
          low = λ i h.
              low i (omega arith) ∙ get_elem?-realloc q.data_ _ i (omega arith) (omega arith);
          high = λ i h.
              high i (omega arith) ∙ get_elem?-realloc q.data_ _ _ (omega arith) (omega arith);
        },
      )
    where
      block : List (Option A)
      block = realloc q.data_ (2 * q.capacity)

      dst : ℕ
      dst = q.capacity + q.pointer

      n : ℕ
      n = q.capacity - q.pointer

      block_size : length block ≡ 2 * q.capacity
      block_size = length-realloc q.data_ (2 * q.capacity) (omega (arith, v.storage))

  -- Doubling a full ring moves its upper part to the end of the new block, and keeps the sequence.
  pub resize_queue_lem :
      {q : Queue A} (xs : List A)
      → Holds q xs
      → q.len ≡ q.capacity
      → q.capacity ≤ 2 ^ 30
      → (q' : Queue A) × (resize_queue q ≡ ok q') × Holds q' xs × (q'.len < q'.capacity)
  resize_queue_lem {q} xs v full small =
      let (m, e, d) = resized xs v small in
      (
        grown q m,
        e,
        record {
          room = omega arith;
          storage = d.size;
          head = omega (arith, v.head);
          count = v.count;
          fits = omega arith;
          cells = Moved-cells xs v d;
        },
        omega (arith, v.head),
      )

  -- A push on a queue of at most 2^30 elements returns, and appends the element to the sequence
  -- that the queue holds; it grows a full ring first.
  pub queue_push_lem :
      {q : Queue A} (x : A) (xs : List A)
      → Holds q xs
      → length xs ≤ 2 ^ 30
      → (q' : Queue A) × (queue_push q x ≡ ok q') × Holds q' (xs ++ x ∷ [])
  unfolding queue_push
  queue_push_lem {q} x xs v small = elim (Bool-cases (q.len == q.capacity)) [
    | inl full ↦
        let (r, e, w, free) = resize_queue_lem xs v (ground arith) (ground (arith, v.count)) in
        let (p, k) = simple_push_lem x xs w free in (pushed r x, rw (full, e) p, k)
    | inr free ↦
        let (p, k) = simple_push_lem x xs v (ground (arith, v.fits)) in (pushed q x, rw free p, k)
  ]
