-- ===== src/Queue.antt =====
-- src/server/queue.c: a queue in a ring of cells that doubles when it is full. The functions that
-- change `*q` return the new record. `t_queue` is `Queue`, with `data` as a block of memory.
pub mod Holds
pub mod Push
pub mod Run
use why3_fork.Base.{
  ℕ, ◌-◌, Bool, not, Option, none, List, replicate, length, Result, ok, assertion, guard, ◌>>=◌,
  ◌>>◌, ◌==◌, ltb, if◌then◌else◌, add_u32, sub_u32, mul_u32, rem_u32, load, store, realloc, memcpy,
}

pub record Queue (A : Type 0) : Type 0 where
  pub data_ : List (Option A)
  pub pointer : ℕ
  pub len : ℕ
  pub capacity : ℕ

module _ {A : Type 0} where
  unfoldable pub init_queue : ℕ → Result (Queue A)
  init_queue capacity = do
    guard (ltb 0 capacity) assertion
    ok (record { data_ = replicate capacity none; pointer = 0; len = 0; capacity = capacity })

  -- `q->len--` runs only at a positive length.
  unfoldable pub queue_pop : Queue A → Result (A × Queue A)
  queue_pop q = do
    guard (ltb 0 q.len) assertion
    tmp ← load q.data_ q.pointer
    pointer ← rem_u32 (add_u32 q.pointer 1) q.capacity
    ok (tmp, record q { pointer = pointer; len = q.len - 1 })

  unfoldable pub simple_push : Queue A → A → Result (Queue A)
  simple_push q elt = do
    i ← rem_u32 (add_u32 q.pointer q.len) q.capacity
    data_ ← store q.data_ i elt
    ok (record q { data_ = data_; len = add_u32 q.len 1 })

  unfoldable pub resize_queue : Queue A → Result (Queue A)
  resize_queue q = do
    let new_cap = mul_u32 2 q.capacity
    let new_p = add_u32 (sub_u32 new_cap q.capacity) q.pointer
    data_ ← memcpy (realloc q.data_ new_cap) new_p q.pointer (sub_u32 q.capacity q.pointer)
    ok (record q { data_ = data_; capacity = new_cap; pointer = new_p })

  unfoldable pub queue_push : Queue A → A → Result (Queue A)
  queue_push q elt = do
    room ← if q.len == q.capacity then resize_queue q else ok q
    simple_push room elt

  unfoldable pub queue_is_empty : Queue A → Bool
  queue_is_empty q = q.len == 0

  unfoldable pub queue_length : Queue A → ℕ
  queue_length q = q.len

  -- The memory is released; what is left of the call is its assertion.
  unfoldable pub free_queue : Queue A → Result (Unit {0})
  unfolding queue_is_empty
  free_queue q = guard (queue_is_empty q) assertion
