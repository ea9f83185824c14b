-- ===== src/WriteBuf/Safety.antt =====
-- The calls on a write buffer stay inside its memory, with a write that has begun or not.
use why3_fork.Base.{
  Option, some, none, AllOk, AllOk-then, if-AllOk, ◌+◌, int_value, ltb, leb, not, returns, stops,
  guard-AllOk, ℕ, ◌-◌, ◌≡◌, refl, true, false, List, [], ◌∷◌, length, ok, err, assertion,
  Bool-cases, inl, inr,
}
use why3_fork.Base.Safety.{Safe, ends, Safe-ok}
use why3_fork.Queue.{Queue, queue_is_empty, queue_pop, queue_push}
use why3_fork.Queue.Holds as queues
use why3_fork.Queue.Holds.{
  queue_pop_lem, queue_length_lem, queue_is_empty-cons, queue_is_empty_lem, free_queue_lem,
}
use why3_fork.WriteBuf.{
  Bytes, WriteBuf, next_region, can_write, has_write_data, prepare_write, drain, free_writebuf,
  start_message, next_message, have_written, push_write_data,
}
use why3_fork.WriteBuf.Pending.{Holds, has_write_data_lem, prepare_write_lem, prepare_write-writing}

drain_lem :
    (q : Queue Bytes) (ms : List Bytes)
    → queues.Holds q ms
    → (q' : Queue Bytes) × (drain (length ms) q ≡ ok q') × queues.Holds q' []
unfolding drain
drain_lem q [] v = (q, refl, v)
drain_lem q (m ∷ ms) v =
    let (e, w) = queue_pop_lem m ms v in
    let (q', run, empty) = drain_lem (queues.popped q) ms w in
    (q', rw (queue_is_empty-cons m ms v, e) run, empty)

freed_with :
    (b : WriteBuf) (ms : List Bytes) → queues.Holds b.writequeue ms → free_writebuf b ≡ ok tt
unfolding free_writebuf
freed_with b ms v =
    let (q, run, empty) = drain_lem b.writequeue ms v in
    rw (queue_length_lem ms v, run) (free_queue_lem empty)

pub free_writebuf_lem : (b : WriteBuf) (ms : List Bytes) → Holds b ms → free_writebuf b ≡ ok tt
free_writebuf_lem b [] v = freed_with b [] v.current.3
free_writebuf_lem b (m ∷ ms) v = freed_with b ms v.current.3

-- What `prepare_write` returns: the bytes that are left of the first message.
pub record Begun (ms : List Bytes) (r : Bytes × ℕ × WriteBuf) : Type 0 where
  pub first : Bytes
  pub later : List Bytes
  pub same : ms ≡ first ∷ later
  pub holds : Holds r.2 (first ∷ later)
  pub begun : r.2.is_writing ≡ true
  pub size : r.1 ≡ length first - r.2.pointer

prepare_write-empty :
    (b : WriteBuf) → Holds b [] → b.is_writing ≡ false → prepare_write b ≡ err assertion
unfolding prepare_write
prepare_write-empty b v idle = rw (idle, has_write_data_lem [] v) refl

pub prepare_write-Safe :
    (b : WriteBuf) (ms : List Bytes) → Holds b ms → Safe (Begun ms) (prepare_write b)
prepare_write-Safe b ms v = elim (Bool-cases b.is_writing) [
  | inl busy ↦ rw (prepare_write-writing b busy) (ends tt)
  | inr idle ↦ from_idle ms v idle
]
  where
    from_idle :
        (ms : List Bytes) → Holds b ms → b.is_writing ≡ false → Safe (Begun ms) (prepare_write b)
    from_idle [] v idle = rw (prepare_write-empty b v idle) (ends tt)
    from_idle (m ∷ q) v idle =
        let (e, w) = prepare_write_lem m q v idle in
        Safe-ok e
          (record { first = m; later = q; same = refl; holds = w; begun = refl; size = refl })

next_region-Writing :
    (b : WriteBuf) (d : Option Bytes) → AllOk (λ r. r.2.is_writing ≡ true) (next_region b d)
unfolding next_region
next_region-Writing b none = stops
next_region-Writing b (some d) = returns refl

-- Where `prepare_write` returns, a write has begun.
pub prepare_write-Writing : (b : WriteBuf) → AllOk (λ r. r.2.is_writing ≡ true) (prepare_write b)
unfolding prepare_write
prepare_write-Writing b =
    guard-AllOk (can_write b) assertion _
      (guard-AllOk (has_write_data b) assertion _ (next_region-Writing b b.data_))

start_message-Same :
    (b : WriteBuf) (msg : Bytes) → AllOk (λ b'. b'.is_writing ≡ b.is_writing) (start_message b msg)
unfolding start_message
start_message-Same b msg = AllOk-then (int_value (length msg)) (λ len fits. returns refl)

-- A new message does not change whether the buffer is being written.
pub push_write_data-Same :
    (b : WriteBuf) (msg : Bytes)
    → AllOk (λ b'. b'.is_writing ≡ b.is_writing) (push_write_data b msg)
unfolding push_write_data
push_write_data-Same b msg =
    if-AllOk (has_write_data b) _ _
      (AllOk-then (queue_push b.writequeue msg) (λ q pushed. returns refl))
      (start_message-Same b msg)

-- Behind the end of a write the buffer is not being written.
pub have_written-Idle :
    (b : WriteBuf) (size : ℕ) → AllOk (λ b'. b'.is_writing ≡ false) (have_written b size)
unfolding have_written next_message
have_written-Idle b size = guard-AllOk b.is_writing assertion _ (
    AllOk-then (int_value (b.pointer + size)) (λ end fits. guard-AllOk (leb end b.len) assertion _ (
      if-AllOk (ltb end b.len) _ _ (returns refl) (
        if-AllOk (not (queue_is_empty b.writequeue)) _ _
          (AllOk-then (queue_pop b.writequeue) (λ (s, q) popped.
            start_message-Same (record b { is_writing = false; writequeue = q }) s))
          (returns refl)))))
