-- ===== src/WriteBuf.antt =====
-- src/server/writebuf.c: the messages that wait to be written to a client. `t_writebuf` is
-- `WriteBuf`. A message is the list of its bytes, without the closing NUL and with no NUL inside,
-- and a null pointer is `none`. `free` is left out: it changes nothing that the model keeps.
pub mod Pending
pub mod Stream
pub mod Safety
use why3_fork.Base.{
  ℕ, zero, suc, ◌+◌, ◌-◌, Bool, true, false, not, Option, none, some, List, [], drop, length,
  Result, ok, err, assertion, null_pointer, overflow, guard, ◌>>=◌, ◌>>◌, ltb, leb, if◌then◌else◌,
  int_value,
}
use why3_fork.Queue.{
  Queue, init_queue, queue_is_empty, queue_pop, queue_push, free_queue, queue_length,
}

abbrev pub Bytes : Type 0
Bytes = List ℕ

pub record WriteBuf : Type 0 where
  pub data_ : Option Bytes
  pub len : ℕ
  pub pointer : ℕ
  pub is_writing : Bool
  pub writequeue : Queue Bytes

unfoldable pub init_writebuf : ℕ → Result WriteBuf
init_writebuf capacity = do
  q ← init_queue capacity
  ok (record { data_ = none; len = 0; pointer = 0; is_writing = false; writequeue = q })

unfoldable pub can_write : WriteBuf → Bool
can_write b = not b.is_writing

unfoldable pub has_write_data : WriteBuf → Bool
has_write_data b = elim b.data_ [ none ↦ false | some d ↦ true ]

-- The bytes from the pointer that is returned, and `*size`.
next_region : WriteBuf → Option Bytes → Result (Bytes × ℕ × WriteBuf)
next_region b none = err null_pointer
next_region b (some d) = ok (drop b.pointer d, b.len - b.pointer, record b { is_writing = true })

unfoldable pub prepare_write : WriteBuf → Result (Bytes × ℕ × WriteBuf)
unfolding next_region can_write has_write_data
prepare_write b = do
  guard (can_write b) assertion
  guard (has_write_data b) assertion
  next_region b b.data_

-- `b->data = s` and `b->len = strlen(s)`.
start_message : WriteBuf → Bytes → Result WriteBuf
start_message b s = do
  len ← int_value (length s)
  ok (record b { data_ = some s; len = len; pointer = 0 })

-- The current message is written: the next one is taken from the queue.
next_message : WriteBuf → Result WriteBuf
unfolding start_message
next_message b =
    if not (queue_is_empty b.writequeue)
    then (do (s, q) ← queue_pop b.writequeue; start_message (record b { writequeue = q }) s)
    else ok (record b { data_ = none; len = 0; pointer = 0 })

unfoldable pub have_written : WriteBuf → ℕ → Result WriteBuf
unfolding next_message
have_written b size = do
  guard b.is_writing assertion
  end ← int_value (b.pointer + size)
  guard (leb end b.len) assertion
  let idle = record b { is_writing = false }
  if ltb end b.len then ok (record idle { pointer = end }) else next_message idle

unfoldable pub push_write_data : WriteBuf → Bytes → Result WriteBuf
unfolding start_message has_write_data
push_write_data b s =
    if has_write_data b
    then (do q ← queue_push b.writequeue s; ok (record b { writequeue = q }))
    else start_message b s

-- `while (!queue_is_empty(q)) free(queue_pop(q))`, with the number of rounds allowed.
unfoldable pub drain : ℕ → Queue Bytes → Result (Queue Bytes)
drain zero q = ok q
drain (suc fuel) q =
    let rest = (do (s, q') ← queue_pop q; drain fuel q') in if queue_is_empty q then ok q else rest

unfoldable pub free_writebuf : WriteBuf → Result (Unit {0})
unfolding drain
free_writebuf b = do q ← drain (queue_length b.writequeue) b.writequeue; free_queue q
