-- ===== src/WriteBuf/Pending.antt =====
-- Which messages a write buffer holds, and how each call changes the bytes that are still to write.
use mathlib.Core.List.{flatten}
use why3_fork.Base.{
  ℕ, ◌+◌, ◌-◌, ◌≤◌, ◌<◌, ◌^◌, ◌≡◌, refl, sym, ap, ◌∙◌, Bool, true, false, none, some, List, [], ◌∷◌,
  ◌++◌, arith, length, drop, inl, inr, length-drop, drop-drop, drop-append_le, drop-all, ok, err,
  assertion, Bool-cases, ltb, int_limit,
}
use why3_fork.Queue.Holds.{
  Holds as HoldsQueue, init_queue-Holds, queue_pop_lem, queue_is_empty_lem, popped,
}
use why3_fork.Queue.Push.{queue_push_lem}
use why3_fork.WriteBuf.{
  Bytes, WriteBuf, init_writebuf, has_write_data, prepare_write, have_written, push_write_data,
  next_message,
}

-- Every message has an `int` for its length.
abbrev pub AllSmall : List Bytes → Type 0
AllSmall [] = Unit {0}
AllSmall (m ∷ ms) = (length m < int_limit) × AllSmall ms

-- The message that is being written, up to the pointer, and those that wait.
abbrev pub Current : WriteBuf → List Bytes → Type 0
Current b [] = (b.data_ ≡ none) × (b.len ≡ 0) × (b.pointer ≡ 0) × HoldsQueue b.writequeue []
Current b (m ∷ q) =
    (b.data_ ≡ some m) × (b.len ≡ length m) × (b.pointer ≤ length m) × HoldsQueue b.writequeue q

pub record Holds (b : WriteBuf) (ms : List Bytes) : Type 0 where
  pub current : Current b ms
  pub small : AllSmall ms

-- The bytes to write: the messages, without the `p` bytes of the first that are written.
abbrev pub pending : ℕ → List Bytes → Bytes
pending p [] = []
pending p (m ∷ q) = drop p m ++ flatten q

pub AllSmall-append :
    (ms : List Bytes) (s : Bytes) → AllSmall ms → length s < int_limit → AllSmall (ms ++ s ∷ [])
AllSmall-append [] s a h = (h, tt)
AllSmall-append (m ∷ ms) s a h = (a.0, AllSmall-append ms s a.1 h)

pub init_writebuf-Holds :
    (n : ℕ)
    → 0 < n
    → n ≤ 2 ^ 31
    → (b : WriteBuf) × (init_writebuf n ≡ ok b) × Holds b [] × (b.is_writing ≡ false)
unfolding init_writebuf
init_writebuf-Holds n h k =
    let (q, e, v) = init_queue-Holds {A = Bytes} n h k in
    (
      record { data_ = none; len = 0; pointer = 0; is_writing = false; writequeue = q },
      rw e,
      record { current = (refl, refl, refl, v); small = tt },
      refl,
    )

abbrev pub any_left : List Bytes → Bool
any_left [] = false
any_left (m ∷ q) = true

-- There is something to write exactly when a message is held.
pub has_write_data_lem :
    {b : WriteBuf} (ms : List Bytes) → Holds b ms → has_write_data b ≡ any_left ms
unfolding has_write_data
has_write_data_lem [] v = ground (arith, v.current.0)
has_write_data_lem (m ∷ q) v = ground (arith, v.current.0)

-- With no message held nothing of one is written.
pub pointer-idle : {b : WriteBuf} (ms : List Bytes) → Holds b ms → ms ≡ [] → b.pointer ≡ 0
pointer-idle [] v e = v.current.2
pointer-idle (m ∷ q) v e = cc

-- A push puts the message last, and leaves the write in progress as it is.
pub push_write_data_lem :
    {b : WriteBuf} (ms : List Bytes) (s : Bytes)
    → Holds b ms
    → length s < int_limit
    → length ms ≤ 2 ^ 30
    → (b' : WriteBuf) × (push_write_data b s ≡ ok b')
      × Holds b' (ms ++ s ∷ [])
      × (b'.pointer ≡ b.pointer)
      × (b'.is_writing ≡ b.is_writing)
unfolding push_write_data
push_write_data_lem {b} [] s v h k = (
  record b { data_ = some s; len = length s; pointer = 0 },
  ground (arith, v.current.0),
  record { current = (refl, refl, omega arith, v.current.3); small = (h, tt) },
  sym v.current.2,
  refl,
)
push_write_data_lem {b} (m ∷ q) s v h k =
    let (r, e, w) = queue_push_lem s q v.current.3 (omega arith) in
    (
      record b { writequeue = r },
      ground (arith, v.current.0, e),
      record {
        current = (v.current.0, v.current.1, v.current.2, w);
        small = AllSmall-append (m ∷ q) s v.small h;
      },
      refl,
      refl,
    )

-- `prepare_write` hands out what is left of the current message, and marks the write as begun.
pub prepare_write_lem :
    {b : WriteBuf} (m : Bytes) (q : List Bytes)
    → Holds b (m ∷ q)
    → b.is_writing ≡ false
    → (prepare_write b
        ≡ ok (drop b.pointer m, length m - b.pointer, record b { is_writing = true }))
      × Holds (record b { is_writing = true }) (m ∷ q)
unfolding prepare_write
prepare_write_lem {b} m q v idle =
    (ground (arith, v.current.0, v.current.1), record { current = v.current; small = v.small })

-- A second `prepare_write` before `have_written` fails its assertion.
pub prepare_write-writing : (b : WriteBuf) → b.is_writing ≡ true → prepare_write b ≡ err assertion
unfolding prepare_write
prepare_write-writing b w = ground arith

-- The whole current message is written: the next one becomes current.
next_message_lem :
    {b : WriteBuf} (m : Bytes) (q : List Bytes)
    → Holds b (m ∷ q)
    → (b' : WriteBuf) × (next_message b ≡ ok b')
      × Holds b' q
      × (b'.pointer ≡ 0)
      × (b'.is_writing ≡ b.is_writing)
unfolding next_message
next_message_lem {b} m [] v = (
  record b { data_ = none; len = 0; pointer = 0 },
  rw (queue_is_empty_lem [] v.current.3),
  record { current = (refl, refl, refl, v.current.3); small = tt },
  refl,
  refl,
)
next_message_lem {b} m (s ∷ q) v =
    let (e, w) = queue_pop_lem s q v.current.3 in
    (
      record b { data_ = some s; len = length s; pointer = 0; writequeue = popped b.writequeue },
      rw (queue_is_empty_lem (s ∷ q) v.current.3, e) (ground (arith, v.small.1.0)),
      record { current = (refl, refl, omega arith, w); small = v.small.1 },
      refl,
      refl,
    )

pub pending-zero : (ms : List Bytes) → pending 0 ms ≡ flatten ms
unfolding flatten
pending-zero [] = refl
pending-zero (m ∷ q) = refl

-- `have_written` takes the written bytes off the front of those that are pending.
pub have_written_lem :
    {b : WriteBuf} (m : Bytes) (q : List Bytes) (n : ℕ)
    → Holds b (m ∷ q)
    → b.is_writing ≡ true
    → n ≤ length m - b.pointer
    → (b' : WriteBuf) × (ms : List Bytes) × (have_written b n ≡ ok b')
      × Holds b' ms
      × (b'.is_writing ≡ false)
      × (pending b'.pointer ms ≡ drop n (pending b.pointer (m ∷ q)))
      × (length ms ≤ length (m ∷ q))
unfolding have_written
have_written_lem {b} m q n v writing h = elim (Bool-cases (ltb (b.pointer + n) b.len)) [
  | inl part ↦ (
    record b { is_writing = false; pointer = b.pointer + n },
    m ∷ q,
    ground (arith, v.current.1, v.current.2, v.small.0),
    record {
      current = (v.current.0, v.current.1, omega (arith, v.current.2), v.current.3);
      small = v.small;
    },
    refl,
    sym front,
    omega arith,
  )
  | inr whole ↦
      let (b', e, w, start, idle) =
        next_message_lem {b = record b { is_writing = false }} m q
          (record { current = v.current; small = v.small }) in
      (
        b',
        q,
        ground (arith, v.current.1, v.current.2, v.small.0, e),
        w,
        idle,
        rw start (pending-zero q ∙ sym (front ∙ ap (λ t. t ++ flatten q) (done whole))),
        omega arith,
      )
]
  where
    front : drop n (drop b.pointer m ++ flatten q) ≡ drop (b.pointer + n) m ++ flatten q
    front =
        drop-append_le n (drop b.pointer m) (flatten q) (omega (arith, length-drop b.pointer m, h))
        ∙ ap (λ t. t ++ flatten q) (drop-drop b.pointer n m)

    done : ltb (b.pointer + n) b.len ≡ false → drop (b.pointer + n) m ≡ []
    done whole = drop-all (b.pointer + n) m (ground (arith, v.current.1))
