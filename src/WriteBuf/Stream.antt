-- ===== src/WriteBuf/Stream.antt =====
-- The bytes that a client receives, over any sequence of messages and partial writes.
use mathlib.Core.List.{flatten}
use why3_fork.Base.{
  ℕ, true, ◌+◌, ◌-◌, ◌≤◌, ◌<◌, ◌^◌, ◌≡◌, refl, sym, ap, ◌∙◌, false, List, [], ◌∷◌, ◌++◌,
  append_assoc, append-nil, arith, length, drop, take, length-append, length-drop, take-append-drop,
  Result, ok, ◌>>=◌, if◌then◌else◌, int_limit, take-append_le,
}
use Prim.Native.Nat.{min}
use why3_fork.WriteBuf.{
  Bytes, WriteBuf, init_writebuf, has_write_data, prepare_write, have_written, push_write_data,
}
use why3_fork.WriteBuf.Pending.{
  Holds, pending, pointer-idle, init_writebuf-Holds, has_write_data_lem, push_write_data_lem,
  prepare_write_lem, have_written_lem,
}

-- A message comes, or the socket takes up to `n` bytes.
pub data Event : Type 0 where
  message : Bytes → Event
  ready : ℕ → Event

-- One write to a socket that takes up to `n` bytes, with the bytes that it took.
unfoldable pub write_some : ℕ → WriteBuf → Result (Bytes × WriteBuf)
write_some n b = do
  (region, size, b') ← prepare_write b
  b'' ← have_written b' (min n size)
  ok (take (min n size) region, b'')

-- The bytes that the socket took, in order, and the buffer at the end.
unfoldable pub deliver : List Event → WriteBuf → Result (Bytes × WriteBuf)
deliver [] b = ok ([], b)
deliver (message s ∷ es) b = do b' ← push_write_data b s; deliver es b'
deliver (ready n ∷ es) b = do
  (out, b') ← if has_write_data b then write_some n b else ok ([], b)
  (later, b'') ← deliver es b'
  ok (out ++ later, b'')

-- All the bytes of the messages, one after another.
abbrev pub all_bytes : List Event → Bytes
all_bytes [] = []
all_bytes (message s ∷ es) = s ++ all_bytes es
all_bytes (ready n ∷ es) = all_bytes es

abbrev pub SmallMessages : List Event → Type 0
SmallMessages [] = Unit {0}
SmallMessages (message s ∷ es) = (length s < int_limit) × SmallMessages es
SmallMessages (ready n ∷ es) = SmallMessages es

-- What the client has received, what is still to write, and the buffer between writes.
pub record Delivered (start : Bytes) (es : List Event) (b : WriteBuf) : Type 0 where
  pub out : Bytes
  pub end : WriteBuf
  pub ms : List Bytes
  pub runs : deliver es b ≡ ok (out, end)
  pub holds : Holds end ms
  pub idle : end.is_writing ≡ false
  pub bytes : out ++ pending end.pointer ms ≡ start ++ all_bytes es

flatten-snoc : (q : List Bytes) (s : Bytes) → flatten (q ++ s ∷ []) ≡ flatten q ++ s
unfolding flatten
flatten-snoc [] s = append-nil s
flatten-snoc (m ∷ q) s = ap (◌++◌ m) (flatten-snoc q s) ∙ sym (append_assoc m (flatten q) s)

pending-snoc :
    (p : ℕ) (ms : List Bytes) (s : Bytes)
    → (ms ≡ [] → p ≡ 0)
    → pending p (ms ++ s ∷ []) ≡ pending p ms ++ s
unfolding flatten
pending-snoc p [] s h = rw (h refl) (append-nil s)
pending-snoc p (m ∷ q) s h =
    ap (◌++◌ (drop p m)) (flatten-snoc q s) ∙ sym (append_assoc (drop p m) (flatten q) s)

-- A begun write of which the socket takes up to `n` bytes: these bytes and what is still to write
-- are what was to write before.
pub have_written-pending :
    {b : WriteBuf} (m : Bytes) (q : List Bytes) (n : ℕ)
    → Holds b (m ∷ q)
    → b.is_writing ≡ false
    → let k = min n (length m - b.pointer) in
      (b' : WriteBuf) × (ms : List Bytes) × (have_written (record b { is_writing = true }) k
        ≡ ok b')
      × Holds b' ms
      × (b'.is_writing ≡ false)
      × (take k (drop b.pointer m) ++ pending b'.pointer ms ≡ pending b.pointer (m ∷ q))
      × (length ms ≤ length (m ∷ q))
have_written-pending {b} m q n v idle =
    let k = min n (length m - b.pointer) in
    let w = (prepare_write_lem m q v idle).1 in
    let (b', ms, e, h, i, rest, short) = have_written_lem m q k w refl (omega arith) in
    (
      b',
      ms,
      e,
      h,
      i,
      rw rest (
          ap (λ t. t ++ drop k (drop b.pointer m ++ flatten q))
            (sym (
              take-append_le k (drop b.pointer m) (flatten q)
                (omega (arith, length-drop b.pointer m))))
          ∙ take-append-drop k (drop b.pointer m ++ flatten q)),
      short,
    )

write_some_lem :
    {b : WriteBuf} (m : Bytes) (q : List Bytes) (n : ℕ)
    → Holds b (m ∷ q)
    → b.is_writing ≡ false
    → (out : Bytes) × (b' : WriteBuf) × (ms : List Bytes) × (write_some n b ≡ ok (out, b'))
      × Holds b' ms
      × (b'.is_writing ≡ false)
      × (out ++ pending b'.pointer ms ≡ pending b.pointer (m ∷ q))
      × (length ms ≤ length (m ∷ q))
unfolding write_some
write_some_lem {b} m q n v idle =
    let (b', ms, e, h, i, bytes, short) = have_written-pending m q n v idle in
    (_, b', ms, rw ((prepare_write_lem m q v idle).0, e) refl, h, i, bytes, short)

deliver-Delivered :
    (es : List Event) (b : WriteBuf) (ms : List Bytes)
    → Holds b ms
    → b.is_writing ≡ false
    → SmallMessages es
    → length ms + length es ≤ 2 ^ 30
    → Delivered (pending b.pointer ms) es b
unfolding deliver
deliver-Delivered [] b ms v idle small h = record {
  out = [];
  end = b;
  ms = ms;
  runs = refl;
  holds = v;
  idle = idle;
  bytes = sym (append-nil _);
}
deliver-Delivered (message s ∷ es) b ms v idle small h =
    let (b', e, w, at, same) = push_write_data_lem ms s v small.0 (omega arith) in
    let d =
      deliver-Delivered es b' (ms ++ s ∷ []) w (same ∙ idle) small.1
        (omega (arith, length-append ms (s ∷ []))) in
    record {
      out = d.out;
      end = d.end;
      ms = d.ms;
      runs = rw e d.runs;
      holds = d.holds;
      idle = d.idle;
      bytes =
          d.bytes
          ∙ ap (λ p. pending p (ms ++ s ∷ []) ++ all_bytes es) at
          ∙ ap (λ t. t ++ all_bytes es) (pending-snoc b.pointer ms s (pointer-idle ms v))
          ∙ append_assoc (pending b.pointer ms) s (all_bytes es);
    }
deliver-Delivered (ready n ∷ es) b [] v idle small h =
    let d = deliver-Delivered es b [] v idle small (omega arith) in
    record {
      out = d.out;
      end = d.end;
      ms = d.ms;
      runs = rw (has_write_data_lem [] v, d.runs);
      holds = d.holds;
      idle = d.idle;
      bytes = d.bytes;
    }
deliver-Delivered (ready n ∷ es) b (m ∷ q) v idle small h =
    let (out, b', ms, e, w, i, rest, short) = write_some_lem m q n v idle in
    let d = deliver-Delivered es b' ms w i small (omega arith) in
    record {
      out = out ++ d.out;
      end = d.end;
      ms = d.ms;
      runs = rw (has_write_data_lem (m ∷ q) v, e, d.runs);
      holds = d.holds;
      idle = d.idle;
      bytes =
          append_assoc out d.out _
          ∙ ap (◌++◌ out) d.bytes
          ∙ sym (append_assoc out (pending b'.pointer ms) (all_bytes es))
          ∙ ap (λ t. t ++ all_bytes es) rest;
    }

-- Whatever the messages, and however the socket takes them bit by bit, what a new buffer has handed
-- to the socket, followed by what it still holds, is all the messages in order; no call stops. The
-- messages have `int` lengths, there are at most 2^30 events, and the buffer was made for a
-- capacity from 1 to 2^31.
pub deliver_in_order :
    (capacity : ℕ) (es : List Event)
    → 0 < capacity
    → capacity ≤ 2 ^ 31
    → SmallMessages es
    → length es ≤ 2 ^ 30
    → (out : Bytes) × (b : WriteBuf) × (ms : List Bytes) × ((init_writebuf capacity >>= λ start.
          deliver es start)
        ≡ ok (out, b))
      × Holds b ms
      × (out ++ pending b.pointer ms ≡ all_bytes es)
deliver_in_order capacity es h k small few =
    let (b, e, v, idle) = init_writebuf-Holds capacity h k in
    let d = deliver-Delivered es b [] v idle small (omega arith) in
    (d.out, d.end, d.ms, rw (e, d.runs), d.holds, d.bytes)
