-- ===== src/Tests/Buffers.antt =====
-- src/server/readbuf.c and src/server/writebuf.c at concrete inputs.
use why3_fork.Base.{
  ℕ, ◌≡◌, refl, none, List, [], ◌∷◌, ◌++◌, arith, ok, err, overlap, ◌>>=◌, length, replicate, block,
}
use why3_fork.CString.{codes}
use why3_fork.ReadBuf.{ReadBuf, prepare_read, fill, have_read, have_taken}
use why3_fork.ReadBuf.Holds as reads
use why3_fork.ReadBuf.Holds.{have_read_lem}
use why3_fork.ReadBuf.Taken.{have_taken_lem, have_taken-overlap}
use why3_fork.WriteBuf.{Bytes, WriteBuf, init_writebuf}
use why3_fork.WriteBuf.Pending.{Holds, pending}
use why3_fork.WriteBuf.Stream.{Event, message, ready, deliver, all_bytes, deliver_in_order}

abbrev empty_buffer : ReadBuf
empty_buffer = record { data_ = replicate 4 none; len = 0; capacity = 4 }

empty_buffer-Holds : reads.Holds empty_buffer []
empty_buffer-Holds = record {
  rest = replicate 4 none;
  cells = refl;
  size = refl;
  count = refl;
  room = omega arith;
  positive = omega arith;
}

abbrev line : List ℕ
line = codes "run;x"

have_read_lem_example :
    (b : ReadBuf) × ((let (place, p) = prepare_read empty_buffer 1024 in
        fill p.data_ place line >>= λ cells. have_read (record p { data_ = cells }) (length line))
      ≡ ok b)
    × reads.Holds b line
have_read_lem_example = have_read_lem [] 1024 line empty_buffer-Holds (omega arith) (omega arith)

abbrev filled_buffer : ReadBuf
filled_buffer = record { data_ = block line (none ∷ []); len = 5; capacity = 6 }

filled_buffer-Holds : reads.Holds filled_buffer line
filled_buffer-Holds = record {
  rest = none ∷ [];
  cells = refl;
  size = refl;
  count = refl;
  room = omega arith;
  positive = omega arith;
}

have_taken_lem_example :
    (b : ReadBuf) × (have_taken filled_buffer 3 ≡ ok b)
    × reads.Holds b (codes ";x")
    × (b.capacity ≡ filled_buffer.capacity)
have_taken_lem_example = have_taken_lem line 3 filled_buffer-Holds (omega arith) (omega arith)

have_taken-overlap_example : have_taken filled_buffer 1 ≡ err overlap
have_taken-overlap_example = have_taken-overlap line 1 filled_buffer-Holds (omega arith)

abbrev events : List Event
events = message (codes "S;a") ∷ ready 2 ∷ message (codes "S;b") ∷ ready 5 ∷ ready 5 ∷ []

deliver_in_order_example :
    (out : Bytes) × (b : WriteBuf) × (ms : List Bytes) × ((init_writebuf 1 >>= λ start.
    deliver events start)
      ≡ ok (out, b))
    × Holds b ms
    × (out ++ pending b.pointer ms ≡ all_bytes events)
deliver_in_order_example =
    deliver_in_order 1 events (omega arith) (omega arith) (omega arith) (omega arith)
