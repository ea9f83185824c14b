-- ===== src/ReadBuf/Holds.antt =====
-- Which bytes a read buffer holds, and a read of more.
use why3_fork.Base.{
  ℕ, ◌+◌, ◌*◌, ◌≤◌, ◌<◌, ◌^◌, ◌≡◌, refl, ap, ◌∙◌, Option, none, List, [], ◌∷◌, ◌++◌, append_assoc,
  append-nil, inl, inr, arith, length, drop, length-append, length-drop, length-replicate,
  replicate, ok, ◌>>=◌, Bool-cases, ltb, block, length-block, store-block_end, realloc-block,
  resized_rest, length-resized_rest, ◌%◌,
}
use why3_fork.ReadBuf.{
  ReadBuf, size_mod, add_size, init_readbuf, resize_readbuf, prepare_read, have_read, fill,
  clear_readbuf,
}

-- The first `len` cells hold the bytes. Capacities are far from the end of `size_t`.
pub record Holds (b : ReadBuf) (bytes : List ℕ) : Type 0 where
  pub rest : List (Option ℕ)
  pub cells : b.data_ ≡ block bytes rest
  pub size : length bytes + length rest ≡ b.capacity
  pub count : b.len ≡ length bytes
  pub room : b.capacity < 2 ^ 62
  pub positive : 0 < b.capacity

pub init_readbuf-Holds :
    (n : ℕ) → 0 < n → n < 2 ^ 62 → (b : ReadBuf) × (init_readbuf n ≡ ok b) × Holds b []
unfolding init_readbuf
init_readbuf-Holds n h k = (
  record { data_ = replicate n none; len = 0; capacity = n },
  ground arith,
  record {
    rest = replicate n none;
    cells = refl;
    size = omega (arith, length-replicate {A = Option ℕ} n none);
    count = refl;
    room = k;
    positive = h;
  },
)

-- `prepare_read` keeps the bytes, makes room for `size` more and points behind the last one.
pub prepare_read_lem :
    {b : ReadBuf} (bytes : List ℕ) (size : ℕ)
    → Holds b bytes
    → b.capacity + size < 2 ^ 61
    → let (place, b') = prepare_read b size in
      (place ≡ length bytes) × Holds b' bytes × (length bytes + size ≤ b'.capacity)
unfolding prepare_read resize_readbuf
prepare_read_lem {b} bytes size v small = elim (Bool-cases (ltb b.capacity (add_size b.len size))) [
  | inl full ↦ rw full (v.count, grown, ground (arith, v.count))
  | inr fits ↦ rw fits (v.count, v, ground (arith, v.count))
]
  where
    n : ℕ
    n = add_size b.capacity size * 2 % size_mod

    length_block : length (block bytes v.rest) ≡ b.capacity
    length_block = length-block bytes v.rest ∙ v.size

    grown : Holds (resize_readbuf b n) bytes
    grown = record {
      rest = resized_rest bytes v.rest n;
      cells = rw v.cells (realloc-block bytes v.rest n (omega (arith, v.size)));
      size = length-resized_rest bytes v.rest n (omega (arith, length_block));
      count = v.count;
      room = omega arith;
      positive = omega (arith, v.positive);
    }

-- `read` stores its bytes behind those that the block holds.
fill_lem :
    (bytes cs : List ℕ) (rest : List (Option ℕ))
    → length cs ≤ length rest
    → fill (block bytes rest) (length bytes) cs ≡ ok (block (bytes ++ cs) (drop (length cs) rest))
unfolding fill
fill_lem bytes [] rest h = rw append-nil
fill_lem bytes (c ∷ cs) [] h = elim h [ ]
fill_lem bytes (c ∷ cs) (r ∷ rest) h =
    rw (store-block_end bytes r rest c, step)
      (rw (fill_lem (bytes ++ c ∷ []) cs rest (omega arith), append_assoc))
  where
    step : length bytes + 1 ≡ length (bytes ++ c ∷ [])
    step = omega (arith, length-append bytes (c ∷ []))

-- `prepare_read`, a read of at most the announced number of bytes and `have_read` put these
-- bytes behind those that are there, and do not stop. The capacity and the announced number are
-- below 2^61 together.
pub have_read_lem :
    {b : ReadBuf} (bytes : List ℕ) (size : ℕ) (cs : List ℕ)
    → Holds b bytes
    → b.capacity + size < 2 ^ 61
    → length cs ≤ size
    → let (place, p) = prepare_read b size in
      (b' : ReadBuf) × ((do
        data_ ← fill p.data_ place cs
        have_read (record p { data_ = data_ }) (length cs))
        ≡ ok b')
      × Holds b' (bytes ++ cs)
unfolding have_read
have_read_lem {b} bytes size cs v small h =
    let (at, w, room) = prepare_read_lem bytes size v small in
    let p = (prepare_read b size).1 in
    (
      record p {
        data_ = block (bytes ++ cs) (drop (length cs) w.rest);
        len = add_size p.len (length cs);
      },
      rw (at, w.cells, fill_lem bytes cs w.rest (omega (arith, w.size)))
          (ground (arith, w.count, w.room)),
      record {
        rest = drop (length cs) w.rest;
        cells = refl;
        size = omega (arith, length-append bytes cs, length-drop (length cs) w.rest, w.size);
        count = omega (arith, length-append bytes cs, w.count, w.room, w.size);
        room = w.room;
        positive = w.positive;
      },
    )

pub clear_readbuf-Holds :
    {b : ReadBuf} (bytes : List ℕ) → Holds b bytes → Holds (clear_readbuf b) []
unfolding clear_readbuf
clear_readbuf-Holds {b} bytes v = record {
  rest = b.data_;
  cells = refl;
  size = omega (arith, ap length v.cells, length-block bytes v.rest, v.size);
  count = refl;
  room = v.room;
  positive = v.positive;
}
