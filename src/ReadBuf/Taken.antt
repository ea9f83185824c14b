-- ===== src/ReadBuf/Taken.antt =====
-- `have_taken` moves the bytes that stay to the front by `memcpy`, which wants them not to overlap
-- the place where they go.
use why3_fork.Base.{
  ℕ, ◌+◌, ◌-◌, ◌≤◌, ◌<◌, ◌≡◌, refl, ap, ◌∙◌, List, ◌++◌, arith, length, drop, take, length-append,
  length-drop, length-take, ok, err, overlap, memcpy, length-block, take-block, drop-block, some,
  map, append_assoc,
}
use why3_fork.ReadBuf.{ReadBuf, have_taken}
use why3_fork.ReadBuf.Holds.{Holds}

-- `have_taken` takes bytes from the front and leaves the others in order, where the number of
-- those that stay is at most the number of those that go.
pub have_taken_lem :
    {b : ReadBuf} (bytes : List ℕ) (size : ℕ)
    → Holds b bytes
    → size ≤ length bytes
    → length bytes ≤ size + size
    → (b' : ReadBuf) × (have_taken b size ≡ ok b')
      × Holds b' (drop size bytes)
      × (b'.capacity ≡ b.capacity)
unfolding have_taken memcpy
have_taken_lem {b} bytes size v inside apart = (
  record b { data_ = take n (drop size b.data_) ++ drop (0 + n) b.data_; len = n },
  ground (arith, v.count, v.size, length_data),
  record {
    rest = take (n - length kept) v.rest ++ drop (0 + n) b.data_;
    cells =
        ap (λ m. take n (drop size m) ++ drop (0 + n) b.data_) v.cells
        ∙ ap (λ m. take n m ++ drop (0 + n) b.data_) (drop-block bytes v.rest size inside)
        ∙ ap (λ m. m ++ drop (0 + n) b.data_)
            (take-block kept v.rest n (omega (arith, length_kept)))
        ∙ append_assoc (map some kept) _ _;
    size = omega (
      arith,
      length-append (take (n - length kept) v.rest) (drop (0 + n) b.data_),
      length-take (n - length kept) v.rest,
      length-drop (0 + n) b.data_,
      length_kept,
      length_data,
      v.count,
      v.size,
    );
    count = omega (arith, length_kept);
    room = v.room;
    positive = v.positive;
  },
  refl,
)
  where
    n : ℕ
    n = b.len - size

    kept : List ℕ
    kept = drop size bytes

    length_kept : length kept ≡ n
    length_kept = omega (arith, length-drop size bytes, v.count)

    length_data : length b.data_ ≡ b.capacity
    length_data = ap length v.cells ∙ length-block bytes v.rest ∙ v.size

-- Where more bytes stay than go, the two areas of the `memcpy` in `have_taken` overlap: the
-- call is undefined.
pub have_taken-overlap :
    {b : ReadBuf} (bytes : List ℕ) (size : ℕ)
    → Holds b bytes
    → size + size < length bytes
    → have_taken b size ≡ err overlap
unfolding have_taken memcpy
have_taken-overlap {b} bytes size v long =
    ground (arith, v.count, v.size, ap length v.cells, length-block bytes v.rest)
