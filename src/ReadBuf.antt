-- ===== src/ReadBuf.antt =====
-- src/server/readbuf.c: the bytes read from a client and not yet taken. `t_readbuf` is `ReadBuf`,
-- and the functions that change `*b` return the new record. Sums and products of `size_t` wrap.
pub mod Holds
pub mod Taken
pub mod Safety
use why3_fork.Base.{
  ℕ, ◌+◌, ◌-◌, ◌*◌, ◌%◌, ◌^◌, Option, none, List, [], ◌∷◌, replicate, Result, ok, assertion, guard,
  ◌>>=◌, ◌>>◌, ltb, leb, if◌then◌else◌, store, realloc, memcpy,
}

pub record ReadBuf : Type 0 where
  pub data_ : List (Option ℕ)
  pub len : ℕ
  pub capacity : ℕ

abbrev pub size_mod : ℕ
size_mod = 2 ^ 64

abbrev pub add_size : ℕ → ℕ → ℕ
add_size a b = (a + b) % size_mod

unfoldable pub init_readbuf : ℕ → Result ReadBuf
init_readbuf capacity = do
  guard (ltb 0 capacity) assertion
  ok (record { data_ = replicate capacity none; len = 0; capacity = capacity })

unfoldable pub resize_readbuf : ReadBuf → ℕ → ReadBuf
resize_readbuf b newcapacity = record b {
  data_ = realloc b.data_ newcapacity;
  capacity = newcapacity;
}

-- The pointer that is returned is the place `len` of the block.
unfoldable pub prepare_read : ReadBuf → ℕ → ℕ × ReadBuf
prepare_read b size =
    let b' =
      if ltb b.capacity (add_size b.len size)
      then resize_readbuf b (add_size b.capacity size * 2 % size_mod)
      else b in
    (b'.len, b')

unfoldable pub have_read : ReadBuf → ℕ → Result ReadBuf
have_read b size = do
  guard (leb (add_size b.len size) b.capacity) assertion
  ok (record b { len = add_size b.len size })

unfoldable pub have_taken : ReadBuf → ℕ → Result ReadBuf
have_taken b size = do
  guard (leb size b.len) assertion
  data_ ← memcpy b.data_ 0 size (b.len - size)
  ok (record b { data_ = data_; len = b.len - size })

unfoldable pub clear_readbuf : ReadBuf → ReadBuf
clear_readbuf b = record b { len = 0 }

-- What `read` does to the block: it stores the bytes that it got from `place` on.
unfoldable pub fill : List (Option ℕ) → ℕ → List ℕ → Result (List (Option ℕ))
fill m place [] = ok m
fill m place (c ∷ cs) = do m' ← store m place c; fill m' (place + 1) cs
