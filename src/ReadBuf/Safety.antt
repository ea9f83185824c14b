-- ===== src/ReadBuf/Safety.antt =====
-- The calls on a read buffer stay inside its memory.
use why3_fork.Base.{
  ℕ, false, refl, ◌+◌, ◌≡◌, arith, List, length, Bool-cases, inl, inr, leb, ltb, assertion, err,
}
use why3_fork.Base.Safety.{Safe, ends, Safe-ok}
use why3_fork.ReadBuf.{ReadBuf, have_taken}
use why3_fork.ReadBuf.Holds.{Holds}
use why3_fork.ReadBuf.Taken.{have_taken_lem, have_taken-overlap}

-- A buffer that holds some bytes.
abbrev pub HoldsSome : ReadBuf → Type 0
HoldsSome b = (bytes : List ℕ) × Holds b bytes

too_many : (b : ReadBuf) (size : ℕ) → leb size b.len ≡ false → have_taken b size ≡ err assertion
unfolding have_taken
too_many b size e = rw e refl

pub have_taken-Safe :
    (b : ReadBuf) (bytes : List ℕ) (size : ℕ) → Holds b bytes → Safe HoldsSome (have_taken b size)
have_taken-Safe b bytes size v = elim (Bool-cases (leb size b.len)) [
  | inr many ↦ rw (too_many b size many) (ends tt)
  | inl inside ↦ elim (Bool-cases (ltb (size + size) (length bytes))) [
    | inl long ↦ rw (have_taken-overlap bytes size v (ground arith)) (ends tt)
    | inr apart ↦
        let (b', e, w, same) =
          have_taken_lem bytes size v (ground (arith, v.count)) (ground arith) in
        Safe-ok e (_, w)
  ]
]
