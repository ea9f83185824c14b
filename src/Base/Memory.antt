-- ===== src/Base/Memory.antt =====
-- A block of memory is a list of cells, `none` for one that nothing has written yet. Accesses out
-- of bounds, reads of such a cell and overlapping copies are undefined in C, and stop the run.
-- Allocation always succeeds: most of the code does not test for its failure.
use Prim.Native.Nat.{ℕ, ◌+◌, ◌-◌, ◌≤◌, ◌<◌}
use mathlib.Core.Path.{◌≡◌, refl, ◌∙◌}
use mathlib.Core.Bool.{◌&&◌, ◌||◌}
use mathlib.Core.Option.{Option, none, some}
use mathlib.Core.List.{List, ◌++◌}
use native.Mathlib.Omega.{arith}
use why3_fork.Base.Tests.{ltb, leb, le→leb, if◌then◌else◌}
use why3_fork.Base.Lists.{
  length, get_elem?, set, take, drop, replicate, length-append, length-take, length-drop,
  length-replicate, get_elem?-append_left, get_elem?-append_right, get_elem?-take, get_elem?-drop,
}
use why3_fork.Base.Results.{Result, ok, err, out_of_bounds, uninitialised, overlap, guard, ◌>>◌}

module _ {ℓ} {A : Type ℓ} where
  -- the value of a cell that an index found
  cell_value : Option (Option A) → Result A
  cell_value none = err out_of_bounds
  cell_value (some none) = err uninitialised
  cell_value (some (some a)) = ok a

  unfoldable pub load : List (Option A) → ℕ → Result A
  unfolding cell_value
  load m i = cell_value (get_elem? m i)

  unfoldable pub store : List (Option A) → ℕ → A → Result (List (Option A))
  store m i v = if ltb i (length m) then ok (set m i (some v)) else err out_of_bounds

  unfoldable pub realloc : List (Option A) → ℕ → List (Option A)
  realloc m n = take n m ++ replicate (n - length m) none

  -- `memcpy (m + dst, m + src, n)` inside one block.
  unfoldable pub memcpy : List (Option A) → ℕ → ℕ → ℕ → Result (List (Option A))
  memcpy m dst src n = do
    guard (leb (dst + n) (length m) && leb (src + n) (length m)) out_of_bounds
    guard (leb (dst + n) src || leb (src + n) dst) overlap
    ok (take dst m ++ (take n (drop src m) ++ drop (dst + n) m))

module _ {ℓ} {A : Type ℓ} where
  pub load_lem :
      (m : List (Option A)) (i : ℕ) {a : A} → get_elem? m i ≡ some (some a) → load m i ≡ ok a
  unfolding load
  load_lem m i e = rw e

  pub store_lem :
      (m : List (Option A)) (i : ℕ) (v : A) → i < length m → store m i v ≡ ok (set m i (some v))
  unfolding store
  store_lem m i v h = ground arith

  pub length-realloc : (m : List (Option A)) (n : ℕ) → length m ≤ n → length (realloc m n) ≡ n
  unfolding realloc
  length-realloc m n h = omega (
    arith,
    length-append (take n m) (replicate (n - length m) none),
    length-take n m,
    length-replicate {A = Option A} (n - length m) none,
  )

  -- Growing keeps what was stored.
  pub get_elem?-realloc :
      (m : List (Option A)) (n i : ℕ)
      → length m ≤ n
      → i < length m
      → get_elem? (realloc m n) i ≡ get_elem? m i
  unfolding realloc
  get_elem?-realloc m n i h k =
      get_elem?-append_left (take n m) _ i (omega (arith, length-take n m))
      ∙ get_elem?-take n m i (omega arith)

  -- A copy to the end of the block, from below it.
  pub memcpy_lem :
      (m : List (Option A)) (dst src n : ℕ)
      → dst + n ≡ length m
      → src + n ≤ dst
      → (m' : List (Option A)) × (memcpy m dst src n ≡ ok m')
        × (length m' ≡ length m)
        × ((i : ℕ) → i < dst → get_elem? m' i ≡ get_elem? m i)
        × ((i : ℕ) → i < n → get_elem? m' (dst + i) ≡ get_elem? m (src + i))
  unfolding memcpy
  memcpy_lem m dst src n e h = (
    take dst m ++ (take n (drop src m) ++ drop (dst + n) m),
    rw
        (
          le→leb (dst + n) (length m) (omega arith),
          le→leb (src + n) (length m) (omega arith),
          le→leb (src + n) dst h,
        )
        (ground arith),
    omega (
      arith,
      length-append (take dst m) (take n (drop src m) ++ drop (dst + n) m),
      length-append (take n (drop src m)) (drop (dst + n) m),
      length-take dst m,
      length-take n (drop src m),
      length-drop src m,
      length-drop (dst + n) m,
    ),
    (λ i k.
        get_elem?-append_left (take dst m) _ i (omega (arith, length-take dst m))
        ∙ get_elem?-take dst m i k),
    λ i k.
        get_elem?-append_right (take dst m) _ (dst + i) i (omega (arith, length-take dst m))
        ∙ get_elem?-append_left (take n (drop src m)) _ i
            (omega (arith, length-take n (drop src m), length-drop src m))
        ∙ get_elem?-take n (drop src m) i k
        ∙ get_elem?-drop src m i (src + i) refl,
  )

module _ {ℓ} {A : Type ℓ} where
  cell_value-inverse :
      (cell : Option (Option A)) {a : A} → cell_value cell ≡ ok a → cell ≡ some (some a)
  unfolding cell_value
  cell_value-inverse none h = cc
  cell_value-inverse (some none) h = cc
  cell_value-inverse (some (some b)) h = cc

  pub load-inverse :
      (m : List (Option A)) (i : ℕ) {a : A} → load m i ≡ ok a → get_elem? m i ≡ some (some a)
  unfolding load
  load-inverse m i h = cell_value-inverse (get_elem? m i) h
