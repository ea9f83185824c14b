-- ===== src/Base/Prefix.antt =====
-- Blocks whose first cells are written: those hold a list, and the rest is of no interest.
use Prim.Native.Nat.{ℕ, zero, suc, ◌+◌, ◌-◌, ◌≤◌, ◌<◌}
use mathlib.Core.Path.{◌≡◌, refl, ap, ◌∙◌}
use mathlib.Core.Option.{Option, none, some}
use mathlib.Core.List.{List, [], ◌∷◌, ◌++◌, map, append_assoc}
use native.Mathlib.Omega.{arith}
use why3_fork.Base.Lists.{
  length, get_elem?, set, replicate, length-take, length-replicate, take, drop, length-append,
}
use why3_fork.Base.Results.{ok}
use why3_fork.Base.Memory.{realloc, load, load_lem, store, store_lem}

module _ {ℓ} {A : Type ℓ} where
  -- The block of cells that hold `xs`, then `rest`.
  abbrev pub block : List A → List (Option A) → List (Option A)
  block xs rest = map some xs ++ rest

  pub length-map {κ} : {B : Type κ} (f : A → B) (xs : List A) → length (map f xs) ≡ length xs
  length-map f [] = refl
  length-map f (x ∷ xs) = ap suc (length-map f xs)

  pub length-block :
      (xs : List A) (rest : List (Option A)) → length (block xs rest) ≡ length xs + length rest
  length-block [] rest = omega arith
  length-block (x ∷ xs) rest = omega (arith, length-block xs rest)

  get_elem?-block :
      (xs : List A) (rest : List (Option A)) (i : ℕ) {a : A}
      → get_elem? xs i ≡ some a
      → get_elem? (block xs rest) i ≡ some (some a)
  get_elem?-block [] rest i e = cc
  get_elem?-block (x ∷ xs) rest zero e = ap (λ o. some o) e
  get_elem?-block (x ∷ xs) rest (suc i) e = get_elem?-block xs rest i e

  pub load-block :
      (xs : List A) (rest : List (Option A)) (i : ℕ) {a : A}
      → get_elem? xs i ≡ some a
      → load (block xs rest) i ≡ ok a
  load-block xs rest i e = load_lem (block xs rest) i (get_elem?-block xs rest i e)

  set-block :
      (xs : List A) (rest : List (Option A)) (i : ℕ) (v : A)
      → i < length xs
      → set (block xs rest) i (some v) ≡ block (set xs i v) rest
  set-block [] rest i v h = elim h [ ]
  set-block (x ∷ xs) rest zero v h = refl
  set-block (x ∷ xs) rest (suc i) v h = ap (◌∷◌ (some x)) (set-block xs rest i v (omega arith))

  pub store-block :
      (xs : List A) (rest : List (Option A)) (i : ℕ) (v : A)
      → i < length xs
      → store (block xs rest) i v ≡ ok (block (set xs i v) rest)
  store-block xs rest i v h =
      store_lem (block xs rest) i v (omega (arith, length-block xs rest))
      ∙ ap ok (set-block xs rest i v h)

  set-block_end :
      (xs : List A) (r : Option A) (rest : List (Option A)) (v : A)
      → set (block xs (r ∷ rest)) (length xs) (some v) ≡ block (xs ++ v ∷ []) rest
  set-block_end [] r rest v = refl
  set-block_end (x ∷ xs) r rest v = ap (◌∷◌ (some x)) (set-block_end xs r rest v)

  pub store-block_end :
      (xs : List A) (r : Option A) (rest : List (Option A)) (v : A)
      → store (block xs (r ∷ rest)) (length xs) v ≡ ok (block (xs ++ v ∷ []) rest)
  store-block_end xs r rest v =
      store_lem (block xs (r ∷ rest)) (length xs) v (omega (arith, length-block xs (r ∷ rest)))
      ∙ ap ok (set-block_end xs r rest v)

  pub take-block :
      (xs : List A) (rest : List (Option A)) (n : ℕ)
      → length xs ≤ n
      → take n (block xs rest) ≡ block xs (take (n - length xs) rest)
  take-block [] rest n h = ap (λ k. take k rest) (omega arith)
  take-block (x ∷ xs) rest zero h = elim h [ ]
  take-block (x ∷ xs) rest (suc n) h =
      ap (◌∷◌ (some x))
        (take-block xs rest n (omega arith) ∙ ap (λ k. block xs (take k rest)) (omega arith))

  pub drop-block :
      (xs : List A) (rest : List (Option A)) (n : ℕ)
      → n ≤ length xs
      → drop n (block xs rest) ≡ block (drop n xs) rest
  drop-block xs rest zero h = refl
  drop-block [] rest (suc n) h = elim h [ ]
  drop-block (x ∷ xs) rest (suc n) h = drop-block xs rest n (omega arith)

  pub take-block-length :
      (xs : List A) (rest : List (Option A)) → take (length xs) (block xs rest) ≡ map some xs
  take-block-length [] rest = refl
  take-block-length (x ∷ xs) rest = ap (◌∷◌ (some x)) (take-block-length xs rest)

  -- What a block of another size holds behind the list.
  abbrev pub resized_rest : List A → List (Option A) → ℕ → List (Option A)
  resized_rest xs rest n = take (n - length xs) rest ++ replicate (n - length (block xs rest)) none

  pub realloc-block :
      (xs : List A) (rest : List (Option A)) (n : ℕ)
      → length xs ≤ n
      → realloc (block xs rest) n ≡ block xs (resized_rest xs rest n)
  unfolding realloc
  realloc-block xs rest n h =
      ap (λ t. t ++ replicate (n - length (block xs rest)) none) (take-block xs rest n h)
      ∙ append_assoc (map some xs) (take (n - length xs) rest) _

  pub length-resized_rest :
      (xs : List A) (rest : List (Option A)) (n : ℕ)
      → length (block xs rest) ≤ n
      → length xs + length (resized_rest xs rest n) ≡ n
  length-resized_rest xs rest n h = omega (
    arith,
    length-block xs rest,
    length-append (take (n - length xs) rest) (replicate (n - length (block xs rest)) none),
    length-take (n - length xs) rest,
    length-replicate {A = Option A} (n - length (block xs rest)) none,
  )
