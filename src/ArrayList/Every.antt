-- ===== src/ArrayList/Every.antt =====
-- A property of every element of a list, and the operations that keep it.
use why3_fork.Base.{◌≡◌, subst, some, List, [], ◌∷◌, ◌++◌, arith, Bool-cases, inl, inr}
use why3_fork.Base.Int.{ℤ, eq_ℤ}
use why3_fork.ArrayList.Entries.{Entry, lookup, last_of, front_of, last_first, remove}

module _ {A : Type 0} (P : A → Type 0) where
  abbrev pub Every : List (Entry A) → Type 0
  Every [] = Unit {0}
  Every ((k, a) ∷ es) = P a × Every es

  pub append-Every :
      (es : List (Entry A)) (k : ℤ) (a : A) → Every es → P a → Every (es ++ (k, a) ∷ [])
  append-Every [] k a h p = (p, tt)
  append-Every ((j, b) ∷ es) k a h p = (h.0, append-Every es k a h.1 p)

  pub lookup-Every : (es : List (Entry A)) (k : ℤ) (a : A) → Every es → lookup k es ≡ some a → P a
  unfolding lookup
  lookup-Every [] k a h e = absurd cc
  lookup-Every ((j, b) ∷ es) k a h e = elim (Bool-cases (eq_ℤ j k)) [
    | inl hit ↦ let same : b ≡ a = ground arith in subst P same h.0
    | inr miss ↦ lookup-Every es k a h.1 (ground arith)
  ]

  last_of-Every : (x : Entry A) (xs : List (Entry A)) → P x.1 → Every xs → P (last_of x xs).1
  last_of-Every x [] p h = p
  last_of-Every x (y ∷ ys) p h = last_of-Every y ys h.0 h.1

  front_of-Every : (x : Entry A) (xs : List (Entry A)) → P x.1 → Every xs → Every (front_of x xs)
  front_of-Every x [] p h = tt
  front_of-Every x (y ∷ ys) p h = (p, front_of-Every y ys h.0 h.1)

  last_first-Every : (es : List (Entry A)) → Every es → Every (last_first es)
  last_first-Every [] h = tt
  last_first-Every (x ∷ xs) h = (last_of-Every x xs h.0 h.1, front_of-Every x xs h.0 h.1)

  pub remove-Every : (k : ℤ) (es : List (Entry A)) → Every es → Every (remove k es)
  unfolding remove
  remove-Every k [] h = tt
  remove-Every k ((j, a) ∷ es) h = elim (Bool-cases (eq_ℤ j k)) [
    | inl hit ↦ rw hit (last_first-Every es h.1)
    | inr miss ↦ rw miss (h.0, remove-Every k es h.1)
  ]
