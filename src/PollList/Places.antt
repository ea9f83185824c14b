-- ===== src/PollList/Places.antt =====
-- Cells of a poll list between others.
use why3_fork.Base.{
  ℕ, ◌≡◌, ◌⊎◌, refl, ap, ◌∙◌, Option, some, List, [], ◌∷◌, ◌++◌, arith, length, length-append, ok,
  block, store, store-block, get_elem?, set, inl, inr,
}
use why3_fork.PollList.{PollFd, PollList}

pub append_nil : (xs : List PollFd) → xs ++ [] ≡ xs
append_nil [] = refl
append_nil (x ∷ xs) = ap (λ l. x ∷ l) (append_nil xs)

pub append_one :
    (xs : List PollFd) (x : PollFd) (ys : List PollFd) → (xs ++ x ∷ []) ++ ys ≡ xs ++ x ∷ ys
append_one [] x ys = refl
append_one (z ∷ xs) x ys = ap (λ l. z ∷ l) (append_one xs x ys)

get_elem?-middle :
    (xs : List PollFd) (x : PollFd) (ys : List PollFd)
    → get_elem? (xs ++ x ∷ ys) (length xs) ≡ some x
get_elem?-middle [] x ys = refl
get_elem?-middle (z ∷ xs) x ys = get_elem?-middle xs x ys

set-middle :
    (xs : List PollFd) (x y : PollFd) (ys : List PollFd)
    → set (xs ++ x ∷ ys) (length xs) y ≡ xs ++ y ∷ ys
set-middle [] x y ys = refl
set-middle (z ∷ xs) x y ys = ap (λ l. z ∷ l) (set-middle xs x y ys)

-- The place of an entry between others.
pub get_at :
    {es : List PollFd} (seen : List PollFd) (t : PollFd) (todo : List PollFd) {i : ℕ}
    → es ≡ seen ++ t ∷ todo
    → i ≡ length seen
    → get_elem? es i ≡ some t
get_at seen t todo e h = rw (e, h) (get_elem?-middle seen t todo)

pub store_at :
    {es : List PollFd} (seen : List PollFd) (t y : PollFd) (todo : List PollFd)
    (rest : List (Option PollFd)) {i : ℕ}
    → es ≡ seen ++ t ∷ todo
    → i ≡ length seen
    → store (block es rest) i y ≡ ok (block (seen ++ y ∷ todo) rest)
store_at seen t y todo rest e h =
    rw (e, h)
      (store-block (seen ++ t ∷ todo) rest (length seen) y
          (omega (arith, length-append seen (t ∷ todo)))
        ∙ ap (λ l. ok (block l rest)) (set-middle seen t y todo))

pub snoc_cases :
    (xs : List PollFd) → (xs ≡ []) ⊎ ((ys : List PollFd) × (y : PollFd) × (xs ≡ ys ++ y ∷ []))
snoc_cases [] = inl refl
snoc_cases (x ∷ xs) = elim (snoc_cases xs) [
  | inl e ↦ inr ([], x, ap (λ l. x ∷ l) e)
  | inr (ys, y, e) ↦ inr (x ∷ ys, y, ap (λ l. x ∷ l) e)
]

pub block-snoc :
    (xs : List PollFd) (x : PollFd) (rest : List (Option PollFd))
    → block (xs ++ x ∷ []) rest ≡ block xs (some x ∷ rest)
block-snoc [] x rest = refl
block-snoc (z ∷ xs) x rest = ap (λ l. some z ∷ l) (block-snoc xs x rest)

-- A list whose first cells hold the entries.
abbrev pub held : ℕ → ℕ → List PollFd → List (Option PollFd) → PollList
held num len es rest = record { poll_list = block es rest; poll_num = num; poll_len = len }
