-- ===== src/PollList/Remove.antt =====
-- `poll_list_remove` of src/server/server-unix.c on the entries that a poll list holds.
use why3_fork.Base.{
  ℕ, suc, ◌+◌, ◌≡◌, refl, sym, ap, ◌∙◌, Option, List, [], ◌∷◌, ◌++◌, arith, length, length-append,
  ok, block, load-block, Bool-cases, inl, inr, ◌>>=◌, if◌then◌else◌,
}
use why3_fork.Base.Int.{ℤ, eq_ℤ, minus_one}
use why3_fork.PollList.{
  PollFd, PollList, no_bits, lookup_from, poll_list_lookup, clear_at, poll_list_remove,
}
use why3_fork.PollList.Entries.{Holds}
use why3_fork.PollList.Places.{append_one, get_at, store_at, held}

-- The entries that have not been removed.
abbrev pub live : List PollFd → List PollFd
live [] = []
live (e ∷ es) = if eq_ℤ e.fd minus_one then live es else e ∷ live es

-- The entries but the first one with the descriptor.
abbrev pub without : ℤ → List PollFd → List PollFd
without d [] = []
without d (e ∷ es) = if eq_ℤ e.fd d then es else e ∷ without d es

-- The entries with the first one of the descriptor marked as removed.
abbrev pub marked : ℤ → List PollFd → List PollFd
marked d [] = []
marked d (e ∷ es) =
    if eq_ℤ e.fd d then record e { fd = minus_one; revents = no_bits } ∷ es else e ∷ marked d es

pub live-marked : (d : ℤ) (es : List PollFd) → live (marked d es) ≡ live (without d es)
live-marked d [] = refl
live-marked d (e ∷ es) = elim (Bool-cases (eq_ℤ e.fd d)) [
  | inl hit ↦ rw hit refl
  | inr miss ↦ elim (Bool-cases (eq_ℤ e.fd minus_one)) [
    | inl dead ↦ rw (miss, dead) (live-marked d es)
    | inr alive ↦ rw (miss, alive) (ap (λ xs. e ∷ xs) (live-marked d es))
  ]
]

pub length-marked : (d : ℤ) (es : List PollFd) → length (marked d es) ≡ length es
length-marked d [] = refl
length-marked d (e ∷ es) = elim (Bool-cases (eq_ℤ e.fd d)) [
  | inl hit ↦ rw hit refl
  | inr miss ↦ rw miss (ap suc (length-marked d es))
]

-- The search and the change of the entry found, from a place on.
remove_from_lem :
    (d : ℤ) (num len : ℕ) (es seen todo : List PollFd) (rest : List (Option PollFd)) (i : ℕ)
    → es ≡ seen ++ todo
    → i ≡ length seen
    → (do
      place ← lookup_from (block es rest) d (length todo) i
      clear_at (held num len es rest) place)
      ≡ ok (held num len (seen ++ marked d todo) rest)
unfolding lookup_from clear_at
remove_from_lem d num len es seen [] rest i e h = rw e refl
remove_from_lem d num len es seen (t ∷ todo) rest i e h =
    let at = load-block es rest i (get_at seen t todo e h) in
    elim (Bool-cases (eq_ℤ t.fd d)) [
      | inl hit ↦
          let cleared = record t { fd = minus_one; revents = no_bits } in
          rw (at, hit, at, store_at seen t cleared todo rest e h) refl
      | inr miss ↦
          let next =
            remove_from_lem d num len es (seen ++ t ∷ []) todo rest (i + 1)
              (e ∙ sym (append_one seen t todo)) (omega (arith, h, length-append seen (t ∷ []))) in
          rw (at, miss)
            (next ∙ ap (λ l. ok (held num len l rest)) (append_one seen t (marked d todo)))
    ]

pub poll_list_remove_lem :
    (p : PollList) (es : List PollFd) (d : ℤ) (v : Holds p es)
    → poll_list_remove p d ≡ ok (held (length es) p.poll_len (marked d es) v.rest)
unfolding poll_list_remove poll_list_lookup
poll_list_remove_lem p es d v =
    let found = remove_from_lem d (length es) p.poll_len es [] es v.rest 0 refl refl in
    rw (v.cells, v.count) found
