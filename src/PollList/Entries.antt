-- ===== src/PollList/Entries.antt =====
-- Which entries a poll list holds, and the operations that look one up and change it.
use why3_fork.Base.{
  ℕ, zero, suc, ◌+◌, ◌<◌, ◌≡◌, refl, sym, ◌∙◌, Option, none, some, List, arith, length, set,
  length-set, get_elem?-some, ok, block, load-block, store-block, Bool-cases, inl, inr,
}
use why3_fork.Base.Int.{ℤ, eq_ℤ}
use why3_fork.PollList.{Bits, PollFd, PollList, lookup_from, poll_list_lookup, set_events}

-- The first `poll_num` cells hold the entries.
pub record Holds (p : PollList) (es : List PollFd) : Type 0 where
  pub rest : List (Option PollFd)
  pub cells : p.poll_list ≡ block es rest
  pub count : p.poll_num ≡ length es

-- The place that a lookup finds is one of an entry.
abbrev pub InRange : Option ℕ → ℕ → Type 0
InRange none n = Unit {0}
InRange (some i) n = i < n

lookup_from_total :
    (es : List PollFd) (rest : List (Option PollFd)) (d : ℤ) (n i : ℕ)
    → i + n ≡ length es
    → (r : Option ℕ) × (lookup_from (block es rest) d n i ≡ ok r) × InRange r (length es)
unfolding lookup_from
lookup_from_total es rest d zero i h = (none, refl, tt)
lookup_from_total es rest d (suc n) i h =
    let (e, at) = get_elem?-some es i (omega arith) in
    elim (Bool-cases (eq_ℤ e.fd d)) [
      | inl hit ↦ (some i, rw (load-block es rest i at, hit), omega arith)
      | inr miss ↦
          let (r, run, range) = lookup_from_total es rest d n (i + 1) (omega arith) in
          (r, rw (load-block es rest i at, miss) run, range)
    ]

pub poll_list_lookup_total :
    {p : PollList} (es : List PollFd) (d : ℤ)
    → Holds p es
    → (r : Option ℕ) × (poll_list_lookup p d ≡ ok r) × InRange r (length es)
unfolding poll_list_lookup
poll_list_lookup_total {p} es d v =
    let (r, run, range) = lookup_from_total es v.rest d (length es) 0 (omega arith) in
    (r, rw (v.cells, v.count) run, range)

pub set_events_lem :
    {p : PollList} (es : List PollFd) (i : ℕ) (f : Bits → Bits)
    → Holds p es
    → i < length es
    → (p' : PollList) × (es' : List PollFd) × (set_events p i f ≡ ok p') × Holds p' es'
unfolding set_events
set_events_lem {p} es i f v h =
    let (e, at) = get_elem?-some es i h in
    let e' = record e { events = f e.events } in
    (
      record p { poll_list = block (set es i e') v.rest },
      set es i e',
      rw (v.cells, load-block es v.rest i at, store-block es v.rest i e' h),
      record { rest = v.rest; cells = refl; count = v.count ∙ sym (length-set es i e') },
    )
