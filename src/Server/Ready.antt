-- ===== src/Server/Ready.antt =====
-- The entries of the poll list in server-unix.c that have events, and the operations on the list that
-- never give an entry new ones.
use why3_fork.Base.{
  ℕ, zero, suc, ◌-◌, ◌*◌, ◌==◌, int_value, ◌+◌, ◌≤◌, ◌<◌, ◌≡◌, refl, sym, ◌∙◌, true, Option, none,
  some, List, [], ◌∷◌, arith, length, get_elem?, set, get_elem?-set_self, get_elem?-set_ne, ok,
  load, store, realloc, load-inverse, AllOk, returns, stops, AllOk->>=, AllOk-then, int_value-AllOk,
  if◌then◌else◌, ◌>>=◌, ltb, Bool-cases, inl, inr, take, replicate, ◌++◌,
}
use native.Mathlib.Decide.{ℕ_discrete}
use why3_fork.Base.Int.{ℤ, minus_one}
use why3_fork.PollList.{
  Bits, no_bits, PollFd, PollList, set_events, poll_list_remove, room_for_one, clear_at,
  poll_list_lookup, add_to_poll_list,
}
use why3_fork.Server.Loop.{is_empty}

unfoldable pub has_event : Option (Option PollFd) → ℕ
unfolding is_empty
has_event none = 0
has_event (some none) = 0
has_event (some (some e)) = if is_empty e.revents then 0 else 1

pub has_event-le : (cell : Option (Option PollFd)) → has_event cell ≤ 1
unfolding has_event
has_event-le none = omega arith
has_event-le (some none) = omega arith
has_event-le (some (some e)) = ground arith

-- How many of the `n` entries from place `i` on have events.
unfoldable pub ready : List (Option PollFd) → ℕ → ℕ → ℕ
ready cells i zero = 0
ready cells i (suc n) = has_event (get_elem? cells i) + ready cells (i + 1) n

-- No entry has events that it did not have before.
abbrev pub Fewer : List (Option PollFd) → List (Option PollFd) → Type 0
Fewer cells cells' = (i : ℕ) → has_event (get_elem? cells' i) ≤ has_event (get_elem? cells i)

pub ready_mono :
    (cells cells' : List (Option PollFd)) (i n : ℕ)
    → Fewer cells cells'
    → ready cells' i n ≤ ready cells i n
unfolding ready
ready_mono cells cells' i zero h = omega arith
ready_mono cells cells' i (suc n) h = omega (arith, h i, ready_mono cells cells' (i + 1) n h)

pub ready-last :
    (cells : List (Option PollFd)) (i n j : ℕ)
    → j ≡ i + n
    → has_event (get_elem? cells j) ≡ 0
    → ready cells i (suc n) ≡ ready cells i n
unfolding ready
ready-last cells i zero j e h =
    let same : i ≡ j = omega (arith, e) in
    let none_here : has_event (get_elem? cells i) ≡ 0 = rw same h in omega (arith, none_here)
ready-last cells i (suc n) j e h = omega (arith, ready-last cells (i + 1) n j (omega (arith, e)) h)

Fewer-set :
    (cells : List (Option PollFd)) (i : ℕ) (e : PollFd)
    → i < length cells
    → has_event (some (some e)) ≤ has_event (get_elem? cells i)
    → Fewer cells (set cells i (some e))
Fewer-set cells i e h fewer j = elim (ℕ_discrete i j) [
  | yes same ↦ rw (sym same) (rw (get_elem?-set_self cells i (some e) h) fewer)
  | no other ↦ rw (get_elem?-set_ne cells (some e) other) (omega arith)
]

pub store-AllOk :
    (cells : List (Option PollFd)) (i : ℕ) (e : PollFd)
    → has_event (some (some e)) ≤ has_event (get_elem? cells i)
    → AllOk (Fewer cells) (store cells i e)
unfolding store
store-AllOk cells i e fewer = elim (Bool-cases (ltb i (length cells))) [
  | inl inside ↦ rw inside (returns (Fewer-set cells i e (ground arith) fewer))
  | inr outside ↦ rw outside stops
]

-- The list keeps its places, and no entry gets new events.
pub record Calm (p p' : PollList) : Type 0 where
  pub num : p'.poll_num ≡ p.poll_num
  pub fewer : Fewer p.poll_list p'.poll_list

pub Calm-refl : (p : PollList) → Calm p p
Calm-refl p = record { num = refl; fewer = λ i. omega arith }

pub Calm-trans : {p q r : PollList} → Calm p q → Calm q r → Calm p r
Calm-trans a b = record { num = b.num ∙ a.num; fewer = λ i. omega (arith, a.fewer i, b.fewer i) }

-- A store over an entry whose events the new one has too, or none.
store-Calm :
    (p : PollList) (i : ℕ) (old new : PollFd)
    → load p.poll_list i ≡ ok old
    → has_event (some (some new)) ≤ has_event (some (some old))
    → AllOk (Calm p) (do cells ← store p.poll_list i new; ok (record p { poll_list = cells }))
store-Calm p i old new at h =
    AllOk->>= (store p.poll_list i new)
      (store-AllOk p.poll_list i new (rw (load-inverse p.poll_list i at) h))
      (λ cells fewer. returns (record { num = refl; fewer = fewer }))

pub set_events-Calm : (p : PollList) (i : ℕ) (f : Bits → Bits) → AllOk (Calm p) (set_events p i f)
unfolding set_events has_event
set_events-Calm p i f =
    AllOk-then (load p.poll_list i)
      (λ e at. store-Calm p i e (record e { events = f e.events }) at (omega arith))

clear_at-Calm : (p : PollList) (i : Option ℕ) → AllOk (Calm p) (clear_at p i)
unfolding clear_at has_event
clear_at-Calm p none = returns (Calm-refl p)
clear_at-Calm p (some i) =
    AllOk-then (load p.poll_list i)
      (λ e at. store-Calm p i e (record e { fd = minus_one; revents = no_bits }) at (omega arith))

pub poll_list_remove-Calm : (p : PollList) (fd : ℤ) → AllOk (Calm p) (poll_list_remove p fd)
unfolding poll_list_remove
poll_list_remove-Calm p fd = AllOk-then (poll_list_lookup p fd) (λ i found. clear_at-Calm p i)

-- The list has one more entry, without events.
pub record Added (p p' : PollList) : Type 0 where
  pub num : p'.poll_num ≡ p.poll_num + 1
  pub fewer : Fewer p.poll_list p'.poll_list
  pub quiet : has_event (get_elem? p'.poll_list p.poll_num) ≡ 0

replicate-quiet : (k i : ℕ) → has_event (get_elem? (replicate {A = Option PollFd} k none) i) ≡ 0
unfolding has_event
replicate-quiet zero i = refl
replicate-quiet (suc k) zero = refl
replicate-quiet (suc k) (suc i) = replicate-quiet k i

Fewer-resized :
    (n k : ℕ) (cells : List (Option PollFd)) → Fewer cells (take n cells ++ replicate k none)
Fewer-resized zero k cells i = omega (arith, replicate-quiet k i)
Fewer-resized (suc n) k [] i = omega (arith, replicate-quiet k i)
Fewer-resized (suc n) k (c ∷ cells) zero = omega arith
Fewer-resized (suc n) k (c ∷ cells) (suc i) = Fewer-resized n k cells i

room-Calm : (p : PollList) → AllOk (Calm p) (room_for_one p)
unfolding room_for_one realloc
room-Calm p = elim (Bool-cases (p.poll_num == p.poll_len)) [
  | inl full ↦ rw full (
      AllOk-then (int_value (p.poll_len * 2)) (λ newlen double. returns (record {
        num = refl;
        fewer = Fewer-resized newlen (newlen - length p.poll_list) p.poll_list;
      })))
  | inr room ↦ rw room (returns (Calm-refl p))
]

Added-store :
    (p room : PollList) (num : ℕ) (e : PollFd)
    → Calm p room
    → is_empty e.revents ≡ true
    → room.poll_num < length room.poll_list
    → num ≡ room.poll_num + 1
    → Added p
        (record room { poll_list = set room.poll_list room.poll_num (some e); poll_num = num })
unfolding has_event
Added-store p room num e calm quiet h step =
    let none_new : has_event (some (some e)) ≡ 0 = rw quiet refl in
    let fewer = Fewer-set room.poll_list room.poll_num e h (omega (arith, none_new)) in
    record {
      num = omega (arith, step, calm.num);
      fewer = λ i. omega (arith, fewer i, calm.fewer i);
      quiet =
          rw (sym calm.num, get_elem?-set_self room.poll_list room.poll_num (some e) h) none_new;
    }

pub add_to_poll_list-Added :
    (p : PollList) (sock : ℤ) (events : Bits) → AllOk (Added p) (add_to_poll_list p sock events)
unfolding add_to_poll_list store is_empty
add_to_poll_list-Added p sock events = AllOk->>= (room_for_one p) (room-Calm p) (λ room calm.
    elim (Bool-cases (ltb room.poll_num (length room.poll_list))) [
      | inl inside ↦ rw inside (
          AllOk->>= (int_value (room.poll_num + 1)) (int_value-AllOk (room.poll_num + 1))
            (λ num e. returns (Added-store p room num _ calm refl (ground arith) e)))
      | inr outside ↦ rw outside stops
    ])
