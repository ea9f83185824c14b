-- ===== src/PollList.antt =====
-- The poll list of src/server/server-unix.c: the descriptors that `poll` watches. The globals
-- `poll_list`, `poll_num` and `poll_len` are one record, and a removed entry has the descriptor -1.
pub mod Entries
pub mod Sound
pub mod Safety
pub mod Places
pub mod Remove
pub mod Clean
use why3_fork.Base.{
  ℕ, zero, suc, ◌+◌, ◌-◌, ◌*◌, Bool, true, false, Option, none, some, List, replicate, Result, ok,
  ◌>>=◌, ◌==◌, ltb, if◌then◌else◌, load, store, realloc, int_value,
}
use why3_fork.Base.Int.{ℤ, eq_ℤ, minus_one}

-- The bits of `events` and `revents` that the server uses; `other` stands for all the others.
pub record Bits : Type 0 where
  pub pollin : Bool
  pub pollout : Bool
  pub pollerr : Bool
  pub other : Bool

abbrev pub no_bits : Bits
no_bits = record { pollin = false; pollout = false; pollerr = false; other = false }

abbrev pub only_pollin : Bits
only_pollin = record no_bits { pollin = true }

-- `struct pollfd`
pub record PollFd : Type 0 where
  pub fd : ℤ
  pub events : Bits
  pub revents : Bits

pub record PollList : Type 0 where
  pub poll_list : List (Option PollFd)
  pub poll_num : ℕ
  pub poll_len : ℕ

-- The list with room for one more entry.
unfoldable pub room_for_one : PollList → Result PollList
room_for_one p =
    if p.poll_num == p.poll_len
    then (do
      newlen ← int_value (p.poll_len * 2)
      ok (record p { poll_list = realloc p.poll_list newlen; poll_len = newlen }))
    else ok p

unfoldable pub add_to_poll_list : PollList → ℤ → Bits → Result PollList
add_to_poll_list p sock events = do
  room ← room_for_one p
  cells ←
      store room.poll_list room.poll_num (record { fd = sock; events = events; revents = no_bits })
  num ← int_value (room.poll_num + 1)
  ok (record room { poll_list = cells; poll_num = num })

-- The loop of `poll_list_lookup` and `poll_list_remove`: the place of the first entry with the
-- descriptor, with the rounds that are left.
unfoldable pub lookup_from : List (Option PollFd) → ℤ → ℕ → ℕ → Result (Option ℕ)
lookup_from cells d zero i = ok none
lookup_from cells d (suc n) i = do
  e ← load cells i
  let rest = lookup_from cells d n (i + 1)
  if eq_ℤ e.fd d then ok (some i) else rest

unfoldable pub poll_list_lookup : PollList → ℤ → Result (Option ℕ)
poll_list_lookup p d = lookup_from p.poll_list d p.poll_num 0

-- `entry->events` of the entry at a place, given anew.
unfoldable pub set_events : PollList → ℕ → (Bits → Bits) → Result PollList
set_events p i f = do
  e ← load p.poll_list i
  cells ← store p.poll_list i (record e { events = f e.events })
  ok (record p { poll_list = cells })

unfoldable pub clear_at : PollList → Option ℕ → Result PollList
clear_at p none = ok p
clear_at p (some i) = do
  e ← load p.poll_list i
  cells ← store p.poll_list i (record e { fd = minus_one; revents = no_bits })
  ok (record p { poll_list = cells })

unfoldable pub poll_list_remove : PollList → ℤ → Result PollList
unfolding clear_at
poll_list_remove p d = do i ← poll_list_lookup p d; clear_at p i

-- The loop of `poll_list_clean` from place `i`, with the rounds allowed; each round brings `i` and
-- `poll_num` closer by one.
unfoldable pub clean_from : ℕ → List (Option PollFd) → ℕ → ℕ → Result (List (Option PollFd) × ℕ)
clean_from zero cells i num = ok (cells, num)
clean_from (suc fuel) cells i num = do
  let shrink = do
    last ← load cells (num - 1)
    cells' ← store cells i last
    clean_from fuel cells' i (num - 1)
  let advance = clean_from fuel cells (i + 1) num
  let round = do e ← load cells i; if eq_ℤ e.fd minus_one then shrink else advance
  if ltb i num then round else ok (cells, num)

unfoldable pub poll_list_clean : PollList → Result PollList
poll_list_clean p = do
  (cells, num) ← clean_from p.poll_num p.poll_list 0 p.poll_num
  ok (record p { poll_list = cells; poll_num = num })
