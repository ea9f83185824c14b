-- ===== src/Tests/Containers.antt =====
-- src/server/queue.c, src/server/arraylist.c and the poll list of src/server/server-unix.c at concrete inputs.
use why3_fork.Base.{
  ℕ, zero, suc, ◌≡◌, refl, none, some, List, [], ◌∷◌, arith, ok, err, assertion, ◌>>=◌, load, store,
  realloc, memcpy, block, if◌then◌else◌,
}
use why3_fork.Base.Int.{ℤ, pos, minus_one, eq_ℤ}
use why3_fork.PollList.{PollFd, PollList, only_pollin, no_bits, poll_list_remove, poll_list_clean}
use why3_fork.PollList.Clean.{Cleaned, poll_list_remove-clean_lem}
use why3_fork.Queue.{Queue, init_queue, queue_pop, queue_push, resize_queue, simple_push}
use why3_fork.Queue.Holds.{Holds}
use why3_fork.Queue.Push.{queue_push_lem}
use why3_fork.Queue.Run.{Call, push, pop, run, run_fifo, run_refines}
use why3_fork.ArrayList.{ArrayList, init_list, list_lookup, list_remove, list_append}
use why3_fork.ArrayList.Entries.{Entry, lookup, remove, UniqueKeys}
use why3_fork.ArrayList.Holds as lists
use why3_fork.ArrayList.Holds.{init_list-Holds, list_append_lem, list_lookup_lem}
use why3_fork.ArrayList.Table.{list_lookup-list_remove, list_lookup-list_append}

abbrev calls : List (Call ℕ)
calls = push 3 ∷ push 4 ∷ pop ∷ push 5 ∷ push 6 ∷ pop ∷ pop ∷ []

-- The ring of two cells wraps, then grows while its start is in the middle.
run-calls : (init_queue 2 >>= λ q. run q calls) ≡ ok (3 ∷ 4 ∷ 5 ∷ [])
unfolding init_queue run queue_pop queue_push resize_queue simple_push load store realloc memcpy
run-calls = refl

run_too_often : (init_queue {A = ℕ} 1 >>= λ q. run q (push 3 ∷ pop ∷ pop ∷ [])) ≡ err assertion
unfolding init_queue run queue_pop queue_push resize_queue simple_push load store realloc memcpy
run_too_often = refl

run_refines_example : (init_queue 2 >>= λ q. run q calls) ≡ run_fifo [] calls
run_refines_example = run_refines 2 calls (omega arith) (omega arith) (omega arith)

-- 7, then 8, round the end of a full ring.
abbrev wrapped : Queue ℕ
wrapped = record { data_ = some 8 ∷ some 7 ∷ []; pointer = 1; len = 2; capacity = 2 }

wrapped-Holds : Holds wrapped (7 ∷ 8 ∷ [])
wrapped-Holds = record {
  room = omega arith;
  storage = refl;
  head = omega arith;
  count = refl;
  fits = omega arith;
  cells = elim [
    | zero ↦ λ h. refl
    | suc zero ↦ λ h. refl
    | suc (suc i) ↦ λ h. absurd (omega arith)
  ];
}

queue_push_lem_example : (q : Queue ℕ) × (queue_push wrapped 9 ≡ ok q) × Holds q (7 ∷ 8 ∷ 9 ∷ [])
queue_push_lem_example = queue_push_lem 9 (7 ∷ 8 ∷ []) wrapped-Holds (omega arith)

abbrev entries : List (Entry ℕ)
entries = (pos 5, 50) ∷ (pos 6, 60) ∷ (pos 7, 70) ∷ []

abbrev one_entry :
    (l : ArrayList ℕ) × (list_append (init_list 1) (pos 5) 50 ≡ ok l)
    × lists.Holds l ((pos 5, 50) ∷ [])
one_entry =
    list_append_lem [] (pos 5) 50 (init_list-Holds 1 (omega arith) (omega arith)) (omega arith)

abbrev two_entries :
    (l : ArrayList ℕ) × (list_append one_entry.0 (pos 6) 60 ≡ ok l)
    × lists.Holds l ((pos 5, 50) ∷ (pos 6, 60) ∷ [])
two_entries = list_append_lem ((pos 5, 50) ∷ []) (pos 6) 60 one_entry.2 (omega arith)

abbrev three_entries :
    (l : ArrayList ℕ) × (list_append two_entries.0 (pos 7) 70 ≡ ok l) × lists.Holds l entries
three_entries =
    list_append_lem ((pos 5, 50) ∷ (pos 6, 60) ∷ []) (pos 7) 70 two_entries.2 (omega arith)

entries-UniqueKeys : UniqueKeys entries
unfolding lookup
entries-UniqueKeys = (refl, (refl, (refl, tt)))

remove_moves_last : remove (pos 5) entries ≡ (pos 7, 70) ∷ (pos 6, 60) ∷ []
unfolding remove
remove_moves_last = refl

list_lookup_lem_example : list_lookup three_entries.0 (pos 6) ≡ ok (lookup (pos 6) entries)
list_lookup_lem_example = list_lookup_lem entries (pos 6) three_entries.2

list_lookup-list_remove_example :
    (l : ArrayList ℕ) × (list_remove three_entries.0 (pos 5) ≡ ok l)
    × ((j : ℤ)
        → list_lookup l j ≡ (if eq_ℤ (pos 5) j then ok none else list_lookup three_entries.0 j))
    × lists.Holds l (remove (pos 5) entries)
    × UniqueKeys (remove (pos 5) entries)
list_lookup-list_remove_example =
    list_lookup-list_remove entries (pos 5) three_entries.2 entries-UniqueKeys

list_lookup-list_append_example :
    (l : ArrayList ℕ) × (list_append one_entry.0 (pos 6) 60 ≡ ok l)
    × ((j : ℤ)
        → list_lookup l j ≡ (if eq_ℤ (pos 6) j then ok (some 60) else list_lookup one_entry.0 j))
    × lists.Holds l ((pos 5, 50) ∷ (pos 6, 60) ∷ [])
    × UniqueKeys {A = ℕ} ((pos 5, 50) ∷ (pos 6, 60) ∷ [])
unfolding lookup
list_lookup-list_append_example =
    list_lookup-list_append ((pos 5, 50) ∷ []) (pos 6) 60 one_entry.2 (refl, tt) refl (omega arith)

abbrev entry : ℕ → PollFd
entry n = record { fd = pos n; events = only_pollin; revents = no_bits }

-- Four descriptors; the last one has been removed before.
abbrev four_entries : List PollFd
four_entries =
    entry 3
    ∷ entry 4
    ∷ entry 5
    ∷ record { fd = minus_one; events = no_bits; revents = no_bits }
    ∷ []

abbrev watched : PollList
watched = record { poll_list = block four_entries (none ∷ []); poll_num = 4; poll_len = 5 }

poll_list_remove-clean_lem_example :
    Cleaned watched four_entries
      (pos 4)
      (do removed ← poll_list_remove watched (pos 4); poll_list_clean removed)
poll_list_remove-clean_lem_example =
    poll_list_remove-clean_lem watched four_entries (pos 4)
      (record { rest = none ∷ []; cells = refl; count = refl })
