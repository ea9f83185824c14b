-- ===== src/PollList/Safety.antt =====
-- The operations on a sound poll list stay inside its memory.
use why3_fork.Base.{
  ℕ, zero, suc, ◌+◌, ◌-◌, ◌*◌, ◌≤◌, ◌<◌, ◌≡◌, refl, Option, none, some, List, arith, length, ok,
  AllOk-ok, ◌>>=◌, load, store, load_lem, store_lem, ltb, ◌==◌, Bool-cases, inl, inr, int_value,
  length-realloc,
}
use why3_fork.Base.Safety.{Safe, gives, Safe-mono, Safe-both, Safe->>=, Safe-from, int_value-Safe}
use why3_fork.Base.Int.{ℤ, eq_ℤ, minus_one}
use why3_fork.PollList.{
  Bits, PollFd, PollList, no_bits, room_for_one, add_to_poll_list, lookup_from, poll_list_lookup,
  set_events, clear_at, poll_list_remove, clean_from, poll_list_clean,
}
use why3_fork.PollList.Entries.{InRange}
use why3_fork.PollList.Sound.{
  store-Stored, Sound, FilledTo, FilledTo-Steady, Settled, Settled-Sound, Settled-refl,
  add_to_poll_list-Sound, poll_list_clean-Sound,
}

-- A sound list, with memory for at least one entry.
pub record Roomy (p : PollList) : Type 0 where
  pub sound : Sound p
  pub positive : 0 < p.poll_len

pub Settled-Roomy : {p p' : PollList} → Settled p p' → Roomy p → Roomy p'
Settled-Roomy settled v = record {
  sound = Settled-Sound settled v.sound;
  positive = omega (arith, settled.2, v.positive);
}

-- A cell that is read and written.
touch-Safe :
    (p : PollList) (i : ℕ) (change : PollFd → PollFd)
    → Sound p
    → i < p.poll_num
    → Safe (Settled p) (do
      e ← load p.poll_list i
      cells ← store p.poll_list i (change e)
      ok (record p { poll_list = cells }))
touch-Safe p i change v h =
    let (e, at) = v.filled i h in
    let stored = store_lem p.poll_list i (change e) (omega (arith, v.fits, v.size)) in
    let steady = (AllOk-ok (store-Stored p.poll_list i (change e)) stored).steady in
    rw (load_lem p.poll_list i at, stored) (gives (steady, refl, refl))

pub set_events-Safe :
    (p : PollList) (i : ℕ) (f : Bits → Bits)
    → Sound p
    → i < p.poll_num
    → Safe (Settled p) (set_events p i f)
unfolding set_events
set_events-Safe p i f v h = touch-Safe p i (λ e. record e { events = f e.events }) v h

clear_at-Safe :
    (p : PollList) (i : Option ℕ) → Sound p → InRange i p.poll_num → Safe (Settled p) (clear_at p i)
unfolding clear_at
clear_at-Safe p none v h = gives (Settled-refl p)
clear_at-Safe p (some i) v h =
    touch-Safe p i (λ e. record e { fd = minus_one; revents = no_bits }) v h

lookup_from-Safe :
    (p : PollList) (d : ℤ) (n i : ℕ)
    → Sound p
    → i + n ≡ p.poll_num
    → Safe (λ r. InRange r p.poll_num) (lookup_from p.poll_list d n i)
unfolding lookup_from
lookup_from-Safe p d zero i v h = gives tt
lookup_from-Safe p d (suc n) i v h =
    let (e, at) = v.filled i (omega arith) in
    rw (load_lem p.poll_list i at) (elim (Bool-cases (eq_ℤ e.fd d)) [
      | inl hit ↦ rw hit (gives (omega arith))
      | inr miss ↦ rw miss (lookup_from-Safe p d n (i + 1) v (omega arith))
    ])

pub poll_list_lookup-Safe :
    (p : PollList) (d : ℤ) → Sound p → Safe (λ r. InRange r p.poll_num) (poll_list_lookup p d)
unfolding poll_list_lookup
poll_list_lookup-Safe p d v = lookup_from-Safe p d p.poll_num 0 v (omega arith)

pub poll_list_remove-Safe :
    (p : PollList) (d : ℤ) → Sound p → Safe (Settled p) (poll_list_remove p d)
unfolding poll_list_remove
poll_list_remove-Safe p d v =
    Safe->>= (poll_list_lookup p d) (poll_list_lookup-Safe p d v) (λ i h. clear_at-Safe p i v h)

room_for_one-Safe :
    (p : PollList)
    → Roomy p
    → Safe (λ r. (r.poll_num < length r.poll_list) × (0 < r.poll_len)) (room_for_one p)
unfolding room_for_one
room_for_one-Safe p v = elim (Bool-cases (p.poll_num == p.poll_len)) [
  | inr room ↦ rw room (gives (ground (arith, v.sound.fits, v.sound.size), v.positive))
  | inl full ↦ rw full (
      Safe->>= (int_value (p.poll_len * 2)) (int_value-Safe (p.poll_len * 2)) (λ newlen (e, fits).
        let size = length-realloc p.poll_list newlen (omega (arith, v.sound.size, e)) in
        gives (ground (arith, e, v.positive, size), omega (arith, e, v.positive))))
]

grown-Safe :
    (p : PollList) (sock : ℤ) (events : Bits)
    → Roomy p
    → Safe (λ p'. 0 < p'.poll_len) (add_to_poll_list p sock events)
unfolding add_to_poll_list
grown-Safe p sock events v =
    Safe->>= (room_for_one p) (room_for_one-Safe p v) (λ room (inside, positive).
      Safe-from (store room.poll_list room.poll_num _) _
        (store_lem room.poll_list room.poll_num _ inside)
        (Safe->>= (int_value (room.poll_num + 1)) (int_value-Safe (room.poll_num + 1))
          (λ num known. gives positive)))

pub add_to_poll_list-Safe :
    (p : PollList) (sock : ℤ) (events : Bits)
    → Roomy p
    → Safe Roomy (add_to_poll_list p sock events)
add_to_poll_list-Safe p sock events v =
    Safe-mono _
      (Safe-both _ (grown-Safe p sock events v) (add_to_poll_list-Sound p sock events v.sound))
      (λ p' (positive, sound). record { sound = sound; positive = positive })

clean_from-Safe :
    (fuel : ℕ) (cells : List (Option PollFd)) (i num size : ℕ)
    → FilledTo size (cells, num)
    → num ≤ size
    → Safe (λ r. Unit {0}) (clean_from fuel cells i num)
unfolding clean_from
clean_from-Safe zero cells i num size h fits = gives tt
clean_from-Safe (suc fuel) cells i num size h fits = elim (Bool-cases (ltb i num)) [
  | inr end ↦ rw end (gives tt)
  | inl inside ↦
      let (e, at) = h.1 i (ground arith) in
      rw (inside, load_lem cells i at)
        (elim (Bool-cases (eq_ℤ e.fd minus_one)) [
          | inr live ↦ rw live (clean_from-Safe fuel cells (i + 1) num size h fits)
          | inl dead ↦
              let (last, at_end) = h.1 (num - 1) (ground arith) in
              let stored = store_lem cells i last (ground (arith, h.0)) in
              let steady = (AllOk-ok (store-Stored cells i last) stored).steady in
              rw (dead, load_lem cells (num - 1) at_end, stored)
                (clean_from-Safe fuel _ i (num - 1) size (FilledTo-Steady cells _ num size steady h)
                  (omega arith))
        ])
]

pub poll_list_clean-Safe : (p : PollList) → Roomy p → Safe Roomy (poll_list_clean p)
poll_list_clean-Safe p v =
    Safe-mono _ (Safe-both _ kept (poll_list_clean-Sound p v.sound))
      (λ p' (positive, sound). record { sound = sound; positive = positive })
  where
    kept : Safe (λ p'. 0 < p'.poll_len) (poll_list_clean p)
    kept =
        unfold poll_list_clean in
        Safe->>= _
          (clean_from-Safe p.poll_num p.poll_list 0 p.poll_num p.poll_len
            (v.sound.size, v.sound.filled) v.sound.fits)
          (λ r done. gives v.positive)
