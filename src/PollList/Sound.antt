-- ===== src/PollList/Sound.antt =====
-- A sound poll list: its entries are initialised and lie inside the memory that is allocated. Every
-- operation of server-unix.c on the list keeps it so.
use why3_fork.Base.{
  ℕ, zero, suc, ◌+◌, ◌-◌, ◌*◌, ◌≤◌, ◌<◌, ◌≡◌, refl, sym, ◌∙◌, subst, Option, none, some, List,
  arith, length, get_elem?, set, get_elem?-set_self, get_elem?-set_ne, length-set,
  get_elem?-realloc, length-realloc, ok, load, store, AllOk, returns, stops, AllOk-mono, AllOk->>=,
  AllOk-then, int_value-AllOk, int_value, ltb, ◌==◌, Bool-cases, inl, inr, ◌>>=◌,
}
use native.Mathlib.Decide.{ℕ_discrete}
use why3_fork.Base.Int.{ℤ, eq_ℤ, minus_one}
use why3_fork.PollList.{
  Bits, PollFd, PollList, no_bits, room_for_one, add_to_poll_list, poll_list_lookup, set_events,
  clear_at, poll_list_remove, clean_from, poll_list_clean,
}

abbrev pub Filled : Option (Option PollFd) → Type 0
Filled cell = (e : PollFd) × (cell ≡ some (some e))

-- The memory is the same, and what was initialised still is.
pub record Steady (cells cells' : List (Option PollFd)) : Type 0 where
  pub size : length cells' ≡ length cells
  pub kept : (i : ℕ) → Filled (get_elem? cells i) → Filled (get_elem? cells' i)

pub Steady-refl : (cells : List (Option PollFd)) → Steady cells cells
Steady-refl cells = record { size = refl; kept = λ i f. f }

pub Steady-trans : {a b c : List (Option PollFd)} → Steady a b → Steady b c → Steady a c
Steady-trans x y = record { size = y.size ∙ x.size; kept = λ i f. y.kept i (x.kept i f) }

Filled-set :
    (cells : List (Option PollFd)) (i j : ℕ) (e : PollFd)
    → i < length cells
    → Filled (get_elem? cells j)
    → Filled (get_elem? (set cells i (some e)) j)
Filled-set cells i j e h f = elim (ℕ_discrete i j) [
  | yes same ↦ (e, rw (sym same) (get_elem?-set_self cells i (some e) h))
  | no other ↦ (f.0, get_elem?-set_ne cells (some e) other ∙ f.1)
]

-- A store is in bounds, and leaves its entry in the cell.
pub record Stored (cells : List (Option PollFd)) (i : ℕ) (cells' : List (Option PollFd))
    : Type 0 where
  pub steady : Steady cells cells'
  pub inside : i < length cells
  pub here : Filled (get_elem? cells' i)

pub store-Stored :
    (cells : List (Option PollFd)) (i : ℕ) (e : PollFd) → AllOk (Stored cells i) (store cells i e)
unfolding store
store-Stored cells i e = elim (Bool-cases (ltb i (length cells))) [
  | inl test ↦
      let h : i < length cells = ground arith in
      rw test (
        returns (record {
          steady = record {
            size = length-set cells i (some e);
            kept = λ j. Filled-set cells i j e h;
          };
          inside = h;
          here = (e, get_elem?-set_self cells i (some e) h);
        }))
  | inr outside ↦ rw outside stops
]

pub record Sound (p : PollList) : Type 0 where
  pub size : length p.poll_list ≡ p.poll_len
  pub fits : p.poll_num ≤ p.poll_len
  pub filled : (i : ℕ) → i < p.poll_num → Filled (get_elem? p.poll_list i)

-- The same places in steady memory.
abbrev pub Settled : PollList → PollList → Type 0
Settled p p' =
    Steady p.poll_list p'.poll_list × (p'.poll_num ≡ p.poll_num) × (p'.poll_len ≡ p.poll_len)

pub Settled-refl : (p : PollList) → Settled p p
Settled-refl p = (Steady-refl p.poll_list, refl, refl)

pub Settled-trans : {p q r : PollList} → Settled p q → Settled q r → Settled p r
Settled-trans (a, n, l) (b, m, k) = (Steady-trans a b, m ∙ n, k ∙ l)

pub Settled-Sound : {p p' : PollList} → Settled p p' → Sound p → Sound p'
Settled-Sound (steady, num, len) v = record {
  size = steady.size ∙ v.size ∙ sym len;
  fits = omega (arith, v.fits, num, len);
  filled = λ i h. steady.kept i (v.filled i (omega (arith, h, num)));
}

store-Settled :
    (p : PollList) (i : ℕ) (e : PollFd)
    → AllOk (Settled p) (do cells ← store p.poll_list i e; ok (record p { poll_list = cells }))
store-Settled p i e =
    AllOk->>= (store p.poll_list i e) (store-Stored p.poll_list i e)
      (λ cells stored. returns (stored.steady, refl, refl))

pub set_events-Settled :
    (p : PollList) (i : ℕ) (f : Bits → Bits) → AllOk (Settled p) (set_events p i f)
unfolding set_events
set_events-Settled p i f =
    AllOk-then (load p.poll_list i) (λ e at. store-Settled p i (record e { events = f e.events }))

clear_at-Settled : (p : PollList) (i : Option ℕ) → AllOk (Settled p) (clear_at p i)
unfolding clear_at
clear_at-Settled p none = returns (Settled-refl p)
clear_at-Settled p (some i) =
    AllOk-then (load p.poll_list i)
      (λ e at. store-Settled p i (record e { fd = minus_one; revents = no_bits }))

pub poll_list_remove-Settled : (p : PollList) (fd : ℤ) → AllOk (Settled p) (poll_list_remove p fd)
unfolding poll_list_remove
poll_list_remove-Settled p fd = AllOk-then (poll_list_lookup p fd) (λ i found. clear_at-Settled p i)

room-Sound :
    (p : PollList) → Sound p → AllOk (λ r. Sound r × (r.poll_num ≡ p.poll_num)) (room_for_one p)
unfolding room_for_one
room-Sound p v = elim (Bool-cases (p.poll_num == p.poll_len)) [
  | inr room ↦ rw room (returns (v, refl))
  | inl full ↦ rw full (
      AllOk->>= (int_value (p.poll_len * 2)) (int_value-AllOk (p.poll_len * 2)) (λ newlen double.
        let more : length p.poll_list ≤ newlen = omega (arith, v.size, double) in
        returns (
          record {
            size = length-realloc p.poll_list newlen more;
            fits = omega (arith, v.fits, double);
            filled = λ i h.
                let (e, at) = v.filled i h in
                (
                  e,
                  get_elem?-realloc p.poll_list newlen i more (omega (arith, h, v.fits, v.size))
                      ∙ at,
                );
          },
          refl,
        )))
]

Stored-Sound :
    (p : PollList) (cells : List (Option PollFd)) (num : ℕ)
    → Sound p
    → Stored p.poll_list p.poll_num cells
    → num ≡ p.poll_num + 1
    → Sound (record p { poll_list = cells; poll_num = num })
Stored-Sound p cells num v stored e = record {
  size = stored.steady.size ∙ v.size;
  fits = omega (arith, e, stored.inside, v.size);
  filled = λ i h. elim (ℕ_discrete p.poll_num i) [
    | yes same ↦ subst (λ k. Filled (get_elem? cells k)) same stored.here
    | no other ↦ stored.steady.kept i (v.filled i (grind arith))
  ];
}

pub add_to_poll_list-Sound :
    (p : PollList) (sock : ℤ) (events : Bits)
    → Sound p
    → AllOk Sound (add_to_poll_list p sock events)
unfolding add_to_poll_list
add_to_poll_list-Sound p sock events v = AllOk->>= (room_for_one p) (room-Sound p v) (λ room h.
    AllOk->>= (store room.poll_list room.poll_num _) (store-Stored room.poll_list room.poll_num _)
      (λ cells stored.
        AllOk->>= (int_value (room.poll_num + 1)) (int_value-AllOk (room.poll_num + 1))
          (λ num e. returns (Stored-Sound room cells num h.0 stored e))))

-- The first `num` cells, of a block of `size` cells, are initialised.
abbrev pub FilledTo : ℕ → List (Option PollFd) × ℕ → Type 0
FilledTo size (cells, num) =
    (length cells ≡ size) × ((i : ℕ) → i < num → Filled (get_elem? cells i))

pub FilledTo-Steady :
    (cells cells' : List (Option PollFd)) (num size : ℕ)
    → Steady cells cells'
    → FilledTo size (cells, num)
    → FilledTo size (cells', num - 1)
FilledTo-Steady cells cells' num size steady (same, filled) =
    (steady.size ∙ same, λ i h. steady.kept i (filled i (omega (arith, h))))

clean_from-FilledTo :
    (fuel : ℕ) (cells : List (Option PollFd)) (i num size : ℕ)
    → FilledTo size (cells, num)
    → AllOk (λ r. FilledTo size r × (r.1 ≤ num)) (clean_from fuel cells i num)
unfolding clean_from
clean_from-FilledTo zero cells i num size h = returns (h, omega arith)
clean_from-FilledTo (suc fuel) cells i num size h = elim (Bool-cases (ltb i num)) [
  | inr end ↦ rw end (returns (h, omega arith))
  | inl inside ↦ rw inside (
      AllOk-then (load cells i) (λ e at. elim (Bool-cases (eq_ℤ e.fd minus_one)) [
        | inr live ↦ rw live (clean_from-FilledTo fuel cells (i + 1) num size h)
        | inl dead ↦ rw dead (
            AllOk-then (load cells (num - 1)) (λ last at_end.
              AllOk->>= (store cells i last) (store-Stored cells i last) (λ cells' stored.
                AllOk-mono _
                  (clean_from-FilledTo fuel cells' i (num - 1) size
                    (FilledTo-Steady cells cells' num size stored.steady h))
                  (λ r g. (g.0, omega (arith, g.1))))))
      ]))
]

pub poll_list_clean-Sound : (p : PollList) → Sound p → AllOk Sound (poll_list_clean p)
unfolding poll_list_clean
poll_list_clean-Sound p v =
    AllOk->>= (clean_from p.poll_num p.poll_list 0 p.poll_num)
      (clean_from-FilledTo p.poll_num p.poll_list 0 p.poll_num p.poll_len (v.size, v.filled))
      (λ r h. returns (record { size = h.0.0; fits = omega (arith, h.1, v.fits); filled = h.0.1 }))
