-- ===== src/WinServer/Keys.antt =====
-- The keys of src/server/server-win.c: `to_ms_key` with its inverses, and the search of
-- `get_server_num`.
use why3_fork.Base.{
  ℕ, zero, suc, ◌+◌, ◌*◌, ◌<◌, ◌≡◌, refl, ap, ◌∙◌, Option, none, some, List, [], ◌∷◌, arith, map,
  take, length, Result, ok, err, overflow, out_of_bounds, ltb, int_limit, if◌then◌else◌, Bool-cases,
  inl, inr, load, block, ◌++◌, sym,
}
use why3_fork.Base.Int.{ℤ, pos, eq_ℤ}
use why3_fork.WinServer.State.{Server, to_ms_key, kind_of_ms_key, key_of_ms_key}
use why3_fork.WinServer.Clients.{server_num_from, get_server_num}

-- A key for the completion port gives back its kind and the key it is made of. The call overflows
-- exactly where twice the key and the kind do not fit in an `int`. The kind is 0 or 1.
pub to_ms_key_lem :
    (key kind : ℕ)
    → kind < 2
    → (to_ms_key key kind
        ≡ (if ltb (key * 2 + kind) int_limit then ok (key * 2 + kind) else err overflow))
      × (kind_of_ms_key (key * 2 + kind) ≡ kind)
      × (key_of_ms_key (key * 2 + kind) ≡ key)
unfolding to_ms_key kind_of_ms_key key_of_ms_key
to_ms_key_lem key kind h = (ground arith, omega (arith, h), omega (arith, h))

abbrev later : Option ℕ → Option ℕ
later none = none
later (some i) = some (i + 1)

-- The place of the first such key.
unfoldable pub position : ℤ → List ℤ → Option ℕ
position key [] = none
position key (k ∷ ks) = let rest = later (position key ks) in if eq_ℤ k key then some 0 else rest

-- What a search finds in `n` rounds from place `i` on, where the keys `ks` are.
abbrev pub searched : ℕ → ℕ → List ℤ → Option ℕ → Result (Option ℕ)
searched n i ks none = if ltb (length ks) n then err out_of_bounds else ok none
searched n i ks (some j) = ok (some (i + j))

searched-later :
    (n i : ℕ) (k : ℤ) (ks : List ℤ) (found : Option ℕ)
    → searched n (i + 1) ks found ≡ searched (suc n) i (k ∷ ks) (later found)
searched-later n i k ks none = ground arith
searched-later n i k ks (some j) = ap (λ m. ok (some m)) (omega arith)

load-here :
    (before : List ℤ) (k : ℤ) (ks : List ℤ)
    → load (block before (map some (k ∷ ks))) (length before) ≡ ok k
unfolding load
load-here [] k ks = refl
load-here (b ∷ before) k ks = load-here before k ks

-- The same cells and place, with one more key before it.
step_block :
    (before : List ℤ) (k : ℤ) (ks : List ℤ)
    → (block before (map some (k ∷ ks)) ≡ block (before ++ k ∷ []) (map some ks))
      × (length before + 1 ≡ length (before ++ k ∷ []))
step_block [] k ks = (refl, refl)
step_block (b ∷ before) k ks =
    let (cells, count) = step_block before k ks in (ap (◌∷◌ (some b)) cells, omega (arith, count))

load-behind : (before : List ℤ) → load (block before []) (length before) ≡ err out_of_bounds
unfolding load
load-behind [] = refl
load-behind (b ∷ before) = load-behind before

server_num_from_lem :
    (before ks : List ℤ) (key : ℤ) (n : ℕ)
    → server_num_from (block before (map some ks)) key n (length before)
      ≡ searched n (length before) ks (position key (take n ks))
unfolding server_num_from position
server_num_from_lem before ks key zero = ground arith
server_num_from_lem before [] key (suc n) = rw (load-behind before) ground arith
server_num_from_lem before (k ∷ ks) key (suc n) = elim (Bool-cases (eq_ℤ k key)) [
  | inl hit ↦ rw (load-here before k ks, hit) (ap (λ m. ok (some m)) (omega arith))
  | inr miss ↦
      let (cells, count) = step_block before k ks in
      rw (load-here before k ks, miss)
        (ap (λ c. server_num_from c key n (length before + 1)) cells
          ∙ ap (server_num_from (block (before ++ k ∷ []) (map some ks)) key n) count
          ∙ server_num_from_lem (before ++ k ∷ []) ks key n
          ∙ ap (λ i. searched n i ks (position key (take n ks))) (sym count)
          ∙ searched-later n (length before) k ks (position key (take n ks)))
]

-- `get_server_num` finds the first socket with the key, among the first `parallel`. Without one, it
-- answers that there is none, or reads behind the end of the keys, where `parallel` is larger than
-- their number. All keys of the array are set.
pub get_server_num_lem :
    (s : Server) (key : ℕ) (keys : List ℤ)
    → s.server_key ≡ map some keys
    → get_server_num s key ≡ searched s.parallel 0 keys (position (pos key) (take s.parallel keys))
unfolding get_server_num
get_server_num_lem s key keys h = rw h (server_num_from_lem [] keys (pos key) s.parallel)
