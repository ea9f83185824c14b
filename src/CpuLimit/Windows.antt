-- ===== src/CpuLimit/Windows.antt =====
-- src/server/cpulimit-win.c: the same program for Windows. What `strtol` returns, with the text
-- behind the number, and the answers of the system are arguments.
pub mod Quoted
use why3_fork.Base.{
  ℕ, zero, suc, ◌+◌, ◌-◌, ◌*◌, ◌%◌, ◌^◌, ◌≤◌, Bool, true, false, not, ◌&&◌, ◌||◌, Option, none,
  some, List, [], ◌∷◌, ◌++◌, length, Result, ok, err, overflow, out_of_bounds, guard, ◌>>=◌, ◌>>◌,
  ◌==◌, ltb, leb, if◌then◌else◌,
}
use why3_fork.Base.Int.{ℤ, pos, negsuc, eq_ℤ}
use why3_fork.CString.{codes, strn_eq}
use why3_fork.CpuLimit.{Bytes, exit_failure}

-- A block of `size` bytes that holds a string, as the string; `strcat` writes its NUL too.
unfoldable pub strcat : ℕ → Bytes → Bytes → Result Bytes
strcat size p s = do guard (ltb (length p + length s) size) out_of_bounds; ok (p ++ s)

-- `s`, a sum of `unsigned long`s of 32 bits.
unfoldable pub sum_lengths : ℕ → List Bytes → ℕ
sum_lengths s [] = s
sum_lengths s (arg ∷ args) = sum_lengths ((s + length arg + 3) % 2 ^ 32) args

-- The loop that puts the arguments between quotes, with a space before all but the first.
unfoldable pub quote_all : ℕ → Bytes → List Bytes → Result Bytes
quote_all size p [] = ok p
quote_all size p (arg ∷ args) = do
  p1 ← strcat size p (codes "\"")
  p2 ← strcat size p1 arg
  p3 ← strcat size p2 (codes "\"")
  p4 ← elim args [ [] ↦ ok p3 | ◌∷◌ next rest ↦ strcat size p3 (codes " ") ]
  quote_all size p4 args

abbrev pub command_limit : ℕ
command_limit = 32767

-- The command line, or `none` where it is too long. `*p = '\0'` is the first write.
unfoldable pub command_line : List Bytes → Result (Option Bytes)
command_line args = do
  let s = sum_lengths 0 args
  if ltb command_limit s
      then ok none
      else (do guard (ltb 0 s) out_of_bounds; p ← quote_all s [] args; ok (some p))

-- A `long long` as `unsigned long long`, and products of each.
abbrev pub to_u64 : ℤ → ℕ
to_u64 (pos n) = n % 2 ^ 64
to_u64 (negsuc n) = 2 ^ 64 - suc (n % 2 ^ 64)

-- `1000ULL * 1000ULL * 10ULL * time_limit_seconds`
abbrev pub kernel_ticks : ℤ → ℕ
kernel_ticks t = (1000 * 1000 * 10) * to_u64 t % 2 ^ 64

-- `1024 * 1024 * memory_limit_MiB`, signed, as `size_t`.
abbrev pub memory_size : ℤ → Result ℕ
memory_size (pos n) = do guard (ltb (1024 * 1024 * n) (2 ^ 63)) overflow; ok (1024 * 1024 * n)
memory_size (negsuc n) = do
  guard (leb (1024 * 1024 * suc n) (2 ^ 63)) overflow
  ok (2 ^ 64 - 1024 * 1024 * suc n)

-- The limits of the job; `none` is a limit that is not set.
unfoldable pub time_of : ℤ → Option ℕ
time_of t = if eq_ℤ t (pos 0) then none else some (kernel_ticks t)

unfoldable pub memory_of : ℤ → Result (Option ℕ)
memory_of m = if eq_ℤ m (pos 0) then ok none else (do size ← memory_size m; ok (some size))

-- The result of `WaitForSingleObject` that the code tells from the others.
pub data Waited : Type 0 where
  wait_timeout : Waited
  wait_other : Waited

pub record Answers : Type 0 where
  pub sets_limits : Bool
  pub creates : Bool
  pub assigns : Bool
  pub waited : Waited
  pub exit_code : ℕ

pub record Job : Type 0 where
  pub command : Bytes
  pub ticks : Option ℕ
  pub memory : Option ℕ
  pub shows_time : Bool

-- What `main` starts, where it gets so far, and what it returns.
abbrev pub failed : Option Job × ℕ
failed = (none, exit_failure)

abbrev pub exit_of : Waited → ℕ → ℕ
exit_of wait_timeout ex = 152
exit_of wait_other ex = ex

abbrev pub is_none : Option ℕ → Bool
is_none none = true
is_none (some n) = false

unfoldable pub start_job : Job → Answers → Option Job × ℕ
start_job j w =
    if (is_none j.ticks && is_none j.memory || w.sets_limits) && (w.creates && w.assigns)
    then (some j, exit_of w.waited w.exit_code)
    else failed

abbrev pub with_command : ℤ → ℤ → Bool → Option Bytes → Answers → Result (Option Job × ℕ)
with_command t m shows none w = ok failed
with_command t m shows (some command) w = do
  memory ← memory_of m
  ok (
      start_job
        (record { command = command; ticks = time_of t; memory = memory; shows_time = shows }) w)

module _ (strtol : Bytes → ℤ × Bytes) where
  -- Whether a text is a number up to its end.
  abbrev pub is_number : Bytes → Bool
  is_number text = elim (strtol text).1 [ [] ↦ true | ◌∷◌ c rest ↦ false ]

  -- `main` on the arguments behind `argv[0]`.
  unfoldable pub main : List Bytes → Answers → Result (Option Job × ℕ)
  main (time ∷ memory ∷ show ∷ command ∷ args) w = do
    let shown = strn_eq (codes "-s") show 3
    let hidden = strn_eq (codes "-h") show 3
    let rest = do
      line ← command_line (command ∷ args)
      with_command (strtol time).0 (strtol memory).0 shown line w
    if is_number time && is_number memory && (shown || hidden) then rest else ok failed
  main _ w = ok failed
