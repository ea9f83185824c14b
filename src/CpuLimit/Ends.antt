-- ===== src/CpuLimit/Ends.antt =====
-- A run of src/server/cpulimit-unix.c from its command line to its end.
use native.Mathlib.Decide.{ℕ_discrete}
use why3_fork.Base.{
  ℕ, zero, suc, ◌+◌, ◌*◌, ◌%◌, ◌<◌, ◌^◌, ◌≡◌, ◌≢◌, refl, Bool, true, false, ◌||◌, Option, none,
  some, List, [], ◌∷◌, ◌++◌, ◌==◌, arith, Result, ok, ltb, if◌then◌else◌,
}
use why3_fork.CString.{codes, str_eq}
use why3_fork.CString.Decimal.{print_decimal, atol-print_decimal}
use why3_fork.Options.{to_int}
use why3_fork.Server.Jobs.{Status, exited, signaled, other_status}
use why3_fork.CpuLimit.{
  Bytes, Action, Ending, Outcome, set_alarm, kill_child, print_time, limit_cpu, limit_memory,
  no_core, returned, by_signal, becomes, exit_failure, Arguments, Answers, take_memory,
  parse_arguments, wallclock, arm, end_as, show_time, wait_child, parent, child, run_command, main,
}

-- `alarm` gets the wall clock limit modulo 2^32.
wallclock_lem : (t : ℕ) → t + 30 < 2 ^ 31 → wallclock t ≡ ok (2 * t + 60)
unfolding wallclock to_int
wallclock_lem t h =
    let small : ltb (2 * t + 60) (2 ^ 63) ≡ true = ground arith in
    let same : (2 * t + 60) % 2 ^ 32 ≡ 2 * t + 60 = omega (arith, h) in
    rw (small, same) (ground arith)

abbrev pub flag : Bool → Bytes
flag shows = if shows then codes "-s" else codes "-h"

abbrev pub accepted : Bool → ℕ → ℕ → List Bytes → Arguments
accepted shows t m command = record {
  showtime = shows;
  timelimit = t;
  memlimit = m;
  command = command;
}

parse_lem :
    (shows : Bool) (t m : ℕ) (command : Bytes) (args : List Bytes)
    → t < 2 ^ 63
    → m < 2 ^ 63
    → parse_arguments (print_decimal t ∷ print_decimal m ∷ flag shows ∷ command ∷ args)
      ≡ ok (some (accepted shows t m (command ∷ args)))
unfolding parse_arguments take_memory str_eq
parse_lem true t m command args h k = rw (atol-print_decimal t h, atol-print_decimal m k) refl
parse_lem false t m command args h k = rw (atol-print_decimal t h, atol-print_decimal m k) refl

abbrev pub memory_actions : ℕ → List Action
memory_actions m = if ltb 0 m then limit_memory (m * 1024 * 1024) ∷ [] else []

-- The status of the command, if `waitpid` gives one: a call without a result kills the command and waits
-- once more.
pub data Waits : Option Status → Option Status → List Action → Option Status → Type 0 where
  at_once : (status : Status) (second : Option Status) → Waits (some status) second [] (some status)
  again : (status : Status) → Waits none (some status) (kill_child ∷ []) (some status)
  never : Waits none none (kill_child ∷ []) none

-- The time is printed for a command that has ended, on demand.
pub data Shows : Bool → Option Status → List Action → Type 0 where
  asked : (status : Status) → Shows true (some status) (print_time ∷ [])
  silent : (status : Status) → Shows false (some status) []
  without : (shows : Bool) → Shows shows none []

-- How a caller with a time limit ends: like the command, but by SIGTERM for a SIGALRM, which it handles, and
-- where it does not know how the command has ended.
pub data EndsLike : Option Status → Ending → Type 0 where
  same_code : (n : ℕ) → EndsLike (some (exited n)) (returned n)
  same_signal : (n : ℕ) → n ≢ 14 → EndsLike (some (signaled n)) (by_signal n)
  by_alarm : EndsLike (some (signaled 14)) (by_signal 15)
  neither : EndsLike (some other_status) (by_signal 15)
  unknown : EndsLike none (by_signal 15)

pub data Runs : Bool → List Bytes → Ending → Type 0 where
  runs : (command : List Bytes) → Runs true command (becomes command)
  fails : (command : List Bytes) → Runs false command (returned 1)

-- A run under limits: what the caller and the forked process do, and how they end.
pub record Limited (shows : Bool) (t m : ℕ) (command : List Bytes) (w : Answers)
    (outcome : Result Outcome) : Type 0 where
  pub killed : List Action
  pub shown : List Action
  pub status : Option Status
  pub caller_ends : Ending
  pub command_ends : Ending
  pub runs :
      outcome
      ≡ ok (record {
        caller = ok (set_alarm (2 * t + 60) ∷ (killed ++ shown), caller_ends);
        forked = some (ok (limit_cpu t ∷ (memory_actions m ++ no_core ∷ []), command_ends));
      })
  pub waits : Waits w.first w.second killed status
  pub prints : Shows shows status shown
  pub like : EndsLike status caller_ends
  pub becomes : Runs w.found command command_ends

show_time-Shows : (shows : Bool) (status : Status) → Shows shows (some status) (show_time shows)
show_time-Shows true status = asked status
show_time-Shows false status = silent status

end_as-EndsLike : (t : ℕ) (status : Status) → EndsLike (some status) (end_as (suc t) status)
end_as-EndsLike t (exited n) = same_code n
end_as-EndsLike t other_status = neither
end_as-EndsLike t (signaled n) =
    let positive : ltb 0 (suc t) ≡ true = ground arith in
    elim (ℕ_discrete n 14) [
      | yes same ↦ rw (same, positive) by_alarm
      | no other ↦
          let differs : (n == 14) ≡ false = ground arith in rw differs (same_signal n other)
    ]

Runs-found :
    (found : Bool) (command : List Bytes)
    → Runs found command (if found then becomes command else returned exit_failure)
Runs-found true command = runs command
Runs-found false command = fails command

-- What the two calls of `waitpid` come to.
record Waited (a : Arguments) (first second : Option Status) : Type 0 where
  killed : List Action
  shown : List Action
  status : Option Status
  ends : Ending
  result : wait_child a first second ≡ (killed ++ shown, ends)
  waits : Waits first second killed status
  prints : Shows a.showtime status shown
  like : EndsLike status ends

wait_child_lem :
    (shows : Bool) (t m : ℕ) (command : List Bytes) (first second : Option Status)
    → Waited (accepted shows (suc t) m command) first second
unfolding wait_child
wait_child_lem shows t m command (some st) second = record {
  killed = [];
  shown = show_time shows;
  status = some st;
  ends = end_as (suc t) st;
  result = refl;
  waits = at_once st second;
  prints = show_time-Shows shows st;
  like = end_as-EndsLike t st;
}
wait_child_lem shows t m command none (some st) = record {
  killed = kill_child ∷ [];
  shown = show_time shows;
  status = some st;
  ends = end_as (suc t) st;
  result = refl;
  waits = again st;
  prints = show_time-Shows shows st;
  like = end_as-EndsLike t st;
}
wait_child_lem shows t m command none none = record {
  killed = kill_child ∷ [];
  shown = [];
  status = none;
  ends = by_signal 15;
  result = refl;
  waits = never;
  prints = without shows;
  like = unknown;
}

-- With a positive time limit `t`, and where `fork` succeeds, whatever `waitpid` and `execvp` answer: the
-- child limits its CPU time to `t` seconds and its memory to `m` MiB, or not at all for 0, switches core
-- dumps off and becomes the command, or returns 1 if that fails. The caller sets an alarm of
-- `2 * t + 60` seconds, kills a child that the first `waitpid` gives no status of and waits again, and
-- prints the time if asked to and it has a status. It returns the exit code of the command, or ends by the signal that has
-- ended it; but by SIGTERM where that signal is SIGALRM, or where it knows neither. `t + 30` is below
-- 2^31 and `m` below 2^43.
pub main_lem :
    (shows : Bool) (t m : ℕ) (command : Bytes) (args : List Bytes) (w : Answers)
    → 0 < t
    → t + 30 < 2 ^ 31
    → m < 2 ^ 43
    → w.forks ≡ true
    → Limited shows t m
        (command ∷ args)
        w
        (main (print_decimal t ∷ print_decimal m ∷ flag shows ∷ command ∷ args) w)
unfolding main run_command parent child arm
main_lem shows zero m command args w p h k forks = elim p [ ]
main_lem shows (suc t) m command args w p h k forks =
    let memory : ltb (m * 1024 * 1024) (2 ^ 63) ≡ true = ground arith in
    let running : (shows || ltb 0 (suc t)) ≡ true = ground arith in
    let positive : ltb 0 (suc t) ≡ true = ground arith in
    let waited = wait_child_lem shows t m (command ∷ args) w.first w.second in
    record {
      killed = waited.killed;
      shown = waited.shown;
      status = waited.status;
      caller_ends = waited.ends;
      command_ends = if w.found then becomes (command ∷ args) else returned exit_failure;
      runs =
          rw
            (
              parse_lem shows (suc t) m command args (omega (arith, h)) (omega (arith, k)),
              running,
              forks,
              waited.result,
              memory,
              wallclock_lem (suc t) h,
            )
            (rw positive refl);
      waits = waited.waits;
      prints = waited.prints;
      like = waited.like;
      becomes = Runs-found w.found (command ∷ args);
    }
