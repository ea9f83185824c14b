-- ===== src/CpuLimit.antt =====
-- src/server/cpulimit-unix.c: the program that runs a command under a CPU and a memory limit. `main`
-- is split at `fork`: `parse_arguments` before it, `parent` and `child` behind it. What `fork` and
-- `waitpid` return is an argument.
pub mod Ends
pub mod Windows
use why3_fork.Base.{
  ℕ, zero, suc, ◌+◌, ◌-◌, ◌*◌, ◌%◌, ◌^◌, Bool, true, false, not, ◌&&◌, ◌||◌, Option, none, some,
  List, [], ◌∷◌, ◌++◌, Result, ok, err, overflow, null_pointer, guard, ◌>>=◌, ◌>>◌, ◌==◌, ltb,
  if◌then◌else◌,
}
use why3_fork.Base.Int.{ℤ, pos, negsuc}
use why3_fork.CString.{codes, str_eq, atol}
use why3_fork.Options.{to_int}
use why3_fork.Server.Jobs.{Status, signaled, exited, other_status}

abbrev pub Bytes : Type 0
Bytes = List ℕ

-- Signals and the exit code of a failure, as on Linux.
abbrev pub sigkill : ℕ
sigkill = 9

abbrev pub sigalrm : ℕ
sigalrm = 14

abbrev pub sigterm : ℕ
sigterm = 15

abbrev pub exit_failure : ℕ
exit_failure = 1

abbrev pub long_limit : ℕ
long_limit = 2 ^ 63

-- What a process does on its way; the limits are soft ones.
pub data Action : Type 0 where
  set_alarm : ℕ → Action
  kill_child : Action
  print_time : Action
  limit_cpu : ℕ → Action
  limit_memory : ℕ → Action
  no_core : Action

-- How a process ends: it returns from `main`, a signal that it sends itself ends it, or it becomes
-- the command.
pub data Ending : Type 0 where
  returned : ℕ → Ending
  by_signal : ℕ → Ending
  becomes : List Bytes → Ending

-- The limits are nonnegative `long`s.
pub record Arguments : Type 0 where
  pub showtime : Bool
  pub timelimit : ℕ
  pub memlimit : ℕ
  pub command : List Bytes

-- The part behind the two numbers.
unfoldable pub take_memory : Bytes → ℕ → Bytes → List Bytes → Result (Option Arguments)
take_memory show t memory command = do
  m ← atol memory
  elim m [
    | pos m ↦ ok (
        some (record {
          showtime = str_eq (codes "-s") show;
          timelimit = t;
          memlimit = m;
          command = command;
        }))
    | negsuc m ↦ ok none
  ]

-- `main` up to the fork, on the arguments behind `argv[0]`; `none` is a call of `usage`.
unfoldable pub parse_arguments : List Bytes → Result (Option Arguments)
unfolding take_memory
parse_arguments (time ∷ memory ∷ show ∷ command ∷ args) = do
  let shown = str_eq (codes "-s") show
  let hidden = str_eq (codes "-h") show
  let numbers = do
    t ← atol time
    elim t [ pos t ↦ take_memory show t memory (command ∷ args) | negsuc t ↦ ok none ]
  if not (shown || hidden) then ok none else numbers
parse_arguments _ = ok none

abbrev pub usage : Ending
usage = returned exit_failure

-- `wallclock_timelimit = 2 * timelimit + 60`, an `int`, which `alarm` takes as `unsigned`.
abbrev pub to_unsigned : ℤ → ℕ
to_unsigned (pos n) = n
to_unsigned (negsuc n) = 2 ^ 32 - suc n

unfoldable pub wallclock : ℕ → Result ℕ
wallclock timelimit = do
  guard (ltb (2 * timelimit + 60) long_limit) overflow
  ok (to_unsigned (to_int (pos (2 * timelimit + 60))))

unfoldable pub arm : ℕ → Result (List Action)
unfolding wallclock
arm zero = ok []
arm (suc t) = do seconds ← wallclock (suc t); ok (set_alarm seconds ∷ [])

-- `kill(getpid(), n)` with a signal that has ended the child; the handler of SIGALRM, which is there
-- with a time limit, returns, and `main` goes on to end itself by SIGTERM.
abbrev pub end_by : ℕ → ℕ → Ending
end_by timelimit n = if n == sigalrm && ltb 0 timelimit then by_signal sigterm else by_signal n

-- The end of `main` in the parent.
abbrev pub end_as : ℕ → Status → Ending
end_as timelimit (exited n) = returned n
end_as timelimit (signaled n) = end_by timelimit n
end_as timelimit other_status = by_signal sigterm

abbrev pub show_time : Bool → List Action
show_time showtime = if showtime then print_time ∷ [] else []

-- The two calls of `waitpid`: `none` for a result that is not positive.
unfoldable pub wait_child : Arguments → Option Status → Option Status → List Action × Ending
wait_child a (some status) second = (show_time a.showtime, end_as a.timelimit status)
wait_child a none (some status) = (kill_child ∷ show_time a.showtime, end_as a.timelimit status)
wait_child a none none = (kill_child ∷ [], by_signal sigterm)

unfoldable pub parent : Arguments → Option Status → Option Status → Result (List Action × Ending)
unfolding arm wait_child
parent a first second = do
  armed ← arm a.timelimit
  let (actions, ending) = wait_child a first second
  ok (armed ++ actions, ending)

-- `execvp` succeeds, or `main` returns EXIT_FAILURE.
unfoldable pub child : Arguments → Bool → Result (List Action × Ending)
child a found = do
  guard (ltb (a.memlimit * 1024 * 1024) long_limit) overflow
  let cpu = if ltb 0 a.timelimit then limit_cpu a.timelimit ∷ [] else []
  let memory = if ltb 0 a.memlimit then limit_memory (a.memlimit * 1024 * 1024) ∷ [] else []
  let core = if ltb 0 a.timelimit || ltb 0 a.memlimit then no_core ∷ [] else []
  ok (cpu ++ (memory ++ core), if found then becomes a.command else returned exit_failure)

-- What the system answers: whether `fork` succeeds, the results of `waitpid`, and whether the
-- command is there.
pub record Answers : Type 0 where
  pub forks : Bool
  pub first : Option Status
  pub second : Option Status
  pub found : Bool

-- What the calling process and the process that it forks do.
pub record Outcome : Type 0 where
  pub caller : Result (List Action × Ending)
  pub forked : Option (Result (List Action × Ending))

unfoldable pub run_command : Arguments → Answers → Outcome
run_command a w =
    if a.showtime || ltb 0 a.timelimit
    then if w.forks
      then record { caller = parent a w.first w.second; forked = some (child a w.found) }
      else record { caller = ok ([], returned exit_failure); forked = none }
    else record { caller = child a w.found; forked = none }

abbrev pub run_parsed : Option Arguments → Answers → Outcome
run_parsed none w = record { caller = ok ([], usage); forked = none }
run_parsed (some a) w = run_command a w

unfoldable pub main : List Bytes → Answers → Result Outcome
main argv w = do a ← parse_arguments argv; ok (run_parsed a w)
