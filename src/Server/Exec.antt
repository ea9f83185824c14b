-- ===== src/Server/Exec.antt =====
-- `create_process` of src/server/server-unix.c: the argument vector, and what the child sets up
-- before `execvp`. A cell of the vector is a string or NULL.
use why3_fork.Base.{
  ℕ, zero, suc, ◌+◌, ◌-◌, ◌*◌, Bool, false, ◌||◌, Option, none, some, List, map, replicate, Result,
  ok, err, out_of_bounds, ◌>>=◌, ltb, if◌then◌else◌, load, store,
}
use why3_fork.Base.Int.{ℤ, pos, negsuc}
use why3_fork.Request.{Bytes, RunRequest}

-- `count + 1`; `count` is -1 for standard input without arguments.
abbrev pub count_plus_one : ℕ → Bool → ℕ
count_plus_one argc usestdin = if usestdin then argc else argc + 1

-- The loop over `unix_argv`, from `i`, with the rounds that are left.
unfoldable pub copy_argv :
    List (Option Bytes)
    → ℕ
    → ℕ
    → List (Option (Option Bytes))
    → Result (List (Option (Option Bytes)))
copy_argv argv zero i unix_argv = ok unix_argv
copy_argv argv (suc n) i unix_argv = do
  a ← load argv i
  next ← store unix_argv (i + 1) (some a)
  copy_argv argv n (i + 1) next

unfoldable pub make_argv :
    Bytes → ℕ → List (Option Bytes) → Bool → Result (List (Option (Option Bytes)))
make_argv cmd argc argv usestdin = do
  let end = count_plus_one argc usestdin
  first ← store (replicate (end + 1) none) 0 (some cmd)
  closed ← store first end none
  copy_argv argv (end - 1) 0 closed

-- `argv[count]`
unfoldable pub load_count : List (Option Bytes) → ℕ → Result Bytes
load_count argv zero = err out_of_bounds
load_count argv (suc count) = load argv count

-- The soft and hard limits are equal; `none` is a limit that stays as it is.
pub record Child : Type 0 where
  pub cpu_seconds : Option ℕ
  pub memory_bytes : Option ℕ
  pub no_core : Bool
  pub stdin : Option Bytes
  pub cmd : Bytes
  pub unix_argv : List (Option (Option Bytes))

abbrev pub positive : ℤ → Option ℕ
positive (pos zero) = none
positive (pos (suc n)) = some (suc n)
positive (negsuc n) = none

abbrev pub is_set : Option ℕ → Bool
is_set none = false
is_set (some n) = ltb 0 n

unfoldable pub stdin_of : List (Option Bytes) → ℕ → Bool → Result (Option Bytes)
unfolding load_count
stdin_of argv argc usestdin =
    if usestdin
    then (do f ← load_count argv (count_plus_one argc usestdin); ok (some f))
    else ok none

-- What the child of a request runs, where the opening of its input succeeds.
unfoldable pub create_process : RunRequest → Result Child
create_process r = do
  let argv = map (λ a. some a) r.args
  unix_argv ← make_argv r.cmd r.numargs argv r.usestdin
  let cpu = positive r.timeout
  let memory = if ltb 0 r.memlimit then some (r.memlimit * 1024 * 1024) else none
  stdin ← stdin_of argv r.numargs r.usestdin
  ok (record {
    cpu_seconds = cpu;
    memory_bytes = memory;
    no_core = is_set cpu || ltb 0 r.memlimit;
    stdin = stdin;
    cmd = r.cmd;
    unix_argv = unix_argv;
  })
