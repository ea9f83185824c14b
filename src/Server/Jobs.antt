-- ===== src/Server/Jobs.antt =====
-- The processes: `run_request`, `schedule_new_jobs`, `handle_child_events` of server-unix.c and
-- `kill_processes` of proc.c.
use why3_fork.Base.{
  ℕ, zero, suc, ◌+◌, Bool, true, false, not, ◌&&◌, Option, none, some, List, [], ◌∷◌, Result, ok,
  err, exit, null_pointer, guard, ◌>>=◌, ◌>>◌, ltb, if◌then◌else◌, load, map,
}
use why3_fork.Base.Int.{ℤ, eq_ℤ, minus_one}
use why3_fork.CString.{str_eq}
use why3_fork.ArrayList.{list_lookup, list_append, list_remove, list_length}
use why3_fork.Queue.{queue_is_empty, queue_pop, queue_length}
use why3_fork.Request.{Bytes, RunRequest}
use why3_fork.Server.State.{Server, System, Proc, Effect, spawn, kill}
use why3_fork.Server.Exec.{make_argv}
use why3_fork.Server.Messages.{send_started_msg_to_client, send_msg_to_client}

-- The loop of `kill_processes`, with the rounds that are left.
unfoldable pub kill_from : Bytes → List (Option Proc) → ℕ → ℕ → List Effect → Result (List Effect)
kill_from id cells zero i trace = ok trace
kill_from id cells (suc n) i trace = do
  p ← load cells i
  kill_from id cells n (i + 1) (if str_eq p.task_id id then kill p.id ∷ trace else trace)

unfoldable pub kill_processes : Server → Bytes → Result Server
kill_processes s id = do
  trace ← kill_from id s.processes.data_ s.processes.len 0 s.trace
  ok (record s { trace = trace })

module _ (system : System) where
  -- `run_request` for a client that is there. `create_process` makes the vector of arguments before the
  -- fork, and the server frees it behind the fork; the child's side is the effect.
  unfoldable pub run_for_client : Server → RunRequest → ℕ → Result Server
  run_for_client s r client = do
    let outfile = system.temp_name s.trace
    unix_argv ← make_argv r.cmd r.numargs (map (λ a. some a) r.args) r.usestdin
    let pid = system.fork s.trace
    guard (not (eq_ℤ pid minus_one)) (exit 1)
    processes ←
        list_append s.processes pid
          (record { id = pid; client_key = r.key; task_id = r.id; outfile = outfile })
    let s' = record s { processes = processes; trace = spawn pid r ∷ s.trace }
    send_started_msg_to_client s' client r.id

  unfoldable pub run_if_present : Server → RunRequest → Option ℕ → Result Server
  run_if_present s r none = ok s
  run_if_present s r (some client) = run_for_client s r client

  unfoldable pub run_request : Server → RunRequest → Result Server
  unfolding run_if_present
  run_request s r = do client ← list_lookup s.clients r.key; run_if_present s r client

  -- The loop of `schedule_new_jobs`, with the rounds allowed; each round takes a request off.
  unfoldable pub schedule : ℕ → Server → Result Server
  schedule zero s = ok s
  schedule (suc fuel) s =
      let next = do
        (r, queue) ← queue_pop s.queue
        s' ← run_request (record s { queue = queue }) r
        schedule fuel s'
      in if ltb (list_length s.processes) s.parallel && not (queue_is_empty s.queue)
        then next
        else ok s

  unfoldable pub schedule_new_jobs : Server → Result Server
  schedule_new_jobs s = schedule (queue_length s.queue) s

-- The status that `wait3` gives.
pub data Status : Type 0 where
  signaled : ℕ → Status
  exited : ℕ → Status
  other_status : Status

-- A child that `wait3` returns, with the text of its CPU time.
pub record Exit : Type 0 where
  pub pid : ℤ
  pub status : Status
  pub cpu_time : Bytes

abbrev pub exit_code : Status → ℕ
exit_code (signaled n) = n
exit_code (exited n) = n
exit_code other_status = 1

-- Every end by a signal counts as a timeout, that of a crash too.
abbrev pub is_timeout : Status → Bool
is_timeout (signaled n) = true
is_timeout _ = false

unfoldable pub report_to : Server → Exit → Proc → Option ℕ → Result Server
report_to s e child none = ok s
report_to s e child (some client) =
    send_msg_to_client s client child.task_id (exit_code e.status) e.cpu_time (is_timeout e.status)
      child.outfile

unfoldable pub finish_child : Server → Exit → Option Proc → Result Server
unfolding report_to
finish_child s e none = err null_pointer
finish_child s e (some child) = do
  client ← list_lookup s.clients child.client_key
  report_to s e child client

-- A round of `handle_child_events`.
unfoldable pub handle_exit : Server → Exit → Result Server
unfolding finish_child
handle_exit s e = do
  child ← list_lookup s.processes e.pid
  processes ← list_remove s.processes e.pid
  finish_child (record s { processes = processes }) e child

-- The children that `wait3` returns until it returns none.
unfoldable pub handle_child_events : Server → List Exit → Result Server
handle_child_events s [] = ok s
handle_child_events s (e ∷ es) = do s' ← handle_exit s e; handle_child_events s' es
