-- ===== src/WinServer/Jobs.antt =====
-- The processes of src/server/server-win.c: `run_request`, `schedule_new_jobs`, `handle_child_event`.
use why3_fork.Base.{
  ℕ, zero, suc, ◌+◌, ◌-◌, ◌*◌, ◌%◌, ◌^◌, Bool, false, not, ◌&&◌, ◌||◌, Option, none, some, List,
  ◌∷◌, map, take, Result, ok, err, exit, guard, ◌>>=◌, ◌>>◌, ◌==◌, ltb, if◌then◌else◌, load,
}
use why3_fork.Base.Int.{ℤ, pos, negsuc, eq_ℤ}
use why3_fork.CString.{codes, str_eq}
use why3_fork.ArrayList.{list_lookup, list_append, list_remove, list_length}
use why3_fork.Queue.{queue_is_empty, queue_pop, queue_length}
use why3_fork.Request.{Bytes, RunRequest}
use why3_fork.Server.Exec.{count_plus_one, stdin_of}
use why3_fork.WinServer.CommandLine.{build_command}
use why3_fork.WinServer.State.{
  Proc, Limits, Effect, spawn, resume, terminate, Server, System, ask, keygen, to_ms_key, process,
}
use why3_fork.WinServer.Messages.{send_started_msg_to_client, send_msg_to_client}

-- `1000LL * 1000LL * 10LL * (LONGLONG)r->timeout`, which cannot overflow.
abbrev pub ticks_of : ℤ → ℤ
ticks_of (pos n) = pos (10000000 * n)
ticks_of (negsuc n) = negsuc (10000000 * suc n - 1)

unfoldable pub limits_of : RunRequest → Limits
limits_of r = record {
  ticks = if eq_ℤ r.timeout (pos 0) then none else some (ticks_of r.timeout);
  memory = if r.memlimit == 0 then none else some (1024 * 1024 * r.memlimit % 2 ^ 64);
}

-- A value that a call of the system gives, or the end of the server.
abbrev pub obtained {ℓ} : {A : Type ℓ} → Option A → Result A
obtained none = err (exit 1)
obtained (some a) = ok a

-- Whether `SetInformationJobObject` is called, and succeeds.
unfoldable pub limits_set : System → Server → RunRequest → Bool
limits_set system s r = eq_ℤ r.timeout (pos 0) && r.memlimit == 0 || system.sets_limits s.trace

-- The loop of `kill_processes`, with `TerminateProcess`.
unfoldable pub kill_from : Bytes → List (Option Proc) → ℕ → ℕ → List Effect → Result (List Effect)
kill_from id cells zero i trace = ok trace
kill_from id cells (suc n) i trace = do
  p ← load cells i
  kill_from id cells n (i + 1) (if str_eq p.task_id id then terminate p.handle ∷ trace else trace)

unfoldable pub kill_processes : Server → Bytes → Result Server
kill_processes s id = do
  trace ← kill_from id s.processes.data_ s.processes.len 0 s.trace
  ok (record s { trace = trace })

module _ (system : System) where
  -- `run_request` behind a successful `CreateProcess`.
  unfoldable pub register : Server → RunRequest → ℕ → ℕ → ℕ → Bytes → Result Server
  register s r client job handle outfile = do
    guard (system.assigns s.trace) (exit 1)
    (key, s1) ← keygen s
    processes ← list_append s1.processes (pos key) (record {
      handle = handle;
      job = job;
      client_key = r.key;
      task_id = r.id;
      outfile = outfile;
    })
    s2 ← send_started_msg_to_client system (record s1 { processes = processes }) client r.id
    mskey ← to_ms_key key process
    guard (system.associates s2.trace) (exit 1)
    ok (ask s2 (resume handle))

  abbrev pub created : Server → RunRequest → ℕ → ℕ → Bytes → Option ℕ → Result Server
  created s r client job outfile none =
      send_msg_to_client system s client r.id 0 (codes "0.00") false outfile
  created s r client job outfile (some handle) = register s r client job handle outfile

  unfoldable pub run_for_client : Server → RunRequest → ℕ → Result Server
  unfolding limits_set
  run_for_client s r client = do
    let argcount = count_plus_one r.numargs r.usestdin - 1
    job ← obtained (system.job s.trace)
    outfile ← obtained (system.temp_name s.trace)
    infile ← stdin_of (map (λ a. some a) r.args) r.numargs r.usestdin
    cmd ← build_command r.cmd (take argcount r.args)
    guard (limits_set system s r) (exit 1)
    let s' = ask s (spawn cmd infile (limits_of r))
    created s' r client job outfile (system.create s.trace)

  abbrev pub run_if_present : Server → RunRequest → Option ℕ → Result Server
  run_if_present s r none = ok s
  run_if_present s r (some client) = run_for_client s r client

  unfoldable pub run_request : Server → RunRequest → Result Server
  run_request s r = do client ← list_lookup s.clients r.key; run_if_present s r client

  -- The loop of `schedule_new_jobs`, with the rounds allowed; each round takes a request off.
  unfoldable pub schedule : ℕ → Server → Result Server
  schedule zero s = ok s
  schedule (suc fuel) s =
      let next = do
        (r, queue) ← queue_pop s.queue
        s' ← run_request (record s { queue = queue }) r
        schedule fuel s'
      in if ltb (list_length s.processes) s.parallel && not (queue_is_empty s.queue)
        then next
        else ok s

  unfoldable pub schedule_new_jobs : Server → Result Server
  schedule_new_jobs s = schedule (queue_length s.queue) s

-- The messages of a job: those that say nothing of an end, those that do, and all others.
pub data JobMessage : Type 0 where
  no_end : JobMessage
  ended : JobMessage
  unknown : JobMessage

-- What the system says of a process that has ended, with the text of its CPU time.
pub record Exit : Type 0 where
  pub exitcode : ℕ
  pub cpu_time : Bytes

-- ERROR_NOT_ENOUGH_QUOTA and STATUS_QUOTA_EXCEEDED
abbrev pub is_timeout : ℕ → Bool
is_timeout exitcode = exitcode == 1816 || exitcode == 3221225540

-- `free_process` is left out: it closes handles and releases memory.
unfoldable pub handle_child_event :
    System → Server → Proc → ℕ → ℕ → JobMessage → Exit → Result Server
handle_child_event system s child client proc_key no_end e = ok s
handle_child_event system s child client proc_key ended e = do
  processes ← list_remove s.processes (pos proc_key)
  send_msg_to_client system (record s { processes = processes }) client child.task_id e.exitcode
      e.cpu_time (is_timeout e.exitcode) child.outfile
handle_child_event system s child client proc_key unknown e = err (exit 1)
