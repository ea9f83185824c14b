-- ===== src/Server/Scheduling.antt =====
-- `run_request` and `schedule_new_jobs`: they return, start what they should and no more.
use why3_fork.Base.{
  ℕ, suc, ◌+◌, ◌≤◌, ◌<◌, ◌^◌, ◌≡◌, refl, false, none, some, List, [], ◌∷◌, ◌++◌, arith, length,
  length-append, ok, ltb, Bool-cases, Option-cases, inl, inr,
}
use why3_fork.Base.Int.{eq_ℤ, minus_one}
use why3_fork.ArrayList.{list_length}
use why3_fork.ArrayList.Entries.{lookup}
use why3_fork.ArrayList.Holds.{list_lookup_lem, list_append_lem, list_length_lem}
use why3_fork.Queue.Holds.{queue_pop_lem, queue_is_empty-cons, queue_is_empty_lem, queue_length_lem}
use why3_fork.Request.{RunRequest}
use why3_fork.Server.State.{Server, System, Proc, Effect, spawn}
use why3_fork.Server.Arguments.{HasArgs, make_argv-total}
use why3_fork.Server.Jobs.{run_for_client, run_request, schedule, schedule_new_jobs}
use why3_fork.Server.Scheduled.{Launched, Scheduled, taken, go_on_missing, go_on_started, stopped}
use why3_fork.Server.Invariant.{Inv, send_started_lem}

-- `fork` does not fail. When it does, the code ends the server.
abbrev pub Forks : System → Type 0
Forks system = (t : List Effect) → eq_ℤ (system.fork t) minus_one ≡ false

Inv-mono : {n : ℕ} {rs : List RunRequest} {s : Server} → Inv n rs s → Inv (suc n) rs s
Inv-mono v = record {
  cs = v.cs;
  clients = v.clients;
  alive = λ k ptr e.
      let (c, at, g) = v.alive k ptr e in
      (c, at, record { messages = g.messages; writes = g.writes; few = omega (arith, g.few) });
  ps = v.ps;
  processes = v.processes;
  few_processes = omega (arith, v.few_processes);
  queue = v.queue;
  short = v.short;
  es = v.es;
  polls = v.polls;
}

-- In a good state, a request of a client that has gone is dropped: the state stays.
pub run_request-missing :
    (n : ℕ) (rs : List RunRequest) (system : System) (s : Server) (r : RunRequest) (v : Inv n rs s)
    → lookup r.key v.cs ≡ none
    → run_request system s r ≡ ok s
unfolding run_request
run_request-missing n rs system s r v e = rw (list_lookup_lem v.cs r.key v.clients, e)

-- In a good state, a request of a client that is there returns, in a good state, with one
-- process more, spawned for this request, and the announcement waits for the client behind the
-- earlier messages; the queue, the clients and the limit stay. `fork` does not fail, the
-- identifier is shorter than 2^30, the request has as many arguments as it says, and there are fewer
-- than 2^30 processes and messages of a client.
pub run_request-Launched :
    (n : ℕ) (rs : List RunRequest) (system : System) (s : Server) (r : RunRequest) (ptr : ℕ)
    (v : Inv n rs s)
    → lookup r.key v.cs ≡ some ptr
    → Forks system
    → length r.id < 2 ^ 30
    → HasArgs r
    → n < 2 ^ 30
    → Launched n rs system s r ptr
unfolding run_request run_for_client
run_request-Launched n rs system s r ptr v e forks h args k =
    let (unix_argv, made) = make_argv-total r args in
    let pid = system.fork s.trace in
    let p : Proc = record {
      id = pid;
      client_key = r.key;
      task_id = r.id;
      outfile = system.temp_name s.trace;
    } in
    let (l, added, w) = list_append_lem v.ps pid p v.processes (omega (arith, v.few_processes)) in
    let s1 = record s { processes = l; trace = spawn pid r ∷ s.trace } in
    let a = send_started_lem n s1 ptr r.id v.es (v.alive r.key ptr e) v.polls h (omega arith) in
    record {
      after = record s1 { heap = a.heap; polls = a.list };
      runs = rw (list_lookup_lem v.cs r.key v.clients, e, made, forks s.trace, added) a.runs;
      inv = record {
        cs = v.cs;
        clients = v.clients;
        alive = λ key q f. a.alive q (v.alive key q f);
        ps = v.ps ++ (pid, p) ∷ [];
        processes = w;
        few_processes = omega (arith, v.few_processes, length-append v.ps ((pid, p) ∷ []));
        queue = v.queue;
        short = v.short;
        es = a.es;
        polls = a.polls;
      };
      told = a.told;
      parallel = refl;
      queue = refl;
      clients = refl;
      processes = omega (
        arith,
        list_length_lem _ w,
        list_length_lem v.ps v.processes,
        length-append v.ps ((pid, p) ∷ []),
      );
      trace = refl;
    }

taken-Inv :
    {n : ℕ} {s : Server} (r : RunRequest) (rs : List RunRequest)
    → Inv n (r ∷ rs) s
    → Inv n rs (taken s)
taken-Inv r rs v = record {
  cs = v.cs;
  clients = v.clients;
  alive = v.alive;
  ps = v.ps;
  processes = v.processes;
  few_processes = v.few_processes;
  queue = (queue_pop_lem r rs v.queue).1;
  short = v.short.2;
  es = v.es;
  polls = v.polls;
}

schedule_lem :
    (rs : List RunRequest) (n k : ℕ) (system : System) (s : Server)
    → Inv n rs s
    → Forks system
    → n + length rs ≤ k
    → k ≤ 2 ^ 30
    → Scheduled system rs k s (schedule system (length rs) s)
unfolding schedule taken-Inv
schedule_lem [] n k system s v forks h m =
    stopped v (omega arith) (inl (queue_is_empty_lem [] v.queue))
schedule_lem (r ∷ rs) n k system s v forks h m =
    elim (Bool-cases (ltb (list_length s.processes) s.parallel)) [
      | inl free ↦
          rw (free, queue_is_empty-cons r rs v.queue, (queue_pop_lem r rs v.queue).0)
            (elim (Option-cases (lookup r.key v.cs)) [
              | inl gone ↦ rw (run_request-missing n rs system (taken s) r w gone) (
                  go_on_missing (rw (list_lookup_lem v.cs r.key v.clients, gone) refl)
                    (schedule_lem rs n k system (taken s) w forks (omega arith) m))
              | inr (ptr, here) ↦
                  let l =
                    run_request-Launched n rs system (taken s) r ptr w here forks v.short.0
                      v.short.1 (omega arith) in
                  rw l.runs (
                    go_on_started (ground arith)
                      (rw (list_lookup_lem v.cs r.key v.clients, here) refl) l
                      (schedule_lem rs (suc n) k system l.after l.inv forks (omega arith) m))
            ])
      | inr full ↦ rw full (stopped v (omega arith) (inr (ground arith)))
    ]
  where
    w : Inv n rs (taken s)
    w = taken-Inv r rs v

-- From a good state, `schedule_new_jobs` returns, in a good state. It takes the first requests
-- off the queue and leaves the others in their order; for each of those taken off whose client
-- is there it has spawned a process, in their order, and nothing else has been spawned, killed
-- or closed; the list of processes is longer by as many. When it returns, no request waits or
-- the limit of parallel processes is used up; and it has started none beyond that limit. The
-- clients and the limit stay. `fork` does not fail, and the processes, the messages of a client
-- and the waiting requests are at most 2^30 together.
pub schedule_new_jobs_lem :
    (rs : List RunRequest) (n k : ℕ) (system : System) (s : Server)
    → Inv n rs s
    → Forks system
    → n + length rs ≤ k
    → k ≤ 2 ^ 30
    → Scheduled system rs k s (schedule_new_jobs system s)
unfolding schedule_new_jobs
schedule_new_jobs_lem rs n k system s v forks h m =
    rw (queue_length_lem rs v.queue) (schedule_lem rs n k system s v forks h m)
