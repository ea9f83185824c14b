-- ===== src/Server/Scheduled.antt =====
-- What `run_request` and `schedule_new_jobs` of src/server/server-unix.c reach, one request after the other.
use why3_fork.Base.{
  ℕ, suc, ◌+◌, ◌≤◌, ◌<◌, ◌≡◌, ◌⊎◌, refl, ap, ◌∙◌, Bool, true, false, some, List, [], ◌∷◌, ◌++◌,
  arith, length, if◌then◌else◌, Option, Result, ok, inl, inr,
}
use why3_fork.ArrayList.{ArrayList, list_length, list_lookup}
use why3_fork.Queue.{queue_is_empty}
use why3_fork.Queue.Holds.{popped}
use why3_fork.Request.{RunRequest}
use why3_fork.Server.State.{Server, System, Effect, spawn}
use why3_fork.Server.Messages.{started_text}
use why3_fork.Server.Jobs.{run_request}
use why3_fork.Server.Invariant.{Inv, Told}

-- A request whose client is there: one process more, for this request; the other globals stay.
pub record Launched (n : ℕ) (rs : List RunRequest) (system : System) (s : Server) (r : RunRequest)
    (ptr : ℕ) : Type 0 where
  pub after : Server
  pub runs : run_request system s r ≡ ok after
  pub inv : Inv (suc n) rs after
  pub told : Told s.heap after.heap ptr (started_text r.id)
  pub parallel : after.parallel ≡ s.parallel
  pub queue : after.queue ≡ s.queue
  pub clients : after.clients ≡ s.clients
  pub processes : list_length after.processes ≡ list_length s.processes + 1
  pub trace : after.trace ≡ spawn (system.fork s.trace) r ∷ s.trace

-- Whether a lookup has found a client.
abbrev pub is_there : Result (Option ℕ) → Bool
is_there (ok (some client)) = true
is_there _ = false

-- The requests whose clients are there, in their order.
abbrev pub present : ArrayList ℕ → List RunRequest → List RunRequest
present clients [] = []
present clients (r ∷ rs) =
    if is_there (list_lookup clients r.key) then r ∷ present clients rs else present clients rs

-- The trace once the requests have been started one by one.
abbrev pub started : System → List RunRequest → List Effect → List Effect
started system [] trace = trace
started system (r ∷ rs) trace = started system rs (spawn (system.fork trace) r ∷ trace)

-- What the scheduling loop reaches: the first requests are taken off, and a process is started for each of
-- them whose client is there, in their order. It stops when no request waits or the limit is used up, and
-- it starts no process beyond the limit.
pub record Scheduled (system : System) (rs : List RunRequest) (n : ℕ) (s : Server)
    (answer : Result Server) : Type 0 where
  pub after : Server
  pub runs : answer ≡ ok after
  pub size : ℕ
  pub gone : List RunRequest
  pub waiting : List RunRequest
  pub split : rs ≡ gone ++ waiting
  pub trace : after.trace ≡ started system (present s.clients gone) s.trace
  pub count :
      list_length after.processes ≡ list_length s.processes + length (present s.clients gone)
  pub clients : after.clients ≡ s.clients
  pub inv : Inv size waiting after
  pub bound : size ≤ n
  pub parallel : after.parallel ≡ s.parallel
  pub stops : (queue_is_empty after.queue ≡ true) ⊎ (after.parallel ≤ list_length after.processes)
  pub limit :
      (list_length after.processes ≤ s.parallel)
      ⊎ (list_length after.processes ≡ list_length s.processes)

-- The server after the next request has been taken off the queue.
abbrev pub taken : Server → Server
taken s = record s { queue = popped s.queue }

-- A loop that goes on behind a request whose client has gone.
pub go_on_missing :
    {system : System} {r : RunRequest} {rs : List RunRequest} {n : ℕ} {s : Server}
    {answer : Result Server}
    → is_there (list_lookup s.clients r.key) ≡ false
    → Scheduled system rs n (taken s) answer
    → Scheduled system (r ∷ rs) n s answer
go_on_missing {r = r} missing d = record {
  after = d.after;
  runs = d.runs;
  size = d.size;
  gone = r ∷ d.gone;
  waiting = d.waiting;
  split = ap (λ xs. r ∷ xs) d.split;
  trace = rw missing d.trace;
  count = rw missing d.count;
  clients = d.clients;
  inv = d.inv;
  bound = d.bound;
  parallel = d.parallel;
  stops = d.stops;
  limit = d.limit;
}

-- A loop that goes on behind a request that has been started.
pub go_on_started :
    {system : System} {r : RunRequest} {rs ws : List RunRequest} {m n ptr : ℕ} {s : Server}
    {answer : Result Server}
    → list_length s.processes < s.parallel
    → is_there (list_lookup s.clients r.key) ≡ true
    → (l : Launched m ws system (taken s) r ptr) → Scheduled system rs n l.after answer
    → Scheduled system (r ∷ rs) n s answer
go_on_started {system} {r} {s = s} free here l d =
    let kept : present l.after.clients d.gone ≡ present s.clients d.gone =
      ap (λ c. present c d.gone) l.clients in
    record {
      after = d.after;
      runs = d.runs;
      size = d.size;
      gone = r ∷ d.gone;
      waiting = d.waiting;
      split = ap (λ xs. r ∷ xs) d.split;
      trace = rw here (
          d.trace
          ∙ ap (λ rs. started system rs l.after.trace) kept
          ∙ ap (started system (present s.clients d.gone)) l.trace);
      count = rw here (omega (arith, d.count, l.processes, ap length kept));
      clients = d.clients ∙ l.clients;
      inv = d.inv;
      bound = d.bound;
      parallel = d.parallel ∙ l.parallel;
      stops = d.stops;
      limit = elim d.limit [
        | inl h ↦ inl (omega (arith, h, l.parallel))
        | inr h ↦ inl (omega (arith, h, l.processes))
      ];
    }

-- A loop that stops where it is.
pub stopped :
    {system : System} {n k : ℕ} {rs : List RunRequest} {s : Server}
    → Inv n rs s
    → n ≤ k
    → (queue_is_empty s.queue ≡ true) ⊎ (s.parallel ≤ list_length s.processes)
    → Scheduled system rs k s (ok s)
stopped {system} {n} {k} {rs} {s} v h stops = record {
  after = s;
  runs = refl;
  size = n;
  gone = [];
  waiting = rs;
  split = refl;
  trace = refl;
  count = omega arith;
  clients = refl;
  inv = v;
  bound = h;
  parallel = refl;
  stops = stops;
  limit = inr refl;
}
