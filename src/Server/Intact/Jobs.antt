-- ===== src/Server/Intact/Jobs.antt =====
-- The start and the end of processes keep the state of server-unix.c intact.
use why3_fork.Base.{
  map, ℕ, zero, suc, ◌+◌, ◌*◌, ◌≤◌, ◌<◌, ◌^◌, ◌≡◌, refl, ◌∙◌, Bool, true, false, not, ◌&&◌, Option,
  none, some, List, [], ◌∷◌, ◌++◌, arith, length, length-append, ok, ltb, exit,
}
use why3_fork.Base.Int.{ℤ}
use why3_fork.Base.Safety.{
  Safe, gives, Safe-ok, Safe->>=, Safe-mono, Safe-from, guard-Safe, if-Safe,
}
use why3_fork.ArrayList.{ArrayList, list_lookup, list_append, list_remove, list_length}
use why3_fork.ArrayList.Entries.{remove, length-remove-le}
use why3_fork.ArrayList.Every.{append-Every, remove-Every}
use why3_fork.ArrayList.Holds.{list_lookup_lem, list_append_lem}
use why3_fork.ArrayList.Remove.{list_remove_lem}
use why3_fork.Queue.{Queue, queue_pop, queue_is_empty, queue_length}
use why3_fork.Queue.Holds as queues
use why3_fork.Queue.Holds.{popped, queue_pop_lem, queue_is_empty_lem, queue_length_lem}
use why3_fork.Request.{RunRequest}
use why3_fork.Server.State.{Server, System, Proc, spawn}
use why3_fork.Server.Jobs.{run_for_client, run_if_present, run_request, schedule, schedule_new_jobs}
use why3_fork.Server.Exec.{make_argv}
use why3_fork.Server.Arguments.{make_argv-total}
use why3_fork.Server.Intact.{
  Intact, Intact-mono, Working, Waiting, HasShortTexts, IsProper, AllProper, After,
}
use why3_fork.Server.Intact.Answers.{send_started-Safe}

-- `mkstemp` makes names that fit in a message.
abbrev pub HasShortNames : System → Type 0
HasShortNames system = (done : _) → length (system.temp_name done) < 2 ^ 29

append-Working :
    (n : ℕ) (l : ArrayList Proc) (pid : ℤ) (p : Proc)
    → Working n l
    → n < 2 ^ 30
    → HasShortTexts p
    → (l' : ArrayList Proc) × (list_append l pid p ≡ ok l') × Working (suc n) l'
append-Working n l pid p v small short =
    let (l', e, w) = list_append_lem v.ps pid p v.holds (omega (arith, v.few)) in
    (
      l',
      e,
      record {
        ps = v.ps ++ (pid, p) ∷ [];
        holds = w;
        few = omega (arith, v.few, length-append v.ps ((pid, p) ∷ []));
        short = append-Every HasShortTexts v.ps pid p v.short short;
      },
    )

pub remove-Working :
    (n : ℕ) (l : ArrayList Proc) (pid : ℤ)
    → Working n l
    → (l' : ArrayList Proc) × (list_remove l pid ≡ ok l') × Working n l'
remove-Working n l pid v =
    let (l', e, w) = list_remove_lem v.ps pid v.holds in
    (
      l',
      e,
      record {
        ps = remove pid v.ps;
        holds = w;
        few = omega (arith, v.few, length-remove-le pid v.ps);
        short = remove-Every HasShortTexts pid v.ps v.short;
      },
    )

pub with_processes :
    {n : ℕ} {s : Server} (l : ArrayList Proc) (trace : _)
    → Working n l
    → Intact n s
    → Intact n (record s { processes = l; trace = trace })
with_processes l trace w v = record {
  connected = v.connected;
  working = w;
  waiting = v.waiting;
  polls = v.polls;
  positive = v.positive;
}

pub with_queue :
    {n : ℕ} {s : Server} (q : Queue RunRequest)
    → Waiting n q
    → Intact n s
    → Intact n (record s { queue = q })
with_queue q w v = record {
  connected = v.connected;
  working = v.working;
  waiting = w;
  polls = v.polls;
  positive = v.positive;
}

popped_from :
    (n : ℕ) (q : Queue RunRequest) (rs : List RunRequest)
    → queues.Holds q rs
    → length rs ≤ n
    → AllProper rs
    → queue_is_empty q ≡ false
    → (r : RunRequest) × (q' : Queue RunRequest) × (queue_pop q ≡ ok (r, q'))
      × Waiting n q'
      × IsProper r
popped_from n q [] v few short some_left = let none_left = queue_is_empty_lem [] v in absurd cc
popped_from n q (r ∷ rs) v few short some_left =
    let (e, w) = queue_pop_lem r rs v in
    (
      r,
      popped q,
      e,
      record { rs = rs; holds = w; few = omega (arith, few); short = short.1 },
      short.0,
    )

pop-Waiting :
    (n : ℕ) (q : Queue RunRequest)
    → Waiting n q
    → queue_is_empty q ≡ false
    → (r : RunRequest) × (q' : Queue RunRequest) × (queue_pop q ≡ ok (r, q'))
      × Waiting n q'
      × IsProper r
pop-Waiting n q v = popped_from n q v.rs v.holds v.few v.short

and_not : (a b : Bool) → (a && not b) ≡ true → b ≡ false
and_not true true e = cc
and_not true false e = refl
and_not false b e = cc

-- A lookup does not stop, and an address that it finds is that of a client.
pub lookup_client-Safe :
    (n : ℕ) (s : Server) (fd : ℤ)
    → Intact n s
    → Safe (λ found. list_lookup s.clients fd ≡ ok found) (list_lookup s.clients fd)
lookup_client-Safe n s fd v =
    let e = list_lookup_lem v.connected.linked.cs fd v.connected.linked.holds in Safe-ok e e

module _ (system : System) (names : HasShortNames system) where
  run_for_client-Safe :
      (n : ℕ) (s : Server) (r : RunRequest) (ptr : ℕ)
      → Intact n s
      → IsProper r
      → list_lookup s.clients r.key ≡ ok (some ptr)
      → n < 2 ^ 30
      → Safe (After (suc (suc n)) s) (run_for_client system s r ptr)
  unfolding run_for_client
  run_for_client-Safe n s r ptr v short found small =
      let (c, at, fd) = v.connected.linked.alive r.key ptr found in
      let pid = system.fork s.trace in
      let p : Proc = record {
        id = pid;
        client_key = r.key;
        task_id = r.id;
        outfile = system.temp_name s.trace;
      } in
      let (l, appended, w) =
        append-Working n s.processes pid p v.working small (short.0, names s.trace) in
      let s' : Server = record s { processes = l; trace = spawn pid r ∷ s.trace } in
      let v' : Intact (suc n) s' =
        with_processes l (spawn pid r ∷ s.trace) w (Intact-mono (omega arith) v) in
      let (unix_argv, made) = make_argv-total r short.1 in
      Safe-from (make_argv r.cmd r.numargs (map (λ a. some a) r.args) r.usestdin) _ made (
        guard-Safe _ (exit 1) _ tt (
          Safe-from (list_append s.processes pid p) _ appended (
            Safe-mono _ (send_started-Safe (suc n) s' ptr c r.id v' at short.0 (omega arith))
              (λ t (w', same, kept). (w', same)))))

  run_if_present-Safe :
      (n : ℕ) (s : Server) (r : RunRequest) (client : Option ℕ)
      → Intact n s
      → IsProper r
      → list_lookup s.clients r.key ≡ ok client
      → n < 2 ^ 30
      → Safe (After (suc (suc n)) s) (run_if_present system s r client)
  unfolding run_if_present
  run_if_present-Safe n s r none v short found small = gives (Intact-mono (omega arith) v, refl)
  run_if_present-Safe n s r (some ptr) v short found small =
      run_for_client-Safe n s r ptr v short found small

  pub run_request-Safe :
      (n : ℕ) (s : Server) (r : RunRequest)
      → Intact n s
      → IsProper r
      → n < 2 ^ 30
      → Safe (After (suc (suc n)) s) (run_request system s r)
  unfolding run_request
  run_request-Safe n s r v short small =
      Safe->>= (list_lookup s.clients r.key) (lookup_client-Safe n s r.key v)
        (λ client found. run_if_present-Safe n s r client v short found small)

  schedule-Safe :
      (n fuel : ℕ) (s : Server)
      → Intact n s
      → n + 2 * fuel < 2 ^ 30
      → Safe (After (n + 2 * fuel) s) (schedule system fuel s)
  unfolding schedule
  schedule-Safe n zero s v small = gives (Intact-mono (omega arith) v, refl)
  schedule-Safe n (suc fuel) s v small =
      if-Safe (ltb (list_length s.processes) s.parallel && not (queue_is_empty s.queue)) _ _
        (λ test.
          let (r, q, popped, w, short) = pop-Waiting n s.queue v.waiting (and_not _ _ test) in
          let s' : Server = record s { queue = q } in
          Safe-from (queue_pop s.queue) _ popped (
            Safe->>= (run_request system s' r)
              (run_request-Safe n s' r (with_queue q w v) short (omega arith))
              (λ t (v', e).
                Safe-mono _ (schedule-Safe (suc (suc n)) fuel t v' (omega arith))
                  (λ last (v'', e'). (Intact-mono (omega arith) v'', e' ∙ e)))))
        (λ test. gives (Intact-mono (omega arith) v, refl))

  pub schedule_new_jobs-Safe :
      (n : ℕ) (s : Server)
      → Intact n s
      → n ≤ 2 ^ 28
      → Safe (After (n + 2 * n) s) (schedule_new_jobs system s)
  unfolding schedule_new_jobs
  schedule_new_jobs-Safe n s v small =
      let rounds = queue_length_lem v.waiting.rs v.waiting.holds in
      Safe-mono _
        (schedule-Safe n (queue_length s.queue) s v (omega (arith, rounds, v.waiting.few)))
        (λ t (w, e). (Intact-mono (omega (arith, rounds, v.waiting.few)) w, e))
