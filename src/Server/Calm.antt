-- ===== src/Server/Calm.antt =====
-- What the handlers of server-unix.c leave as it is: they give no entry of the poll list new events, and
-- all but `server_accept_client` add no entry.
use why3_fork.Base.{
  map, ℕ, ◌≡◌, refl, Bool, Option, none, some, Result, ok, ◌>>=◌, store, AllOk, returns, AllOk-mono,
  AllOk->>=, AllOk-then, AllOk-both, arith, ◌<◌, guard-AllOk, exit, subst,
}
use why3_fork.ArrayList.{list_append, list_lookup}
use why3_fork.WriteBuf.{push_write_data}
use why3_fork.PollList.{Bits, PollList, poll_list_lookup, set_events}
use why3_fork.PollList.Sound.{Settled, Settled-refl, Settled-trans, set_events-Settled}
use why3_fork.Request.{Bytes, RunRequest}
use why3_fork.Server.State.{Client, Server, System, assign, deref}
use why3_fork.Server.Messages.{
  queue_write, watch_output, send_started_msg_to_client, send_msg_to_client, started_text,
  finished_text,
}
use why3_fork.Server.Exec.{make_argv}
use why3_fork.Server.Jobs.{kill_from, kill_processes, run_for_client, run_if_present, run_request}
use why3_fork.Server.Linked.{Linked, Linked-Kept, store-Kept}
use why3_fork.Server.Ready.{Calm, Calm-refl, Calm-trans, set_events-Calm}

-- What a handler may do: to the poll list, to the number of processes that are allowed, and to the
-- clients.
abbrev pub Quiet : Server → Server → Type 0
Quiet s s' =
    Calm s.polls s'.polls
    × Settled s.polls s'.polls
    × (0 < s.parallel → 0 < s'.parallel)
    × (Linked s.clients s.heap → Linked s'.clients s'.heap)

pub Quiet-refl : (s : Server) → Quiet s s
Quiet-refl s = (Calm-refl s.polls, Settled-refl s.polls, (λ h. h), λ v. v)

pub Quiet-trans : (s t u : Server) → Quiet s t → Quiet t u → Quiet s u
Quiet-trans s t u (a, b, c, d) (x, y, z, w) =
    (Calm-trans a x, Settled-trans b y, (λ h. z (c h)), λ v. w (d v))

pub Quiet->>= :
    (s : Server) (m : Result Server) {next : Server → Result Server}
    → AllOk (Quiet s) m
    → ((s' : Server) → AllOk (Quiet s') (next s'))
    → AllOk (Quiet s) (m >>= next)
Quiet->>= s m h f =
    AllOk->>= m h (λ s' calm. AllOk-mono _ (f s') (λ t later. Quiet-trans s s' t calm later))

-- A write through the pointer to a client that leaves its descriptor as it is.
abbrev pub Assigned : Server → Server → Type 0
Assigned s s' =
    (s'.polls ≡ s.polls)
    × (s'.parallel ≡ s.parallel)
    × (Linked s.clients s.heap → Linked s'.clients s'.heap)

pub assign-Assigned :
    (s : Server) (ptr : ℕ) (old new : Client)
    → deref s ptr ≡ ok old
    → new.fd ≡ old.fd
    → AllOk (Assigned s) (assign s ptr new)
unfolding assign deref
assign-Assigned s ptr old new at same =
    AllOk->>= (store s.heap ptr new) (store-Kept s.heap ptr old new at same)
      (λ heap kept. returns (refl, refl, λ v. Linked-Kept v kept))

-- What a handler may do to the poll list.
abbrev pub Touched : PollList → PollList → Type 0
Touched p p' = Calm p p' × Settled p p'

pub set_events-Touched :
    (p : PollList) (i : ℕ) (f : Bits → Bits) → AllOk (Touched p) (set_events p i f)
set_events-Touched p i f = AllOk-both _ (set_events-Calm p i f) (set_events-Settled p i f)

watch_output-Touched : (p : PollList) (entry : Option ℕ) → AllOk (Touched p) (watch_output p entry)
unfolding watch_output
watch_output-Touched p none = returns (Calm-refl p, Settled-refl p)
watch_output-Touched p (some i) = set_events-Touched p i _

pub Touched-Quiet :
    (s s' : Server) (polls : PollList)
    → Assigned s s'
    → Touched s'.polls polls
    → Quiet s (record s' { polls = polls })
Touched-Quiet s s' polls (e, same, linked) touched =
    let (calm, settled) = subst (λ p. Touched p polls) e touched in
    (calm, settled, (λ k. omega (arith, k, same)), linked)

pub assign-Quiet :
    (s : Server) (ptr : ℕ) (old new : Client)
    → deref s ptr ≡ ok old
    → new.fd ≡ old.fd
    → AllOk (Quiet s) (assign s ptr new)
assign-Quiet s ptr old new at same =
    AllOk-mono (assign s ptr new) (assign-Assigned s ptr old new at same) (λ s' assigned.
      Touched-Quiet s s' s'.polls assigned (Calm-refl s'.polls, Settled-refl s'.polls))

-- A change of the poll list is all that the rest of a handler does.
polls-Quiet :
    (s s' : Server) (m : Result PollList)
    → Assigned s s'
    → AllOk (Touched s'.polls) m
    → AllOk (Quiet s) (do polls ← m; ok (record s' { polls = polls }))
polls-Quiet s s' m same h =
    AllOk->>= m h (λ polls touched. returns (Touched-Quiet s s' polls same touched))

queue_write-Quiet :
    (s : Server) (client : ℕ) (msgbuf : Bytes) → AllOk (Quiet s) (queue_write s client msgbuf)
unfolding queue_write
queue_write-Quiet s client msgbuf = AllOk-then (deref s client) (λ c found.
    AllOk-then (push_write_data c.writebuf msgbuf) (λ writebuf pushed.
      let c' = record c { writebuf = writebuf } in
      AllOk->>= (assign s client c') (assign-Assigned s client c c' found refl) (λ s' e.
        AllOk-then (poll_list_lookup s'.polls c.fd) (λ entry seen.
          polls-Quiet s s' (watch_output s'.polls entry) e (watch_output-Touched s'.polls entry)))))

pub send_started-Quiet :
    (s : Server) (client : ℕ) (id : Bytes)
    → AllOk (Quiet s) (send_started_msg_to_client s client id)
unfolding send_started_msg_to_client
send_started-Quiet s client id =
    guard-AllOk _ (exit 1) _ (queue_write-Quiet s client (started_text id))

pub send_msg-Quiet :
    (s : Server) (client : ℕ) (id : Bytes) (exitcode : ℕ) (cpu_time : Bytes) (timeout : Bool)
    (outfile : Bytes)
    → AllOk (Quiet s) (send_msg_to_client s client id exitcode cpu_time timeout outfile)
unfolding send_msg_to_client
send_msg-Quiet s client id exitcode cpu_time timeout outfile =
    guard-AllOk _ (exit 1) _
      (queue_write-Quiet s client (finished_text id exitcode cpu_time timeout outfile))

run_for_client-Quiet :
    (system : System) (s : Server) (r : RunRequest) (client : ℕ)
    → AllOk (Quiet s) (run_for_client system s r client)
unfolding run_for_client
run_for_client-Quiet system s r client =
    AllOk-then (make_argv r.cmd r.numargs (map (λ a. some a) r.args) r.usestdin) (λ unix_argv made.
      guard-AllOk _ (exit 1) _ (
        AllOk-then (list_append s.processes _ _)
          (λ processes added. send_started-Quiet _ client r.id)))

run_if_present-Quiet :
    (system : System) (s : Server) (r : RunRequest) (client : Option ℕ)
    → AllOk (Quiet s) (run_if_present system s r client)
unfolding run_if_present
run_if_present-Quiet system s r none = returns (Quiet-refl s)
run_if_present-Quiet system s r (some client) = run_for_client-Quiet system s r client

pub run_request-Quiet :
    (system : System) (s : Server) (r : RunRequest) → AllOk (Quiet s) (run_request system s r)
unfolding run_request
run_request-Quiet system s r =
    AllOk-then (list_lookup s.clients r.key)
      (λ client found. run_if_present-Quiet system s r client)

pub kill_processes-Quiet : (s : Server) (id : Bytes) → AllOk (Quiet s) (kill_processes s id)
unfolding kill_processes
kill_processes-Quiet s id =
    AllOk-then (kill_from id s.processes.data_ s.processes.len 0 s.trace)
      (λ trace killed. returns (Quiet-refl s))
