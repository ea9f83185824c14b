-- ===== src/Server/Alive.antt =====
-- No client of server-unix.c is used after it has been freed.
use why3_fork.Base.{
  ℕ, ◌+◌, ◌<◌, ◌^◌, ◌≡◌, arith, Bool, Option, none, some, [], length, ok, exit, int_value, AllOk,
  returns, stops, AllOk->>=, AllOk-then, AllOk-ok, AllOk-all, guard-AllOk, int_value-fits, load_lem,
}
use why3_fork.Base.Int.{ℤ}
use why3_fork.ArrayList.{list_lookup, list_append, list_length, init_list}
use why3_fork.ArrayList.Entries.{lookup}
use why3_fork.ArrayList.Holds.{init_list-Holds, list_lookup_lem}
use why3_fork.Queue.{init_queue}
use why3_fork.ReadBuf.{init_readbuf}
use why3_fork.WriteBuf.{init_writebuf}
use why3_fork.PollList.{Bits, only_pollin, add_to_poll_list, poll_list_clean}
use why3_fork.Server.State.{Client, Server, System, allocate, deref}
use why3_fork.Server.Clients.{server_accept_client, read_once}
use why3_fork.Server.Startup.{
  Startup, Running, init_globals, open_socket, setup_child_pipe, server_init_listening,
}
use why3_fork.Server.Loop.{Loop, Answer, top, set_revents, call_poll, step}
use why3_fork.Server.Linked.{Linked, append-Linked}
use why3_fork.Server.Steps.{StepInvariant, step-Keeps}

abbrev pub AllLinked : Server → Type 0
AllLinked s = Linked s.clients s.heap

-- The descriptor that `accept` would return is not that of a client, and the clients are fewer than
-- 2^30.
pub record Accepts (s : Server) (a : Answer) : Type 0 where
  pub fresh : list_lookup s.clients a.accepted ≡ ok none
  pub few : list_length s.clients < 2 ^ 30

-- The states that steps with such answers reach.
pub data Runs (system : System) : Loop → Loop → Type 0 where
  stays : {l : Loop} → Runs system l l
  steps :
      {l m n : Loop} (a : Answer)
      → Accepts l.running.server a
      → step system l a ≡ ok m
      → Runs system m n
      → Runs system l n

accept-Linked :
    (s : Server) (a : Answer)
    → Accepts s a
    → AllLinked s
    → AllOk AllLinked (server_accept_client s a.accepted)
unfolding server_accept_client allocate
accept-Linked s a h v = guard-AllOk _ (exit 1) _ (
    AllOk-then (init_readbuf read_once) (λ readbuf made.
      AllOk-then (init_writebuf s.parallel) (λ writebuf made_too.
        let c : Client = record { fd = a.accepted; readbuf = readbuf; writebuf = writebuf } in
        AllOk-then (list_append s.clients a.accepted (length s.heap)) (λ clients appended.
          AllOk-then (add_to_poll_list s.polls a.accepted only_pollin) (λ polls added.
            returns (append-Linked s.clients clients s.heap c h.fresh h.few appended v))))))

call_poll-Linked :
    (s : Server) (revents : Option (ℕ → Bits)) → AllLinked s → AllOk AllLinked (call_poll s revents)
unfolding call_poll
call_poll-Linked s none v = stops
call_poll-Linked s (some bits) v =
    AllOk-then (set_revents bits s.polls.poll_list s.polls.poll_num 0) (λ cells set. returns v)

AllLinked-StepInvariant : StepInvariant AllLinked Accepts
AllLinked-StepInvariant = record {
  quiet = λ s s' v (calm, settled, positive, linked). linked v;
  accept = accept-Linked;
  clean = λ s v. AllOk-all (poll_list_clean s.polls) (λ polls. v);
  poll = call_poll-Linked;
}

Runs-Linked :
    (system : System) {l m : Loop}
    → AllLinked l.running.server
    → Runs system l m
    → AllLinked m.running.server
Runs-Linked system v stays = v
Runs-Linked system {l} v (steps a h e rest) =
    Runs-Linked system (AllOk-ok (step-Keeps AllLinked-StepInvariant system l a h v) e) rest

pub no_clients-Linked :
    (parallel : ℕ) → 0 < parallel → parallel < 2 ^ 31 → Linked (init_list parallel) []
unfolding lookup
no_clients-Linked parallel h small =
    let holds = init_list-Holds parallel h small in
    record {
      cs = [];
      holds = holds;
      unique = tt;
      alive = λ fd ptr e. let none_there = list_lookup_lem [] fd holds in absurd cc;
    }

init_globals-Linked :
    (parallel : ℕ) (single_client : Bool)
    → 0 < parallel
    → AllOk AllLinked (init_globals parallel single_client)
unfolding init_globals
init_globals-Linked parallel single_client h = AllOk-then (init_queue 100) (λ queue made.
    AllOk->>= (int_value (2 + parallel)) (int_value-fits (2 + parallel))
      (λ poll_len fits. returns (no_clients-Linked parallel h (omega (arith, fits)))))

init-Linked :
    (a : Startup) (parallel : ℕ) (single_client : Bool)
    → 0 < parallel
    → AllOk (λ r. AllLinked r.server) (server_init_listening a parallel single_client)
unfolding server_init_listening
init-Linked a parallel single_client h = guard-AllOk a.opens_dir (exit 1) _ (
    guard-AllOk a.enters_dir (exit 1) _ (
      AllOk->>= (init_globals parallel single_client) (init_globals-Linked parallel single_client h)
        (λ s v. AllOk-then (open_socket a parallel) (λ done opened.
          AllOk-then (add_to_poll_list s.polls a.socket only_pollin) (λ with_socket added.
            AllOk-then (setup_child_pipe a with_socket) (λ polls last. returns v))))))

Linked-deref :
    (s : Server) (fd : ℤ) (ptr : ℕ)
    → AllLinked s
    → list_lookup s.clients fd ≡ ok (some ptr)
    → (c : Client) × (deref s ptr ≡ ok c) × (c.fd ≡ fd)
unfolding deref
Linked-deref s fd ptr v e =
    let (c, at, same) = v.alive fd ptr e in (c, load_lem s.heap ptr at, same)

-- In every state that the server reaches from its start, an address in the list of clients is that of a
-- client that has not been freed, and the client is listed under its descriptor. At least one process
-- is allowed at the start, `accept` never returns the descriptor of a client in the list, and fewer
-- than 2^30 clients are there at a time.
pub main-deref :
    (system : System) (a : Startup) (parallel : ℕ) (single_client : Bool) (r : Running) (l : Loop)
    → 0 < parallel
    → server_init_listening a parallel single_client ≡ ok r
    → Runs system (record { running = r; phase = top }) l
    → (fd : ℤ) (ptr : ℕ) → list_lookup l.running.server.clients fd ≡ ok (some ptr)
    → (c : Client) × (deref l.running.server ptr ≡ ok c) × (c.fd ≡ fd)
main-deref system a parallel single_client r l h start runs fd ptr e =
    let v = AllOk-ok (init-Linked a parallel single_client h) start in
    Linked-deref l.running.server fd ptr (Runs-Linked system v runs) e
