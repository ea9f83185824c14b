-- ===== src/Server/Start.antt =====
-- The state in which `server_init_listening` of server-unix.c leaves the server.
use why3_fork.Base.{
  ℕ, suc, ◌+◌, ◌*◌, ◌<◌, ◌≤◌, ◌^◌, ◌≡◌, refl, subst, Bool, true, false, none, List, [], ◌∷◌, arith,
  length, replicate, ok, ltb, leb, int_limit, block, ◌++◌, ◌==◌, store-block_end,
}
use why3_fork.Base.Int.{ℤ}
use why3_fork.ArrayList.{init_list}
use why3_fork.ArrayList.Entries.{lookup}
use why3_fork.ArrayList.Holds.{init_list-Holds}
use why3_fork.Queue.{Queue}
use why3_fork.Queue.Holds as queues
use why3_fork.Queue.Holds.{init_queue-Holds}
use why3_fork.PollList.{PollFd, PollList, only_pollin, no_bits, room_for_one, add_to_poll_list}
use why3_fork.PollList.Entries as polls
use why3_fork.Request.{RunRequest}
use why3_fork.Server.Messages.{c_string}
use why3_fork.Server.Invariant.{Inv}
use why3_fork.Server.Startup.{
  Startup, Running, init_globals, open_socket, setup_child_pipe, server_init_listening,
}

-- No call of the system fails, and the name of the socket fits.
pub record Succeeds (a : Startup) : Type 0 where
  pub opens_dir : a.opens_dir ≡ true
  pub enters_dir : a.enters_dir ≡ true
  pub fits : length (c_string a.filen) + 1 ≤ a.path_max
  pub unlinks : a.unlinks ≡ true
  pub binds : a.binds ≡ true
  pub listens : a.listens ≡ true
  pub goes_back : a.goes_back ≡ true
  pub closes_dir : a.closes_dir ≡ true
  pub makes_pipe : a.makes_pipe ≡ true
  pub gets_out_flags : a.gets_out_flags ≡ true
  pub sets_out_flags : a.sets_out_flags ≡ true
  pub gets_in_flags : a.gets_in_flags ≡ true
  pub sets_in_flags : a.sets_in_flags ≡ true
  pub installs_handler : a.installs_handler ≡ true

-- An entry that waits for input.
abbrev pub watching : ℤ → PollFd
watching fd = record { fd = fd; events = only_pollin; revents = no_bits }

-- The state has no clients, no processes and no requests, and watches the socket and the pipe.
pub record Started (a : Startup) (parallel : ℕ) (r : Running) : Type 0 where
  pub good : Inv 0 [] r.server
  pub watched : polls.Holds r.server.polls (watching a.socket ∷ watching a.pipe_out ∷ [])
  pub allowed : r.server.parallel ≡ parallel
  pub sock : r.server_sock ≡ a.socket
  pub pipe : r.cpipe ≡ a.pipe_out

add_to_poll_list_room :
    (es : List PollFd) (n len : ℕ) (sock : ℤ)
    → length es < len
    → len < int_limit
    → add_to_poll_list
        (record {
          poll_list = block es (replicate (suc n) none);
          poll_num = length es;
          poll_len = len;
        })
        sock
        only_pollin
      ≡ ok (record {
        poll_list = block (es ++ watching sock ∷ []) (replicate n none);
        poll_num = length es + 1;
        poll_len = len;
      })
unfolding add_to_poll_list room_for_one
add_to_poll_list_room es n len sock h small =
    let room : (length es == len) ≡ false = ground arith in
    let fits : ltb (length es + 1) int_limit ≡ true = ground arith in
    rw (room, store-block_end es none (replicate n none) (watching sock), fits) refl

-- A poll list with these entries and room for `n` more.
abbrev with_entries : List PollFd → ℕ → ℕ → PollList
with_entries es n parallel = record {
  poll_list = block es (replicate n none);
  poll_num = length es;
  poll_len = 2 + parallel;
}

-- The first state, with a queue of requests.
abbrev first_state : Startup → ℕ → Bool → Queue RunRequest → Running
first_state a parallel single_client q = record {
  server = record {
    parallel = parallel;
    single_client = single_client;
    clients = init_list parallel;
    heap = [];
    processes = init_list parallel;
    queue = q;
    polls = with_entries (watching a.socket ∷ watching a.pipe_out ∷ []) parallel parallel;
    trace = [];
  };
  server_sock = a.socket;
  cpipe = a.pipe_out;
}

first_state-Started :
    (a : Startup) (parallel : ℕ) (single_client : Bool) (q : Queue RunRequest)
    → 0 < parallel
    → parallel < 2 ^ 31
    → queues.Holds q []
    → Started a parallel (first_state a parallel single_client q)
unfolding lookup
first_state-Started a parallel single_client q h small v =
    let watched : polls.Holds (first_state a parallel single_client q).server.polls
        (watching a.socket ∷ watching a.pipe_out ∷ []) =
      record { rest = replicate parallel none; cells = refl; count = refl } in
    record {
      good = record {
        cs = [];
        clients = init_list-Holds parallel h small;
        alive = λ k ptr e. absurd cc;
        ps = [];
        processes = init_list-Holds parallel h small;
        few_processes = omega arith;
        queue = v;
        short = tt;
        es = watching a.socket ∷ watching a.pipe_out ∷ [];
        polls = watched;
      };
      watched = watched;
      allowed = refl;
      sock = refl;
      pipe = refl;
    }

-- The first entry, where the number of free cells is written as the code computes it.
add_socket :
    (parallel : ℕ) (sock : ℤ)
    → parallel < 2 ^ 30
    → add_to_poll_list
        (record {
          poll_list = replicate (2 + parallel) none;
          poll_num = 0;
          poll_len = 2 + parallel;
        })
        sock
        only_pollin
      ≡ ok (with_entries (watching sock ∷ []) (suc parallel) parallel)
add_socket parallel sock small =
    let two : suc (suc parallel) ≡ 2 + parallel = omega arith in
    subst
      (λ k.
        add_to_poll_list
          (record { poll_list = replicate k none; poll_num = 0; poll_len = 2 + parallel }) sock
          only_pollin
        ≡ ok (with_entries (watching sock ∷ []) (suc parallel) parallel))
      two
      (add_to_poll_list_room [] (suc parallel) (2 + parallel) sock (omega arith)
        (omega (arith, small)))

setup_child_pipe_lem :
    (a : Startup) (parallel : ℕ)
    → 0 < parallel
    → parallel < 2 ^ 30
    → Succeeds a
    → setup_child_pipe a (with_entries (watching a.socket ∷ []) (suc parallel) parallel)
      ≡ ok (with_entries (watching a.socket ∷ watching a.pipe_out ∷ []) parallel parallel)
unfolding setup_child_pipe
setup_child_pipe_lem a parallel h small g =
    rw
      (
        g.makes_pipe,
        g.gets_out_flags,
        g.sets_out_flags,
        g.gets_in_flags,
        g.sets_in_flags,
        g.installs_handler,
        add_to_poll_list_room (watching a.socket ∷ []) parallel (2 + parallel) a.pipe_out
            (omega (arith, h)) (omega (arith, small)),
      )
      refl

open_socket_lem :
    (a : Startup) (parallel : ℕ) → parallel < 2 ^ 30 → Succeeds a → open_socket a parallel ≡ ok tt
unfolding open_socket
open_socket_lem a parallel small g =
    let backlog : ltb (parallel * 2) int_limit ≡ true = ground arith in
    let name : leb (length (c_string a.filen) + 1) a.path_max ≡ true = ground (arith, g.fits) in
    rw (name, g.unlinks, g.binds, backlog, g.listens, g.goes_back, g.closes_dir) refl

-- Where no call of the system fails and the name of the socket fits, `server_init_listening` returns, and
-- leaves a good state without clients, processes and requests that watches the socket and the pipe of
-- SIGCHLD for input. The number of processes that are allowed is positive and below 2^30.
pub server_init_listening_lem :
    (a : Startup) (parallel : ℕ) (single_client : Bool)
    → 0 < parallel
    → parallel < 2 ^ 30
    → Succeeds a
    → (r : Running) × (server_init_listening a parallel single_client ≡ ok r) × Started a parallel r
unfolding server_init_listening init_globals
server_init_listening_lem a parallel single_client h small g =
    let (q, made, v) = init_queue-Holds {A = RunRequest} 100 (omega arith) (omega arith) in
    let size : ltb (2 + parallel) int_limit ≡ true = ground arith in
    (
      first_state a parallel single_client q,
      rw
          (
            made,
            size,
            open_socket_lem a parallel small g,
            add_socket parallel a.socket small,
            setup_child_pipe_lem a parallel h small g,
            g.opens_dir,
            g.enters_dir,
          )
          refl,
      first_state-Started a parallel single_client q h (omega (arith, small)) v,
    )
