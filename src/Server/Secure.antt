-- ===== src/Server/Secure.antt =====
-- The server of server-unix.c never touches memory that is not its own.
use why3_fork.Base.{
  ℕ, ◌+◌, ◌<◌, ◌^◌, Bool, Option, none, List, [], ◌∷◌, arith, length-replicate, exit, int_value,
  ◌*◌, AllOk,
}
use why3_fork.Base.Safety.{
  Safe, gives, Safe->>=, Safe-from, Safe-both, guard-Safe, test-Safe, int_value-Safe,
}
use why3_fork.ArrayList.Holds.{init_list-Holds}
use why3_fork.Queue.{init_queue}
use why3_fork.Queue.Holds.{init_queue-Holds}
use why3_fork.PollList.{PollFd, PollList, only_pollin, add_to_poll_list}
use why3_fork.PollList.Safety.{Roomy, add_to_poll_list-Safe}
use why3_fork.Server.State.{System}
use why3_fork.Server.Startup.{
  Startup, init_globals, open_socket, setup_child_pipe, server_init_listening,
}
use why3_fork.Server.Loop.{Loop, Answer, top, step, run_steps, main}
use why3_fork.Server.Alive.{no_clients-Linked}
use why3_fork.Server.Intact.{Intact}
use why3_fork.Server.Intact.Jobs.{HasShortNames}
use why3_fork.Server.Intact.Bounds.{Sensible}
use why3_fork.Server.Intact.Loop.{step-Safe, with_polls}

init_globals-Safe :
    (parallel : ℕ) (single_client : Bool)
    → 0 < parallel
    → Safe (Intact 0) (init_globals parallel single_client)
unfolding init_globals
init_globals-Safe parallel single_client h =
    let (queue, made, holds) = init_queue-Holds 100 (omega arith) (omega arith) in
    Safe-from (init_queue 100) _ made (
      Safe->>= (int_value (2 + parallel)) (int_value-Safe (2 + parallel)) (λ poll_len (e, fits).
        let small : parallel < 2 ^ 31 = omega (arith, fits) in
        gives (record {
          connected = record {
            linked = no_clients-Linked parallel h small;
            buffers = λ ptr c at. absurd cc;
          };
          working = record {
            ps = [];
            holds = init_list-Holds parallel h small;
            few = omega arith;
            short = tt;
          };
          waiting = record { rs = []; holds = holds; few = omega arith; short = tt };
          polls = record {
            sound = record {
              size = length-replicate {A = Option PollFd} poll_len none;
              fits = omega arith;
              filled = λ i less. absurd (omega (arith, less));
            };
            positive = omega (arith, e);
          };
          positive = (h, small);
        })))

open_socket-Safe : (a : Startup) (parallel : ℕ) → Safe (λ u. Unit {0}) (open_socket a parallel)
unfolding open_socket
open_socket-Safe a parallel = guard-Safe _ (exit 1) _ tt (
    guard-Safe a.unlinks (exit 1) _ tt (
      guard-Safe a.binds (exit 1) _ tt (
        Safe->>= (int_value (parallel * 2)) (int_value-Safe (parallel * 2)) (λ backlog fits.
          guard-Safe a.listens (exit 1) _ tt
            (guard-Safe a.goes_back (exit 1) _ tt (test-Safe a.closes_dir (exit 1) tt))))))

setup_child_pipe-Safe : (a : Startup) (p : PollList) → Roomy p → Safe Roomy (setup_child_pipe a p)
unfolding setup_child_pipe
setup_child_pipe-Safe a p v = guard-Safe a.makes_pipe (exit 1) _ tt (
    guard-Safe a.gets_out_flags (exit 1) _ tt (
      guard-Safe a.sets_out_flags (exit 1) _ tt (
        guard-Safe a.gets_in_flags (exit 1) _ tt (
          guard-Safe a.sets_in_flags (exit 1) _ tt (
            guard-Safe a.installs_handler (exit 1) _ tt
              (add_to_poll_list-Safe p a.pipe_out only_pollin v))))))

init-Safe :
    (a : Startup) (parallel : ℕ) (single_client : Bool)
    → 0 < parallel
    → Safe (λ r. Intact 0 r.server) (server_init_listening a parallel single_client)
unfolding server_init_listening
init-Safe a parallel single_client h = guard-Safe a.opens_dir (exit 1) _ tt (
    guard-Safe a.enters_dir (exit 1) _ tt (
      Safe->>= (init_globals parallel single_client) (init_globals-Safe parallel single_client h)
        (λ s v. Safe->>= (open_socket a parallel) (open_socket-Safe a parallel) (λ done opened.
          Safe->>= (add_to_poll_list s.polls a.socket only_pollin)
            (add_to_poll_list-Safe s.polls a.socket only_pollin v.polls)
            (λ with_socket roomy.
              Safe->>= (setup_child_pipe a with_socket) (setup_child_pipe-Safe a with_socket roomy)
                (λ polls last. gives (with_polls polls last v)))))))

-- In every state that the steps reach, what the system answers next is sensible.
abbrev pub AllSensible : System → List Answer → Loop → Type 0
AllSensible system [] l = Unit {0}
AllSensible system (a ∷ rest) l =
    Sensible l.running.server a × AllOk (AllSensible system rest) (step system l a)

abbrev pub IntactLoop : Loop → Type 0
IntactLoop l = (n : ℕ) × Intact n l.running.server

run_steps-Safe :
    (system : System) (answers : List Answer) (l : Loop)
    → HasShortNames system
    → IntactLoop l
    → AllSensible system answers l
    → Safe IntactLoop (run_steps system l answers)
unfolding run_steps
run_steps-Safe system [] l names v sensible = gives v
run_steps-Safe system (a ∷ rest) l names (n, v) (now, later) =
    Safe->>= (step system l a) (Safe-both _ (step-Safe system names n l a v now) later)
      (λ l' (w, next). run_steps-Safe system rest l' names (2 ^ 30, w) next)

-- A run of `main`, with any number of steps, leaves every queue, list and buffer such that it holds what
-- it stands for, or stops by `exit`, a failed assertion, an overflow of `int`, or a copy between areas
-- that overlap. It never accesses memory out of bounds, reads memory that is freed or not initialised,
-- follows a null pointer, or divides by zero. At least one process is allowed at the start, and names
-- of files are shorter than 2^29 bytes. In each state that is reached, at most 2^28 requests wait, as many
-- processes run or end at once, and as many messages and bytes wait for a client, in a buffer of less than
-- 2^60 bytes; there are fewer than 2^30 clients; `accept` returns a new descriptor, `wait3` children that run, and `read` at most as many
-- bytes as it is asked for.
pub main-Safe :
    (system : System) (a : Startup) (parallel : ℕ) (single_client : Bool) (answers : List Answer)
    → 0 < parallel
    → HasShortNames system
    → AllOk
        (λ r. AllSensible system answers (record { running = r; phase = top }))
        (server_init_listening a parallel single_client)
    → Safe IntactLoop (main system a parallel single_client answers)
unfolding main
main-Safe system a parallel single_client answers h names sensible =
    Safe->>= (server_init_listening a parallel single_client)
      (Safe-both _ (init-Safe a parallel single_client h) sensible)
      (λ r (v, next).
        run_steps-Safe system answers (record { running = r; phase = top }) names (0, v) next)
