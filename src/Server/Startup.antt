-- ===== src/Server/Startup.antt =====
-- `server_init_listening` and `setup_child_pipe` of src/server/server-unix.c, and the globals they
-- make.
use why3_fork.Base.{
  ℕ, ◌+◌, ◌*◌, Bool, [], replicate, length, none, Result, ok, exit, guard, ◌>>=◌, ◌>>◌, leb,
  int_value,
}
use why3_fork.Base.Int.{ℤ}
use why3_fork.ArrayList.{init_list}
use why3_fork.Queue.{init_queue}
use why3_fork.PollList.{PollList, only_pollin, add_to_poll_list}
use why3_fork.Request.{Bytes}
use why3_fork.Server.State.{Server}
use why3_fork.Server.Messages.{c_string}

-- What the calls of the system answer at the start: `false` is a failure, but `unlinks` also holds
-- where there is no file to delete. `filen` is the last part of the name of the socket, and
-- `path_max` the room for it.
pub record Startup : Type 0 where
  pub opens_dir : Bool
  pub enters_dir : Bool
  pub filen : Bytes
  pub path_max : ℕ
  pub socket : ℤ
  pub unlinks : Bool
  pub binds : Bool
  pub listens : Bool
  pub goes_back : Bool
  pub closes_dir : Bool
  pub makes_pipe : Bool
  pub pipe_out : ℤ
  pub gets_out_flags : Bool
  pub sets_out_flags : Bool
  pub gets_in_flags : Bool
  pub sets_in_flags : Bool
  pub installs_handler : Bool

-- The server with the globals that never change again: the socket it listens on, and the end of the
-- pipe that says that children have ended.
pub record Running : Type 0 where
  pub server : Server
  pub server_sock : ℤ
  pub cpipe : ℤ

unfoldable pub setup_child_pipe : Startup → PollList → Result PollList
setup_child_pipe a polls = do
  guard a.makes_pipe (exit 1)
  guard a.gets_out_flags (exit 1)
  guard a.sets_out_flags (exit 1)
  guard a.gets_in_flags (exit 1)
  guard a.sets_in_flags (exit 1)
  guard a.installs_handler (exit 1)
  add_to_poll_list polls a.pipe_out only_pollin

-- The globals before the socket is made: requests have room for 100, the poll list for two
-- descriptors and `parallel` clients.
unfoldable pub init_globals : ℕ → Bool → Result Server
init_globals parallel single_client = do
  queue ← init_queue 100
  poll_len ← int_value (2 + parallel)
  ok (record {
    parallel = parallel;
    single_client = single_client;
    clients = init_list parallel;
    heap = [];
    processes = init_list parallel;
    queue = queue;
    polls = record { poll_list = replicate poll_len none; poll_num = 0; poll_len = poll_len };
    trace = [];
  })

-- The socket file in its directory, and the way back.
unfoldable pub open_socket : Startup → ℕ → Result (Unit {0})
open_socket a parallel = do
  guard (leb (length (c_string a.filen) + 1) a.path_max) (exit 1)
  guard a.unlinks (exit 1)
  guard a.binds (exit 1)
  backlog ← int_value (parallel * 2)
  guard a.listens (exit 1)
  guard a.goes_back (exit 1)
  guard a.closes_dir (exit 1)

unfoldable pub server_init_listening : Startup → ℕ → Bool → Result Running
server_init_listening a parallel single_client = do
  guard a.opens_dir (exit 1)
  guard a.enters_dir (exit 1)
  s ← init_globals parallel single_client
  open_socket a parallel
  with_socket ← add_to_poll_list s.polls a.socket only_pollin
  polls ← setup_child_pipe a with_socket
  ok (record { server = record s { polls = polls }; server_sock = a.socket; cpipe = a.pipe_out })
