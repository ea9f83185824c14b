-- ===== src/WinServer/Loop.antt =====
-- `init` and the loop of `main` in src/server/server-win.c. A round takes an event of the completion
-- port.
use why3_fork.Base.{
  ℕ, Bool, false, not, ◌&&◌, Option, none, some, List, [], ◌∷◌, replicate, Result, ok, err, exit,
  guard, ◌>>=◌, ◌>>◌, ◌==◌, if◌then◌else◌,
}
use why3_fork.Base.Int.{pos}
use why3_fork.ArrayList.{init_list, list_lookup}
use why3_fork.Queue.{init_queue}
use why3_fork.ReadBuf.{fill, have_read}
use why3_fork.WriteBuf.{have_written}
use why3_fork.Request.{Bytes}
use why3_fork.WinServer.State.{
  Server, System, Proc, deref, assign, kind_of_ms_key, key_of_ms_key, socket, process,
}
use why3_fork.WinServer.Messages.{try_write}
use why3_fork.WinServer.Jobs.{JobMessage, Exit, schedule_new_jobs, handle_child_event}
use why3_fork.WinServer.Clients.{
  do_read, close_client, get_server_num, create_sockets, accept_client, handle_msg, clear,
}

-- The operation that `conn->kind` names.
pub data Operation : Type 0 where
  readop : Operation
  writeop : Operation
  other_operation : Operation

-- An event of the completion port, with what the system says when it is asked about it. `message` is
-- what a read has put into the buffer, with `numbytes` bytes, and `numbytes` is also what a write has
-- written. `pipe_connected` and `broken_pipe` are tests of `GetLastError`.
pub record Event : Type 0 where
  pub mskey : ℕ
  pub res : Bool
  pub pipe_connected : Bool
  pub broken_pipe : Bool
  pub operation : Operation
  pub message : Bytes
  pub numbytes : ℕ
  pub job_message : JobMessage
  pub exit_info : Exit

-- The bytes of a finished read, which the system has put behind the bytes of the buffer.
unfoldable pub take_read : Server → ℕ → Bytes → ℕ → Result Server
take_read s client message numbytes = do
  c ← deref s client
  data_ ← fill c.readbuf.data_ c.readbuf.len message
  readbuf ← have_read (record c.readbuf { data_ = data_ }) numbytes
  assign s client (record c { readbuf = readbuf })

-- The end of a write, which is no longer under way.
unfoldable pub take_written : Server → ℕ → ℕ → Result Server
take_written s client numbytes = do
  c ← deref s client
  writebuf ← have_written c.writebuf numbytes
  assign s client (record c { writebuf = writebuf; write_pending = false })

-- The globals when `init` makes them: the requests have room for 100, the sockets and their keys for
-- `parallel`.
unfoldable pub init_globals : ℕ → Bool → Result Server
init_globals parallel single_client = do
  queue ← init_queue 100
  ok (record {
    parallel = parallel;
    single_client = single_client;
    clients = init_list parallel;
    heap = [];
    processes = init_list parallel;
    queue = queue;
    gen_key = 1;
    server_socket = replicate parallel none;
    server_key = replicate parallel none;
    trace = [];
  })

unfoldable pub report_to : System → Server → Proc → ℕ → Event → Option ℕ → Result Server
report_to system s proc key e none = ok s
report_to system s proc key e (some client) =
    handle_child_event system s proc client key e.job_message e.exit_info

unfoldable pub handle_found : System → Server → ℕ → Event → Option Proc → Result Server
unfolding report_to
handle_found system s key e none = ok s
handle_found system s key e (some proc) = do
  client ← list_lookup s.clients proc.client_key
  report_to system s proc key e client

-- `case PROCESS`
unfoldable pub handle_process : System → Server → ℕ → Event → Result Server
unfolding handle_found
handle_process system s key e = do
  proc ← list_lookup s.processes (pos key)
  handle_found system s key e proc

module _ (system : System) where
  unfoldable pub init : ℕ → Bool → Result Server
  init parallel single_client = do
    s ← init_globals parallel single_client
    create_sockets system s parallel 0

  -- The `switch` on the operation of a client.
  unfoldable pub handle_operation : Server → ℕ → ℕ → Event → Operation → Result Server
  handle_operation s client key e readop = do
    s1 ← take_read s client e.message e.numbytes
    if e.res
        then (do s2 ← handle_msg system s1 client key; s3 ← clear s2 client; do_read s3 client)
        else if e.numbytes == 0 && e.broken_pipe
        then close_client s1 client key
        else do_read s1 client
  handle_operation s client key e writeop = do
    s1 ← take_written s client e.numbytes
    try_write system s1 client
  handle_operation s client key e other_operation = err (exit 1)

  unfoldable pub handle_client : Server → ℕ → Event → Option ℕ → Result Server
  unfolding handle_operation
  handle_client s key e none = ok s
  handle_client s key e (some client) = handle_operation s client key e e.operation

  -- `case SOCKET`, with what `get_server_num` has found.
  unfoldable pub handle_socket : Server → ℕ → Event → Option ℕ → Result Server
  unfolding handle_client
  handle_socket s key e (some server_num) = do
    guard (not (not e.res && not e.pipe_connected)) (exit 1)
    accept_client system s key server_num
  handle_socket s key e none = do
    client ← list_lookup s.clients (pos key)
    handle_client s key e client

  -- The rest of a round, behind `GetQueuedCompletionStatus`. The kind of a key is 0 or 1.
  unfoldable pub handle_event : Server → Event → Result Server
  unfolding handle_socket handle_process
  handle_event s e = do
    guard (not (e.mskey == 0)) (exit 1)
    let key = key_of_ms_key e.mskey
    let kind = kind_of_ms_key e.mskey
    server_num ← get_server_num s key
    if kind == socket
        then handle_socket s key e server_num
        else if kind == process
        then handle_process system s key e
        else err (exit 1)

  -- A round of the loop.
  unfoldable pub round : Server → Event → Result Server
  unfolding handle_event
  round s e = do s' ← schedule_new_jobs system s; handle_event s' e

  -- The rounds that these events make.
  unfoldable pub run_rounds : Server → List Event → Result Server
  run_rounds s [] = ok s
  run_rounds s (e ∷ es) = do s' ← round s e; run_rounds s' es
