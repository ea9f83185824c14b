-- ===== src/WinServer/Clients.antt =====
-- The connections of src/server/server-win.c: `create_server_socket`, `accept_client`, `handle_msg`,
-- `close_client`.
use why3_fork.Base.{
  ℕ, zero, suc, ◌+◌, ◌-◌, false, not, ◌&&◌, Option, none, some, List, Result, ok, exit, guard,
  ◌>>=◌, ◌>>◌, ltb, if◌then◌else◌, load, store,
}
use why3_fork.Base.Int.{ℤ, pos, eq_ℤ}
use why3_fork.ArrayList.{list_append, list_remove, list_length, list_is_empty}
use why3_fork.Queue.{queue_push}
use why3_fork.ReadBuf.{init_readbuf, prepare_read, clear_readbuf}
use why3_fork.WriteBuf.{init_writebuf, free_writebuf}
use why3_fork.Request.{Request, run, interrupt, parse_request, remove_from_queue}
use why3_fork.Server.Clients.{read_bytes}
use why3_fork.WinServer.State.{
  Server, System, listen, start_read, close_handle, deref, assign, release, allocate, ask, keygen,
  to_ms_key, socket,
}
use why3_fork.WinServer.Jobs.{obtained, run_request, kill_processes}

abbrev pub read_once : ℕ
read_once = 1024

abbrev pub bufsize : ℕ
bufsize = 4096

unfoldable pub do_read : Server → ℕ → Result Server
do_read s client = do
  c ← deref s client
  let (buf, readbuf) = prepare_read c.readbuf read_once
  s' ← assign s client (record c { readbuf = readbuf })
  ok (ask s' (start_read c.handle))

unfoldable pub close_client : Server → ℕ → ℕ → Result Server
close_client s client key = do
  clients ← list_remove s.clients (pos key)
  c ← deref s client
  free_writebuf c.writebuf
  let s' = release (ask (record s { clients = clients }) (close_handle c.handle)) client
  guard (not (s.single_client && list_is_empty clients)) (exit 1)
  ok s'

unfoldable pub clear : Server → ℕ → Result Server
clear s client = do
  c ← deref s client
  assign s client (record c { readbuf = clear_readbuf c.readbuf })

-- The loop of `get_server_num`, with the rounds that are left.
unfoldable pub server_num_from : List (Option ℤ) → ℤ → ℕ → ℕ → Result (Option ℕ)
server_num_from keys key zero i = ok none
server_num_from keys key (suc n) i = do
  k ← load keys i
  let rest = server_num_from keys key n (i + 1)
  if eq_ℤ k key then ok (some i) else rest

unfoldable pub get_server_num : Server → ℕ → Result (Option ℕ)
get_server_num s key = server_num_from s.server_key (pos key) s.parallel 0

module _ (system : System) where
  unfoldable pub create_server_socket : Server → ℕ → Result Server
  create_server_socket s num = do
    (key, s1) ← keygen s
    handle ← obtained (system.pipe s1.trace)
    mskey ← to_ms_key key socket
    guard (system.adds_to_port s1.trace) (exit 1)
    sockets ← store s1.server_socket num handle
    keys ← store s1.server_key num (pos key)
    let s2 = ask (record s1 { server_socket = sockets; server_key = keys }) (listen handle)
    guard (system.connects s1.trace) (exit 1)
    ok s2

  -- The loop of `init`, from socket `i` on, with the rounds that are left.
  unfoldable pub create_sockets : Server → ℕ → ℕ → Result Server
  create_sockets s zero i = ok s
  create_sockets s (suc n) i = do s' ← create_server_socket s i; create_sockets s' n (i + 1)

  unfoldable pub accept_client : Server → ℕ → ℕ → Result Server
  accept_client s key num = do
    handle ← load s.server_socket num
    readbuf ← init_readbuf bufsize
    writebuf ← init_writebuf 16
    let (client, s1) =
        allocate s (record {
          handle = handle;
          readbuf = readbuf;
          writebuf = writebuf;
          write_pending = false;
        })
    s2 ← create_server_socket s1 num
    clients ← list_append s2.clients (pos key) client
    do_read (record s2 { clients = clients }) client

  -- The `switch` of `handle_msg`.
  unfoldable pub handle_request : Server → Option Request → Result Server
  handle_request s none = ok s
  handle_request s (some (run r)) =
      if ltb (list_length s.processes) s.parallel
      then run_request system s r
      else (do queue ← queue_push s.queue r; ok (record s { queue = queue }))
  handle_request s (some (interrupt key id)) = do
    queue ← remove_from_queue s.queue id
    kill_processes (record s { queue = queue }) id

  -- The message without its last byte. A length of 0 less 1 is a negative `int`, and no byte is read.
  unfoldable pub handle_msg : Server → ℕ → ℕ → Result Server
  unfolding handle_request
  handle_msg s client key = do
    c ← deref s client
    line ← read_bytes c.readbuf.data_ (c.readbuf.len - 1) 0
    (r, parallel) ← parse_request line (pos key) s.parallel
    handle_request (record s { parallel = parallel }) r
