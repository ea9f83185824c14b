-- ===== src/Server/Clients.antt =====
-- The connections: `server_accept_client`, `close_client`, `read_on_client`, `write_to_client` and
-- `handle_msg` of server-unix.c.
use why3_fork.Base.{
  ℕ, zero, suc, ◌+◌, ◌%◌, ◌^◌, false, not, ◌&&◌, Option, none, some, List, [], ◌∷◌, take, length,
  Result, ok, exit, guard, ◌>>=◌, ◌>>◌, ◌==◌, ltb, if◌then◌else◌, load,
}
use Prim.Native.Nat.{min}
use why3_fork.Base.Int.{ℤ, eq_ℤ, minus_one}
use why3_fork.ArrayList.{list_append, list_remove, list_length, list_is_empty}
use why3_fork.Queue.{queue_push}
use why3_fork.ReadBuf.{ReadBuf, init_readbuf, prepare_read, fill, have_read, have_taken}
use why3_fork.WriteBuf.{
  WriteBuf, init_writebuf, prepare_write, have_written, has_write_data, free_writebuf,
}
use why3_fork.Request.{Bytes, Request, run, interrupt, parse_request, remove_from_queue}
use why3_fork.PollList.{only_pollin, add_to_poll_list, poll_list_remove, set_events}
use why3_fork.Server.State.{Server, System, close_fd, deref, assign, release, allocate}
use why3_fork.Server.Jobs.{run_request, kill_processes}

abbrev pub read_once : ℕ
read_once = 1024

-- `fd` is what `accept` returns.
unfoldable pub server_accept_client : Server → ℤ → Result Server
server_accept_client s fd = do
  guard (not (eq_ℤ fd minus_one)) (exit 1)
  readbuf ← init_readbuf read_once
  writebuf ← init_writebuf s.parallel
  let (client, s') = allocate s (record { fd = fd; readbuf = readbuf; writebuf = writebuf })
  clients ← list_append s'.clients fd client
  polls ← add_to_poll_list s'.polls fd only_pollin
  ok (record s' { clients = clients; polls = polls })

-- The last step may end the server: the last client has gone, in single client mode.
unfoldable pub close_client : Server → ℕ → Result Server
close_client s client = do
  c ← deref s client
  clients ← list_remove s.clients c.fd
  polls ← poll_list_remove s.polls c.fd
  free_writebuf c.writebuf
  let s' =
      release (record s { clients = clients; polls = polls; trace = close_fd c.fd ∷ s.trace })
        client
  guard (not (s.single_client && list_is_empty clients)) (exit 1)
  ok s'

-- What `write` returns: -1, or how many bytes it would take at most.
unfoldable pub written : Bytes → ℕ → Option ℕ → Bytes × Option ℕ
written buf size none = ([], none)
written buf size (some n) = (take (min n size) buf, some (min n size))

unfoldable pub after_write : WriteBuf → Option ℕ → Result WriteBuf
after_write b none = ok b
after_write b (some n) = have_written b n

unfoldable pub write_to_client : Server → ℕ → ℕ → Option ℕ → Result (Bytes × Server)
unfolding written after_write
write_to_client s client entry answer = do
  c ← deref s client
  (buf, need_write, writing) ← prepare_write c.writebuf
  let (sent, has_written) = written buf need_write answer
  writebuf ← after_write writing has_written
  s' ← assign s client (record c { writebuf = writebuf })
  polls ←
      if not (has_write_data writebuf)
      then set_events s'.polls entry (λ b. record b { pollout = false })
      else ok s'.polls
  ok (sent, record s' { polls = polls })

abbrev pub longer : ℕ → Option (Bytes × Bytes) → Option (Bytes × Bytes)
longer c none = none
longer c (some (line, rest)) = some (c ∷ line, rest)

-- The inner loop of `handle_msg`: the bytes up to the next newline, and those behind it.
unfoldable pub split_line : Bytes → Option (Bytes × Bytes)
split_line [] = none
split_line (c ∷ cs) = if c == b'\n' then some ([], cs) else longer c (split_line cs)

-- The first `n` bytes of a read buffer.
unfoldable pub read_bytes : List (Option ℕ) → ℕ → ℕ → Result Bytes
read_bytes cells zero i = ok []
read_bytes cells (suc n) i = do c ← load cells i; cs ← read_bytes cells n (i + 1); ok (c ∷ cs)

-- `int max = client->readbuf->len`, which keeps 32 bits of a `size_t`; where it is negative, the loop of
-- `handle_msg` has no round.
unfoldable pub as_max : ℕ → ℕ
as_max len = let m = len % 2 ^ 32 in if ltb m (2 ^ 31) then m else 0

module _ (system : System) where
  -- The `switch` of `handle_msg`.
  unfoldable pub handle_request : Server → Option Request → Result Server
  handle_request s none = ok s
  handle_request s (some (run r)) =
      if ltb (list_length s.processes) s.parallel
      then run_request system s r
      else (do queue ← queue_push s.queue r; ok (record s { queue = queue }))
  handle_request s (some (interrupt key id)) = do
    queue ← remove_from_queue s.queue id
    kill_processes (record s { queue = queue }) id

  unfoldable pub handle_line : Server → ℤ → Bytes → Result Server
  unfolding handle_request
  handle_line s key line = do
    (r, parallel) ← parse_request line key s.parallel
    handle_request (record s { parallel = parallel }) r

  -- The outer loop, with the rounds allowed, and the value of `old` at its end.
  unfoldable pub handle_lines : ℕ → Server → ℤ → ℕ → Bytes → Result (Server × ℕ)
  handle_lines zero s key old rest = ok (s, old)
  handle_lines (suc fuel) s key old rest = elim (split_line rest) [
    | none ↦ ok (s, old)
    | some (line, behind) ↦ do
      s' ← handle_line s key line
      handle_lines fuel s' key (old + length line + 1) behind
  ]

  unfoldable pub handle_msg : Server → ℕ → ℤ → Result Server
  handle_msg s client key = do
    c ← deref s client
    bytes ← read_bytes c.readbuf.data_ (as_max c.readbuf.len) 0
    (s', old) ← handle_lines (length bytes) s key 0 bytes
    if ltb 0 old
        then (do
          c' ← deref s' client
          readbuf ← have_taken c'.readbuf old
          assign s' client (record c' { readbuf = readbuf }))
        else ok s'

  unfoldable pub received : Server → ℕ → ℤ → ReadBuf → ℕ → Option Bytes → Result Server
  received s client fd room buf none = ok s
  received s client fd room buf (some []) = close_client s client
  received s client fd room buf (some (b ∷ bs)) = do
    data_ ← fill room.data_ buf (b ∷ bs)
    readbuf ← have_read (record room { data_ = data_ }) (length (b ∷ bs))
    c ← deref s client
    s' ← assign s client (record c { readbuf = readbuf })
    handle_msg s' client fd

  -- What `read` returns: -1, or the bytes, none at the end of the stream.
  unfoldable pub read_on_client : Server → ℕ → Option Bytes → Result Server
  unfolding received
  read_on_client s client answer = do
    c ← deref s client
    let (buf, room) = prepare_read c.readbuf read_once
    s' ← assign s client (record c { readbuf = room })
    received s' client c.fd room buf answer
