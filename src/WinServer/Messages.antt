-- ===== src/WinServer/Messages.antt =====
-- The answers to clients in src/server/server-win.c. A write is started at once, where none is under
-- way.
use why3_fork.Base.{
  ℕ, ◌+◌, Bool, ◌&&◌, take, length, Result, ok, exit, guard, ◌>>=◌, ◌>>◌, ◌==◌, ltb, if◌then◌else◌,
}
use why3_fork.WriteBuf.{has_write_data, can_write, prepare_write, push_write_data}
use why3_fork.Request.{Bytes}
use why3_fork.Server.Messages.{c_string, started_text, finished_text}
use why3_fork.WinServer.State.{Server, Client, System, start_write, deref, assign, ask}

module _ (system : System) where
  -- The call of `WriteFile`, for a client as it is. The server does not look at its result: `is_writing` is
  -- set in any case.
  unfoldable pub start_writing : Server → ℕ → Client → Result Server
  start_writing s client c = do
    (buf, num_write, writebuf) ← prepare_write c.writebuf
    s' ← assign s client (record c { writebuf = writebuf; write_pending = system.writes s.trace })
    ok (ask s' (start_write c.handle (take num_write buf)))

  unfoldable pub try_write : Server → ℕ → Result Server
  try_write s client = do
    c ← deref s client
    if has_write_data c.writebuf && can_write c.writebuf then start_writing s client c else ok s

  -- `push_write_data(client->writebuf, msgbuf)` and `try_write(client)`.
  unfoldable pub queue_message : Server → ℕ → Bytes → Result Server
  queue_message s client msgbuf = do
    c ← deref s client
    writebuf ← push_write_data c.writebuf msgbuf
    s' ← assign s client (record c { writebuf = writebuf })
    try_write s' client

  unfoldable pub send_started_msg_to_client : Server → ℕ → Bytes → Result Server
  send_started_msg_to_client s client id = do
    let len = length (c_string id) + 4
    guard (length (started_text id) + 1 == len) (exit 1)
    queue_message s client (started_text id)

  unfoldable pub send_msg_to_client : Server → ℕ → Bytes → ℕ → Bytes → Bool → Bytes → Result Server
  send_msg_to_client s client id exitcode cpu_time timeout outfile = do
    let len = length (c_string id) + 3 + 23 + (length (c_string outfile) + 1)
    let text = finished_text id exitcode cpu_time timeout outfile
    guard (ltb (length text) len) (exit 1)
    queue_message s client text
