-- ===== src/Server/State.antt =====
-- The globals of server-unix.c, proc.c and request.c in one record, and the clients on a heap: a
-- `pclient` is an address, so that the list of clients and a handler see one object.
use why3_fork.Base.{
  ℕ, Bool, Option, none, some, List, [], ◌∷◌, ◌++◌, length, set, Result, ok, ◌>>=◌, load, store,
}
use why3_fork.Base.Int.{ℤ}
use why3_fork.ArrayList.{ArrayList}
use why3_fork.Queue.{Queue}
use why3_fork.ReadBuf.{ReadBuf}
use why3_fork.WriteBuf.{WriteBuf}
use why3_fork.Request.{Bytes, RunRequest}
use why3_fork.PollList.{PollList}

-- `t_client`; its field `kind` is never read or written.
pub record Client : Type 0 where
  pub fd : ℤ
  pub readbuf : ReadBuf
  pub writebuf : WriteBuf

-- `t_proc`
pub record Proc : Type 0 where
  pub id : ℤ
  pub client_key : ℤ
  pub task_id : Bytes
  pub outfile : Bytes

-- What the server does to the world, apart from its answers to clients.
pub data Effect : Type 0 where
  spawn : ℤ → RunRequest → Effect
  kill : ℤ → Effect
  close_fd : ℤ → Effect

-- `trace` is what has been done, the latest first.
pub record Server : Type 0 where
  pub parallel : ℕ
  pub single_client : Bool
  pub clients : ArrayList ℕ
  pub heap : List (Option Client)
  pub processes : ArrayList Proc
  pub queue : Queue RunRequest
  pub polls : PollList
  pub trace : List Effect

-- What the system answers, given what was done before: the process identifier of `fork`, and the
-- name and descriptor of `mkstemp` in the current directory.
pub record System : Type 0 where
  pub fork : List Effect → ℤ
  pub temp_name : List Effect → Bytes

-- `*client`, a write through the pointer, and `free(client)`.
unfoldable pub deref : Server → ℕ → Result Client
deref s ptr = load s.heap ptr

unfoldable pub assign : Server → ℕ → Client → Result Server
assign s ptr c = do heap ← store s.heap ptr c; ok (record s { heap = heap })

unfoldable pub release : Server → ℕ → Server
release s ptr = record s { heap = set s.heap ptr none }

-- `malloc` of a client that is filled in at once.
unfoldable pub allocate : Server → Client → ℕ × Server
allocate s c = (length s.heap, record s { heap = s.heap ++ some c ∷ [] })
