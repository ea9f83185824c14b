-- ===== src/WinServer/State.antt =====
-- The globals of src/server/server-win.c in one record, and the clients on a heap. A handle is a
-- number.
use why3_fork.Base.{
  ℕ, ◌+◌, ◌*◌, ◌/◌, ◌%◌, Bool, Option, none, some, List, [], ◌∷◌, ◌++◌, length, set, Result, ok,
  ◌>>=◌, load, store, int_value,
}
use why3_fork.Base.Int.{ℤ}
use why3_fork.ArrayList.{ArrayList}
use why3_fork.Queue.{Queue}
use why3_fork.ReadBuf.{ReadBuf}
use why3_fork.WriteBuf.{WriteBuf}
use why3_fork.Request.{Bytes, RunRequest}

-- `t_client`. The overlapped structures `read` and `write` differ by their `kind`, which the events name.
-- `write_pending` is what the system keeps in `write`: whether it has a write of this client under way,
-- whose end it will report.
pub record Client : Type 0 where
  pub handle : ℕ
  pub readbuf : ReadBuf
  pub writebuf : WriteBuf
  pub write_pending : Bool

-- `t_proc`
pub record Proc : Type 0 where
  pub handle : ℕ
  pub job : ℕ
  pub client_key : ℤ
  pub task_id : Bytes
  pub outfile : Bytes

-- The limits of a job; `none` is a limit that is not set.
pub record Limits : Type 0 where
  pub ticks : Option ℤ
  pub memory : Option ℕ

-- What the server asks of the system.
pub data Effect : Type 0 where
  listen : ℕ → Effect
  start_read : ℕ → Effect
  start_write : ℕ → Bytes → Effect
  spawn : Bytes → Option Bytes → Limits → Effect
  resume : ℕ → Effect
  terminate : ℕ → Effect
  close_handle : ℕ → Effect

-- `trace` is what has been asked, the latest first.
pub record Server : Type 0 where
  pub parallel : ℕ
  pub single_client : Bool
  pub clients : ArrayList ℕ
  pub heap : List (Option Client)
  pub processes : ArrayList Proc
  pub queue : Queue RunRequest
  pub gen_key : ℕ
  pub server_socket : List (Option ℕ)
  pub server_key : List (Option ℤ)
  pub trace : List Effect

-- What the system answers, given what was asked before; `none` and `false` are failures. `create` is
-- `CreateProcess`, with the handle of the process, and `writes` says whether `WriteFile` takes a write, now
-- or later.
pub record System : Type 0 where
  pub pipe : List Effect → Option ℕ
  pub adds_to_port : List Effect → Bool
  pub connects : List Effect → Bool
  pub job : List Effect → Option ℕ
  pub temp_name : List Effect → Option Bytes
  pub sets_limits : List Effect → Bool
  pub create : List Effect → Option ℕ
  pub assigns : List Effect → Bool
  pub associates : List Effect → Bool
  pub writes : List Effect → Bool

unfoldable pub deref : Server → ℕ → Result Client
deref s ptr = load s.heap ptr

unfoldable pub assign : Server → ℕ → Client → Result Server
assign s ptr c = do heap ← store s.heap ptr c; ok (record s { heap = heap })

unfoldable pub release : Server → ℕ → Server
release s ptr = record s { heap = set s.heap ptr none }

unfoldable pub allocate : Server → Client → ℕ × Server
allocate s c = (length s.heap, record s { heap = s.heap ++ some c ∷ [] })

unfoldable pub ask : Server → Effect → Server
ask s e = record s { trace = e ∷ s.trace }

-- Keys of sockets and processes, and the keys of the completion port.
abbrev pub socket : ℕ
socket = 0

abbrev pub process : ℕ
process = 1

unfoldable pub keygen : Server → Result (ℕ × Server)
keygen s = do next ← int_value (s.gen_key + 1); ok (s.gen_key, record s { gen_key = next })

unfoldable pub to_ms_key : ℕ → ℕ → Result ℕ
to_ms_key key kind = do twice ← int_value (key * 2); int_value (twice + kind)

unfoldable pub kind_of_ms_key : ℕ → ℕ
kind_of_ms_key ms = ms % 2

-- An `int` in C; the keys that `to_ms_key` makes have halves that fit in it.
unfoldable pub key_of_ms_key : ℕ → ℕ
key_of_ms_key ms = ms / 2
