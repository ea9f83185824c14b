-- ===== src/Server/Messages.antt =====
-- The answers to clients: `queue_write`, `send_started_msg_to_client`, `send_msg_to_client`.
use why3_fork.Base.{
  ℕ, ◌+◌, Bool, true, Option, none, some, [], ◌∷◌, ◌++◌, length, Result, ok, exit, guard, ◌>>=◌,
  ◌>>◌, ◌==◌, ltb, if◌then◌else◌,
}
use why3_fork.CString.{codes}
use why3_fork.CString.Decimal.{print_decimal}
use why3_fork.WriteBuf.{push_write_data}
use why3_fork.Request.{Bytes}
use why3_fork.PollList.{PollList, poll_list_lookup, set_events}
use why3_fork.Server.State.{Server, deref, assign}

-- The part of a string up to its first NUL, which `%s` prints and `strlen` measures.
unfoldable pub c_string : Bytes → Bytes
c_string [] = []
c_string (c ∷ cs) = let rest = c_string cs in if c == 0 then [] else c ∷ rest

unfoldable pub watch_output : PollList → Option ℕ → Result PollList
watch_output p none = ok p
watch_output p (some i) = set_events p i (λ b. record b { pollout = true })

unfoldable pub queue_write : Server → ℕ → Bytes → Result Server
unfolding watch_output
queue_write s client msgbuf = do
  c ← deref s client
  writebuf ← push_write_data c.writebuf msgbuf
  s' ← assign s client (record c { writebuf = writebuf })
  entry ← poll_list_lookup s'.polls c.fd
  polls ← watch_output s'.polls entry
  ok (record s' { polls = polls })

-- `snprintf(msgbuf, len, "S;%s\n", id)`
abbrev pub started_text : Bytes → Bytes
started_text id = codes "S;" ++ (c_string id ++ b'\n' ∷ [])

-- A message that does not have the computed length ends the server.
unfoldable pub send_started_msg_to_client : Server → ℕ → Bytes → Result Server
send_started_msg_to_client s client id = do
  let len = length (c_string id) + 4
  guard (length (started_text id) + 1 == len) (exit 1)
  queue_write s client (started_text id)

-- `snprintf(msgbuf, len, "F;%s;%d;%.2f;%d;%s\n", ...)`, with the text of the CPU time as given.
abbrev pub finished_text : Bytes → ℕ → Bytes → Bool → Bytes → Bytes
finished_text id exitcode cpu_time timeout outfile =
    codes "F;"
    ++ (c_string id
        ++ (codes ";"
            ++ (print_decimal exitcode
                ++ (codes ";"
                    ++ (cpu_time
                        ++ (codes ";"
                            ++ ((if timeout then codes "1" else codes "0")
                                ++ (codes ";" ++ (c_string outfile ++ b'\n' ∷ [])))))))))

-- A message that does not fit in the buffer ends the server.
unfoldable pub send_msg_to_client : Server → ℕ → Bytes → ℕ → Bytes → Bool → Bytes → Result Server
send_msg_to_client s client id exitcode cpu_time timeout outfile = do
  let len = length (c_string id) + 3 + 23 + (length (c_string outfile) + 1)
  let text = finished_text id exitcode cpu_time timeout outfile
  guard (ltb (length text) len) (exit 1)
  queue_write s client text
