-- ===== src/WinServer/Writing.antt =====
-- No message is left lying in src/server/server-win.c.
use why3_fork.Base.{ℕ, ◌≡◌, false, not, get_elem?, ◌&&◌, some, ◌>>=◌}
use why3_fork.WriteBuf.{has_write_data}
use why3_fork.WinServer.State.{Client, Server}

-- What a client has to write is under way in the system, and the mark of its buffer is right.
abbrev pub IsWriting : Client → Type 0
IsWriting c =
    ((has_write_data c.writebuf && not c.write_pending) ≡ false)
    × (c.writebuf.is_writing ≡ c.write_pending)

abbrev pub AllWriting : Server → Type 0
AllWriting s = (ptr : ℕ) (c : Client) → get_elem? s.heap ptr ≡ some (some c) → IsWriting c
