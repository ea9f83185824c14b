-- ===== src/Server/Intact/Bounds.antt =====
-- How large the state of server-unix.c may be, and what the system may answer.
use why3_fork.Base.{ℕ, ◌≤◌, ◌<◌, ◌^◌, ◌≡◌, some, List, [], ◌∷◌, arith, length, ok}
use why3_fork.ArrayList.{list_length}
use why3_fork.ArrayList.Holds.{list_length_lem}
use why3_fork.Queue.{queue_length}
use why3_fork.Queue.Holds.{queue_length_lem}
use why3_fork.Server.State.{Client, Server, deref}
use why3_fork.Server.Clients.{read_once}
use why3_fork.Server.Loop.{Answer}
use why3_fork.Server.Alive.{Accepts}
use why3_fork.Server.Intact.{Buffers, Intact, deref_lem}
use why3_fork.Server.Intact.Exits.{AllListed}
use why3_fork.WriteBuf.Pending as writes

-- At most 2^28 requests wait, and as many processes run; so many bytes and messages wait for each client.
pub record Small (s : Server) : Type 0 where
  pub requests : queue_length s.queue ≤ 2 ^ 28
  pub processes : list_length s.processes ≤ 2 ^ 28
  pub messages :
      (ptr : ℕ) (c : Client) → deref s ptr ≡ ok c → queue_length c.writebuf.writequeue < 2 ^ 28
  pub bytes :
      (ptr : ℕ) (c : Client)
      → deref s ptr ≡ ok c
      → (c.readbuf.len ≤ 2 ^ 28) × (c.readbuf.capacity < 2 ^ 60)

-- What the system answers: `accept` a new descriptor, `wait3` children that run, and `read` at most as many
-- bytes as it is asked for.
pub record Sensible (s : Server) (a : Answer) : Type 0 where
  pub small : Small s
  pub accepts : Accepts s a
  pub listed : AllListed s.processes a.exits
  pub few : length a.exits ≤ 2 ^ 28
  pub fits : (cs : List ℕ) → a.data_ ≡ some cs → length cs ≤ read_once

-- A client with fewer messages than that in its queue has at most one more.
small-Buffers :
    (n : ℕ) (c : Client)
    → Buffers n c
    → queue_length c.writebuf.writequeue < 2 ^ 28
    → Buffers (2 ^ 28) c
small-Buffers n c v small = record {
  messages = v.messages;
  writes = v.writes;
  bytes = v.bytes;
  reads = v.reads;
  few = counted v.messages v.writes;
}
  where
    counted : (ms : List (List ℕ)) → writes.Holds c.writebuf ms → length ms ≤ 2 ^ 28
    counted [] holds = omega arith
    counted (m ∷ ms) holds = omega (arith, small, queue_length_lem ms holds.current.3)

-- A small state is intact with small bounds.
pub Small-Intact : (n : ℕ) (s : Server) → Intact n s → Small s → Intact (2 ^ 28) s
Small-Intact n s v small = record {
  connected = record {
    linked = v.connected.linked;
    buffers = λ ptr c at.
        small-Buffers n c (v.connected.buffers ptr c at)
          (small.messages ptr c (deref_lem s ptr c at));
  };
  working = record {
    ps = v.working.ps;
    holds = v.working.holds;
    short = v.working.short;
    few = omega (arith, small.processes, list_length_lem v.working.ps v.working.holds);
  };
  waiting = record {
    rs = v.waiting.rs;
    holds = v.waiting.holds;
    short = v.waiting.short;
    few = omega (arith, small.requests, queue_length_lem v.waiting.rs v.waiting.holds);
  };
  polls = v.polls;
  positive = v.positive;
}
