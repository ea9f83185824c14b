-- ===== src/Tests/State.antt =====
-- A state of src/server/server-unix.c with one client and one request of it.
use why3_fork.Base.{
  ℕ, ◌≡◌, refl, false, none, some, List, [], ◌∷◌, arith, length, ◌+◌, subst, zero, suc,
}
use why3_fork.Base.Int.{ℤ, pos}
use why3_fork.CString.{codes}
use why3_fork.ArrayList.{ArrayList}
use why3_fork.ArrayList.Entries.{lookup}
use why3_fork.ArrayList.Holds as lists
use why3_fork.ArrayList.Holds.{init_list-Holds}
use why3_fork.Queue.{Queue}
use why3_fork.WriteBuf.Pending as writes
use why3_fork.Queue.Holds as queues
use why3_fork.PollList.{PollFd, only_pollin, no_bits}
use why3_fork.Request.{RunRequest}
use why3_fork.Server.State.{Client, Server, System, Proc}
use why3_fork.Server.Invariant.{Inv, IsAlive, GoodClient, GoodClient-mono}

abbrev pub job : RunRequest
job = record {
  key = pos 5;
  id = codes "x1";
  timeout = pos 10;
  memlimit = 2000;
  usestdin = false;
  cmd = codes "alt-ergo";
  numargs = 0;
  args = [];
}

abbrev pub no_messages : Queue (List ℕ)
no_messages = record { data_ = none ∷ []; pointer = 0; len = 0; capacity = 1 }

pub no_messages-Holds : queues.Holds no_messages []
no_messages-Holds = record {
  room = omega arith;
  storage = refl;
  head = omega arith;
  count = refl;
  fits = omega arith;
  cells = λ i h. elim h [ ];
}

abbrev pub waiting : Queue RunRequest
waiting = record { data_ = none ∷ some job ∷ []; pointer = 1; len = 1; capacity = 2 }

pub waiting-Holds : queues.Holds waiting (job ∷ [])
waiting-Holds = record {
  room = omega arith;
  storage = refl;
  head = omega arith;
  count = refl;
  fits = omega arith;
  cells = elim [ zero ↦ λ h. refl | suc i ↦ λ h. absurd (omega arith) ];
}

abbrev pub client : Client
client = record {
  fd = pos 5;
  readbuf = record { data_ = none ∷ []; len = 0; capacity = 1 };
  writebuf = record {
    data_ = none;
    len = 0;
    pointer = 0;
    is_writing = false;
    writequeue = no_messages;
  };
}

pub client-GoodClient : GoodClient 0 client
client-GoodClient = record {
  messages = [];
  writes = record { current = (refl, refl, refl, no_messages-Holds); small = tt };
  few = omega arith;
}

abbrev pub client_list : ArrayList ℕ
client_list = record { key = some (pos 5) ∷ []; data_ = some 0 ∷ []; len = 1; capacity = 1 }

pub client_list-Holds : lists.Holds client_list ((pos 5, 0) ∷ [])
client_list-Holds = record {
  room = omega arith;
  positive = omega arith;
  keys = refl;
  datas = refl;
  count = refl;
  fits = omega arith;
  cells = elim [ zero ↦ λ e h. (ground arith, ground arith) | suc i ↦ λ e h. cc ];
}

abbrev pub no_processes : ArrayList Proc
no_processes = record { key = none ∷ []; data_ = none ∷ []; len = 0; capacity = 1 }

pub no_processes-Holds : lists.Holds no_processes []
no_processes-Holds = record {
  room = omega arith;
  positive = omega arith;
  keys = refl;
  datas = refl;
  count = refl;
  fits = omega arith;
  cells = λ i e h. cc;
}

abbrev pub watched : PollFd
watched = record { fd = pos 5; events = only_pollin; revents = no_bits }

-- One client, one request of it that waits, and room for one process.
abbrev pub server : Server
server = record {
  parallel = 1;
  single_client = false;
  clients = client_list;
  heap = some client ∷ [];
  processes = no_processes;
  queue = waiting;
  polls = record { poll_list = some watched ∷ []; poll_num = 1; poll_len = 1 };
  trace = [];
}

abbrev pub system : System
system = record { fork = λ t. pos (100 + length t); temp_name = λ t. codes "/tmp/why3a" }

pub one_client :
    (k : ℤ) (p : ℕ) → lookup k ((pos 5, 0) ∷ []) ≡ some p → IsAlive 0 (some client ∷ []) p
unfolding lookup
one_client k p e =
    let zero_here : 0 ≡ p = ground arith in
    subst (IsAlive 0 (some client ∷ [])) zero_here (client, refl, client-GoodClient)

abbrev pub server_inv : Inv 0 (job ∷ []) server
server_inv = record {
  cs = (pos 5, 0) ∷ [];
  clients = client_list-Holds;
  alive = one_client;
  ps = [];
  processes = no_processes-Holds;
  few_processes = omega arith;
  queue = waiting-Holds;
  short = omega arith;
  es = watched ∷ [];
  polls = record { rest = []; cells = refl; count = refl };
}

-- A process of the client that runs, and a message that the client waits for.
abbrev pub running_process : Proc
running_process = record {
  id = pos 100;
  client_key = pos 5;
  task_id = codes "x1";
  outfile = codes "/tmp/why3a";
}

abbrev pub one_process : ArrayList Proc
one_process = record {
  key = some (pos 100) ∷ [];
  data_ = some running_process ∷ [];
  len = 1;
  capacity = 1;
}

pub one_process-Holds : lists.Holds one_process ((pos 100, running_process) ∷ [])
one_process-Holds = record {
  room = omega arith;
  positive = omega arith;
  keys = refl;
  datas = refl;
  count = refl;
  fits = omega arith;
  cells = elim [ zero ↦ λ e h. (ground arith, ground arith) | suc i ↦ λ e h. cc ];
}

abbrev pub busy : Server
busy = record server { processes = one_process }

abbrev pub busy_inv : Inv 1 (job ∷ []) busy
busy_inv = record {
  cs = (pos 5, 0) ∷ [];
  clients = client_list-Holds;
  alive = λ k p e. let (c, at, g) = one_client k p e in (c, at, GoodClient-mono g);
  ps = (pos 100, running_process) ∷ [];
  processes = one_process-Holds;
  few_processes = omega arith;
  queue = waiting-Holds;
  short = omega arith;
  es = watched ∷ [];
  polls = record { rest = []; cells = refl; count = refl };
}

abbrev pub waiting_client : Client
waiting_client = record client {
  writebuf = record client.writebuf { data_ = some (codes "S;x1"); len = 4 };
}

pub waiting_client-Holds : writes.Holds waiting_client.writebuf (codes "S;x1" ∷ [])
waiting_client-Holds = record {
  current = (refl, refl, omega arith, no_messages-Holds);
  small = omega arith;
}
