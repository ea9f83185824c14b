-- ===== src/Server/Intact.antt =====
-- The state of server-unix.c in which no call touches memory that is not its own: every structure holds
-- what it stands for, and the queues have at most `n` elements.
pub mod Answers
pub mod Jobs
pub mod Exits
pub mod Connections
pub mod Input
pub mod Reads
pub mod Bounds
pub mod Loop
use why3_fork.Base.{
  ℕ, suc, ◌+◌, ◌≤◌, ◌<◌, ◌^◌, ◌≡◌, refl, ap, ◌∙◌, sym, subst, Option, none, some, List, [], ◌∷◌,
  ◌++◌, arith, length, get_elem?, set, get_elem?-set_self, get_elem?-set_ne, get_elem?-lt,
  load-inverse, load_lem, store_lem, ok, length-append,
}
use native.Mathlib.Decide.{ℕ_discrete}
use why3_fork.Base.Int.{ℤ}
use why3_fork.ArrayList.{ArrayList, list_lookup}
use why3_fork.ArrayList.Entries.{Entry}
use why3_fork.ArrayList.Every.{Every}
use why3_fork.ArrayList.Holds as lists
use why3_fork.Queue.{Queue}
use why3_fork.Queue.Holds as queues
use why3_fork.ReadBuf.Holds as reads
use why3_fork.WriteBuf.Pending as writes
use why3_fork.PollList.{PollList}
use why3_fork.PollList.Sound.{Settled}
use why3_fork.PollList.Safety.{Roomy, Settled-Roomy}
use why3_fork.Request.{Bytes, RunRequest}
use why3_fork.Request.Safety.{IsPositive}
use why3_fork.Server.State.{Client, Server, Proc, deref, assign}
use why3_fork.Server.Invariant.{AllShort}
use why3_fork.Server.Arguments.{HasArgs}
use why3_fork.Server.Linked.{Linked, Linked-Kept, set-Kept}

-- The buffers of a client, with at most `n` messages that wait.
pub record Buffers (n : ℕ) (c : Client) : Type 0 where
  pub messages : List Bytes
  pub writes : writes.Holds c.writebuf messages
  pub few : length messages ≤ n
  pub bytes : List ℕ
  pub reads : reads.Holds c.readbuf bytes

pub record Connected (n : ℕ) (clients : ArrayList ℕ) (heap : List (Option Client)) : Type 0 where
  pub linked : Linked clients heap
  pub buffers : (ptr : ℕ) (c : Client) → get_elem? heap ptr ≡ some (some c) → Buffers n c

-- The texts of a process fit in a message.
abbrev pub HasShortTexts : Proc → Type 0
HasShortTexts p = (length p.task_id < 2 ^ 29) × (length p.outfile < 2 ^ 29)

pub record Working (n : ℕ) (processes : ArrayList Proc) : Type 0 where
  pub ps : List (Entry Proc)
  pub holds : lists.Holds processes ps
  pub few : length ps ≤ n
  pub short : Every HasShortTexts ps

-- The identifier fits in a message, and there are as many arguments as the request says.
abbrev pub IsProper : RunRequest → Type 0
IsProper r = (length r.id < 2 ^ 29) × HasArgs r

abbrev pub AllProper : List RunRequest → Type 0
AllProper [] = Unit {0}
AllProper (r ∷ rs) = IsProper r × AllProper rs

pub record Waiting (n : ℕ) (queue : Queue RunRequest) : Type 0 where
  pub rs : List RunRequest
  pub holds : queues.Holds queue rs
  pub few : length rs ≤ n
  pub short : AllProper rs

pub record Intact (n : ℕ) (s : Server) : Type 0 where
  pub connected : Connected n s.clients s.heap
  pub working : Working n s.processes
  pub waiting : Waiting n s.queue
  pub polls : Roomy s.polls
  pub positive : IsPositive s.parallel

pub Buffers-mono : {n m : ℕ} {c : Client} → n ≤ m → Buffers n c → Buffers m c
Buffers-mono h v = record {
  messages = v.messages;
  writes = v.writes;
  few = omega (arith, v.few);
  bytes = v.bytes;
  reads = v.reads;
}

pub Connected-mono :
    {n m : ℕ} {clients : ArrayList ℕ} {heap : List (Option Client)}
    → n ≤ m
    → Connected n clients heap
    → Connected m clients heap
Connected-mono h v = record {
  linked = v.linked;
  buffers = λ ptr c e. Buffers-mono h (v.buffers ptr c e);
}

pub Intact-mono : {n m : ℕ} {s : Server} → n ≤ m → Intact n s → Intact m s
Intact-mono h v = record {
  connected = Connected-mono h v.connected;
  working = record {
    ps = v.working.ps;
    holds = v.working.holds;
    few = omega (arith, v.working.few);
    short = v.working.short;
  };
  waiting = record {
    rs = v.waiting.rs;
    holds = v.waiting.holds;
    few = omega (arith, v.waiting.few);
    short = v.waiting.short;
  };
  polls = v.polls;
  positive = v.positive;
}

-- What a handler that closes no connection leaves.
abbrev pub After : ℕ → Server → Server → Type 0
After n s s' = Intact n s' × (s'.clients ≡ s.clients)

-- What an answer to a client leaves.
abbrev pub Answered : ℕ → Server → Server → Type 0
Answered n s s' = Intact n s' × (s'.clients ≡ s.clients) × (s'.processes ≡ s.processes)

pub After-trans : {n : ℕ} (r s t : Server) → After n s t → s.clients ≡ r.clients → After n r t
After-trans r s t (v, e) same = (v, e ∙ same)

pub polls-Intact :
    {n : ℕ} {s : Server} {p : PollList}
    → Settled s.polls p
    → Intact n s
    → Intact n (record s { polls = p })
polls-Intact settled v = record {
  connected = v.connected;
  working = v.working;
  waiting = v.waiting;
  polls = Settled-Roomy settled v.polls;
  positive = v.positive;
}

set-Buffers :
    {n : ℕ} (heap : List (Option Client)) (ptr : ℕ) (new : Client)
    → ptr < length heap
    → Buffers n new
    → ((q : ℕ) (c : Client) → get_elem? heap q ≡ some (some c) → Buffers n c)
    → (q : ℕ) (c : Client) → get_elem? (set heap ptr (some new)) q ≡ some (some c)
    → Buffers n c
set-Buffers {n} heap ptr new h good all q c e = elim (ℕ_discrete ptr q) [
  | yes p ↦
      let here =
        ap (get_elem? (set heap ptr (some new))) (sym p)
        ∙ get_elem?-set_self heap ptr (some new) h in
      let same : new ≡ c = cc in subst (Buffers n) same good
  | no other ↦ all q c (sym (get_elem?-set_ne heap (some new) other) ∙ e)
]

-- The heap with another client at an address.
pub heap-Intact :
    {n : ℕ} (s : Server) (ptr : ℕ) (old new : Client)
    → get_elem? s.heap ptr ≡ some (some old)
    → new.fd ≡ old.fd
    → Buffers n new
    → Intact n s
    → Intact n (record s { heap = set s.heap ptr (some new) })
heap-Intact s ptr old new at same good v = record {
  connected = record {
    linked = Linked-Kept v.connected.linked (set-Kept s.heap ptr old new at same);
    buffers = set-Buffers s.heap ptr new (get_elem?-lt s.heap ptr at) good v.connected.buffers;
  };
  working = v.working;
  waiting = v.waiting;
  polls = v.polls;
  positive = v.positive;
}

-- A write through the pointer of a client that is there.
pub assign_lem :
    (s : Server) (ptr : ℕ) (old new : Client)
    → get_elem? s.heap ptr ≡ some (some old)
    → assign s ptr new ≡ ok (record s { heap = set s.heap ptr (some new) })
unfolding assign
assign_lem s ptr old new at = rw (store_lem s.heap ptr new (get_elem?-lt s.heap ptr at)) refl

pub deref_lem :
    (s : Server) (ptr : ℕ) (c : Client) → get_elem? s.heap ptr ≡ some (some c) → deref s ptr ≡ ok c
unfolding deref
deref_lem s ptr c at = load_lem s.heap ptr at
