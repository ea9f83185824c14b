-- ===== src/Server/Invariant.antt =====
-- The state between two handlers, and that an answer to a client keeps it.
use why3_fork.Base.{
  ℕ, suc, ◌+◌, ◌≤◌, ◌<◌, ◌^◌, ◌≡◌, refl, sym, ap, ◌∙◌, true, Option, none, some, List, [], ◌∷◌,
  ◌++◌, arith, length, get_elem?, set, length-append, get_elem?-set_self, get_elem?-lt,
  get_elem?-set_ne, Result, ok, load_lem, store_lem, int_limit, ◌==◌,
}
use native.Mathlib.Decide.{ℕ_discrete}
use why3_fork.Base.Int.{ℤ}
use why3_fork.ArrayList.Entries.{Entry, lookup}
use why3_fork.ArrayList.Holds as lists
use why3_fork.Queue.Holds as queues
use why3_fork.WriteBuf.Pending as writes
use why3_fork.WriteBuf.Pending.{push_write_data_lem}
use why3_fork.PollList.Entries as polls
use why3_fork.PollList.Entries.{poll_list_lookup_total, set_events_lem, InRange}
use why3_fork.PollList.{PollFd, PollList}
use why3_fork.Request.{Bytes, RunRequest}
use why3_fork.Server.State.{Client, Server, Proc, deref, assign}
use why3_fork.Server.Arguments.{HasArgs}
use why3_fork.Server.Messages.{
  c_string, queue_write, watch_output, started_text, send_started_msg_to_client,
}

-- A client whose write buffer is between two writes and holds at most `n` messages.
pub record GoodClient (n : ℕ) (c : Client) : Type 0 where
  pub messages : List Bytes
  pub writes : writes.Holds c.writebuf messages
  pub few : length messages ≤ n

-- Requests whose identifier fits in a message, with as many arguments as they say.
abbrev pub AllShort : List RunRequest → Type 0
AllShort [] = Unit {0}
AllShort (r ∷ rs) = (length r.id < 2 ^ 30) × HasArgs r × AllShort rs

-- The client that an address stands for.
abbrev pub IsAlive : ℕ → List (Option Client) → ℕ → Type 0
IsAlive n heap ptr = (c : Client) × (get_elem? heap ptr ≡ some (some c)) × GoodClient n c

-- The requests `rs` wait in the queue, every client in the list is alive, and there are at most `n`
-- processes, and messages for each client.
pub record Inv (n : ℕ) (rs : List RunRequest) (s : Server) : Type 0 where
  pub cs : List (Entry ℕ)
  pub clients : lists.Holds s.clients cs
  pub alive : (k : ℤ) (ptr : ℕ) → lookup k cs ≡ some ptr → IsAlive n s.heap ptr
  pub ps : List (Entry Proc)
  pub processes : lists.Holds s.processes ps
  pub few_processes : length ps ≤ n
  pub queue : queues.Holds s.queue rs
  pub short : AllShort rs
  pub es : List PollFd
  pub polls : polls.Holds s.polls es

pub GoodClient-mono : {n : ℕ} {c : Client} → GoodClient n c → GoodClient (suc n) c
GoodClient-mono g = record { messages = g.messages; writes = g.writes; few = omega (arith, g.few) }

-- A good client in place of another leaves every address with a good client.
IsAlive-set :
    (n : ℕ) (heap : List (Option Client)) (ptr p : ℕ) (c : Client)
    → GoodClient (suc n) c
    → ptr < length heap
    → IsAlive n heap p
    → IsAlive (suc n) (set heap ptr (some c)) p
IsAlive-set n heap ptr p c g h a = elim (ℕ_discrete ptr p) [
  | yes same ↦ (
    c,
    ap (get_elem? (set heap ptr (some c))) (sym same) ∙ get_elem?-set_self heap ptr (some c) h,
    g,
  )
  | no other ↦ (a.0, get_elem?-set_ne heap (some c) other ∙ a.1, GoodClient-mono a.2)
]

-- The message waits behind those of the client at `ptr`, which stay as they are.
pub record Told (before after : List (Option Client)) (ptr : ℕ) (msg : Bytes) : Type 0 where
  pub old : Client
  pub new : Client
  pub messages : List Bytes
  pub was : get_elem? before ptr ≡ some (some old)
  pub now : get_elem? after ptr ≡ some (some new)
  pub waiting : writes.Holds old.writebuf messages
  pub queued : writes.Holds new.writebuf (messages ++ msg ∷ [])

-- An answer returns, tells the client, and changes the heap and the poll list alone.
pub record Answered (n : ℕ) (s : Server) (ptr : ℕ) (msg : Bytes) (answer : Result Server)
    : Type 0 where
  pub heap : List (Option Client)
  pub list : PollList
  pub runs : answer ≡ ok (record s { heap = heap; polls = list })
  pub told : Told s.heap heap ptr msg
  pub alive : (p : ℕ) → IsAlive n s.heap p → IsAlive (suc n) heap p
  pub es : List PollFd
  pub polls : polls.Holds list es

-- A message for a live client is queued.
pub queue_write_lem :
    (n : ℕ) (s : Server) (ptr : ℕ) (msg : Bytes) (es : List PollFd)
    → IsAlive n s.heap ptr
    → polls.Holds s.polls es
    → length msg < int_limit
    → n ≤ 2 ^ 30
    → Answered n s ptr msg (queue_write s ptr msg)
unfolding queue_write deref assign
queue_write_lem n s ptr msg es (c, at, g) w h k =
    let (b, e, m, _, _) = push_write_data_lem g.messages msg g.writes h (omega (arith, g.few)) in
    let c' = record c { writebuf = b } in
    let good : GoodClient (suc n) c' = record {
      messages = g.messages ++ msg ∷ [];
      writes = m;
      few = omega (arith, g.few, length-append g.messages (msg ∷ []));
    } in
    let inside : ptr < length s.heap = get_elem?-lt s.heap ptr at in
    let heap = set s.heap ptr (some c') in
    let (r, found, range) = poll_list_lookup_total es c.fd w in
    let (p, es', run, w') = watched r range in
    record {
      heap = heap;
      list = p;
      runs = rw (load_lem s.heap ptr at, e, store_lem s.heap ptr c' inside, found, run);
      told = record {
        old = c;
        new = c';
        messages = g.messages;
        was = at;
        now = get_elem?-set_self s.heap ptr (some c') inside;
        waiting = g.writes;
        queued = m;
      };
      alive = λ q a. IsAlive-set n s.heap ptr q c' good inside a;
      es = es';
      polls = w';
    }
  where
    watched :
        (r : Option ℕ)
        → InRange r (length es)
        → (p : PollList) × (es' : List PollFd) × (watch_output s.polls r ≡ ok p) × polls.Holds p es'
    watched none range = (s.polls, es, refl, w)
    watched (some i) range = set_events_lem es i _ w range

pub length-c_string-le : (id : Bytes) → length (c_string id) ≤ length id
unfolding c_string
length-c_string-le [] = omega arith
length-c_string-le (c ∷ cs) = ground (arith, length-c_string-le cs)

pub length-started_text : (id : Bytes) → length (started_text id) ≡ length (c_string id) + 3
length-started_text id = omega (arith, length-append (c_string id) (b'\n' ∷ []))

-- For a client that is there, `send_started_msg_to_client` returns: the message has the length
-- that the code computes. The message waits behind the earlier ones of the client. The call
-- changes the heap of clients and the poll list alone, and every client stays good. The
-- identifier is shorter than 2^30 and a client has at most 2^30 messages.
pub send_started_lem :
    (n : ℕ) (s : Server) (ptr : ℕ) (id : Bytes) (es : List PollFd)
    → IsAlive n s.heap ptr
    → polls.Holds s.polls es
    → length id < 2 ^ 30
    → n ≤ 2 ^ 30
    → Answered n s ptr (started_text id) (send_started_msg_to_client s ptr id)
unfolding send_started_msg_to_client
send_started_lem n s ptr id es a w h k =
    let size = length-started_text id in
    let test : (length (started_text id) + 1 == length (c_string id) + 4) ≡ true = ground arith in
    let small : length (started_text id) < int_limit = omega (arith, length-c_string-le id, size) in
    rw test (queue_write_lem n s ptr (started_text id) es a w small k)
