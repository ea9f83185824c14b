-- ===== src/Server/Intact/Connections.antt =====
-- The handlers that accept, close and write to a connection keep the state of server-unix.c intact.
use Prim.Native.Nat.{min}
use native.Mathlib.Nat.{min-le_right}
use native.Mathlib.Decide.{ℕ_discrete}
use why3_fork.Base.{
  ℕ, ◌≤◌, ◌<◌, ◌≡◌, refl, sym, ◌∙◌, ap, subst, Bool, true, false, not, Option, none, some, List, [],
  ◌∷◌, ◌++◌, arith, length, get_elem?, set, get_elem?-set_ne, get_elem?-set_self, get_elem?-lt,
  get_elem?-snoc, ok, exit, inl, inr, load_lem, if◌then◌else◌,
}
use why3_fork.Base.Safety.{Safe, gives, Safe-ok, Safe->>=, Safe-from, guard-Safe}
use why3_fork.ArrayList.{list_append, list_remove}
use why3_fork.ArrayList.Holds.{list_append_lem, list_length_lem}
use why3_fork.ArrayList.Remove.{list_remove_lem}
use why3_fork.ReadBuf.{init_readbuf}
use why3_fork.ReadBuf.Holds.{init_readbuf-Holds}
use why3_fork.WriteBuf.{
  Bytes, WriteBuf, init_writebuf, free_writebuf, prepare_write, has_write_data,
}
use why3_fork.WriteBuf.Pending.{init_writebuf-Holds, have_written_lem}
use why3_fork.WriteBuf.Pending as writes
use why3_fork.WriteBuf.Safety.{free_writebuf_lem, Begun, prepare_write-Safe}
use why3_fork.PollList.{PollList, only_pollin, add_to_poll_list, poll_list_remove, set_events}
use why3_fork.PollList.Sound.{Sound, Settled, Settled-refl}
use why3_fork.PollList.Safety.{
  add_to_poll_list-Safe, poll_list_remove-Safe, set_events-Safe, Settled-Roomy,
}
use why3_fork.Server.State.{Client, Server, assign, deref, allocate, release}
use why3_fork.Server.Clients.{
  server_accept_client, close_client, written, after_write, write_to_client, read_once,
}
use why3_fork.Server.Linked.{append-Linked, remove-Linked}
use why3_fork.Server.Loop.{Answer}
use why3_fork.Server.Alive.{Accepts}
use why3_fork.Server.Intact.{Intact, Buffers, polls-Intact, heap-Intact, assign_lem, deref_lem}

append-Buffers :
    {n : ℕ} (heap : List (Option Client)) (new : Client)
    → Buffers n new
    → ((q : ℕ) (c : Client) → get_elem? heap q ≡ some (some c) → Buffers n c)
    → (q : ℕ) (c : Client) → get_elem? (heap ++ some new ∷ []) q ≡ some (some c)
    → Buffers n c
append-Buffers {n} heap new good all q c e = elim (get_elem?-snoc heap (some new) q (some c) e) [
  | inl (inside, old) ↦ all q c old
  | inr (last, same) ↦ let same' : new ≡ c = cc in subst (Buffers n) same' good
]

pub accept-Safe :
    (n : ℕ) (s : Server) (a : Answer)
    → Intact n s
    → Accepts s a
    → Safe (Intact n) (server_accept_client s a.accepted)
unfolding server_accept_client allocate
accept-Safe n s a v allowed =
    let (readbuf, made, reads) = init_readbuf-Holds read_once (omega arith) (omega arith) in
    let (writebuf, made', writes, idle) =
      init_writebuf-Holds s.parallel v.positive.0 (omega (arith, v.positive.1)) in
    let c : Client = record { fd = a.accepted; readbuf = readbuf; writebuf = writebuf } in
    let good : Buffers n c = record {
      messages = [];
      writes = writes;
      few = omega arith;
      bytes = [];
      reads = reads;
    } in
    let linked = v.connected.linked in
    let (clients, appended, w) =
      list_append_lem linked.cs a.accepted (length s.heap) linked.holds
        (omega (arith, allowed.few, list_length_lem linked.cs linked.holds)) in
    guard-Safe _ (exit 1) _ tt (
      Safe-from (init_readbuf read_once) _ made (
        Safe-from (init_writebuf s.parallel) _ made' (
          Safe-from (list_append s.clients a.accepted (length s.heap)) _ appended (
            Safe->>= (add_to_poll_list s.polls a.accepted only_pollin)
              (add_to_poll_list-Safe s.polls a.accepted only_pollin v.polls)
              (λ polls roomy. gives (record {
                connected = record {
                  linked =
                      append-Linked s.clients clients s.heap c allowed.fresh allowed.few appended
                        linked;
                  buffers = append-Buffers s.heap c good v.connected.buffers;
                };
                working = v.working;
                waiting = v.waiting;
                polls = roomy;
                positive = v.positive;
              }))))))

free-Buffers :
    {n : ℕ} (heap : List (Option Client)) (ptr : ℕ) (old : Client)
    → get_elem? heap ptr ≡ some (some old)
    → ((q : ℕ) (c : Client) → get_elem? heap q ≡ some (some c) → Buffers n c)
    → (q : ℕ) (c : Client) → get_elem? (set heap ptr none) q ≡ some (some c)
    → Buffers n c
free-Buffers heap ptr old at all q c e = elim (ℕ_discrete ptr q) [
  | yes p ↦
      let here =
        ap (get_elem? (set heap ptr none)) (sym p)
        ∙ get_elem?-set_self heap ptr none (get_elem?-lt heap ptr at) in
      absurd cc
  | no other ↦ all q c (sym (get_elem?-set_ne heap none other) ∙ e)
]

pub close_client-Safe :
    (n : ℕ) (s : Server) (ptr : ℕ) (c : Client)
    → Intact n s
    → get_elem? s.heap ptr ≡ some (some c)
    → Safe (Intact n) (close_client s ptr)
unfolding close_client release
close_client-Safe n s ptr c v at =
    let linked = v.connected.linked in
    let good = v.connected.buffers ptr c at in
    let (clients, removed, w) = list_remove_lem linked.cs c.fd linked.holds in
    let here = deref_lem s ptr c at in
    Safe-from (deref s ptr) _ here (
      Safe-from (list_remove s.clients c.fd) _ removed (
        Safe->>= (poll_list_remove s.polls c.fd) (poll_list_remove-Safe s.polls c.fd v.polls.sound)
          (λ polls settled.
            Safe-from (free_writebuf c.writebuf) _
              (free_writebuf_lem c.writebuf good.messages good.writes)
              (guard-Safe _ (exit 1) _ tt (
                gives (record {
                  connected = record {
                    linked =
                        remove-Linked s.clients clients s.heap ptr c (load_lem s.heap ptr at)
                          removed linked;
                    buffers = free-Buffers s.heap ptr c at v.connected.buffers;
                  };
                  working = v.working;
                  waiting = v.waiting;
                  polls = Settled-Roomy settled v.polls;
                  positive = v.positive;
                }))))))

-- What a write buffer holds behind a write.
record Rests (n : ℕ) (b : WriteBuf) : Type 0 where
  messages : List Bytes
  holds : writes.Holds b messages
  few : length messages ≤ n

after_write-Safe :
    (ms : List Bytes) (r : Bytes × ℕ × WriteBuf) (answer : Option ℕ)
    → Begun ms r
    → Safe (Rests (length ms)) (after_write r.2 (written r.0 r.1 answer).1)
unfolding after_write written
after_write-Safe ms r none v = gives (record {
  messages = v.first ∷ v.later;
  holds = v.holds;
  few = omega (arith, ap length v.same);
})
after_write-Safe ms r (some k) v =
    let (b, left, e, w, idle, stream, few) =
      have_written_lem v.first v.later (min k r.1) v.holds v.begun
        (omega (arith, min-le_right k r.1, v.size)) in
    Safe-ok e (record { messages = left; holds = w; few = omega (arith, few, ap length v.same) })

watch-Safe :
    (p : PollList) (entry : ℕ) (more : Bool)
    → Sound p
    → entry < p.poll_num
    → Safe
        (Settled p)
        (if not more then set_events p entry (λ b. record b { pollout = false }) else ok p)
watch-Safe p entry false v inside =
    set_events-Safe p entry (λ b. record b { pollout = false }) v inside
watch-Safe p entry true v inside = gives (Settled-refl p)

pub write_to_client-Safe :
    (n : ℕ) (s : Server) (ptr : ℕ) (c : Client) (entry : ℕ) (answer : Option ℕ)
    → Intact n s
    → get_elem? s.heap ptr ≡ some (some c)
    → entry < s.polls.poll_num
    → Safe (λ (r : Bytes × Server). Intact n r.1) (write_to_client s ptr entry answer)
unfolding write_to_client
write_to_client-Safe n s ptr c entry answer v at inside =
    let good = v.connected.buffers ptr c at in
    Safe-from (deref s ptr) _ (deref_lem s ptr c at) (
      Safe->>= (prepare_write c.writebuf) (prepare_write-Safe c.writebuf good.messages good.writes)
        (λ r begun.
          Safe->>= (after_write r.2 (written r.0 r.1 answer).1)
            (after_write-Safe good.messages r answer begun)
            (λ b rests.
              let new : Client = record c { writebuf = b } in
              let good' : Buffers n new = record {
                messages = rests.messages;
                writes = rests.holds;
                few = omega (arith, rests.few, good.few);
                bytes = good.bytes;
                reads = good.reads;
              } in
              let v' = heap-Intact s ptr c new at refl good' v in
              Safe-from (assign s ptr new) _ (assign_lem s ptr c new at) (
                Safe->>= _ (watch-Safe s.polls entry (has_write_data b) v.polls.sound inside)
                  (λ polls settled. gives (polls-Intact settled v'))))))
