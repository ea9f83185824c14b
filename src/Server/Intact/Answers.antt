-- ===== src/Server/Intact/Answers.antt =====
-- The answers to clients keep the state of server-unix.c intact.
use why3_fork.Base.{
  ℕ, suc, ◌+◌, ◌≤◌, ◌<◌, ◌^◌, ◌≡◌, refl, Bool, Option, none, some, [], ◌∷◌, ◌++◌, arith, length,
  get_elem?, length-append, ltb, ltb→lt, exit, int_limit,
}
use why3_fork.Base.Safety.{Safe, gives, Safe->>=, guard-Safe, guard-Safe_if}
use why3_fork.WriteBuf.Pending.{push_write_data_lem}
use why3_fork.PollList.{PollList, poll_list_lookup}
use why3_fork.PollList.Entries.{InRange}
use why3_fork.PollList.Sound.{Sound, Settled, Settled-refl}
use why3_fork.PollList.Safety.{set_events-Safe, poll_list_lookup-Safe}
use why3_fork.Request.{Bytes}
use why3_fork.Server.State.{Client, Server}
use why3_fork.Server.Messages.{
  c_string, started_text, finished_text, watch_output, queue_write, send_started_msg_to_client,
  send_msg_to_client,
}
use why3_fork.Server.Invariant.{length-c_string-le, length-started_text}
use why3_fork.Server.Intact.{
  Buffers, Intact, Intact-mono, Answered, polls-Intact, heap-Intact, assign_lem, deref_lem,
}

watch_output-Safe :
    (p : PollList) (entry : Option ℕ)
    → Sound p
    → InRange entry p.poll_num
    → Safe (Settled p) (watch_output p entry)
unfolding watch_output
watch_output-Safe p none v h = gives (Settled-refl p)
watch_output-Safe p (some i) v h = set_events-Safe p i (λ b. record b { pollout = _ }) v h

pub queue_write-Safe :
    (n : ℕ) (s : Server) (ptr : ℕ) (c : Client) (msg : Bytes)
    → Intact n s
    → get_elem? s.heap ptr ≡ some (some c)
    → length msg < int_limit
    → n ≤ 2 ^ 30
    → Safe (Answered (suc n) s) (queue_write s ptr msg)
unfolding queue_write
queue_write-Safe n s ptr c msg v at fits small =
    let g = v.connected.buffers ptr c at in
    let (b, pushed, m, same, idle) =
      push_write_data_lem g.messages msg g.writes fits (omega (arith, g.few)) in
    let new : Client = record c { writebuf = b } in
    let good : Buffers (suc n) new = record {
      messages = g.messages ++ msg ∷ [];
      writes = m;
      few = omega (arith, g.few, length-append g.messages (msg ∷ []));
      bytes = g.bytes;
      reads = g.reads;
    } in
    let w = heap-Intact s ptr c new at refl good (Intact-mono (omega arith) v) in
    rw (deref_lem s ptr c at, pushed, assign_lem s ptr c new at)
      (Safe->>= (poll_list_lookup s.polls c.fd) (poll_list_lookup-Safe s.polls c.fd v.polls.sound)
        (λ entry inside.
          Safe->>= (watch_output s.polls entry)
            (watch_output-Safe s.polls entry v.polls.sound inside)
            (λ polls settled. gives (polls-Intact settled w, refl, refl))))

pub send_started-Safe :
    (n : ℕ) (s : Server) (ptr : ℕ) (c : Client) (id : Bytes)
    → Intact n s
    → get_elem? s.heap ptr ≡ some (some c)
    → length id < 2 ^ 29
    → n ≤ 2 ^ 30
    → Safe (Answered (suc n) s) (send_started_msg_to_client s ptr id)
unfolding send_started_msg_to_client
send_started-Safe n s ptr c id v at short small =
    let size = length-started_text id in
    let fits : length (started_text id) < int_limit = omega (arith, length-c_string-le id, size) in
    guard-Safe _ (exit 1) (queue_write s ptr (started_text id)) tt
      (queue_write-Safe n s ptr c (started_text id) v at fits small)

pub send_msg-Safe :
    (n : ℕ) (s : Server) (ptr : ℕ) (c : Client) (id : Bytes) (exitcode : ℕ) (cpu_time : Bytes)
    (timeout : Bool) (outfile : Bytes)
    → Intact n s
    → get_elem? s.heap ptr ≡ some (some c)
    → length id < 2 ^ 29
    → length outfile < 2 ^ 29
    → n ≤ 2 ^ 30
    → Safe (Answered (suc n) s) (send_msg_to_client s ptr id exitcode cpu_time timeout outfile)
unfolding send_msg_to_client
send_msg-Safe n s ptr c id exitcode cpu_time timeout outfile v at short short' small =
    let text = finished_text id exitcode cpu_time timeout outfile in
    let len = length (c_string id) + 3 + 23 + (length (c_string outfile) + 1) in
    guard-Safe_if (ltb (length text) len) (exit 1) (queue_write s ptr text) tt (λ test.
      let fits : length text < int_limit =
        omega (
          arith,
          ltb→lt (length text) len test,
          length-c_string-le id,
          length-c_string-le outfile,
        ) in
      queue_write-Safe n s ptr c text v at fits small)
