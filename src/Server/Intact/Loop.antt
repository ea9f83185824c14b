-- ===== src/Server/Intact/Loop.antt =====
-- Every step of the loop in server-unix.c keeps the state intact, where the system answers as it may and
-- nothing has grown out of proportion.
use why3_fork.Base.{
  ℕ, zero, suc, ◌+◌, ◌≤◌, ◌<◌, ◌^◌, ◌≡◌, refl, Option, none, some, List, arith, length, get_elem?,
  set, ok, load, load_lem, store, store_lem, exit, assertion, ltb, ltb→lt, AllOk-ok,
}
use why3_fork.Base.Int.{ℤ, eq_ℤ}
use why3_fork.Base.Safety.{
  Safe, gives, ends, Safe->>=, Safe-mono, Safe-from, guard-Safe, either-Safe, if-Safe,
}
use why3_fork.ArrayList.{list_lookup}
use why3_fork.PollList.{Bits, PollFd, PollList, poll_list_clean}
use why3_fork.PollList.Sound.{Filled, Steady, Steady-refl, Steady-trans, store-Stored}
use why3_fork.PollList.Safety.{Roomy, poll_list_clean-Safe}
use why3_fork.Server.State.{Server, System}
use why3_fork.Server.Jobs.{schedule_new_jobs}
use why3_fork.Server.Clients.{write_to_client}
use why3_fork.Server.Startup.{Running}
use why3_fork.Server.Loop.{
  Phase, top, polling, visiting, Loop, Answer, is_empty, is_pollin, set_revents, call_poll,
  handle_client, handle_entry, visit, start_round, step,
}
use why3_fork.Server.Intact.{Intact, Intact-mono, polls-Intact}
use why3_fork.Server.Intact.Exits.{handle_child_events-Safe}
use why3_fork.Server.Intact.Jobs.{HasShortNames, lookup_client-Safe, schedule_new_jobs-Safe}
use why3_fork.Server.Intact.Connections.{accept-Safe, close_client-Safe, write_to_client-Safe}
use why3_fork.Server.Intact.Reads.{read_on_client-Safe}
use why3_fork.Server.Intact.Bounds.{Sensible, Small-Intact}

pub with_polls :
    {n : ℕ} {s : Server} (polls : PollList)
    → Roomy polls
    → Intact n s
    → Intact n (record s { polls = polls })
with_polls polls roomy v = record {
  connected = v.connected;
  working = v.working;
  waiting = v.waiting;
  polls = roomy;
  positive = v.positive;
}

set_revents-Safe :
    (bits : ℕ → Bits) (cells : List (Option PollFd)) (n i num : ℕ)
    → num ≤ length cells
    → ((j : ℕ) → j < num → Filled (get_elem? cells j))
    → i + n ≡ num
    → Safe (Steady cells) (set_revents bits cells n i)
unfolding set_revents
set_revents-Safe bits cells zero i num size filled h = gives (Steady-refl cells)
set_revents-Safe bits cells (suc n) i num size filled h =
    let (e, at) = filled i (omega (arith, h)) in
    let new : PollFd = record e { revents = bits i } in
    let stored = store_lem cells i new (omega (arith, h, size)) in
    let steady = (AllOk-ok (store-Stored cells i new) stored).steady in
    Safe-from (load cells i) _ (load_lem cells i at) (
      Safe-from (store cells i new) _ stored (
        Safe-mono _
          (set_revents-Safe bits (set cells i (some new)) n (i + 1) num
            (omega (arith, size, steady.size)) (λ j less. steady.kept j (filled j less))
            (omega (arith, h)))
          (λ last more. Steady-trans steady more)))

call_poll-Safe :
    {n : ℕ} (s : Server) (revents : Option (ℕ → Bits))
    → Intact n s
    → Safe (Intact n) (call_poll s revents)
unfolding call_poll
call_poll-Safe s none v = ends tt
call_poll-Safe s (some bits) v =
    let sound = v.polls.sound in
    Safe->>= _
      (set_revents-Safe bits s.polls.poll_list s.polls.poll_num 0 s.polls.poll_num
        (omega (arith, sound.fits, sound.size)) sound.filled (omega arith))
      (λ cells steady. gives (polls-Intact (steady, refl, refl) v))

module _ (system : System) (names : HasShortNames system) where
  handle_client-Safe :
      (s : Server) (i : ℕ) (revents : Bits) (a : Answer) (fd : ℤ) (client : Option ℕ)
      → Intact (2 ^ 28) s
      → Sensible s a
      → list_lookup s.clients fd ≡ ok client
      → i < s.polls.poll_num
      → Safe (Intact (2 ^ 30)) (handle_client system s i revents a client)
  unfolding handle_client
  handle_client-Safe s i revents a fd none v sensible found inside =
      gives (Intact-mono (omega arith) v)
  handle_client-Safe s i revents a fd (some ptr) v sensible found inside =
      let (c, at, e) = v.connected.linked.alive fd ptr found in
      either-Safe revents.pollerr _ _
        (Safe-mono _ (close_client-Safe (2 ^ 28) s ptr c v at) (λ t w. Intact-mono (omega arith) w))
        (either-Safe revents.pollout _ _
          (Safe->>= (write_to_client s ptr i a.wrote)
            (write_to_client-Safe (2 ^ 28) s ptr c i a.wrote v at inside)
            (λ r w. gives (Intact-mono (omega arith) w)))
          (either-Safe revents.pollin _ _
            (read_on_client-Safe system names (2 ^ 28) s ptr fd a.data_ v found
              (sensible.small.bytes ptr) (omega arith) sensible.fits)
            (gives (Intact-mono (omega arith) v))))

  handle_entry-Safe :
      (r : Running) (i : ℕ) (cur : PollFd) (a : Answer)
      → Intact (2 ^ 28) r.server
      → Sensible r.server a
      → i < r.server.polls.poll_num
      → Safe (Intact (2 ^ 30)) (handle_entry system r i cur a)
  unfolding handle_entry
  handle_entry-Safe r i cur a v sensible inside =
      either-Safe (eq_ℤ cur.fd r.cpipe) _ _
        (guard-Safe a.pipe_reads (exit 1) _ tt (
          Safe-mono _
            (handle_child_events-Safe (2 ^ 28) r.server a.exits v sensible.listed
              (omega (arith, sensible.few)))
            (λ t (w, same). Intact-mono (omega (arith, sensible.few)) w)))
        (either-Safe (eq_ℤ cur.fd r.server_sock) _ _
          (guard-Safe (is_pollin cur.revents) assertion _ tt (
            Safe-mono _ (accept-Safe (2 ^ 28) r.server a v sensible.accepts)
              (λ t w. Intact-mono (omega arith) w)))
          (Safe->>= (list_lookup r.server.clients cur.fd)
            (lookup_client-Safe (2 ^ 28) r.server cur.fd v)
            (λ client found.
              handle_client-Safe r.server i cur.revents a cur.fd client v sensible found inside)))

  visit-Safe :
      (r : Running) (i : ℕ) (a : Answer)
      → Intact (2 ^ 28) r.server
      → Sensible r.server a
      → i < r.server.polls.poll_num
      → Safe (Intact (2 ^ 30)) (visit system r i a)
  unfolding visit
  visit-Safe r i a v sensible inside =
      let (cur, at) = v.polls.sound.filled i inside in
      Safe-from (load r.server.polls.poll_list i) _ (load_lem r.server.polls.poll_list i at) (
        either-Safe (is_empty cur.revents) _ _ (gives (Intact-mono (omega arith) v))
          (handle_entry-Safe r i cur a v sensible inside))

  start_round-Safe :
      (s : Server) → Intact (2 ^ 28) s → Safe (Intact (2 ^ 30)) (start_round system s)
  unfolding start_round
  start_round-Safe s v =
      Safe->>= (schedule_new_jobs system s)
        (schedule_new_jobs-Safe system names (2 ^ 28) s v (omega arith))
        (λ t (w, same).
          Safe->>= (poll_list_clean t.polls) (poll_list_clean-Safe t.polls w.polls)
            (λ polls roomy. gives (with_polls polls roomy (Intact-mono (omega arith) w))))

  at_phase-Safe :
      (l : Loop) (a : Answer) (phase : Phase)
      → l.phase ≡ phase
      → Intact (2 ^ 28) l.running.server
      → Sensible l.running.server a
      → Safe (λ l'. Intact (2 ^ 30) l'.running.server) (step system l a)
  unfolding step
  at_phase-Safe l a top e v sensible = rw e (
      Safe->>= (start_round system l.running.server) (start_round-Safe l.running.server v)
        (λ s w. gives w))
  at_phase-Safe l a polling e v sensible = rw e (
      Safe->>= (call_poll l.running.server a.revents) (call_poll-Safe l.running.server a.revents v)
        (λ s w. gives (Intact-mono (omega arith) w)))
  at_phase-Safe l a (visiting i) e v sensible = rw e (
      if-Safe (ltb i l.running.server.polls.poll_num) _ _
        (λ inside.
          Safe->>= (visit system l.running i a)
            (visit-Safe l.running i a v sensible (ltb→lt i _ inside)) (λ s w. gives w))
        (λ done. gives (Intact-mono (omega arith) v)))

  pub step-Safe :
      (n : ℕ) (l : Loop) (a : Answer)
      → Intact n l.running.server
      → Sensible l.running.server a
      → Safe (λ l'. Intact (2 ^ 30) l'.running.server) (step system l a)
  step-Safe n l a v sensible =
      at_phase-Safe l a l.phase refl (Small-Intact n l.running.server v sensible.small) sensible
