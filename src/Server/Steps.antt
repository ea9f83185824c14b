-- ===== src/Server/Steps.antt =====
-- How a property of the state is shown to be kept by every step of the loop in server-unix.c.
use why3_fork.Base.{
  ℕ, zero, suc, ◌≡◌, refl, not, ◌&&◌, Option, exit, assertion, ltb, load, AllOk, returns,
  AllOk-mono, AllOk->>=, AllOk-then, guard-AllOk, if-AllOk,
}
use why3_fork.Base.Int.{eq_ℤ}
use why3_fork.ArrayList.{list_lookup, list_length}
use why3_fork.Queue.{queue_pop, queue_is_empty, queue_length}
use why3_fork.PollList.{Bits, PollFd, poll_list_clean}
use why3_fork.Server.State.{Server, System}
use why3_fork.Server.Jobs.{run_request, schedule, schedule_new_jobs}
use why3_fork.Server.Clients.{server_accept_client}
use why3_fork.Server.Startup.{Running}
use why3_fork.Server.Loop.{
  Phase, top, polling, visiting, Loop, Answer, is_empty, call_poll, handle_entry, visit,
  start_round, step,
}
use why3_fork.Server.Calm.{Quiet, Quiet-refl, Quiet->>=, run_request-Quiet}
use why3_fork.Server.CalmHandlers.{handle_child_events-Quiet, handle_client-Quiet}

-- The parts of a step that a property `P` has to be kept by. `Allowed` is what the system promises of an
-- answer in a state.
pub record StepInvariant (P : Server → Type 0) (Allowed : Server → Answer → Type 0) : Type 0 where
  pub quiet : (s s' : Server) → P s → Quiet s s' → P s'
  pub accept :
      (s : Server) (a : Answer) → Allowed s a → P s → AllOk P (server_accept_client s a.accepted)
  pub clean :
      (s : Server) → P s → AllOk (λ polls. P (record s { polls = polls })) (poll_list_clean s.polls)
  pub poll : (s : Server) (revents : Option (ℕ → Bits)) → P s → AllOk P (call_poll s revents)

schedule-Quiet :
    (system : System) (fuel : ℕ) (s : Server) → AllOk (Quiet s) (schedule system fuel s)
unfolding schedule
schedule-Quiet system zero s = returns (Quiet-refl s)
schedule-Quiet system (suc fuel) s =
    if-AllOk (ltb (list_length s.processes) s.parallel && not (queue_is_empty s.queue)) _ _
      (AllOk-then (queue_pop s.queue) (λ (r, queue) popped.
        let s' = record s { queue = queue } in
        Quiet->>= s' (run_request system s' r) (run_request-Quiet system s' r)
          (λ t. schedule-Quiet system fuel t)))
      (returns (Quiet-refl s))

module _ {P : Server → Type 0} {Allowed : Server → Answer → Type 0} (kept : StepInvariant P Allowed)
    (system : System) where
  start_round-Keeps : (s : Server) → P s → AllOk P (start_round system s)
  unfolding start_round schedule_new_jobs
  start_round-Keeps s g =
      AllOk->>= (schedule system (queue_length s.queue) s)
        (schedule-Quiet system (queue_length s.queue) s)
        (λ t quiet.
          AllOk->>= (poll_list_clean t.polls) (kept.clean t (kept.quiet s t g quiet))
            (λ polls clean. returns clean))

  handle_entry-Keeps :
      (r : Running) (i : ℕ) (cur : PollFd) (a : Answer)
      → Allowed r.server a
      → P r.server
      → AllOk P (handle_entry system r i cur a)
  unfolding handle_entry
  handle_entry-Keeps r i cur a allowed g =
      if-AllOk (eq_ℤ cur.fd r.cpipe) _ _
        (guard-AllOk _ (exit 1) _ (
          AllOk-mono _ (handle_child_events-Quiet r.server a.exits) (λ s. kept.quiet r.server s g)))
        (if-AllOk (eq_ℤ cur.fd r.server_sock) _ _
          (guard-AllOk _ assertion _ (kept.accept r.server a allowed g))
          (AllOk-then (list_lookup r.server.clients cur.fd) (λ found seen.
            AllOk-mono _ (handle_client-Quiet system r.server i cur.revents a found)
              (λ s. kept.quiet r.server s g))))

  visit-Keeps :
      (r : Running) (i : ℕ) (a : Answer)
      → Allowed r.server a
      → P r.server
      → AllOk P (visit system r i a)
  unfolding visit
  visit-Keeps r i a allowed g = AllOk-then (load r.server.polls.poll_list i) (λ cur at.
      if-AllOk (is_empty cur.revents) _ _ (returns g) (handle_entry-Keeps r i cur a allowed g))

  at_phase-Keeps :
      (l : Loop) (a : Answer) (phase : Phase)
      → l.phase ≡ phase
      → Allowed l.running.server a
      → P l.running.server
      → AllOk (λ l'. P l'.running.server) (step system l a)
  unfolding step
  at_phase-Keeps l a top e allowed g = rw e (
      AllOk->>= (start_round system l.running.server) (start_round-Keeps l.running.server g)
        (λ s h. returns h))
  at_phase-Keeps l a polling e allowed g = rw e (
      AllOk->>= (call_poll l.running.server a.revents) (kept.poll l.running.server a.revents g)
        (λ s h. returns h))
  at_phase-Keeps l a (visiting i) e allowed g = rw e (
      if-AllOk (ltb i l.running.server.polls.poll_num) _ _
        (AllOk->>= (visit system l.running i a) (visit-Keeps l.running i a allowed g)
          (λ s h. returns h))
        (returns g))

  pub step-Keeps :
      (l : Loop) (a : Answer)
      → Allowed l.running.server a
      → P l.running.server
      → AllOk (λ l'. P l'.running.server) (step system l a)
  step-Keeps l a = at_phase-Keeps l a l.phase refl
