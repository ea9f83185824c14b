-- ===== src/Server/Rounds.antt =====
-- Every round of `main` in server-unix.c ends: new clients make the poll list longer while it is
-- visited, but their entries have no events yet.
use why3_fork.Base.{
  ℕ, zero, suc, ◌+◌, ◌-◌, ◌*◌, ◌≤◌, ◌<◌, ◌≡◌, refl, ap, false, Option, List, [], ◌∷◌, arith, length,
  take, get_elem?, Result, ok, err, exit, assertion, ◌>>=◌, ltb, load, load-inverse, AllOk, returns,
  stops, AllOk-mono, AllOk->>=, AllOk-then, guard-AllOk, if-AllOk, Bool-cases, ◌⊎◌, inl, inr,
}
use why3_fork.Base.Int.{ℤ, eq_ℤ}
use why3_fork.ArrayList.{list_lookup, list_append}
use why3_fork.ReadBuf.{init_readbuf}
use why3_fork.WriteBuf.{init_writebuf}
use why3_fork.PollList.{PollFd, PollList, only_pollin, add_to_poll_list}
use why3_fork.Server.State.{Server, System, allocate}
use why3_fork.Server.Clients.{server_accept_client, read_once}
use why3_fork.Server.Startup.{Running}
use why3_fork.Server.Loop.{
  top, visiting, Loop, Answer, is_empty, handle_entry, visit, step, run_steps,
}
use why3_fork.Server.Ready.{
  has_event, has_event-le, ready, ready_mono, ready-last, Calm, Calm-refl, Added,
  add_to_poll_list-Added,
}
use why3_fork.Server.CalmHandlers.{handle_child_events-Quiet, handle_client-Quiet}

accept-Added :
    (s : Server) (fd : ℤ) → AllOk (λ s'. Added s.polls s'.polls) (server_accept_client s fd)
unfolding server_accept_client allocate
accept-Added s fd = guard-AllOk _ (exit 1) _ (
    AllOk-then (init_readbuf read_once) (λ readbuf made.
      AllOk-then (init_writebuf s.parallel) (λ writebuf made_too.
        AllOk-then (list_append s.clients fd _) (λ clients appended.
          AllOk->>= (add_to_poll_list s.polls fd only_pollin)
            (add_to_poll_list-Added s.polls fd only_pollin) (λ polls added. returns added)))))

-- What a visit may do to the poll list: nothing new, or one entry without events.
abbrev pub Visited : PollList → PollList → Type 0
Visited p p' = Calm p p' ⊎ Added p p'

handle_entry-Visited :
    (system : System) (r : Running) (i : ℕ) (cur : PollFd) (a : Answer)
    → AllOk (λ s. Visited r.server.polls s.polls) (handle_entry system r i cur a)
unfolding handle_entry
handle_entry-Visited system r i cur a =
    if-AllOk (eq_ℤ cur.fd r.cpipe) _ _
      (guard-AllOk _ (exit 1) _
        (AllOk-mono _ (handle_child_events-Quiet r.server a.exits) (λ s quiet. inl quiet.0)))
      (if-AllOk (eq_ℤ cur.fd r.server_sock) _ _
        (guard-AllOk _ assertion _
          (AllOk-mono _ (accept-Added r.server a.accepted) (λ s added. inr added)))
        (AllOk-then (list_lookup r.server.clients cur.fd) (λ found seen.
          AllOk-mono _ (handle_client-Quiet system r.server i cur.revents a found)
            (λ s quiet. inl quiet.0))))

-- How many visits the round has left at most, before entry `i`.
abbrev pub left : PollList → ℕ → ℕ
left p i = (p.poll_num - i) + ready p.poll_list i (p.poll_num - i)

left-next :
    (p : PollList) (i : ℕ)
    → i < p.poll_num
    → left p i
      ≡ suc (p.poll_num - (i + 1))
        + (has_event (get_elem? p.poll_list i) + ready p.poll_list (i + 1) (p.poll_num - (i + 1)))
unfolding ready
left-next p i h =
    let size : p.poll_num - i ≡ suc (p.poll_num - (i + 1)) = omega (arith, h) in
    ap (λ n. n + ready p.poll_list i n) size

left-Calm : (p p' : PollList) (i : ℕ) → i < p.poll_num → Calm p p' → left p' (i + 1) < left p i
left-Calm p p' i h c =
    let k = p.poll_num - (i + 1) in
    rw c.num (omega (arith, left-next p i h, ready_mono p.poll_list p'.poll_list (i + 1) k c.fewer))

left-Added :
    (p p' : PollList) (i : ℕ)
    → i < p.poll_num
    → has_event (get_elem? p.poll_list i) ≡ 1
    → Added p p'
    → left p' (i + 1) < left p i
left-Added p p' i h e a =
    let k = p.poll_num - (i + 1) in
    let size : p'.poll_num - (i + 1) ≡ suc k = omega (arith, h, a.num) in
    let last = ready-last p'.poll_list (i + 1) k p.poll_num (omega (arith, h)) a.quiet in
    let fewer = ready_mono p.poll_list p'.poll_list (i + 1) k a.fewer in
    rw size (omega (arith, last, fewer, e, left-next p i h))

left-Visited :
    (p p' : PollList) (i : ℕ)
    → i < p.poll_num
    → has_event (get_elem? p.poll_list i) ≡ 1
    → Visited p p'
    → left p' (i + 1) < left p i
left-Visited p p' i h e (inl calm) = left-Calm p p' i h calm
left-Visited p p' i h e (inr added) = left-Added p p' i h e added

event-here :
    (p : PollList) (i : ℕ) (cur : PollFd)
    → load p.poll_list i ≡ ok cur
    → is_empty cur.revents ≡ false
    → has_event (get_elem? p.poll_list i) ≡ 1
unfolding has_event
event-here p i cur at event = rw (load-inverse p.poll_list i at, event) refl

visit-left :
    (system : System) (r : Running) (i : ℕ) (a : Answer)
    → i < r.server.polls.poll_num
    → AllOk (λ s. left s.polls (i + 1) < left r.server.polls i) (visit system r i a)
unfolding visit
visit-left system r i a h = AllOk-then (load r.server.polls.poll_list i) (λ cur at.
    elim (Bool-cases (is_empty cur.revents)) [
      | inl idle ↦
          rw idle (returns (left-Calm r.server.polls r.server.polls i h (Calm-refl r.server.polls)))
      | inr event ↦ rw event (
          AllOk-mono _ (handle_entry-Visited system r i cur a) (λ s visited.
            left-Visited r.server.polls s.polls i h (event-here r.server.polls i cur at event)
              visited))
    ])

-- A step at an entry comes closer to the end of the round, or reaches it.
abbrev pub Nearer : ℕ → Loop → Type 0
Nearer n l =
    (l.phase ≡ top) ⊎ ((i : ℕ) × (l.phase ≡ visiting i) × (left l.running.server.polls i < n))

step-Nearer :
    (system : System) (l : Loop) (a : Answer) (i : ℕ)
    → l.phase ≡ visiting i
    → AllOk (Nearer (left l.running.server.polls i)) (step system l a)
unfolding step
step-Nearer system l a i e = rw e (elim (Bool-cases (ltb i l.running.server.polls.poll_num)) [
  | inl inside ↦ rw inside (
      AllOk->>= (visit system l.running i a) (visit-left system l.running i a (ground arith))
        (λ s less. returns (inr (i + 1, refl, less))))
  | inr end ↦ rw end (returns (inl refl))
])

-- The round ends within `n` steps, or the server stops.
abbrev pub EndsWithin : System → ℕ → Loop → List Answer → Type 0
EndsWithin system n l answers =
    (k : ℕ) × (k ≤ n) × AllOk (λ l'. l'.phase ≡ top) (run_steps system l (take k answers))

after_step :
    (system : System) (n : ℕ) (m : Result Loop) (answers : List Answer)
    → AllOk (Nearer n) m
    → ((l : Loop) (i : ℕ)
        → l.phase ≡ visiting i
        → left l.running.server.polls i < n
        → EndsWithin system n l answers)
    → (k : ℕ) × (k ≤ n)
      × AllOk (λ l'. l'.phase ≡ top) (do l ← m; run_steps system l (take k answers))
unfolding run_steps
after_step system n (err why) answers stops next = (0, omega arith, stops)
after_step system n (ok l) answers (returns (inl e)) next = (0, omega arith, returns e)
after_step system n (ok l) answers (returns (inr (i, e, less))) next = next l i e less

Nearer-mono : {n k : ℕ} (l : Loop) → n ≤ k → Nearer n l → Nearer k l
Nearer-mono l h (inl e) = inl e
Nearer-mono l h (inr (i, e, less)) = inr (i, e, omega (arith, less, h))

ends_within :
    (system : System) (n i : ℕ) (l : Loop) (answers : List Answer)
    → l.phase ≡ visiting i
    → left l.running.server.polls i < n
    → n ≤ length answers
    → EndsWithin system n l answers
unfolding run_steps
ends_within system zero i l answers e h long = elim h [ ]
ends_within system (suc n) i l [] e h long = elim long [ ]
ends_within system (suc n) i l (a ∷ answers) e h long =
    let nearer : AllOk (Nearer n) (step system l a) =
      AllOk-mono (step system l a) (step-Nearer system l a i e)
        (λ l'. Nearer-mono l' (omega (arith, h))) in
    let (k, few, end) =
      after_step system n (step system l a) answers nearer
        (λ l' j e' less. ends_within system n j l' answers e' less (omega (arith, long))) in
    (suc k, omega (arith, few), end)

ready-le : (cells : List (Option PollFd)) (i n : ℕ) → ready cells i n ≤ n
unfolding ready
ready-le cells i zero = omega arith
ready-le cells i (suc n) = omega (arith, ready-le cells (i + 1) n, has_event-le (get_elem? cells i))

-- From any entry on, a round is back at its start after at most `2 * poll_num + 1` steps, whatever the
-- system answers and however many clients come in, or the server has stopped. There is an answer for
-- each of these steps.
pub round-EndsWithin :
    (system : System) (i : ℕ) (l : Loop) (answers : List Answer)
    → l.phase ≡ visiting i
    → 2 * l.running.server.polls.poll_num < length answers
    → EndsWithin system (2 * l.running.server.polls.poll_num + 1) l answers
round-EndsWithin system i l answers e long =
    let p = l.running.server.polls in
    ends_within system (2 * p.poll_num + 1) i l answers e
      (omega (arith, ready-le p.poll_list i (p.poll_num - i))) (omega (arith, long))
