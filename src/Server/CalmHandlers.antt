-- ===== src/Server/CalmHandlers.antt =====
-- The handlers of events in server-unix.c, as `Server.Calm` has their parts.
use why3_fork.Base.{
  ℕ, refl, zero, suc, ◌+◌, Bool, true, false, not, Option, none, some, List, [], ◌∷◌, length, ok,
  ◌>>=◌, ltb, if◌then◌else◌, AllOk, returns, stops, AllOk-mono, AllOk->>=, AllOk-then, AllOk-both,
  if-AllOk, guard-AllOk, exit, Option-cases, inl, inr,
}
use why3_fork.Base.Int.{ℤ}
use why3_fork.ArrayList.{list_lookup, list_remove, list_length}
use why3_fork.Queue.{queue_push}
use why3_fork.ReadBuf.{ReadBuf, prepare_read, fill, have_read, have_taken}
use why3_fork.WriteBuf.{prepare_write, has_write_data, free_writebuf}
use why3_fork.PollList.{PollList, poll_list_remove, Bits, set_events}
use why3_fork.Request.{Bytes, Request, run, interrupt, parse_request, remove_from_queue}
use why3_fork.Server.State.{Server, System, Proc, assign, deref, release}
use why3_fork.Server.Jobs.{Exit, report_to, finish_child, handle_exit, handle_child_events}
use why3_fork.Server.Clients.{
  close_client, written, after_write, write_to_client, split_line, read_bytes, handle_request,
  handle_line, handle_lines, as_max, handle_msg, received, read_on_client, read_once,
}
use why3_fork.Server.Loop.{Answer, handle_client}
use why3_fork.PollList.Sound.{Settled-refl, poll_list_remove-Settled}
use why3_fork.Request.Parallel.{parse_request-Positive}
use why3_fork.Server.Linked.{remove-Linked}
use why3_fork.Server.Ready.{Calm-refl, poll_list_remove-Calm}
use why3_fork.Server.Calm.{
  Quiet, Quiet-refl, Quiet-trans, Quiet->>=, Touched, Touched-Quiet, set_events-Touched,
  assign-Quiet, assign-Assigned, Assigned, send_msg-Quiet, run_request-Quiet, kill_processes-Quiet,
}

report_to-Quiet :
    (s : Server) (e : Exit) (child : Proc) (client : Option ℕ)
    → AllOk (Quiet s) (report_to s e child client)
unfolding report_to
report_to-Quiet s e child none = returns (Quiet-refl s)
report_to-Quiet s e child (some client) = send_msg-Quiet s client child.task_id _ _ _ _

finish_child-Quiet :
    (s : Server) (e : Exit) (child : Option Proc) → AllOk (Quiet s) (finish_child s e child)
unfolding finish_child
finish_child-Quiet s e none = stops
finish_child-Quiet s e (some child) =
    AllOk-then (list_lookup s.clients child.client_key)
      (λ client found. report_to-Quiet s e child client)

handle_exit-Quiet : (s : Server) (e : Exit) → AllOk (Quiet s) (handle_exit s e)
unfolding handle_exit
handle_exit-Quiet s e = AllOk-then (list_lookup s.processes e.pid) (λ child found.
    AllOk-then (list_remove s.processes e.pid)
      (λ processes removed. finish_child-Quiet (record s { processes = processes }) e child))

pub handle_child_events-Quiet :
    (s : Server) (es : List Exit) → AllOk (Quiet s) (handle_child_events s es)
unfolding handle_child_events
handle_child_events-Quiet s [] = returns (Quiet-refl s)
handle_child_events-Quiet s (e ∷ es) =
    Quiet->>= s (handle_exit s e) (handle_exit-Quiet s e) (λ s'. handle_child_events-Quiet s' es)

poll_list_remove-Touched : (p : PollList) (fd : ℤ) → AllOk (Touched p) (poll_list_remove p fd)
poll_list_remove-Touched p fd =
    AllOk-both _ (poll_list_remove-Calm p fd) (poll_list_remove-Settled p fd)

pub close_client-Quiet : (s : Server) (client : ℕ) → AllOk (Quiet s) (close_client s client)
unfolding close_client release deref
close_client-Quiet s client = AllOk-then (deref s client) (λ c found.
    AllOk-then (list_remove s.clients c.fd) (λ clients removed.
      AllOk->>= (poll_list_remove s.polls c.fd) (poll_list_remove-Touched s.polls c.fd)
        (λ polls (calm, settled). AllOk-then (free_writebuf c.writebuf) (λ freed done.
          guard-AllOk _ (exit 1) _ (
            returns (
              calm,
              settled,
              (λ h. h),
              remove-Linked s.clients clients s.heap client c found removed,
            ))))))

-- The socket is watched for output or not, after a write.
watch-Quiet :
    (s s' : Server) (sent : Bytes) (entry : ℕ) (more : Bool)
    → Assigned s s'
    → AllOk
        (λ (r : Bytes × Server). Quiet s r.1)
        (do
          polls ←
              if not more
              then set_events s'.polls entry (λ b. record b { pollout = false })
              else ok s'.polls
          ok (sent, record s' { polls = polls }))
watch-Quiet s s' sent entry false e =
    AllOk->>= _ (set_events-Touched s'.polls entry _)
      (λ polls touched. returns (Touched-Quiet s s' polls e touched))
watch-Quiet s s' sent entry true e =
    returns (Touched-Quiet s s' s'.polls e (Calm-refl s'.polls, Settled-refl s'.polls))

write_to_client-Quiet :
    (s : Server) (client entry : ℕ) (answer : Option ℕ)
    → AllOk (λ (r : Bytes × Server). Quiet s r.1) (write_to_client s client entry answer)
unfolding write_to_client
write_to_client-Quiet s client entry answer = AllOk-then (deref s client) (λ c found.
    AllOk-then (prepare_write c.writebuf) (λ prepared ready.
      AllOk-then (after_write prepared.2 (written prepared.0 prepared.1 answer).1)
        (λ writebuf wrote.
          let c' = record c { writebuf = writebuf } in
          AllOk->>= (assign s client c') (assign-Assigned s client c c' found refl) (λ s' e.
            watch-Quiet s s' (written prepared.0 prepared.1 answer).0 entry
              (has_write_data writebuf) e))))

module _ (system : System) where
  handle_request-Quiet :
      (s : Server) (r : Option Request) → AllOk (Quiet s) (handle_request system s r)
  unfolding handle_request
  handle_request-Quiet s none = returns (Quiet-refl s)
  handle_request-Quiet s (some (run r)) =
      if-AllOk (ltb (list_length s.processes) s.parallel) _ _ (run_request-Quiet system s r)
        (AllOk-then (queue_push s.queue r) (λ queue pushed. returns (Quiet-refl s)))
  handle_request-Quiet s (some (interrupt key id)) =
      AllOk-then (remove_from_queue s.queue id)
        (λ queue removed. kill_processes-Quiet (record s { queue = queue }) id)

  handle_line-Quiet :
      (s : Server) (key : ℤ) (line : Bytes) → AllOk (Quiet s) (handle_line system s key line)
  unfolding handle_line
  handle_line-Quiet s key line =
      AllOk->>= (parse_request line key s.parallel) (parse_request-Positive line key s.parallel)
        (λ parsed positive.
          AllOk-mono _ (handle_request-Quiet (record s { parallel = parsed.1 }) parsed.0)
            (λ t (calm, settled, later, linked).
              (calm, settled, (λ h. later (positive h)), linked)))

  handle_lines-Quiet :
      (fuel : ℕ) (s : Server) (key : ℤ) (old : ℕ) (rest : Bytes)
      → AllOk (λ r. Quiet s r.0) (handle_lines system fuel s key old rest)
  unfolding handle_lines
  handle_lines-Quiet zero s key old rest = returns (Quiet-refl s)
  handle_lines-Quiet (suc fuel) s key old rest = elim (Option-cases (split_line rest)) [
    | inl e ↦ rw (e, handle_lines) (returns (Quiet-refl s))
    | inr ((line, behind), e) ↦
        rw (e, handle_lines)
          (AllOk->>= (handle_line system s key line) (handle_line-Quiet s key line) (λ s' calm.
            AllOk-mono _ (handle_lines-Quiet fuel s' key (old + length line + 1) behind)
              (λ r later. Quiet-trans s s' r.0 calm later)))
  ]

  taken-Quiet :
      (s : Server) (client old : ℕ)
      → AllOk (Quiet s) (do
        c' ← deref s client
        readbuf ← have_taken c'.readbuf old
        assign s client (record c' { readbuf = readbuf }))
  taken-Quiet s client old = AllOk-then (deref s client) (λ c found.
      AllOk-then (have_taken c.readbuf old)
        (λ readbuf taken. assign-Quiet s client c (record c { readbuf = readbuf }) found refl))

  handle_msg-Quiet :
      (s : Server) (client : ℕ) (key : ℤ) → AllOk (Quiet s) (handle_msg system s client key)
  unfolding handle_msg
  handle_msg-Quiet s client key = AllOk-then (deref s client) (λ c found.
      AllOk-then (read_bytes c.readbuf.data_ (as_max c.readbuf.len) 0) (λ bytes read.
        AllOk->>= (handle_lines system (length bytes) s key 0 bytes)
          (handle_lines-Quiet (length bytes) s key 0 bytes)
          (λ r calm. finished s r.0 r.1 client calm)))
    where
      finished :
          (s s' : Server) (old client : ℕ)
          → Quiet s s'
          → AllOk (Quiet s) (
              if ltb 0 old
              then (do
                c' ← deref s' client
                readbuf ← have_taken c'.readbuf old
                assign s' client (record c' { readbuf = readbuf }))
              else ok s')
      finished s s' old client quiet =
          if-AllOk (ltb 0 old) _ _
            (AllOk-mono _ (taken-Quiet s' client old) (λ t later. Quiet-trans s s' t quiet later))
            (returns quiet)

  received-Quiet :
      (s : Server) (client : ℕ) (fd : ℤ) (room : ReadBuf) (buf : ℕ) (answer : Option Bytes)
      → AllOk (Quiet s) (received system s client fd room buf answer)
  unfolding received
  received-Quiet s client fd room buf none = returns (Quiet-refl s)
  received-Quiet s client fd room buf (some []) = close_client-Quiet s client
  received-Quiet s client fd room buf (some (b ∷ bs)) =
      AllOk-then (fill room.data_ buf (b ∷ bs)) (λ data_ filled.
        AllOk-then (have_read (record room { data_ = data_ }) (length (b ∷ bs))) (λ readbuf read.
          AllOk-then (deref s client) (λ c found.
            let c' = record c { readbuf = readbuf } in
            Quiet->>= s (assign s client c') (assign-Quiet s client c c' found refl)
              (λ s'. handle_msg-Quiet s' client fd))))

  read_on_client-Quiet :
      (s : Server) (client : ℕ) (answer : Option Bytes)
      → AllOk (Quiet s) (read_on_client system s client answer)
  unfolding read_on_client
  read_on_client-Quiet s client answer = AllOk-then (deref s client) (λ c found.
      let (buf, room) = prepare_read c.readbuf read_once in
      let c' = record c { readbuf = room } in
      Quiet->>= s (assign s client c') (assign-Quiet s client c c' found refl)
        (λ s'. received-Quiet s' client c.fd room buf answer))

  pub handle_client-Quiet :
      (s : Server) (i : ℕ) (revents : Bits) (a : Answer) (client : Option ℕ)
      → AllOk (Quiet s) (handle_client system s i revents a client)
  unfolding handle_client
  handle_client-Quiet s i revents a none = returns (Quiet-refl s)
  handle_client-Quiet s i revents a (some client) =
      if-AllOk revents.pollerr _ _ (close_client-Quiet s client) (
        if-AllOk revents.pollout _ _
          (AllOk->>= (write_to_client s client i a.wrote) (write_to_client-Quiet s client i a.wrote)
            (λ r quiet. returns quiet))
          (if-AllOk revents.pollin _ _ (read_on_client-Quiet s client a.data_)
            (returns (Quiet-refl s))))
