-- ===== src/Server/Loop.antt =====
-- The loop of `main` in src/server/server-unix.c, in steps: the start of a round, `poll`, and a visit of
-- one entry of the poll list.
use why3_fork.Base.{
  ℕ, zero, suc, ◌+◌, Bool, not, ◌&&◌, ◌||◌, Option, none, some, List, [], ◌∷◌, Result, ok, err,
  exit, assertion, guard, ◌>>=◌, ◌>>◌, ltb, if◌then◌else◌, load, store,
}
use why3_fork.Base.Int.{ℤ, eq_ℤ}
use why3_fork.ArrayList.{list_lookup}
use why3_fork.PollList.{Bits, PollFd, poll_list_clean}
use why3_fork.Request.{Bytes}
use why3_fork.Server.State.{Server, System}
use why3_fork.Server.Jobs.{Exit, schedule_new_jobs, handle_child_events}
use why3_fork.Server.Clients.{server_accept_client, close_client, write_to_client, read_on_client}
use why3_fork.Server.Startup.{Startup, Running, server_init_listening}

-- Where the loop stands; `visiting i` is before entry `i`.
pub data Phase : Type 0 where
  top : Phase
  polling : Phase
  visiting : ℕ → Phase

pub record Loop : Type 0 where
  pub running : Running
  pub phase : Phase

-- What the system answers in a step. `revents` is what `poll` says of each place, or `none` where it
-- fails, and `pipe_reads` whether the byte of the pipe is read; both calls are made again while they
-- are interrupted, so that the answer is the last one. `exits` are the children that `wait3` returns,
-- `accepted` is the descriptor of a new client, and `wrote` and `data_` are the answers of `write` and
-- `read` for a client.
pub record Answer : Type 0 where
  pub revents : Option (ℕ → Bits)
  pub pipe_reads : Bool
  pub exits : List Exit
  pub accepted : ℤ
  pub wrote : Option ℕ
  pub data_ : Option Bytes

-- `cur->revents == 0` and `cur->revents == POLLIN`
unfoldable pub is_empty : Bits → Bool
is_empty b = not (b.pollin || b.pollout || b.pollerr || b.other)

unfoldable pub is_pollin : Bits → Bool
is_pollin b = b.pollin && not (b.pollout || b.pollerr || b.other)

-- `poll` fills in `revents` from place `i` on, with the places that are left.
unfoldable pub set_revents :
    (ℕ → Bits) → List (Option PollFd) → ℕ → ℕ → Result (List (Option PollFd))
set_revents bits cells zero i = ok cells
set_revents bits cells (suc n) i = do
  e ← load cells i
  cells' ← store cells i (record e { revents = bits i })
  set_revents bits cells' n (i + 1)

unfoldable pub call_poll : Server → Option (ℕ → Bits) → Result Server
call_poll s none = err (exit 1)
call_poll s (some bits) = do
  cells ← set_revents bits s.polls.poll_list s.polls.poll_num 0
  ok (record s { polls = record s.polls { poll_list = cells } })

module _ (system : System) where
  -- The end of a visit, for what `list_lookup` finds.
  unfoldable pub handle_client : Server → ℕ → Bits → Answer → Option ℕ → Result Server
  handle_client s i revents a none = ok s
  handle_client s i revents a (some client) =
      if revents.pollerr
      then close_client s client
      else if revents.pollout
      then (do (sent, s') ← write_to_client s client i a.wrote; ok s')
      else if revents.pollin
      then read_on_client system s client a.data_
      else ok s

  -- The body of the `for` loop, for an entry with events.
  unfoldable pub handle_entry : Running → ℕ → PollFd → Answer → Result Server
  handle_entry r i cur a =
      if eq_ℤ cur.fd r.cpipe
      then (do guard a.pipe_reads (exit 1); handle_child_events r.server a.exits)
      else if eq_ℤ cur.fd r.server_sock
      then (do guard (is_pollin cur.revents) assertion; server_accept_client r.server a.accepted)
      else (do
        client ← list_lookup r.server.clients cur.fd
        handle_client r.server i cur.revents a client)

  unfoldable pub visit : Running → ℕ → Answer → Result Server
  visit r i a = do
    cur ← load r.server.polls.poll_list i
    if is_empty cur.revents then ok r.server else handle_entry r i cur a

  unfoldable pub start_round : Server → Result Server
  start_round s = do
    s' ← schedule_new_jobs system s
    polls ← poll_list_clean s'.polls
    ok (record s' { polls = polls })

  -- `poll_num` is read again before each visit.
  unfoldable pub step : Loop → Answer → Result Loop
  step l a = elim l.phase [
    | top ↦ do
      s ← start_round l.running.server
      ok (record { running = record l.running { server = s }; phase = polling })
    | polling ↦ do
      s ← call_poll l.running.server a.revents
      ok (record { running = record l.running { server = s }; phase = visiting 0 })
    | visiting i ↦
        if ltb i l.running.server.polls.poll_num
        then (do
          s ← visit l.running i a
          ok (record { running = record l.running { server = s }; phase = visiting (i + 1) }))
        else ok (record l { phase = top })
  ]

  -- The steps that the answers allow.
  unfoldable pub run_steps : Loop → List Answer → Result Loop
  run_steps l [] = ok l
  run_steps l (a ∷ rest) = do l' ← step l a; run_steps l' rest

  -- `main` behind `parse_options`, as far as the answers go.
  unfoldable pub main : Startup → ℕ → Bool → List Answer → Result Loop
  main a parallel single_client answers = do
    r ← server_init_listening a parallel single_client
    run_steps (record { running = r; phase = top }) answers
