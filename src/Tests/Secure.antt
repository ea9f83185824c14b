-- ===== src/Tests/Secure.antt =====
-- The safety of src/server/server-unix.c on a run in which a client connects and sends a line.
use why3_fork.Base.{
  ℕ, zero, suc, ◌+◌, ◌≡◌, ◌<◌, ◌≤◌, ◌^◌, ◌++◌, ◌==◌, ltb, if◌then◌else◌, subst, store, length, refl,
  true, false, none, some, List, [], ◌∷◌, arith, ok, AllOk-all, returns, load,
}
use why3_fork.Base.Int.{pos}
use why3_fork.Base.Safety.{Safe}
use why3_fork.CString.{codes}
use why3_fork.PollList.{PollFd, PollList, only_pollin, no_bits, poll_list_clean, clean_from}
use why3_fork.Queue.{queue_length}
use why3_fork.ArrayList.{list_length, init_list, list_lookup, list_lookup_index, lookup_from}
use why3_fork.Server.State.{Server, Client, deref}
use why3_fork.Server.Jobs.{schedule, schedule_new_jobs}
use why3_fork.Server.Loop.{
  Answer, top, polling, visiting, main, step, is_empty, visit, start_round, call_poll, set_revents,
}
use why3_fork.Server.Clients.{read_once}
use why3_fork.Server.Alive.{Accepts}
use why3_fork.Server.Intact.Jobs.{HasShortNames}
use why3_fork.Server.Intact.Bounds.{Small, Sensible}
use why3_fork.Server.Secure.{AllSensible, IntactLoop, main-Safe}
use why3_fork.Tests.State.{system}
use why3_fork.Tests.Rounds.{
  answer, new_client, startup, connection, after_start, polled, connected, at, started, starts,
  polls, connects, start-Accepts, polled-Accepts,
}

short_names : HasShortNames system
short_names done = omega arith

start-Small : Small after_start.server
unfolding deref load init_list list_length queue_length
start-Small = record {
  requests = omega arith;
  processes = omega arith;
  messages = λ ptr c e. absurd cc;
  bytes = λ ptr c e. absurd cc;
}

polled-Small : Small polled
unfolding deref load init_list list_length queue_length
polled-Small = record {
  requests = omega arith;
  processes = omega arith;
  messages = λ ptr c e. absurd cc;
  bytes = λ ptr c e. absurd cc;
}

start-Sensible : Sensible after_start.server connection
start-Sensible = record {
  small = start-Small;
  accepts = start-Accepts;
  listed = tt;
  few = omega arith;
  fits = λ cs e. absurd cc;
}

polled-Sensible : Sensible polled connection
polled-Sensible = record {
  small = polled-Small;
  accepts = polled-Accepts;
  listed = tt;
  few = omega arith;
  fits = λ cs e. absurd cc;
}

-- What the client sends, and the answer that hands it over.
abbrev text : List ℕ
text = codes "run;a;1;1;prover;x" ++ b'\n' ∷ []

abbrev sends : Answer
sends = record answer {
  revents = some (λ i. if i == 2 then only_pollin else no_bits);
  accepted = pos 7;
  data_ = some text;
}

-- The server once `poll` has said that the client sends.
abbrev readable : Server
readable = record connected {
  polls = record connected.polls {
    poll_list =
        some (record { fd = pos 3; events = only_pollin; revents = no_bits })
        ∷ some (record { fd = pos 4; events = only_pollin; revents = no_bits })
        ∷ some (record { fd = pos 6; events = only_pollin; revents = only_pollin })
        ∷ none
        ∷ [];
  };
}

skips :
    (i : ℕ) (s : Server) (e : PollFd)
    → load s.polls.poll_list i ≡ ok e
    → is_empty e.revents ≡ true
    → ltb i s.polls.poll_num ≡ true
    → step system (at s (visiting i)) sends ≡ ok (at s (visiting (i + 1)))
unfolding step visit
skips i s e here quiet inside = rw (inside, here, quiet) refl

round_ends : step system (at connected (visiting 3)) sends ≡ ok (at connected top)
unfolding step
round_ends = refl

starts_again : step system (at connected top) sends ≡ ok (at connected polling)
unfolding step start_round schedule_new_jobs schedule queue_length poll_list_clean clean_from load
starts_again = refl

polls_again : step system (at connected polling) sends ≡ ok (at readable (visiting 0))
unfolding step call_poll set_revents load store
polls_again = refl

connected-Accepts : Accepts connected sends
unfolding list_lookup list_lookup_index lookup_from init_list list_length load
connected-Accepts = record { fresh = refl; few = omega arith }

client-Small :
    (ptr : ℕ) (c : Client)
    → deref connected ptr ≡ ok c
    → (queue_length c.writebuf.writequeue < 2 ^ 28)
      × (c.readbuf.len ≤ 2 ^ 28)
      × (c.readbuf.capacity < 2 ^ 60)
unfolding deref load queue_length
client-Small zero c e =
    let same : new_client ≡ c = cc in
    subst
      (λ d.
        (queue_length d.writebuf.writequeue < 2 ^ 28)
        × (d.readbuf.len ≤ 2 ^ 28)
        × (d.readbuf.capacity < 2 ^ 60))
      same (omega arith, omega arith, omega arith)
client-Small (suc ptr) c e = absurd cc

connected-Small : (p : PollList) → Small (record connected { polls = p })
unfolding list_length queue_length deref init_list
connected-Small p = record {
  requests = omega arith;
  processes = omega arith;
  messages = λ ptr c e. (client-Small ptr c e).0;
  bytes = λ ptr c e. let (few, less, room) = client-Small ptr c e in (less, room);
}

sends-Sensible : (p : PollList) → Sensible (record connected { polls = p }) sends
sends-Sensible p = record {
  small = connected-Small p;
  accepts = record { fresh = connected-Accepts.fresh; few = connected-Accepts.few };
  listed = tt;
  few = omega arith;
  fits = λ cs e. let same : text ≡ cs = cc in subst (λ l. length l ≤ read_once) same (omega arith);
}

-- The second round reads a line of the client, in its last step.
second-AllSensible :
    AllSensible system (sends ∷ sends ∷ sends ∷ sends ∷ sends ∷ []) (at connected top)
unfolding load is_empty
second-AllSensible = (
  sends-Sensible connected.polls,
  rw starts_again (
      returns (
        sends-Sensible connected.polls,
        rw polls_again (
            returns (
              sends-Sensible readable.polls,
              rw (skips 0 readable _ refl refl refl) (
                  returns (
                    sends-Sensible readable.polls,
                    rw (skips 1 readable _ refl refl refl) (
                        returns (
                          sends-Sensible readable.polls,
                          AllOk-all (step system (at readable (visiting 2)) sends) (λ l. tt),
                        )),
                  )),
            )),
      )),
)

-- The rest of the first round.
rest-AllSensible :
    AllSensible system
      (sends ∷ sends ∷ sends ∷ sends ∷ sends ∷ sends ∷ sends ∷ sends ∷ [])
      (at connected (visiting 1))
unfolding load is_empty
rest-AllSensible = (
  sends-Sensible connected.polls,
  rw (skips 1 connected _ refl refl refl) (
      returns (
        sends-Sensible connected.polls,
        rw (skips 2 connected _ refl refl refl)
            (returns (sends-Sensible connected.polls, rw round_ends (returns second-AllSensible))),
      )),
)

abbrev answers : List Answer
answers =
    connection ∷ connection ∷ connection ∷ sends ∷ sends ∷ sends ∷ sends ∷ sends ∷ sends ∷ sends
    ∷ sends ∷ []

run-AllSensible : AllSensible system answers (at after_start.server top)
run-AllSensible = (
  start-Sensible,
  rw starts (
      returns (
        start-Sensible,
        rw polls (returns (polled-Sensible, rw connects (returns rest-AllSensible))),
      )),
)

main-Safe_example : Safe IntactLoop (main system startup 2 false answers)
main-Safe_example =
    main-Safe system startup 2 false answers (omega arith) short_names
      (rw started (returns run-AllSensible))
