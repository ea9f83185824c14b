-- ===== src/Tests/Rounds.antt =====
-- Runs of the loop of src/server/server-unix.c.
use why3_fork.Queue.{init_queue, queue_length}
use why3_fork.Server.Messages.{c_string}
use why3_fork.Server.Jobs.{schedule, schedule_new_jobs}
use why3_fork.Server.Clients.{server_accept_client}
use why3_fork.ReadBuf.{init_readbuf}
use why3_fork.WriteBuf.{init_writebuf}
use why3_fork.Base.{
  refl, true, false, none, some, List, [], ◌∷◌, arith, ◌≡◌, ok, replicate, ◌==◌, if◌then◌else◌,
  load, store,
}
use why3_fork.Base.Int.{pos}
use why3_fork.PollList.{
  PollFd, only_pollin, no_bits, add_to_poll_list, clean_from, poll_list_clean, room_for_one,
}
use why3_fork.Server.Startup.{
  Startup, Running, server_init_listening, init_globals, open_socket, setup_child_pipe,
}
use why3_fork.ArrayList.{
  init_list, list_lookup, list_append, list_length, list_lookup_index, lookup_from,
}
use why3_fork.Server.Loop.{
  Loop, Phase, Answer, top, polling, visiting, step, call_poll, handle_entry, is_empty, is_pollin,
  set_revents, start_round, visit,
}
use why3_fork.CString.{codes}
use why3_fork.Server.Alive.{Accepts, stays, steps, main-deref}
use why3_fork.Server.State.{Server, Client, deref, allocate}
use why3_fork.Server.Start.{Succeeds, Started, server_init_listening_lem}
use why3_fork.Server.Rounds.{EndsWithin, round-EndsWithin}
use why3_fork.Tests.State.{server, system}

abbrev pub listening : PollFd
listening = record { fd = pos 3; events = only_pollin; revents = only_pollin }

abbrev loop : Loop
loop = record {
  running = record {
    server = record server {
      polls = record { poll_list = some listening ∷ []; poll_num = 1; poll_len = 1 };
    };
    server_sock = pos 3;
    cpipe = pos 4;
  };
  phase = visiting 0;
}

abbrev pub answer : Answer
answer = record {
  revents = none;
  pipe_reads = true;
  exits = [];
  accepted = pos 6;
  wrote = none;
  data_ = none;
}

abbrev answers : List Answer
answers = answer ∷ answer ∷ answer ∷ []

-- The new entry is visited too, in the second step.
round-EndsWithin_example : EndsWithin system 3 loop answers
round-EndsWithin_example = round-EndsWithin system 0 loop answers refl (omega arith)

abbrev pub startup : Startup
startup = record {
  opens_dir = true;
  enters_dir = true;
  filen = codes "why3server.sock";
  path_max = 108;
  socket = pos 3;
  unlinks = true;
  binds = true;
  listens = true;
  goes_back = true;
  closes_dir = true;
  makes_pipe = true;
  pipe_out = pos 4;
  gets_out_flags = true;
  sets_out_flags = true;
  gets_in_flags = true;
  sets_in_flags = true;
  installs_handler = true;
}

abbrev pub connection : Answer
connection = record answer { revents = some (λ i. if i == 0 then only_pollin else no_bits) }

abbrev pub after_start : Running
after_start = record {
  server = record {
    parallel = 2;
    single_client = false;
    clients = init_list 2;
    heap = [];
    processes = init_list 2;
    queue = record { data_ = replicate 100 none; pointer = 0; len = 0; capacity = 100 };
    polls = record {
      poll_list =
          some (record { fd = pos 3; events = only_pollin; revents = no_bits })
          ∷ some (record { fd = pos 4; events = only_pollin; revents = no_bits })
          ∷ none
          ∷ none
          ∷ [];
      poll_num = 2;
      poll_len = 4;
    };
    trace = [];
  };
  server_sock = pos 3;
  cpipe = pos 4;
}

pub started : server_init_listening startup 2 false ≡ ok after_start
unfolding server_init_listening init_globals init_queue open_socket c_string add_to_poll_list
    room_for_one store setup_child_pipe
started = refl

abbrev pub polled : Server
polled = record after_start.server {
  polls = record after_start.server.polls {
    poll_list =
        some listening
        ∷ some (record { fd = pos 4; events = only_pollin; revents = no_bits })
        ∷ none
        ∷ none
        ∷ [];
  };
}

abbrev pub new_client : Client
new_client = record {
  fd = pos 6;
  readbuf = record { data_ = replicate 1024 none; len = 0; capacity = 1024 };
  writebuf = record {
    data_ = none;
    len = 0;
    pointer = 0;
    is_writing = false;
    writequeue = record { data_ = none ∷ none ∷ []; pointer = 0; len = 0; capacity = 2 };
  };
}

-- The client is at the address 0, under its descriptor.
abbrev pub connected : Server
connected = record polled {
  clients = record {
    key = some (pos 6) ∷ none ∷ [];
    data_ = some 0 ∷ none ∷ [];
    len = 1;
    capacity = 2;
  };
  heap = some new_client ∷ [];
  polls = record {
    poll_list =
        some listening
        ∷ some (record { fd = pos 4; events = only_pollin; revents = no_bits })
        ∷ some (record { fd = pos 6; events = only_pollin; revents = no_bits })
        ∷ none
        ∷ [];
    poll_num = 3;
    poll_len = 4;
  };
}

abbrev pub at : Server → Phase → Loop
at s phase = record { running = record after_start { server = s }; phase = phase }

pub starts : step system (at after_start.server top) connection ≡ ok (at after_start.server polling)
unfolding step start_round schedule_new_jobs schedule queue_length poll_list_clean clean_from load
starts = refl

pub polls : step system (at after_start.server polling) connection ≡ ok (at polled (visiting 0))
unfolding step call_poll set_revents load store
polls = refl

pub connects : step system (at polled (visiting 0)) connection ≡ ok (at connected (visiting 1))
unfolding step visit load is_empty handle_entry is_pollin server_accept_client init_readbuf
    init_writebuf init_queue list_append allocate init_list store add_to_poll_list room_for_one
connects = refl

pub start-Accepts : Accepts after_start.server connection
unfolding list_lookup list_lookup_index lookup_from init_list list_length
start-Accepts = record { fresh = refl; few = omega arith }

pub polled-Accepts : Accepts polled connection
unfolding list_lookup list_lookup_index lookup_from init_list list_length
polled-Accepts = record { fresh = refl; few = omega arith }

finds : list_lookup connected.clients (pos 6) ≡ ok (some 0)
unfolding list_lookup list_lookup_index lookup_from load
finds = refl

main-deref_example : (c : Client) × (deref connected 0 ≡ ok c) × (c.fd ≡ pos 6)
main-deref_example =
    main-deref system startup 2 false after_start (at connected (visiting 1)) (omega arith) started
      (steps connection start-Accepts starts
        (steps connection start-Accepts polls (steps connection polled-Accepts connects stays)))
      (pos 6) 0 finds

startup-Succeeds : Succeeds startup
unfolding c_string
startup-Succeeds = record {
  opens_dir = refl;
  enters_dir = refl;
  fits = omega arith;
  unlinks = refl;
  binds = refl;
  listens = refl;
  goes_back = refl;
  closes_dir = refl;
  makes_pipe = refl;
  gets_out_flags = refl;
  sets_out_flags = refl;
  gets_in_flags = refl;
  sets_in_flags = refl;
  installs_handler = refl;
}

server_init_listening_lem_example :
    (r : Running) × (server_init_listening startup 2 false ≡ ok r) × Started startup 2 r
server_init_listening_lem_example =
    server_init_listening_lem startup 2 false (omega arith) (omega arith) startup-Succeeds
