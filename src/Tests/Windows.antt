-- ===== src/Tests/Windows.antt =====
-- Runs of cpulimit-unix.c, cpulimit-win.c and server-win.c in src/server, and theorems applied at them.
use why3_fork.Base.{
  ◌+◌, ◌>>=◌, ℕ, zero, suc, ◌≡◌, refl, false, true, none, some, List, [], ◌∷◌, ◌++◌, arith, length,
  ok, err, out_of_bounds,
}
use why3_fork.Base.Int.{pos}
use why3_fork.CString.{codes}
use why3_fork.CString.Decimal.{print_decimal}
use why3_fork.ArrayList.Entries.{lookup}
use why3_fork.Server.Jobs.{signaled}
use why3_fork.CpuLimit
use why3_fork.CpuLimit.{set_alarm, print_time, limit_cpu, limit_memory, no_core, returned, becomes}
use why3_fork.CpuLimit.Ends.{flag, Limited, main_lem}
use why3_fork.CpuLimit.Windows.{command_line}
use why3_fork.CpuLimit.Windows.Quoted.{command_line_lem}
use why3_fork.WinServer.CommandLine.{space, need_quote, build_command}
use why3_fork.WinServer.CommandLine.Escaped.{
  encoded, escaped, piece, encoded_all, build_command_lem,
}
use why3_fork.WinServer.CommandLine.Decoded.{decoded, decoded-build_command}
use why3_fork.WinServer.State.{Server, System, Proc, to_ms_key, kind_of_ms_key, key_of_ms_key}
use why3_fork.WinServer.Clients.{get_server_num}
use why3_fork.WinServer.Jobs.{ended}
use why3_fork.WinServer.Loop.{Event, readop, writeop, run_rounds}
use why3_fork.WinServer.Keys.{position, to_ms_key_lem, get_server_num_lem}
use why3_fork.WinServer.Stuck.{Orphaned, run_rounds-stuck}
use why3_fork.Request.{RunRequest}
use why3_fork.Queue.{Queue}

-- The first `waitpid` fails, and SIGALRM has ended the command.
abbrev answers : CpuLimit.Answers
answers = record { forks = true; first = none; second = some (signaled 14); found = true }

main_lem_example : Limited true 10 1000 (codes "alt-ergo" ∷ codes "file" ∷ []) answers (
    CpuLimit.main
      (print_decimal 10 ∷ print_decimal 1000 ∷ flag true ∷ codes "alt-ergo" ∷ codes "file" ∷ [])
      answers)
main_lem_example =
    main_lem true 10 1000 (codes "alt-ergo") (codes "file" ∷ []) answers (omega arith) (omega arith)
      (omega arith) refl

command_line_lem_example :
    command_line (codes "a" ∷ codes "b c" ∷ []) ≡ ok (some (codes "\"a\" \"b c\""))
command_line_lem_example = command_line_lem (codes "a") (codes "b c" ∷ []) (omega arith)

abbrev tricky : List (List ℕ)
tricky = codes "-p" ∷ codes "" ∷ codes "a \\\"b\\" ∷ []

build_command_lem_example :
    build_command (codes "why3") tricky ≡ ok (codes "why3 -p \"\" \"a \\\\\\\"b\\\\\" ")
unfolding encoded_all encoded need_quote escaped piece
build_command_lem_example = build_command_lem (codes "why3") tricky

decoded-build_command_example :
    (line : List ℕ) × (build_command (codes "why3") tricky ≡ ok (codes "why3" ++ space ∷ line))
    × (decoded line ≡ tricky)
unfolding encoded_all encoded need_quote escaped piece
decoded-build_command_example =
    decoded-build_command (codes "why3") tricky (omega arith) (refl, (refl, (refl, tt)))

to_ms_key_lem_example : (to_ms_key 3 1 ≡ ok 7) × (kind_of_ms_key 7 ≡ 1) × (key_of_ms_key 7 ≡ 3)
to_ms_key_lem_example = to_ms_key_lem 3 1 (omega arith)

abbrev orphan : Proc
orphan = record {
  handle = 9;
  job = 8;
  client_key = pos 1;
  task_id = codes "x1";
  outfile = codes "out";
}

abbrev no_requests : Queue RunRequest
no_requests = record { data_ = none ∷ []; pointer = 0; len = 0; capacity = 1 }

-- The key of the process is 2. Its client, with the key 1, has gone, and the socket has the key 3.
abbrev server : Server
server = record {
  parallel = 1;
  single_client = false;
  clients = record { key = none ∷ []; data_ = none ∷ []; len = 0; capacity = 1 };
  heap = none ∷ [];
  processes = record { key = some (pos 2) ∷ []; data_ = some orphan ∷ []; len = 1; capacity = 1 };
  queue = no_requests;
  gen_key = 4;
  server_socket = some 7 ∷ [];
  server_key = some (pos 3) ∷ [];
  trace = [];
}

get_server_num_lem_example : get_server_num server 3 ≡ ok (some 0)
unfolding position
get_server_num_lem_example = get_server_num_lem server 3 (pos 3 ∷ []) refl

-- A `parallel` command has raised the number: a key of a client is looked for behind the array.
get_server_num_grown : get_server_num (record server { parallel = 2 }) 1 ≡ err out_of_bounds
unfolding position
get_server_num_grown = get_server_num_lem (record server { parallel = 2 }) 1 (pos 3 ∷ []) refl

abbrev end_of_process : Event
end_of_process = record {
  mskey = 5;
  res = true;
  pipe_connected = false;
  broken_pipe = false;
  operation = readop;
  message = [];
  numbytes = 0;
  job_message = ended;
  exit_info = record { exitcode = 0; cpu_time = codes "1.25" };
}

server-Orphaned : Orphaned server
unfolding lookup
server-Orphaned = record {
  cs = [];
  clients = record {
    room = omega arith;
    positive = omega arith;
    keys = refl;
    datas = refl;
    count = refl;
    fits = omega arith;
    cells = λ i e h. cc;
  };
  ps = (pos 2, orphan) ∷ [];
  processes = record {
    room = omega arith;
    positive = omega arith;
    keys = refl;
    datas = refl;
    count = refl;
    fits = omega arith;
    cells = elim [ zero ↦ λ e h. (ground arith, ground arith) | suc i ↦ λ e h. cc ];
  };
  gone = (refl, tt);
  full = omega arith;
  keys = pos 3 ∷ [];
  sockets = refl;
  enough = omega arith;
}

abbrev system : System
system = record {
  pipe = λ trace. some (length trace);
  adds_to_port = λ trace. true;
  connects = λ trace. true;
  job = λ trace. some 8;
  temp_name = λ trace. some (codes "out");
  sets_limits = λ trace. true;
  create = λ trace. some 9;
  assigns = λ trace. true;
  associates = λ trace. true;
  writes = λ trace. true;
}

run_rounds-stuck_example : run_rounds system server (end_of_process ∷ []) ≡ ok server
unfolding kind_of_ms_key
run_rounds-stuck_example =
    run_rounds-stuck system server (end_of_process ∷ []) server-Orphaned
      (record { some_key = refl; kind = refl }, tt)

-- A client connects, asks for a process, and its first write ends.
abbrev connect : Event
connect = record end_of_process { mskey = 2 }

abbrev request : List ℕ
request = codes "run;a;1;1;prover"

abbrev asks : Event
asks = record connect { message = request ++ b'\n' ∷ []; numbytes = length request + 1 }

abbrev writes : Event
writes = record connect { operation = writeop; numbytes = 4 }
