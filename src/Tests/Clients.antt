-- ===== src/Tests/Clients.antt =====
-- The lines of clients, the arguments of processes and the kills of src/server/server-unix.c and
-- src/server/proc.c at concrete inputs.
use why3_fork.Base.{
  ℕ, ◌+◌, ◌-◌, ◌≡◌, refl, false, true, none, some, [], ◌∷◌, ◌++◌, arith, length, drop, ok, err,
  assertion, out_of_bounds, Result, ◌>>=◌,
}
use why3_fork.Base.Int.{pos}
use why3_fork.CString.{codes, str_eq}
use why3_fork.Request.{RunRequest, Bytes}
use why3_fork.Server.State.{Server, kill}
use why3_fork.Tests.State.{
  watched, server, system, waiting_client, waiting_client-Holds, busy, one_process-Holds,
  running_process,
}
use why3_fork.Server.Clients.{handle_lines, write_to_client}
use why3_fork.Server.Jobs.{kill_processes}
use why3_fork.Server.Framing.{cut, handle_all, handle_lines_lem, handle_lines-append}
use why3_fork.Server.Writes.{Wrote, write_to_client-failed, write_to_client-Wrote}
use why3_fork.Server.Kills.{kills, kill_processes_lem}
use why3_fork.Server.Exec.{create_process}
use why3_fork.Server.Arguments.{
  child_with, create_process-run, create_process-runstdin, create_process-no_args,
}

abbrev plain : RunRequest
plain = record {
  key = pos 5;
  id = codes "x1";
  timeout = pos 10;
  memlimit = 2000;
  usestdin = false;
  cmd = codes "alt-ergo";
  numargs = 2;
  args = codes "-v" ∷ codes "f.ae" ∷ [];
}

abbrev piped : RunRequest
piped = record plain { usestdin = true }

abbrev piped_alone : RunRequest
piped_alone = record piped { numargs = 0; args = [] }

create_process-run_example : create_process plain ≡ ok (child_with plain none plain.args)
create_process-run_example = create_process-run plain refl refl

create_process-runstdin_example :
    create_process piped ≡ ok (child_with piped (some (codes "f.ae")) (codes "-v" ∷ []))
create_process-runstdin_example =
    create_process-runstdin piped (codes "-v" ∷ []) (codes "f.ae") refl refl refl

create_process-no_args_example : create_process piped_alone ≡ err out_of_bounds
create_process-no_args_example = create_process-no_args piped_alone refl refl refl

-- A line, and the begin of another one that the next read completes.
abbrev first_read : Bytes
first_read = codes "parallel;8" ++ b'\n' ∷ codes "para"

abbrev second_read : Bytes
second_read = codes "llel;9" ++ b'\n' ∷ []

abbrev counted : ℕ → Server → Result (Server × ℕ)
counted k s = ok (s, k)

handle_lines_lem_example : handle_lines system 15 server (pos 5) 0 first_read ≡ (
    handle_all system (pos 5) server (cut first_read).0 >>= λ s'.
    ok (s', 0 + (15 - length (cut first_read).1)))
handle_lines_lem_example = handle_lines_lem system (pos 5) 15 server 0 first_read (omega arith)

handle_lines-append_example :
    handle_lines system 22 server (pos 5) 0 (first_read ++ second_read) ≡ (
      handle_lines system 15 server (pos 5) 0 first_read >>= λ (s', old).
      (let rest = drop old first_read ++ second_read in
        handle_lines system (length rest) s' (pos 5) 0 rest >>= λ (s'', more).
        counted (old + more) s''))
handle_lines-append_example = handle_lines-append system (pos 5) server first_read second_read

abbrev writer : Server
writer = record server { heap = some waiting_client ∷ [] }

write_to_client-failed_example :
    (s' : Server) × (write_to_client writer 0 0 none ≡ ok ([], s'))
    × (write_to_client s' 0 0 (some 4) ≡ err assertion)
write_to_client-failed_example =
    write_to_client-failed writer 0 0 0 (some 4) waiting_client (codes "S;x1") [] refl
      waiting_client-Holds refl

kill_processes_lem_example :
    kill_processes busy (codes "x1")
    ≡ ok (record busy { trace = kills (codes "x1") ((pos 100, running_process) ∷ []) busy.trace })
kill_processes_lem_example =
    kill_processes_lem busy (codes "x1") ((pos 100, running_process) ∷ []) one_process-Holds

-- The process is killed.
kills_x1 : kills (codes "x1") ((pos 100, running_process) ∷ []) [] ≡ kill (pos 100) ∷ []
unfolding kills str_eq
kills_x1 = refl

write_to_client-Wrote_example : Wrote writer 0 0 2 waiting_client (codes "S;x1" ∷ [])
write_to_client-Wrote_example =
    write_to_client-Wrote writer 0 0 2 waiting_client (codes "S;x1") [] (watched ∷ []) refl
      waiting_client-Holds refl (record { rest = []; cells = refl; count = refl }) (omega arith)
