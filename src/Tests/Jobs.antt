-- ===== src/Tests/Jobs.antt =====
-- The jobs of src/server/server-unix.c at a concrete state.
use why3_fork.Base.{◌≡◌, refl, false, [], ◌∷◌, arith, ok}
use why3_fork.Base.Int.{pos}
use why3_fork.CString.{codes}
use why3_fork.ArrayList.Entries.{lookup}
use why3_fork.Server.Messages.{
  finished_text, send_msg_to_client, started_text, send_started_msg_to_client,
}
use why3_fork.Server.Jobs.{Exit, exited, run_request, schedule_new_jobs}
use why3_fork.Server.Invariant.{Answered, send_started_lem}
use why3_fork.Server.Exits.{Reported, handle_exit-Reported, send_msg_lem}
use why3_fork.Server.Scheduled.{Launched, Scheduled}
use why3_fork.Server.Scheduling.{run_request-missing, run_request-Launched, schedule_new_jobs_lem}
use why3_fork.Tests.State.{
  job, client, client-GoodClient, watched, server, system, server_inv, busy, busy_inv,
  running_process,
}

schedule_new_jobs_lem_example :
    Scheduled system (job ∷ []) 1 server (schedule_new_jobs system server)
schedule_new_jobs_lem_example =
    schedule_new_jobs_lem (job ∷ []) 0 1 system server server_inv (λ t. refl) (omega arith)
      (omega arith)

run_request-Launched_example : Launched 0 (job ∷ []) system server job 0
unfolding lookup
run_request-Launched_example =
    run_request-Launched 0 (job ∷ []) system server job 0 server_inv refl (λ t. refl) (omega arith)
      refl (omega arith)

run_request-missing_example : run_request system server (record job { key = pos 6 }) ≡ ok server
unfolding lookup
run_request-missing_example =
    run_request-missing 0 (job ∷ []) system server (record job { key = pos 6 }) server_inv refl

send_started_lem_example :
    Answered 0 server 0
      (started_text (codes "x1"))
      (send_started_msg_to_client server 0 (codes "x1"))
send_started_lem_example =
    send_started_lem 0 server 0 (codes "x1") (watched ∷ []) (client, refl, client-GoodClient)
      (record { rest = []; cells = refl; count = refl }) (omega arith) (omega arith)

abbrev gone : Exit
gone = record { pid = pos 100; status = exited 0; cpu_time = codes "1.25" }

handle_exit-Reported_example :
    Reported 1 (job ∷ []) busy gone running_process 0 ((pos 100, running_process) ∷ [])
unfolding lookup
handle_exit-Reported_example =
    handle_exit-Reported 1 (job ∷ []) busy gone running_process 0 busy_inv refl refl (omega arith)
      (omega arith) (omega arith) (omega arith) (omega arith)

send_msg_lem_example :
    Answered 0 server 0
      (finished_text (codes "x1") 0 (codes "1.25") false (codes "/tmp/why3a"))
      (send_msg_to_client server 0 (codes "x1") 0 (codes "1.25") false (codes "/tmp/why3a"))
send_msg_lem_example =
    send_msg_lem 0 server 0 (codes "x1") 0 (codes "1.25") false (codes "/tmp/why3a") (watched ∷ [])
      (client, refl, client-GoodClient) (record { rest = []; cells = refl; count = refl })
      (omega arith) (omega arith) (omega arith) (omega arith) (omega arith)
