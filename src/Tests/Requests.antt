-- ===== src/Tests/Requests.antt =====
-- src/server/request.c at concrete inputs.
use why3_fork.Base.{ℕ, ◌≡◌, refl, false, none, some, List, [], ◌∷◌, arith, ok}
use why3_fork.Base.Int.{pos}
use why3_fork.CString.{codes, atoi, str_eq, strn_eq}
use why3_fork.CString.Decimal.{print_decimal, atoi-print_decimal}
use why3_fork.Queue.{Queue, queue_push}
use why3_fork.Queue.Holds.{Holds, init_queue-Holds}
use why3_fork.Queue.Push.{queue_push_lem}
use why3_fork.Request.{
  RunRequest, run, interrupt, parse_request, count_semicolons, copy_up_to_semicolon, copy_args,
  parse_run, new_parallel, remove_from_queue,
}
use why3_fork.Request.Fields.{fields}
use why3_fork.Request.Parse.{request_of_fields, parse_request_lem}
use why3_fork.Request.Print.{print_run, parse_request-print_run}
use why3_fork.Request.Cancel.{others, remove_from_queue_lem}

abbrev job : RunRequest
job = record {
  key = pos 5;
  id = codes "x1";
  timeout = pos 10;
  memlimit = 2000;
  usestdin = false;
  cmd = codes "alt-ergo";
  numargs = 2;
  args = codes "-v" ∷ codes "f.ae" ∷ [];
}

abbrev job_line : List ℕ
job_line = codes "run;x1;10;2000;alt-ergo;-v;f.ae"

parse_job : parse_request job_line (pos 5) 2 ≡ ok (some (run job), 2)
unfolding parse_request count_semicolons copy_up_to_semicolon strn_eq parse_run copy_args atoi
parse_job = refl

parse_parallel : parse_request (codes "parallel;8") (pos 5) 2 ≡ ok (none, 8)
unfolding parse_request count_semicolons copy_up_to_semicolon strn_eq new_parallel atoi
parse_parallel = refl

parse_interrupt :
    parse_request (codes "interrupt;x1") (pos 5) 2 ≡ ok (some (interrupt (pos 5) (codes "x1")), 2)
unfolding parse_request count_semicolons copy_up_to_semicolon strn_eq
parse_interrupt = refl

parse_request_lem_example :
    parse_request job_line (pos 5) 2 ≡ request_of_fields (pos 5) 2 (fields job_line)
parse_request_lem_example = parse_request_lem job_line (pos 5) 2

parse_request-print_run_example :
    parse_request (print_run job 10) (pos 5) 2 ≡ ok (some (run job), 2)
parse_request-print_run_example = parse_request-print_run job 10 2 (record {
  texts = omega arith;
  limit = refl;
  limit_int = omega arith;
  memory_int = omega arith;
  numargs = refl;
})

atoi-print_decimal_example : atoi (print_decimal 2000) ≡ ok (pos 2000)
atoi-print_decimal_example = atoi-print_decimal 2000 (omega arith)

abbrev other_job : RunRequest
other_job = record job { id = codes "x2" }

abbrev one_job :
    (q : Queue RunRequest) × (queue_push (init_queue-Holds 2 (omega arith) (omega arith)).0 job
      ≡ ok q)
    × Holds q (job ∷ [])
one_job = queue_push_lem job [] (init_queue-Holds 2 (omega arith) (omega arith)).2 (omega arith)

abbrev two_jobs :
    (q : Queue RunRequest) × (queue_push one_job.0 other_job ≡ ok q)
    × Holds q (job ∷ other_job ∷ [])
two_jobs = queue_push_lem other_job (job ∷ []) one_job.2 (omega arith)

others_kept : others (codes "x1") (job ∷ other_job ∷ []) ≡ other_job ∷ []
unfolding str_eq
others_kept = refl

remove_from_queue_lem_example :
    (q : Queue RunRequest) × (remove_from_queue two_jobs.0 (codes "x1") ≡ ok q)
    × Holds q (others (codes "x1") (job ∷ other_job ∷ []))
remove_from_queue_lem_example =
    remove_from_queue_lem (job ∷ other_job ∷ []) (codes "x1") two_jobs.2 (omega arith)
