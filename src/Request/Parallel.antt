-- ===== src/Request/Parallel.antt =====
-- The number of parallel processes stays positive in src/server/request.c.
use why3_fork.Base.{
  ℕ, ◌-◌, ◌<◌, ◌==◌, ltb, true, false, Option, arith, AllOk, returns, AllOk-then, if-AllOk,
}
use why3_fork.Base.Int.{ℤ, pos, negsuc}
use why3_fork.CString.{codes, strn_eq, atoi}
use why3_fork.Request.{
  Bytes, Request, count_semicolons, copy_up_to_semicolon, new_parallel, parse_command, parse_run,
  parse_request,
}

-- A positive number is left positive.
abbrev pub KeepsPositive : ℕ → Option Request × ℕ → Type 0
KeepsPositive parallel r = 0 < parallel → 0 < r.1

new_parallel-positive : (parallel : ℕ) (arg : ℤ) → 0 < parallel → 0 < new_parallel parallel arg
unfolding new_parallel
new_parallel-positive parallel (pos n) h = ground arith
new_parallel-positive parallel (negsuc n) h = h

parse_command-Positive :
    (buf : Bytes) (key : ℤ) (parallel : ℕ)
    → AllOk (KeepsPositive parallel) (parse_command buf key parallel)
unfolding parse_command
parse_command-Positive buf key parallel =
    if-AllOk _ _ _
      (AllOk-then (atoi (copy_up_to_semicolon buf (copy_up_to_semicolon buf 0).0).1)
        (λ arg read. returns (new_parallel-positive parallel arg)))
      (if-AllOk _ _ _ (returns (λ h. h)) (returns (λ h. h)))

pub parse_request-Positive :
    (buf : Bytes) (key : ℤ) (parallel : ℕ)
    → AllOk (KeepsPositive parallel) (parse_request buf key parallel)
unfolding parse_request
parse_request-Positive buf key parallel =
    let semic = count_semicolons buf in
    let (p, word) = copy_up_to_semicolon buf 0 in
    if-AllOk (semic == 0) _ _ (returns (λ h. h)) (
      if-AllOk (semic == 1) _ _ (parse_command-Positive buf key parallel) (
        if-AllOk (ltb semic 4) _ _ (returns (λ h. h)) (
          if-AllOk (strn_eq word (codes "run") p) _ _
            (AllOk-then (parse_run buf key (semic - 4) p false) (λ r parsed. returns (λ h. h)))
            (if-AllOk (strn_eq word (codes "runstdin") p) _ _
              (AllOk-then (parse_run buf key (semic - 4) p true) (λ r parsed. returns (λ h. h)))
              (returns (λ h. h))))))
