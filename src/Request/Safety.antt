-- ===== src/Request/Safety.antt =====
-- What `parse_request` returns for a line: a request with an identifier that is no longer than the line and
-- as many arguments as it says, and a value of `parallel` that is a positive `int`.
use why3_fork.Base.{
  zero, suc, refl, sym, ap, ◌≡◌, ℕ, ◌-◌, ◌≤◌, ◌<◌, ◌==◌, ltb, true, false, Bool, Bool-cases, inl,
  inr, Option, none, some, arith, length, length-take, length-drop, drop, int_limit,
}
use why3_fork.Base.Int.{ℤ, pos, negsuc}
use why3_fork.Base.Safety.{Safe, gives, Safe->>=, either-Safe}
use why3_fork.CString.{codes, strn_eq, atoi}
use why3_fork.CString.Range.{IsInt, atoi-Safe}
use why3_fork.Request.{
  Bytes, Request, run, interrupt, count_semicolons, scan, copy_up_to_semicolon, copy_args,
  new_parallel, parse_command, parse_run, parse_request,
}

abbrev pub HasShort : ℕ → Option Request → Type 0
HasShort n none = Unit {0}
HasShort n (some (run r)) = (length r.id ≤ n) × (r.numargs ≡ length r.args)
HasShort n (some (interrupt key id)) = Unit {0}

abbrev pub IsPositive : ℕ → Type 0
IsPositive parallel = (0 < parallel) × (parallel < int_limit)

abbrev pub Parsed : ℕ → Option Request × ℕ → Type 0
Parsed n r = HasShort n r.0 × IsPositive r.1

length-copied : (buf : Bytes) (begin : ℕ) → length (copy_up_to_semicolon buf begin).1 ≤ length buf
unfolding copy_up_to_semicolon
length-copied buf begin =
    let i = scan begin (drop begin buf) in
    elim (Bool-cases (i == length buf)) [
      | inl e ↦
          rw e (omega (arith, length-take (i - begin) (drop begin buf), length-drop begin buf))
      | inr e ↦
          rw e (omega (arith, length-take (i - begin) (drop begin buf), length-drop begin buf))
    ]

new_parallel-IsPositive :
    (parallel : ℕ) (arg : ℤ)
    → IsInt arg
    → IsPositive parallel
    → IsPositive (new_parallel parallel arg)
unfolding new_parallel
new_parallel-IsPositive parallel (pos n) fits v = ground arith
new_parallel-IsPositive parallel (negsuc n) fits v = v

parse_command-Safe :
    (buf : Bytes) (key : ℤ) (parallel : ℕ)
    → IsPositive parallel
    → Safe (Parsed (length buf)) (parse_command buf key parallel)
unfolding parse_command
parse_command-Safe buf key parallel v =
    either-Safe _ _ _
      (Safe->>= (atoi (copy_up_to_semicolon buf (copy_up_to_semicolon buf 0).0).1)
        (atoi-Safe (copy_up_to_semicolon buf (copy_up_to_semicolon buf 0).0).1)
        (λ arg fits. gives (tt, new_parallel-IsPositive parallel arg fits v)))
      (either-Safe _ _ _ (gives (tt, v)) (gives (tt, v)))

length-copy_args : (n : ℕ) (buf : Bytes) (p : ℕ) → length (copy_args n buf p) ≡ n
unfolding copy_args
length-copy_args zero buf p = refl
length-copy_args (suc n) buf p = ap suc (length-copy_args n buf (copy_up_to_semicolon buf p).0)

parse_run-Safe :
    (buf : Bytes) (key : ℤ) (numargs p : ℕ) (runstdin : Bool)
    → Safe (λ r. HasShort (length buf) (some r)) (parse_run buf key numargs p runstdin)
unfolding parse_run
parse_run-Safe buf key numargs p runstdin =
    let (p1, id) = copy_up_to_semicolon buf p in
    let (p2, limit) = copy_up_to_semicolon buf p1 in
    Safe->>= (atoi limit) (atoi-Safe limit) (λ timeout e.
      let (p3, memory) = copy_up_to_semicolon buf p2 in
      Safe->>= (atoi memory) (atoi-Safe memory) (λ memlimit e.
        gives (
          length-copied buf p,
          sym (length-copy_args numargs buf (copy_up_to_semicolon buf p3).0),
        )))

pub parse_request-Safe :
    (buf : Bytes) (key : ℤ) (parallel : ℕ)
    → IsPositive parallel
    → Safe (Parsed (length buf)) (parse_request buf key parallel)
unfolding parse_request
parse_request-Safe buf key parallel v =
    let semic = count_semicolons buf in
    let (p, word) = copy_up_to_semicolon buf 0 in
    either-Safe (semic == 0) _ _ (gives (tt, v)) (
      either-Safe (semic == 1) _ _ (parse_command-Safe buf key parallel v) (
        either-Safe (ltb semic 4) _ _ (gives (tt, v)) (
          either-Safe (strn_eq word (codes "run") p) _ _
            (Safe->>= (parse_run buf key (semic - 4) p false)
              (parse_run-Safe buf key (semic - 4) p false) (λ r short. gives (short, v)))
            (either-Safe (strn_eq word (codes "runstdin") p) _ _
              (Safe->>= (parse_run buf key (semic - 4) p true)
                (parse_run-Safe buf key (semic - 4) p true) (λ r short. gives (short, v)))
              (gives (tt, v))))))
