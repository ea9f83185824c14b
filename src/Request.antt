-- ===== src/Request.antt =====
-- src/server/request.c: the requests of clients. A line is the list of its bytes, without the
-- newline. `request` is two types, one for each `req_type`, since an interrupt sets `key` and `id`
-- alone.
pub mod Fields
pub mod Parse
pub mod Print
pub mod Cancel
pub mod Parallel
pub mod Safety
use why3_fork.Base.{
  ℕ, zero, suc, ◌+◌, ◌-◌, Bool, true, false, not, Option, none, some, List, [], ◌∷◌, map, drop,
  take, length, Result, ok, ◌>>=◌, ◌>>◌, ◌==◌, ltb, leb, if◌then◌else◌,
}
use why3_fork.Base.Int.{ℤ, pos, negsuc}
use why3_fork.CString.{codes, strn_eq, str_eq, atoi, to_u32}
use why3_fork.Queue.{
  Queue, init_queue, queue_is_empty, queue_pop, queue_push, free_queue, queue_length,
}

abbrev pub Bytes : Type 0
Bytes = List ℕ

-- REQ_RUN. `numargs` is the length of `args`.
pub record RunRequest : Type 0 where
  pub key : ℤ
  pub id : Bytes
  pub timeout : ℤ
  pub memlimit : ℕ
  pub usestdin : Bool
  pub cmd : Bytes
  pub numargs : ℕ
  pub args : List Bytes

pub data Request : Type 0 where
  run : RunRequest → Request
  interrupt : ℤ → Bytes → Request

-- The loop of `count_semicolons`, with its counter.
unfoldable pub count_from : ℕ → Bytes → ℕ
count_from cnt [] = cnt
count_from cnt (c ∷ cs) = count_from (if c == b';' then cnt + 1 else cnt) cs

unfoldable pub count_semicolons : Bytes → ℕ
unfolding count_from
count_semicolons buf = count_from 0 buf

-- The loop of `copy_up_to_semicolon`: the index at which it stops, on the bytes from `i` on.
unfoldable pub scan : ℕ → Bytes → ℕ
scan i [] = i
scan i (c ∷ cs) = if c == b';' then i else scan (i + 1) cs

-- The index that is returned, and `*result`.
unfoldable pub copy_up_to_semicolon : Bytes → ℕ → ℕ × Bytes
unfolding scan
copy_up_to_semicolon buf begin =
    let i = scan begin (drop begin buf) in
    let result = take (i - begin) (drop begin buf) in
    if i == length buf then (0, result) else (i + 1, result)

-- The loop over `req->args`.
unfoldable pub copy_args : ℕ → Bytes → ℕ → List Bytes
copy_args zero buf p = []
copy_args (suc n) buf p = let (p', a) = copy_up_to_semicolon buf p in a ∷ copy_args n buf p'

-- `if (parallel_arg >= 1) parallel = parallel_arg`
unfoldable pub new_parallel : ℕ → ℤ → ℕ
new_parallel parallel (pos n) = if leb 1 n then n else parallel
new_parallel parallel (negsuc n) = parallel

-- The branch of one semicolon: a `parallel` or an `interrupt` command. What is returned stands
-- beside the new value of the global `parallel`.
unfoldable pub parse_command : Bytes → ℤ → ℕ → Result (Option Request × ℕ)
parse_command buf key parallel = do
  let (p, word) = copy_up_to_semicolon buf 0
  if strn_eq word (codes "parallel") p
      then (do
        let (_, num) = copy_up_to_semicolon buf p
        arg ← atoi num
        ok (none, new_parallel parallel arg))
      else if strn_eq word (codes "interrupt") p
      then (do let (_, id) = copy_up_to_semicolon buf p; ok (some (interrupt key id), parallel))
      else ok (none, parallel)

-- The fields behind the first one of a `run` or `runstdin` command.
unfoldable pub parse_run : Bytes → ℤ → ℕ → ℕ → Bool → Result Request
parse_run buf key numargs p runstdin = do
  let (p1, id) = copy_up_to_semicolon buf p
  let (p2, limit) = copy_up_to_semicolon buf p1
  timeout ← atoi limit
  let (p3, memory) = copy_up_to_semicolon buf p2
  memlimit ← atoi memory
  let (p4, cmd) = copy_up_to_semicolon buf p3
  ok (
      run (record {
        key = key;
        id = id;
        timeout = timeout;
        memlimit = to_u32 memlimit;
        usestdin = runstdin;
        cmd = cmd;
        numargs = numargs;
        args = copy_args numargs buf p4;
      }))

unfoldable pub parse_request : Bytes → ℤ → ℕ → Result (Option Request × ℕ)
unfolding parse_command
parse_request buf key parallel =
    let semic = count_semicolons buf in
    if semic == 0
    then ok (none, parallel)
    else if semic == 1
    then parse_command buf key parallel
    else if ltb semic 4
    then ok (none, parallel)
    else (do
      let (p, word) = copy_up_to_semicolon buf 0
      if strn_eq word (codes "run") p
          then (do r ← parse_run buf key (semic - 4) p false; ok (some r, parallel))
          else if strn_eq word (codes "runstdin") p
          then (do r ← parse_run buf key (semic - 4) p true; ok (some r, parallel))
          else ok (none, parallel))

-- The first loop of `remove_from_queue`, with the number of rounds allowed; `queue` and `tmp`.
unfoldable pub keep_others :
    ℕ → Bytes → Queue RunRequest → Queue RunRequest → Result (Queue RunRequest × Queue RunRequest)
keep_others zero id queue tmp = ok (queue, tmp)
keep_others (suc fuel) id queue tmp =
    let rest = do
      (r, queue') ← queue_pop queue
      tmp' ← if not (str_eq r.id id) then queue_push tmp r else ok tmp
      keep_others fuel id queue' tmp'
    in if queue_is_empty queue then ok (queue, tmp) else rest

-- The second loop, which moves what is in `tmp` to `queue`.
unfoldable pub move_back :
    ℕ → Queue RunRequest → Queue RunRequest → Result (Queue RunRequest × Queue RunRequest)
move_back zero queue tmp = ok (queue, tmp)
move_back (suc fuel) queue tmp =
    let rest = do (r, tmp') ← queue_pop tmp; queue' ← queue_push queue r; move_back fuel queue' tmp'
    in if queue_is_empty tmp then ok (queue, tmp) else rest

-- Each loop pops once a round, so the length of its queue is enough rounds. A request that is
-- dropped is not freed, which changes nothing that the model keeps.
unfoldable pub remove_from_queue : Queue RunRequest → Bytes → Result (Queue RunRequest)
remove_from_queue queue id = do
  start ← init_queue queue.capacity
  (emptied, tmp) ← keep_others (queue_length queue) id queue start
  (refilled, rest) ← move_back (queue_length tmp) emptied tmp
  free_queue rest
  ok refilled
