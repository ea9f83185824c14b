-- ===== src/Server/Exits.antt =====
-- The end of processes: `send_msg_to_client` and `handle_child_events` of src/server/server-unix.c.
use why3_fork.Base.{
  ℕ, suc, ◌+◌, ◌≤◌, ◌<◌, ◌^◌, ◌≡◌, refl, Bool, true, false, some, List, [], ◌∷◌, ◌++◌, arith,
  length, length-append, ok, int_limit, ltb,
}
use why3_fork.ArrayList.Entries.{Entry, lookup, remove, length-remove-le}
use why3_fork.ArrayList.Holds as lists
use why3_fork.ArrayList.Holds.{list_lookup_lem}
use why3_fork.ArrayList.Remove.{list_remove_lem}
use why3_fork.CString.{codes}
use why3_fork.CString.Decimal.{print_decimal, length-print_decimal}
use why3_fork.PollList.{PollFd}
use why3_fork.PollList.Entries as polls
use why3_fork.Request.{Bytes, RunRequest}
use why3_fork.Server.State.{Server, Proc}
use why3_fork.Server.Messages.{c_string, finished_text, send_msg_to_client}
use why3_fork.Server.Jobs.{
  Status, signaled, exited, other_status, Exit, exit_code, is_timeout, handle_exit,
}
use why3_fork.Server.Invariant.{Inv, IsAlive, Answered, Told, queue_write_lem, length-c_string-le}

length-text :
    (a b c : Bytes) (t : ℕ) (d : Bytes)
    → length (codes "F;" ++ (a ++ b';' ∷ (b ++ b';' ∷ (c ++ b';' ∷ t ∷ b';' ∷ (d ++ b'\n' ∷ [])))))
      ≡ length a + length b + length c + length d + 8
length-text a b c t d =
    let end = b';' ∷ t ∷ b';' ∷ (d ++ b'\n' ∷ []) in
    omega (
      arith,
      length-append a (b';' ∷ (b ++ b';' ∷ (c ++ end))),
      length-append b (b';' ∷ (c ++ end)),
      length-append c end,
      length-append d (b'\n' ∷ []),
    )

length-finished_text :
    (id : Bytes) (code : ℕ) (cpu_time : Bytes) (timeout : Bool) (outfile : Bytes)
    → length (finished_text id code cpu_time timeout outfile)
      ≡ length (c_string id)
        + length (print_decimal code)
        + length cpu_time
        + length (c_string outfile)
        + 8
length-finished_text id code cpu_time true outfile =
    length-text (c_string id) (print_decimal code) cpu_time b'1' (c_string outfile)
length-finished_text id code cpu_time false outfile =
    length-text (c_string id) (print_decimal code) cpu_time b'0' (c_string outfile)

-- For a client that is there, `send_msg_to_client` returns: the message fits in the length that
-- the code computes, and waits behind the earlier ones of the client. The identifier and the
-- file name are shorter than 2^29, the exit code is below 1000, the text of the time has at
-- most 15 bytes, and a client has at most 2^30 messages.
pub send_msg_lem :
    (n : ℕ) (s : Server) (ptr : ℕ) (id : Bytes) (code : ℕ) (cpu_time : Bytes) (timeout : Bool)
    (outfile : Bytes) (es : List PollFd)
    → IsAlive n s.heap ptr
    → polls.Holds s.polls es
    → length id < 2 ^ 29
    → length outfile < 2 ^ 29
    → code < 1000
    → length cpu_time ≤ 15
    → n ≤ 2 ^ 30
    → Answered n s ptr
        (finished_text id code cpu_time timeout outfile)
        (send_msg_to_client s ptr id code cpu_time timeout outfile)
unfolding send_msg_to_client
send_msg_lem n s ptr id code cpu_time timeout outfile es a w h k digits time m =
    let text = finished_text id code cpu_time timeout outfile in
    let size = length-finished_text id code cpu_time timeout outfile in
    let small : length text < int_limit = omega (
      arith,
      size,
      length-print_decimal code digits,
      length-c_string-le id,
      length-c_string-le outfile,
    ) in
    let test : ltb (length text) (length (c_string id) + 3 + 23 + (length (c_string outfile) + 1))
        ≡ true =
      ground (arith, size, length-print_decimal code digits) in
    rw test (queue_write_lem n s ptr text es a w small m)

-- What a message says of the end of a process: its code, and the field timeout.
pub data Says : Status → ℕ → Bool → Type 0 where
  by_signal : (n : ℕ) → Says (signaled n) n true
  with_code : (n : ℕ) → Says (exited n) n false
  neither : Says other_status 1 false

Says-exit_code : (status : Status) → Says status (exit_code status) (is_timeout status)
Says-exit_code (signaled n) = by_signal n
Says-exit_code (exited n) = with_code n
Says-exit_code other_status = neither

-- An exit that is reported: the process is taken off the list, and the message waits for the client.
pub record Reported (n : ℕ) (rs : List RunRequest) (s : Server) (e : Exit) (child : Proc) (ptr : ℕ)
    (ps : List (Entry Proc)) : Type 0 where
  pub after : Server
  pub runs : handle_exit s e ≡ ok after
  pub inv : Inv (suc n) rs after
  pub processes : lists.Holds after.processes (remove e.pid ps)
  pub code : ℕ
  pub timeout : Bool
  pub says : Says e.status code timeout
  pub told :
      Told s.heap after.heap ptr (finished_text child.task_id code e.cpu_time timeout child.outfile)
  pub clients : after.clients ≡ s.clients
  pub queue : after.queue ≡ s.queue
  pub parallel : after.parallel ≡ s.parallel

-- In a good state, a round of `handle_child_events` for a process in the list whose client is
-- there returns, in a good state: the process is taken off the list, and its message waits for
-- the client, with the signal or the exit code of the process, and with 1 in the field timeout for
-- every end by a signal, a crash too, and 0 for an exit, or the code 1 and 0 where it is neither; the
-- queue, the clients and the limit stay. The identifier and the file name are
-- shorter than 2^29, the exit code is below 1000, the text of the time has at most 15 bytes,
-- and there are fewer than 2^30 processes and messages of a client.
pub handle_exit-Reported :
    (n : ℕ) (rs : List RunRequest) (s : Server) (e : Exit) (child : Proc) (ptr : ℕ) (v : Inv n rs s)
    → lookup e.pid v.ps ≡ some child
    → lookup child.client_key v.cs ≡ some ptr
    → length child.task_id < 2 ^ 29
    → length child.outfile < 2 ^ 29
    → exit_code e.status < 1000
    → length e.cpu_time ≤ 15
    → n < 2 ^ 30
    → Reported n rs s e child ptr v.ps
unfolding handle_exit
handle_exit-Reported n rs s e child ptr v found here h k digits time m =
    let (l, run, w) = list_remove_lem v.ps e.pid v.processes in
    let s1 = record s { processes = l } in
    let a =
      send_msg_lem n s1 ptr child.task_id (exit_code e.status) e.cpu_time (is_timeout e.status)
        child.outfile v.es (v.alive child.client_key ptr here) v.polls h k digits time
        (omega arith) in
    record {
      after = record s1 { heap = a.heap; polls = a.list };
      runs =
          rw
            (
              list_lookup_lem v.ps e.pid v.processes,
              found,
              run,
              list_lookup_lem v.cs child.client_key v.clients,
              here,
            )
            a.runs;
      inv = record {
        cs = v.cs;
        clients = v.clients;
        alive = λ key q f. a.alive q (v.alive key q f);
        ps = remove e.pid v.ps;
        processes = w;
        few_processes = omega (arith, v.few_processes, length-remove-le e.pid v.ps);
        queue = v.queue;
        short = v.short;
        es = a.es;
        polls = a.polls;
      };
      processes = w;
      code = exit_code e.status;
      timeout = is_timeout e.status;
      says = Says-exit_code e.status;
      told = a.told;
      clients = refl;
      queue = refl;
      parallel = refl;
    }
