-- ===== src/Request/Parse.antt =====
-- `parse_request` against a description by the fields of the line.
use why3_fork.Base.{
  ℕ, ◌+◌, ◌-◌, ◌≡◌, refl, ap, Bool, true, false, Option, none, some, List, [], ◌∷◌, arith, length,
  Result, ok, ◌>>=◌, if◌then◌else◌, ◌==◌, ltb,
}
use why3_fork.Base.Int.{ℤ}
use why3_fork.CString.{codes, str_eq, strn_eq, atoi, to_u32}
use why3_fork.CString.Equal.{strn_eq-length}
use why3_fork.Request.{
  Bytes, Request, run, interrupt, copy_up_to_semicolon, copy_args, new_parallel, parse_run,
  parse_request, count_semicolons,
}
use why3_fork.Request.Fields.{
  fields, first_field, later_fields, count_semicolons-fields, At, start-At, copy-At, copy-At_last,
}

module _ (key : ℤ) (parallel : ℕ) where
  -- A run request from the fields behind the command word.
  unfoldable pub run_of_fields :
      Bool → Bytes → Bytes → Bytes → Bytes → List Bytes → Result (Option Request × ℕ)
  run_of_fields runstdin id limit memory cmd args = do
    timeout ← atoi limit
    memlimit ← atoi memory
    ok (
      some (
          run (record {
            key = key;
            id = id;
            timeout = timeout;
            memlimit = to_u32 memlimit;
            usestdin = runstdin;
            cmd = cmd;
            numargs = length args;
            args = args;
          })),
      parallel,
    )

  -- What the protocol says of a line with these fields.
  unfoldable pub request_of_fields : List Bytes → Result (Option Request × ℕ)
  unfolding run_of_fields
  request_of_fields (word ∷ arg ∷ []) =
      if str_eq word (codes "parallel")
      then (do n ← atoi arg; ok (none, new_parallel parallel n))
      else if str_eq word (codes "interrupt")
      then ok (some (interrupt key arg), parallel)
      else ok (none, parallel)
  request_of_fields (word ∷ id ∷ limit ∷ memory ∷ cmd ∷ args) =
      if str_eq word (codes "run")
      then run_of_fields false id limit memory cmd args
      else if str_eq word (codes "runstdin")
      then run_of_fields true id limit memory cmd args
      else ok (none, parallel)
  request_of_fields _ = ok (none, parallel)

copy_args_lem :
    {buf : Bytes} (p : ℕ) (a : Bytes) (args : List Bytes)
    → At buf p (a ∷ args)
    → copy_args (length (a ∷ args)) buf p ≡ a ∷ args
unfolding copy_args
copy_args_lem {buf} p a [] v = rw (copy-At_last a v)
copy_args_lem {buf} p a (b ∷ args) v =
    let (e, w) = copy-At a b args v in rw e (ap (◌∷◌ a) (copy_args_lem (p + length a + 1) b args w))

-- The last of the fixed fields, and the arguments behind it.
copy_cmd :
    {buf : Bytes} (p : ℕ) (cmd : Bytes) (args : List Bytes)
    → At buf p (cmd ∷ args)
    → (p' : ℕ) × (copy_up_to_semicolon buf p ≡ (p', cmd)) × (copy_args (length args) buf p' ≡ args)
unfolding copy_args
copy_cmd p cmd [] v = (0, copy-At_last cmd v, refl)
copy_cmd p cmd (a ∷ args) v = let (e, w) = copy-At cmd a args v in (_, e, copy_args_lem _ a args w)

parse_run_lem :
    {buf : Bytes} (key : ℤ) (parallel p : ℕ) (stdin : Bool) (id limit memory cmd : Bytes)
    (args : List Bytes)
    → At buf p (id ∷ limit ∷ memory ∷ cmd ∷ args)
    → (do r ← parse_run buf key (length args) p stdin; ok (some r, parallel))
      ≡ run_of_fields key parallel stdin id limit memory cmd args
unfolding parse_run run_of_fields
parse_run_lem {buf} key parallel p stdin id limit memory cmd args v =
    let (e1, v1) = copy-At id limit (memory ∷ cmd ∷ args) v in
    let (e2, v2) = copy-At limit memory (cmd ∷ args) v1 in
    let (e3, v3) = copy-At memory cmd args v2 in
    let (p4, e4, rest) = copy_cmd _ cmd args v3 in simp (e1, e2, e3, e4, rest) (ground arith)

-- The comparison of the first field with a command word is one of the whole field.
first-word :
    {buf : Bytes} (word g : Bytes) (gs : List Bytes) (s : Bytes)
    → At buf 0 (word ∷ g ∷ gs)
    → strn_eq word s (0 + length word + 1) ≡ str_eq word s
first-word word g gs s v = strn_eq-length word s (0 + length word + 1) (omega arith)

parse_by_count :
    (buf : Bytes) (key : ℤ) (parallel : ℕ) (word : Bytes) (others : List Bytes)
    → At buf 0 (word ∷ others)
    → count_semicolons buf ≡ length others
    → parse_request buf key parallel ≡ request_of_fields key parallel (word ∷ others)
unfolding parse_request request_of_fields
parse_by_count buf key parallel word [] v n = rw n
parse_by_count buf key parallel word (arg ∷ []) v n =
    let (e, w) = copy-At word arg [] v in
    simp
      (
        n,
        e,
        first-word word arg [] (codes "parallel") v,
        first-word word arg [] (codes "interrupt") v,
        copy-At_last arg w,
      )
      (ground arith)
parse_by_count buf key parallel word (a ∷ b ∷ []) v n = rw n
parse_by_count buf key parallel word (a ∷ b ∷ c ∷ []) v n = rw n
parse_by_count buf key parallel word (id ∷ limit ∷ memory ∷ cmd ∷ args) v n =
    let (e, w) = copy-At word id (limit ∷ memory ∷ cmd ∷ args) v in
    let c = count_semicolons buf in
    let n0 : (c == 0) ≡ false = ground arith in
    let n1 : (c == 1) ≡ false = ground arith in
    let n4 : ltb c 4 ≡ false = ground arith in
    let n5 : c - 4 ≡ length args = omega arith in
    simp (
      n0,
      n1,
      n4,
      n5,
      e,
      first-word word id (limit ∷ memory ∷ cmd ∷ args) (codes "run") v,
      first-word word id (limit ∷ memory ∷ cmd ∷ args) (codes "runstdin") v,
      parse_run_lem key parallel _ false id limit memory cmd args w,
      parse_run_lem key parallel _ true id limit memory cmd args w,
    )

-- For every line, what `parse_request` returns and the new value of `parallel` are those that
-- the protocol gives for the fields of the line: the number of fields and the first one decide
-- the command, and each field goes where the protocol says.
pub parse_request_lem :
    (buf : Bytes) (key : ℤ) (parallel : ℕ)
    → parse_request buf key parallel ≡ request_of_fields key parallel (fields buf)
parse_request_lem buf key parallel =
    parse_by_count buf key parallel (first_field buf) (later_fields buf) (start-At buf)
      (count_semicolons-fields buf)
