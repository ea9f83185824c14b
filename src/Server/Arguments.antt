-- ===== src/Server/Arguments.antt =====
-- What the child of a request runs: its arguments, its input and its limits.
use why3_fork.Base.{
  ℕ, zero, suc, ◌+◌, ◌-◌, ◌*◌, ◌≡◌, refl, ap, sym, ◌∙◌, Bool, true, false, Option, none, some, List,
  [], ◌∷◌, ◌++◌, append_assoc, arith, length, length-append, length-replicate, map, replicate, take,
  length-take, get_elem?-take, get_elem?, get_elem?-append_right, get_elem?-append_left,
  get_elem?-lt, set, ok, err, out_of_bounds, ltb, ◌||◌, if◌then◌else◌, store, load_lem, store_lem,
}
use why3_fork.Request.{Bytes, RunRequest}
use why3_fork.Server.Exec.{
  Child, count_plus_one, copy_argv, make_argv, load_count, stdin_of, create_process, positive,
  is_set,
}

set-append {ℓ} :
    {A : Type ℓ} (xs : List A) (x y : A) (ys : List A)
    → set (xs ++ x ∷ ys) (length xs) y ≡ xs ++ y ∷ ys
set-append [] x y ys = refl
set-append (z ∷ xs) x y ys = ap (◌∷◌ z) (set-append xs x y ys)

-- A write to the cell behind those of `xs`.
store-append {ℓ} :
    {A : Type ℓ} (xs : List (Option A)) (x : Option A) (a : A) (ys : List (Option A)) (i : ℕ)
    → i ≡ length xs
    → store (xs ++ x ∷ ys) i a ≡ ok (xs ++ some a ∷ ys)
store-append xs x a ys i e = rw e (
    store_lem (xs ++ x ∷ ys) (length xs) a (omega (arith, length-append xs (x ∷ ys)))
    ∙ ap ok (set-append xs x (some a) ys))

get_elem?-map {ℓ} :
    {A : Type ℓ} (xs : List A) (i : ℕ) (a : A)
    → get_elem? xs i ≡ some a
    → get_elem? (map (λ x. some x) xs) i ≡ some (some a)
get_elem?-map [] i a e = cc
get_elem?-map (x ∷ xs) zero a e = ap some e
get_elem?-map (x ∷ xs) (suc i) a e = get_elem?-map xs i a e

-- Standard input without arguments: NULL is written over the command.
make_argv-none : (cmd : Bytes) → make_argv cmd 0 [] true ≡ ok (some none ∷ [])
unfolding make_argv copy_argv store
make_argv-none cmd = refl

-- The cells of an argument vector: the strings, and NULL at the end.
abbrev pub vector : List Bytes → List (Option (Option Bytes))
vector [] = some none ∷ []
vector (a ∷ args) = some (some a) ∷ vector args

copy_argv_lem :
    (argv : List (Option Bytes)) (args : List Bytes) (i : ℕ) (done : List (Option (Option Bytes)))
    → length done ≡ i + 1
    → ((j : ℕ) (a : Bytes) → get_elem? args j ≡ some a → get_elem? argv (i + j) ≡ some (some a))
    → copy_argv argv (length args) i (done ++ (replicate (length args) none ++ some none ∷ []))
      ≡ ok (done ++ vector args)
unfolding copy_argv
copy_argv_lem argv [] i done e h = refl
copy_argv_lem argv (a ∷ args) i done e h =
    let cell : Option (Option Bytes) = some (some a) in
    let rest : List (Option (Option Bytes)) = replicate (length args) none ++ some none ∷ [] in
    rw
      (
        load_lem argv i (ap (get_elem? argv) (omega arith) ∙ h 0 a refl),
        store-append done none (some a) rest (i + 1) (sym e),
        sym (append_assoc done (cell ∷ []) rest),
        sym (append_assoc done (cell ∷ []) (vector args)),
      )
      (copy_argv_lem argv args (i + 1) (done ++ cell ∷ [])
        (omega (arith, e, length-append done (cell ∷ [])))
        (λ j b q. ap (get_elem? argv) (omega arith) ∙ h (suc j) b q))

replicate-snoc {ℓ} : {A : Type ℓ} (x : A) (n : ℕ) → replicate (n + 1) x ≡ replicate n x ++ x ∷ []
replicate-snoc x zero = refl
replicate-snoc x (suc n) =
    let e : suc n + 1 ≡ suc (n + 1) = omega arith in rw e (ap (◌∷◌ x) (replicate-snoc x n))

-- A vector of the first `length args` strings of `argv`.
make_argv_lem :
    (cmd : Bytes) (argc : ℕ) (argv : List (Option Bytes)) (usestdin : Bool) (args : List Bytes)
    → count_plus_one argc usestdin ≡ suc (length args)
    → ((j : ℕ) (a : Bytes) → get_elem? args j ≡ some a → get_elem? argv j ≡ some (some a))
    → make_argv cmd argc argv usestdin ≡ ok (some (some cmd) ∷ vector args)
unfolding make_argv
make_argv_lem cmd argc argv usestdin args e h =
    let n = length args in
    let first : List (Option (Option Bytes)) = some (some cmd) ∷ replicate n none in
    let size : suc n ≡ length first = ap suc (sym (length-replicate n none)) in
    let last : suc n - 1 ≡ n = omega arith in
    rw
      (
        e,
        replicate-snoc (let c : Option (Option Bytes) = none in c) (suc n),
        store-append [] none (some cmd) (replicate n none ++ none ∷ []) 0 refl,
        store-append first none none [] (suc n) size,
        last,
      )
      (copy_argv_lem argv args 0 (some (some cmd) ∷ []) refl
        (λ j a q. ap (get_elem? argv) (omega arith) ∙ h j a q))

-- A request with as many arguments as it says.
abbrev pub HasArgs : RunRequest → Type 0
HasArgs r = r.numargs ≡ length r.args

-- The vector of arguments is made inside its memory, with or without arguments.
pub make_argv-total :
    (r : RunRequest)
    → HasArgs r
    → (v : List (Option (Option Bytes))) × (make_argv r.cmd r.numargs
          (map (λ a. some a) r.args)
          r.usestdin
        ≡ ok v)
make_argv-total r n = vector_for r.usestdin r.args r.numargs n
  where
    vector_for :
        (stdin : Bool) (args : List Bytes) (numargs : ℕ)
        → numargs ≡ length args
        → (v : List (Option (Option Bytes))) × (make_argv r.cmd numargs
              (map (λ a. some a) args)
              stdin
            ≡ ok v)
    vector_for false args numargs n = (
      _,
      make_argv_lem r.cmd numargs (map (λ a. some a) args) false args (omega (arith, n))
          (get_elem?-map args),
    )
    vector_for true [] numargs n = (some none ∷ [], rw n (make_argv-none r.cmd))
    vector_for true (a ∷ args) numargs n =
        let k = length args in
        let front = take k (a ∷ args) in
        let size : length front ≡ k = length-take k (a ∷ args) ∙ omega arith in
        (
          _,
          make_argv_lem r.cmd numargs (map (λ a. some a) (a ∷ args)) true front
              (omega (arith, n, size))
              (λ j b e. get_elem?-map (a ∷ args) j b (
                sym (get_elem?-take k (a ∷ args) j (omega (arith, get_elem?-lt front j e, size)))
                ∙ e)),
        )

-- What the child is, for this input and these arguments behind the command.
abbrev pub child_with : RunRequest → Option Bytes → List Bytes → Child
child_with r stdin args = record {
  cpu_seconds = positive r.timeout;
  memory_bytes = if ltb 0 r.memlimit then some (r.memlimit * 1024 * 1024) else none;
  no_core = is_set (positive r.timeout) || ltb 0 r.memlimit;
  stdin = stdin;
  cmd = r.cmd;
  unix_argv = some (some r.cmd) ∷ vector args;
}

-- The child of a `run` request gets the command and all the arguments, closed by NULL, and the
-- limits of the request. `numargs` is the number of arguments.
pub create_process-run :
    (r : RunRequest)
    → r.usestdin ≡ false
    → r.numargs ≡ length r.args
    → create_process r ≡ ok (child_with r none r.args)
unfolding create_process stdin_of
create_process-run r plain n =
    rw
      (
        make_argv_lem r.cmd r.numargs (map (λ a. some a) r.args) r.usestdin r.args
            (rw plain (omega (arith, n))) (λ j a e. get_elem?-map r.args j a e),
        plain,
      )
      refl

-- The child of a `runstdin` request with arguments reads the file that the last one names, and
-- gets the command and the arguments before it, closed by NULL, and the limits of the request.
-- `numargs` is the number of arguments.
pub create_process-runstdin :
    (r : RunRequest) (args : List Bytes) (file : Bytes)
    → r.usestdin ≡ true
    → r.args ≡ args ++ file ∷ []
    → r.numargs ≡ length r.args
    → create_process r ≡ ok (child_with r (some file) args)
unfolding create_process stdin_of load_count
create_process-runstdin r args file stdin e n =
    let argc : r.numargs ≡ suc (length args) =
      n ∙ ap length e ∙ omega (arith, length-append args (file ∷ [])) in
    let at : get_elem? r.args (length args) ≡ some file =
      rw e (get_elem?-append_right args (file ∷ []) (length args) 0 (omega arith)) in
    rw
      (
        make_argv_lem r.cmd r.numargs (map (λ a. some a) r.args) r.usestdin args (rw stdin argc)
            (λ j a q.
              get_elem?-map r.args j a
                (rw e (get_elem?-append_left args (file ∷ []) j (get_elem?-lt args j q) ∙ q))),
        stdin,
        argc,
        load_lem (map (λ a. some a) r.args) (length args)
            (get_elem?-map r.args (length args) file at),
      )
      refl

-- The child of a `runstdin` request without arguments reads `argv[-1]`, which is out of bounds.
pub create_process-no_args :
    (r : RunRequest)
    → r.usestdin ≡ true
    → r.args ≡ []
    → r.numargs ≡ length r.args
    → create_process r ≡ err out_of_bounds
unfolding create_process make_argv copy_argv stdin_of load_count store
create_process-no_args r stdin e n =
    let argc : r.numargs ≡ 0 = n ∙ ap length e in rw (stdin, argc) refl
