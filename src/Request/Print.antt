-- ===== src/Request/Print.antt =====
-- Requests written as lines of the protocol, which `parse_request` reads back.
use why3_fork.Base.{
  ℕ, ◌<◌, ◌≡◌, ◌≢◌, refl, ap, ◌∙◌, Bool, true, false, some, List, [], ◌∷◌, ◌++◌, arith, length, ok,
  if◌then◌else◌, Bool-cases, inl, inr, int_limit,
}
use why3_fork.Base.Int.{pos}
use why3_fork.CString.{codes, str_eq}
use why3_fork.CString.Decimal.{
  print_decimal, atoi-print_decimal, AllDigits, print_decimal-AllDigits,
}
use why3_fork.Request.{Bytes, RunRequest, run, parse_request}
use why3_fork.Request.Fields.{fields}
use why3_fork.Request.Parse.{parse_request_lem, request_of_fields, run_of_fields}

-- No byte is a semicolon.
abbrev pub NoSemicolon : Bytes → Type 0
NoSemicolon [] = Unit {0}
NoSemicolon (c ∷ cs) = (c ≢ b';') × NoSemicolon cs

abbrev pub AllPlain : List Bytes → Type 0
AllPlain [] = Unit {0}
AllPlain (f ∷ fs) = NoSemicolon f × AllPlain fs

-- Fields with semicolons between them.
abbrev pub join : Bytes → List Bytes → Bytes
join f [] = f
join f (g ∷ gs) = f ++ b';' ∷ join g gs

fields_of_plain : (f : Bytes) → NoSemicolon f → fields f ≡ f ∷ []
fields_of_plain [] h = refl
fields_of_plain (c ∷ cs) h = ground (arith, fields_of_plain cs h.1)

fields-append : (f rest : Bytes) → NoSemicolon f → fields (f ++ b';' ∷ rest) ≡ f ∷ fields rest
fields-append [] rest h = refl
fields-append (c ∷ cs) rest h = ground (arith, fields-append cs rest h.1)

fields-join : (f : Bytes) (fs : List Bytes) → AllPlain (f ∷ fs) → fields (join f fs) ≡ f ∷ fs
fields-join f [] h = fields_of_plain f h.0
fields-join f (g ∷ gs) h = fields-append f (join g gs) h.0 ∙ ap (◌∷◌ f) (fields-join g gs h.1)

digits-NoSemicolon : (s : Bytes) → AllDigits s → NoSemicolon s
digits-NoSemicolon [] h = tt
digits-NoSemicolon (c ∷ cs) h = (omega (arith, h.1), digits-NoSemicolon cs h.2)

-- The command word of a run request.
abbrev pub word_of : RunRequest → Bytes
word_of r = if r.usestdin then codes "runstdin" else codes "run"

word_of-NoSemicolon : (r : RunRequest) → NoSemicolon (word_of r)
word_of-NoSemicolon r = elim (Bool-cases r.usestdin) [
  | inl e ↦ rw e (omega arith)
  | inr e ↦ rw e (omega arith)
]

-- The line of a run request with the time limit `t`.
unfoldable pub print_run : RunRequest → ℕ → Bytes
print_run r t =
    join (word_of r) (r.id ∷ print_decimal t ∷ print_decimal r.memlimit ∷ r.cmd ∷ r.args)

-- What the protocol asks of a request: its texts hold no semicolon, its limits are `int`s.
pub record Printable (r : RunRequest) (t : ℕ) : Type 0 where
  pub texts : AllPlain (r.id ∷ r.cmd ∷ r.args)
  pub limit : r.timeout ≡ pos t
  pub limit_int : t < int_limit
  pub memory_int : r.memlimit < int_limit
  pub numargs : r.numargs ≡ length r.args

run_of_fields-print :
    (r : RunRequest) (t parallel : ℕ) (stdin : Bool)
    → Printable r t
    → r.usestdin ≡ stdin
    → run_of_fields r.key parallel stdin r.id
        (print_decimal t)
        (print_decimal r.memlimit)
        r.cmd
        r.args
      ≡ ok (some (run r), parallel)
unfolding run_of_fields
run_of_fields-print r t parallel stdin v e =
    rw (atoi-print_decimal t v.limit_int, atoi-print_decimal r.memlimit v.memory_int)
      (ground (arith, v.limit, v.numargs))

-- The server reads a printed run request, with or without standard input, as that request, and
-- leaves `parallel` as it is. The texts of the request hold no semicolon and its limits are
-- `int`s.
pub parse_request-print_run :
    (r : RunRequest) (t parallel : ℕ)
    → Printable r t
    → parse_request (print_run r t) r.key parallel ≡ ok (some (run r), parallel)
unfolding print_run request_of_fields str_eq
parse_request-print_run r t parallel v =
    parse_request_lem (print_run r t) r.key parallel
    ∙ ap (request_of_fields r.key parallel) (fields-join (word_of r) rest plain)
    ∙ read_back r.usestdin refl
  where
    rest : List Bytes
    rest = r.id ∷ print_decimal t ∷ print_decimal r.memlimit ∷ r.cmd ∷ r.args

    plain : AllPlain (word_of r ∷ rest)
    plain = (
      word_of-NoSemicolon r,
      (
        v.texts.0,
        (
          digits-NoSemicolon _ (print_decimal-AllDigits t),
          (digits-NoSemicolon _ (print_decimal-AllDigits r.memlimit), v.texts.1),
        ),
      ),
    )

    read_back :
        (stdin : Bool)
        → r.usestdin ≡ stdin
        → request_of_fields r.key parallel (word_of r ∷ rest) ≡ ok (some (run r), parallel)
    read_back true e = simp e (run_of_fields-print r t parallel true v e)
    read_back false e = simp e (run_of_fields-print r t parallel false v e)
