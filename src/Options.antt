-- ===== src/Options.antt =====
-- src/server/options.c: the command line. What `getopt_long` returns, one call after another until
-- -1, and the value of `optind` at its end are arguments; `strtol` is a parameter, with the value
-- that it returns and whether it sets `errno` to EINVAL.
pub mod Valid
use why3_fork.Base.{
  ℕ, ◌-◌, ◌%◌, ◌^◌, Bool, true, false, not, Option, none, some, List, [], ◌∷◌, Result, ok, err,
  exit, guard, ◌>>=◌, ◌>>◌, ◌==◌, ltb, if◌then◌else◌,
}
use why3_fork.Base.Int.{ℤ, pos, negsuc}

abbrev pub Bytes : Type 0
Bytes = List ℕ

-- The globals; `parallel` is an `int`.
pub record Options : Type 0 where
  pub parallel : ℤ
  pub socketname : Option Bytes
  pub logging : Bool
  pub single_client : Bool

abbrev pub initial : Options
initial = record { parallel = pos 1; socketname = none; logging = false; single_client = false }

-- The conversion of a `long` to `int`, modulo 2^32.
unfoldable pub to_int : ℤ → ℤ
to_int (pos n) = let m = n % 2 ^ 32 in if ltb m (2 ^ 31) then pos m else negsuc (2 ^ 32 - 1 - m)
to_int (negsuc n) = let m = n % 2 ^ 32 in if ltb m (2 ^ 31) then negsuc m else pos (2 ^ 32 - 1 - m)

abbrev pub is_positive : ℤ → Bool
is_positive (pos n) = ltb 0 n
is_positive (negsuc n) = false

-- What `getopt_long` returns before -1, with `optarg` where the option has an argument.
pub record Opt : Type 0 where
  pub code : ℕ
  pub optarg : Bytes

abbrev pub has_socket : Option Bytes → Bool
has_socket none = false
has_socket (some name) = true

module _ (strtol : Bytes → ℤ × Bool) where
  unfoldable pub set_parallel : Options → Bytes → Result Options
  set_parallel o optarg = do
    let (value, einval) = strtol optarg
    guard (not einval) (exit 1)
    guard (is_positive (to_int value)) (exit 1)
    ok (record o { parallel = to_int value })

  -- The `switch` of `parse_options`.
  unfoldable pub parse_option : Options → Opt → Result Options
  unfolding set_parallel
  parse_option o opt =
      let given = set_parallel o opt.optarg in
      if opt.code == b'i'
      then ok (record o { single_client = true })
      else if opt.code == b'j'
      then given
      else if opt.code == b'l'
      then ok (record o { logging = true })
      else if opt.code == b's'
      then ok (record o { socketname = some opt.optarg })
      else err (exit 1)

  -- The loop.
  unfoldable pub parse_each : Options → List Opt → Result Options
  parse_each o [] = ok o
  parse_each o (opt ∷ opts) = do o' ← parse_option o opt; parse_each o' opts

  unfoldable pub parse_options : ℕ → List Opt → ℕ → Result Options
  parse_options argc opts optind = do
    o ← parse_each initial opts
    guard (not (ltb optind argc)) (exit 1)
    guard (has_socket o.socketname) (exit 1)
    ok o
