-- ===== src/Tests/Options.antt =====
-- src/server/options.c at a concrete command line: `-j 4 --socket s`.
use why3_fork.Base.{◌≤◌, ◌≡◌, ◌⊎◌, refl, Bool, false, some, List, [], ◌∷◌, ok, err, exit}
use why3_fork.Base.Int.{ℤ, pos}
use why3_fork.CString.{codes}
use why3_fork.Options.{
  Bytes, Options, Opt, parse_options, parse_each, parse_option, set_parallel, to_int,
}
use why3_fork.Options.Valid.{PositiveInt, parse_options_lem}

abbrev four : Bytes → ℤ × Bool
four optarg = (pos 4, false)

abbrev given : List Opt
given = record { code = b'j'; optarg = codes "4" } ∷ record { code = b's'; optarg = codes "s" } ∷ []

parse_four :
    parse_options four 5 given 5
    ≡ ok (record {
      parallel = pos 4;
      socketname = some (codes "s");
      logging = false;
      single_client = false;
    })
unfolding parse_options parse_each parse_option set_parallel to_int
parse_four = refl

parse_options_lem_example :
    (parse_options four 5 given 5 ≡ err (exit 1))
    ⊎ ((o : Options) × (name : Bytes) × (parse_options four 5 given 5 ≡ ok o)
        × PositiveInt o.parallel
        × (o.socketname ≡ some name)
        × (5 ≤ 5))
parse_options_lem_example = parse_options_lem four 5 given 5
