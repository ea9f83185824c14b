-- ===== src/Options/Valid.antt =====
-- The values that `parse_options` leaves in the globals.
use why3_fork.Base.{
  ℕ, ◌<◌, ◌≤◌, ◌^◌, ◌≡◌, ◌⊎◌, refl, Bool, true, Option, none, some, List, [], ◌∷◌, arith, Result,
  ok, err, exit, inl, inr, ◌==◌, ltb, Bool-cases,
}
use why3_fork.Base.Int.{ℤ, pos, negsuc}
use why3_fork.Options.{
  Bytes, Options, Opt, has_socket, initial, to_int, is_positive, set_parallel, parse_option,
  parse_each, parse_options,
}

-- A positive `int`.
abbrev pub PositiveInt : ℤ → Type 0
PositiveInt z = (n : ℕ) × (z ≡ pos n) × (0 < n) × (n < 2 ^ 31)

is_positive-pos : (z : ℤ) → is_positive z ≡ true → (n : ℕ) × (z ≡ pos n) × (0 < n)
is_positive-pos (pos n) h = (n, refl, ground arith)
is_positive-pos (negsuc n) h = cc

to_int-lt : (z : ℤ) (n : ℕ) → to_int z ≡ pos n → n < 2 ^ 31
unfolding to_int
to_int-lt (pos m) n e = ground arith
to_int-lt (negsuc m) n e = ground arith

to_int-PositiveInt : (z : ℤ) → is_positive (to_int z) ≡ true → PositiveInt (to_int z)
to_int-PositiveInt z h = let (n, e, p) = is_positive-pos (to_int z) h in (n, e, p, to_int-lt z n e)

has_socket-some : (o : Option Bytes) → has_socket o ≡ true → (name : Bytes) × (o ≡ some name)
has_socket-some none h = cc
has_socket-some (some name) h = (name, refl)

-- A step keeps the number positive, or ends the program.
abbrev Kept : Result Options → Type 0
Kept r = (r ≡ err (exit 1)) ⊎ ((o : Options) × (r ≡ ok o) × PositiveInt o.parallel)

module _ (strtol : Bytes → ℤ × Bool) where
  set_parallel-Kept : (o : Options) (arg : Bytes) → Kept (set_parallel strtol o arg)
  unfolding set_parallel
  set_parallel-Kept o arg = elim (Bool-cases (strtol arg).1) [
    | inl e ↦ rw e (inl refl)
    | inr e ↦ elim (Bool-cases (is_positive (to_int (strtol arg).0))) [
      | inl h ↦ rw (e, h) (inr (_, refl, to_int-PositiveInt (strtol arg).0 h))
      | inr h ↦ rw (e, h) (inl refl)
    ]
  ]

  parse_option-Kept :
      (o : Options) (opt : Opt) → PositiveInt o.parallel → Kept (parse_option strtol o opt)
  unfolding parse_option
  parse_option-Kept o opt p = elim (Bool-cases (opt.code == b'i')) [
    | inl e ↦ rw e (inr (_, refl, p))
    | inr e ↦ elim (Bool-cases (opt.code == b'j')) [
      | inl f ↦ rw (e, f) (set_parallel-Kept o opt.optarg)
      | inr f ↦ elim (Bool-cases (opt.code == b'l')) [
        | inl g ↦ rw (e, f, g) (inr (_, refl, p))
        | inr g ↦ elim (Bool-cases (opt.code == b's')) [
          | inl h ↦ rw (e, f, g, h) (inr (_, refl, p))
          | inr h ↦ rw (e, f, g, h) (inl refl)
        ]
      ]
    ]
  ]

  parse_each-Kept :
      (o : Options) (opts : List Opt) → PositiveInt o.parallel → Kept (parse_each strtol o opts)
  unfolding parse_each
  parse_each-Kept o [] p = inr (o, refl, p)
  parse_each-Kept o (opt ∷ opts) p = elim (parse_option-Kept o opt p) [
    | inl e ↦ rw e (inl refl)
    | inr (o', e, q) ↦ rw e (parse_each-Kept o' opts q)
  ]

  -- `parse_options` ends the program with code 1, or returns: then `parallel` is a positive `int`,
  -- a socket name is given, and no argument is left over.
  pub parse_options_lem :
      (argc : ℕ) (opts : List Opt) (optind : ℕ)
      → (parse_options strtol argc opts optind ≡ err (exit 1))
        ⊎ ((o : Options) × (name : Bytes) × (parse_options strtol argc opts optind ≡ ok o)
            × PositiveInt o.parallel
            × (o.socketname ≡ some name)
            × (argc ≤ optind))
  unfolding parse_options
  parse_options_lem argc opts optind =
      elim (parse_each-Kept initial opts (1, refl, omega arith, omega arith)) [
        | inl e ↦ rw e (inl refl)
        | inr (o, e, p) ↦ rw e (elim (Bool-cases (ltb optind argc)) [
          | inl more ↦ rw more (inl refl)
          | inr all ↦ rw all (elim (Bool-cases (has_socket o.socketname)) [
            | inl given ↦
                let (name, named) = has_socket-some o.socketname given in
                rw given (inr (o, name, refl, p, named, ground arith))
            | inr missing ↦ rw missing (inl refl)
          ])
        ])
      ]
