-- ===== src/CpuLimit/Windows/Quoted.antt =====
-- The command line that src/server/cpulimit-win.c builds: it fits in the memory that is allocated.
use why3_fork.Base.{
  ℕ, suc, ◌+◌, ◌%◌, ◌≤◌, ◌<◌, ◌^◌, ◌≡◌, refl, ap, ◌∙◌, true, none, some, List, [], ◌∷◌, ◌++◌,
  append_assoc, arith, length, length-append, ok, ltb, Bool-cases, inl, inr, if◌then◌else◌,
}
use why3_fork.CpuLimit.{Bytes}
use why3_fork.CpuLimit.Windows.{strcat, sum_lengths, quote_all, command_line, command_limit}

-- The arguments between quotes, with spaces between them.
abbrev pub quoted : List Bytes → Bytes
quoted [] = []
quoted (arg ∷ []) = b'"' ∷ (arg ++ b'"' ∷ [])
quoted (arg ∷ next ∷ args) = b'"' ∷ (arg ++ b'"' ∷ b' ' ∷ quoted (next ∷ args))

abbrev pub total : List Bytes → ℕ
total [] = 0
total (arg ∷ args) = length arg + 3 + total args

sum_lengths-total :
    (n : ℕ) (args : List Bytes) → n + total args < 2 ^ 32 → sum_lengths n args ≡ n + total args
unfolding sum_lengths
sum_lengths-total n [] h = omega arith
sum_lengths-total n (arg ∷ args) h =
    let e : (n + length arg + 3) % 2 ^ 32 ≡ n + length arg + 3 = omega (arith, h) in
    rw e (sum_lengths-total (n + length arg + 3) args (omega (arith, h)) ∙ omega arith)

strcat_lem : (size : ℕ) (p s : Bytes) → length p + length s < size → strcat size p s ≡ ok (p ++ s)
unfolding strcat
strcat_lem size p s h = ground arith

quote_all_lem :
    (size : ℕ) (p arg : Bytes) (args : List Bytes)
    → length p + total (arg ∷ args) ≤ size
    → quote_all size p (arg ∷ args) ≡ ok (p ++ quoted (arg ∷ args))
unfolding quote_all
quote_all_lem size p arg [] h =
    let q : Bytes = b'"' ∷ [] in
    let n = length-append p q in
    let m = length-append (p ++ q) arg in
    rw
      (
        strcat_lem size p q (omega (arith, h)),
        strcat_lem size (p ++ q) arg (omega (arith, h, n)),
        strcat_lem size ((p ++ q) ++ arg) q (omega (arith, h, n, m)),
      )
      (ap ok (append_assoc (p ++ q) arg q ∙ append_assoc p q (arg ++ q)))
quote_all_lem size p arg (next ∷ args) h =
    let q : Bytes = b'"' ∷ [] in
    let s : Bytes = b' ' ∷ [] in
    let n = length-append p q in
    let m = length-append (p ++ q) arg in
    let k = length-append ((p ++ q) ++ arg) q in
    let done = (((p ++ q) ++ arg) ++ q) ++ s in
    let e : done ≡ p ++ b'"' ∷ (arg ++ b'"' ∷ b' ' ∷ []) =
      append_assoc ((p ++ q) ++ arg) q s
      ∙ append_assoc (p ++ q) arg (q ++ s)
      ∙ append_assoc p q (arg ++ (q ++ s)) in
    let rest = quoted (next ∷ args) in
    rw
      (
        strcat_lem size p q (omega (arith, h)),
        strcat_lem size (p ++ q) arg (omega (arith, h, n)),
        strcat_lem size ((p ++ q) ++ arg) q (omega (arith, h, n, m)),
        strcat_lem size (((p ++ q) ++ arg) ++ q) s (omega (arith, h, n, m, k)),
      )
      (quote_all_lem size done next args
          (omega (arith, h, n, m, k, length-append (((p ++ q) ++ arg) ++ q) s))
        ∙ ap ok (
            ap (λ t. t ++ rest) e
            ∙ append_assoc p (b'"' ∷ (arg ++ b'"' ∷ b' ' ∷ [])) rest
            ∙ ap (λ t. p ++ b'"' ∷ t) (append_assoc arg (b'"' ∷ b' ' ∷ []) rest)))

-- The length of the command line and the length that the code sums up differ by the closing NUL.
length-quoted :
    (arg : Bytes) (args : List Bytes) → suc (length (quoted (arg ∷ args))) ≡ total (arg ∷ args)
length-quoted arg [] = omega (arith, length-append arg (b'"' ∷ []))
length-quoted arg (next ∷ args) =
    omega (arith, length-append arg (b'"' ∷ b' ' ∷ quoted (next ∷ args)), length-quoted next args)

-- The command line is the arguments between quotes, with spaces between them, and it is never written
-- outside the memory that is allocated. It is refused exactly where it takes more than 32767 bytes
-- with its NUL. There is at least one argument, and the lengths add up to less than 2^32.
pub command_line_lem :
    (arg : Bytes) (args : List Bytes)
    → total (arg ∷ args) < 2 ^ 32
    → command_line (arg ∷ args)
      ≡ ok (
          if ltb command_limit (suc (length (quoted (arg ∷ args))))
          then none
          else some (quoted (arg ∷ args)))
unfolding command_line
command_line_lem arg args h =
    let size : sum_lengths 0 (arg ∷ args) ≡ total (arg ∷ args) =
      sum_lengths-total 0 (arg ∷ args) (omega (arith, h)) ∙ omega arith in
    elim (Bool-cases (ltb command_limit (total (arg ∷ args)))) [
      | inl long ↦ rw (size, length-quoted arg args, long) refl
      | inr short ↦
          let start : ltb 0 (total (arg ∷ args)) ≡ true = ground arith in
          rw
            (
              size,
              length-quoted arg args,
              short,
              start,
              quote_all_lem (total (arg ∷ args)) [] arg args (omega arith),
            )
            refl
    ]
