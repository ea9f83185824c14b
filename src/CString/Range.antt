-- ===== src/CString/Range.antt =====
-- `atoi` returns an `int`.
use why3_fork.Base.{ℕ, zero, suc, ◌<◌, List, [], ◌∷◌, arith, ltb, ◌==◌, int_limit}
use why3_fork.Base.Int.{ℤ, pos, negsuc}
use why3_fork.Base.Safety.{Safe, gives, ends, if-Safe}
use why3_fork.CString.{positive_int, negative_int, digits_value, signed_value, skip_spaces, atoi}

-- A number that is not above INT_MAX.
abbrev pub IsInt : ℤ → Type 0
IsInt (pos n) = n < int_limit
IsInt (negsuc n) = Unit {0}

positive_int-Safe : (n : ℕ) → Safe IsInt (positive_int n)
positive_int-Safe n =
    if-Safe (ltb n int_limit) _ _ (λ fits. gives (ground arith)) (λ large. ends tt)

negative_int-Safe : (n : ℕ) → Safe IsInt (negative_int n)
negative_int-Safe zero = gives (omega arith)
negative_int-Safe (suc n) = if-Safe (ltb n int_limit) _ _ (λ fits. gives tt) (λ large. ends tt)

signed_value-Safe : (s : List ℕ) → Safe IsInt (signed_value s)
unfolding signed_value
signed_value-Safe [] = gives (omega arith)
signed_value-Safe (c ∷ cs) =
    if-Safe (c == b'-') _ _ (λ e. negative_int-Safe (digits_value 0 cs))
      (λ e.
        if-Safe (c == b'+') _ _ (λ e. positive_int-Safe (digits_value 0 cs))
          (λ e. positive_int-Safe (digits_value 0 (c ∷ cs))))

pub atoi-Safe : (s : List ℕ) → Safe IsInt (atoi s)
unfolding atoi
atoi-Safe s = signed_value-Safe (skip_spaces s)
