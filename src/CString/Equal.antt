-- ===== src/CString/Equal.antt =====
-- String comparison.
use why3_fork.Base.{
  ℕ, zero, suc, ◌≡◌, ◌≢◌, refl, ap, true, ◌&&◌, ◌||◌, List, [], ◌∷◌, arith, length, ◌==◌, ◌↔◌,
}
use why3_fork.CString.{str_eq, strn_eq}

-- A comparison of as many bytes as the first string has, with its NUL, is one of the strings.
pub strn_eq-length : (a b : List ℕ) (n : ℕ) → n ≡ suc (length a) → strn_eq a b n ≡ str_eq a b
unfolding strn_eq str_eq
strn_eq-length a b zero e = absurd (omega arith)
strn_eq-length [] [] (suc n) e = refl
strn_eq-length [] (y ∷ ys) (suc n) e = refl
strn_eq-length (x ∷ xs) [] (suc n) e = refl
strn_eq-length (x ∷ xs) (y ∷ ys) (suc n) e =
    ap (λ t. x == y && (x == 0 || t)) (strn_eq-length xs ys n (omega arith))

-- No byte is NUL.
abbrev pub NoNul : List ℕ → Type 0
NoNul [] = Unit {0}
NoNul (x ∷ xs) = (x ≢ 0) × NoNul xs

pub str_eq_iff : (a b : List ℕ) → NoNul a → NoNul b → (str_eq a b ≡ true) ↔ (a ≡ b)
unfolding str_eq
str_eq_iff [] [] h k = ground arith
str_eq_iff [] (y ∷ ys) h k = ground arith
str_eq_iff (x ∷ xs) [] h k = ground arith
str_eq_iff (x ∷ xs) (y ∷ ys) h k = ground (arith, str_eq_iff xs ys h.1 k.1)

pub str_eq_refl : (a : List ℕ) → str_eq a a ≡ true
unfolding str_eq
str_eq_refl [] = refl
str_eq_refl (x ∷ xs) = ground (arith, str_eq_refl xs)
