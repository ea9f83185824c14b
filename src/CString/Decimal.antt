-- ===== src/CString/Decimal.antt =====
-- `atoi` reads a printed number back.
use why3_fork.Base.{
  ℕ, zero, suc, ◌+◌, ◌-◌, ◌*◌, ◌/◌, ◌%◌, ◌^◌, ◌≤◌, ◌<◌, ◌≡◌, refl, sym, ap, ◌∙◌, true, false, List,
  [], ◌∷◌, ◌++◌, append_assoc, append-nil, length, length-append, ◌==◌, arith, ok, ltb,
  if◌then◌else◌, int_limit, lt→ltb, Bool-cases, inl, inr,
}
use why3_fork.Base.Int.{pos}
use why3_fork.CString.{atoi, atol, long_value, digits_value, is_digit, is_space, positive_int}

-- The decimal digits of a number, most significant first, with as many rounds as the number.
print_rounds : ℕ → ℕ → List ℕ
print_rounds zero n = b'0' ∷ []
print_rounds (suc rounds) n =
    let higher = print_rounds rounds (n / 10) in
    if ltb n 10 then (b'0' + n) ∷ [] else higher ++ (b'0' + n % 10) ∷ []

pub print_decimal : ℕ → List ℕ
unfolding print_rounds
print_decimal n = print_rounds n n

digits_value-digit :
    (k d : ℕ) (rest : List ℕ)
    → d < 10
    → digits_value k ((b'0' + d) ∷ rest) ≡ digits_value (k * 10 + d) rest
unfolding digits_value
digits_value-digit k d rest h =
    let e : k * 10 + (b'0' + d - b'0') ≡ k * 10 + d = omega arith in rw (digit, e)
  where
    digit : is_digit (b'0' + d) ≡ true
    digit = ground arith

-- Reading digits behind a prefix of value `k`.
digits_value-print :
    (rounds n : ℕ) (rest : List ℕ)
    → n ≤ rounds
    → digits_value 0 (print_rounds rounds n ++ rest) ≡ digits_value n rest
unfolding print_rounds digits_value
digits_value-print zero n rest h = let e : n ≡ 0 = omega arith in rw e
digits_value-print (suc rounds) n rest h = elim (Bool-cases (ltb n 10)) [
  | inl small ↦
      let e : 0 * 10 + n ≡ n = omega arith in
      rw small (digits_value-digit 0 n rest (ground arith) ∙ ap (λ k. digits_value k rest) e)
  | inr large ↦
      rw
        (
          large,
          append_assoc (print_rounds rounds (n / 10)) ((b'0' + n % 10) ∷ []) rest,
          digits_value-print rounds (n / 10) ((b'0' + n % 10) ∷ rest) (ground arith),
        )
        (digits_value-digit (n / 10) (n % 10) rest (omega arith)
          ∙ ap (λ k. digits_value k rest) (omega arith))
]

-- A printed number begins with a digit, and holds digits alone.
abbrev pub AllDigits : List ℕ → Type 0
AllDigits [] = Unit {0}
AllDigits (c ∷ cs) = (b'0' ≤ c) × (c ≤ b'9') × AllDigits cs

AllDigits-append : (xs ys : List ℕ) → AllDigits xs → AllDigits ys → AllDigits (xs ++ ys)
AllDigits-append [] ys h k = k
AllDigits-append (x ∷ xs) ys h k = (h.0, h.1, AllDigits-append xs ys h.2 k)

print_rounds-AllDigits : (rounds n : ℕ) → AllDigits (print_rounds rounds n)
unfolding print_rounds
print_rounds-AllDigits zero n = omega arith
print_rounds-AllDigits (suc rounds) n = elim (Bool-cases (ltb n 10)) [
  | inl small ↦ rw small (omega arith, ground arith, tt)
  | inr large ↦ rw large (
      AllDigits-append (print_rounds rounds (n / 10)) _ (print_rounds-AllDigits rounds (n / 10))
        (omega arith))
]

pub print_decimal-AllDigits : (n : ℕ) → AllDigits (print_decimal n)
unfolding print_decimal
print_decimal-AllDigits n = print_rounds-AllDigits n n

atoi-digits :
    (s : List ℕ) → AllDigits s → digits_value 0 s < int_limit → atoi s ≡ ok (pos (digits_value 0 s))
unfolding atoi
atoi-digits [] h k = refl
atoi-digits (c ∷ cs) h k =
    let space : is_space c ≡ false = ground arith in
    let minus : (c == b'-') ≡ false = ground arith in
    let plus : (c == b'+') ≡ false = ground arith in rw (space, minus, plus) (signed k)
  where
    signed :
        digits_value 0 (c ∷ cs) < int_limit
        → positive_int (digits_value 0 (c ∷ cs)) ≡ ok (pos (digits_value 0 (c ∷ cs)))
    signed k = rw (lt→ltb _ _ k)

digits_value-print_decimal : (n : ℕ) → digits_value 0 (print_decimal n) ≡ n
unfolding print_decimal digits_value
digits_value-print_decimal n =
    ap (digits_value 0) (sym (append-nil (print_rounds n n)))
    ∙ digits_value-print n n [] (omega arith)

-- `atoi` on the decimal digits of an `int` gives that number.
pub atoi-print_decimal : (n : ℕ) → n < int_limit → atoi (print_decimal n) ≡ ok (pos n)
atoi-print_decimal n h =
    atoi-digits (print_decimal n) (print_decimal-AllDigits n)
      (omega (arith, h, digits_value-print_decimal n))
    ∙ ap (λ k. ok (pos k)) (digits_value-print_decimal n)

atol-digits :
    (s : List ℕ) → AllDigits s → digits_value 0 s < 2 ^ 63 → atol s ≡ ok (pos (digits_value 0 s))
unfolding atol
atol-digits [] h k = refl
atol-digits (c ∷ cs) h k =
    let space : is_space c ≡ false = ground arith in
    let minus : (c == b'-') ≡ false = ground arith in
    let plus : (c == b'+') ≡ false = ground arith in rw (space, minus, plus) (signed k)
  where
    signed :
        digits_value 0 (c ∷ cs) < 2 ^ 63
        → long_value false (digits_value 0 (c ∷ cs)) ≡ ok (pos (digits_value 0 (c ∷ cs)))
    signed k = rw (lt→ltb _ _ k)

-- `atol` on the decimal digits of a `long` gives that number.
pub atol-print_decimal : (n : ℕ) → n < 2 ^ 63 → atol (print_decimal n) ≡ ok (pos n)
atol-print_decimal n h =
    atol-digits (print_decimal n) (print_decimal-AllDigits n)
      (omega (arith, h, digits_value-print_decimal n))
    ∙ ap (λ k. ok (pos k)) (digits_value-print_decimal n)

length-print-digit : (rounds n : ℕ) → n < 10 → length (print_rounds rounds n) ≤ 1
unfolding print_rounds
length-print-digit zero n h = omega arith
length-print-digit (suc rounds) n h = ground arith

-- The last digit, behind at most `k` digits of the number without it.
length-print-snoc :
    (k rounds n : ℕ)
    → length (print_rounds rounds (n / 10)) ≤ k
    → length (print_rounds (suc rounds) n) ≤ suc k
unfolding print_rounds
length-print-snoc k rounds n h = elim (Bool-cases (ltb n 10)) [
  | inl e ↦ rw e (omega arith)
  | inr e ↦
      rw e (omega (arith, h, length-append (print_rounds rounds (n / 10)) ((b'0' + n % 10) ∷ [])))
]

length-print-two : (rounds n : ℕ) → n < 100 → length (print_rounds rounds n) ≤ 2
unfolding print_rounds
length-print-two zero n h = omega arith
length-print-two (suc rounds) n h =
    length-print-snoc 1 rounds n (length-print-digit rounds (n / 10) (omega arith))

length-print-three : (rounds n : ℕ) → n < 1000 → length (print_rounds rounds n) ≤ 3
unfolding print_rounds
length-print-three zero n h = omega arith
length-print-three (suc rounds) n h =
    length-print-snoc 2 rounds n (length-print-two rounds (n / 10) (omega arith))

-- A number below 1000 has at most three digits.
pub length-print_decimal : (n : ℕ) → n < 1000 → length (print_decimal n) ≤ 3
unfolding print_decimal
length-print_decimal n h = length-print-three n n h
