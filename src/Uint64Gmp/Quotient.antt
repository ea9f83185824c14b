-- ===== src/Uint64Gmp/Quotient.antt =====
-- The quotient of two words by one, digit by digit in base 2^32.
use native.Mathlib.Nat.{div-add-mod, div-eq_of_lt-le, mod-lt}
use native.Mathlib.Decide.{dec_lt}
use why3_fork.Base.{
  ℕ, ◌+◌, ◌-◌, ◌*◌, ◌/◌, ◌%◌, ◌^◌, ◌≤◌, ◌<◌, ◌≡◌, inl, inr, refl, arith, ap, ltb, leb, Bool-cases,
  ok, false, ◌&&◌, ◌==◌,
}
use why3_fork.Base.Bits.{bit_or-shifted}
use why3_fork.Uint64Gmp.{
  corrected, quotient_digit, udiv_qrnnd_c, div64_2by1, sub_u64, mul_u64, add_u64,
}

-- Of the three trial digits one leaves a remainder below the divisor.
corrected_lem :
    (d m q r : ℕ)
    → 2 ^ 63 ≤ d
    → d < 2 ^ 64
    → r < d
    → m < 2 ^ 64
    → m ≤ q * (2 ^ 32 - 1)
    → q < 2 ^ 33
    → (sub_u64 (corrected d m q r).1 m < d)
      × (k : ℕ) × ((corrected d m q r).0 + k ≡ q)
      × (sub_u64 (corrected d m q r).1 m + m ≡ r + k * d)
unfolding corrected
corrected_lem d m q r big word left wm short hq = elim (Bool-cases (ltb r m)) [
  | inl e ↦ elim (Bool-cases (leb d (add_u64 r d) && ltb (add_u64 r d) m)) [
    | inl e' ↦ (ground arith, 2, ground arith, ground arith)
    | inr e' ↦ (ground arith, 1, ground arith, ground arith)
  ]
  | inr e ↦ (ground arith, 0, ground arith, ground arith)
]

mul_mono : (a b p : ℕ) → a ≤ b → a * p ≤ b * p
mul_mono a b p h = grind arith

below-multiple : (a b p : ℕ) → a * p < b * p → a < b
below-multiple a b p h = elim (dec_lt a b) [
  | yes below ↦ below
  | no above ↦ absurd (omega (arith, mul_mono b a p (omega arith)))
]

-- What a digit that is `k` less than the trial digit leaves.
rebuilt :
    (k q t d s m r whole : ℕ)
    → t * d + r ≡ whole + m
    → q + k ≡ t
    → s + m ≡ r + k * d
    → q * d + s ≡ whole
rebuilt k q t d s m r whole e less left = omega (arith, e, left, ap (λ (x : ℕ). x * d) less)

-- The trial digit is not much too large, and its product with the low half is a word.
trial-lt : (n d : ℕ) → n < d → 2 ^ 63 ≤ d → d < 2 ^ 64 → n / (d / 2 ^ 32) < 2 ^ 32 + 2
trial-lt n d below big word =
    below-multiple (n / (d / 2 ^ 32)) (2 ^ 32 + 2) (d / 2 ^ 32)
      (omega (arith, div-add-mod n (d / 2 ^ 32)))

module _ (n half d : ℕ) (below : n < d) (fits : half < 2 ^ 32) (big : 2 ^ 63 ≤ d)
    (word : d < 2 ^ 64) where
  abbrev high : ℕ
  high = d / 2 ^ 32

  abbrev trial : ℕ
  trial = n / high

  abbrev product : ℕ
  product = trial * (d % 2 ^ 32)

  abbrev joined : ℕ
  joined = n % high * 2 ^ 32 + half

  abbrev result : ℕ × ℕ
  result = corrected d product trial joined

  parts : trial * high + n % high ≡ n
  parts = omega (arith, div-add-mod n high)

  left-lt : n % high < high
  left-lt = mod-lt n (omega arith)

  trial_split : trial * d ≡ trial * high * 2 ^ 32 + product
  trial_split =
      omega
        (arith, ap (λ (x : ℕ). trial * x) {x = d} {y = high * 2 ^ 32 + d % 2 ^ 32} (omega arith))

  product-le : product ≤ trial * (2 ^ 32 - 1)
  product-le = omega (arith, mul_mono (d % 2 ^ 32) (2 ^ 32 - 1) trial (omega arith))

  -- Nothing wraps before the trial digit is corrected.
  quotient_digit-corrected : quotient_digit n half d ≡ ok (result.0, sub_u64 result.1 product)
  unfolding quotient_digit
  quotient_digit-corrected =
      let back : sub_u64 n (mul_u64 trial high) ≡ n % high = omega (arith, parts) in
      let shifted : mul_u64 (n % high) (2 ^ 32) ≡ n % high * 2 ^ 32 = omega (arith, left-lt) in
      let plain : mul_u64 trial (d % 2 ^ 32) ≡ product =
        omega (arith, product-le, trial-lt n d below big word) in
      let positive : (high == 0) ≡ false = ground arith in
      rw (positive, back, shifted, plain, bit_or-shifted 32 (n % high) half fits) refl

  quotient_digit_lem :
      (q : ℕ) × (r : ℕ) × (quotient_digit n half d ≡ ok (q, r))
      × (q * d + r ≡ n * 2 ^ 32 + half)
      × (r < d)
      × (q < 2 ^ 32)
  quotient_digit_lem =
      let (small, k, less, left) =
        corrected_lem d product trial joined big word (omega (arith, left-lt))
          (omega (arith, product-le, trial-lt n d below big word)) product-le
          (omega (arith, trial-lt n d below big word)) in
      let whole : result.0 * d + sub_u64 result.1 product ≡ n * 2 ^ 32 + half =
        rebuilt k result.0 trial d (sub_u64 result.1 product) product joined _
          (omega (arith, parts, trial_split)) less left in
      (
        result.0,
        sub_u64 result.1 product,
        quotient_digit-corrected,
        whole,
        small,
        below-multiple result.0 (2 ^ 32) d (omega (arith, whole)),
      )

-- Two digits, the second from what the first left.
pub udiv_qrnnd_c_lem :
    (n1 n0 d : ℕ)
    → n1 < d
    → n0 < 2 ^ 64
    → 2 ^ 63 ≤ d
    → d < 2 ^ 64
    → (q : ℕ) × (r : ℕ) × (udiv_qrnnd_c n1 n0 d ≡ ok (q, r))
      × (q * d + r ≡ n1 * 2 ^ 64 + n0)
      × (r < d)
      × (q < 2 ^ 64)
unfolding udiv_qrnnd_c
udiv_qrnnd_c_lem n1 n0 d below w0 big word =
    let (q1, r1, e1, s1, l1, f1) =
      quotient_digit_lem n1 (n0 / 2 ^ 32) d below (omega arith) big word in
    let (q0, r0, e0, s0, l0, f0) =
      quotient_digit_lem r1 (n0 % 2 ^ 32) d l1 (omega arith) big word in
    let plain : mul_u64 q1 (2 ^ 32) ≡ q1 * 2 ^ 32 = omega arith in
    (
      q1 * 2 ^ 32 + q0,
      r0,
      rw (e1, e0, plain, bit_or-shifted 32 q1 q0 f0) refl,
      omega (arith, s1, s0),
      l0,
      omega arith,
    )

quotient_unique : (n d q r : ℕ) → q * d + r ≡ n → r < d → n / d ≡ q
quotient_unique n d q r e h = div-eq_of_lt-le d (omega arith) (omega arith)

-- For a divisor whose highest bit is set, and a high word below it, `div64_2by1` returns the quotient
-- of the two words by the divisor, rounded down: the divisions in it are defined, and no sum or
-- product that wraps makes it wrong.
pub div64_2by1_lem :
    (ul uh d : ℕ)
    → uh < d
    → ul < 2 ^ 64
    → 2 ^ 63 ≤ d
    → d < 2 ^ 64
    → div64_2by1 ul uh d ≡ ok ((uh * 2 ^ 64 + ul) / d)
unfolding div64_2by1
div64_2by1_lem ul uh d below wl big word =
    let (q, r, e, s, l, f) = udiv_qrnnd_c_lem uh ul d below wl big word in
    rw (e, quotient_unique _ d q r s l) refl
