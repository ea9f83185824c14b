-- ===== src/Uint64Gmp/Carry.antt =====
-- Sums and differences of words with what they carry, and the shift of a word into two.
use why3_fork.Base.{
  ℕ, ◌+◌, ◌-◌, ◌*◌, ◌/◌, ◌%◌, zero, suc, ap, sym, ◌∙◌, ok, ◌^◌, ◌≤◌, ◌<◌, ◌≡◌, arith,
}
use native.Mathlib.Nat.{pow-suc, div-add-mod, mod-lt}
use why3_fork.Uint64Gmp.{DoubleWord, add64_with_carry, sub64_with_borrow, add64_3, lsld64, sub_u64}

-- The number that two words stand for.
unfoldable pub value : DoubleWord → ℕ
value w = w.field_1 * 2 ^ 64 + w.field_0

-- For a carry of at most one, the low word of `add64_with_carry` and 2^64 times its carry are the sum
-- of the three arguments; the low word is below 2^64, and the new carry at most one.
pub add64_with_carry_lem :
    (x y c : ℕ)
    → x < 2 ^ 64
    → y < 2 ^ 64
    → c ≤ 1
    → (value (add64_with_carry x y c) ≡ x + y + c)
      × ((add64_with_carry x y c).field_0 < 2 ^ 64)
      × ((add64_with_carry x y c).field_1 ≤ 1)
unfolding add64_with_carry value
add64_with_carry_lem x y c hx hy hc = ground arith

-- For a borrow of at most one, the low word of `sub64_with_borrow` plus what is subtracted is the first
-- argument plus 2^64 times the new borrow; the low word is below 2^64, and the borrow at most one.
pub sub64_with_borrow_lem :
    (x y b : ℕ)
    → x < 2 ^ 64
    → y < 2 ^ 64
    → b ≤ 1
    → ((sub64_with_borrow x y b).field_0 + y + b ≡ x + (sub64_with_borrow x y b).field_1 * 2 ^ 64)
      × ((sub64_with_borrow x y b).field_0 < 2 ^ 64)
      × ((sub64_with_borrow x y b).field_1 ≤ 1)
unfolding sub64_with_borrow
sub64_with_borrow_lem x y b hx hy hb = ground arith

-- The low word of `add64_3` and 2^64 times its high word are the sum of the three arguments, and the
-- low word is below 2^64.
pub add64_3_lem :
    (x y z : ℕ)
    → x < 2 ^ 64
    → y < 2 ^ 64
    → z < 2 ^ 64
    → (value (add64_3 x y z) ≡ x + y + z) × ((add64_3 x y z).field_0 < 2 ^ 64)
unfolding add64_3 value
add64_3_lem x y z hx hy hz = ground arith

two_pow_add : (a b : ℕ) → 2 ^ (a + b) ≡ 2 ^ a * 2 ^ b
two_pow_add zero b = ground arith
two_pow_add (suc a) b = ground (
  arith,
  pow-suc 2 a,
  pow-suc 2 (a + b),
  two_pow_add a b,
  ap (λ (t : ℕ). t * 2 ^ b) (pow-suc 2 a),
)

two_pow-positive : (a : ℕ) → 0 < 2 ^ a
two_pow-positive zero = omega arith
two_pow-positive (suc a) = omega (arith, pow-suc 2 a, two_pow-positive a)

mul_mono : (a b p : ℕ) → a ≤ b → a * p ≤ b * p
mul_mono a b p h = grind arith

-- The product of `x` with `p`, cut at `p * q`.
cut_product : (x p q : ℕ) → p * q ≡ 2 ^ 64 → 0 < p → 0 < q → x / q * 2 ^ 64 + x * p % 2 ^ 64 ≡ x * p
cut_product x p q e hp hq =
    let parts : x / q * q + x % q ≡ x = omega (arith, div-add-mod x q) in
    let whole : x / q * (q * p) ≡ x / q * 2 ^ 64 = ap (λ (t : ℕ). x / q * t) (omega (arith, e)) in
    let small : suc (x % q) * p ≤ q * p = mul_mono (suc (x % q)) q p (mod-lt x hq) in
    omega (arith, ap (λ (t : ℕ). t * p) parts, whole, small, e, hp)

-- For a shift by more than 0 and less than 64, `lsld64` is defined, and its two words are the
-- argument times a power of two; the low word is below 2^64.
pub lsld64_lem :
    (x cnt : ℕ)
    → x < 2 ^ 64
    → 0 < cnt
    → cnt < 64
    → (w : DoubleWord) × (lsld64 x cnt ≡ ok w) × (value w ≡ x * 2 ^ cnt) × (w.field_0 < 2 ^ 64)
unfolding lsld64 value
lsld64_lem x cnt hx pos small =
    let back : sub_u64 64 cnt ≡ 64 - cnt = omega arith in
    let whole : cnt + (64 - cnt) ≡ 64 = omega arith in
    (
      record { field_1 = x / 2 ^ (64 - cnt); field_0 = x * 2 ^ cnt % 2 ^ 64 },
      rw back (ground arith),
      cut_product x (2 ^ cnt) (2 ^ (64 - cnt))
          (sym (two_pow_add cnt (64 - cnt)) ∙ ap (λ (t : ℕ). 2 ^ t) whole) (two_pow-positive _)
          (two_pow-positive _),
      omega arith,
    )
