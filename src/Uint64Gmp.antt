-- ===== src/Uint64Gmp.antt =====
-- examples/multiprecision/overlays/uint64gmp.h: the operations on two 64-bit words that the C code
-- extracted from the proofs on multiprecision numbers calls. `uint64_t` wraps at 2^64, and a shift
-- by 64 or more is undefined.
pub mod Carry
pub mod Product
pub mod Quotient
use Prim.Native.Nat.{bit_or}
use why3_fork.Base.{
  ℕ, ◌+◌, ◌-◌, ◌*◌, ◌/◌, ◌%◌, ◌^◌, Bool, not, ◌&&◌, Result, ok, bad_shift, div_by_zero, guard,
  ◌>>=◌, ◌>>◌, ◌==◌, ltb, leb, if◌then◌else◌,
}

abbrev pub u64_mod : ℕ
u64_mod = 2 ^ 64

abbrev pub add_u64 : ℕ → ℕ → ℕ
add_u64 a b = (a + b) % u64_mod

abbrev pub sub_u64 : ℕ → ℕ → ℕ
sub_u64 a b = (a + u64_mod - b) % u64_mod

abbrev pub mul_u64 : ℕ → ℕ → ℕ
mul_u64 a b = a * b % u64_mod

-- A comparison as a number.
abbrev pub of_test : Bool → ℕ
of_test b = if b then 1 else 0

-- `<<` and `>>`, with the condition under which C defines them.
abbrev pub shift_left : ℕ → ℕ → Result ℕ
shift_left x k = do guard (ltb k 64) bad_shift; ok (mul_u64 x (2 ^ k))

abbrev pub shift_right : ℕ → ℕ → Result ℕ
shift_right x k = do guard (ltb k 64) bad_shift; ok (x / 2 ^ k)

abbrev pub div_u64 : ℕ → ℕ → Result ℕ
div_u64 a b = do guard (not (b == 0)) div_by_zero; ok (a / b)

-- `__ll_B`, and the halves of a word.
abbrev pub ll_b : ℕ
ll_b = 2 ^ 32

abbrev pub ll_lowpart : ℕ → ℕ
ll_lowpart t = t % ll_b

abbrev pub ll_highpart : ℕ → ℕ
ll_highpart t = t / ll_b

-- The structures of results, which all have these two fields.
pub record DoubleWord : Type 0 where
  pub field_0 : ℕ
  pub field_1 : ℕ

-- The halves have 32 bits each; their products do not wrap.
unfoldable pub umul_ppmm : ℕ → ℕ → DoubleWord
umul_ppmm u v =
    let x0 = mul_u64 (ll_lowpart u) (ll_lowpart v) in
    let x1 = mul_u64 (ll_lowpart u) (ll_highpart v) in
    let x2 = mul_u64 (ll_highpart u) (ll_lowpart v) in
    let x3 = mul_u64 (ll_highpart u) (ll_highpart v) in
    let x1 = add_u64 x1 (ll_highpart x0) in
    let x1 = add_u64 x1 x2 in
    let x3 = if ltb x1 x2 then add_u64 x3 ll_b else x3 in
    record {
      field_1 = add_u64 x3 (ll_highpart x1);
      field_0 = add_u64 (mul_u64 x1 ll_b) (ll_lowpart x0);
    }

unfoldable pub mul64_double : ℕ → ℕ → DoubleWord
unfolding umul_ppmm
mul64_double x y = umul_ppmm x y

-- The half of `__udiv_qrnnd_c` that gives one digit in base 2^32 (the macro has it twice): the
-- division of the remainder so far, with the next half word of the dividend, and what is left.
unfoldable pub corrected : (d m q r : ℕ) → ℕ × ℕ
corrected d m q r =
    if ltb r m
    then (let q1 = sub_u64 q 1 in
        let r1 = add_u64 r d in
        if leb d r1 && ltb r1 m then (sub_u64 q1 1, add_u64 r1 d) else (q1, r1))
    else (q, r)

unfoldable pub quotient_digit : (n half d : ℕ) → Result (ℕ × ℕ)
unfolding corrected
quotient_digit n half d = do
  q ← div_u64 n (ll_highpart d)
  let r = sub_u64 n (mul_u64 q (ll_highpart d))
  let m = mul_u64 q (ll_lowpart d)
  let (q, r) = corrected d m q (bit_or (mul_u64 r ll_b) half)
  ok (q, sub_u64 r m)

unfoldable pub udiv_qrnnd_c : (n1 n0 d : ℕ) → Result (ℕ × ℕ)
unfolding quotient_digit
udiv_qrnnd_c n1 n0 d = do
  (q1, r1) ← quotient_digit n1 (ll_highpart n0) d
  (q0, r0) ← quotient_digit r1 (ll_lowpart n0) d
  ok (bit_or (mul_u64 q1 ll_b) q0, r0)

unfoldable pub div64_2by1 : (ul uh d : ℕ) → Result ℕ
unfolding udiv_qrnnd_c
div64_2by1 ul uh d = do (q, r) ← udiv_qrnnd_c uh ul d; ok q

unfoldable pub add64_with_carry : ℕ → ℕ → ℕ → DoubleWord
add64_with_carry x y c =
    let r = add_u64 (add_u64 x y) c in
    record { field_0 = r; field_1 = if r == x then c else of_test (ltb r x) }

unfoldable pub sub64_with_borrow : ℕ → ℕ → ℕ → DoubleWord
sub64_with_borrow x y b =
    let r = sub_u64 (sub_u64 x y) b in
    record { field_0 = r; field_1 = if ltb x r then 1 else if r == x then b else 0 }

unfoldable pub add64_3 : ℕ → ℕ → ℕ → DoubleWord
add64_3 x y z =
    let r = add_u64 x y in
    let c1 = of_test (ltb r y) in
    let r = add_u64 r z in
    let c2 = of_test (ltb r z) in record { field_1 = add_u64 c1 c2; field_0 = r }

unfoldable pub lsld64 : ℕ → ℕ → Result DoubleWord
lsld64 x cnt = do
  high ← shift_right x (sub_u64 64 cnt)
  low ← shift_left x cnt
  ok (record { field_1 = high; field_0 = low })
