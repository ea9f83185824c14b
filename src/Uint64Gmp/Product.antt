-- ===== src/Uint64Gmp/Product.antt =====
-- The product of two words, from the products of their halves.
use why3_fork.Base.{ℕ, ◌+◌, ◌-◌, ◌*◌, ◌/◌, ◌%◌, ◌^◌, ◌≤◌, ◌<◌, ◌≡◌, arith}
use why3_fork.Uint64Gmp.{umul_ppmm, mul64_double}
use why3_fork.Uint64Gmp.Carry.{value}

below-product : (a b : ℕ) → a < 2 ^ 32 → b < 2 ^ 32 → a * b ≤ (2 ^ 32 - 1) * (2 ^ 32 - 1)
below-product a b ha hb = grind arith

halves-product :
    (a b c d : ℕ)
    → (a * 2 ^ 32 + b) * (c * 2 ^ 32 + d) ≡ a * c * 2 ^ 64 + (b * c + a * d) * 2 ^ 32 + b * d
halves-product a b c d = omega arith

-- The two words of `mul64_double` are below 2^64, and together they are the product of its arguments.
pub mul64_double_lem :
    (x y : ℕ)
    → x < 2 ^ 64
    → y < 2 ^ 64
    → (value (mul64_double x y) ≡ x * y)
      × ((mul64_double x y).field_0 < 2 ^ 64)
      × ((mul64_double x y).field_1 < 2 ^ 64)
unfolding mul64_double umul_ppmm value
mul64_double_lem x y hx hy =
    let a = below-product (x % 2 ^ 32) (y % 2 ^ 32) (omega arith) (omega arith) in
    let b = below-product (x % 2 ^ 32) (y / 2 ^ 32) (omega arith) (omega arith) in
    let c = below-product (x / 2 ^ 32) (y % 2 ^ 32) (omega arith) (omega arith) in
    let d = below-product (x / 2 ^ 32) (y / 2 ^ 32) (omega arith) (omega arith) in
    ground (arith, a, b, c, d, halves-product (x / 2 ^ 32) (x % 2 ^ 32) (y / 2 ^ 32) (y % 2 ^ 32))
