-- ===== src/Tests/Multiprecision.antt =====
-- examples/multiprecision/overlays/uint64gmp.h at concrete inputs.
use why3_fork.Base.{
  ℕ, ◌+◌, ◌*◌, ◌/◌, ◌^◌, ◌<◌, ◌≤◌, ◌≡◌, refl, arith, ok, err, bad_shift, div_by_zero,
}
use why3_fork.Uint64Gmp.{
  DoubleWord, add64_with_carry, sub64_with_borrow, add64_3, lsld64, mul64_double, div64_2by1,
}
use why3_fork.Uint64Gmp.Carry.{
  value, add64_with_carry_lem, sub64_with_borrow_lem, add64_3_lem, lsld64_lem,
}
use why3_fork.Uint64Gmp.Product.{mul64_double_lem}
use why3_fork.Uint64Gmp.Quotient.{div64_2by1_lem}

abbrev largest : ℕ
largest = 0xffff_ffff_ffff_ffff

add64_with_carry_lem_example :
    (value (add64_with_carry largest largest 1) ≡ largest + largest + 1)
    × ((add64_with_carry largest largest 1).field_0 < 2 ^ 64)
    × ((add64_with_carry largest largest 1).field_1 ≤ 1)
add64_with_carry_lem_example =
    add64_with_carry_lem largest largest 1 (omega arith) (omega arith) (omega arith)

sub64_with_borrow_lem_example :
    ((sub64_with_borrow 0 largest 1).field_0 + largest + 1
      ≡ 0 + (sub64_with_borrow 0 largest 1).field_1 * 2 ^ 64)
    × ((sub64_with_borrow 0 largest 1).field_0 < 2 ^ 64)
    × ((sub64_with_borrow 0 largest 1).field_1 ≤ 1)
sub64_with_borrow_lem_example =
    sub64_with_borrow_lem 0 largest 1 (omega arith) (omega arith) (omega arith)

add64_3_lem_example :
    (value (add64_3 largest largest 2) ≡ largest + largest + 2)
    × ((add64_3 largest largest 2).field_0 < 2 ^ 64)
add64_3_lem_example = add64_3_lem largest largest 2 (omega arith) (omega arith) (omega arith)

lsld64_lem_example :
    (w : DoubleWord) × (lsld64 0x8000_0000_0000_0001 4 ≡ ok w)
    × (value w ≡ 0x8000_0000_0000_0001 * 2 ^ 4)
    × (w.field_0 < 2 ^ 64)
lsld64_lem_example = lsld64_lem 0x8000_0000_0000_0001 4 (omega arith) (omega arith) (omega arith)

lsld64_by_nothing : lsld64 5 0 ≡ err bad_shift
unfolding lsld64
lsld64_by_nothing = refl

mul64_double_lem_example :
    (value (mul64_double largest largest) ≡ largest * largest)
    × ((mul64_double largest largest).field_0 < 2 ^ 64)
    × ((mul64_double largest largest).field_1 < 2 ^ 64)
mul64_double_lem_example = mul64_double_lem largest largest (omega arith) (omega arith)

div64_2by1_lem_example :
    div64_2by1 7 0x8000_0000_0000_0002 0x8000_0000_ffff_ffff
    ≡ ok ((0x8000_0000_0000_0002 * 2 ^ 64 + 7) / 0x8000_0000_ffff_ffff)
div64_2by1_lem_example =
    div64_2by1_lem 7 0x8000_0000_0000_0002 0x8000_0000_ffff_ffff (omega arith) (omega arith)
      (omega arith) (omega arith)

div64_2by1_small : div64_2by1 7 1 0xffff ≡ err div_by_zero
unfolding div64_2by1
div64_2by1_small = refl
