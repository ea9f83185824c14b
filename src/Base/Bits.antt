-- ===== src/Base/Bits.antt =====
-- `|` of two bit fields that do not overlap is their sum.
use Prim.Native.Nat.{
  ℕ, zero, suc, ◌+◌, ◌*◌, ◌/◌, ◌^◌, ◌≤◌, ◌<◌, max, digits, bit_or, bit_or-bitwise,
}
use mathlib.Core.Path.{◌≡◌, refl, ap}
use native.Mathlib.Nat.{le_refl, pow-suc}
use native.Mathlib.Omega.{arith}

-- The digits of `bit_or`, with the count of digits to go.
abbrev or_digits : ℕ → ℕ → ℕ → ℕ
or_digits n a b = digits (λ y. y) max n a b

or_digits-no_field : (n a : ℕ) → a ≤ n → or_digits n a 0 ≡ a
or_digits-no_field zero zero h = refl
or_digits-no_field zero (suc a) h = absurd (omega arith)
or_digits-no_field (suc n) zero h = refl
or_digits-no_field (suc n) (suc a) h = omega (arith, or_digits-no_field n (suc a / 2) (omega arith))

or_digits_shifted : (k n a q r : ℕ) → a ≡ q * 2 ^ k → a ≤ n → r < 2 ^ k → or_digits n a r ≡ a + r
or_digits_shifted zero n a q r e h small = ground (arith, or_digits-no_field n a h)
or_digits_shifted (suc k) zero zero q r e h small = omega arith
or_digits_shifted (suc k) zero (suc a) q r e h small = absurd (omega arith)
or_digits_shifted (suc k) (suc n) zero q r e h small = omega arith
or_digits_shifted (suc k) (suc n) (suc a) q r e h small =
    let double = ap (λ (t : ℕ). q * t) (pow-suc 2 k) in
    let even : suc a ≡ 2 * (q * 2 ^ k) = omega (arith, double) in
    let rest =
      or_digits_shifted k n (suc a / 2) q (r / 2) (omega arith) (omega arith) (omega arith) in
    omega (arith, even, rest)

pub bit_or-shifted : (k q r : ℕ) → r < 2 ^ k → bit_or (q * 2 ^ k) r ≡ q * 2 ^ k + r
bit_or-shifted k q r small =
    simp bit_or-bitwise (or_digits_shifted k (q * 2 ^ k) (q * 2 ^ k) q r refl (le_refl _) small)
