-- ===== src/Base/Outcomes.antt =====
-- What holds of every value that a call returns.
use mathlib.Core.Path.{◌≡◌, refl, subst}
use Prim.Native.Nat.{ℕ, ◌<◌}
use native.Mathlib.Omega.{arith}
use mathlib.Core.Bool.{Bool, true, false}
use mathlib.Core.Logic.{inl, inr}
use why3_fork.Base.Tests.{ltb, Bool-cases, if◌then◌else◌}
use why3_fork.Base.Words.{int_value, int_limit}
use why3_fork.Base.Results.{Stop, Result, ok, err, ◌>>=◌, ◌>>◌, guard}

module _ {ℓ} {A : Type ℓ} where
  -- `P` holds of the value, or the call does not return.
  pub data AllOk (P : A → Type 0) : Result A → Type ℓ where
    returns : {a : A} → P a → AllOk P (ok a)
    stops : {why : Stop} → AllOk P (err why)

  pub AllOk-mono : {P Q : A → Type 0} (m : Result A) → AllOk P m → ((a : A) → P a → Q a) → AllOk Q m
  AllOk-mono (ok a) (returns h) f = returns (f a h)
  AllOk-mono (err why) h f = stops

  pub AllOk-all : {P : A → Type 0} (m : Result A) → ((a : A) → P a) → AllOk P m
  AllOk-all (ok a) h = returns (h a)
  AllOk-all (err why) h = stops

  pub AllOk-ok : {P : A → Type 0} {m : Result A} {a : A} → AllOk P m → m ≡ ok a → P a
  AllOk-ok {P} {m = ok b} {a} (returns h) e = let same : b ≡ a = cc in subst P same h
  AllOk-ok {m = err why} h e = absurd cc

  pub AllOk-both :
      {P Q : A → Type 0} (m : Result A) → AllOk P m → AllOk Q m → AllOk (λ a. P a × Q a) m
  AllOk-both (ok a) (returns h) (returns k) = returns (h, k)
  AllOk-both (err why) h k = stops

module _ {ℓ κ} {A : Type ℓ} {B : Type κ} where
  pub AllOk->>= :
      {Q : A → Type 0} {P : B → Type 0} (m : Result A) {next : A → Result B}
      → AllOk Q m
      → ((a : A) → Q a → AllOk P (next a))
      → AllOk P (m >>= next)
  AllOk->>= (ok a) (returns h) f = f a h
  AllOk->>= (err why) h f = stops

  -- The same, where all that is known of the value is the call that it comes from.
  pub AllOk-then :
      {P : B → Type 0} (m : Result A) {next : A → Result B}
      → ((a : A) → m ≡ ok a → AllOk P (next a))
      → AllOk P (m >>= next)
  AllOk-then (ok a) f = f a refl
  AllOk-then (err why) f = stops

pub int_value-AllOk : (n : ℕ) → AllOk (λ m. m ≡ n) (int_value n)
int_value-AllOk n = elim (Bool-cases (ltb n int_limit)) [
  | inl fits ↦ rw fits (returns refl)
  | inr large ↦ rw large stops
]

pub int_value-fits : (n : ℕ) → AllOk (λ m. n < int_limit) (int_value n)
int_value-fits n = elim (Bool-cases (ltb n int_limit)) [
  | inl fits ↦ rw fits (returns (ground arith))
  | inr large ↦ rw large stops
]

pub guard-AllOk {ℓ} :
    {A : Type ℓ} {P : A → Type 0} (test : Bool) (why : Stop) (m : Result A)
    → AllOk P m
    → AllOk P (guard test why >> m)
guard-AllOk true why m h = h
guard-AllOk false why m h = stops

pub if-AllOk {ℓ} :
    {A : Type ℓ} {P : A → Type 0} (test : Bool) (m n : Result A)
    → AllOk P m
    → AllOk P n
    → AllOk P (if test then m else n)
if-AllOk true m n h k = h
if-AllOk false m n h k = k
