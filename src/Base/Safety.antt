-- ===== src/Base/Safety.antt =====
-- Calls that stay inside their memory: they return, or stop in a way that touches none.
use mathlib.Core.Path.{◌≡◌, refl, sym}
use mathlib.Core.Bool.{Bool, true, false}
use mathlib.Core.Logic.{inl, inr}
use Prim.Native.Nat.{ℕ, ◌<◌}
use native.Mathlib.Omega.{arith}
use why3_fork.Base.Tests.{ltb, Bool-cases, if◌then◌else◌}
use why3_fork.Base.Words.{int_value, int_limit}
use why3_fork.Base.Results.{
  Stop, assertion, out_of_bounds, uninitialised, null_pointer, overflow, overlap, div_by_zero,
  bad_shift, exit, Result, ok, err, ◌>>=◌, ◌>>◌, guard, >>=_assoc,
}
use why3_fork.Base.Outcomes.{AllOk, returns, stops}

-- The program ends itself, an `int` overflows, or two areas of a copy overlap. Not an access out of
-- bounds, a read of memory that is not initialised, a null pointer, or a division by zero.
abbrev pub IsMild : Stop → Type 0
IsMild assertion = Unit {0}
IsMild (exit n) = Unit {0}
IsMild overflow = Unit {0}
IsMild overlap = Unit {0}
IsMild out_of_bounds = ⊥
IsMild uninitialised = ⊥
IsMild null_pointer = ⊥
IsMild div_by_zero = ⊥
IsMild bad_shift = ⊥

module _ {ℓ} {A : Type ℓ} where
  -- The call returns a value with the property, or stops mildly.
  pub data Safe (P : A → Type 0) : Result A → Type ℓ where
    gives : {a : A} → P a → Safe P (ok a)
    ends : {why : Stop} → IsMild why → Safe P (err why)

  pub Safe-mono : {P Q : A → Type 0} (m : Result A) → Safe P m → ((a : A) → P a → Q a) → Safe Q m
  Safe-mono (ok a) (gives h) f = gives (f a h)
  Safe-mono (err why) (ends mild) f = ends mild

  -- What an exact lemma on a call says.
  pub Safe-ok : {P : A → Type 0} {m : Result A} {a : A} → m ≡ ok a → P a → Safe P m
  Safe-ok e h = rw e (gives h)

  -- What is known of the values that a call returns, besides.
  pub Safe-both : {P Q : A → Type 0} (m : Result A) → Safe P m → AllOk Q m → Safe (λ a. P a × Q a) m
  Safe-both (ok a) (gives h) (returns k) = gives (h, k)
  Safe-both (err why) (ends mild) k = ends mild

  pub Safe-AllOk : {P : A → Type 0} (m : Result A) → Safe P m → AllOk P m
  Safe-AllOk (ok a) (gives h) = returns h
  Safe-AllOk (err why) (ends mild) = stops

module _ {ℓ κ} {A : Type ℓ} {B : Type κ} where
  pub Safe->>= :
      {Q : A → Type 0} {P : B → Type 0} (m : Result A) {next : A → Result B}
      → Safe Q m
      → ((a : A) → Q a → Safe P (next a))
      → Safe P (m >>= next)
  Safe->>= (ok a) (gives h) f = f a h
  Safe->>= (err why) (ends mild) f = ends mild

  -- The same behind a call that is known to return.
  pub Safe-from :
      {P : B → Type 0} (m : Result A) (next : A → Result B) {a : A}
      → m ≡ ok a
      → Safe P (next a)
      → Safe P (m >>= next)
  Safe-from m next e h = rw e h

-- The same behind two calls that are known to return together.
pub Safe-from_both {ℓ} :
    {A B C : Type ℓ} {P : C → Type 0} (m : Result A) (f : A → Result B) (next : B → Result C)
    {b : B}
    → (m >>= f) ≡ ok b
    → Safe P (next b)
    → Safe P (m >>= λ a. f a >>= next)
Safe-from_both m f next e h = rw (sym (>>=_assoc m f next), e) h

pub guard-Safe {ℓ} :
    {A : Type ℓ} {P : A → Type 0} (test : Bool) (why : Stop) (m : Result A)
    → IsMild why
    → Safe P m
    → Safe P (guard test why >> m)
guard-Safe true why m mild h = h
guard-Safe false why m mild h = ends mild

pub test-Safe : (test : Bool) (why : Stop) → IsMild why → Safe (λ u. Unit {0}) (guard test why)
test-Safe true why mild = gives tt
test-Safe false why mild = ends mild

-- The test is known behind the guard.
pub guard-Safe_if {ℓ} :
    {A : Type ℓ} {P : A → Type 0} (test : Bool) (why : Stop) (m : Result A)
    → IsMild why
    → (test ≡ true → Safe P m)
    → Safe P (guard test why >> m)
guard-Safe_if true why m mild h = h refl
guard-Safe_if false why m mild h = ends mild

pub if-Safe {ℓ} :
    {A : Type ℓ} {P : A → Type 0} (test : Bool) (m n : Result A)
    → (test ≡ true → Safe P m)
    → (test ≡ false → Safe P n)
    → Safe P (if test then m else n)
if-Safe true m n h k = h refl
if-Safe false m n h k = k refl

-- The same, where the test does not matter.
pub either-Safe {ℓ} :
    {A : Type ℓ} {P : A → Type 0} (test : Bool) (m n : Result A)
    → Safe P m
    → Safe P n
    → Safe P (if test then m else n)
either-Safe true m n h k = h
either-Safe false m n h k = k

pub int_value-Safe : (n : ℕ) → Safe (λ m. (m ≡ n) × (n < int_limit)) (int_value n)
int_value-Safe n = elim (Bool-cases (ltb n int_limit)) [
  | inl fits ↦ rw fits (gives (refl, ground arith))
  | inr large ↦ rw large (ends tt)
]
