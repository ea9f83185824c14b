-- ===== src/Base/Results.antt =====
-- How a call of the C code ends. `err` is a run that does not return: a failed `assert`, `exit`, or
-- an operation whose behaviour the C standard leaves undefined.
use Prim.Native.Nat.{ℕ}
use mathlib.Core.Path.{◌≡◌, refl}
use mathlib.Core.Bool.{Bool, true, false}

pub data Stop : Type 0 where
  assertion out_of_bounds uninitialised null_pointer overflow overlap div_by_zero bad_shift : Stop
  exit : ℕ → Stop

pub data Result {ℓ} (A : Type ℓ) : Type ℓ where
  ok : A → Result A
  err : Stop → Result A

-- `assert`, and the conditions under which an operation of C is defined.
abbrev pub guard : Bool → Stop → Result (Unit {0})
guard test why = elim test [ true ↦ ok tt | false ↦ err why ]

infixl 5 ◌>>=◌ ◌>>◌
abbrev pub ◌>>=◌ {ℓ κ} :
    {Value : Type ℓ} {Next : Type κ} → Result Value → (Value → Result Next) → Result Next
(err why) >>= next = err why
(ok value) >>= next = next value

abbrev pub ◌>>◌ {ℓ} : {Next : Type ℓ} → Result (Unit {0}) → Result Next → Result Next
first >> next = first >>= (λ done. next)

-- A bind of a bind, and binds that go on the same way.
pub >>=_assoc {ℓ} :
    {X Y Z : Type ℓ} (m : Result X) (f : X → Result Y) (g : Y → Result Z)
    → ((m >>= f) >>= g) ≡ (m >>= λ x. f x >>= g)
>>=_assoc (err why) f g = refl
>>=_assoc (ok x) f g = refl

pub >>=_congr {ℓ κ} :
    {X : Type ℓ} {Y : Type κ} (m : Result X) {f g : X → Result Y}
    → ((x : X) → f x ≡ g x)
    → (m >>= f) ≡ (m >>= g)
>>=_congr (err why) h = refl
>>=_congr (ok x) h = h x
