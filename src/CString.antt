-- ===== src/CString.antt =====
-- The functions of the C library that the server applies to strings. A string is the list of its
-- bytes with the closing NUL left out; an inner NUL ends it early, as in C.
pub mod Equal
pub mod Decimal
pub mod Range
use why3_fork.Base.{
  ℕ, zero, suc, ◌+◌, ◌-◌, ◌*◌, ◌^◌, Bool, true, false, ◌&&◌, ◌||◌, List, [], ◌∷◌, Result, ok, err,
  overflow, ◌==◌, ltb, leb, if◌then◌else◌, int_limit, u32_mod,
}
use Prim.Native.Char.{code}
use Prim.Native.String.{String}
use why3_fork.Base.Int.{ℤ, pos, negsuc}

-- The bytes of a literal of ASCII characters.
abbrev pub codes : String → List ℕ
codes String.[] = []
codes (String.◌∷◌ c s) = code c ∷ codes s

-- `strcmp(a, b) == 0`
unfoldable pub str_eq : List ℕ → List ℕ → Bool
str_eq [] [] = true
str_eq [] (y ∷ ys) = y == 0
str_eq (x ∷ xs) [] = x == 0
str_eq (x ∷ xs) (y ∷ ys) = x == y && (x == 0 || str_eq xs ys)

-- `strncmp(a, b, n) == 0`
unfoldable pub strn_eq : List ℕ → List ℕ → ℕ → Bool
strn_eq a b zero = true
strn_eq [] [] (suc n) = true
strn_eq [] (y ∷ ys) (suc n) = y == 0
strn_eq (x ∷ xs) [] (suc n) = x == 0
strn_eq (x ∷ xs) (y ∷ ys) (suc n) = x == y && (x == 0 || strn_eq xs ys n)

-- `isspace` and `isdigit` in the C locale.
abbrev pub is_space : ℕ → Bool
is_space c = c == 32 || (leb 9 c && leb c 13)

abbrev pub is_digit : ℕ → Bool
is_digit c = leb b'0' c && leb c b'9'

unfoldable pub skip_spaces : List ℕ → List ℕ
skip_spaces [] = []
skip_spaces (c ∷ cs) = if is_space c then skip_spaces cs else c ∷ cs

-- The number that the leading digits stand for, behind those that were read.
unfoldable pub digits_value : ℕ → List ℕ → ℕ
digits_value n [] = n
digits_value n (c ∷ cs) = if is_digit c then digits_value (n * 10 + (c - b'0')) cs else n

-- A value that `int` cannot represent is undefined behaviour of `atoi`.
abbrev pub positive_int : ℕ → Result ℤ
positive_int n = if ltb n int_limit then ok (pos n) else err overflow

abbrev pub negative_int : ℕ → Result ℤ
negative_int zero = ok (pos 0)
negative_int (suc n) = if ltb n int_limit then ok (negsuc n) else err overflow

signed_value : List ℕ → Result ℤ
signed_value [] = ok (pos 0)
signed_value (c ∷ cs) =
    if c == b'-'
    then negative_int (digits_value 0 cs)
    else if c == b'+'
    then positive_int (digits_value 0 cs)
    else positive_int (digits_value 0 (c ∷ cs))

unfoldable pub atoi : List ℕ → Result ℤ
unfolding skip_spaces digits_value signed_value
atoi s = signed_value (skip_spaces s)

-- The conversion of an `int` to `unsigned int`.
abbrev pub to_u32 : ℤ → ℕ
to_u32 (pos n) = n
to_u32 (negsuc n) = u32_mod - suc n

-- `atol`, with 64 bits.
abbrev pub long_value : Bool → ℕ → Result ℤ
long_value false n = if ltb n (2 ^ 63) then ok (pos n) else err overflow
long_value true zero = ok (pos 0)
long_value true (suc n) = if ltb n (2 ^ 63) then ok (negsuc n) else err overflow

signed_long : List ℕ → Result ℤ
signed_long [] = ok (pos 0)
signed_long (c ∷ cs) =
    if c == b'-'
    then long_value true (digits_value 0 cs)
    else if c == b'+'
    then long_value false (digits_value 0 cs)
    else long_value false (digits_value 0 (c ∷ cs))

unfoldable pub atol : List ℕ → Result ℤ
unfolding skip_spaces digits_value signed_long
atol s = signed_long (skip_spaces s)
