-- ===== src/Base.antt =====
-- The names that every other module shares: the libraries', passed on, and those of the children.
-- `Tests` has the Boolean tests on numbers, `Lists` lists under native indices, `Results` the ways
-- in which a call of the C code ends, and `Memory` arrays with bounds and uninitialised cells.
mod Tests
mod Lists
mod Results
mod Memory
mod Words
pub mod Bits
mod Prefix
mod Outcomes
pub mod Safety
pub mod Int
pub use Tests.*
pub use Lists.*
pub use Results.*
pub use Prefix.*
pub use Outcomes.*
pub use Words.*
unfoldable pub use Memory.{load, memcpy, realloc, store}
pub use Memory.{load_lem, load-inverse, store_lem, memcpy_lem, get_elem?-realloc, length-realloc}
pub use Prim.Native.Nat.{ℕ, zero, suc, ◌+◌, ◌-◌, ◌*◌, ◌/◌, ◌%◌, ◌^◌, ◌≤◌, ◌<◌}
pub use mathlib.Core.Path.{◌≡◌, refl, sym, ap, ◌∙◌, subst}
pub use mathlib.Core.Logic.{◌≢◌, ◌↔◌, ◌⊎◌, inl, inr}
pub use mathlib.Core.Bool.{Bool, true, false, not, ◌&&◌, ◌||◌}
pub use mathlib.Core.Option.{Option, none, some}
pub use mathlib.Core.List.{List, [], ◌∷◌, ◌++◌, map, append-nil, append_assoc}
pub use native.Mathlib.Omega.{arith}
