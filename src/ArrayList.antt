-- ===== src/ArrayList.antt =====
-- src/server/arraylist.c: a list of elements under `int` keys, in two resizable arrays. `t_list` is
-- `ArrayList`; the functions that change `*l` return the new record, and INVALID_INDEX is `none`.
pub mod Entries
pub mod Holds
pub mod Remove
pub mod Table
pub mod Every
use why3_fork.Base.{
  ℕ, zero, suc, ◌+◌, ◌-◌, ◌*◌, Bool, not, Option, none, some, List, replicate, Result, ok,
  assertion, guard, ◌>>=◌, ◌>>◌, ◌==◌, if◌then◌else◌, int_value, load, store, realloc,
}
use why3_fork.Base.Int.{ℤ, eq_ℤ}

pub record ArrayList (A : Type 0) : Type 0 where
  pub key : List (Option ℤ)
  pub data_ : List (Option A)
  pub len : ℕ
  pub capacity : ℕ

-- The loop of `list_lookup_index`, with the rounds that are left.
unfoldable pub lookup_from : List (Option ℤ) → ℤ → ℕ → ℕ → Result (Option ℕ)
lookup_from keys k zero i = ok none
lookup_from keys k (suc n) i = do
  k' ← load keys i
  let rest = lookup_from keys k n (i + 1)
  if eq_ℤ k' k then ok (some i) else rest

module _ {A : Type 0} where
  unfoldable pub init_list : ℕ → ArrayList A
  init_list capacity = record {
    key = replicate capacity none;
    data_ = replicate capacity none;
    len = 0;
    capacity = capacity;
  }

  unfoldable pub list_is_empty : ArrayList A → Bool
  list_is_empty l = l.len == 0

  unfoldable pub list_lookup_index : ArrayList A → ℤ → Result (Option ℕ)
  list_lookup_index l k = lookup_from l.key k l.len 0

  lookup_at : ArrayList A → Option ℕ → Result (Option A)
  lookup_at l none = ok none
  lookup_at l (some i) = do a ← load l.data_ i; ok (some a)

  unfoldable pub list_lookup : ArrayList A → ℤ → Result (Option A)
  unfolding lookup_at
  list_lookup l k = do i ← list_lookup_index l k; lookup_at l i

  remove_at : ArrayList A → Option ℕ → Result (ArrayList A)
  unfolding list_is_empty
  remove_at l none = ok l
  remove_at l (some i) = do
    guard (not (list_is_empty l)) assertion
    let len = l.len - 1
    k ← load l.key len
    key ← store l.key i k
    a ← load l.data_ len
    data_ ← store l.data_ i a
    ok (record l { key = key; data_ = data_; len = len })

  unfoldable pub list_remove : ArrayList A → ℤ → Result (ArrayList A)
  unfolding remove_at
  list_remove l k = do i ← list_lookup_index l k; remove_at l i

  -- The memory is released; what is left of the call is its assertion.
  unfoldable pub free_list : ArrayList A → Result (Unit {0})
  unfolding list_is_empty
  free_list l = guard (list_is_empty l) assertion

  unfoldable pub list_resize : ArrayList A → Result (ArrayList A)
  list_resize l = do
    newcap ← int_value (l.capacity * 2)
    ok (record l { key = realloc l.key newcap; data_ = realloc l.data_ newcap; capacity = newcap })

  unfoldable pub list_append : ArrayList A → ℤ → A → Result (ArrayList A)
  list_append l k elt = do
    room ← if l.len == l.capacity then list_resize l else ok l
    key ← store room.key room.len k
    data_ ← store room.data_ room.len elt
    len ← int_value (room.len + 1)
    ok (record room { key = key; data_ = data_; len = len })

  unfoldable pub list_length : ArrayList A → ℕ
  list_length l = l.len
