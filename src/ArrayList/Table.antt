-- ===== src/ArrayList/Table.antt =====
-- An array list under distinct keys as a table: what a lookup finds after an append or a removal.
use why3_fork.Base.{
  ◌<◌, ◌^◌, ◌≡◌, ◌∙◌, none, some, List, [], ◌∷◌, ◌++◌, arith, length, ok, if◌then◌else◌,
}
use why3_fork.Base.Int.{ℤ, eq_ℤ}
use why3_fork.ArrayList.{ArrayList, list_lookup, list_append, list_remove}
use why3_fork.ArrayList.Entries.{
  Entry, lookup, remove, UniqueKeys, lookup-remove, remove-UniqueKeys, lookup-append,
  append-UniqueKeys,
}
use why3_fork.ArrayList.Holds.{Holds, list_lookup_lem, list_append_lem}
use why3_fork.ArrayList.Remove.{list_remove_lem}

module _ {A : Type 0} {l : ArrayList A} (es : List (Entry A)) (k : ℤ) where
  -- In a list with distinct keys, a removal returns. Afterwards a lookup of the key finds
  -- nothing, a lookup of any other key finds what it found before, and the keys are distinct
  -- again.
  pub list_lookup-list_remove :
      Holds l es
      → UniqueKeys es
      → (l' : ArrayList A) × (list_remove l k ≡ ok l')
        × ((j : ℤ) → list_lookup l' j ≡ (if eq_ℤ k j then ok none else list_lookup l j))
        × Holds l' (remove k es)
        × UniqueKeys (remove k es)
  list_lookup-list_remove v u =
      let (l', e, w) = list_remove_lem es k v in
      (
        l',
        e,
        (λ j.
            list_lookup_lem (remove k es) j w
            ∙ ground (arith, lookup-remove k j es u, list_lookup_lem es j v)),
        w,
        remove-UniqueKeys k es u,
      )

  -- In a list of fewer than 2^30 entries with distinct keys, an append under a new key returns.
  -- Afterwards a lookup of the key finds the element, a lookup of any other key finds what it
  -- found before, and the keys are distinct again.
  pub list_lookup-list_append :
      (a : A)
      → Holds l es
      → UniqueKeys es
      → lookup k es ≡ none
      → length es < 2 ^ 30
      → (l' : ArrayList A) × (list_append l k a ≡ ok l')
        × ((j : ℤ) → list_lookup l' j ≡ (if eq_ℤ k j then ok (some a) else list_lookup l j))
        × Holds l' (es ++ (k, a) ∷ [])
        × UniqueKeys (es ++ (k, a) ∷ [])
  list_lookup-list_append a v u new small =
      let (l', e, w) = list_append_lem es k a v small in
      (
        l',
        e,
        (λ j.
            list_lookup_lem (es ++ (k, a) ∷ []) j w
            ∙ ground (arith, lookup-append j k a es new, list_lookup_lem es j v)),
        w,
        append-UniqueKeys k a es new u,
      )
