-- ===== src/ArrayList/Remove.antt =====
-- `list_remove` moves the last entry into the gap.
use native.Mathlib.Decide.{ℕ_discrete}
use why3_fork.Base.{
  ℕ, ◌+◌, ◌-◌, ◌<◌, ◌≡◌, sym, ap, ◌∙◌, subst, some, List, inl, inr, arith, length, get_elem?, set,
  length-set, get_elem?-set_self, get_elem?-set_ne, get_elem?-lt, get_elem?-some, ok, load_lem,
  store_lem,
}
use why3_fork.Base.Int.{ℤ}
use why3_fork.ArrayList.{ArrayList, list_remove, remove_at}
use why3_fork.ArrayList.Entries.{Entry, remove, lookup_cases, Removed}
use why3_fork.ArrayList.Holds.{Holds, list_lookup_index_lem}

module _ {A : Type 0} where
  -- The list after the entry `e` has been moved to place `p`.
  abbrev filled : ArrayList A → ℕ → Entry A → ArrayList A
  filled l p e = record l {
    key = set l.key p (some e.0);
    data_ = set l.data_ p (some e.1);
    len = l.len - 1;
  }

  filled-Holds :
      {l : ArrayList A} {es r : List (Entry A)} (p : ℕ) (e : Entry A)
      → Holds l es
      → Removed p es r
      → p < length es
      → get_elem? es (length r) ≡ some e
      → Holds (filled l p e) r
  filled-Holds {l} {es} {r} p e v d h last = record {
    room = v.room;
    positive = v.positive;
    keys = length-set l.key _ _ ∙ v.keys;
    datas = length-set l.data_ _ _ ∙ v.datas;
    count = omega (arith, v.count, d.shorter);
    fits = omega (arith, v.fits);
    cells = λ i f q. elim (ℕ_discrete i p) [
      | yes same ↦
          let at_p : get_elem? r p ≡ some f = ap (get_elem? r) (sym same) ∙ q in
          let moved : some f ≡ some e = sym at_p ∙ d.moved (get_elem?-lt r p at_p) ∙ last in
          (
            ap (get_elem? (filled l p e).key) same
                ∙ get_elem?-set_self l.key p (some e.0) (omega (arith, v.keys, v.count, v.fits))
                ∙ cc moved,
            ap (get_elem? (filled l p e).data_) same
                ∙ get_elem?-set_self l.data_ p (some e.1) (omega (arith, v.datas, v.count, v.fits))
                ∙ cc moved,
          )
      | no other ↦
          let old = v.cells i f (sym (d.others i (get_elem?-lt r i q) other) ∙ q) in
          (
            get_elem?-set_ne l.key (some e.0) (λ s. other (sym s)) ∙ old.0,
            get_elem?-set_ne l.data_ (some e.1) (λ s. other (sym s)) ∙ old.1,
          )
    ];
  }

  -- A removal takes out the first entry under the key, if there is one, and nothing else.
  pub list_remove_lem :
      {l : ArrayList A} (es : List (Entry A)) (k : ℤ)
      → Holds l es
      → (l' : ArrayList A) × (list_remove l k ≡ ok l') × Holds l' (remove k es)
  unfolding list_remove
  list_remove_lem {l} es k v = elim (lookup_cases k es) [
    | inl (p, a, at_i, inside, here, e, d) ↦
        let (f, last) = get_elem?-some es (length (remove k es)) (omega (arith, d.shorter)) in
        let at_end : l.len - 1 ≡ length (remove k es) = omega (arith, v.count, d.shorter) in
        (
          filled l p f,
          rw (list_lookup_index_lem es k v, at_i 0) (runs p f inside last at_end),
          filled-Holds p f v d inside last,
        )
    | inr (at_i, e, same) ↦
        (l, rw (list_lookup_index_lem es k v, at_i 0), subst (Holds l) (sym same) v)
  ]
    where
      runs :
          (p : ℕ) (f : Entry A)
          → p < length es
          → get_elem? es (length (remove k es)) ≡ some f
          → l.len - 1 ≡ length (remove k es)
          → remove_at l (some (0 + p)) ≡ ok (filled l p f)
      runs p f inside last at_end =
          let q : 0 + p ≡ p = omega arith in
          let c = v.cells (l.len - 1) f (rw at_end last) in
          rw
            (
              q,
              load_lem l.key (l.len - 1) c.0,
              store_lem l.key p f.0 (omega (arith, v.keys, v.count, v.fits)),
              load_lem l.data_ (l.len - 1) c.1,
              store_lem l.data_ p f.1 (omega (arith, v.datas, v.count, v.fits)),
            )
            (ground (arith, v.count))
