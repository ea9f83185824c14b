-- ===== src/ArrayList/Holds.antt =====
-- Which entries an array list holds, in order, and the operations that find and add.
use why3_fork.Base.{
  ℕ, suc, ◌+◌, ◌*◌, ◌≤◌, ◌<◌, ◌^◌, ◌≡◌, refl, sym, ap, ◌∙◌, Option, none, some, List, [], ◌∷◌, ◌++◌,
  inl, inr, arith, length, get_elem?, set, length-append, length-set, get_elem?-set_self,
  get_elem?-set_ne, get_elem?-lt, get_elem?-snoc, ok, ◌>>=◌, store, int_value, load_lem, store_lem,
  realloc, length-realloc, get_elem?-realloc, ◌==◌, Bool-cases, length-replicate,
}
use why3_fork.Base.Int.{ℤ}
use why3_fork.ArrayList.{
  ArrayList, init_list, lookup_from, list_lookup_index, list_lookup, list_resize, list_append,
  list_is_empty, list_length,
}
use why3_fork.ArrayList.Entries.{Entry, index_from, lookup, lookup_cases}

-- Entry `i` is split over cell `i` of the two arrays. The capacity is a positive `int`.
pub record Holds {A : Type 0} (l : ArrayList A) (es : List (Entry A)) : Type 0 where
  pub room : l.capacity < 2 ^ 31
  pub positive : 0 < l.capacity
  pub keys : length l.key ≡ l.capacity
  pub datas : length l.data_ ≡ l.capacity
  pub count : l.len ≡ length es
  pub fits : l.len ≤ l.capacity
  pub cells :
      (i : ℕ) (e : Entry A)
      → get_elem? es i ≡ some e
      → (get_elem? l.key i ≡ some (some e.0)) × (get_elem? l.data_ i ≡ some (some e.1))

module _ {A : Type 0} where
  pub init_list-Holds : (n : ℕ) → 0 < n → n < 2 ^ 31 → Holds (init_list {A = A} n) []
  unfolding init_list
  init_list-Holds n h k = record {
    room = k;
    positive = h;
    keys = length-replicate n none;
    datas = length-replicate n none;
    count = refl;
    fits = omega arith;
    cells = λ i e h. cc;
  }

  -- The loop finds the place of the first entry under the key.
  lookup_from_lem :
      (keys : List (Option ℤ)) (k : ℤ) (es : List (Entry A)) (i : ℕ)
      → ((j : ℕ) (e : Entry A) → get_elem? es j ≡ some e → get_elem? keys (i + j) ≡ some (some e.0))
      → lookup_from keys k (length es) i ≡ ok (index_from i k es)
  unfolding lookup_from index_from
  lookup_from_lem keys k [] i h = refl
  lookup_from_lem keys k ((j, a) ∷ es) i h =
      rw (load_lem keys i here, lookup_from_lem keys k es (i + 1) later) (ground arith)
    where
      here : get_elem? keys i ≡ some (some j)
      here = ap (get_elem? keys) (omega arith) ∙ h 0 (j, a) refl

      later :
          (p : ℕ) (e : Entry A)
          → get_elem? es p ≡ some e
          → get_elem? keys (i + 1 + p) ≡ some (some e.0)
      later p e q = ap (get_elem? keys) (omega arith) ∙ h (suc p) e q

  pub list_lookup_index_lem :
      {l : ArrayList A} (es : List (Entry A)) (k : ℤ)
      → Holds l es
      → list_lookup_index l k ≡ ok (index_from 0 k es)
  unfolding list_lookup_index
  list_lookup_index_lem {l} es k v = rw v.count (
      lookup_from_lem l.key k es 0
        (λ j e h. ap (get_elem? l.key) (omega arith) ∙ (v.cells j e h).0))

  -- A lookup returns the element of the first entry under the key, or NULL where there is none.
  pub list_lookup_lem :
      {l : ArrayList A} (es : List (Entry A)) (k : ℤ)
      → Holds l es
      → list_lookup l k ≡ ok (lookup k es)
  unfolding list_lookup
  list_lookup_lem {l} es k v = elim (lookup_cases k es) [
    | inl (j, a, at_i, inside, here, e, _) ↦ rw (
      list_lookup_index_lem es k v,
      at_i 0 ∙ ap some (zero_add j),
      load_lem l.data_ j (v.cells j (k, a) here).1,
      e,
    )
    | inr (at_i, e, _) ↦ rw (list_lookup_index_lem es k v, at_i 0, e)
  ]
    where
      zero_add : (j : ℕ) → 0 + j ≡ j
      zero_add j = omega arith

  -- Doubling the arrays keeps the entries.
  list_resize_lem :
      {l : ArrayList A} (es : List (Entry A))
      → Holds l es
      → l.capacity < 2 ^ 30
      → (l' : ArrayList A) × (list_resize l ≡ ok l') × Holds l' es × (l'.len < l'.capacity)
  unfolding list_resize
  list_resize_lem {l} es v small = (
    record {
      key = realloc l.key (l.capacity * 2);
      data_ = realloc l.data_ (l.capacity * 2);
      len = l.len;
      capacity = l.capacity * 2;
    },
    ground arith,
    record {
      room = omega arith;
      positive = omega (arith, v.positive);
      keys = length-realloc l.key _ (omega (arith, v.keys));
      datas = length-realloc l.data_ _ (omega (arith, v.datas));
      count = v.count;
      fits = omega (arith, v.fits);
      cells = λ i e h.
          let inside : i < length es = get_elem?-lt es i h in
          let inside' : i < l.capacity = omega (arith, v.count, v.fits) in
          (
            get_elem?-realloc l.key _ i (omega (arith, v.keys)) (omega (arith, v.keys, v.datas))
                ∙ (v.cells i e h).0,
            get_elem?-realloc l.data_ _ i (omega (arith, v.datas)) (omega (arith, v.keys, v.datas))
                ∙ (v.cells i e h).1,
          );
    },
    omega (arith, v.positive, v.fits),
  )

  -- The list after an entry is added in a free place.
  abbrev appended : ArrayList A → ℤ → A → ArrayList A
  appended l k a = record l {
    key = set l.key l.len (some k);
    data_ = set l.data_ l.len (some a);
    len = l.len + 1;
  }

  appended-Holds :
      {l : ArrayList A} (es : List (Entry A)) (k : ℤ) (a : A)
      → Holds l es
      → l.len < l.capacity
      → Holds (appended l k a) (es ++ (k, a) ∷ [])
  appended-Holds {l} es k a v free = record {
    room = v.room;
    positive = v.positive;
    keys = length-set l.key _ _ ∙ v.keys;
    datas = length-set l.data_ _ _ ∙ v.datas;
    count = omega (arith, v.count, length-append es ((k, a) ∷ []));
    fits = omega arith;
    cells = λ i e h. elim (get_elem?-snoc es (k, a) i e h) [
      | inl (inside, old) ↦ (
        get_elem?-set_ne l.key (some k) (omega (arith, v.count)) ∙ (v.cells i e old).0,
        get_elem?-set_ne l.data_ (some a) (omega (arith, v.count)) ∙ (v.cells i e old).1,
      )
      | inr (last, new) ↦ (
        ap (get_elem? (appended l k a).key) (omega (arith, v.count))
            ∙ get_elem?-set_self l.key l.len (some k) (omega (arith, v.keys))
            ∙ ap (λ x. some (some x.0)) (sym new),
        ap (get_elem? (appended l k a).data_) (omega (arith, v.count))
            ∙ get_elem?-set_self l.data_ l.len (some a) (omega (arith, v.datas))
            ∙ ap (λ x. some (some x.1)) (sym new),
      )
    ];
  }

  -- An append puts the entry last, and grows full arrays first.
  pub list_append_lem :
      {l : ArrayList A} (es : List (Entry A)) (k : ℤ) (a : A)
      → Holds l es
      → length es < 2 ^ 30
      → (l' : ArrayList A) × (list_append l k a ≡ ok l') × Holds l' (es ++ (k, a) ∷ [])
  unfolding list_append
  list_append_lem {l} es k a v small = elim (Bool-cases (l.len == l.capacity)) [
    | inl full ↦
        let (r, e, w, free) = list_resize_lem es v (ground (arith, v.count)) in
        (appended r k a, rw (full, e) (stores es k a w free), appended-Holds es k a w free)
    | inr free ↦
        let room : l.len < l.capacity = ground (arith, v.fits) in
        (appended l k a, rw free (stores es k a v room), appended-Holds es k a v room)
  ]
    where
      stores :
          {r : ArrayList A} (es : List (Entry A)) (k : ℤ) (a : A)
          → Holds r es
          → r.len < r.capacity
          → (do
            key ← store r.key r.len k
            data_ ← store r.data_ r.len a
            len ← int_value (r.len + 1)
            ok (record r { key = key; data_ = data_; len = len }))
            ≡ ok (appended r k a)
      stores {r} es k a v free =
          rw
            (
              store_lem r.key r.len k (omega (arith, v.keys)),
              store_lem r.data_ r.len a (omega (arith, v.datas)),
            )
            (ground (arith, v.room))

  pub list_is_empty_lem :
      {l : ArrayList A} (es : List (Entry A)) → Holds l es → list_is_empty l ≡ (length es == 0)
  unfolding list_is_empty
  list_is_empty_lem es v = ap (λ n. n == 0) v.count

  pub list_length_lem :
      {l : ArrayList A} (es : List (Entry A)) → Holds l es → list_length l ≡ length es
  unfolding list_length
  list_length_lem es v = v.count
