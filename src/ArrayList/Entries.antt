-- ===== src/ArrayList/Entries.antt =====
-- What the operations of a list do to its entries, seen as a sequence of pairs.
use why3_fork.Base.{
  ℕ, zero, suc, ◌+◌, ◌<◌, ◌≤◌, ◌≡◌, ◌≢◌, refl, sym, ap, ◌∙◌, Option, none, some, List, [], ◌∷◌,
  ◌++◌, arith, length, get_elem?, if◌then◌else◌, false, Bool-cases, ◌⊎◌, inl, inr,
}
use why3_fork.Base.Int.{ℤ, eq_ℤ, eq_ℤ_iff}

abbrev pub Entry : Type 0 → Type 0
Entry A = ℤ × A

module _ {A : Type 0} where
  -- The place of the first entry under a key, counted from `i`, and its element.
  unfoldable pub index_from : ℕ → ℤ → List (Entry A) → Option ℕ
  index_from i k [] = none
  index_from i k ((j, a) ∷ es) = if eq_ℤ j k then some i else index_from (i + 1) k es

  unfoldable pub lookup : ℤ → List (Entry A) → Option A
  lookup k [] = none
  lookup k ((j, a) ∷ es) = if eq_ℤ j k then some a else lookup k es

  -- The last entry of `x ∷ xs`, and the entries before it.
  abbrev pub last_of : Entry A → List (Entry A) → Entry A
  last_of x [] = x
  last_of x (y ∷ ys) = last_of y ys

  abbrev pub front_of : Entry A → List (Entry A) → List (Entry A)
  front_of x [] = []
  front_of x (y ∷ ys) = x ∷ front_of y ys

  abbrev pub last_first : List (Entry A) → List (Entry A)
  last_first [] = []
  last_first (x ∷ xs) = last_of x xs ∷ front_of x xs

  -- The last entry takes the place of the first one under the key.
  unfoldable pub remove : ℤ → List (Entry A) → List (Entry A)
  remove k [] = []
  remove k ((j, a) ∷ es) = if eq_ℤ j k then last_first es else (j, a) ∷ remove k es

  -- No key stands twice.
  abbrev pub UniqueKeys : List (Entry A) → Type 0
  UniqueKeys [] = Unit {0}
  UniqueKeys ((k, a) ∷ es) = (lookup k es ≡ none) × UniqueKeys es

  pub length-front_of : (x : Entry A) (xs : List (Entry A)) → length (front_of x xs) ≡ length xs
  length-front_of x [] = refl
  length-front_of x (y ∷ ys) = ap suc (length-front_of y ys)

  get_elem?-last_of :
      (x : Entry A) (xs : List (Entry A)) → get_elem? (x ∷ xs) (length xs) ≡ some (last_of x xs)
  get_elem?-last_of x [] = refl
  get_elem?-last_of x (y ∷ ys) = get_elem?-last_of y ys

  get_elem?-front_of :
      (x : Entry A) (xs : List (Entry A)) (j : ℕ)
      → j < length xs
      → get_elem? (front_of x xs) j ≡ get_elem? (x ∷ xs) j
  get_elem?-front_of x [] j h = elim h [ ]
  get_elem?-front_of x (y ∷ ys) zero h = refl
  get_elem?-front_of x (y ∷ ys) (suc j) h = get_elem?-front_of y ys j (omega arith)

  -- What the array code sees of a removal at place `p`.
  pub record Removed (p : ℕ) (es r : List (Entry A)) : Type 0 where
    pub shorter : suc (length r) ≡ length es
    pub others : (j : ℕ) → j < length r → j ≢ p → get_elem? r j ≡ get_elem? es j
    pub moved : p < length r → get_elem? r p ≡ get_elem? es (length r)

  last_first-Removed : (e : Entry A) (es : List (Entry A)) → Removed 0 (e ∷ es) (last_first es)
  last_first-Removed e [] = record {
    shorter = refl;
    others = λ j h. elim h [ ];
    moved = λ h. elim h [ ];
  }
  last_first-Removed e (x ∷ xs) = record {
    shorter = ap (λ n. suc (suc n)) (length-front_of x xs);
    others = elim [
      | zero ↦ λ h ne. absurd (ne refl)
      | suc j ↦ λ h ne. get_elem?-front_of x xs j (omega (arith, length-front_of x xs))
    ];
    moved =
        λ h. sym (get_elem?-last_of x xs) ∙ ap (get_elem? (x ∷ xs)) (sym (length-front_of x xs));
  }

  -- One step further from the place of the removal.
  cons-Removed :
      (e : Entry A) (p : ℕ) (es r : List (Entry A))
      → Removed p es r
      → p < length es
      → Removed (suc p) (e ∷ es) (e ∷ r)
  cons-Removed e p es r d h = record {
    shorter = ap suc d.shorter;
    others = elim [
      | zero ↦ λ h ne. refl
      | suc j ↦ λ k ne. d.others j (omega arith) (λ q. ne (ap suc q))
    ];
    moved = λ k. d.moved (omega arith) ∙ refl;
  }

  abbrev pub Found : ℤ → List (Entry A) → Type 0
  Found k es =
      (j : ℕ) × (a : A) × ((i : ℕ) → index_from i k es ≡ some (i + j))
      × (j < length es)
      × (get_elem? es j ≡ some (k, a))
      × (lookup k es ≡ some a)
      × Removed j es (remove k es)

  abbrev pub Missing : ℤ → List (Entry A) → Type 0
  Missing k es = ((i : ℕ) → index_from i k es ≡ none) × (lookup k es ≡ none) × (remove k es ≡ es)

  pub lookup_cases : (k : ℤ) (es : List (Entry A)) → Found k es ⊎ Missing k es
  unfolding index_from lookup remove
  lookup_cases k [] = inr ((λ i. refl), refl, refl)
  lookup_cases k ((j, a) ∷ es) = elim (Bool-cases (eq_ℤ j k)) [
    | inl hit ↦ inl (
      0,
      a,
      (λ i. rw hit (ap some (omega arith))),
      omega arith,
      rw ((eq_ℤ_iff j k).0 hit) refl,
      rw hit,
      rw hit (last_first-Removed (j, a) es),
    )
    | inr miss ↦ elim (lookup_cases k es) [
      | inl (p, b, at_i, inside, here, e, d) ↦ inl (
        suc p,
        b,
        (λ i. rw miss (at_i (i + 1) ∙ ap some (omega arith))),
        omega arith,
        here,
        rw miss e,
        rw miss (cons-Removed (j, a) p es (remove k es) d inside),
      )
      | inr (at_i, e, same) ↦
          inr ((λ i. rw miss (at_i (i + 1))), rw miss e, rw miss (ap (◌∷◌ (j, a)) same))
    ]
  ]

  -- Under distinct keys the order of the entries does not matter to a lookup.
  lookup-last_first :
      (j : ℤ) (x : Entry A) (xs : List (Entry A))
      → UniqueKeys (x ∷ xs)
      → lookup j (last_of x xs ∷ front_of x xs) ≡ lookup j (x ∷ xs)
  unfolding lookup
  lookup-last_first j x [] u = refl
  lookup-last_first j (k, a) (y ∷ ys) u = ground (
    arith,
    lookup-last_first j y ys u.1,
    lookup-last_first k y ys u.1,
    eq_ℤ_iff k j,
    eq_ℤ_iff (last_of y ys).0 j,
    eq_ℤ_iff (last_of y ys).0 k,
  )

  last_first-UniqueKeys :
      (x : Entry A) (xs : List (Entry A))
      → UniqueKeys (x ∷ xs)
      → UniqueKeys (last_of x xs ∷ front_of x xs)
  unfolding lookup
  last_first-UniqueKeys x [] u = (refl, tt)
  last_first-UniqueKeys (k, a) (y ∷ ys) u =
      let ih = last_first-UniqueKeys y ys u.1 in
      let same = lookup-last_first k y ys u.1 in
      let l = (last_of y ys).0 in
      (ground (arith, ih.0, same, eq_ℤ_iff k l, eq_ℤ_iff l k), (ground (arith, same), ih.1))

  last_first-unchanged :
      (j : ℤ) (es : List (Entry A)) → UniqueKeys es → lookup j (last_first es) ≡ lookup j es
  last_first-unchanged j [] u = refl
  last_first-unchanged j (x ∷ xs) u = lookup-last_first j x xs u

  pub length-remove-le : (k : ℤ) (es : List (Entry A)) → length (remove k es) ≤ length es
  length-remove-le k es = elim (lookup_cases k es) [
    | inl (j, a, at, inside, found, here, d) ↦ omega (arith, d.shorter)
    | inr (nowhere, missing, same) ↦ rw same (omega arith)
  ]

  -- After a removal the key is gone, and every other key is found as before.
  pub lookup-remove :
      (k j : ℤ) (es : List (Entry A))
      → UniqueKeys es
      → lookup j (remove k es) ≡ (if eq_ℤ k j then none else lookup j es)
  unfolding lookup remove
  lookup-remove k j [] u = ground arith
  lookup-remove k j ((i, a) ∷ es) u = ground (
    arith,
    eq_ℤ_iff i k,
    eq_ℤ_iff i j,
    eq_ℤ_iff k j,
    last_first-unchanged j es u.1,
    lookup-remove k j es u.1,
  )

  last_first-keeps : (es : List (Entry A)) → UniqueKeys es → UniqueKeys (last_first es)
  last_first-keeps [] u = tt
  last_first-keeps (x ∷ xs) u = last_first-UniqueKeys x xs u

  pub remove-UniqueKeys : (k : ℤ) (es : List (Entry A)) → UniqueKeys es → UniqueKeys (remove k es)
  unfolding remove
  remove-UniqueKeys k [] u = tt
  remove-UniqueKeys k ((i, a) ∷ es) u = elim (Bool-cases (eq_ℤ i k)) [
    | inl hit ↦ rw hit (last_first-keeps es u.1)
    | inr miss ↦ rw miss (gone miss, remove-UniqueKeys k es u.1)
  ]
    where
      gone : eq_ℤ i k ≡ false → lookup i (remove k es) ≡ none
      gone miss = ground (arith, lookup-remove k i es u.1, u.0, eq_ℤ_iff k i, eq_ℤ_iff i k)

  pub lookup-append :
      (j k : ℤ) (a : A) (es : List (Entry A))
      → lookup k es ≡ none
      → lookup j (es ++ (k, a) ∷ []) ≡ (if eq_ℤ k j then some a else lookup j es)
  unfolding lookup
  lookup-append j k a [] h = refl
  lookup-append j k a ((i, b) ∷ es) h =
      ground (arith, lookup-append j k a es, eq_ℤ_iff i j, eq_ℤ_iff i k, eq_ℤ_iff k j)

  pub append-UniqueKeys :
      (k : ℤ) (a : A) (es : List (Entry A))
      → lookup k es ≡ none
      → UniqueKeys es
      → UniqueKeys (es ++ (k, a) ∷ [])
  unfolding lookup
  append-UniqueKeys k a [] h u = (refl, tt)
  append-UniqueKeys k a ((i, b) ∷ es) h u = (
    ground (arith, lookup-append i k a es, eq_ℤ_iff i k, eq_ℤ_iff k i, u.0),
    append-UniqueKeys k a es (ground arith) u.1,
  )
