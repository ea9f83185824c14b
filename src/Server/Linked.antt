-- ===== src/Server/Linked.antt =====
-- The list of clients and the heap in server-unix.c: an address in the list is that of a client that
-- has not been freed, under its descriptor.
use why3_fork.Base.{
  ℕ, ◌<◌, ◌^◌, ◌≡◌, refl, sym, ap, ◌∙◌, subst, Bool, true, false, Option, none, some, List, [], ◌∷◌,
  ◌++◌, arith, length, get_elem?, set, get_elem?-lt, get_elem?-set_ne, get_elem?-set_self,
  get_elem?-append_left, get_elem?-append_right, Result, ok, load, store, load-inverse, ltb, AllOk,
  returns, stops, if◌then◌else◌, Bool-cases, ◌⊎◌, inl, inr,
}
use native.Mathlib.Decide.{ℕ_discrete}
use why3_fork.Base.Int.{ℤ, eq_ℤ, eq_ℤ_iff}
use why3_fork.ArrayList.{ArrayList, list_lookup, list_append, list_remove, list_length}
use why3_fork.ArrayList.Entries.{Entry, lookup, remove, UniqueKeys}
use why3_fork.ArrayList.Holds.{Holds, list_lookup_lem, list_length_lem}
use why3_fork.ArrayList.Table.{list_lookup-list_remove, list_lookup-list_append}
use why3_fork.Server.State.{Client}

-- The client at an address, with its descriptor.
abbrev pub IsClient : List (Option Client) → ℕ → ℤ → Type 0
IsClient heap ptr fd = (c : Client) × (get_elem? heap ptr ≡ some (some c)) × (c.fd ≡ fd)

pub record Linked (clients : ArrayList ℕ) (heap : List (Option Client)) : Type 0 where
  pub cs : List (Entry ℕ)
  pub holds : Holds clients cs
  pub unique : UniqueKeys cs
  pub alive : (fd : ℤ) (ptr : ℕ) → list_lookup clients fd ≡ ok (some ptr) → IsClient heap ptr fd

-- Every client keeps its address and its descriptor.
abbrev pub Kept : List (Option Client) → List (Option Client) → Type 0
Kept heap heap' = (ptr : ℕ) (fd : ℤ) → IsClient heap ptr fd → IsClient heap' ptr fd

pub Linked-Kept :
    {clients : ArrayList ℕ} {heap heap' : List (Option Client)}
    → Linked clients heap
    → Kept heap heap'
    → Linked clients heap'
Linked-Kept v kept = record {
  cs = v.cs;
  holds = v.holds;
  unique = v.unique;
  alive = λ fd ptr e. kept ptr fd (v.alive fd ptr e);
}

pub set-Kept :
    (heap : List (Option Client)) (ptr : ℕ) (old new : Client)
    → get_elem? heap ptr ≡ some (some old)
    → new.fd ≡ old.fd
    → Kept heap (set heap ptr (some new))
set-Kept heap ptr old new at same q fd (c, here, e) = elim (ℕ_discrete ptr q) [
  | yes p ↦
      let heap' = set heap ptr (some new) in
      let here' : get_elem? heap ptr ≡ some (some c) = ap (get_elem? heap) p ∙ here in
      let fd_here : new.fd ≡ fd = cc in
      (
        new,
        ap (get_elem? heap') (sym p)
            ∙ get_elem?-set_self heap ptr (some new) (get_elem?-lt heap ptr at),
        fd_here,
      )
  | no other ↦ (c, get_elem?-set_ne heap (some new) other ∙ here, e)
]

-- A write through a pointer that leaves the descriptor as it is.
pub store-Kept :
    (heap : List (Option Client)) (ptr : ℕ) (old new : Client)
    → load heap ptr ≡ ok old
    → new.fd ≡ old.fd
    → AllOk (Kept heap) (store heap ptr new)
unfolding store
store-Kept heap ptr old new at same = elim (Bool-cases (ltb ptr (length heap))) [
  | inl inside ↦ rw inside (returns (set-Kept heap ptr old new (load-inverse heap ptr at) same))
  | inr outside ↦ rw outside stops
]

-- Without the address of a client, the addresses under other descriptors are those of clients.
IsClient-free :
    (heap : List (Option Client)) (ptr q : ℕ) (c : Client) (fd : ℤ)
    → load heap ptr ≡ ok c
    → eq_ℤ c.fd fd ≡ false
    → IsClient heap q fd
    → IsClient (set heap ptr none) q fd
IsClient-free heap ptr q c fd at differs (d, here, e) = elim (ℕ_discrete ptr q) [
  | yes p ↦
      let here' : get_elem? heap ptr ≡ some (some d) = ap (get_elem? heap) p ∙ here in
      let same : some (some c) ≡ some (some d) = sym (load-inverse heap ptr at) ∙ here' in
      let fds : c.fd ≡ fd = cc in
      let hit : eq_ℤ c.fd fd ≡ true = (eq_ℤ_iff c.fd fd).1 fds in absurd cc
  | no other ↦ (d, get_elem?-set_ne heap none other ∙ here, e)
]

-- What a lookup finds in the list without a descriptor.
found_other :
    (clients : ArrayList ℕ) (j : ℤ) (test : Bool) (ptr : ℕ) (r : Result (Option ℕ))
    → r ≡ (if test then ok none else list_lookup clients j)
    → r ≡ ok (some ptr)
    → (test ≡ false) × (list_lookup clients j ≡ ok (some ptr))
found_other clients j true ptr r e h = absurd cc
found_other clients j false ptr r e h = (refl, sym e ∙ h)

-- `list_remove` and `free` of a client.
pub remove-Linked :
    (clients clients' : ArrayList ℕ) (heap : List (Option Client)) (ptr : ℕ) (c : Client)
    → load heap ptr ≡ ok c
    → list_remove clients c.fd ≡ ok clients'
    → Linked clients heap
    → Linked clients' (set heap ptr none)
remove-Linked clients clients' heap ptr c at removed v =
    let (l, e, found, w, u) = list_lookup-list_remove v.cs c.fd v.holds v.unique in
    let same : l ≡ clients' = cc in
    subst (λ k. Linked k (set heap ptr none)) same
      (record {
        cs = remove c.fd v.cs;
        holds = w;
        unique = u;
        alive = λ fd q h.
            let (differs, before) =
              found_other clients fd (eq_ℤ c.fd fd) q (list_lookup l fd) (found fd) h in
            IsClient-free heap ptr q c fd at differs (v.alive fd q before);
      })

IsClient-more :
    (heap : List (Option Client)) (c : Client) (q : ℕ) (fd : ℤ)
    → IsClient heap q fd
    → IsClient (heap ++ some c ∷ []) q fd
IsClient-more heap c q fd (d, here, e) =
    (d, get_elem?-append_left heap (some c ∷ []) q (get_elem?-lt heap q here) ∙ here, e)

-- What a lookup finds in the list with one more entry.
found_more :
    (clients : ArrayList ℕ) (j : ℤ) (test : Bool) (new ptr : ℕ) (r : Result (Option ℕ))
    → r ≡ (if test then ok (some new) else list_lookup clients j)
    → r ≡ ok (some ptr)
    → ((test ≡ true) × (ptr ≡ new)) ⊎ (list_lookup clients j ≡ ok (some ptr))
found_more clients j true new ptr r e h = inl (refl, cc)
found_more clients j false new ptr r e h = inr (sym e ∙ h)

-- `malloc` of a client and `list_append`, under a descriptor that is not in the list.
pub append-Linked :
    (clients clients' : ArrayList ℕ) (heap : List (Option Client)) (c : Client)
    → list_lookup clients c.fd ≡ ok none
    → list_length clients < 2 ^ 30
    → list_append clients c.fd (length heap) ≡ ok clients'
    → Linked clients heap
    → Linked clients' (heap ++ some c ∷ [])
append-Linked clients clients' heap c fresh few appended v =
    let absent : lookup c.fd v.cs ≡ none =
      let found : ok (lookup c.fd v.cs) ≡ ok none =
        sym (list_lookup_lem v.cs c.fd v.holds) ∙ fresh in
      cc in
    let small : length v.cs < 2 ^ 30 = omega (arith, few, list_length_lem v.cs v.holds) in
    let (l, e, found, w, u) =
      list_lookup-list_append v.cs c.fd (length heap) v.holds v.unique absent small in
    let same : l ≡ clients' = cc in
    subst (λ k. Linked k (heap ++ some c ∷ [])) same
      (record {
        cs = v.cs ++ (c.fd, length heap) ∷ [];
        holds = w;
        unique = u;
        alive = λ fd q h.
            elim (found_more clients fd (eq_ℤ c.fd fd) (length heap) q (list_lookup l fd) (found fd)
              h) [
                | inl (hit, e') ↦ (
                  c,
                  get_elem?-append_right heap (some c ∷ []) q 0 (omega (arith, e')),
                  (eq_ℤ_iff c.fd fd).0 hit,
                )
                | inr before ↦ IsClient-more heap c q fd (v.alive fd q before)
              ];
      })
