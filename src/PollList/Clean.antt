-- ===== src/PollList/Clean.antt =====
-- `poll_list_clean` of src/server/server-unix.c on the entries that a poll list holds.
use mathlib.Core.List.{Perm, perm_middle, append_assoc}
use mathlib.Core.List.Perm
use why3_fork.Base.{
  ℕ, zero, suc, ◌+◌, ◌-◌, ◌≡◌, refl, sym, ap, ◌∙◌, subst, true, Option, some, List, [], ◌∷◌, ◌++◌,
  arith, length, length-append, Result, ok, block, load, store, load-block, length-block,
  Bool-cases, inl, inr, ◌>>=◌, ltb,
}
use why3_fork.Base.Int.{ℤ, eq_ℤ, minus_one}
use why3_fork.PollList.{PollFd, PollList, clean_from, poll_list_remove, poll_list_clean}
use why3_fork.PollList.Entries.{Holds}
use why3_fork.PollList.Places.{
  append_nil, append_one, get_at, store_at, snoc_cases, block-snoc, held,
}
use why3_fork.PollList.Remove.{
  live, without, marked, live-marked, length-marked, poll_list_remove_lem,
}

live-append : (xs ys : List PollFd) → live (xs ++ ys) ≡ live xs ++ live ys
live-append [] ys = refl
live-append (x ∷ xs) ys = elim (Bool-cases (eq_ℤ x.fd minus_one)) [
  | inl dead ↦ rw dead (live-append xs ys)
  | inr alive ↦ rw alive (ap (λ l. x ∷ l) (live-append xs ys))
]

-- The last entry may as well stand first.
live-last : (x : PollFd) (xs : List PollFd) → Perm (live (x ∷ xs)) (live (xs ++ x ∷ []))
live-last x xs = elim (Bool-cases (eq_ℤ x.fd minus_one)) [
  | inl dead ↦ rw (live-append xs (x ∷ []), dead, append_nil (live xs)) (Perm.refl (live xs))
  | inr alive ↦
      rw (live-append xs (x ∷ []), alive)
        (Perm.symm (
          subst (λ l. Perm (live xs ++ x ∷ []) (x ∷ l)) (append_nil (live xs))
            (perm_middle (live xs) [])))
]

-- A removed entry is overwritten by the last one, which is left behind the others.
record Moved (es seen : List PollFd) (todo : List PollFd) (rest : List (Option PollFd)) (i num : ℕ)
    : Type 0 where
  last : PollFd
  left : List PollFd
  loads : load (block es rest) (num - 1) ≡ ok last
  stores : store (block es rest) i last ≡ ok (block (seen ++ left) (some last ∷ rest))
  size : length left ≡ length todo
  same : Perm (live left) (live todo)

move_last :
    (es seen : List PollFd) (t : PollFd) (todo : List PollFd) (rest : List (Option PollFd))
    (i num : ℕ)
    → es ≡ seen ++ t ∷ todo
    → i ≡ length seen
    → num ≡ i + suc (length todo)
    → Moved es seen todo rest i num
move_last es seen t todo rest i num e h k = elim (snoc_cases todo) [
  | inl none_left ↦ record {
    last = t;
    left = [];
    loads =
        load-block es rest (num - 1)
          (get_at seen t todo e (omega (arith, h, k, ap length none_left)));
    stores =
        store_at seen t t todo rest e h
        ∙ rw none_left (ap ok (block-snoc seen t rest ∙ rw (append_nil seen) refl));
    size = ap length (sym none_left);
    same = rw none_left (Perm.refl []);
  }
  | inr (ys, y, split) ↦ record {
    last = y;
    left = y ∷ ys;
    loads = load-block es rest (num - 1) (
        get_at (seen ++ t ∷ ys) y [] (e ∙ rw split (sym (append_assoc seen (t ∷ ys) (y ∷ [])))) (
          omega (
            arith,
            h,
            k,
            ap length split,
            length-append seen (t ∷ ys),
            length-append ys (y ∷ []),
          )));
    stores =
        store_at seen t y todo rest e h
        ∙ rw (split, sym (append_assoc seen (y ∷ ys) (y ∷ [])))
            (ap ok (block-snoc (seen ++ y ∷ ys) y rest));
    size = omega (arith, ap length split, length-append ys (y ∷ []));
    same = rw split (live-last y ys);
  }
]

-- What is left once the loop has cleaned the entries behind those that it has seen.
record Swept (seen todo : List PollFd) (rest : List (Option PollFd))
    (answer : Result (List (Option PollFd) × ℕ)) : Type 0 where
  kept : List PollFd
  behind : List (Option PollFd)
  runs : answer ≡ ok (block kept behind, length kept)
  same : Perm kept (seen ++ live todo)
  size : length kept + length behind ≡ length seen + length todo + length rest

clean_from_lem :
    (n : ℕ) (es seen todo : List PollFd) (rest : List (Option PollFd)) (i num : ℕ)
    → es ≡ seen ++ todo
    → i ≡ length seen
    → n ≡ length todo
    → num ≡ i + n
    → Swept seen todo rest (clean_from n (block es rest) i num)
unfolding clean_from
clean_from_lem zero es seen [] rest i num e h m k = record {
  kept = seen;
  behind = rest;
  runs = rw (e, append_nil seen) (ap (λ l. ok (block seen rest, l)) (omega (arith, k, h)));
  same = rw (append_nil seen) (Perm.refl seen);
  size = omega arith;
}
clean_from_lem zero es seen (t ∷ todo) rest i num e h m k = absurd (omega (arith, m))
clean_from_lem (suc n) es seen [] rest i num e h m k = absurd (omega (arith, m))
clean_from_lem (suc n) es seen (t ∷ todo) rest i num e h m k =
    let inside : ltb i num ≡ true = ground arith in
    let at = load-block es rest i (get_at seen t todo e h) in
    elim (Bool-cases (eq_ℤ t.fd minus_one)) [
      | inr alive ↦
          let d =
            clean_from_lem n es (seen ++ t ∷ []) todo rest (i + 1) num
              (e ∙ sym (append_one seen t todo)) (omega (arith, h, length-append seen (t ∷ [])))
              (omega (arith, m)) (omega (arith, k)) in
          rw (inside, at, alive)
            (record {
              kept = d.kept;
              behind = d.behind;
              runs = d.runs;
              same = rw alive (subst (Perm d.kept) (append_one seen t (live todo)) d.same);
              size = omega (arith, d.size, length-append seen (t ∷ []));
            })
      | inl dead ↦
          let moved = move_last es seen t todo rest i num e h (omega (arith, k, m)) in
          let d =
            clean_from_lem n (seen ++ moved.left) seen moved.left (some moved.last ∷ rest) i
              (num - 1) refl h (omega (arith, m, moved.size)) (omega (arith, k)) in
          rw (inside, at, dead, moved.loads, moved.stores)
            (record {
              kept = d.kept;
              behind = d.behind;
              runs = d.runs;
              same = rw dead (Perm.trans d.same (Perm.append (Perm.refl seen) moved.same));
              size = omega (arith, d.size, moved.size);
            })
    ]

-- The list that a removal and the next cleaning leave.
pub record Cleaned (p : PollList) (es : List PollFd) (d : ℤ) (answer : Result PollList)
    : Type 0 where
  pub after : PollList
  pub kept : List PollFd
  pub runs : answer ≡ ok after
  pub holds : Holds after kept
  pub same : Perm kept (live (without d es))
  pub memory : length after.poll_list ≡ length p.poll_list
  pub capacity : after.poll_len ≡ p.poll_len

-- `poll_list_remove` and the `poll_list_clean` behind it return, for a list that holds any entries: it then
-- holds, in some order, exactly the entries that had not been removed before, but the first one with the
-- descriptor, each as it was. The memory keeps its size.
pub poll_list_remove-clean_lem :
    (p : PollList) (es : List PollFd) (d : ℤ)
    → Holds p es
    → Cleaned p es d (do removed ← poll_list_remove p d; poll_list_clean removed)
unfolding poll_list_clean
poll_list_remove-clean_lem p es d v =
    let marks = marked d es in
    let count = length-marked d es in
    let swept =
      clean_from_lem (length es) marks [] marks v.rest 0 (length es) refl refl (sym count)
        (omega arith) in
    record {
      after = held (length swept.kept) p.poll_len swept.kept swept.behind;
      kept = swept.kept;
      runs = rw (poll_list_remove_lem p es d v, swept.runs) refl;
      holds = record { rest = swept.behind; cells = refl; count = refl };
      same = subst (Perm swept.kept) (live-marked d es) swept.same;
      memory = omega (
        arith,
        swept.size,
        count,
        length-block swept.kept swept.behind,
        length-block es v.rest,
        ap length v.cells,
      );
      capacity = refl;
    }
