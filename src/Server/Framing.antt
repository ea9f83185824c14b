-- ===== src/Server/Framing.antt =====
-- The lines of `handle_msg`: they do not depend on how the reads cut the bytes of a client.
use why3_fork.Base.{
  ℕ, zero, suc, ◌+◌, ◌-◌, ◌≤◌, ◌≡◌, refl, sym, ap, subst, ◌∙◌, false, Option, none, some, List, [],
  ◌∷◌, ◌++◌, arith, length, drop, length-append, Result, ok, ◌>>=◌, ◌==◌, if◌then◌else◌, Bool-cases,
  Option-cases, inl, inr, >>=_assoc, >>=_congr,
}
use why3_fork.Base.Int.{ℤ}
use why3_fork.Request.{Bytes}
use why3_fork.Server.State.{Server, System}
use why3_fork.Server.Clients.{split_line, longer, handle_line, handle_lines}

abbrev add_byte : ℕ → List Bytes × Bytes → List Bytes × Bytes
add_byte c ([], rest) = ([], c ∷ rest)
add_byte c (line ∷ lines, rest) = ((c ∷ line) ∷ lines, rest)

-- The lines that a newline ends, and the bytes behind the last newline.
unfoldable pub cut : Bytes → List Bytes × Bytes
cut [] = ([], [])
cut (c ∷ cs) = if c == b'\n' then ([] ∷ (cut cs).0, (cut cs).1) else add_byte c (cut cs)

-- What `split_line` finds, by `cut`.
abbrev pub SplitOf : Bytes → Option (Bytes × Bytes) → Type 0
SplitOf bytes none = cut bytes ≡ ([], bytes)
SplitOf bytes (some (line, behind)) =
    (cut bytes ≡ (line ∷ (cut behind).0, (cut behind).1))
    × (length bytes ≡ length line + 1 + length behind)

longer-SplitOf :
    (c : ℕ) (cs : Bytes) (r : Option (Bytes × Bytes))
    → (c == b'\n') ≡ false
    → SplitOf cs r
    → SplitOf (c ∷ cs) (longer c r)
unfolding cut
longer-SplitOf c cs none e h = rw (e, h) refl
longer-SplitOf c cs (some (line, behind)) e (h, k) = (rw (e, h) refl, omega (arith, k))

pub split_line_lem : (bytes : Bytes) → SplitOf bytes (split_line bytes)
unfolding split_line cut
split_line_lem [] = refl
split_line_lem (c ∷ cs) = elim (Bool-cases (c == b'\n')) [
  | inl e ↦ rw e (rw e refl, omega arith)
  | inr e ↦ rw e (longer-SplitOf c cs (split_line cs) e (split_line_lem cs))
]

length-add_byte : (c : ℕ) (r : List Bytes × Bytes) → length (add_byte c r).1 ≤ suc (length r.1)
length-add_byte c ([], rest) = omega arith
length-add_byte c (line ∷ lines, rest) = omega arith

length-cut : (bytes : Bytes) → length (cut bytes).1 ≤ length bytes
unfolding cut
length-cut [] = omega arith
length-cut (c ∷ cs) = elim (Bool-cases (c == b'\n')) [
  | inl e ↦ rw e (omega (arith, length-cut cs))
  | inr e ↦ rw e (omega (arith, length-cut cs, length-add_byte c (cut cs)))
]

-- Without a newline, all the bytes are behind the last one.
add_byte-nil :
    (c : ℕ) (cs : Bytes) (r : List Bytes × Bytes)
    → (r.0 ≡ [] → r.1 ≡ cs)
    → (add_byte c r).0 ≡ []
    → (add_byte c r).1 ≡ c ∷ cs
add_byte-nil c cs ([], rest) h e = ap (◌∷◌ c) (h refl)
add_byte-nil c cs (line ∷ lines, rest) h e = cc

cut-nil : (bytes : Bytes) → (cut bytes).0 ≡ [] → (cut bytes).1 ≡ bytes
unfolding cut
cut-nil [] = λ e. refl
cut-nil (c ∷ cs) = elim (Bool-cases (c == b'\n')) [
  | inl t ↦ rw t (λ e. cc)
  | inr t ↦ rw t (add_byte-nil c cs (cut cs) (cut-nil cs))
]

sub_self : (a : ℕ) → suc a - suc a ≡ 0
sub_self a = omega arith

sub_suc : (a b : ℕ) → a ≤ b → suc b - a ≡ suc (b - a)
sub_suc a b h = omega (arith, h)

add_byte-drop :
    (c : ℕ) (cs : Bytes) (r : List Bytes × Bytes)
    → drop (length cs - length r.1) cs ≡ r.1
    → length r.1 ≤ length cs
    → (r.0 ≡ [] → r.1 ≡ cs)
    → drop (length (c ∷ cs) - length (add_byte c r).1) (c ∷ cs) ≡ (add_byte c r).1
add_byte-drop c cs ([], rest) h k all = rw (all refl, sub_self (length cs)) refl
add_byte-drop c cs (line ∷ lines, rest) h k all = rw (sub_suc (length rest) (length cs) k) h

-- The bytes behind the last newline are a suffix.
drop-cut : (bytes : Bytes) → drop (length bytes - length (cut bytes).1) bytes ≡ (cut bytes).1
unfolding cut
drop-cut [] = refl
drop-cut (c ∷ cs) = elim (Bool-cases (c == b'\n')) [
  | inl e ↦ rw (e, sub_suc (length (cut cs).1) (length cs) (length-cut cs)) (drop-cut cs)
  | inr e ↦ rw e (add_byte-drop c cs (cut cs) (drop-cut cs) (length-cut cs) (cut-nil cs))
]

add_byte-append :
    (c : ℕ) (b : Bytes) (r x : List Bytes × Bytes)
    → (c == b'\n') ≡ false
    → x ≡ (r.0 ++ (cut (r.1 ++ b)).0, (cut (r.1 ++ b)).1)
    → let y = add_byte c r in add_byte c x ≡ (y.0 ++ (cut (y.1 ++ b)).0, (cut (y.1 ++ b)).1)
unfolding cut
add_byte-append c b ([], rest) x e h = rw (e, h) refl
add_byte-append c b (line ∷ lines, rest) x e h = rw h refl

-- More bytes behind leave the lines that are there.
cut-append :
    (a b : Bytes) → cut (a ++ b) ≡ ((cut a).0 ++ (cut ((cut a).1 ++ b)).0, (cut ((cut a).1 ++ b)).1)
unfolding cut
cut-append [] b = refl
cut-append (c ∷ cs) b = elim (Bool-cases (c == b'\n')) [
  | inl e ↦ rw (e, cut-append cs b) refl
  | inr e ↦ rw e (add_byte-append c b (cut cs) (cut (cs ++ b)) e (cut-append cs b))
]

abbrev counted : ℕ → Server → Result (Server × ℕ)
counted k s = ok (s, k)

module _ (system : System) (key : ℤ) where
  -- The lines handled one after another.
  unfoldable pub handle_all : Server → List Bytes → Result Server
  handle_all s [] = ok s
  handle_all s (line ∷ lines) = do s' ← handle_line system s key line; handle_all s' lines

  handle_all-append :
      (s : Server) (xs ys : List Bytes)
      → handle_all s (xs ++ ys) ≡ (handle_all s xs >>= λ s'. handle_all s' ys)
  unfolding handle_all
  handle_all-append s [] ys = refl
  handle_all-append s (x ∷ xs) ys =
      >>=_congr (handle_line system s key x) (λ s'. handle_all-append s' xs ys)
      ∙ sym (>>=_assoc (handle_line system s key x) _ _)

  -- With at least as many rounds as bytes, the loop of `handle_msg` handles every line that a
  -- newline ends, in order, and counts the bytes up to the last newline.
  pub handle_lines_lem :
      (fuel : ℕ) (s : Server) (old : ℕ) (bytes : Bytes)
      → length bytes ≤ fuel
      → handle_lines system fuel s key old bytes ≡ (
          handle_all s (cut bytes).0 >>= λ s'. ok (s', old + (length bytes - length (cut bytes).1)))
  unfolding handle_lines handle_all cut
  handle_lines_lem zero s old [] h = ground arith
  handle_lines_lem zero s old (c ∷ cs) h = elim h [ ]
  handle_lines_lem (suc fuel) s old bytes h = elim (Option-cases (split_line bytes)) [
    | inl e ↦
        let c = subst (SplitOf bytes) e (split_line_lem bytes) in
        rw (e, handle_lines, c) (ground arith)
    | inr ((line, behind), e) ↦
        let (c, n) = subst (SplitOf bytes) e (split_line_lem bytes) in
        rw (e, handle_lines, c)
          (>>=_congr (handle_line system s key line) (λ s'.
              handle_lines_lem fuel s' (old + length line + 1) behind (omega (arith, n, h))
              ∙ >>=_congr (handle_all s' (cut behind).0)
                  (λ s''. ap (λ k. ok (s'', k)) (omega (arith, n, length-cut behind))))
            ∙ sym (>>=_assoc (handle_line system s key line) _ _))
  ]

  -- The second piece, behind the `k` bytes that the first one has completed.
  resume :
      (s : Server) (a b : Bytes) (k : ℕ)
      → k ≡ length a - length (cut a).1
      → (let bytes = (cut a).1 ++ b in
          handle_all s (cut bytes).0 >>= λ s'.
          counted (0 + (length (a ++ b) - length (cut bytes).1)) s')
        ≡ (let rest = drop k a ++ b in
            handle_lines system (length rest) s key 0 rest >>= λ (s', more). counted (k + more) s')
  resume s a b k e =
      let bytes = (cut a).1 ++ b in
      rw
        (
          (ap (λ k. drop k a) e ∙ drop-cut a),
          handle_lines_lem (length bytes) s 0 bytes (omega arith),
        )
        (>>=_congr (handle_all s (cut bytes).0) (λ s'.
            ap (λ k. counted k s')
              (omega (
                arith,
                e,
                length-append a b,
                length-append (cut a).1 b,
                length-cut bytes,
                length-cut a,
              )))
          ∙ sym (>>=_assoc (handle_all s (cut bytes).0) _ _))

  -- The handling of bytes that come in two pieces, where the bytes behind the last newline of
  -- the first piece wait for the second one, is that of the bytes in one piece: the same lines
  -- are handled in the same order, and the same number of bytes is counted.
  pub handle_lines-append :
      (s : Server) (a b : Bytes)
      → handle_lines system (length (a ++ b)) s key 0 (a ++ b) ≡ (
          handle_lines system (length a) s key 0 a >>= λ (s', old).
          (let rest = drop old a ++ b in
            handle_lines system (length rest) s' key 0 rest >>= λ (s'', more).
            counted (old + more) s''))
  handle_lines-append s a b =
      let (ls, rest) = cut a in
      let bytes = rest ++ b in
      rw
        (
          handle_lines_lem (length (a ++ b)) s 0 (a ++ b) (omega arith),
          handle_lines_lem (length a) s 0 a (omega arith),
          cut-append a b,
          handle_all-append s (cut a).0 (cut bytes).0,
        )
        (>>=_assoc (handle_all s ls) _ _
          ∙ >>=_congr (handle_all s ls) (λ s'. resume s' a b _ (omega arith))
          ∙ sym (>>=_assoc (handle_all s ls) _ _))
