-- ===== src/Request/Fields.antt =====
-- A line as its fields between semicolons, and `copy_up_to_semicolon` as a walk over them.
use why3_fork.Base.{
  ℕ, suc, ◌+◌, ◌-◌, ◌≤◌, ◌<◌, ◌≡◌, refl, sym, ap, ◌∙◌, List, [], ◌∷◌, arith, length, drop, take,
  length-drop, drop-drop, Bool-cases, inl, inr, if◌then◌else◌, ◌==◌,
}
use why3_fork.Request.{Bytes, count_from, count_semicolons, scan, copy_up_to_semicolon}

-- The bytes before the first semicolon, and the fields behind it.
abbrev pub first_field : Bytes → Bytes
first_field [] = []
first_field (c ∷ cs) = if c == b';' then [] else c ∷ first_field cs

abbrev pub later_fields : Bytes → List Bytes
later_fields [] = []
later_fields (c ∷ cs) =
    let later = later_fields cs in if c == b';' then first_field cs ∷ later else later

-- The fields of a line, at least one.
abbrev pub fields : Bytes → List Bytes
fields buf = first_field buf ∷ later_fields buf

count_from-fields : (n : ℕ) (buf : Bytes) → count_from n buf ≡ n + length (later_fields buf)
unfolding count_from
count_from-fields n [] = omega arith
count_from-fields n (c ∷ cs) = elim (Bool-cases (c == b';')) [
  | inl semi ↦ rw semi (omega (arith, count_from-fields (n + 1) cs))
  | inr other ↦ rw other (count_from-fields n cs)
]

-- There are as many fields behind the first one as there are semicolons.
pub count_semicolons-fields : (buf : Bytes) → count_semicolons buf ≡ length (later_fields buf)
unfolding count_semicolons
count_semicolons-fields buf = count_from-fields 0 buf ∙ omega arith

-- What a scan from index `i` finds.
record Scanned (i : ℕ) (rest : Bytes) : Type 0 where
  stop : scan i rest ≡ i + length (first_field rest)
  text : take (length (first_field rest)) rest ≡ first_field rest
  last : later_fields rest ≡ [] → length (first_field rest) ≡ length rest
  next :
      (g : Bytes) (gs : List Bytes)
      → later_fields rest ≡ g ∷ gs
      → (length (first_field rest) < length rest)
        × (fields (drop (suc (length (first_field rest))) rest) ≡ g ∷ gs)

scan-Scanned : (i : ℕ) (rest : Bytes) → Scanned i rest
unfolding scan
scan-Scanned i [] = record {
  stop = omega arith;
  text = refl;
  last = λ e. refl;
  next = λ g gs e. absurd (cc);
}
scan-Scanned i (c ∷ cs) = elim (Bool-cases (c == b';')) [
  | inl semi ↦ record {
    stop = rw semi (omega arith);
    text = rw semi;
    last = λ e. cc (rw semi at e);
    next = λ g gs. rw semi (λ e. (omega arith, e));
  }
  | inr other ↦
      let ih = scan-Scanned (i + 1) cs in
      record {
        stop = rw other (omega (arith, ih.stop));
        text = rw other (ap (◌∷◌ c) ih.text);
        last = rw other (λ e. ap suc (ih.last e));
        next = rw other (λ g gs e. (omega (arith, (ih.next g gs e).0), (ih.next g gs e).1));
      }
]

-- The fields that stand from place `p` of a line on.
pub record At (buf : Bytes) (p : ℕ) (fs : List Bytes) : Type 0 where
  pub inside : p ≤ length buf
  pub rest : fields (drop p buf) ≡ fs

pub start-At : (buf : Bytes) → At buf 0 (fields buf)
start-At buf = record { inside = omega arith; rest = refl }

copy_cases :
    (buf : Bytes) (p : ℕ)
    → p ≤ length buf
    → let f = first_field (drop p buf) in
      copy_up_to_semicolon buf p
      ≡ (if p + length f == length buf then (0, f) else (p + length f + 1, f))
unfolding copy_up_to_semicolon
copy_cases buf p h =
    let s = scan-Scanned p (drop p buf) in
    let n = length (first_field (drop p buf)) in
    let e : p + n - p ≡ n = omega arith in rw (s.stop, e, s.text)

-- A field that a semicolon ends is copied, and the walk goes on behind the semicolon.
pub copy-At :
    {buf : Bytes} {p : ℕ} (f g : Bytes) (gs : List Bytes)
    → At buf p (f ∷ g ∷ gs)
    → (copy_up_to_semicolon buf p ≡ (p + length f + 1, f)) × At buf (p + length f + 1) (g ∷ gs)
copy-At {buf} {p} f g gs v =
    let ef : first_field (drop p buf) ≡ f = cc in
    let s = scan-Scanned p (drop p buf) in
    let (short, later) = s.next g gs (cc) in
    let n = length (first_field (drop p buf)) in
    let size : p + n + 1 ≤ length buf = omega (arith, short, length-drop p buf) in
    let en : n ≡ length f = ap length ef in
    (
      copy_cases buf p v.inside ∙ ground (arith, ef, en, size),
      record {
        inside = omega (arith, size, en);
        rest =
            ap (λ k. fields (drop k buf)) (omega (arith, en))
            ∙ ap fields (sym (drop-drop p (suc n) buf))
            ∙ later;
      },
    )

-- The last field is copied, and the index 0 is returned.
pub copy-At_last :
    {buf : Bytes} {p : ℕ} (f : Bytes) → At buf p (f ∷ []) → copy_up_to_semicolon buf p ≡ (0, f)
copy-At_last {buf} {p} f v =
    let ef : first_field (drop p buf) ≡ f = cc in
    let s = scan-Scanned p (drop p buf) in
    let end : length (first_field (drop p buf)) ≡ length (drop p buf) = s.last (cc) in
    copy_cases buf p v.inside ∙ ground (arith, ef, end, length-drop p buf, v.inside)
