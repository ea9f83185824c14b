-- ===== src/WinServer/CommandLine/Decoded.antt =====
-- The arguments that a Windows program reads from its command line, by the rules that Microsoft
-- documents for `argv`: they are those of the request.
use why3_fork.Base.{
  ℕ, zero, suc, ◌+◌, ◌/◌, ◌%◌, ◌<◌, ◌≡◌, refl, sym, ap, ◌∙◌, Bool, true, false, not, ◌&&◌, ◌||◌,
  List, [], ◌∷◌, ◌++◌, append_assoc, append-nil, arith, length, ◌==◌, ltb, ok, if◌then◌else◌,
  Bool-cases, List-cases, inl, inr,
}
use why3_fork.WinServer.CommandLine.{
  Bytes, quote, backslash, space, has_special, need_quote, buffer_size, build_command,
}
use why3_fork.WinServer.CommandLine.Escaped.{
  slashes, piece, escaped, encoded, encoded_all, build_command_lem,
}

abbrev pub tab : ℕ
tab = 9

-- The reader of arguments: whether it is between quotes, whether it has begun an argument, the
-- backslashes that it has just read, and the argument so far. Backslashes stand for themselves
-- but before a quote: there two of them are one, and a last single one makes the quote a byte.
unfoldable pub read_arguments : Bool → Bool → ℕ → Bytes → Bytes → List Bytes
read_arguments quoting begun k arg [] = if begun then (arg ++ slashes k) ∷ [] else []
read_arguments quoting begun k arg (c ∷ cs) =
    let more = read_arguments quoting true (suc k) arg cs in
    let toggled = read_arguments (not quoting) true 0 (arg ++ slashes (k / 2)) cs in
    let literal = read_arguments quoting true 0 (arg ++ (slashes (k / 2) ++ quote ∷ [])) cs in
    let next = read_arguments false false 0 [] cs in
    let copied = read_arguments quoting true 0 (arg ++ (slashes k ++ c ∷ [])) cs in
    if c == backslash
    then more
    else if c == quote
    then if k % 2 == 0 then toggled else literal
    else if not quoting && (c == space || c == tab)
    then if begun then (arg ++ slashes k) ∷ next else next
    else copied

unfoldable pub decoded : Bytes → List Bytes
decoded text = read_arguments false false 0 [] text

read-slashes :
    (n : ℕ) (quoting : Bool) (k : ℕ) (arg rest : Bytes)
    → read_arguments quoting true k arg (slashes n ++ rest)
      ≡ read_arguments quoting true (n + k) arg rest
unfolding read_arguments
read-slashes zero quoting k arg rest =
    ap (λ m. read_arguments quoting true m arg rest) (omega arith)
read-slashes (suc n) quoting k arg rest =
    read-slashes n quoting (suc k) arg rest
    ∙ ap (λ m. read_arguments quoting true m arg rest) (omega arith)

read-quote_even :
    (m : ℕ) (quoting : Bool) (arg cs : Bytes)
    → read_arguments quoting true (m + m) arg (quote ∷ cs)
      ≡ read_arguments (not quoting) true 0 (arg ++ slashes m) cs
unfolding read_arguments
read-quote_even m quoting arg cs =
    let even : ((m + m) % 2 == 0) ≡ true = ground arith in
    let half : (m + m) / 2 ≡ m = omega arith in rw (even, half) refl

read-quote_odd :
    (m : ℕ) (quoting : Bool) (arg cs : Bytes)
    → read_arguments quoting true (suc (m + m)) arg (quote ∷ cs)
      ≡ read_arguments quoting true 0 (arg ++ (slashes m ++ quote ∷ [])) cs
unfolding read_arguments
read-quote_odd m quoting arg cs =
    let odd : (suc (m + m) % 2 == 0) ≡ false = ground arith in
    let half : suc (m + m) / 2 ≡ m = omega arith in rw (odd, half) refl

slashes-suc : (k : ℕ) (xs : Bytes) → slashes (suc k) ++ xs ≡ slashes k ++ backslash ∷ xs
slashes-suc zero xs = refl
slashes-suc (suc k) xs = ap (◌∷◌ backslash) (slashes-suc k xs)

abbrev pub EscapedRead : ℕ → Bytes → Bytes → Bytes → Type 0
EscapedRead k rest arg tail =
    read_arguments true true k arg (escaped k rest ++ quote ∷ tail)
    ≡ read_arguments false true 0 (arg ++ (slashes k ++ rest)) tail

escaped-quote :
    (k : ℕ) (cs arg tail : Bytes)
    → EscapedRead 0 cs (arg ++ (slashes k ++ quote ∷ [])) tail
    → EscapedRead k (quote ∷ cs) arg tail
unfolding read_arguments escaped piece
escaped-quote k cs arg tail ih =
    let more = escaped 0 cs ++ quote ∷ tail in
    rw (append_assoc (slashes k ++ backslash ∷ quote ∷ []) (escaped 0 cs) (quote ∷ tail)) (
      rw (append_assoc (slashes k) (backslash ∷ quote ∷ []) more) (
        read-slashes k true k arg (backslash ∷ quote ∷ more)
        ∙ read-quote_odd k true arg more
        ∙ ih
        ∙ ap (λ t. read_arguments false true 0 t tail)
            (append_assoc arg (slashes k ++ quote ∷ []) cs
              ∙ ap (λ t. arg ++ t) (append_assoc (slashes k) (quote ∷ []) cs))))

escaped-last_slash : (k : ℕ) (arg tail : Bytes) → EscapedRead k (backslash ∷ []) arg tail
unfolding read_arguments escaped piece
escaped-last_slash k arg tail =
    ap (λ t. read_arguments true true (suc k) arg (t ++ quote ∷ tail))
      (append-nil (slashes (suc k)))
    ∙ read-slashes (suc k) true (suc k) arg (quote ∷ tail)
    ∙ read-quote_even (suc k) true arg tail
    ∙ ap (λ t. read_arguments false true 0 (arg ++ t) tail)
        (sym (append-nil (slashes (suc k))) ∙ slashes-suc k [])

-- Between quotes, an escaped argument and the closing quote.
read-escaped : (k : ℕ) (rest arg tail : Bytes) → (rest ≡ [] → k ≡ 0) → EscapedRead k rest arg tail
unfolding read_arguments escaped piece
read-escaped k [] arg tail h = rw (h refl) (read-quote_even 0 true arg tail)
read-escaped k (c ∷ cs) arg tail h = elim (Bool-cases (c == quote)) [
  | inl e ↦
      let same : c ≡ quote = ground arith in
      rw same (escaped-quote k cs arg tail (read-escaped 0 cs _ tail (λ n. refl)))
  | inr e ↦ elim (Bool-cases (c == backslash)) [
    | inl b ↦
        let same : c ≡ backslash = ground arith in
        elim (List-cases cs) [
          | inl n ↦ rw (same, n) (escaped-last_slash k arg tail)
          | inr (d, ds, n) ↦
              let long : (length cs == 0) ≡ false = rw n (ground arith) in
              rw (same, long)
                (read-escaped (suc k) cs arg tail (λ m. cc)
                  ∙ ap (λ t. read_arguments false true 0 (arg ++ t) tail) (slashes-suc k cs))
        ]
    | inr b ↦
        rw (e, b)
          (rw e (
            read-escaped 0 cs (arg ++ (slashes k ++ c ∷ [])) tail (λ n. refl)
            ∙ ap (λ t. read_arguments false true 0 t tail)
                (append_assoc arg (slashes k ++ c ∷ []) cs
                  ∙ ap (λ t. arg ++ t) (append_assoc (slashes k) (c ∷ []) cs))))
  ]
]

-- An argument that the reader takes as it stands: no tab outside quotes.
abbrev pub has_tab : Bytes → Bool
has_tab [] = false
has_tab (c ∷ cs) = c == tab || has_tab cs

abbrev pub Untabbed : List Bytes → Type 0
Untabbed [] = Unit {0}
Untabbed (ca ∷ args) = ((has_tab ca && not (need_quote ca)) ≡ false) × Untabbed args

-- Outside quotes, an argument without special bytes and the space behind it.
read-plain :
    (begun : Bool) (k : ℕ) (ca arg tail : Bytes)
    → has_special ca ≡ false
    → has_tab ca ≡ false
    → (begun || not (length ca == 0)) ≡ true
    → read_arguments false begun k arg (ca ++ space ∷ tail)
      ≡ (arg ++ (slashes k ++ ca)) ∷ read_arguments false false 0 [] tail
unfolding read_arguments has_special
read-plain true k [] arg tail h t b = rw (append-nil (slashes k)) refl
read-plain false k [] arg tail h t b = cc
read-plain begun k (c ∷ cs) arg tail h t b =
    let blank : (c == space) ≡ false = ground arith in
    let quoted : (c == quote) ≡ false = ground arith in
    let tabbed : (c == tab) ≡ false = ground arith in
    let rest : has_special cs ≡ false = ground arith in
    let later : has_tab cs ≡ false = ground arith in
    elim (Bool-cases (c == backslash)) [
      | inl e ↦
          let same : c ≡ backslash = ground arith in
          rw same (
            read-plain true (suc k) cs arg tail rest later refl
            ∙ ap (λ u. (arg ++ u) ∷ read_arguments false false 0 [] tail) (slashes-suc k cs))
      | inr e ↦
          rw (e, quoted, blank, tabbed)
            (read-plain true 0 cs (arg ++ (slashes k ++ c ∷ [])) tail rest later refl
              ∙ ap (λ u. u ∷ read_arguments false false 0 [] tail)
                  (append_assoc arg (slashes k ++ c ∷ []) cs
                    ∙ ap (λ u. arg ++ u) (append_assoc (slashes k) (c ∷ []) cs)))
    ]

read-encoded :
    (ca tail : Bytes)
    → (has_tab ca && not (need_quote ca)) ≡ false
    → read_arguments false false 0 [] (encoded ca ++ tail)
      ≡ ca ∷ read_arguments false false 0 [] tail
unfolding encoded need_quote read_arguments
read-encoded ca tail h = elim (Bool-cases (need_quote ca)) [
  | inl e ↦
      rw (e, append_assoc (escaped 0 ca) (quote ∷ space ∷ []) tail)
        (read-escaped 0 ca [] (space ∷ tail) (λ n. refl)
          ∙ ap (λ u. u ∷ read_arguments false false 0 [] tail) (append-nil ca))
  | inr e ↦
      let plain : has_special ca ≡ false = ground arith in
      let some_byte : (false || not (length ca == 0)) ≡ true = ground arith in
      let untabbed : has_tab ca ≡ false = ground arith in
      rw (e, append_assoc ca (space ∷ []) tail)
        (read-plain false 0 ca [] tail plain untabbed some_byte)
]

-- The arguments as they are encoded, one after the other.
decoded-encoded : (args : List Bytes) → Untabbed args → decoded (encoded_all args) ≡ args
unfolding decoded encoded_all read_arguments
decoded-encoded [] h = refl
decoded-encoded (ca ∷ args) h =
    read-encoded ca (encoded_all args) h.0 ∙ ap (◌∷◌ ca) (decoded-encoded args h.1)

-- Where the command line fits in the buffer of 4096 bytes, `build_command` returns, and a program that
-- splits the part behind the command by the documented rules reads the arguments of the request, with
-- the spaces, quotes and backslashes in them. An argument without spaces and quotes has no tab either.
pub decoded-build_command :
    (command : Bytes) (args : List Bytes)
    → length (command ++ space ∷ encoded_all args) < buffer_size
    → Untabbed args
    → (line : Bytes) × (build_command command args ≡ ok (command ++ space ∷ line))
      × (decoded line ≡ args)
decoded-build_command command args h untabbed =
    let fits : ltb (length (command ++ space ∷ encoded_all args)) buffer_size ≡ true =
      ground arith in
    (encoded_all args, build_command_lem command args ∙ rw fits refl, decoded-encoded args untabbed)
