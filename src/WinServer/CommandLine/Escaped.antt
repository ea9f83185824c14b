-- ===== src/WinServer/CommandLine/Escaped.antt =====
-- The command line as a function of its arguments, where it fits in the buffer.
use why3_fork.Base.{
  ℕ, zero, suc, ◌+◌, ◌≤◌, ◌<◌, ◌≡◌, refl, sym, ◌∙◌, Bool, true, false, List, [], ◌∷◌, ◌++◌,
  append_assoc, append-nil, arith, length, length-append, replicate, Result, ok, err, out_of_bounds,
  ◌>>=◌, guard, ◌&&◌, ◌==◌, ltb, if◌then◌else◌, Bool-cases, inl, inr,
}
use why3_fork.WinServer.CommandLine.{
  Bytes, buffer_size, quote, backslash, space, put, put_backslashes, append_text, need_quote,
  backslashes, escape_byte, escape_from, quote_argument, add_argument, add_arguments, build_command,
}

abbrev pub slashes : ℕ → Bytes
slashes n = replicate n backslash

-- What stands for a byte behind `k` backslashes, where `cs` follows.
unfoldable pub piece : ℕ → ℕ → Bytes → Bytes
piece k c cs =
    if c == quote
    then slashes k ++ backslash ∷ quote ∷ []
    else c ∷ slashes (if c == backslash && length cs == 0 then suc k else 0)

-- What stands between the quotes for the bytes of an argument, behind `k` backslashes.
unfoldable pub escaped : ℕ → Bytes → Bytes
escaped k [] = []
escaped k (c ∷ cs) = piece k c cs ++ escaped (if c == backslash then suc k else 0) cs

unfoldable pub encoded : Bytes → Bytes
encoded ca =
    if need_quote ca then quote ∷ (escaped 0 ca ++ quote ∷ space ∷ []) else ca ++ space ∷ []

unfoldable pub encoded_all : List Bytes → Bytes
encoded_all [] = []
encoded_all (ca ∷ args) = encoded ca ++ encoded_all args

-- A run that writes `text` behind `cmd`, and `spare` bytes more where it ends, or leaves the buffer.
abbrev Writes : ℕ → Bytes → Bytes → Result Bytes → Type 0
Writes spare cmd text r = r ≡ (
    if ltb buffer_size (length cmd + length text + spare)
    then err out_of_bounds
    else ok (cmd ++ text))

put-Writes : (cmd : Bytes) (c : ℕ) → Writes 0 cmd (c ∷ []) (put cmd c)
unfolding put
put-Writes cmd c = ground arith

abbrev Fits : ℕ → Bytes → Bytes → Type 0
Fits spare cmd text = length cmd + length text + spare ≤ buffer_size

-- One run after another, where the first leaves no more bytes spare than the second writes.
>>=-Writes :
    (a b : ℕ) (cmd t u : Bytes) (m : Result Bytes) (f : Bytes → Result Bytes)
    → Writes a cmd t m
    → (Fits a cmd t → Writes b (cmd ++ t) u (f (cmd ++ t)))
    → a ≤ length u + b
    → Writes b cmd (t ++ u) (m >>= f)
>>=-Writes a b cmd t u m f h k le =
    elim (Bool-cases (ltb buffer_size (length cmd + length t + a))) [
      | inl over ↦
          let out : ltb buffer_size (length cmd + length (t ++ u) + b) ≡ true =
            ground (arith, length-append t u) in
          rw (h, over, out) refl
      | inr fits ↦
          let e : length (cmd ++ t) + length u + b ≡ length cmd + length (t ++ u) + b =
            omega (arith, length-append t u, length-append cmd t) in
          rw (h, fits, sym e, sym (append_assoc cmd t u)) (k (ground arith))
    ]

none-Writes : (cmd : Bytes) → length cmd ≤ buffer_size → Writes 0 cmd [] (ok cmd)
none-Writes cmd h =
    let fits : ltb buffer_size (length cmd + 0 + 0) ≡ false = ground arith in
    rw (fits, append-nil cmd) refl

put_backslashes-Writes :
    (n : ℕ) (cmd : Bytes)
    → length cmd ≤ buffer_size
    → Writes 0 cmd (slashes n) (put_backslashes n cmd)
unfolding put_backslashes
put_backslashes-Writes zero cmd h = none-Writes cmd h
put_backslashes-Writes (suc n) cmd h =
    >>=-Writes 0 0 cmd (backslash ∷ []) (slashes n) (put cmd backslash) (put_backslashes n)
      (put-Writes cmd backslash)
      (λ fits.
        put_backslashes-Writes n (cmd ++ backslash ∷ [])
          (omega (arith, fits, length-append cmd (backslash ∷ []))))
      (omega arith)

nested_if :
    (a b : Bool) (n : ℕ) → (if a && b then (if a then n else 0) else 0) ≡ (if a && b then n else 0)
nested_if true b n = refl
nested_if false b n = refl

escape_byte-Writes :
    (before : Bytes) (c : ℕ) (cs cmd : Bytes)
    → length cmd ≤ buffer_size
    → Writes 0 cmd (piece (backslashes before) c cs) (escape_byte before c cs cmd)
unfolding escape_byte piece backslashes
escape_byte-Writes before c cs cmd h = elim (Bool-cases (c == quote)) [
  | inl e ↦ rw e (
      >>=-Writes 0 0 cmd (slashes (backslashes before)) (backslash ∷ quote ∷ []) _ _
        (put_backslashes-Writes (backslashes before) cmd h)
        (λ fits.
          >>=-Writes 0 0 _ (backslash ∷ []) (quote ∷ []) _ _ (put-Writes _ backslash)
            (λ more. put-Writes _ quote) (omega arith))
        (omega arith))
  | inr e ↦ rw e (
      >>=-Writes 0 0 cmd (c ∷ [])
        (slashes (if c == backslash && length cs == 0 then suc (backslashes before) else 0)) _ _
        (put-Writes cmd c)
        (λ fits. rw (nested_if (c == backslash) (length cs == 0) (suc (backslashes before))) (
          put_backslashes-Writes _ (cmd ++ c ∷ [])
            (omega (arith, fits, length-append cmd (c ∷ [])))))
        (omega arith))
]

escape_from-Writes :
    (before rest cmd : Bytes)
    → length cmd ≤ buffer_size
    → Writes 0 cmd (escaped (backslashes before) rest) (escape_from before rest cmd)
unfolding escape_from escaped backslashes
escape_from-Writes before [] cmd h = none-Writes cmd h
escape_from-Writes before (c ∷ cs) cmd h =
    >>=-Writes 0 0 cmd (piece (backslashes before) c cs) _ _ _
      (escape_byte-Writes before c cs cmd h)
      (λ fits.
        escape_from-Writes (c ∷ before) cs (cmd ++ piece (backslashes before) c cs)
          (omega (arith, fits, length-append cmd (piece (backslashes before) c cs))))
      (omega arith)

append_text-Writes : (cmd s : Bytes) → Writes 1 cmd s (append_text cmd s)
unfolding append_text
append_text-Writes cmd s = ground arith

-- The NUL behind what is written.
end-Writes :
    (cmd : Bytes)
    → Writes 1 cmd [] (guard (ltb (length cmd) buffer_size) out_of_bounds >>= λ done. ok cmd)
end-Writes cmd = rw (append-nil cmd) (ground arith)

quote_argument-Writes :
    (cmd ca : Bytes)
    → Writes 1 cmd (quote ∷ (escaped 0 ca ++ quote ∷ space ∷ [])) (quote_argument cmd ca)
unfolding quote_argument backslashes
quote_argument-Writes cmd ca =
    >>=-Writes 0 1 cmd (quote ∷ []) (escaped 0 ca ++ quote ∷ space ∷ []) _ _ (put-Writes cmd quote)
      (λ one.
        >>=-Writes 0 1 _ (escaped 0 ca) (quote ∷ space ∷ []) _ _
          (escape_from-Writes [] ca _ (omega (arith, one, length-append cmd (quote ∷ []))))
          (λ two.
            >>=-Writes 0 1 _ (quote ∷ []) (space ∷ []) _ _ (put-Writes _ quote)
              (λ three.
                >>=-Writes 0 1 _ (space ∷ []) [] _ _ (put-Writes _ space) (λ four. end-Writes _)
                  (omega arith))
              (omega arith))
          (omega arith))
      (omega arith)

add_argument-Writes : (cmd ca : Bytes) → Writes 1 cmd (encoded ca) (add_argument cmd ca)
unfolding add_argument encoded
add_argument-Writes cmd ca = elim (Bool-cases (need_quote ca)) [
  | inl e ↦ rw e (quote_argument-Writes cmd ca)
  | inr e ↦ rw e (
      >>=-Writes 1 1 cmd ca (space ∷ []) _ _ (append_text-Writes cmd ca)
        (λ fits. append_text-Writes (cmd ++ ca) (space ∷ [])) (omega arith))
]

add_arguments-Writes :
    (cmd : Bytes) (args : List Bytes)
    → length cmd < buffer_size
    → Writes 1 cmd (encoded_all args) (add_arguments cmd args)
unfolding add_arguments encoded_all
add_arguments-Writes cmd [] h =
    let fits : ltb buffer_size (length cmd + 0 + 1) ≡ false = ground arith in
    rw (fits, append-nil cmd) refl
add_arguments-Writes cmd (ca ∷ args) h =
    >>=-Writes 1 1 cmd (encoded ca) (encoded_all args) _ _ (add_argument-Writes cmd ca)
      (λ fits.
        add_arguments-Writes (cmd ++ encoded ca) args
          (omega (arith, fits, length-append cmd (encoded ca))))
      (omega arith)

turned :
    (n : ℕ) (a b : Result Bytes)
    → (if ltb buffer_size (0 + n + 1) then a else b) ≡ (if ltb n buffer_size then b else a)
turned n a b = ground arith

-- The command line is the command and the encoded arguments, where it fits in the buffer of 4096
-- bytes with its NUL. Where it does not fit, the code writes behind the end of the buffer.
pub build_command_lem :
    (command : Bytes) (args : List Bytes)
    → let text = command ++ space ∷ encoded_all args in
      build_command command args
      ≡ (if ltb (length text) buffer_size then ok text else err out_of_bounds)
unfolding build_command
build_command_lem command args =
    >>=-Writes 1 1 [] command (space ∷ encoded_all args) _ _ (append_text-Writes [] command)
      (λ one.
        >>=-Writes 1 1 command (space ∷ []) (encoded_all args) _ _
          (append_text-Writes command (space ∷ []))
          (λ two.
            add_arguments-Writes (command ++ space ∷ []) args
              (omega (arith, two, length-append command (space ∷ []))))
          (omega arith))
      (omega arith)
    ∙ turned (length (command ++ space ∷ encoded_all args)) _ _
