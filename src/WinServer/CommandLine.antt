-- ===== src/WinServer/CommandLine.antt =====
-- The command line that `run_request` of src/server/server-win.c builds in `char cmd[4096]`. A string
-- in `cmd` is the list of its bytes, without the NUL behind them.
pub mod Escaped
pub mod Decoded
use why3_fork.Base.{
  ℕ, zero, suc, ◌+◌, Bool, true, false, ◌||◌, ◌&&◌, List, [], ◌∷◌, ◌++◌, length, Result, ok,
  out_of_bounds, guard, ◌>>=◌, ◌>>◌, ◌==◌, ltb, leb, if◌then◌else◌,
}

abbrev pub Bytes : Type 0
Bytes = List ℕ

abbrev pub buffer_size : ℕ
buffer_size = 4096

abbrev pub quote : ℕ
quote = b'"'

abbrev pub backslash : ℕ
backslash = b'\\'

abbrev pub space : ℕ
space = b' '

-- `cmd[cl_index] = c; cl_index++`
unfoldable pub put : Bytes → ℕ → Result Bytes
put cmd c = do guard (ltb (length cmd) buffer_size) out_of_bounds; ok (cmd ++ c ∷ [])

unfoldable pub put_backslashes : ℕ → Bytes → Result Bytes
put_backslashes zero cmd = ok cmd
put_backslashes (suc n) cmd = do cmd' ← put cmd backslash; put_backslashes n cmd'

-- `strcat (cmd, s)`, which writes the NUL too.
unfoldable pub append_text : Bytes → Bytes → Result Bytes
append_text cmd s = do guard (ltb (length cmd + length s) buffer_size) out_of_bounds; ok (cmd ++ s)

-- The loop that looks for a byte that asks for quotes; an empty argument asks for them too.
unfoldable pub has_special : Bytes → Bool
has_special [] = false
has_special (c ∷ cs) = c == space || c == quote || has_special cs

unfoldable pub need_quote : Bytes → Bool
unfolding has_special
need_quote ca = length ca == 0 || has_special ca

-- The backslashes from place `j` down: `before` has the bytes up to that place, the last one first.
unfoldable pub backslashes : Bytes → ℕ
backslashes [] = 0
backslashes (c ∷ before) = let rest = backslashes before in if c == backslash then suc rest else 0

-- A round of the loop over `ca`: the bytes before `ca_index`, the last one first, and those behind it.
unfoldable pub escape_byte : Bytes → ℕ → Bytes → Bytes → Result Bytes
escape_byte before c cs cmd =
    if c == quote
    then (do
      slashed ← put_backslashes (backslashes before) cmd
      escaped ← put slashed backslash
      put escaped quote)
    else (do
      copied ← put cmd c
      put_backslashes (if c == backslash && length cs == 0 then backslashes (c ∷ before) else 0)
          copied)

unfoldable pub escape_from : Bytes → Bytes → Bytes → Result Bytes
escape_from before [] cmd = ok cmd
escape_from before (c ∷ cs) cmd = do
  cmd' ← escape_byte before c cs cmd
  escape_from (c ∷ before) cs cmd'

-- The branch with quotes; the write of the NUL is the last one.
unfoldable pub quote_argument : Bytes → Bytes → Result Bytes
quote_argument cmd ca = do
  opened ← put cmd quote
  inner ← escape_from [] ca opened
  closed ← put inner quote
  ended ← put closed space
  guard (ltb (length ended) buffer_size) out_of_bounds
  ok ended

unfoldable pub add_argument : Bytes → Bytes → Result Bytes
add_argument cmd ca =
    if need_quote ca
    then quote_argument cmd ca
    else (do named ← append_text cmd ca; append_text named (space ∷ []))

unfoldable pub add_arguments : Bytes → List Bytes → Result Bytes
add_arguments cmd [] = ok cmd
add_arguments cmd (ca ∷ args) = do cmd' ← add_argument cmd ca; add_arguments cmd' args

-- The command, and the arguments that are not the name of the input.
unfoldable pub build_command : Bytes → List Bytes → Result Bytes
build_command command args = do
  named ← append_text [] command
  cmd ← append_text named (space ∷ [])
  add_arguments cmd args
