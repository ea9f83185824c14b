-- ===== src/Server/Intact/Reads.antt =====
-- `read_on_client` and `handle_msg` keep the state of server-unix.c intact.
use why3_fork.Base.{
  ℕ, suc, ◌+◌, ◌*◌, ◌≤◌, ◌<◌, ◌^◌, ◌≡◌, refl, ◌∙◌, ap, Option, none, some, List, [], ◌∷◌, ◌++◌,
  arith, length, get_elem?, length-append, ok, true, ◌>>=◌, ◌%◌, ltb, block, load-block, set,
  get_elem?-set_self, get_elem?-lt,
}
use why3_fork.Base.Int.{ℤ}
use why3_fork.Base.Safety.{
  Safe, gives, Safe-ok, Safe->>=, Safe-mono, Safe-from, Safe-from_both, if-Safe,
}
use why3_fork.ArrayList.{list_lookup}
use why3_fork.ReadBuf.{ReadBuf, prepare_read, fill, have_taken}
use why3_fork.ReadBuf.Holds as reads
use why3_fork.ReadBuf.Holds.{prepare_read_lem, have_read_lem}
use why3_fork.ReadBuf.Safety.{HoldsSome, have_taken-Safe}
use why3_fork.Request.{Bytes}
use why3_fork.Server.State.{Client, Server, System, assign, deref}
use why3_fork.Server.Clients.{
  handle_lines, as_max, handle_msg, received, read_on_client, read_bytes, read_once,
}
use why3_fork.Server.Intact.{Intact, Intact-mono, Buffers, heap-Intact, assign_lem, deref_lem}
use why3_fork.Server.Intact.Jobs.{HasShortNames}
use why3_fork.Server.Intact.Connections.{close_client-Safe}
use why3_fork.Server.Intact.Input.{handle_lines-Safe}

read_bytes_lem :
    (all bytes : Bytes) (rest : List (Option ℕ)) (i : ℕ)
    → ((j : ℕ) → j < length bytes → get_elem? all (i + j) ≡ get_elem? bytes j)
    → read_bytes (block all rest) (length bytes) i ≡ ok bytes
unfolding read_bytes
read_bytes_lem all [] rest i h = refl
read_bytes_lem all (c ∷ cs) rest i h =
    let here : get_elem? all i ≡ some c = ap (get_elem? all) (omega arith) ∙ h 0 (omega arith) in
    let later = λ (j : ℕ) (less : j < length cs).
      ap (get_elem? all) (omega arith) ∙ h (suc j) (omega arith) in
    rw (load-block all rest i here, read_bytes_lem all cs rest (i + 1) later) refl

-- Other read buffers in a client whose buffers are good.
with_readbuf :
    {n : ℕ} {c : Client} (b : ReadBuf)
    → HoldsSome b
    → Buffers n c
    → Buffers n (record c { readbuf = b })
with_readbuf b (bytes, holds) v = record {
  messages = v.messages;
  writes = v.writes;
  few = v.few;
  bytes = bytes;
  reads = holds;
}

-- The client is there, under its descriptor.
record Present (s : Server) (ptr : ℕ) (fd : ℤ) (c : Client) : Type 0 where
  at : get_elem? s.heap ptr ≡ some (some c)
  listed : list_lookup s.clients fd ≡ ok (some ptr)

-- The read buffer of the client at an address is far from what the machine can hold.
abbrev pub IsModest : Server → ℕ → Type 0
IsModest s ptr =
    (c : Client) → deref s ptr ≡ ok c → (c.readbuf.len ≤ 2 ^ 28) × (c.readbuf.capacity < 2 ^ 60)

-- A length that is an `int` is kept.
as_max_lem : (n : ℕ) → n < 2 ^ 31 → as_max n ≡ n
unfolding as_max
as_max_lem n h =
    let same : n % 2 ^ 32 ≡ n = omega (arith, h) in
    let small : ltb n (2 ^ 31) ≡ true = ground arith in rw (same, small) refl

module _ (system : System) (names : HasShortNames system) where
  take-Safe :
      (n : ℕ) (s : Server) (ptr : ℕ) (c : Client) (old : ℕ)
      → Intact n s
      → get_elem? s.heap ptr ≡ some (some c)
      → Safe (Intact n) (do
        c' ← deref s ptr
        readbuf ← have_taken c'.readbuf old
        assign s ptr (record c' { readbuf = readbuf }))
  take-Safe n s ptr c old v at =
      let good = v.connected.buffers ptr c at in
      Safe-from (deref s ptr) _ (deref_lem s ptr c at) (
        Safe->>= (have_taken c.readbuf old) (have_taken-Safe c.readbuf good.bytes old good.reads)
          (λ b holds.
            let new : Client = record c { readbuf = b } in
            Safe-ok (assign_lem s ptr c new at)
              (heap-Intact s ptr c new at refl (with_readbuf b holds good) v)))

  handle_msg-Safe :
      (n : ℕ) (s : Server) (ptr : ℕ) (fd : ℤ) (c : Client) (bytes : Bytes)
      → Intact n s
      → Present s ptr fd c
      → reads.Holds c.readbuf bytes
      → length bytes < 2 ^ 29
      → n + 2 * length bytes < 2 ^ 30
      → Safe (Intact (n + 2 * length bytes)) (handle_msg system s ptr fd)
  unfolding handle_msg
  handle_msg-Safe n s ptr fd c bytes v there holds short small =
      let read : read_bytes c.readbuf.data_ (as_max c.readbuf.len) 0 ≡ ok bytes =
        rw (holds.cells, holds.count, as_max_lem (length bytes) (omega (arith, short)))
          (read_bytes_lem bytes bytes holds.rest 0 (λ j h. ap (get_elem? bytes) (omega arith))) in
      Safe-from (deref s ptr) _ (deref_lem s ptr c there.at) (
        Safe-from (read_bytes c.readbuf.data_ (as_max c.readbuf.len) 0) _ read (
          Safe->>= (handle_lines system (length bytes) s fd 0 bytes)
            (handle_lines-Safe system names n (length bytes) s fd 0 bytes v short small)
            (λ (t, old) (w, same).
              let listed = ap (λ l. list_lookup l fd) same ∙ there.listed in
              let (c', at', e) = w.connected.linked.alive fd ptr listed in
              if-Safe (ltb 0 old) _ _ (λ some_taken. take-Safe _ t ptr c' old w at')
                (λ none_taken. gives w))))

  received-Safe :
      (n : ℕ) (s : Server) (ptr : ℕ) (c : Client) (fd : ℤ) (b : ReadBuf) (bytes : Bytes)
      (answer : Option Bytes)
      → Intact n s
      → Present s ptr fd c
      → reads.Holds b bytes
      → b.capacity + read_once < 2 ^ 61
      → length bytes ≤ 2 ^ 28
      → n ≤ 2 ^ 28
      → ((cs : Bytes) → answer ≡ some cs → length cs ≤ read_once)
      → Safe (Intact (2 ^ 30)) (
          received system s ptr fd (prepare_read b read_once).1 (prepare_read b read_once).0 answer)
  unfolding received
  received-Safe n s ptr c fd b bytes none v there holds room few small fits =
      gives (Intact-mono (omega arith) v)
  received-Safe n s ptr c fd b bytes (some []) v there holds room few small fits =
      Safe-mono _ (close_client-Safe n s ptr c v there.at) (λ t w. Intact-mono (omega arith) w)
  received-Safe n s ptr c fd b bytes (some (x ∷ xs)) v there holds room few small fits =
      let short = fits (x ∷ xs) refl in
      let (b', e, w) = have_read_lem bytes read_once (x ∷ xs) holds room short in
      let new : Client = record c { readbuf = b' } in
      let s' : Server = record s { heap = set s.heap ptr (some new) } in
      let good = with_readbuf b' (bytes ++ x ∷ xs, w) (v.connected.buffers ptr c there.at) in
      let v' : Intact n s' = heap-Intact s ptr c new there.at refl good v in
      let total = length-append bytes (x ∷ xs) in
      let there' : Present s' ptr fd new = record {
        at = get_elem?-set_self s.heap ptr (some new) (get_elem?-lt s.heap ptr there.at);
        listed = there.listed;
      } in
      Safe-from_both (fill _ (prepare_read b read_once).0 (x ∷ xs)) _ _ e (
        Safe-from (deref s ptr) _ (deref_lem s ptr c there.at) (
          Safe-from (assign s ptr new) _ (assign_lem s ptr c new there.at) (
            Safe-mono _
              (handle_msg-Safe n s' ptr fd new (bytes ++ x ∷ xs) v' there' w
                (omega (arith, total, short)) (omega (arith, total, short)))
              (λ t w. Intact-mono (omega (arith, total, short)) w))))

  pub read_on_client-Safe :
      (n : ℕ) (s : Server) (ptr : ℕ) (fd : ℤ) (answer : Option Bytes)
      → Intact n s
      → list_lookup s.clients fd ≡ ok (some ptr)
      → IsModest s ptr
      → n ≤ 2 ^ 28
      → ((cs : Bytes) → answer ≡ some cs → length cs ≤ read_once)
      → Safe (Intact (2 ^ 30)) (read_on_client system s ptr answer)
  unfolding read_on_client
  read_on_client-Safe n s ptr fd answer v listed modest small fits =
      let (c, at, e) = v.connected.linked.alive fd ptr listed in
      let here = deref_lem s ptr c at in
      let (few, room) = modest c here in
      let good = v.connected.buffers ptr c at in
      let (place, w, more) =
        prepare_read_lem good.bytes read_once good.reads (omega (arith, room)) in
      let b = (prepare_read c.readbuf read_once).1 in
      let new : Client = record c { readbuf = b } in
      let s' : Server = record s { heap = set s.heap ptr (some new) } in
      let v' : Intact n s' =
        heap-Intact s ptr c new at refl (with_readbuf b (good.bytes, w) good) v in
      let there' : Present s' ptr c.fd new = record {
        at = get_elem?-set_self s.heap ptr (some new) (get_elem?-lt s.heap ptr at);
        listed = ap (list_lookup s.clients) e ∙ listed;
      } in
      Safe-from (deref s ptr) _ here (
        Safe-from (assign s ptr new) _ (assign_lem s ptr c new at) (
          received-Safe n s' ptr new c.fd c.readbuf good.bytes answer v' there' good.reads
            (omega (arith, room)) (omega (arith, few, good.reads.count)) small fits))
