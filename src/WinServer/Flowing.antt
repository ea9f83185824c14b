-- ===== src/WinServer/Flowing.antt =====
-- In src/server/server-win.c a client with something to write always has a write under way.
use native.Mathlib.Decide.{ℕ_discrete}
use why3_fork.Base.{
  ℕ, ◌<◌, ◌≡◌, ◌≢◌, refl, sym, ap, ◌∙◌, subst, Bool, true, false, not, ◌&&◌, Option, some, List,
  arith, length, get_elem?, set, get_elem?-set_self, get_elem?-set_ne, store, load-inverse, ltb,
  AllOk, returns, stops, AllOk-mono, AllOk->>=, AllOk-then, guard-AllOk, Bool-cases, inl, inr, exit,
}
use why3_fork.WriteBuf.{WriteBuf, has_write_data, can_write, prepare_write, push_write_data}
use why3_fork.WriteBuf.Safety.{prepare_write-Writing, push_write_data-Same}
use why3_fork.Request.{Bytes}
use why3_fork.WinServer.State.{Client, Server, System, Effect, deref, assign, ask}
use why3_fork.WinServer.Messages.{
  start_writing, try_write, queue_message, send_started_msg_to_client, send_msg_to_client,
}
use why3_fork.Server.Messages.{started_text, finished_text}

-- What there is to write is being written.
abbrev pub Serves : WriteBuf → Type 0
Serves b = has_write_data b ≡ true → b.is_writing ≡ true

-- The buffer is marked exactly while the system has a write under way.
abbrev pub Tracks : Client → Type 0
Tracks c = c.writebuf.is_writing ≡ c.write_pending

abbrev pub Flows : Client → Type 0
Flows c = Serves c.writebuf × Tracks c

-- `WriteFile` takes every write.
abbrev pub Takes : System → Type 0
Takes system = (t : List Effect) → system.writes t ≡ true

abbrev pub AllFlow : Server → Type 0
AllFlow s = (ptr : ℕ) (c : Client) → get_elem? s.heap ptr ≡ some (some c) → Flows c

-- The client at an address may have something to write that is not being written.
abbrev pub OthersFlow : ℕ → Server → Type 0
OthersFlow busy s =
    (ptr : ℕ) (c : Client)
    → get_elem? s.heap ptr ≡ some (some c)
    → Tracks c × (busy ≢ ptr → Serves c.writebuf)

-- A write through the pointer of a client.
abbrev Assigned : Server → ℕ → Client → Server → Type 0
Assigned s ptr c s' = (s' ≡ record s { heap = set s.heap ptr (some c) }) × (ptr < length s.heap)

assign-Assigned : (s : Server) (ptr : ℕ) (c : Client) → AllOk (Assigned s ptr c) (assign s ptr c)
unfolding assign store
assign-Assigned s ptr c = elim (Bool-cases (ltb ptr (length s.heap))) [
  | inl inside ↦ rw inside (returns (refl, ground arith))
  | inr outside ↦ rw outside stops
]

set-AllFlow :
    (s : Server) (ptr : ℕ) (c : Client)
    → ptr < length s.heap
    → Flows c
    → OthersFlow ptr s
    → AllFlow (record s { heap = set s.heap ptr (some c) })
set-AllFlow s ptr c inside flows others q d at = elim (ℕ_discrete ptr q) [
  | yes p ↦
      let here =
        ap (get_elem? (set s.heap ptr (some c))) (sym p)
        ∙ get_elem?-set_self s.heap ptr (some c) inside in
      let same : c ≡ d = cc in subst Flows same flows
  | no other ↦
      let (tracks, serves) = others q d (sym (get_elem?-set_ne s.heap (some c) other) ∙ at) in
      (serves other, tracks)
]

pub assign-AllFlow :
    (s : Server) (ptr : ℕ) (c : Client)
    → Flows c
    → OthersFlow ptr s
    → AllOk AllFlow (assign s ptr c)
assign-AllFlow s ptr c flows others =
    AllOk-mono (assign s ptr c) (assign-Assigned s ptr c)
      (λ s' (e, inside). subst AllFlow (sym e) (set-AllFlow s ptr c inside flows others))

set-OthersFlow :
    (s : Server) (ptr : ℕ) (c : Client)
    → ptr < length s.heap
    → Tracks c
    → AllFlow s
    → OthersFlow ptr (record s { heap = set s.heap ptr (some c) })
set-OthersFlow s ptr c inside tracks flow q d at = elim (ℕ_discrete ptr q) [
  | yes p ↦
      let here =
        ap (get_elem? (set s.heap ptr (some c))) (sym p)
        ∙ get_elem?-set_self s.heap ptr (some c) inside in
      let same : c ≡ d = cc in (subst Tracks same tracks, λ other. absurd (other p))
  | no other ↦
      let (serves, old) = flow q d (sym (get_elem?-set_ne s.heap (some c) other) ∙ at) in
      (old, λ h. serves)
]

pub assign-OthersFlow :
    (s : Server) (ptr : ℕ) (c : Client)
    → Tracks c
    → AllFlow s
    → AllOk (OthersFlow ptr) (assign s ptr c)
assign-OthersFlow s ptr c tracks flow =
    AllOk-mono (assign s ptr c) (assign-Assigned s ptr c)
      (λ s' (e, inside). subst (OthersFlow ptr) (sym e) (set-OthersFlow s ptr c inside tracks flow))

start_writing-AllFlow :
    (system : System) (s : Server) (ptr : ℕ) (c : Client)
    → Takes system
    → OthersFlow ptr s
    → AllOk AllFlow (start_writing system s ptr c)
unfolding start_writing ask
start_writing-AllFlow system s ptr c takes others =
    AllOk->>= (prepare_write c.writebuf) (prepare_write-Writing c.writebuf)
      (λ (buf, size, b) writing.
        let new = record c { writebuf = b; write_pending = system.writes s.trace } in
        AllOk->>= (assign s ptr new)
          (assign-AllFlow s ptr new (λ left. writing, writing ∙ sym (takes s.trace)) others)
          (λ s' flow. returns flow))

served_flows : (left writing : Bool) → (left && not writing) ≡ false → left ≡ true → writing ≡ true
served_flows true true e h = refl
served_flows true false e h = cc
served_flows false writing e h = cc

same_client :
    (heap : List (Option Client)) (ptr q : ℕ) (c d : Client)
    → get_elem? heap ptr ≡ some (some c)
    → ptr ≡ q
    → get_elem? heap q ≡ some (some d)
    → c ≡ d
same_client heap ptr q c d at p at' = cc

-- A client that is not served yet is served, if there is something to write.
pub try_write-AllFlow :
    (system : System) (s : Server) (ptr : ℕ)
    → Takes system
    → OthersFlow ptr s
    → AllOk AllFlow (try_write system s ptr)
unfolding try_write can_write deref
try_write-AllFlow system s ptr takes others = AllOk-then (deref s ptr) (λ c found.
    elim (Bool-cases (has_write_data c.writebuf && not c.writebuf.is_writing)) [
      | inl idle ↦ rw idle (start_writing-AllFlow system s ptr c takes others)
      | inr served ↦ rw served (
          returns (λ q d at. elim (ℕ_discrete ptr q) [
            | yes p ↦
                let same = same_client s.heap ptr q c d (load-inverse s.heap ptr found) p at in
                (
                  subst (λ e. Serves e.writebuf) same
                      (served_flows (has_write_data c.writebuf) c.writebuf.is_writing served),
                  (others q d at).0,
                )
            | no other ↦ let (tracks, serves) = others q d at in (serves other, tracks)
          ]))
    ])

module _ (system : System) (takes : Takes system) where
  pub queue_message-AllFlow :
      (s : Server) (ptr : ℕ) (msg : Bytes)
      → AllFlow s
      → AllOk AllFlow (queue_message system s ptr msg)
  unfolding queue_message deref
  queue_message-AllFlow s ptr msg flow = AllOk-then (deref s ptr) (λ c found.
      AllOk->>= (push_write_data c.writebuf msg) (push_write_data-Same c.writebuf msg) (λ b same.
        let tracks = same ∙ (flow ptr c (load-inverse s.heap ptr found)).1 in
        AllOk->>= (assign s ptr (record c { writebuf = b }))
          (assign-OthersFlow s ptr (record c { writebuf = b }) tracks flow)
          (λ s' others. try_write-AllFlow system s' ptr takes others)))

  pub send_started-AllFlow :
      (s : Server) (ptr : ℕ) (id : Bytes)
      → AllFlow s
      → AllOk AllFlow (send_started_msg_to_client system s ptr id)
  unfolding send_started_msg_to_client
  send_started-AllFlow s ptr id flow =
      guard-AllOk _ (exit 1) _ (queue_message-AllFlow s ptr (started_text id) flow)

  pub send_msg-AllFlow :
      (s : Server) (ptr : ℕ) (id : Bytes) (exitcode : ℕ) (cpu_time : Bytes) (timeout : Bool)
      (outfile : Bytes)
      → AllFlow s
      → AllOk AllFlow (send_msg_to_client system s ptr id exitcode cpu_time timeout outfile)
  unfolding send_msg_to_client
  send_msg-AllFlow s ptr id exitcode cpu_time timeout outfile flow =
      guard-AllOk _ (exit 1) _
        (queue_message-AllFlow s ptr (finished_text id exitcode cpu_time timeout outfile) flow)
