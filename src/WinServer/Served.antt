-- ===== src/WinServer/Served.antt =====
-- Every handler of src/server/server-win.c leaves a write under way for each client that has something to
-- write.
use native.Mathlib.Decide.{ℕ_discrete}
use why3_fork.Base.{
  ℕ, ◌+◌, ◌≡◌, refl, sym, ap, ◌∙◌, subst, false, none, some, [], ◌∷◌, ◌++◌, get_elem?, set,
  get_elem?-set_self, get_elem?-set_ne, get_elem?-lt, get_elem?-snoc, ok, load-inverse, AllOk,
  returns, stops, AllOk->>=, AllOk-then, guard-AllOk, inl, inr, exit, int_value,
}
use why3_fork.Base.Int.{pos}
use why3_fork.ArrayList.{list_remove}
use why3_fork.Queue.{init_queue}
use why3_fork.ReadBuf.{prepare_read, clear_readbuf}
use why3_fork.WriteBuf.{has_write_data, init_writebuf, free_writebuf}
use why3_fork.Request.{Bytes}
use why3_fork.WinServer.State.{Client, Proc, Server, System, deref, assign, release, ask, keygen}
use why3_fork.WinServer.Jobs.{
  kill_from, kill_processes, JobMessage, no_end, ended, unknown, Exit, handle_child_event,
}
use why3_fork.WinServer.Clients.{read_once, do_read, close_client, clear}
use why3_fork.WinServer.Flowing.{Serves, Takes, Flows, AllFlow, assign-AllFlow, send_msg-AllFlow}

-- A write through the pointer of a client that leaves its write buffer as it is.
pub assign-kept :
    (s : Server) (ptr : ℕ) (old new : Client)
    → deref s ptr ≡ ok old
    → new.writebuf ≡ old.writebuf
    → new.write_pending ≡ old.write_pending
    → AllFlow s
    → AllOk AllFlow (assign s ptr new)
unfolding deref
assign-kept s ptr old new found same pending flow =
    let (serves, tracks) = flow ptr old (load-inverse s.heap ptr found) in
    assign-AllFlow s ptr new
      (subst Serves (sym same) serves, ap (λ b. b.is_writing) same ∙ tracks ∙ sym pending)
      (λ q d at. let (serves', tracks') = flow q d at in (tracks', λ other. serves'))

pub do_read-AllFlow : (s : Server) (ptr : ℕ) → AllFlow s → AllOk AllFlow (do_read s ptr)
unfolding do_read ask
do_read-AllFlow s ptr flow = AllOk-then (deref s ptr) (λ c found.
    let new : Client = record c { readbuf = (prepare_read c.readbuf read_once).1 } in
    AllOk->>= (assign s ptr new) (assign-kept s ptr c new found refl refl flow)
      (λ s' flow'. returns flow'))

pub clear-AllFlow : (s : Server) (ptr : ℕ) → AllFlow s → AllOk AllFlow (clear s ptr)
unfolding clear
clear-AllFlow s ptr flow = AllOk-then (deref s ptr) (λ c found.
    assign-kept s ptr c (record c { readbuf = clear_readbuf c.readbuf }) found refl refl flow)

release-AllFlow :
    (s : Server) (ptr : ℕ) (c : Client) → deref s ptr ≡ ok c → AllFlow s → AllFlow (release s ptr)
unfolding release deref
release-AllFlow s ptr c found flow q d at = elim (ℕ_discrete ptr q) [
  | yes p ↦
      let inside = get_elem?-lt s.heap ptr (load-inverse s.heap ptr found) in
      let here =
        ap (get_elem? (set s.heap ptr none)) (sym p) ∙ get_elem?-set_self s.heap ptr none inside in
      absurd cc
  | no other ↦ flow q d (sym (get_elem?-set_ne s.heap none other) ∙ at)
]

pub close_client-AllFlow :
    (s : Server) (ptr key : ℕ) → AllFlow s → AllOk AllFlow (close_client s ptr key)
unfolding close_client ask deref
close_client-AllFlow s ptr key flow =
    AllOk-then (list_remove s.clients (pos key)) (λ clients removed.
      AllOk-then (deref s ptr) (λ c found.
        AllOk-then (free_writebuf c.writebuf)
          (λ freed done. guard-AllOk _ (exit 1) _ (returns (release-AllFlow _ ptr c found flow)))))

pub keygen-AllFlow : (s : Server) → AllFlow s → AllOk (λ r. AllFlow r.1) (keygen s)
unfolding keygen
keygen-AllFlow s flow = AllOk-then (int_value (s.gen_key + 1)) (λ next fits. returns flow)

pub kill_processes-AllFlow :
    (s : Server) (id : Bytes) → AllFlow s → AllOk AllFlow (kill_processes s id)
unfolding kill_processes
kill_processes-AllFlow s id flow =
    AllOk-then (kill_from id s.processes.data_ s.processes.len 0 s.trace)
      (λ trace killed. returns flow)

pub handle_child_event-AllFlow :
    (system : System) (s : Server) (child : Proc) (client key : ℕ) (message : JobMessage) (e : Exit)
    → Takes system
    → AllFlow s
    → AllOk AllFlow (handle_child_event system s child client key message e)
unfolding handle_child_event
handle_child_event-AllFlow system s child client key no_end e takes flow = returns flow
handle_child_event-AllFlow system s child client key ended e takes flow =
    AllOk-then (list_remove s.processes (pos key)) (λ processes removed.
      send_msg-AllFlow system takes (record s { processes = processes }) client child.task_id
        e.exitcode e.cpu_time _ child.outfile flow)
handle_child_event-AllFlow system s child client key unknown e takes flow = stops

-- A new client has nothing to write.
pub append-AllFlow :
    (s : Server) (c : Client)
    → Flows c
    → AllFlow s
    → AllFlow (record s { heap = s.heap ++ some c ∷ [] })
append-AllFlow s c flows flow q d at = elim (get_elem?-snoc s.heap (some c) q (some d) at) [
  | inl (inside, old) ↦ flow q d old
  | inr (last, same) ↦ let same' : c ≡ d = cc in subst Flows same' flows
]

pub init_writebuf-Empty :
    (n : ℕ) → AllOk (λ b. (has_write_data b ≡ false) × (b.is_writing ≡ false)) (init_writebuf n)
unfolding init_writebuf has_write_data
init_writebuf-Empty n = AllOk-then (init_queue n) (λ q made. returns (refl, refl))
