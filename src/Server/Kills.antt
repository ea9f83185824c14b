-- ===== src/Server/Kills.antt =====
-- `kill_processes` of src/server/proc.c.
use why3_fork.Base.{
  ℕ, suc, ◌+◌, ◌≡◌, refl, ap, ◌∙◌, Option, some, get_elem?, load_lem, List, [], ◌∷◌, ok,
  if◌then◌else◌, length, arith,
}
use why3_fork.ArrayList.Entries.{Entry}
use why3_fork.ArrayList.Holds.{Holds}
use why3_fork.CString.{str_eq}
use why3_fork.Request.{Bytes}
use why3_fork.Server.State.{Server, Proc, Effect, kill}
use why3_fork.Server.Jobs.{kill_processes, kill_from}

-- The kills of the processes of a task, the latest first, on what was done before.
unfoldable pub kills : Bytes → List (Entry Proc) → List Effect → List Effect
kills id [] trace = trace
kills id ((k, p) ∷ ps) trace =
    kills id ps (if str_eq p.task_id id then kill p.id ∷ trace else trace)

kill_from_lem :
    (id : Bytes) (cells : List (Option Proc)) (ps : List (Entry Proc)) (i : ℕ) (trace : List Effect)
    → ((j : ℕ) (e : Entry Proc)
        → get_elem? ps j ≡ some e
        → get_elem? cells (i + j) ≡ some (some e.1))
    → kill_from id cells (length ps) i trace ≡ ok (kills id ps trace)
unfolding kill_from kills
kill_from_lem id cells [] i trace h = refl
kill_from_lem id cells ((k, p) ∷ ps) i trace h =
    rw (load_lem cells i (ap (get_elem? cells) (omega arith) ∙ h 0 (k, p) refl)) (
      kill_from_lem id cells ps (i + 1) _
        (λ j e q. ap (get_elem? cells) (omega arith) ∙ h (suc j) e q))

-- `kill_processes` returns. It kills the processes in the list with the identifier, each once,
-- in the order of the list, and changes nothing else.
pub kill_processes_lem :
    (s : Server) (id : Bytes) (ps : List (Entry Proc))
    → Holds s.processes ps
    → kill_processes s id ≡ ok (record s { trace = kills id ps s.trace })
unfolding kill_processes
kill_processes_lem s id ps v =
    rw
      (
        v.count,
        kill_from_lem id s.processes.data_ ps 0 s.trace
            (λ j e h. ap (get_elem? s.processes.data_) (omega arith) ∙ (v.cells j e h).1),
      )
      refl
