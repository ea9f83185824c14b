-- ===== src/WinServer/Stuck.antt =====
-- Processes in src/server/server-win.c whose clients have gone.
use why3_fork.Base.{
  ℕ, zero, suc, ◌+◌, ◌≤◌, ◌≡◌, refl, ◌∙◌, false, Option, none, some, List, [], ◌∷◌, arith, length,
  map, Bool-cases, inl, inr, ok, ltb, ◌==◌,
}
use why3_fork.Base.Int.{ℤ, pos, eq_ℤ}
use why3_fork.ArrayList.{list_length}
use why3_fork.ArrayList.Entries.{Entry, lookup}
use why3_fork.ArrayList.Holds.{Holds, list_lookup_lem, list_length_lem}
use why3_fork.Queue.{queue_length}
use why3_fork.WinServer.Keys.{searched, get_server_num_lem}
use why3_fork.WinServer.State.{Server, System, Proc, kind_of_ms_key, key_of_ms_key, process}
use why3_fork.WinServer.Jobs.{schedule, schedule_new_jobs}
use why3_fork.WinServer.Loop.{Event, handle_found, handle_process, handle_event, round, run_rounds}

-- An event that says something of a process.
pub record OfProcess (e : Event) : Type 0 where
  pub some_key : (e.mskey == 0) ≡ false
  pub kind : kind_of_ms_key e.mskey ≡ process

abbrev pub AllOfProcesses : List Event → Type 0
AllOfProcesses [] = Unit {0}
AllOfProcesses (e ∷ es) = OfProcess e × AllOfProcesses es

-- The client of each process has gone.
abbrev pub AllGone : List (Entry ℕ) → List (Entry Proc) → Type 0
AllGone cs [] = Unit {0}
AllGone cs ((k, p) ∷ ps) = (lookup p.client_key cs ≡ none) × AllGone cs ps

-- As many processes as are allowed, all without clients, and as many sockets as `get_server_num`
-- looks at.
pub record Orphaned (s : Server) : Type 0 where
  pub cs : List (Entry ℕ)
  pub clients : Holds s.clients cs
  pub ps : List (Entry Proc)
  pub processes : Holds s.processes ps
  pub gone : AllGone cs ps
  pub full : s.parallel ≤ length ps
  pub keys : List ℤ
  pub sockets : s.server_key ≡ map some keys
  pub enough : s.parallel ≤ length keys

searched-total :
    (n : ℕ) (keys : List ℤ) (found : Option ℕ)
    → n ≤ length keys
    → (r : Option ℕ) × (searched n 0 keys found ≡ ok r)
searched-total n keys none h = (none, ground arith)
searched-total n keys (some i) h = (some (0 + i), refl)

abbrev Gone : List (Entry ℕ) → Option Proc → Type 0
Gone cs none = Unit {0}
Gone cs (some p) = lookup p.client_key cs ≡ none

lookup-Gone :
    (cs : List (Entry ℕ)) (ps : List (Entry Proc)) (k : ℤ) → AllGone cs ps → Gone cs (lookup k ps)
unfolding lookup
lookup-Gone cs [] k h = tt
lookup-Gone cs ((j, q) ∷ ps) k h = elim (Bool-cases (eq_ℤ j k)) [
  | inl hit ↦ rw hit h.0
  | inr miss ↦ rw miss (lookup-Gone cs ps k h.1)
]

schedule-full :
    (system : System) (n : ℕ) (s : Server)
    → s.parallel ≤ list_length s.processes
    → schedule system n s ≡ ok s
unfolding schedule
schedule-full system zero s h = refl
schedule-full system (suc n) s h =
    let test : ltb (list_length s.processes) s.parallel ≡ false = ground arith in rw test refl

handle_found-Gone :
    (system : System) (s : Server) (key : ℕ) (e : Event) (cs : List (Entry ℕ)) (found : Option Proc)
    → Holds s.clients cs
    → Gone cs found
    → handle_found system s key e found ≡ ok s
unfolding handle_found
handle_found-Gone system s key e cs none v h = refl
handle_found-Gone system s key e cs (some p) v h = rw (list_lookup_lem cs p.client_key v, h) refl

handle_process-Orphaned :
    (system : System) (s : Server) (key : ℕ) (e : Event)
    → Orphaned s
    → handle_process system s key e ≡ ok s
unfolding handle_process handle_found
handle_process-Orphaned system s key e o =
    rw (list_lookup_lem o.ps (pos key) o.processes)
      (handle_found-Gone system s key e o.cs _ o.clients (lookup-Gone o.cs o.ps (pos key) o.gone))

round-stuck :
    (system : System) (s : Server) (e : Event) → Orphaned s → OfProcess e → round system s e ≡ ok s
unfolding round handle_event schedule_new_jobs
round-stuck system s e o h =
    let full : s.parallel ≤ list_length s.processes =
      omega (arith, o.full, list_length_lem o.ps o.processes) in
    let (r, run) = searched-total s.parallel o.keys _ o.enough in
    rw
      (
        schedule-full system (queue_length s.queue) s full,
        h.some_key,
        h.kind,
        get_server_num_lem s (key_of_ms_key e.mskey) o.keys o.sockets ∙ run,
      )
      (handle_process-Orphaned system s (key_of_ms_key e.mskey) e o)

-- Where the clients of all running processes have gone, and these are as many as are allowed, no events
-- of processes change anything: an ended process is not taken off the list, and no waiting request
-- starts. `get_server_num` stays inside its array, and the keys of the events are not 0.
pub run_rounds-stuck :
    (system : System) (s : Server) (es : List Event)
    → Orphaned s
    → AllOfProcesses es
    → run_rounds system s es ≡ ok s
unfolding run_rounds
run_rounds-stuck system s [] o h = refl
run_rounds-stuck system s (e ∷ es) o h =
    rw (round-stuck system s e o h.0) (run_rounds-stuck system s es o h.1)
