-- ===== src/Server/Intact/Exits.antt =====
-- The end of processes keeps the state of server-unix.c intact.
use why3_fork.Base.{
  ℕ, suc, ◌+◌, ◌≤◌, ◌^◌, ◌≡◌, refl, sym, ◌∙◌, ap, Option, none, some, List, [], ◌∷◌, arith, length,
  ok,
}
use why3_fork.Base.Int.{ℤ}
use why3_fork.Base.Safety.{Safe, gives, Safe->>=, Safe-mono, Safe-from}
use why3_fork.ArrayList.{ArrayList, list_lookup, list_remove}
use why3_fork.ArrayList.Entries.{lookup}
use why3_fork.ArrayList.Every.{lookup-Every}
use why3_fork.ArrayList.Holds.{list_lookup_lem}
use why3_fork.Server.State.{Server, Proc}
use why3_fork.Server.Jobs.{Exit, report_to, finish_child, handle_exit, handle_child_events}
use why3_fork.Server.Intact.{Intact, Intact-mono, Working, HasShortTexts, After, Answered}
use why3_fork.Server.Intact.Answers.{send_msg-Safe}
use why3_fork.Server.Intact.Jobs.{remove-Working, with_processes, lookup_client-Safe}

report_to-Safe :
    (n : ℕ) (s : Server) (e : Exit) (child : Proc) (client : Option ℕ)
    → Intact n s
    → HasShortTexts child
    → list_lookup s.clients child.client_key ≡ ok client
    → n ≤ 2 ^ 30
    → Safe (Answered (suc n) s) (report_to s e child client)
unfolding report_to
report_to-Safe n s e child none v short found small =
    gives (Intact-mono (omega arith) v, refl, refl)
report_to-Safe n s e child (some ptr) v short found small =
    let (c, at, fd) = v.connected.linked.alive child.client_key ptr found in
    send_msg-Safe n s ptr c child.task_id _ e.cpu_time _ child.outfile v at short.0 short.1 small

-- A child that is in the list of processes.
abbrev pub IsListed : ArrayList Proc → ℤ → Type 0
IsListed processes pid = (child : Proc) × (list_lookup processes pid ≡ ok (some child))

-- Each child that ends is in the list when its end is handled, as it is left by those before.
abbrev pub AllListed : ArrayList Proc → List Exit → Type 0
AllListed processes [] = Unit {0}
AllListed processes (e ∷ es) =
    IsListed processes e.pid
    × ((rest : ArrayList Proc) → list_remove processes e.pid ≡ ok rest → AllListed rest es)

listed-HasShortTexts :
    {n : ℕ} (s : Server) (child : Proc) (pid : ℤ)
    → Working n s.processes
    → list_lookup s.processes pid ≡ ok (some child)
    → HasShortTexts child
listed-HasShortTexts s child pid v found =
    let here : lookup pid v.ps ≡ some child =
      let same = sym (list_lookup_lem v.ps pid v.holds) ∙ found in cc in
    lookup-Every HasShortTexts v.ps pid child v.short here

handle_exit-Safe :
    (n : ℕ) (s : Server) (e : Exit)
    → Intact n s
    → IsListed s.processes e.pid
    → n ≤ 2 ^ 30
    → Safe
        (λ s'.
          Intact (suc n) s'
          × (s'.clients ≡ s.clients)
          × (list_remove s.processes e.pid ≡ ok s'.processes))
        (handle_exit s e)
unfolding handle_exit finish_child
handle_exit-Safe n s e v (child, found) small =
    let (l, removed, w) = remove-Working n s.processes e.pid v.working in
    let s' : Server = record s { processes = l } in
    let v' = with_processes l s.trace w v in
    Safe-from (list_lookup s.processes e.pid) _ found (
      Safe-from (list_remove s.processes e.pid) _ removed (
        Safe->>= (list_lookup s.clients child.client_key)
          (lookup_client-Safe n s child.client_key v)
          (λ client at.
            Safe-mono _
              (report_to-Safe n s' e child client v'
                (listed-HasShortTexts s child e.pid v.working found) at small)
              (λ t (w', same, kept). (w', same, removed ∙ sym (ap ok kept))))))

pub handle_child_events-Safe :
    (n : ℕ) (s : Server) (es : List Exit)
    → Intact n s
    → AllListed s.processes es
    → n + length es ≤ 2 ^ 30
    → Safe (After (n + length es) s) (handle_child_events s es)
unfolding handle_child_events
handle_child_events-Safe n s [] v listed small = gives (Intact-mono (omega arith) v, refl)
handle_child_events-Safe n s (e ∷ es) v (here, later) small =
    Safe->>= (handle_exit s e) (handle_exit-Safe n s e v here (omega arith))
      (λ t (w, same, removed).
        Safe-mono _
          (handle_child_events-Safe (suc n) t es w (later t.processes removed) (omega arith))
          (λ last (w', same'). (Intact-mono (omega arith) w', same' ∙ same)))
