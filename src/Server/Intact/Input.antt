-- ===== src/Server/Intact/Input.antt =====
-- The handlers of what a client sends keep the state of server-unix.c intact.
use why3_fork.Base.{
  ℕ, zero, suc, ◌+◌, ◌*◌, ◌<◌, ◌^◌, ◌≡◌, refl, ◌∙◌, subst, Option, none, some, List, [], ◌∷◌, ◌++◌,
  arith, length, length-append, ok, inl, inr, ltb, Option-cases, Bool-cases,
}
use why3_fork.Base.Int.{ℤ}
use why3_fork.Base.Safety.{Safe, gives, Safe-ok, Safe->>=, Safe-mono, Safe-from, either-Safe}
use why3_fork.ArrayList.{list_length}
use why3_fork.Queue.{Queue, queue_push}
use why3_fork.Queue.Push.{queue_push_lem}
use why3_fork.Request.{Bytes, Request, RunRequest, run, interrupt, parse_request, remove_from_queue}
use why3_fork.Request.Cancel.{remove_from_queue_lem, others, length-others-le}
use why3_fork.Request.Safety.{HasShort, IsPositive, parse_request-Safe}
use why3_fork.CString.{str_eq}
use why3_fork.Server.State.{Server, System}
use why3_fork.Server.Kills.{kill_processes_lem}
use why3_fork.Server.Clients.{split_line, handle_request, handle_line, handle_lines}
use why3_fork.Server.Framing.{SplitOf, split_line_lem}
use why3_fork.Server.Intact.{Intact, Intact-mono, Waiting, AllProper, IsProper, After}
use why3_fork.Server.Intact.Jobs.{HasShortNames, run_request-Safe, with_queue}

append-AllProper :
    (rs : List RunRequest) (r : RunRequest) → AllProper rs → IsProper r → AllProper (rs ++ r ∷ [])
append-AllProper [] r h k = (k, tt)
append-AllProper (q ∷ rs) r h k = (h.0, append-AllProper rs r h.1 k)

others-AllProper : (id : Bytes) (rs : List RunRequest) → AllProper rs → AllProper (others id rs)
others-AllProper id [] h = tt
others-AllProper id (r ∷ rs) h = elim (Bool-cases (str_eq r.id id)) [
  | inl same ↦ rw same (others-AllProper id rs h.1)
  | inr other ↦ rw other (h.0, others-AllProper id rs h.1)
]

push-Waiting :
    (n : ℕ) (q : Queue RunRequest) (r : RunRequest)
    → Waiting n q
    → IsProper r
    → n < 2 ^ 30
    → (q' : Queue RunRequest) × (queue_push q r ≡ ok q') × Waiting (suc (suc n)) q'
push-Waiting n q r v short small =
    let (q', e, w) = queue_push_lem r v.rs v.holds (omega (arith, v.few)) in
    (
      q',
      e,
      record {
        rs = v.rs ++ r ∷ [];
        holds = w;
        few = omega (arith, v.few, length-append v.rs (r ∷ []));
        short = append-AllProper v.rs r v.short short;
      },
    )

remove-Waiting :
    (n : ℕ) (q : Queue RunRequest) (id : Bytes)
    → Waiting n q
    → n < 2 ^ 30
    → (q' : Queue RunRequest) × (remove_from_queue q id ≡ ok q') × Waiting n q'
remove-Waiting n q id v small =
    let (q', e, w) = remove_from_queue_lem v.rs id v.holds (omega (arith, v.few)) in
    (
      q',
      e,
      record {
        rs = others id v.rs;
        holds = w;
        few = omega (arith, v.few, length-others-le id v.rs);
        short = others-AllProper id v.rs v.short;
      },
    )

killed-Intact :
    {n : ℕ} {s : Server} (trace : _) → Intact n s → Intact n (record s { trace = trace })
killed-Intact trace v = record {
  connected = v.connected;
  working = v.working;
  waiting = v.waiting;
  polls = v.polls;
  positive = v.positive;
}

with_parallel :
    {n : ℕ} {s : Server} (parallel : ℕ)
    → IsPositive parallel
    → Intact n s
    → Intact n (record s { parallel = parallel })
with_parallel parallel positive v = record {
  connected = v.connected;
  working = v.working;
  waiting = v.waiting;
  polls = v.polls;
  positive = positive;
}

module _ (system : System) (names : HasShortNames system) where
  handle_request-Safe :
      (n size : ℕ) (s : Server) (r : Option Request)
      → Intact n s
      → HasShort size r
      → size < 2 ^ 29
      → n < 2 ^ 30
      → Safe (After (suc (suc n)) s) (handle_request system s r)
  unfolding handle_request
  handle_request-Safe n size s none v short line small = gives (Intact-mono (omega arith) v, refl)
  handle_request-Safe n size s (some (run r)) v short line small =
      let (q, pushed, w) =
        push-Waiting n s.queue r v.waiting (omega (arith, short.0, line), short.1) small in
      either-Safe (ltb (list_length s.processes) s.parallel) _ _
        (run_request-Safe system names n s r v (omega (arith, short.0, line), short.1) small)
        (Safe-from (queue_push s.queue r) _ pushed
          (gives (with_queue q w (Intact-mono (omega arith) v), refl)))
  handle_request-Safe n size s (some (interrupt key id)) v short line small =
      let (q, removed, w) = remove-Waiting n s.queue id v.waiting small in
      let s' : Server = record s { queue = q } in
      let v' : Intact n s' = with_queue q w v in
      Safe-from (remove_from_queue s.queue id) _ removed (
        Safe-ok (kill_processes_lem s' id v'.working.ps v'.working.holds)
          (killed-Intact _ (Intact-mono (omega arith) v'), refl))

  handle_line-Safe :
      (n : ℕ) (s : Server) (key : ℤ) (line : Bytes)
      → Intact n s
      → length line < 2 ^ 29
      → n < 2 ^ 30
      → Safe (After (suc (suc n)) s) (handle_line system s key line)
  unfolding handle_line
  handle_line-Safe n s key line v short small =
      Safe->>= (parse_request line key s.parallel)
        (parse_request-Safe line key s.parallel v.positive)
        (λ (r, parallel) (brief, positive).
          handle_request-Safe n (length line) (record s { parallel = parallel }) r
            (with_parallel parallel positive v) brief short small)

  pub handle_lines-Safe :
      (n fuel : ℕ) (s : Server) (key : ℤ) (old : ℕ) (rest : Bytes)
      → Intact n s
      → length rest < 2 ^ 29
      → n + 2 * fuel < 2 ^ 30
      → Safe (λ r. After (n + 2 * fuel) s r.0) (handle_lines system fuel s key old rest)
  unfolding handle_lines
  handle_lines-Safe n zero s key old rest v short small = gives (Intact-mono (omega arith) v, refl)
  handle_lines-Safe n (suc fuel) s key old rest v short small =
      elim (Option-cases (split_line rest)) [
        | inl e ↦ rw (e, handle_lines) (gives (Intact-mono (omega arith) v, refl))
        | inr ((line, behind), e) ↦
            let size : length rest ≡ length line + 1 + length behind =
              (subst (SplitOf rest) e (split_line_lem rest)).1 in
            rw (e, handle_lines)
              (Safe->>= (handle_line system s key line)
                (handle_line-Safe n s key line v (omega (arith, size)) (omega arith))
                (λ t (w, same).
                  Safe-mono _
                    (handle_lines-Safe (suc (suc n)) fuel t key (old + length line + 1) behind w
                      (omega (arith, size)) (omega arith))
                    (λ last (w', same'). (Intact-mono (omega arith) w', same' ∙ same))))
      ]
