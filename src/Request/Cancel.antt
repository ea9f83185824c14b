-- ===== src/Request/Cancel.antt =====
-- `remove_from_queue` drops the requests of one identifier and keeps the order of the others.
use why3_fork.Base.{
  ◌+◌, ◌≤◌, ◌^◌, ◌≡◌, refl, sym, subst, not, List, [], ◌∷◌, ◌++◌, append_assoc, append-nil, arith,
  length, length-append, ok, Bool-cases, inl, inr, if◌then◌else◌,
}
use why3_fork.CString.{str_eq}
use why3_fork.Queue.{Queue}
use why3_fork.Queue.Holds.{
  Holds, init_queue-Holds, queue_pop_lem, queue_is_empty-cons, queue_length_lem, free_queue_lem,
}
use why3_fork.Queue.Push.{queue_push_lem}
use why3_fork.Request.{Bytes, RunRequest, keep_others, move_back, remove_from_queue}

-- The requests whose identifier is another one.
abbrev pub others : Bytes → List RunRequest → List RunRequest
others id [] = []
others id (r ∷ rs) = if not (str_eq r.id id) then r ∷ others id rs else others id rs

pub length-others-le : (id : Bytes) (rs : List RunRequest) → length (others id rs) ≤ length rs
length-others-le id [] = omega arith
length-others-le id (r ∷ rs) = ground (arith, length-others-le id rs)

keep_others_lem :
    (rs : List RunRequest) (id : Bytes) (kept : List RunRequest) {queue tmp : Queue RunRequest}
    → Holds queue rs
    → Holds tmp kept
    → length kept + length rs ≤ 2 ^ 30
    → (queue' : Queue RunRequest) × (tmp' : Queue RunRequest) × (keep_others
          (length rs)
          id
          queue
          tmp
        ≡ ok (queue', tmp'))
      × Holds queue' []
      × Holds tmp' (kept ++ others id rs)
unfolding keep_others
keep_others_lem [] id kept {queue} {tmp} v w h =
    (queue, tmp, refl, v, subst (Holds tmp) (sym (append-nil kept)) w)
keep_others_lem (r ∷ rs) id kept {queue} {tmp} v w h =
    let (e, v') = queue_pop_lem r rs v in
    elim (Bool-cases (not (str_eq r.id id))) [
      | inl other ↦
          let (t, p, w') = queue_push_lem r kept w (omega arith) in
          let (q', t', run, x, y) =
            keep_others_lem rs id (kept ++ r ∷ []) v' w'
              (omega (arith, length-append kept (r ∷ []))) in
          (
            q',
            t',
            rw (queue_is_empty-cons r rs v, e, other, p) run,
            x,
            rw other (subst (Holds t') (append_assoc kept (r ∷ []) (others id rs)) y),
          )
      | inr same ↦
          let (q', t', run, x, y) = keep_others_lem rs id kept v' w (omega arith) in
          (q', t', rw (queue_is_empty-cons r rs v, e, same) run, x, rw same y)
    ]

move_back_lem :
    (rs back : List RunRequest) {queue tmp : Queue RunRequest}
    → Holds queue back
    → Holds tmp rs
    → length back + length rs ≤ 2 ^ 30
    → (queue' : Queue RunRequest) × (tmp' : Queue RunRequest) × (move_back (length rs) queue tmp
        ≡ ok (queue', tmp'))
      × Holds queue' (back ++ rs)
      × Holds tmp' []
unfolding move_back
move_back_lem [] back {queue} {tmp} v w h =
    (queue, tmp, refl, subst (Holds queue) (sym (append-nil back)) v, w)
move_back_lem (r ∷ rs) back {queue} {tmp} v w h =
    let (e, w') = queue_pop_lem r rs w in
    let (q, p, v') = queue_push_lem r back v (omega arith) in
    let (q', t', run, x, y) =
      move_back_lem rs (back ++ r ∷ []) v' w' (omega (arith, length-append back (r ∷ []))) in
    (
      q',
      t',
      rw (queue_is_empty-cons r rs w, e, p) run,
      subst (Holds q') (append_assoc back (r ∷ []) rs) x,
      y,
    )

-- `remove_from_queue` returns, and the queue holds the requests of the other identifiers
-- afterwards, in their order. The queue holds at most 2^30 requests before.
pub remove_from_queue_lem :
    (rs : List RunRequest) (id : Bytes) {queue : Queue RunRequest}
    → Holds queue rs
    → length rs ≤ 2 ^ 30
    → (queue' : Queue RunRequest) × (remove_from_queue queue id ≡ ok queue')
      × Holds queue' (others id rs)
unfolding remove_from_queue
remove_from_queue_lem rs id {queue} v h =
    let (start, e, s) =
      init_queue-Holds {A = RunRequest} queue.capacity (omega (arith, v.head)) v.room in
    let (q1, t1, keep, x1, y1) = keep_others_lem rs id [] v s (omega arith) in
    let (q2, t2, move, x2, y2) =
      move_back_lem (others id rs) [] x1 y1 (omega (arith, length-others-le id rs)) in
    (
      q2,
      rw
          (
            e,
            queue_length_lem rs v,
            keep,
            queue_length_lem (others id rs) y1,
            move,
            free_queue_lem y2,
          )
          refl,
      x2,
    )
