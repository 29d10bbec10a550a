-- ===== src/Transfer/Queue/Dispatch.antt =====
-- The dispatcher of core/transfer/queue.go keeps the invariant.
use mathlib.Core.Path.{subst}
use mathlib.Core.Option.{some-injective}
use text.Mathlib.TextEquality.{eq_iff}
use lanos.Common.{
  ◌≡◌, sym, ap, ◌∙◌, inl, inr, true, false, String, none, some, List, [], ◌∷◌, ◌++◌, arith,
  string_eq, Option-cases, All, length, length-append,
}
use lanos.Common.Map.{lookup, insert}
use lanos.Transfer.Queue.{
  Direction, Task, DeviceQueue, Queue, active_for, inc_active, dec_active, take_runnable, pop_from,
  pop_runnable,
}
use lanos.Transfer.Queue.Steps.{Fits, replace-IsValid}
use lanos.Transfer.Queue.Order.{IsFirst, take_runnable-IsFirst}
use lanos.Transfer.Queue.Invariant.{System, IsValid, same_direction, active_for-inc_active}

-- The device's entry after its task `t` was taken off, which left `rest`.
abbrev pub popped : DeviceQueue → Task → List Task → DeviceQueue
popped dq t rest = inc_active (record dq { pending = rest }) t.direction

pub pending-inc_active : (dq : DeviceQueue) (d : Direction) → (inc_active dq d).pending ≡ dq.pending
unfolding inc_active
pending-inc_active dq d = ground arith

pub pending-dec_active : (dq : DeviceQueue) (d : Direction) → (dec_active dq d).pending ≡ dq.pending
unfolding dec_active
pending-dec_active dq d = ground arith

pub pop_from_found :
    (q : Queue) (id : String) (dq : DeviceQueue) (t : Task) (rest : List Task)
    → lookup id q.devices ≡ some dq
    → take_runnable q dq dq.pending ≡ some (t, rest)
    → pop_from q id ≡ some (record q { devices = insert id (popped dq t rest) q.devices }, t)
unfolding pop_from
pop_from_found q id dq t rest e k = ground (arith, e, k)

pub pop_from_absent : (q : Queue) (id : String) → lookup id q.devices ≡ none → pop_from q id ≡ none
unfolding pop_from
pop_from_absent q id e = ground (arith, e)

pub pop_from_blocked :
    (q : Queue) (id : String) (dq : DeviceQueue)
    → lookup id q.devices ≡ some dq
    → take_runnable q dq dq.pending ≡ none
    → pop_from q id ≡ none
unfolding pop_from
pop_from_blocked q id dq e k = ground (arith, e, k)

pub All-split :
    (P : Task → Type 0) (xs : List Task) (t : Task) (ys : List Task)
    → All P (xs ++ (t ∷ ys))
    → P t × All P (xs ++ ys)
All-split P [] t ys h = h
All-split P (x ∷ xs) t ys h = let (p, r) = All-split P xs t ys h.1 in (p, (h.0, r))

pub same_direction_eq : (c d : Direction) → same_direction c d ≡ true → c ≡ d
same_direction_eq c d h = ground arith

same_active :
    (dq : DeviceQueue) (ts : List Task) (d : Direction)
    → active_for (record dq { pending = ts }) d ≡ active_for dq d
unfolding active_for
same_active dq ts d = ground arith

-- The entry that `popRunnableLocked` writes fits, with the task among the running ones.
popped-Fits :
    (s : System) (id : String) (dq : DeviceQueue) (t : Task) (rest : List Task)
    → IsValid s
    → s.queue.closed ≡ false
    → lookup id s.queue.devices ≡ some dq
    → IsFirst s.queue dq dq.pending t rest
    → Fits s id (popped dq t rest) (t ∷ s.running)
popped-Fits s id dq t rest v open_ e f =
    let homes =
      All-split (λ u. u.peer_id ≡ id) f.before t f.after
        (subst (All (λ u. u.peer_id ≡ id)) f.split (v.home id dq e)) in
    record {
      fits_counted = λ d. ground (
        arith,
        e,
        v.counted id d,
        homes.0,
        (eq_iff t.peer_id id).1 homes.0,
        active_for-inc_active (record dq { pending = rest }) t.direction d,
        same_active dq rest d,
      );
      fits_capped = λ d. ground (
        arith,
        e,
        v.capped id d,
        f.runnable,
        same_direction_eq t.direction d,
        active_for-inc_active (record dq { pending = rest }) t.direction d,
        same_active dq rest d,
      );
      fits_others = λ j d q. ground (arith, homes.0, q);
      fits_home =
          subst (All (λ u. u.peer_id ≡ id)) (sym (pending-inc_active _ t.direction))
            (subst (All (λ u. u.peer_id ≡ id)) (sym f.left) homes.1);
      fits_closed = λ c. absurd (cc (c, open_));
    }

popped-IsValid :
    (s : System) (id : String) (dq : DeviceQueue) (t : Task) (rest : List Task)
    → IsValid s
    → s.queue.closed ≡ false
    → lookup id s.queue.devices ≡ some dq
    → IsFirst s.queue dq dq.pending t rest
    → IsValid (record s {
      queue = record (s.queue) { devices = insert id (popped dq t rest) s.queue.devices };
      running = t ∷ s.running;
      exiting = s.exiting;
    })
popped-IsValid s id dq t rest v open_ e f =
    replace-IsValid s id (popped dq t rest) (t ∷ s.running) s.exiting s.queue.wait_group v
      (popped-Fits s id dq t rest v open_ e f)
      (rw e (
        omega (
          arith,
          v.accounted,
          ap length f.split,
          ap length f.left,
          length-append f.before (t ∷ f.after),
          length-append f.before f.after,
          ap length (pending-inc_active (record dq { pending = rest }) t.direction),
        )))

pop_from-IsValid :
    (s : System) (id : String) (q : Queue) (t : Task)
    → IsValid s
    → s.queue.closed ≡ false
    → pop_from s.queue id ≡ some (q, t)
    → IsValid (record s { queue = q; running = t ∷ s.running })
pop_from-IsValid s id q t v open_ h = elim (Option-cases (lookup id s.queue.devices)) [
  | inl n ↦ absurd (cc (pop_from_absent s.queue id n, h))
  | inr (dq, n) ↦ elim (Option-cases (take_runnable s.queue dq dq.pending)) [
    | inl k ↦ absurd (cc (pop_from_blocked s.queue id dq n k, h))
    | inr ((u, rest), k) ↦
        subst (λ r. IsValid (record s { queue = r.0; running = r.1 ∷ s.running }))
          (some-injective _ _ (sym (pop_from_found s.queue id dq u rest n k) ∙ h))
          (popped-IsValid s id dq u rest v open_ n
            (take_runnable-IsFirst s.queue dq dq.pending u rest k))
  ]
]

pub dispatch-IsValid :
    (s : System) (ids : List String) (q : Queue) (t : Task)
    → IsValid s
    → s.queue.closed ≡ false
    → pop_runnable s.queue ids ≡ some (q, t)
    → IsValid (record s { queue = q; running = t ∷ s.running })
unfolding pop_runnable
dispatch-IsValid s [] q t v open_ h = cc
dispatch-IsValid s (id ∷ ids) q t v open_ h = elim (Option-cases (pop_from s.queue id)) [
  | inl n ↦ dispatch-IsValid s ids q t v open_ (ground (arith, n))
  | inr (r, n) ↦ pop_from-IsValid s id q t v open_ (ground (arith, n))
]
