-- ===== src/Transfer/Queue/Fifo.antt =====
-- Which pending task `popRunnableLocked` of core/transfer/queue.go starts.
use mathlib.Core.Path.{subst}
use mathlib.Core.Option.{some-injective}
use lanos.Common.{
  ◌≤◌, ◌<◌, ◌≡◌, sym, ◌∙◌, inl, inr, true, false, String, some, List, [], ◌∷◌, ◌++◌, arith,
  string_eq, Bool-cases, Option-cases, All, beq_refl,
}
use lanos.Common.Map.{lookup, insert, lookup-insert}
use lanos.Transfer.Queue.{
  Task, DeviceQueue, Queue, cap_of, active_for, is_runnable, take_runnable, pop_from, pop_runnable,
}
use lanos.Transfer.Queue.Dispatch.{
  popped, pop_from_absent, pop_from_blocked, pop_from_found, pending-inc_active, same_direction_eq,
}
use lanos.Transfer.Queue.Order.{IsFirst, take_runnable-IsFirst}
use lanos.Transfer.Queue.Invariant.{same_direction}

-- `t` was the oldest task of its direction in the device `id`, and had a free slot: the tasks
-- before it go the other way, where no slot is free. The others are still pending, in order.
pub record Oldest (q q' : Queue) (t : Task) : Type 0 where
  pub id : String
  pub dq : DeviceQueue
  pub dq' : DeviceQueue
  pub before : List Task
  pub after : List Task
  pub stored : lookup id q.devices ≡ some dq
  pub stored' : lookup id q'.devices ≡ some dq'
  pub was : dq.pending ≡ before ++ (t ∷ after)
  pub left : dq'.pending ≡ before ++ after
  pub free : active_for dq t.direction < cap_of q t.direction
  pub blocked :
      All
        (λ u.
          (same_direction u.direction t.direction ≡ false)
          × (cap_of q u.direction ≤ active_for dq u.direction))
        before

other_direction :
    (q : Queue) (dq : DeviceQueue) (t u : Task)
    → is_runnable q dq t ≡ true
    → is_runnable q dq u ≡ false
    → (same_direction u.direction t.direction ≡ false)
      × (cap_of q u.direction ≤ active_for dq u.direction)
other_direction q dq t u y n = elim (Bool-cases (same_direction u.direction t.direction)) [
  | inl e ↦ absurd (ground (arith, same_direction_eq u.direction t.direction e))
  | inr e ↦ (e, ground arith)
]

All-other :
    (q : Queue) (dq : DeviceQueue) (t : Task) (us : List Task)
    → is_runnable q dq t ≡ true
    → All (λ u. is_runnable q dq u ≡ false) us
    → All
        (λ u.
          (same_direction u.direction t.direction ≡ false)
          × (cap_of q u.direction ≤ active_for dq u.direction))
        us
All-other q dq t [] y h = tt
All-other q dq t (u ∷ us) y h = (other_direction q dq t u y h.0, All-other q dq t us y h.1)

popped-Oldest :
    (q : Queue) (id : String) (dq : DeviceQueue) (t : Task) (rest : List Task)
    → lookup id q.devices ≡ some dq
    → IsFirst q dq dq.pending t rest
    → Oldest q (record q { devices = insert id (popped dq t rest) q.devices }) t
popped-Oldest q id dq t rest e f = record {
  id = id;
  dq = dq;
  dq' = popped dq t rest;
  before = f.before;
  after = f.after;
  stored = e;
  stored' = rw (lookup-insert, beq_refl id);
  was = f.split;
  left = pending-inc_active (record dq { pending = rest }) t.direction ∙ f.left;
  free = ground (arith, f.runnable);
  blocked = All-other q dq t f.before f.runnable f.blocked;
}

pop_from-Oldest :
    (q q' : Queue) (id : String) (t : Task) → pop_from q id ≡ some (q', t) → Oldest q q' t
pop_from-Oldest q q' id t h = elim (Option-cases (lookup id q.devices)) [
  | inl n ↦ absurd (cc (pop_from_absent q id n, h))
  | inr (dq, n) ↦ elim (Option-cases (take_runnable q dq dq.pending)) [
    | inl k ↦ absurd (cc (pop_from_blocked q id dq n k, h))
    | inr ((u, rest), k) ↦
        subst (λ r. Oldest q r.0 r.1)
          (some-injective _ _ (sym (pop_from_found q id dq u rest n k) ∙ h))
          (popped-Oldest q id dq u rest n (take_runnable-IsFirst q dq dq.pending u rest k))
  ]
]

-- `popRunnableLocked` takes the oldest task of its direction from some device, and only where the
-- direction has a free slot; what stood before it goes the other way and has no free slot.
pub pop_runnable-Oldest :
    (q q' : Queue) (ids : List String) (t : Task)
    → pop_runnable q ids ≡ some (q', t)
    → Oldest q q' t
unfolding pop_runnable
pop_runnable-Oldest q q' [] t h = cc
pop_runnable-Oldest q q' (id ∷ ids) t h = elim (Option-cases (pop_from q id)) [
  | inl n ↦ pop_runnable-Oldest q q' ids t (ground (arith, n))
  | inr (r, n) ↦ pop_from-Oldest q q' id t (ground (arith, n))
]
