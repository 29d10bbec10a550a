-- ===== src/Transfer/Queue/Release.antt =====
-- The end of a task and `Close` of core/transfer/queue.go keep the invariant.
use mathlib.Core.Path.{subst, subst₂}
use mathlib.Core.Option.{some-injective}
use text.Mathlib.TextEquality.{eq_iff}
use lanos.Common.{
  ℕ, suc, ◌+◌, ◌≡◌, sym, ap, ◌∙◌, inl, inr, true, false, String, none, some, List, ◌∷◌, ◌++◌, arith,
  string_eq, ◌==◌, Bool-cases, Option-cases, All, length, length-append, beq_refl,
}
use lanos.Common.Map.{
  lookup, insert, delete, map_values, map_values-Distinct, weight-le-sum_by, sum_by-delete,
  delete-Distinct, Each-delete,
}
use lanos.Transfer.Queue.{
  Direction, upload, Task, DeviceQueue, Queue, cap_of, active_for, dec_active, waiting, abandon,
  is_drained, release_slot, done, close_locked, cancel_ctx, drop_pending,
}
use lanos.Transfer.Queue.Steps.{Fits, pending_weight, replace-IsValid}
use lanos.Transfer.Queue.Dispatch.{pending-dec_active}
use lanos.Transfer.Queue.Invariant.{
  System, IsValid, IsHome, load, one_for, load-append, slots-delete, slots-abandon, waiting-abandon,
  Each-IsHome-abandon, active_for-dec_active, same_direction_refl,
}

release_absent : (q : Queue) (t : Task) → lookup t.peer_id q.devices ≡ none → release_slot q t ≡ q
unfolding release_slot
release_absent q t e = ground (arith, e)

release_found :
    (q : Queue) (t : Task) (dq : DeviceQueue)
    → lookup t.peer_id q.devices ≡ some dq
    → is_drained (dec_active dq t.direction) ≡ false
    → release_slot q t
      ≡ record q { devices = insert t.peer_id (dec_active dq t.direction) q.devices }
unfolding release_slot
release_found q t dq e k = ground (arith, e, k)

release_drained :
    (q : Queue) (t : Task) (dq : DeviceQueue)
    → lookup t.peer_id q.devices ≡ some dq
    → is_drained (dec_active dq t.direction) ≡ true
    → release_slot q t ≡ record q { devices = delete t.peer_id q.devices }
unfolding release_slot
release_drained q t dq e k = ground (arith, e, k)

-- A running task holds a slot of its own.
load_split :
    (id : String) (d : Direction) (xs : List Task) (t : Task) (ys : List Task)
    → load id d (xs ++ (t ∷ ys)) ≡ one_for id d t + load id d (xs ++ ys)
load_split id d xs t ys = omega (arith, load-append id d xs (t ∷ ys), load-append id d xs ys)

length_split :
    (xs : List Task) (t : Task) (ys : List Task) → length (xs ++ (t ∷ ys)) ≡ suc (length (xs ++ ys))
length_split xs t ys = omega (arith, length-append xs (t ∷ ys), length-append xs ys)

-- The counters after `decActive`, for the tasks that are left.
dec_counted :
    (s : System) (xs ys : List Task) (t : Task) (dq : DeviceQueue) (d : Direction)
    → IsValid s
    → s.running ≡ xs ++ (t ∷ ys)
    → lookup t.peer_id s.queue.devices ≡ some dq
    → active_for (dec_active dq t.direction) d ≡ load t.peer_id d (xs ++ ys)
dec_counted s xs ys t dq d v r e = ground (
  arith,
  e,
  v.counted t.peer_id d,
  ap (load t.peer_id d) r,
  load_split t.peer_id d xs t ys,
  beq_refl t.peer_id,
  active_for-dec_active dq t.direction d,
)

others_counted :
    (xs ys : List Task) (t : Task) (running : List Task) (j : String) (d : Direction)
    → running ≡ xs ++ (t ∷ ys)
    → (t.peer_id == j) ≡ false
    → load j d (xs ++ ys) ≡ load j d running
others_counted xs ys t running j d r e = ground (arith, ap (load j d) r, e, load_split j d xs t ys)

dec-Fits :
    (s : System) (xs ys : List Task) (t : Task) (dq : DeviceQueue)
    → IsValid s
    → s.running ≡ xs ++ (t ∷ ys)
    → lookup t.peer_id s.queue.devices ≡ some dq
    → Fits s t.peer_id (dec_active dq t.direction) (xs ++ ys)
dec-Fits s xs ys t dq v r e = record {
  fits_counted = λ d. dec_counted s xs ys t dq d v r e;
  fits_capped =
      λ d. ground (arith, e, v.capped t.peer_id d, active_for-dec_active dq t.direction d);
  fits_others = λ j d q. others_counted xs ys t s.running j d r q;
  fits_home =
      subst (All (λ u. u.peer_id ≡ t.peer_id)) (sym (pending-dec_active dq t.direction))
        (v.home t.peer_id dq e);
  fits_closed = λ c. ground (
    arith,
    e,
    v.abandoned c,
    weight-le-sum_by pending_weight t.peer_id s.queue.devices,
    ap length (pending-dec_active dq t.direction),
  );
}

-- A running task has an entry: its slot is counted there.
absent_impossible :
    (s : System) (xs ys : List Task) (t : Task)
    → IsValid s
    → s.running ≡ xs ++ (t ∷ ys)
    → lookup t.peer_id s.queue.devices ≡ none
    → ⊥
absent_impossible s xs ys t v r e = ground (
  arith,
  e,
  v.counted t.peer_id t.direction,
  ap (load t.peer_id t.direction) r,
  load_split t.peer_id t.direction xs t ys,
  beq_refl t.peer_id,
  same_direction_refl t.direction,
)

drained_slots :
    (dq : DeviceQueue) (d : Direction)
    → is_drained dq ≡ true
    → (active_for dq d ≡ 0) × (length dq.pending ≡ 0)
unfolding active_for
drained_slots dq d h = ground arith

drained-IsValid :
    (s : System) (xs ys : List Task) (t : Task) (dq : DeviceQueue)
    → IsValid s
    → s.running ≡ xs ++ (t ∷ ys)
    → lookup t.peer_id s.queue.devices ≡ some dq
    → is_drained (dec_active dq t.direction) ≡ true
    → IsValid (record s {
      queue = record (s.queue) { devices = delete t.peer_id s.queue.devices };
      running = xs ++ ys;
      exiting = suc s.exiting;
    })
unfolding cap_of
drained-IsValid s xs ys t dq v r e k = record {
  distinct = delete-Distinct t.peer_id s.queue.devices v.distinct;
  counted = λ j d. elim (Bool-cases (t.peer_id == j)) [
    | inl q ↦
        rw (slots-delete, q)
          (subst (λ i. 0 ≡ load i d (xs ++ ys)) ((eq_iff t.peer_id j).0 q)
            (omega (
              arith,
              drained_slots (dec_active dq t.direction) d k,
              dec_counted s xs ys t dq d v r e,
            )))
    | inr q ↦ rw (slots-delete, q) (v.counted j d ∙ sym (others_counted xs ys t s.running j d r q))
  ];
  capped = λ j d. elim (Bool-cases (t.peer_id == j)) [
    | inl q ↦ rw (slots-delete, q) (omega arith)
    | inr q ↦ rw (slots-delete, q) (v.capped j d)
  ];
  home = Each-delete IsHome t.peer_id s.queue.devices v.home;
  accounted = ground (
    arith,
    e,
    v.accounted,
    ap length r,
    length_split xs t ys,
    sum_by-delete pending_weight t.peer_id s.queue.devices v.distinct,
    drained_slots (dec_active dq t.direction) upload k,
    ap length (pending-dec_active dq t.direction),
  );
  abandoned = λ c.
      omega
        (arith, v.abandoned c, sum_by-delete pending_weight t.peer_id s.queue.devices v.distinct);
}

-- The system after its queue was replaced by an equal one.
with_released :
    (s : System) (xs : List Task) (n : ℕ) {q q' : Queue}
    → q ≡ q'
    → IsValid (record s { queue = q'; running = xs; exiting = n })
    → IsValid (record s { queue = q; running = xs; exiting = n })
with_released s xs n e =
    subst (λ q. IsValid (record s { queue = q; running = xs; exiting = n })) (sym e)

pub release-IsValid :
    (s : System) (xs ys : List Task) (t : Task)
    → IsValid s
    → s.running ≡ xs ++ (t ∷ ys)
    → IsValid
        (record s { queue = release_slot s.queue t; running = xs ++ ys; exiting = suc s.exiting })
release-IsValid s xs ys t v r = elim (Option-cases (lookup t.peer_id s.queue.devices)) [
  | inl e ↦ absurd (absent_impossible s xs ys t v r e)
  | inr (dq, e) ↦ elim (Bool-cases (is_drained (dec_active dq t.direction))) [
    | inl k ↦
        with_released s (xs ++ ys) (suc s.exiting) (release_drained s.queue t dq e k)
          (drained-IsValid s xs ys t dq v r e k)
    | inr k ↦ with_released s (xs ++ ys) (suc s.exiting) (release_found s.queue t dq e k) (
        replace-IsValid s t.peer_id _ (xs ++ ys) (suc s.exiting) s.queue.wait_group v
          (dec-Fits s xs ys t dq v r e)
          (rw e (
            omega (
              arith,
              v.accounted,
              ap length r,
              length_split xs t ys,
              ap length (pending-dec_active dq t.direction),
            ))))
  ]
]

pub exit-IsValid :
    (s : System) (n : ℕ)
    → IsValid s
    → s.exiting ≡ suc n
    → IsValid (record s { queue = done s.queue; exiting = n })
unfolding done cap_of
exit-IsValid s n v e = record {
  distinct = v.distinct;
  counted = v.counted;
  capped = v.capped;
  home = v.home;
  accounted = omega (arith, v.accounted);
  abandoned = v.abandoned;
}

close_locked-some :
    (q r : Queue) (n : ℕ)
    → close_locked q ≡ some (r, n)
    → (record q { closed = true; devices = map_values abandon q.devices } ≡ r)
      × (waiting q.devices ≡ n)
unfolding close_locked
close_locked-some q r n h = elim (Bool-cases q.closed) [
  | inl e ↦ absurd (cc (rw (close_locked, e) at h))
  | inr e ↦
      let same = some-injective _ _ (rw (close_locked, e) at h) in
      (ap (λ x. x.0) same, ap (λ x. x.1) same)
]

locked-IsValid :
    (s : System)
    → IsValid s
    → IsValid (record s {
      queue = record (s.queue) { closed = true; devices = map_values abandon s.queue.devices };
      closing = s.closing + waiting s.queue.devices;
    })
unfolding cap_of
locked-IsValid s v = record {
  distinct = map_values-Distinct abandon s.queue.devices v.distinct;
  counted = λ j d. slots-abandon s.queue.devices j d ∙ v.counted j d;
  capped = λ j d. rw slots-abandon (v.capped j d);
  home = Each-IsHome-abandon s.queue.devices v.home;
  accounted = omega (arith, v.accounted, waiting-abandon s.queue.devices);
  abandoned = λ c. waiting-abandon s.queue.devices;
}

pub close-IsValid :
    (s : System) (q : Queue) (n : ℕ)
    → IsValid s
    → close_locked s.queue ≡ some (q, n)
    → IsValid (record s { queue = q; closing = s.closing + n })
close-IsValid s q n v h =
    let (same, count) = close_locked-some s.queue q n h in
    subst₂ (λ r k. IsValid (record s { queue = r; closing = s.closing + k })) same count
      (locked-IsValid s v)

pub cancel-IsValid : (s : System) → IsValid s → IsValid (record s { queue = cancel_ctx s.queue })
unfolding cancel_ctx cap_of
cancel-IsValid s v = record {
  distinct = v.distinct;
  counted = v.counted;
  capped = v.capped;
  home = v.home;
  accounted = v.accounted;
  abandoned = v.abandoned;
}

pub drop-IsValid :
    (s : System)
    → IsValid s
    → IsValid (record s { queue = drop_pending s.closing s.queue; closing = 0 })
unfolding drop_pending cap_of
drop-IsValid s v = record {
  distinct = v.distinct;
  counted = v.counted;
  capped = v.capped;
  home = v.home;
  accounted = omega (arith, v.accounted);
  abandoned = v.abandoned;
}
