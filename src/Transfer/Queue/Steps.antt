-- ===== src/Transfer/Queue/Steps.antt =====
-- The steps of core/transfer/queue.go: calls of its methods, the dispatcher and the task goroutines
-- in any interleaving, and that each step keeps the invariant.
use mathlib.Core.Path.{subst}
use text.Mathlib.TextEquality.{eq_iff}
use lanos.Common.{
  ℕ, suc, ◌+◌, ◌≤◌, ◌≡◌, refl, sym, ◌∙◌, inl, inr, true, false, String, Option, none, some, List,
  [], ◌∷◌, ◌++◌, arith, string_eq, ◌==◌, Bool-cases, Option-cases, All-append, length,
  length-append,
}
use lanos.Common.Map.{Map, lookup, insert, weight, sum_by-insert, insert-Distinct, Each-insert}
use lanos.Transfer.Queue.{
  Direction, Task, DeviceQueue, Queue, cap_of, active_for, device_or_new, waiting, enqueue,
  append_task, pop_runnable, release_slot, done, close_locked, cancel_ctx, drop_pending,
}
use lanos.Transfer.Queue.Invariant.{System, IsValid, IsHome, load, slots, slots-insert}

pub data Step (s : System) : System → Type 0 where
  -- Anybody calls `Enqueue`.
  enqueues : (t : Option Task) → Step s (record s { queue = (enqueue s.queue t).0 })
  -- `dispatchLoop` finds a task and starts it; it does nothing on a closed queue.
  dispatches :
      (ids : List String) (q : Queue) (t : Task)
      → s.queue.closed ≡ false
      → pop_runnable s.queue ids ≡ some (q, t)
      → Step s (record s { queue = q; running = t ∷ s.running })
  -- A running task ends: the deferred `releaseSlot` is called first.
  releases :
      (xs ys : List Task) (t : Task)
      → s.running ≡ xs ++ (t ∷ ys)
      → Step s
          (record s { queue = release_slot s.queue t; running = xs ++ ys; exiting = suc s.exiting })
  -- Then `wg.Done`.
  exits : (n : ℕ) → s.exiting ≡ suc n → Step s (record s { queue = done s.queue; exiting = n })
  -- The part of `Close` under the lock, where the queue is open.
  closes :
      (q : Queue) (n : ℕ)
      → close_locked s.queue ≡ some (q, n)
      → Step s (record s { queue = q; closing = s.closing + n })
  -- Behind the lock `Close` cancels the context.
  cancels : s.queue.closed ≡ true → Step s (record s { queue = cancel_ctx s.queue })
  -- And at last it takes the abandoned tasks off the wait group.
  drops : Step s (record s { queue = drop_pending s.closing s.queue; closing = 0 })

-- What a new entry `dq` for the device `id` has to satisfy.
pub record Fits (s : System) (id : String) (dq : DeviceQueue) (running : List Task) : Type 0 where
  pub fits_counted : (d : Direction) → active_for dq d ≡ load id d running
  pub fits_capped : (d : Direction) → active_for dq d ≤ cap_of s.queue d
  pub fits_others :
      (j : String) (d : Direction) → (id == j) ≡ false → load j d running ≡ load j d s.running
  pub fits_home : IsHome id dq
  pub fits_closed : s.queue.closed ≡ true → length dq.pending ≡ 0

abbrev pub pending_weight : DeviceQueue → ℕ
pending_weight dq = length dq.pending

pub replace-IsValid :
    (s : System) (id : String) (dq : DeviceQueue) (running : List Task) (exiting group : ℕ)
    → IsValid s
    → Fits s id dq running
    → group + weight pending_weight (lookup id s.queue.devices)
      ≡ waiting s.queue.devices + length dq.pending + length running + exiting + s.closing
    → IsValid (record s {
      queue = record (s.queue) { devices = insert id dq s.queue.devices; wait_group = group };
      running = running;
      exiting = exiting;
    })
unfolding cap_of
replace-IsValid s id dq running exiting group v f account = record {
  distinct = insert-Distinct id dq s.queue.devices v.distinct;
  counted = λ j d. elim (Bool-cases (id == j)) [
    | inl e ↦
        rw (slots-insert, e)
          (subst (λ k. active_for dq d ≡ load k d running) ((eq_iff id j).0 e) (f.fits_counted d))
    | inr e ↦ rw (slots-insert, e) (v.counted j d ∙ sym (f.fits_others j d e))
  ];
  capped = λ j d. elim (Bool-cases (id == j)) [
    | inl e ↦ rw (slots-insert, e) (f.fits_capped d)
    | inr e ↦ rw (slots-insert, e) (v.capped j d)
  ];
  home = Each-insert IsHome id dq s.queue.devices v.home f.fits_home;
  accounted = omega (arith, account, sum_by-insert pending_weight id dq s.queue.devices);
  abandoned = λ e.
      omega
        (arith, v.abandoned e, f.fits_closed e, sum_by-insert pending_weight id dq s.queue.devices);
}

IsHome-or_new :
    (s : System) → IsValid s → (id : String) → IsHome id (device_or_new (lookup id s.queue.devices))
IsHome-or_new s v id = elim (Option-cases (lookup id s.queue.devices)) [
  | inl e ↦ rw e tt
  | inr (dq, e) ↦ rw e (v.home id dq e)
]

-- The counters of a device that may be new.
slots_or_new :
    (m : Map String DeviceQueue) (id : String) (d : Direction)
    → active_for (device_or_new (lookup id m)) d ≡ slots m id d
unfolding active_for
slots_or_new m id d = ground arith

append_task-Fits :
    (s : System) (t : Task)
    → IsValid s
    → s.queue.closed ≡ false
    → let dq = device_or_new (lookup t.peer_id s.queue.devices) in
      Fits s t.peer_id (record dq { pending = dq.pending ++ (t ∷ []) }) s.running
unfolding active_for
append_task-Fits s t v e = record {
  fits_counted = λ d. ground (arith, v.counted t.peer_id d);
  fits_capped = λ d. ground (arith, v.capped t.peer_id d);
  fits_others = λ j d q. refl;
  fits_home =
      All-append (λ u. u.peer_id ≡ t.peer_id) _ (t ∷ []) (IsHome-or_new s v t.peer_id) (refl, tt);
  fits_closed = λ c. absurd (cc (c, e));
}

append_task_open :
    (q : Queue) (t : Task)
    → q.closed ≡ false
    → let dq = device_or_new (lookup t.peer_id q.devices) in
      (append_task q t).0 ≡ record q {
        devices = insert t.peer_id (record dq { pending = dq.pending ++ (t ∷ []) }) q.devices;
        wait_group = suc q.wait_group;
      }
unfolding append_task
append_task_open q t e = ground arith

append_task_closed : (q : Queue) (t : Task) → q.closed ≡ true → (append_task q t).0 ≡ q
unfolding append_task
append_task_closed q t e = ground arith

-- A property of the system after its queue was replaced by an equal one.
pub with_queue :
    (s : System) {q q' : Queue}
    → q ≡ q'
    → IsValid (record s { queue = q' })
    → IsValid (record s { queue = q })
with_queue s e = subst (λ q. IsValid (record s { queue = q })) (sym e)

append_task-IsValid :
    (s : System) (t : Task) → IsValid s → IsValid (record s { queue = (append_task s.queue t).0 })
append_task-IsValid s t v = elim (Bool-cases s.queue.closed) [
  | inl e ↦ with_queue s (append_task_closed s.queue t e) v
  | inr e ↦ with_queue s (append_task_open s.queue t e) (
      replace-IsValid s t.peer_id _ s.running s.exiting _ v (append_task-Fits s t v e) (
        ground (
          arith,
          v.accounted,
          length-append (device_or_new (lookup t.peer_id s.queue.devices)).pending (t ∷ []),
        )))
]

pub enqueue-IsValid :
    (s : System) (t : Option Task)
    → IsValid s
    → IsValid (record s { queue = (enqueue s.queue t).0 })
unfolding enqueue
enqueue-IsValid s none v = v
enqueue-IsValid s (some t) v = elim (Bool-cases t.executes) [
  | inl e ↦ simp (enqueue, e) (append_task-IsValid s t v)
  | inr e ↦ simp (enqueue, e) v
]
