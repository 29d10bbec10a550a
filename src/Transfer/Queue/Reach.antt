-- ===== src/Transfer/Queue/Reach.antt =====
-- What holds in every state that a new queue of core/transfer/queue.go can reach.
use lanos.Common.{
  ℕ, ◌+◌, ◌≤◌, ◌≡◌, refl, ap, ◌∙◌, inl, inr, true, String, Option, none, some, List, [], ◌∷◌, arith,
  string_eq, nat_eq, Option-cases, length,
}
use lanos.Common.Int.{ℤ}
use lanos.Common.Map.{lookup}
use lanos.Transfer.Queue.{
  Direction, Task, Queue, cap_of, waiting, new_queue, enqueue, append_task, pop_from, pop_runnable,
  release_slot, done, close_locked, cancel_ctx, drop_pending,
}
use lanos.Transfer.Queue.Invariant.{System, IsValid, load}
use lanos.Transfer.Queue.Steps.{
  Step, enqueues, dispatches, releases, exits, closes, cancels, drops, enqueue-IsValid,
}
use lanos.Transfer.Queue.Dispatch.{dispatch-IsValid}
use lanos.Transfer.Queue.Release.{
  release-IsValid, exit-IsValid, close-IsValid, cancel-IsValid, drop-IsValid,
}

pub data Reach (s : System) : System → Type 0 where
  here : Reach s s
  next : {t u : System} → Reach s t → Step t u → Reach s u

unfoldable pub start : ℤ → ℤ → System
unfolding new_queue
start max_up max_down = record {
  queue = new_queue max_up max_down;
  running = [];
  exiting = 0;
  closing = 0;
}

start-IsValid : (u d : ℤ) → IsValid (start u d)
unfolding start lookup cap_of
start-IsValid u d = record {
  distinct = tt;
  counted = λ id c. refl;
  capped = λ id c. omega arith;
  home = λ id dq e. ground arith;
  accounted = refl;
  abandoned = λ e. refl;
}

Step-IsValid : {s s' : System} → Step s s' → IsValid s → IsValid s'
Step-IsValid {s} (enqueues t) v = enqueue-IsValid s t v
Step-IsValid {s} (dispatches ids q t o e) v = dispatch-IsValid s ids q t v o e
Step-IsValid {s} (releases xs ys t e) v = release-IsValid s xs ys t v e
Step-IsValid {s} (exits n e) v = exit-IsValid s n v e
Step-IsValid {s} (closes q n e) v = close-IsValid s q n v e
Step-IsValid {s} (cancels c) v = cancel-IsValid s v
Step-IsValid {s} drops v = drop-IsValid s v

pub Reach-IsValid : {s s' : System} → Reach s s' → IsValid s → IsValid s'
Reach-IsValid here v = v
Reach-IsValid (next r st) v = Step-IsValid st (Reach-IsValid r v)

abbrev SameCaps : Queue → Queue → Type 0
SameCaps q q' = (d : Direction) → cap_of q' d ≡ cap_of q d

enqueue-caps : (q : Queue) (t : Option Task) → SameCaps q (enqueue q t).0
unfolding enqueue append_task cap_of
enqueue-caps q none d = refl
enqueue-caps q (some t) d = ground arith

pop_from-caps :
    (q q' : Queue) (id : String) (t : Task) → pop_from q id ≡ some (q', t) → SameCaps q q'
unfolding pop_from cap_of
pop_from-caps q q' id t h d = ground arith

pop_runnable-caps :
    (q q' : Queue) (ids : List String) (t : Task)
    → pop_runnable q ids ≡ some (q', t)
    → SameCaps q q'
unfolding pop_runnable
pop_runnable-caps q q' [] t h = cc
pop_runnable-caps q q' (id ∷ ids) t h = elim (Option-cases (pop_from q id)) [
  | inl n ↦ pop_runnable-caps q q' ids t (ground (arith, n))
  | inr (r, n) ↦ pop_from-caps q q' id t (ground (arith, n))
]

release-caps : (q : Queue) (t : Task) → SameCaps q (release_slot q t)
unfolding release_slot cap_of
release-caps q t d = ground arith

close_locked-caps : (q r : Queue) (n : ℕ) → close_locked q ≡ some (r, n) → SameCaps q r
unfolding close_locked cap_of
close_locked-caps q r n h d = ground (arith, h)

Step-caps : {s s' : System} → Step s s' → SameCaps s.queue s'.queue
Step-caps {s} (enqueues t) = enqueue-caps s.queue t
Step-caps {s} (dispatches ids q t o e) = pop_runnable-caps s.queue q ids t e
Step-caps {s} (releases xs ys t e) = release-caps s.queue t
Step-caps {s} (exits n e) = λ d. unfold done cap_of in ground arith
Step-caps {s} (closes q n e) = close_locked-caps s.queue q n e
Step-caps {s} (cancels c) = λ d. unfold cancel_ctx cap_of in ground arith
Step-caps {s} drops = λ d. unfold drop_pending cap_of in ground arith

Reach-caps : {s s' : System} → Reach s s' → SameCaps s.queue s'.queue
Reach-caps here d = refl
Reach-caps (next r st) d = Step-caps st d ∙ Reach-caps r d

start_queue : (u w : ℤ) → (start u w).queue ≡ new_queue u w
unfolding start
start_queue u w = refl

-- In every state that a new queue reaches, no peer has more tasks running in a direction than the
-- cap with which the queue was made.
pub running_within_caps :
    (max_up max_down : ℤ) (s : System) (id : String) (d : Direction)
    → Reach (start max_up max_down) s
    → load id d s.running ≤ cap_of (new_queue max_up max_down) d
running_within_caps u w s id d r =
    let v = Reach-IsValid r (start-IsValid u w) in
    omega (
      arith,
      v.counted id d,
      v.capped id d,
      Reach-caps r d,
      ap (λ (q : Queue). cap_of q d) (start_queue u w),
    )

-- In every state that a new queue reaches, those between the lock of a `Close` and its last step
-- included, the wait group counts the tasks that are pending, running, released with `Done` to come, or
-- abandoned by a `Close` that has still to take them off.
pub wait_group_account :
    (max_up max_down : ℤ) (s : System)
    → Reach (start max_up max_down) s
    → s.queue.wait_group ≡ waiting s.queue.devices + length s.running + s.exiting + s.closing
wait_group_account u w s r = (Reach-IsValid r (start-IsValid u w)).accounted

-- On a closed queue nothing is pending, so `Wait` returns exactly when every started task is done and
-- `Close` has taken the abandoned ones off.
pub closed_wait_group :
    (max_up max_down : ℤ) (s : System)
    → Reach (start max_up max_down) s
    → s.queue.closed ≡ true
    → s.queue.wait_group ≡ length s.running + s.exiting + s.closing
closed_wait_group u w s r c =
    let v = Reach-IsValid r (start-IsValid u w) in omega (arith, v.accounted, v.abandoned c)
