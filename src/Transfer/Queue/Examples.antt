-- ===== src/Transfer/Queue/Examples.antt =====
-- A run of core/transfer/queue.go, and the theorems at it.
use lanos.Common.{
  ◌+◌, ◌≤◌, ◌≡◌, ◌≢◌, refl, sym, true, String, string_eq, none, some, [], ◌∷◌, length,
}
use mathlib.Core.Logic.{inl, inr}
use mathlib.Core.List.Memᴰ.{head}
use lanos.Common.{◌==◌, Bool-cases}
use lanos.Common.Int.{pos}
use lanos.Common.Map.{lookup, insert, map_values, Distinct}
use lanos.Transfer.Queue.{
  Direction, upload, download, Task, Queue, new_queue, append_task, enqueue, cap_of, first_runnable,
  runnable_in, any_runnable, has_runnable, take_runnable, pop_from, pop_runnable, inc_active,
  active_for, close_locked, abandon, waiting,
}
use lanos.Transfer.Queue.Invariant.{System, load}
use lanos.Transfer.Queue.Steps.{enqueues, dispatches, closes}
use lanos.Transfer.Queue.Order.{Visits, pop_runnable_total}
use lanos.Transfer.Queue.Fifo.{Oldest, pop_runnable-Oldest}
use lanos.Transfer.Queue.Reach.{Reach, here, next, start, running_within_caps, wait_group_account}

abbrev task : String → Direction → Task
task id d = record { id = id; peer_id = "p"; direction = d; executes = true }

-- Two uploads and a download for one peer, with one slot each way.
abbrev first_up : Task
first_up = task "1" upload

abbrev second_up : Task
second_up = task "2" upload

abbrev down : Task
down = task "3" download

abbrev filled : Queue
filled =
    (enqueue (enqueue (enqueue (new_queue (pos 1) (pos 1)) (some first_up)).0 (some second_up)).0
      (some down)).0

abbrev popped_first : Queue
popped_first = record filled {
  devices = ("p", record { pending = second_up ∷ down ∷ []; active_up = 1; active_down = 0 }) ∷ [];
}

-- The download overtakes the upload that waits for its slot.
abbrev popped_down : Queue
popped_down = record filled {
  devices = ("p", record { pending = second_up ∷ []; active_up = 1; active_down = 1 }) ∷ [];
}

pops_first : pop_runnable filled ("p" ∷ []) ≡ some (popped_first, first_up)
unfolding enqueue append_task new_queue pop_runnable pop_from take_runnable active_for cap_of
    inc_active lookup insert
pops_first = refl

pops_down : pop_runnable popped_first ("p" ∷ []) ≡ some (popped_down, down)
unfolding enqueue append_task new_queue pop_runnable pop_from take_runnable active_for cap_of
    inc_active lookup insert
pops_down = refl

abbrev two_running : System
two_running = record {
  queue = popped_down;
  running = down ∷ first_up ∷ [];
  exiting = 0;
  closing = 0;
}

reaches_two : Reach (start (pos 1) (pos 1)) two_running
unfolding start enqueue append_task new_queue lookup insert
reaches_two =
    next
      (next
        (next (next (next here (enqueues (some first_up))) (enqueues (some second_up)))
          (enqueues (some down)))
        (dispatches ("p" ∷ []) popped_first first_up refl pops_first))
      (dispatches ("p" ∷ []) popped_down down refl pops_down)

-- The queue is closed while a task is pending, which is still on the wait group.
abbrev closed_queue : Queue
closed_queue = record popped_down {
  closed = true;
  devices = map_values abandon popped_down.devices;
}

closes_queue : close_locked popped_down ≡ some (closed_queue, 1)
unfolding close_locked enqueue append_task new_queue lookup insert
closes_queue = refl

abbrev closed_after : System
closed_after = record {
  queue = closed_queue;
  running = down ∷ first_up ∷ [];
  exiting = 0;
  closing = 1;
}

reaches_closed : Reach (start (pos 1) (pos 1)) closed_after
reaches_closed = next reaches_two (closes closed_queue 1 closes_queue)

running_within_caps_example :
    load "p" upload two_running.running ≤ cap_of (new_queue (pos 1) (pos 1)) upload
running_within_caps_example = running_within_caps (pos 1) (pos 1) two_running "p" upload reaches_two

wait_group_account_example :
    closed_queue.wait_group
    ≡ waiting closed_queue.devices
      + length closed_after.running
      + closed_after.exiting
      + closed_after.closing
wait_group_account_example = wait_group_account (pos 1) (pos 1) closed_after reaches_closed

pop_runnable-Oldest_example : Oldest popped_first popped_down down
pop_runnable-Oldest_example = pop_runnable-Oldest popped_first popped_down ("p" ∷ []) down pops_down

has_one : has_runnable filled ≡ true
unfolding has_runnable any_runnable runnable_in first_runnable enqueue append_task new_queue
    active_for cap_of lookup insert
has_one = refl

Visits-all : Visits ("p" ∷ []) filled.devices
unfolding enqueue append_task new_queue lookup insert
Visits-all id found = elim (Bool-cases ("p" == id)) [
  | inl same ↦ head (sym ((string_eq.beq_iff "p" id).0 same))
  | inr other ↦ absurd (found (rw (other) refl))
]

all-Distinct : Distinct filled.devices
unfolding enqueue append_task new_queue lookup insert
all-Distinct = (refl, tt)

pop_runnable_total_example : pop_runnable filled ("p" ∷ []) ≢ none
pop_runnable_total_example = pop_runnable_total filled ("p" ∷ []) all-Distinct Visits-all has_one
