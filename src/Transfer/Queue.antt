-- ===== src/Transfer/Queue.antt =====
-- core/transfer/queue.go: pending transfers for each peer, with a cap for each direction.
-- The queue's lock makes each method one step, but for `Close`, which does two things behind it. A
-- counter that Go keeps as `int` is a natural number, and so is the wait group's: where Go subtracts,
-- the invariant of Queue/Invariant shows that there is something to subtract. The work of a task (`Execute`) is not modelled, only that
-- there is one. The order in which Go ranges over the devices is an argument.
mod Examples
pub mod Order
pub mod Invariant
pub mod Steps
pub mod Dispatch
pub mod Fifo
pub mod Release
pub mod Reach
use lanos.Common.{
  ℕ, suc, ◌+◌, ◌-◌, Bool, true, false, not, ◌&&◌, ◌||◌, String, Option, none, some, List, [], ◌∷◌,
  ◌++◌, if◌then◌else◌, string_eq, nat_eq, ◌==◌, ltb, length,
}
use lanos.Common.Int.{ℤ, pos, negsuc}
use lanos.Common.Map.{Map, lookup, insert, delete, sum_by, map_values}

pub data Direction : Type 0 where
  upload download : Direction

abbrev pub is_upload : Direction → Bool
is_upload upload = true
is_upload download = false

-- `Direction.String`.
unfoldable pub direction_text : Direction → String
direction_text upload = "upload"
direction_text download = "download"

abbrev pub default_max_concurrent_up : ℕ
default_max_concurrent_up = 4

abbrev pub default_max_concurrent_down : ℕ
default_max_concurrent_down = 4

pub data QueueError : Type 0 where
  queue_closed nil_task : QueueError

-- `executes` tells whether `Execute` is there.
pub record Task : Type 0 where
  pub id : String
  pub peer_id : String
  pub direction : Direction
  pub executes : Bool

pub record DeviceQueue : Type 0 where
  pub pending : List Task
  pub active_up : ℕ
  pub active_down : ℕ

unfoldable pub active_for : DeviceQueue → Direction → ℕ
active_for dq upload = dq.active_up
active_for dq download = dq.active_down

unfoldable pub inc_active : DeviceQueue → Direction → DeviceQueue
inc_active dq upload = record dq { active_up = suc dq.active_up }
inc_active dq download = record dq { active_down = suc dq.active_down }

unfoldable pub dec_active : DeviceQueue → Direction → DeviceQueue
dec_active dq upload = record dq { active_up = dq.active_up - 1 }
dec_active dq download = record dq { active_down = dq.active_down - 1 }

-- `wait_group` is the counter of `wg`, and `ctx_cancelled` tells whether `cancel` was called.
pub record Queue : Type 0 where
  pub max_up : ℕ
  pub max_down : ℕ
  pub devices : Map String DeviceQueue
  pub closed : Bool
  pub ctx_cancelled : Bool
  pub wait_group : ℕ

abbrev or_default : ℤ → ℕ → ℕ
or_default (pos n) d = if n == 0 then d else n
or_default (negsuc n) d = d

unfoldable pub new_queue : ℤ → ℤ → Queue
new_queue max_up max_down = record {
  max_up = or_default max_up default_max_concurrent_up;
  max_down = or_default max_down default_max_concurrent_down;
  devices = [];
  closed = false;
  ctx_cancelled = false;
  wait_group = 0;
}

abbrev pub empty_device : DeviceQueue
empty_device = record { pending = []; active_up = 0; active_down = 0 }

abbrev pub device_or_new : Option DeviceQueue → DeviceQueue
device_or_new none = empty_device
device_or_new (some dq) = dq

-- The part of `Enqueue` behind the check of the task.
unfoldable pub append_task : Queue → Task → Queue × Option QueueError
append_task q t =
    let dq = device_or_new (lookup t.peer_id q.devices) in
    let dq' : DeviceQueue = record dq { pending = dq.pending ++ (t ∷ []) } in
    if q.closed then (q, some queue_closed) else (
      record q { devices = insert t.peer_id dq' q.devices; wait_group = suc q.wait_group },
      none,
    )

unfoldable pub enqueue : Queue → Option Task → Queue × Option QueueError
enqueue q none = (q, some nil_task)
enqueue q (some t) = if t.executes then append_task q t else (q, some nil_task)

-- The cap of a direction.
unfoldable pub cap_of : Queue → Direction → ℕ
cap_of q upload = q.max_up
cap_of q download = q.max_down

-- The test of both loops: the task's direction has a free slot.
abbrev pub is_runnable : Queue → DeviceQueue → Task → Bool
is_runnable q dq t = ltb (active_for dq t.direction) (cap_of q t.direction)

-- The loop of `runnableInLocked` over the pending tasks.
unfoldable pub first_runnable : Queue → DeviceQueue → List Task → Option Task
first_runnable q dq [] = none
first_runnable q dq (t ∷ ts) = if is_runnable q dq t then some t else first_runnable q dq ts

unfoldable pub runnable_in : Queue → DeviceQueue → Option Task
unfolding first_runnable
runnable_in q dq = first_runnable q dq dq.pending

-- The loop of `hasRunnableLocked` over the devices.
unfoldable pub any_runnable : Queue → Map String DeviceQueue → Bool
any_runnable q [] = false
any_runnable q ((id, dq) ∷ rest) = elim (runnable_in q dq) [
  | none ↦ any_runnable q rest
  | some t ↦ true
]

unfoldable pub has_runnable : Queue → Bool
has_runnable q = any_runnable q q.devices

-- The inner loop of `popRunnableLocked`: the first runnable task, and the pending ones without it.
unfoldable pub take_runnable : Queue → DeviceQueue → List Task → Option (Task × List Task)
take_runnable q dq [] = none
take_runnable q dq (t ∷ ts) =
    if is_runnable q dq t
    then some (t, ts)
    else elim (take_runnable q dq ts) [ none ↦ none | some (u, rest) ↦ some (u, t ∷ rest) ]

-- What `popRunnableLocked` does with the device `id`, if it finds a task there.
unfoldable pub pop_from : Queue → String → Option (Queue × Task)
pop_from q id = elim (lookup id q.devices) [
  | none ↦ none
  | some dq ↦ elim (take_runnable q dq dq.pending) [
    | none ↦ none
    | some (t, rest) ↦
        let dq' = inc_active (record dq { pending = rest }) t.direction in
        some (record q { devices = insert id dq' q.devices }, t)
  ]
]

-- The outer loop, over the devices in the order of the list.
unfoldable pub pop_runnable : Queue → List String → Option (Queue × Task)
pop_runnable q [] = none
pop_runnable q (id ∷ ids) = elim (pop_from q id) [ none ↦ pop_runnable q ids | some r ↦ some r ]

abbrev pub is_drained : DeviceQueue → Bool
is_drained dq = length dq.pending == 0 && (dq.active_up == 0 && dq.active_down == 0)

unfoldable pub release_slot : Queue → Task → Queue
release_slot q t = elim (lookup t.peer_id q.devices) [
  | none ↦ q
  | some dq ↦
      let dq' = dec_active dq t.direction in
      if is_drained dq'
      then record q { devices = delete t.peer_id q.devices }
      else record q { devices = insert t.peer_id dq' q.devices }
]

-- `wg.Done()`.
unfoldable pub done : Queue → Queue
done q = record q { wait_group = q.wait_group - 1 }

unfoldable pub pending : Queue → String → ℕ
pending q id = elim (lookup id q.devices) [ none ↦ 0 | some dq ↦ length dq.pending ]

unfoldable pub active : Queue → String → ℕ
active q id = elim (lookup id q.devices) [ none ↦ 0 | some dq ↦ dq.active_up + dq.active_down ]

unfoldable pub device_count : Queue → ℕ
device_count q = length q.devices

-- The pending tasks of all devices.
abbrev pub waiting : Map String DeviceQueue → ℕ
waiting = sum_by (λ dq. length dq.pending)

abbrev pub abandon : DeviceQueue → DeviceQueue
abandon dq = record dq { pending = [] }

-- What `Close` does under the lock, with the number of tasks that it abandons; `none` for a queue that
-- is closed already.
unfoldable pub close_locked : Queue → Option (Queue × ℕ)
close_locked q =
    if q.closed
    then none
    else some
        (record q { closed = true; devices = map_values abandon q.devices }, waiting q.devices)

-- `q.cancel()`.
unfoldable pub cancel_ctx : Queue → Queue
cancel_ctx q = record q { ctx_cancelled = true }

-- `q.wg.Add(-n)`.
unfoldable pub drop_pending : ℕ → Queue → Queue
drop_pending n q = record q { wait_group = q.wait_group - n }

-- `Close`, where nothing comes between its steps.
unfoldable pub close : Queue → Queue
close q = elim (close_locked q) [ none ↦ q | some (r, n) ↦ drop_pending n (cancel_ctx r) ]
