-- ===== src/Transfer/Queue/Invariant.antt =====
-- What holds of the queue of core/transfer/queue.go and of the tasks that it has started.
use mathlib.Core.Path.{subst}
use mathlib.Core.Option.{some-injective}
use lanos.Common.{
  ℕ, ◌+◌, ◌-◌, ◌≤◌, ◌≡◌, refl, ap, inl, inr, Bool, true, false, ◌&&◌, String, List, [], ◌∷◌, ◌++◌,
  arith, string_eq, ◌==◌, if◌then◌else◌, Option-cases, All, length,
}
use lanos.Common.Map.{
  Map, lookup, insert, delete, weight, map_values, lookup-insert, lookup-delete, lookup-map_values,
  Distinct, Each,
}
use lanos.Transfer.Queue.{
  Direction, upload, download, Task, DeviceQueue, Queue, cap_of, active_for, inc_active, dec_active,
  waiting, abandon,
}

-- The queue, the tasks that run in a goroutine of their own, the number of those that gave their
-- slot back and have `wg.Done` still to call, and the number of abandoned tasks that a `Close` behind
-- its lock has still to take off the wait group.
pub record System : Type 0 where
  pub queue : Queue
  pub running : List Task
  pub exiting : ℕ
  pub closing : ℕ

abbrev pub same_direction : Direction → Direction → Bool
same_direction upload upload = true
same_direction download download = true
same_direction _ _ = false

-- 1 for a task of this peer and direction.
abbrev pub one_for : String → Direction → Task → ℕ
one_for id d t = if (t.peer_id == id) && same_direction t.direction d then 1 else 0

-- The number of running tasks of a peer in a direction.
abbrev pub load : String → Direction → List Task → ℕ
load id d [] = 0
load id d (t ∷ ts) = one_for id d t + load id d ts

-- The counter that the queue keeps for them.
abbrev pub slots : Map String DeviceQueue → String → Direction → ℕ
slots m id d = weight (λ dq. active_for dq d) (lookup id m)

abbrev pub IsHome : String → DeviceQueue → Type 0
IsHome id dq = All (λ t. t.peer_id ≡ id) dq.pending

pub record IsValid (s : System) : Type 0 where
  pub distinct : Distinct s.queue.devices
  pub counted : (id : String) (d : Direction) → slots s.queue.devices id d ≡ load id d s.running
  pub capped : (id : String) (d : Direction) → slots s.queue.devices id d ≤ cap_of s.queue d
  pub home : Each IsHome s.queue.devices
  pub accounted :
      s.queue.wait_group ≡ waiting s.queue.devices + length s.running + s.exiting + s.closing
  pub abandoned : s.queue.closed ≡ true → waiting s.queue.devices ≡ 0

pub load-append :
    (id : String) (d : Direction) (xs ys : List Task)
    → load id d (xs ++ ys) ≡ load id d xs + load id d ys
load-append id d [] ys = omega arith
load-append id d (t ∷ xs) ys = omega (arith, load-append id d xs ys)

pub active_for-inc_active :
    (dq : DeviceQueue) (c d : Direction)
    → active_for (inc_active dq c) d ≡ (if same_direction c d then 1 else 0) + active_for dq d
unfolding active_for inc_active
active_for-inc_active dq c d = ground arith

pub active_for-dec_active :
    (dq : DeviceQueue) (c d : Direction)
    → active_for (dec_active dq c) d ≡ active_for dq d - (if same_direction c d then 1 else 0)
unfolding active_for dec_active
active_for-dec_active dq c d = ground arith

pub same_direction_refl : (d : Direction) → same_direction d d ≡ true
same_direction_refl upload = refl
same_direction_refl download = refl

-- The counters after an entry is written.
pub slots-insert :
    (m : Map String DeviceQueue) (id : String) (dq : DeviceQueue) (j : String) (d : Direction)
    → slots (insert id dq m) j d ≡ (if id == j then active_for dq d else slots m j d)
slots-insert m id dq j d = ground (arith, lookup-insert id j dq m)

pub slots-delete :
    (m : Map String DeviceQueue) (id j : String) (d : Direction)
    → slots (delete id m) j d ≡ (if id == j then 0 else slots m j d)
slots-delete m id j d = ground (arith, lookup-delete id j m)

pub slots-abandon :
    (m : Map String DeviceQueue) (j : String) (d : Direction)
    → slots (map_values abandon m) j d ≡ slots m j d
unfolding active_for
slots-abandon m j d = ground (arith, lookup-map_values abandon j m)

pub waiting-abandon : (m : Map String DeviceQueue) → waiting (map_values abandon m) ≡ 0
waiting-abandon [] = refl
waiting-abandon ((k, dq) ∷ m) = omega (arith, waiting-abandon m)

pub Each-IsHome-abandon :
    (m : Map String DeviceQueue) → Each IsHome m → Each IsHome (map_values abandon m)
Each-IsHome-abandon m h id dq e = elim (Option-cases (lookup id m)) [
  | inl n ↦ absurd (cc (lookup-map_values abandon id m, n, e))
  | inr (w, n) ↦
      subst (λ ts. All (λ t. t.peer_id ≡ id) ts)
        (ap DeviceQueue.pending (some-injective (abandon w) dq (rw (lookup-map_values, n) at e))) tt
]
