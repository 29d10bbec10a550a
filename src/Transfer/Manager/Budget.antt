-- ===== src/Transfer/Manager/Budget.antt =====
-- The concurrency budget of core/transfer/manager.go: what `Create` and `ActiveCount` count.
use mathlib.Core.Path.{subst}
use lanos.Common.{
  ℕ, suc, ◌+◌, ◌≤◌, ◌<◌, ◌≡◌, sym, ◌⊎◌, inl, inr, Bool, true, false, String, none, some, arith,
  string_eq, if◌then◌else◌, ltb, beq_refl, Bool-cases, Option-cases, ok,
}
use lanos.Common.Int.{ℤ}
use lanos.Common.Map.{Map, lookup, insert, count_by, sum_by-insert, sum_by-delete, lookup-insert}
use lanos.Transfer.Status.{
  Status, pending, connecting, transferring, failed, cancelled, awaiting_resume, status_beq,
  new_state_machine,
}
use lanos.Transfer.Status.Lifecycle.{◌⟶◌, confirm, resume, retry}
use lanos.Transfer.Manager.{
  Transfer, Manager, get, is_active, active_count, new_transfer, create, update_status, touch,
  update_progress, remove, cancel,
}
use lanos.Transfer.Manager.History.{
  Call, updates, creates, step, progresses, removes, cancels, move_cases, move_of_edge, IsValid,
}

abbrev points : Transfer → ℕ
points t = if is_active t then 1 else 0

abbrev is_active_status : Status → Bool
is_active_status pending = true
is_active_status connecting = true
is_active_status transferring = true
is_active_status _ = false

-- An entry is replaced.
replace_count :
    (id : String) (t t' : Transfer) (m : Map String Transfer)
    → lookup id m ≡ some t
    → count_by is_active (insert id t' m) + points t ≡ count_by is_active m + points t'
replace_count id t t' m e = ground (arith, e, sum_by-insert points id t' m)

insert_new_count :
    (id : String) (t : Transfer) (m : Map String Transfer)
    → lookup id m ≡ none
    → count_by is_active (insert id t m) ≡ count_by is_active m + points t
insert_new_count id t m e = ground (arith, e, sum_by-insert points id t m)

-- Below the limit `Create` stores a pending transfer under its new id, and one more is active.
pub create_below_limit :
    (m : Manager) (id : String) (now : ℕ) (p n f g : String) (size : ℤ)
    → lookup id m.transfers ≡ none
    → active_count m < m.max_active
    → (active_count (create m id now p n f g size).0 ≡ suc (active_count m))
      × (get (create m id now p n f g size).0 id ≡ ok (new_transfer id now p n f g size))
unfolding create active_count get new_transfer
create_below_limit m id now p n f g size fresh room =
    elim (Bool-cases (ltb (active_count m) m.max_active)) [
      | inl e ↦ (
        rw (create, active_count, e)
            (ground
              (arith, insert_new_count id (new_transfer id now p n f g size) m.transfers fresh)),
        ground (
          arith,
          e,
          beq_refl id,
          lookup-insert id id (new_transfer id now p n f g size) m.transfers,
        ),
      )
      | inr e ↦ absurd (ground arith)
    ]

-- The calls that may take a failed or paused transfer back to connecting.
abbrev pub asks_connecting : Call → Bool
asks_connecting (updates id s msg now) = status_beq s connecting
asks_connecting _ = false

-- Moving along an edge, a transfer becomes active only by going to connecting.
edge_points :
    {s t : Status}
    → s ⟶ t
    → status_beq t connecting ≡ false
    → (if is_active_status t then 1 else 0) ≤ (if is_active_status s then 1 else 0)
edge_points confirm h = cc
edge_points resume h = cc
edge_points retry h = cc
edge_points _ h = omega arith

create_le :
    (m : Manager) (id : String) (now : ℕ) (p n f g : String) (size : ℤ)
    → active_count m ≤ m.max_active
    → active_count (create m id now p n f g size).0 ≤ m.max_active
unfolding create active_count new_transfer
create_le m id now p n f g size h =
    ground (arith, sum_by-insert points id (new_transfer id now p n f g size) m.transfers)

update_status_le :
    (m : Manager) (id : String) (s : Status) (msg : String) (now : ℕ)
    → IsValid m
    → status_beq s connecting ≡ false
    → active_count (update_status m id s msg now).0 ≤ active_count m
unfolding update_status active_count touch
update_status_le m id s msg now v other = elim (Option-cases (lookup id m.transfers)) [
  | inl e ↦ rw (update_status, e) (omega arith)
  | inr (t, e) ↦ elim (Bool-cases (status_beq s t.status)) [
    | inl stay ↦
        rw (active_count, update_status, e, stay)
          (omega (arith, replace_count id t (touch now msg t) m.transfers e))
    | inr go ↦ elim (move_cases t s (v.sound id t e).1) [
      | inl (q, edge) ↦
          rw (active_count, update_status, e, go, q)
            (omega (
              arith,
              edge_points edge other,
              replace_count id t (touch now msg (record t { sm = new_state_machine s; status = s }))
                  m.transfers e,
            ))
      | inr q ↦ rw (update_status, e, go, q) (omega arith)
    ]
  ]
]

update_progress_le :
    (m : Manager) (id : String) (sent : ℤ) (now : ℕ)
    → active_count (update_progress m id sent now).0 ≤ active_count m
unfolding update_progress active_count
update_progress_le m id sent now = elim (Option-cases (lookup id m.transfers)) [
  | inl e ↦ rw (update_progress, e) (omega arith)
  | inr (t, e) ↦
      rw (active_count, update_progress, e)
        (omega (
          arith,
          replace_count id t (record t { sent_bytes = sent; updated_at = now }) m.transfers e,
        ))
]

remove_le : (m : Manager) (id : String) → IsValid m → active_count (remove m id).0 ≤ active_count m
unfolding remove active_count
remove_le m id v = elim (Option-cases (lookup id m.transfers)) [
  | inl e ↦ rw (remove, e) (omega arith)
  | inr (t, e) ↦
      rw (active_count, remove, e) (omega (arith, sum_by-delete points id m.transfers v.distinct))
]

cancel_le :
    (m : Manager) (id : String) (now : ℕ)
    → IsValid m
    → active_count (cancel m id now).0 ≤ active_count m
unfolding cancel active_count
cancel_le m id now v = elim (Option-cases (lookup id m.transfers)) [
  | inl e ↦ rw (cancel, e) (omega arith)
  | inr (t, e) ↦ elim (move_cases t cancelled (v.sound id t e).1) [
    | inl (q, edge) ↦
        rw (active_count, cancel, e, q)
          (omega (
            arith,
            replace_count id t
                (record t {
                  sm = new_state_machine cancelled;
                  status = cancelled;
                  updated_at = now;
                })
                m.transfers e,
          ))
    | inr q ↦ rw (cancel, e, q) (omega arith)
  ]
]

-- No call takes the number of active transfers over the limit, but for an `UpdateStatus` to
-- connecting.
pub step_within_limit :
    (m : Manager) (c : Call)
    → IsValid m
    → asks_connecting c ≡ false
    → active_count m ≤ m.max_active
    → active_count (step m c) ≤ m.max_active
unfolding step
step_within_limit m (creates id now p n f g s) v q h = create_le m id now p n f g s h
step_within_limit m (updates id s msg now) v q h =
    omega (arith, update_status_le m id s msg now v q)
step_within_limit m (progresses id sent now) v q h = omega (arith, update_progress_le m id sent now)
step_within_limit m (removes id) v q h = omega (arith, remove_le m id v)
step_within_limit m (cancels id now) v q h = omega (arith, cancel_le m id now v)

not_connecting :
    (t : Transfer)
    → (t.status ≡ failed) ⊎ (t.status ≡ awaiting_resume)
    → status_beq connecting t.status ≡ false
not_connecting t s = ground arith

way_back :
    (t : Transfer) → (t.status ≡ failed) ⊎ (t.status ≡ awaiting_resume) → t.status ⟶ connecting
way_back t (inl e) = subst (λ s. s ⟶ connecting) (sym e) retry
way_back t (inr e) = subst (λ s. s ⟶ connecting) (sym e) resume

-- `UpdateStatus` has no test of the limit: a failed or paused transfer that it moves back to
-- connecting is active again, one more than before, also where the limit was reached.
pub update_status_over_limit :
    (m : Manager) (id msg : String) (now : ℕ) (t : Transfer)
    → IsValid m
    → lookup id m.transfers ≡ some t
    → (t.status ≡ failed) ⊎ (t.status ≡ awaiting_resume)
    → active_count (update_status m id connecting msg now).0 ≡ suc (active_count m)
unfolding update_status active_count touch
update_status_over_limit m id msg now t v e s =
    rw
      (
        active_count,
        update_status,
        e,
        not_connecting t s,
        move_of_edge t connecting (v.sound id t e).1 (way_back t s),
      )
      (ground (
        arith,
        replace_count id t
            (touch now msg (record t { sm = new_state_machine connecting; status = connecting }))
            m.transfers e,
      ))
