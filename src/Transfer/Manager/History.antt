-- ===== src/Transfer/Manager/History.antt =====
-- What every sequence of calls on the manager of core/transfer/manager.go keeps.
use lanos.Common.{
  ℕ, ◌≡◌, refl, ◌∙◌, ◌⊎◌, inl, inr, String, Option, none, some, List, [], ◌∷◌, arith, string_eq,
  ltb, Bool-cases, Option-cases, ok, err,
}
use lanos.Common.Int.{ℤ}
use lanos.Common.Map.{
  Map, lookup, insert, delete, Distinct, insert-Distinct, delete-Distinct, Each, Each-insert,
  Each-delete,
}
use lanos.Transfer.Status.{Status, pending, new_state_machine, invalid_transition, status_beq}
use lanos.Transfer.Status.Lifecycle.{◌⟶◌, transition_cases, transition_of_edge}
use lanos.Transfer.Manager.{
  Transfer, Manager, active_count, new_transfer, new_manager, create, move, touch, update_status,
  update_progress, remove, cancel, refused,
}

pub data Call : Type 0 where
  creates : String → ℕ → String → String → String → String → ℤ → Call
  updates : String → Status → String → ℕ → Call
  progresses : String → ℤ → ℕ → Call
  removes : String → Call
  cancels : String → ℕ → Call

unfoldable pub step : Manager → Call → Manager
step m (creates id now p n f g s) = (create m id now p n f g s).0
step m (updates id s msg now) = (update_status m id s msg now).0
step m (progresses id sent now) = (update_progress m id sent now).0
step m (removes id) = (remove m id).0
step m (cancels id now) = (cancel m id now).0

unfoldable pub run : Manager → List Call → Manager
run m [] = m
run m (c ∷ cs) = run (step m c) cs

-- What a call may do to a stored transfer: its machine stays in step with its status, and the
-- status stays or follows an edge of the lifecycle.
pub record Follows (t t' : Transfer) : Type 0 where
  pub same_id : t'.id ≡ t.id
  pub in_step : t'.sm ≡ new_state_machine t'.status
  pub moved : (t'.status ≡ t.status) ⊎ (t.status ⟶ t'.status)

abbrev pub IsSound : String → Transfer → Type 0
IsSound id t = (t.id ≡ id) × (t.sm ≡ new_state_machine t.status)

pub record IsValid (m : Manager) : Type 0 where
  pub distinct : Distinct m.transfers
  pub sound : Each IsSound m.transfers

-- The id under which a call creates a transfer.
abbrev pub creation : Call → Option String
creation (creates id _ _ _ _ _ _) = some id
creation _ = none

-- The four ways in which a call changes the map.
pub data Change (made : Option String) (m : Map String Transfer)
    : Map String Transfer → Type 0 where
  same : Change made m m
  added :
      (id : String) (t : Transfer)
      → made ≡ some id
      → IsSound id t
      → t.status ≡ pending
      → Change made m (insert id t m)
  changed :
      (id : String) (t t' : Transfer)
      → lookup id m ≡ some t
      → Follows t t'
      → Change made m (insert id t' m)
  removed : (id : String) → Change made m (delete id m)

pub move_cases :
    (t : Transfer) (s : Status)
    → t.sm ≡ new_state_machine t.status
    → (move t s ≡ ok (record t { sm = new_state_machine s; status = s })) × (t.status ⟶ s)
      ⊎ (move t s ≡ err (refused (invalid_transition t.status s)))
unfolding move
move_cases t s h = elim (transition_cases t.status s) [
  | inl (e, edge) ↦ inl (ground (arith, e), edge)
  | inr (e, no_edge) ↦ inr (ground (arith, e))
]

pub move_of_edge :
    (t : Transfer) (s : Status)
    → t.sm ≡ new_state_machine t.status
    → t.status ⟶ s
    → move t s ≡ ok (record t { sm = new_state_machine s; status = s })
unfolding move
move_of_edge t s h edge = ground (arith, transition_of_edge edge)

create-Change :
    (m : Manager) (id : String) (now : ℕ) (p n f g : String) (s : ℤ)
    → Change (some id) m.transfers (create m id now p n f g s).0.transfers
unfolding create new_transfer active_count
create-Change m id now p n f g s = elim (Bool-cases (ltb (active_count m) m.max_active)) [
  | inl e ↦ rw (create, active_count, e) (added id _ refl (refl, refl) refl)
  | inr e ↦ rw (create, active_count, e) same
]

update_status-Change :
    (m : Manager) (id : String) (s : Status) (msg : String) (now : ℕ)
    → IsValid m
    → Change none m.transfers (update_status m id s msg now).0.transfers
unfolding update_status touch
update_status-Change m id s msg now v = elim (Option-cases (lookup id m.transfers)) [
  | inl e ↦ rw (update_status, e) same
  | inr (t, e) ↦ elim (Bool-cases (status_beq s t.status)) [
    | inl stay ↦
        rw (update_status, e, stay)
          (changed id t _ e
            (record { same_id = refl; in_step = (v.sound id t e).1; moved = inl refl }))
    | inr go ↦ elim (move_cases t s (v.sound id t e).1) [
      | inl (q, edge) ↦
          rw (update_status, e, go, q)
            (changed id t _ e (record { same_id = refl; in_step = refl; moved = inr edge }))
      | inr q ↦ rw (update_status, e, go, q) same
    ]
  ]
]

update_progress-Change :
    (m : Manager) (id : String) (sent : ℤ) (now : ℕ)
    → IsValid m
    → Change none m.transfers (update_progress m id sent now).0.transfers
unfolding update_progress
update_progress-Change m id sent now v = elim (Option-cases (lookup id m.transfers)) [
  | inl e ↦ rw (update_progress, e) same
  | inr (t, e) ↦
      rw (update_progress, e)
        (changed id t _ e
          (record { same_id = refl; in_step = (v.sound id t e).1; moved = inl refl }))
]

remove-Change : (m : Manager) (id : String) → Change none m.transfers (remove m id).0.transfers
unfolding remove
remove-Change m id = elim (Option-cases (lookup id m.transfers)) [
  | inl e ↦ rw (remove, e) same
  | inr (t, e) ↦ rw (remove, e) (removed id)
]

cancel_Change :
    (m : Manager) (id : String) (now : ℕ)
    → IsValid m
    → Change none m.transfers (cancel m id now).0.transfers
unfolding cancel
cancel_Change m id now v = elim (Option-cases (lookup id m.transfers)) [
  | inl e ↦ rw (cancel, e) same
  | inr (t, e) ↦ elim (move_cases t Status.cancelled (v.sound id t e).1) [
    | inl (q, edge) ↦
        rw (cancel, e, q)
          (changed id t _ e (record { same_id = refl; in_step = refl; moved = inr edge }))
    | inr q ↦ rw (cancel, e, q) same
  ]
]

pub step-Change :
    (m : Manager) (c : Call) → IsValid m → Change (creation c) m.transfers (step m c).transfers
unfolding step
step-Change m (creates id now p n f g s) v = create-Change m id now p n f g s
step-Change m (updates id s msg now) v = update_status-Change m id s msg now v
step-Change m (progresses id sent now) v = update_progress-Change m id sent now v
step-Change m (removes id) v = remove-Change m id
step-Change m (cancels id now) v = cancel_Change m id now v

Change-Distinct :
    {made : Option String} {m m' : Map String Transfer}
    → Change made m m'
    → Distinct m
    → Distinct m'
Change-Distinct same d = d
Change-Distinct {m} (added id t q s p) d = insert-Distinct id t m d
Change-Distinct {m} (changed id t t' e f) d = insert-Distinct id t' m d
Change-Distinct {m} (removed id) d = delete-Distinct id m d

Change-IsSound :
    {made : Option String} {m m' : Map String Transfer}
    → Change made m m'
    → Each IsSound m
    → Each IsSound m'
Change-IsSound same h = h
Change-IsSound {m} (added id t q s p) h = Each-insert IsSound id t m h s
Change-IsSound {m} (changed id t t' e f) h =
    Each-insert IsSound id t' m h (f.same_id ∙ (h id t e).0, f.in_step)
Change-IsSound {m} (removed id) h = Each-delete IsSound id m h

pub step-IsValid : (m : Manager) (c : Call) → IsValid m → IsValid (step m c)
step-IsValid m c v = record {
  distinct = Change-Distinct (step-Change m c v) v.distinct;
  sound = Change-IsSound (step-Change m c v) v.sound;
}

run-IsValid : (m : Manager) (cs : List Call) → IsValid m → IsValid (run m cs)
unfolding run
run-IsValid m [] v = v
run-IsValid m (c ∷ cs) v = run-IsValid (step m c) cs (step-IsValid m c v)

new_manager-IsValid : (n : ℤ) → IsValid (new_manager n)
unfolding new_manager lookup
new_manager-IsValid n = record { distinct = tt; sound = λ id t h. ground arith }

-- After any calls on a new manager, each transfer is stored once and under its own id, and its
-- state machine is the one for the status that the transfer shows.
pub run-new_manager-IsValid : (n : ℤ) (cs : List Call) → IsValid (run (new_manager n) cs)
run-new_manager-IsValid n cs = run-IsValid (new_manager n) cs (new_manager-IsValid n)
