-- ===== src/Transfer/Manager/Examples.antt =====
-- Calls of core/transfer/manager.go, and the theorems at them.
use lanos.Common.{◌≡◌, refl, string_eq, some, List, [], ◌∷◌, All}
use lanos.Common.Int.{pos}
use lanos.Common.Map.{lookup, insert}
use lanos.Transfer.Status.{
  connecting, transferring, completed, failed, new_state_machine, transition, can_transition,
}
use lanos.Transfer.Status.Lifecycle.{◌⟶*◌}
use lanos.Transfer.Manager.{
  Transfer, Manager, new_manager, new_transfer, active_count, create, update_status, touch, move,
  update_progress, cancel,
}
use lanos.Transfer.Manager.History.{
  Call, creates, updates, progresses, cancels, step, run, IsValid, run-new_manager-IsValid,
}
use lanos.Transfer.Manager.Lifetime.{Spares, run_path}

-- One transfer that fails, in a manager with room for one, and a second one after it.
abbrev failing : List Call
failing = creates "a" 1 "p" "n" "/f" "f" (pos 9) ∷ updates "a" failed "lost" 2 ∷ []

abbrev refilled : List Call
refilled =
    creates "a" 1 "p" "n" "/f" "f" (pos 9)
    ∷ updates "a" failed "lost" 2
    ∷ creates "b" 3 "p" "n" "/g" "g" (pos 9)
    ∷ []

abbrev full : Manager
full = run (new_manager (pos 1)) refilled

abbrev retried : List Call
retried =
    updates "a" connecting "" 4
    ∷ progresses "a" (pos 5) 5
    ∷ updates "a" transferring "" 6
    ∷ updates "a" completed "" 7
    ∷ cancels "a" 8
    ∷ []

abbrev lost : Transfer
lost = record (new_transfer "a" 1 "p" "n" "/f" "f" (pos 9)) {
  status = failed;
  sm = new_state_machine failed;
  error = "lost";
  updated_at = 2;
}

abbrev finished : Transfer
finished = record lost {
  status = completed;
  sm = new_state_machine completed;
  sent_bytes = pos 5;
  updated_at = 7;
}

finds_lost : lookup "a" full.transfers ≡ some lost
unfolding run step new_manager create update_status move touch transition can_transition
    new_transfer lookup insert new_state_machine
finds_lost = refl

finds_finished : lookup "a" (run full retried).transfers ≡ some finished
unfolding run step new_manager create update_status update_progress cancel move touch transition
    can_transition new_transfer lookup insert new_state_machine
finds_finished = refl

run-new_manager-IsValid_example : IsValid full
run-new_manager-IsValid_example = run-new_manager-IsValid (pos 1) refilled

full-IsValid : IsValid full
full-IsValid = run-new_manager-IsValid (pos 1) refilled

spared : All (Spares "a") retried
spared = ((λ e. cc e), ((λ e. cc e), ((λ e. cc e), ((λ e. cc e), ((λ e. cc e), tt)))))

run_path_example :
    (t : Transfer) × (lookup "a" full.transfers ≡ some t) × (t.status ⟶* finished.status)
run_path_example = run_path full retried "a" finished full-IsValid spared finds_finished

is_full : active_count full ≡ 1
unfolding active_count run step new_manager create update_status move touch transition
    can_transition new_transfer lookup insert new_state_machine
is_full = refl

max_full : full.max_active ≡ 1
unfolding run step new_manager create update_status move touch transition can_transition
    new_transfer lookup insert new_state_machine
max_full = refl

abbrev two : Manager
two = new_manager (pos 2)
