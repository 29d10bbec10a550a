-- ===== src/Transfer/Status/Examples.antt =====
-- Transfers that core/transfer/state.go moves, and the theorems at them.
use mathlib.Core.List.{Memᴰ}
use lanos.Common.{◌≡◌, refl, List, [], ◌∷◌}
use lanos.Transfer.Status.{
  Status, pending, connecting, transferring, completed, failed, cancelled, awaiting_resume,
  new_state_machine, attempts, transition, can_transition, valid_transitions, text,
}
use lanos.Common.Map.{lookup}
use lanos.Transfer.Status.Lifecycle.{completed_needs_transferring}

abbrev delivered : List Status
delivered = connecting ∷ completed ∷ transferring ∷ connecting ∷ completed ∷ failed ∷ []

delivered_completes : (attempts (new_state_machine pending) delivered).current ≡ completed
unfolding attempts transition can_transition new_state_machine lookup
delivered_completes = refl

sorted_by_name :
    valid_transitions (new_state_machine transferring)
    ≡ awaiting_resume ∷ cancelled ∷ completed ∷ failed ∷ []
unfolding valid_transitions new_state_machine lookup text
sorted_by_name = refl

completed_needs_transferring_example : Memᴰ transferring delivered
completed_needs_transferring_example = completed_needs_transferring delivered delivered_completes
