-- ===== src/Transfer/Status/Lifecycle.antt =====
-- The machine of core/transfer/state.go over any requests. The edges of `defaultTransitions` are named
-- as a relation, to reason about paths.
use mathlib.Core.List.{Memᴰ}
use mathlib.Core.Path.{subst}
use lanos.Common.{
  ◌≡◌, ◌≢◌, Bool-cases, refl, ◌↔◌, ◌⊎◌, inl, inr, true, false, none, some, List, [], ◌∷◌, arith,
}
use lanos.Transfer.Status.{
  Status, pending, connecting, transferring, completed, failed, cancelled, awaiting_resume,
  new_state_machine, is_terminal, can_transition, transition, attempts, invalid_transition,
  status_beq, status_beq_iff,
}

infix 40 ◌⟶◌ ◌⟶*◌
pub data ◌⟶◌ : Status → Status → Type 0 where
  confirm : pending ⟶ connecting
  reject : pending ⟶ cancelled
  time_out : pending ⟶ failed
  start : connecting ⟶ transferring
  finish : transferring ⟶ completed
  interrupt_connecting : connecting ⟶ awaiting_resume
  interrupt_transferring : transferring ⟶ awaiting_resume
  resume : awaiting_resume ⟶ connecting
  retry : failed ⟶ connecting
  fail_connecting : connecting ⟶ failed
  fail_transferring : transferring ⟶ failed
  fail_waiting : awaiting_resume ⟶ failed
  cancel_connecting : connecting ⟶ cancelled
  cancel_transferring : transferring ⟶ cancelled
  cancel_waiting : awaiting_resume ⟶ cancelled

ruleset edges = (
  confirm, reject, time_out, start, finish, interrupt_connecting, interrupt_transferring, resume,
  retry, fail_connecting, fail_transferring, fail_waiting, cancel_connecting, cancel_transferring,
  cancel_waiting,
)

pub data ◌⟶*◌ : Status → Status → Type 0 where
  here : {s : Status} → s ⟶* s
  next : {s t u : Status} → s ⟶ t → t ⟶* u → s ⟶* u

can_transition-sound : (s t : Status) → can_transition (new_state_machine s) t ≡ true → s ⟶ t
unfolding can_transition new_state_machine
can_transition-sound s t h = grind (arith, edges)

can_transition_complete : {s t : Status} → s ⟶ t → can_transition (new_state_machine s) t ≡ true
unfolding can_transition new_state_machine
can_transition_complete confirm = refl
can_transition_complete _ = refl

-- The table allows exactly the edges that the relation names.
pub can_transition_iff : (s t : Status) → (can_transition (new_state_machine s) t ≡ true) ↔ (s ⟶ t)
can_transition_iff s t = (can_transition-sound s t, can_transition_complete)

-- A machine from `NewStateMachine` stays one: it follows an edge, or refuses and stays.
pub transition_cases :
    (s t : Status)
    → (transition (new_state_machine s) t ≡ (new_state_machine t, none)) × (s ⟶ t)
      ⊎ (transition (new_state_machine s) t ≡ (new_state_machine s, some (invalid_transition s t)))
        × (can_transition (new_state_machine s) t ≡ false)
unfolding transition new_state_machine
transition_cases s t = elim (Bool-cases (can_transition (new_state_machine s) t)) [
  | inl e ↦ inl (rw e, can_transition-sound s t e)
  | inr e ↦ inr (rw e, e)
]

pub transition_of_edge :
    {s t : Status} → s ⟶ t → transition (new_state_machine s) t ≡ (new_state_machine t, none)
unfolding transition new_state_machine
transition_of_edge {s} {t} e = ground (arith, can_transition_complete e)

-- The terminal statuses are completed and cancelled.
pub is_terminal_iff :
    (s : Status) → (is_terminal (new_state_machine s) ≡ true) ↔ ((s ≡ completed) ⊎ (s ≡ cancelled))
unfolding is_terminal new_state_machine
is_terminal_iff s = ground arith

no_edge_from_terminal :
    (s t : Status)
    → (s ≡ completed) ⊎ (s ≡ cancelled)
    → can_transition (new_state_machine s) t ≡ false
unfolding can_transition new_state_machine
no_edge_from_terminal s t h = ground arith

-- A terminal machine stays as it is whatever is asked of it.
pub terminal_absorbs :
    (s : Status) (asked : List Status)
    → is_terminal (new_state_machine s) ≡ true
    → attempts (new_state_machine s) asked ≡ new_state_machine s
unfolding attempts
terminal_absorbs s [] h = refl
terminal_absorbs s (t ∷ ts) h = elim (transition_cases s t) [
  | inl (e, edge) ↦
      cc (can_transition_complete edge, no_edge_from_terminal s t ((is_terminal_iff s).0 h))
  | inr (e, no_edge) ↦ rw e (terminal_absorbs s ts h)
]

-- Every status but completed and cancelled has a way to completed.
pub ⟶*-completed : (s : Status) → is_terminal (new_state_machine s) ≡ false → s ⟶* completed
unfolding is_terminal new_state_machine
⟶*-completed completed h = here
⟶*-completed cancelled h = cc
⟶*-completed _ h = search (here, next, edges)

edge_to_completed : {s : Status} → s ⟶ completed → s ≡ transferring
edge_to_completed finish = refl

edge_to_transferring : {s : Status} → s ⟶ transferring → s ≡ connecting
edge_to_transferring start = refl

passes_transferring :
    (s : Status) (asked : List Status)
    → s ≢ transferring
    → s ≢ completed
    → (attempts (new_state_machine s) asked).current ≡ completed
    → Memᴰ transferring asked
unfolding attempts
passes_transferring s [] h k e = absurd (k (unfold new_state_machine in e))
passes_transferring s (t ∷ ts) h k e = elim (transition_cases s t) [
  | inl (q, edge) ↦ elim (Bool-cases (status_beq transferring t)) [
    | inl same ↦
        subst (λ u. Memᴰ transferring (u ∷ ts)) ((status_beq_iff transferring t).0 same)
          (Memᴰ.head refl)
    | inr other ↦ Memᴰ.tail (
        passes_transferring t ts (λ u. ground (arith, status_beq_iff transferring t))
          (λ u. h (edge_to_completed (subst (λ v. s ⟶ v) u edge))) (rw (attempts, q) at e))
  ]
  | inr (q, no_edge) ↦ Memᴰ.tail (passes_transferring s ts h k (rw (attempts, q) at e))
]

-- A machine made for a pending transfer is completed, over any requested statuses of which it refuses
-- those that are no transition, only if one of the requests was for transferring.
pub completed_needs_transferring :
    (asked : List Status)
    → (attempts (new_state_machine pending) asked).current ≡ completed
    → Memᴰ transferring asked
completed_needs_transferring asked e = passes_transferring pending asked (λ q. cc) (λ q. cc) e
