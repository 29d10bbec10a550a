-- ===== src/Transfer/Status.antt =====
-- core/transfer/state.go: the statuses of a transfer and the machine that moves between them.
-- The type `Status` itself stands in core/transfer/manager.go.
mod Examples
pub mod Lifecycle
use Prim.Native.String.{compare as compare_text}
use Prim.Native.Nat.{Ordering}
use lanos.Common.{
  ℕ, ◌≡◌, refl, ◌↔◌, Bool, true, false, String, Option, none, some, List, [], ◌∷◌, arith, Eq,
  nat_beq, ◌==◌, if◌then◌else◌,
}
use lanos.Common.Map.{Map, lookup}

pub data Status : Type 0 where
  pending connecting transferring completed failed cancelled awaiting_resume : Status

-- The string constant behind each status.
unfoldable pub text : Status → String
text pending = "pending"
text connecting = "connecting"
text transferring = "transferring"
text completed = "completed"
text failed = "failed"
text cancelled = "cancelled"
text awaiting_resume = "awaiting_resume"

abbrev pub code : Status → ℕ
code pending = 0
code connecting = 1
code transferring = 2
code completed = 3
code failed = 4
code cancelled = 5
code awaiting_resume = 6

-- The constants are different strings, so `==` on them is equality of statuses.
abbrev pub status_beq : Status → Status → Bool
status_beq s t = nat_beq (code s) (code t)

pub status_beq_iff : (s t : Status) → (status_beq s t ≡ true) ↔ (s ≡ t)
status_beq_iff s t = ground arith

instance abbrev pub status_eq : Eq Status
status_eq = record { beq = status_beq; beq_iff = status_beq_iff }

-- A set of statuses, Go's `map[Status]struct{}`.
abbrev pub has : Status → List Status → Bool
has s [] = false
has s (t ∷ ts) = if t == s then true else has s ts

unfoldable pub default_transitions : Map Status (List Status)
default_transitions =
    (pending, connecting ∷ cancelled ∷ failed ∷ [])
    ∷ (connecting, transferring ∷ failed ∷ cancelled ∷ awaiting_resume ∷ [])
    ∷ (transferring, completed ∷ failed ∷ cancelled ∷ awaiting_resume ∷ [])
    ∷ (awaiting_resume, connecting ∷ cancelled ∷ failed ∷ [])
    ∷ (failed, connecting ∷ [])
    ∷ (completed, [])
    ∷ (cancelled, [])
    ∷ []

pub record StateMachine : Type 0 where
  pub current : Status
  pub table : Map Status (List Status)

-- `ErrInvalidTransition`, with the two statuses of its message.
pub data TransitionError : Type 0 where
  invalid_transition : Status → Status → TransitionError

unfoldable pub new_state_machine : Status → StateMachine
unfolding default_transitions
new_state_machine initial = record { current = initial; table = default_transitions }

unfoldable pub is_terminal : StateMachine → Bool
unfolding lookup
is_terminal sm = elim (lookup sm.current sm.table) [
  | none ↦ false
  | some [] ↦ true
  | some (s ∷ ss) ↦ false
]

unfoldable pub can_transition : StateMachine → Status → Bool
unfolding lookup
can_transition sm next = elim (lookup sm.current sm.table) [
  | none ↦ false
  | some allowed ↦ has next allowed
]

unfoldable pub transition : StateMachine → Status → StateMachine × Option TransitionError
transition sm next =
    if can_transition sm next
    then (record sm { current = next }, none)
    else (sm, some (invalid_transition sm.current next))

-- `sort.Slice` by `<` on the strings: one element put into a sorted list.
abbrev text_less : Status → Status → Bool
text_less s t = elim (compare_text (text s) (text t)) [ Ordering.lt ↦ true | _ ↦ false ]

abbrev insert_sorted : Status → List Status → List Status
insert_sorted s [] = s ∷ []
insert_sorted s (t ∷ ts) = if text_less s t then s ∷ t ∷ ts else t ∷ insert_sorted s ts

abbrev sort : List Status → List Status
sort [] = []
sort (s ∷ ss) = insert_sorted s (sort ss)

unfoldable pub valid_transitions : StateMachine → List Status
unfolding lookup text
valid_transitions sm = elim (lookup sm.current sm.table) [ none ↦ [] | some allowed ↦ sort allowed ]

-- A caller that asks for one status after the other and goes on after a refusal.
unfoldable pub attempts : StateMachine → List Status → StateMachine
attempts sm [] = sm
attempts sm (s ∷ ss) = attempts (transition sm s).0 ss
