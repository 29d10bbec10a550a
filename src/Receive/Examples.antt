-- ===== src/Receive/Examples.antt =====
-- Calls of core/receive/manager.go, and the theorems at them.
use mathlib.Core.List.{Memᴰ}
use lanos.Common.{suc, ◌≤◌, ◌<◌, ◌≡◌, refl, ◌⊎◌, false, string_eq, none, some, List, [], ◌∷◌, All}
use lanos.Common.Int.{pos}
use lanos.Common.Map.{Distinct, lookup, insert, count_by}
use lanos.Receive.{
  Incoming, Manager, pending, receiving, expired, new_incoming, new_manager, register, accept,
  can_accept, is_valid_transition, is_running, is_due, expire, expire_expired, update_status,
}
use lanos.Receive.Consent.{
  Call, registers, accepts, updates, expires, step, run, grants, is_accepted,
  nothing_received_unasked,
}
use lanos.Receive.Expiry.{IsWaiting, expire_expired_cases}
use lanos.Receive.Limit.{accept_over_limit}

-- Two transfers of which one is accepted; the other one is not answered in time.
abbrev calls : List Call
calls =
    registers "a" 1 "p" "n" "f" (pos 9) (pos 10)
    ∷ registers "b" 2 "p" "n" "g" (pos 9) (pos 10)
    ∷ accepts "a" "/d" 3
    ∷ updates "b" receiving "" 4
    ∷ expires 20
    ∷ []

abbrev unanswered : Incoming
unanswered = record (new_incoming "b" 2 "p" "n" "g" (pos 9) 10) {
  status = expired;
  updated_at = 20;
}

finds_unanswered : lookup "b" (run (new_manager (pos 1)) calls).incomings ≡ some unanswered
unfolding run step new_manager register new_incoming accept can_accept update_status
    is_valid_transition expire_expired expire is_due lookup insert
finds_unanswered = refl

never_granted : All (λ c. grants "b" c ≡ false) calls
never_granted = (refl, (refl, (refl, (refl, (refl, tt)))))

nothing_received_unasked_example : is_accepted unanswered.status ≡ false
nothing_received_unasked_example =
    nothing_received_unasked (pos 1) calls "b" unanswered never_granted finds_unanswered

abbrev asked : Manager
asked = (register (new_manager (pos 1)) "a" 1 "p" "n" "f" (pos 9) (pos 10)).0

abbrev first : Incoming
first = new_incoming "a" 1 "p" "n" "f" (pos 9) 10

finds_first : lookup "a" asked.incomings ≡ some first
unfolding new_manager register lookup insert
finds_first = refl

asked-Distinct : Distinct asked.incomings
unfolding new_manager register insert lookup
asked-Distinct = (refl, tt)

expire_expired_cases_example :
    (lookup "a" asked.incomings ≡ none)
      × (lookup "a" (expire_expired asked 12).0.incomings ≡ none)
      × ¬ Memᴰ "a" (expire_expired asked 12).1
    ⊎ (t : Incoming) × (lookup "a" asked.incomings ≡ some t)
      × (IsWaiting t
            × (t.expires_at < 12)
            × (lookup "a" (expire_expired asked 12).0.incomings
                ≡ some (record t { status = expired; updated_at = 12 }))
            × Memᴰ "a" (expire_expired asked 12).1
          ⊎ (¬ IsWaiting t ⊎ (12 ≤ t.expires_at))
            × (lookup "a" (expire_expired asked 12).0.incomings ≡ some t)
            × ¬ Memᴰ "a" (expire_expired asked 12).1)
expire_expired_cases_example = expire_expired_cases asked 12 "a" asked-Distinct

first_pending : first.status ≡ pending
unfolding new_incoming
first_pending = refl

accept_over_limit_example :
    count_by is_running (accept asked "a" "/d" 3).0.incomings
    ≡ suc (count_by is_running asked.incomings)
accept_over_limit_example = accept_over_limit asked "a" "/d" 3 first finds_first first_pending
