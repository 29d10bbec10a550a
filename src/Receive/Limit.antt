-- ===== src/Receive/Limit.antt =====
-- What core/receive/manager.go lets through: the limit of transfers that run, and moves out of a
-- terminal status.
use lanos.Common.{
  ℕ, suc, ◌<◌, ◌≤◌, ◌≡◌, refl, ap, ◌∙◌, false, ◌⊎◌, String, none, some, arith, if◌then◌else◌,
  string_eq, ltb, Bool-cases, inl, inr, beq_refl, err,
}
use lanos.Common.Int.{ℤ}
use lanos.Common.Map.{lookup, count_by, sum_by-insert, lookup-insert}
use lanos.Receive.{
  Incoming, Manager, limit_reached, pending, accepting, rejected, failed, cancelled, expired,
  is_running, register, accept, reject, can_accept, can_reject, is_valid_transition, changed,
  new_incoming, default_prompt_expiry, positive_or,
}

accept_pending :
    (m : Manager) (id path : String) (now : ℕ) (t : Incoming)
    → lookup id m.incomings ≡ some t
    → t.status ≡ pending
    → accept m id path now
      ≡ changed m id (record t { status = accepting; save_path = path; updated_at = now })
unfolding accept can_accept
accept_pending m id path now t found p = ground (arith, found, p)

-- `Accept` has no test of the limit: each pending transfer that is accepted runs from then on, one more
-- than before, also where the limit is reached.
pub accept_over_limit :
    (m : Manager) (id path : String) (now : ℕ) (t : Incoming)
    → lookup id m.incomings ≡ some t
    → t.status ≡ pending
    → count_by is_running (accept m id path now).0.incomings ≡ suc (count_by is_running m.incomings)
accept_over_limit m id path now t found p =
    let t' : Incoming = record t { status = accepting; save_path = path; updated_at = now } in
    ap (λ r. count_by is_running (r.0).incomings) (accept_pending m id path now t found p)
    ∙ ground (arith, sum_by-insert (λ v. if is_running v then 1 else 0) id t' m.incomings, found, p)

-- `Register` under a new id leaves the number of running transfers as it is; it refuses where
-- that number is at the limit or above, and otherwise stores a pending transfer.
pub register_cases :
    (m : Manager) (id : String) (now : ℕ) (p n f : String) (size expiry : ℤ)
    → lookup id m.incomings ≡ none
    → (count_by is_running (register m id now p n f size expiry).0.incomings
        ≡ count_by is_running m.incomings)
      × ((m.max_active ≤ count_by is_running m.incomings)
            × (register m id now p n f size expiry ≡ (m, err limit_reached))
          ⊎ (count_by is_running m.incomings < m.max_active)
            × ((t : Incoming) × (t.status ≡ pending)
                × (lookup id (register m id now p n f size expiry).0.incomings ≡ some t)))
unfolding register new_incoming
register_cases m id now p n f size expiry fresh =
    let t : Incoming = new_incoming id now p n f size (positive_or expiry default_prompt_expiry) in
    elim (Bool-cases (ltb (count_by is_running m.incomings) m.max_active)) [
      | inr full ↦ (rw (register, full) refl, inl (ground (arith, full), rw (register, full) refl))
      | inl room ↦ (
        rw (register, room)
            (ground
              (arith, fresh, sum_by-insert (λ v. if is_running v then 1 else 0) id t m.incomings)),
        inr (
          ground (arith, room),
          (
            t,
            refl,
            rw (register, room) (ground (arith, lookup-insert id id t m.incomings, beq_refl id)),
          ),
        ),
      )
    ]

-- `Reject` succeeds on a transfer that has failed, was cancelled or has expired, though none of these
-- moves is a valid transition.
pub reject_after_end :
    (m : Manager) (id : String) (now : ℕ) (t : Incoming)
    → lookup id m.incomings ≡ some t
    → (t.status ≡ failed) ⊎ ((t.status ≡ cancelled) ⊎ (t.status ≡ expired))
    → (reject m id now ≡ changed m id (record t { status = rejected; updated_at = now }))
      × (is_valid_transition t.status rejected ≡ false)
unfolding reject can_reject is_valid_transition
reject_after_end m id now t found ended = (ground (arith, found, ended), ground (arith, ended))
