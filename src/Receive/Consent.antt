-- ===== src/Receive/Consent.antt =====
-- core/receive/manager.go: what it takes for an incoming transfer to be received.
use mathlib.Core.Path.{subst}
use mathlib.Core.Option.{some-injective}
use lanos.Common.{
  ℕ, ◌≡◌, refl, Bool, true, false, ◌&&◌, ◌||◌, String, some, List, [], ◌∷◌, arith, string_eq,
  nat_eq, ◌==◌, ltb, Bool-cases, Option-cases, inl, inr, All,
}
use lanos.Common.Int.{ℤ}
use lanos.Common.Map.{
  Map, lookup, insert, lookup-insert, lookup-delete, lookup-map_values, count_by,
}
use lanos.Receive.{
  Status, accepting, receiving, completed, failed, is_status, Incoming, Manager, new_manager,
  new_incoming, register, can_accept, can_reject, can_cancel, accept, reject, is_valid_transition,
  update_status, update_progress, remove, cancel, is_running, expire, expire_expired,
}

-- The calls on a manager.
pub data Call : Type 0 where
  registers : String → ℕ → String → String → String → ℤ → ℤ → Call
  accepts : String → String → ℕ → Call
  rejects : String → ℕ → Call
  updates : String → Status → String → ℕ → Call
  progresses : String → ℤ → ℕ → Call
  removes : String → Call
  cancels : String → ℕ → Call
  expires : ℕ → Call

unfoldable pub step : Manager → Call → Manager
step m (registers id now p n f size expiry) = (register m id now p n f size expiry).0
step m (accepts id path now) = (accept m id path now).0
step m (rejects id now) = (reject m id now).0
step m (updates id s msg now) = (update_status m id s msg now).0
step m (progresses id n now) = (update_progress m id n now).0
step m (removes id) = (remove m id).0
step m (cancels id now) = (cancel m id now).0
step m (expires now) = (expire_expired m now).0

unfoldable pub run : Manager → List Call → Manager
run m [] = m
run m (c ∷ cs) = run (step m c) cs

-- The statuses behind an accepted prompt.
abbrev pub is_accepted : Status → Bool
is_accepted s =
    is_status s accepting || is_status s receiving || is_status s completed || is_status s failed

-- The calls that accept the transfer `id`.
abbrev pub grants : String → Call → Bool
grants id (accepts k path now) = k == id
grants id (updates k s msg now) = k == id && is_status s accepting
grants id _ = false

-- The transfer `id`, where there is one, was not accepted.
abbrev Waits : String → Map String Incoming → Type 0
Waits id m = (t : Incoming) → lookup id m ≡ some t → is_accepted t.status ≡ false

Waits-insert :
    (id k : String) (t : Incoming) (m : Map String Incoming)
    → Waits id m
    → ((k == id) ≡ true → is_accepted t.status ≡ false)
    → Waits id (insert k t m)
Waits-insert id k t m w h u found = elim (Bool-cases (k == id)) [
  | inl same ↦
      subst (λ x. is_accepted x.status ≡ false)
        (some-injective t u (ground (arith, lookup-insert k id t m))) (h same)
  | inr other ↦ w u (ground (arith, lookup-insert k id t m))
]

Waits-same :
    (id k : String) (m : Map String Incoming) (t : Incoming)
    → Waits id m
    → lookup k m ≡ some t
    → (k == id) ≡ true
    → is_accepted t.status ≡ false
Waits-same id k m t w found same =
    w t (subst (λ x. lookup x m ≡ some t) ((string_eq.beq_iff k id).0 same) found)

Waits-register :
    (id k : String) (m : Manager) (now : ℕ) (p n f : String) (size expiry : ℤ)
    → Waits id m.incomings
    → Waits id (register m k now p n f size expiry).0.incomings
unfolding register new_incoming
Waits-register id k m now p n f size expiry w =
    elim (Bool-cases (ltb (count_by is_running m.incomings) m.max_active)) [
      | inl room ↦ rw (register, room) (Waits-insert id k _ m.incomings w (λ same. refl))
      | inr full ↦ rw (register, full) w
    ]

Waits-accept :
    (id k path : String) (m : Manager) (now : ℕ)
    → (k == id) ≡ false
    → Waits id m.incomings
    → Waits id (accept m k path now).0.incomings
unfolding accept
Waits-accept id k path m now other w = elim (Option-cases (lookup k m.incomings)) [
  | inl n ↦ rw (accept, n) w
  | inr (t, n) ↦ elim (Bool-cases (can_accept t.status)) [
    | inl c ↦
        rw (accept, n, c) (Waits-insert id k _ m.incomings w (λ same. absurd (cc (same, other))))
    | inr c ↦ rw (accept, n, c) w
  ]
]

Waits-reject :
    (id k : String) (m : Manager) (now : ℕ)
    → Waits id m.incomings
    → Waits id (reject m k now).0.incomings
unfolding reject
Waits-reject id k m now w = elim (Option-cases (lookup k m.incomings)) [
  | inl n ↦ rw (reject, n) w
  | inr (t, n) ↦ elim (Bool-cases (can_reject t.status)) [
    | inl c ↦ rw (reject, n, c) (Waits-insert id k _ m.incomings w (λ same. refl))
    | inr c ↦ rw (reject, n, c) w
  ]
]

Waits-cancel :
    (id k : String) (m : Manager) (now : ℕ)
    → Waits id m.incomings
    → Waits id (cancel m k now).0.incomings
unfolding cancel
Waits-cancel id k m now w = elim (Option-cases (lookup k m.incomings)) [
  | inl n ↦ rw (cancel, n) w
  | inr (t, n) ↦ elim (Bool-cases (can_cancel t.status)) [
    | inl c ↦ rw (cancel, n, c) (Waits-insert id k _ m.incomings w (λ same. refl))
    | inr c ↦ rw (cancel, n, c) w
  ]
]

-- Only a move to accepting leads from the other statuses into the accepted ones.
only_by_accepting :
    (a b : Status)
    → is_accepted a ≡ false
    → is_status b accepting ≡ false
    → (is_status b a || is_valid_transition a b) ≡ true
    → is_accepted b ≡ false
unfolding is_valid_transition
only_by_accepting a b x y z = ground arith

Waits-update_status :
    (id k : String) (m : Manager) (s : Status) (msg : String) (now : ℕ)
    → (k == id && is_status s accepting) ≡ false
    → Waits id m.incomings
    → Waits id (update_status m k s msg now).0.incomings
unfolding update_status
Waits-update_status id k m s msg now other w = elim (Option-cases (lookup k m.incomings)) [
  | inl n ↦ rw (update_status, n) w
  | inr (t, n) ↦ elim (Bool-cases (is_status s t.status || is_valid_transition t.status s)) [
    | inl c ↦
        rw (update_status, n, c)
          (Waits-insert id k _ m.incomings w (λ same.
            only_by_accepting t.status s (Waits-same id k m.incomings t w n same)
              (ground (arith, same, other)) c))
    | inr c ↦ rw (update_status, n, c) w
  ]
]

Waits-update_progress :
    (id k : String) (m : Manager) (b : ℤ) (now : ℕ)
    → Waits id m.incomings
    → Waits id (update_progress m k b now).0.incomings
unfolding update_progress
Waits-update_progress id k m b now w = elim (Option-cases (lookup k m.incomings)) [
  | inl n ↦ rw (update_progress, n) w
  | inr (t, n) ↦
      rw (update_progress, n)
        (Waits-insert id k _ m.incomings w (Waits-same id k m.incomings t w n))
]

Waits-remove :
    (id k : String) (m : Manager) → Waits id m.incomings → Waits id (remove m k).0.incomings
unfolding remove
Waits-remove id k m w = elim (Option-cases (lookup k m.incomings)) [
  | inl n ↦ rw (remove, n) w
  | inr (t, n) ↦ rw (remove, n) (λ u found. w u (ground (arith, lookup-delete k id m.incomings)))
]

expire_waits :
    (now : ℕ) (t : Incoming)
    → is_accepted t.status ≡ false
    → is_accepted (expire now t).status ≡ false
unfolding expire
expire_waits now t h = ground (arith, h)

Waits-expire_expired :
    (id : String) (m : Manager) (now : ℕ)
    → Waits id m.incomings
    → Waits id (expire_expired m now).0.incomings
unfolding expire_expired
Waits-expire_expired id m now w u found = elim (Option-cases (lookup id m.incomings)) [
  | inl n ↦ absurd (cc (rw (lookup-map_values, n) at found))
  | inr (t, n) ↦
      subst (λ x. is_accepted x.status ≡ false)
        (some-injective (expire now t) u (rw (lookup-map_values, n) at found))
        (expire_waits now t (w t n))
]

step-Waits :
    (id : String) (m : Manager) (c : Call)
    → grants id c ≡ false
    → Waits id m.incomings
    → Waits id (step m c).incomings
unfolding step
step-Waits id m (registers k now p n f size expiry) g w =
    Waits-register id k m now p n f size expiry w
step-Waits id m (accepts k path now) g w = Waits-accept id k path m now g w
step-Waits id m (rejects k now) g w = Waits-reject id k m now w
step-Waits id m (updates k s msg now) g w = Waits-update_status id k m s msg now g w
step-Waits id m (progresses k b now) g w = Waits-update_progress id k m b now w
step-Waits id m (removes k) g w = Waits-remove id k m w
step-Waits id m (cancels k now) g w = Waits-cancel id k m now w
step-Waits id m (expires now) g w = Waits-expire_expired id m now w

run-Waits :
    (id : String) (m : Manager) (cs : List Call)
    → All (λ c. grants id c ≡ false) cs
    → Waits id m.incomings
    → Waits id (run m cs).incomings
unfolding run
run-Waits id m [] g w = w
run-Waits id m (c ∷ cs) (g, gs) w = run-Waits id (step m c) cs gs (step-Waits id m c g w)

-- Without a call that accepts the transfer `id` (`Accept`, or `UpdateStatus` to accepting), no calls
-- on a new manager bring it to accepting, receiving, completed or failed.
pub nothing_received_unasked :
    (max_active : ℤ) (cs : List Call) (id : String) (t : Incoming)
    → All (λ c. grants id c ≡ false) cs
    → lookup id (run (new_manager max_active) cs).incomings ≡ some t
    → is_accepted t.status ≡ false
unfolding new_manager lookup
nothing_received_unasked max_active cs id t gs found =
    run-Waits id (new_manager max_active) cs gs (λ u e. absurd (cc e)) t found
