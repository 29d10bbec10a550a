-- ===== src/Receive/Expiry.antt =====
-- `ExpireExpired` of core/receive/manager.go.
use mathlib.Core.List.{Memᴰ}
use mathlib.Core.List.Memᴰ.{head, tail, cases_cons}
use mathlib.Core.Path.{subst}
use mathlib.Core.Option.{some-injective}
use lanos.Common.{
  ℕ, ◌≡◌, refl, ltb, ◌≤◌, ◌<◌, sym, ap, ◌∙◌, true, false, ◌⊎◌, String, none, some, [], ◌∷◌, arith,
  string_eq, ◌==◌, Bool-cases, Option-cases, inl, inr,
}
use lanos.Common.Map.{Map, lookup, Distinct, lookup-map_values}
use lanos.Receive.{
  Incoming, Manager, Status, pending, prompting, accepting, receiving, completed, rejected, failed,
  cancelled, expired, can_accept, is_due, expire, due_ids, expire_expired,
}

same_due : (now : ℕ) (u t : Incoming) → u ≡ t → is_due now t ≡ true → is_due now u ≡ true
same_due now u t e d = ap (is_due now) e ∙ d

due_ids-found :
    (now : ℕ) (id : String) (t : Incoming) (m : Map String Incoming)
    → lookup id m ≡ some t
    → is_due now t ≡ true
    → Memᴰ id (due_ids now m)
unfolding lookup due_ids
due_ids-found now id t [] found due = absurd (cc found)
due_ids-found now id t ((k, u) ∷ m) found due = elim (Bool-cases (k == id)) [
  | inl same ↦
      rw (due_ids, same_due now u t (ground (arith, same, found)) due)
        (head (sym ((string_eq.beq_iff k id).0 same)))
  | inr other ↦ elim (Bool-cases (is_due now u)) [
    | inl d ↦ rw (due_ids, d) (tail (due_ids-found now id t m (ground (arith, other, found)) due))
    | inr d ↦ rw (due_ids, d) (due_ids-found now id t m (ground (arith, other, found)) due)
  ]
]

due_ids-due :
    (now : ℕ) (id : String) (m : Map String Incoming)
    → Distinct m
    → Memᴰ id (due_ids now m)
    → (t : Incoming) × (lookup id m ≡ some t) × (is_due now t ≡ true)
unfolding lookup due_ids
due_ids-due now id [] d h = elim h [ ]
due_ids-due now id ((k, u) ∷ m) (fresh, d) h = elim (Bool-cases (is_due now u)) [
  | inl due ↦ elim (cases_cons (rw (due_ids, due) at h)) [
    | inl same ↦ (u, ground (arith, string_eq.beq_iff k id, same), due)
    | inr later ↦ due_later k u fresh (due_ids-due now id m d later)
  ]
  | inr waits ↦ due_later k u fresh (due_ids-due now id m d (rw (due_ids, waits) at h))
]
  where
    due_later :
        (j : String) (v : Incoming)
        → lookup j m ≡ none
        → (t : Incoming) × (lookup id m ≡ some t) × (is_due now t ≡ true)
        → (t : Incoming) × (lookup id ((j, v) ∷ m) ≡ some t) × (is_due now t ≡ true)
    due_later j v gone (t, found, due) =
        (t, ground (arith, string_eq.beq_iff j id, gone, found), due)

-- What waits for an answer: a pending or prompting transfer.
abbrev pub IsWaiting : Incoming → Type 0
IsWaiting t = (t.status ≡ pending) ⊎ (t.status ≡ prompting)

waits_by_status :
    (s : Status)
    → (can_accept s ≡ true) × ((s ≡ pending) ⊎ (s ≡ prompting))
      ⊎ (can_accept s ≡ false) × ¬ ((s ≡ pending) ⊎ (s ≡ prompting))
unfolding can_accept
waits_by_status pending = inl (refl, inl refl)
waits_by_status prompting = inl (refl, inr refl)
waits_by_status accepting = inr (refl, λ w. ground (arith, w))
waits_by_status receiving = inr (refl, λ w. ground (arith, w))
waits_by_status completed = inr (refl, λ w. ground (arith, w))
waits_by_status rejected = inr (refl, λ w. ground (arith, w))
waits_by_status failed = inr (refl, λ w. ground (arith, w))
waits_by_status cancelled = inr (refl, λ w. ground (arith, w))
waits_by_status expired = inr (refl, λ w. ground (arith, w))

due_cases :
    (now : ℕ) (t : Incoming)
    → (is_due now t ≡ true) × IsWaiting t × (t.expires_at < now)
      ⊎ (is_due now t ≡ false) × (¬ IsWaiting t ⊎ (now ≤ t.expires_at))
unfolding is_due
due_cases now t = elim (waits_by_status t.status) [
  | inr (answered, w) ↦ inr (ground (arith, answered), inl w)
  | inl (open_, w) ↦ elim (Bool-cases (ltb t.expires_at now)) [
    | inl past ↦ inl (ground (arith, open_, past), w, ground (arith, past))
    | inr early ↦ inr (ground (arith, open_, early), inr (ground (arith, early)))
  ]
]

unreported :
    (m : Manager) (now : ℕ) (id : String) (t : Incoming)
    → Distinct m.incomings
    → lookup id m.incomings ≡ some t
    → is_due now t ≡ false
    → ¬ Memᴰ id (due_ids now m.incomings)
unreported m now id t d found early h =
    let (u, at, due) = due_ids-due now id m.incomings d h in
    let same = some-injective u t (sym at ∙ found) in absurd (cc (due, early, same))

-- In a map in which no key stands twice, as in every Go map: a transfer that is pending or prompting
-- past its deadline becomes expired, at the time of the call, and its id is reported; every other
-- transfer stays as it is, and no other id is reported.
pub expire_expired_cases :
    (m : Manager) (now : ℕ) (id : String)
    → Distinct m.incomings
    → (lookup id m.incomings ≡ none)
        × (lookup id (expire_expired m now).0.incomings ≡ none)
        × ¬ Memᴰ id (expire_expired m now).1
      ⊎ (t : Incoming) × (lookup id m.incomings ≡ some t)
        × (IsWaiting t
              × (t.expires_at < now)
              × (lookup id (expire_expired m now).0.incomings
                  ≡ some (record t { status = expired; updated_at = now }))
              × Memᴰ id (expire_expired m now).1
            ⊎ (¬ IsWaiting t ⊎ (now ≤ t.expires_at))
              × (lookup id (expire_expired m now).0.incomings ≡ some t)
              × ¬ Memᴰ id (expire_expired m now).1)
unfolding expire_expired expire
expire_expired_cases m now id d = elim (Option-cases (lookup id m.incomings)) [
  | inl gone ↦ inl (
    gone,
    rw (lookup-map_values, gone) refl,
    λ h. (let (t, found, _) = due_ids-due now id m.incomings d h in absurd (cc (gone, found))),
  )
  | inr (t, found) ↦ inr (
    t,
    found,
    elim (due_cases now t) [
      | inl (due, w, past) ↦ inl (
        w,
        past,
        rw (lookup-map_values, found) (ground (arith, due)),
        due_ids-found now id t m.incomings found due,
      )
      | inr (early, w) ↦ inr (
        w,
        rw (lookup-map_values, found) (ground (arith, early)),
        λ h. unreported m now id t d found early h,
      )
    ],
  )
]

not_due : (now : ℕ) (t : Incoming) → is_due now (expire now t) ≡ false
unfolding expire is_due can_accept
not_due now t = ground arith

-- Behind the call no transfer waits for an answer past its deadline.
pub expire_expired_none_due :
    (m : Manager) (now : ℕ) (id : String) (u : Incoming)
    → lookup id (expire_expired m now).0.incomings ≡ some u
    → is_due now u ≡ false
unfolding expire_expired
expire_expired_none_due m now id u found = elim (Option-cases (lookup id m.incomings)) [
  | inl n ↦ absurd (cc (rw (lookup-map_values, n) at found))
  | inr (t, n) ↦
      subst (λ x. is_due now x ≡ false)
        (some-injective (expire now t) u (rw (lookup-map_values, n) at found)) (not_due now t)
]
