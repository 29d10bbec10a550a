-- ===== src/Transfer/Manager/Lifetime.antt =====
-- How the status of one transfer of core/transfer/manager.go moves while the manager runs.
use mathlib.Core.Path.{subst}
use mathlib.Core.Option.{some-injective}
use text.Mathlib.TextEquality.{eq_iff}
use lanos.Common.{
  ◌≡◌, ◌≢◌, sym, inl, inr, String, Option, some, List, [], ◌∷◌, ◌==◌, string_eq, Bool-cases, All,
}
use lanos.Common.Map.{Map, lookup, lookup-insert, lookup-delete}
use lanos.Transfer.Status.{Status}
use lanos.Transfer.Status.Lifecycle.{◌⟶*◌, here, next}
use lanos.Transfer.Manager.{Transfer, Manager}
use lanos.Transfer.Manager.History.{
  Call, creation, step, run, Follows, IsValid, Change, same, added, changed, removed, step-Change,
  step-IsValid,
}

-- The call does not create a transfer under `id`.
abbrev pub Spares : String → Call → Type 0
Spares id c = creation c ≢ some id

-- Where an entry comes from.
pub data Origin (id : String) (m : Map String Transfer) (t' : Transfer) : Type 0 where
  kept : lookup id m ≡ some t' → Origin id m t'
  followed : (t : Transfer) → lookup id m ≡ some t → Follows t t' → Origin id m t'

Change-Origin :
    {made : Option String} {m m' : Map String Transfer} (id : String) (t' : Transfer)
    → Change made m m'
    → made ≢ some id
    → lookup id m' ≡ some t'
    → Origin id m t'
Change-Origin id t' same spared found = kept found
Change-Origin {m} id t' (added j t q s p) spared found = elim (Bool-cases (j == id)) [
  | inl e ↦ absurd (spared (cc (q, (eq_iff j id).0 e)))
  | inr e ↦ kept (rw (lookup-insert, e) at found)
]
Change-Origin {m} id t' (changed j t u q f) spared found = elim (Bool-cases (j == id)) [
  | inl e ↦
      followed t (cc (q, (eq_iff j id).0 e))
        (subst (Follows t) (some-injective _ _ (rw (lookup-insert, e) at found)) f)
  | inr e ↦ kept (rw (lookup-insert, e) at found)
]
Change-Origin {m} id t' (removed j) spared found = elim (Bool-cases (j == id)) [
  | inl e ↦ absurd (cc (rw (lookup-delete, e) at found))
  | inr e ↦ kept (rw (lookup-delete, e) at found)
]

step_path :
    (m : Manager) (c : Call) (id : String) (t' : Transfer)
    → IsValid m
    → Spares id c
    → lookup id (step m c).transfers ≡ some t'
    → (t : Transfer) × (lookup id m.transfers ≡ some t) × (t.status ⟶* t'.status)
step_path m c id t' v spared found = elim (Change-Origin id t' (step-Change m c v) spared found) [
  | kept e ↦ (t', e, here)
  | followed t e f ↦ (
    t,
    e,
    elim f.moved [
      | inl stay ↦ subst (λ u. t.status ⟶* u) (sym stay) here
      | inr edge ↦ next edge here
    ],
  )
]

⟶*_trans : {s t u : Status} → s ⟶* t → t ⟶* u → s ⟶* u
⟶*_trans here r = r
⟶*_trans (next d q) r = next d (⟶*_trans q r)

-- From a manager where every transfer is stored once, under its own id and with its machine in
-- step, and over any calls that do not create a transfer under `id` anew: a transfer found under
-- `id` at the end was there at the start, and its status went along edges of the lifecycle.
pub run_path :
    (m : Manager) (cs : List Call) (id : String) (t' : Transfer)
    → IsValid m
    → All (Spares id) cs
    → lookup id (run m cs).transfers ≡ some t'
    → (t : Transfer) × (lookup id m.transfers ≡ some t) × (t.status ⟶* t'.status)
unfolding run
run_path m [] id t' v spared found = (t', found, here)
run_path m (c ∷ cs) id t' v spared found =
    let (u, e, r) = run_path (step m c) cs id t' (step-IsValid m c v) spared.1 found in
    let (t, e', r') = step_path m c id u v spared.0 e in (t, e', ⟶*_trans r' r)
