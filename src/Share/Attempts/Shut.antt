-- ===== src/Share/Attempts/Shut.antt =====
-- Attempts of an address that is banned (`CheckPassword` of core/share/manager.go).
use mathlib.Core.Path.{subst}
use lanos.Common.{
  ℕ, ◌+◌, ◌≤◌, sym, ap, ◌∙◌, String, List, [], ◌∷◌, arith, string_eq, nat_eq, ◌==◌, Bool-cases,
  Option-cases, inl, inr, All,
}
use lanos.Share.{Bytes, ban_duration}
use lanos.Share.Manager.{answer_password}
use lanos.Share.Attempts.{
  Attempt, Checks, Event, begins, ends, pick, own, step, told, guesses, IsTry,
}
use lanos.Share.Attempts.Steps.{
  IsShut, ends_nothing, begins_other, begins_shut, answer_password-IsShut, is_wrong_le, ends_own,
  ends_other,
}

module _ (sha256 : Bytes → Bytes) where
  -- While the address is banned, only the attempts that are underway can tell it anything.
  abbrev IsSpent : ℕ → String → Checks → Event → Type 0
  IsSpent start x c e =
      IsShut (start + ban_duration) (step sha256 c e).bans x
      × (told sha256 x c e + own x (step sha256 c e).underway ≤ own x c.underway)

  begins-IsSpent :
      (start : ℕ) (x : String) (c : Checks) (a : Attempt) (now : ℕ)
      → IsShut (start + ban_duration) c.bans x
      → IsTry sha256 start x (begins a now)
      → IsSpent start x c (begins a now)
  begins-IsSpent start x c a now (u, found, late) w = elim (Bool-cases (a.ip == x)) [
    | inr other ↦
        let (same, size, silent) = begins_other sha256 x c a now other in
        ((u, same.1 ∙ found, late), omega (arith, size, silent))
    | inl mine ↦ elim w [
      | inl other ↦ absurd (cc (mine, other))
      | inr (from, before, wrong) ↦
          let (s, t) = begins_shut sha256 x c a now u found (omega (arith, late, before)) mine in
          (
            subst (λ n. IsShut (start + ban_duration) n.bans x) (sym s) (u, found, late),
            subst (λ n. told sha256 x c (begins a now) + own x n.underway ≤ own x c.underway)
                (sym s) (omega (arith, t)),
          )
    ]
  ]

  ends-IsSpent :
      (start : ℕ) (x : String) (c : Checks) (i now : ℕ)
      → IsShut (start + ban_duration) c.bans x
      → start ≤ now
      → IsSpent start x c (ends i now)
  ends-IsSpent start x c i now (u, found, late) from = elim (Option-cases (pick i c.underway)) [
    | inl n ↦
        let (s, t) = ends_nothing sha256 x c i now n in
        (
          subst (λ n. IsShut (start + ban_duration) n.bans x) (sym s) (u, found, late),
          subst (λ n. told sha256 x c (ends i now) + own x n.underway ≤ own x c.underway) (sym s)
              (omega (arith, t)),
        )
    | inr ((a, others), n) ↦ elim (Bool-cases (a.ip == x)) [
      | inr other ↦
          let (same, left, size, silent) = ends_other sha256 x c i now a others n other in
          ((u, same.1 ∙ found, late), omega (arith, ap (λ l. own x l) left, size, silent))
      | inl mine ↦
          let (s, t, size) = ends_own sha256 x c i now a others n mine in
          let r = answer_password sha256 c.bans a.share a.password x now in
          (
            subst (λ n. IsShut (start + ban_duration) n.bans x) (sym s)
                (answer_password-IsShut sha256 start x c.bans a.share a.password now from
                  (u, found, late)),
            omega (arith, ap (λ n. own x n.underway) s, t, is_wrong_le r.1, size),
          )
    ]
  ]

  event-IsSpent :
      (start : ℕ) (x : String) (c : Checks) (e : Event)
      → IsShut (start + ban_duration) c.bans x
      → IsTry sha256 start x e
      → IsSpent start x c e
  event-IsSpent start x c (begins a now) shut w = begins-IsSpent start x c a now shut w
  event-IsSpent start x c (ends i now) shut w = ends-IsSpent start x c i now shut w

  pub guesses_shut :
      (start : ℕ) (x : String) (c : Checks) (es : List Event)
      → IsShut (start + ban_duration) c.bans x
      → All (IsTry sha256 start x) es
      → guesses sha256 x c es ≤ own x c.underway
  unfolding guesses
  guesses_shut start x c [] shut w = omega arith
  guesses_shut start x c (e ∷ es) shut (w, ws) =
      let (later, size) = event-IsSpent start x c e shut w in
      omega (arith, size, guesses_shut start x (step sha256 c e) es later ws)
