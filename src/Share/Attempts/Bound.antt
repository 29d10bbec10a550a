-- ===== src/Share/Attempts/Bound.antt =====
-- How many wrong passwords an address can try, over attempts in any interleaving (`CheckPassword` of
-- core/share/manager.go).
use mathlib.Core.Path.{subst}
use lanos.Common.{
  ℕ, suc, ◌+◌, ◌-◌, ◌≤◌, ◌<◌, ◌≡◌, sym, ap, ◌∙◌, true, false, String, none, some, List, [], ◌∷◌,
  arith, string_eq, nat_eq, ◌==◌, Bool-cases, Option-cases, inl, inr, ◌⊎◌, All,
}
use lanos.Common.Map.{lookup}
use lanos.Share.{Bytes, max_password_attempts, ban_duration, verify_password}
use lanos.Share.Manager.{Bans, fails, check_banned}
use lanos.Share.Bans.{record_pass_fail_own}
use lanos.Share.Attempts.{
  Attempt, Checks, Event, begins, ends, pick, own, is_wrong, step, told, guesses, width, IsWrongOf,
  IsTry,
}
use lanos.Share.Attempts.Steps.{
  pick-Picked, All-Picked, let_in_All, IsShut, ends_nothing, begins_other, begins_free,
  answer_password_wrong, ends_own, ends_other,
}
use lanos.Share.Attempts.Shut.{guesses_shut}

module _ (sha256 : Bytes → Bytes) where
  width_now : (x : String) (c : Checks) (es : List Event) → own x c.underway ≤ width sha256 x c es
  unfolding width
  width_now x c [] = omega arith
  width_now x c (e ∷ es) = ground arith

  width_later :
      (x : String) (c : Checks) (e : Event) (es : List Event)
      → width sha256 x (step sha256 c e) es ≤ width sha256 x c (e ∷ es)
  unfolding width
  width_later x c e es = ground arith

  -- The address is not banned, has fewer failures than a ban takes, and its attempts that are underway
  -- have a wrong password.
  record IsOpen (x : String) (c : Checks) : Type 0 where
    free : lookup x c.bans.banned_until ≡ none
    below : fails c.bans.pass_fails x < max_password_attempts
    wrong : All (IsWrongOf sha256 x) c.underway

  -- An event counts what it tells the address, or is the failure that bans it.
  abbrev IsCounted : ℕ → String → Checks → Event → Type 0
  IsCounted start x c e =
      IsOpen x (step sha256 c e)
        × (fails (step sha256 c e).bans.pass_fails x
            ≡ told sha256 x c e + fails c.bans.pass_fails x)
      ⊎ IsShut (start + ban_duration) (step sha256 c e).bans x
        × (told sha256 x c e ≡ 1)
        × (own x c.underway ≡ suc (own x (step sha256 c e).underway))

  begins-IsCounted :
      (start : ℕ) (x : String) (c : Checks) (a : Attempt) (now : ℕ)
      → IsOpen x c
      → IsTry sha256 start x (begins a now)
      → IsCounted start x c (begins a now)
  unfolding step
  begins-IsCounted start x c a now v w = elim (Bool-cases (a.ip == x)) [
    | inr other ↦
        let (same, size, silent) = begins_other sha256 x c a now other in
        inl (
          record {
            free = same.1 ∙ v.free;
            below = omega (arith, same.0, v.below);
            wrong =
                let_in_All (IsWrongOf sha256 x) a c.underway (check_banned c.bans a.ip now)
                  (inl other) v.wrong;
          },
          omega (arith, same.0, silent),
        )
    | inl mine ↦ elim w [
      | inl other ↦ absurd (cc (mine, other))
      | inr (from, before, wrong) ↦
          let (s, t) = begins_free sha256 x c a now v.free mine in
          inl (
            subst (IsOpen x) (sym s)
                (record { free = v.free; below = v.below; wrong = (inr wrong, v.wrong) }),
            subst
                (λ n.
                  fails n.bans.pass_fails x
                  ≡ told sha256 x c (begins a now) + fails c.bans.pass_fails x)
                (sym s) (omega (arith, t)),
          )
    ]
  ]

  fails-IsCounted :
      (start : ℕ) (x : String) (c : Checks) (i now : ℕ) (a : Attempt) (others : List Attempt)
      → IsOpen x c
      → start ≤ now
      → pick i c.underway ≡ some (a, others)
      → (a.ip == x) ≡ true
      → verify_password sha256 a.share a.password ≡ false
      → All (IsWrongOf sha256 x) others
      → IsCounted start x c (ends i now)
  fails-IsCounted start x c i now a others v from n mine wrong ws =
      let (s, t, size) = ends_own sha256 x c i now a others n mine in
      let r = answer_password_wrong sha256 c.bans a.share a.password x now wrong in
      let s' = s ∙ ap (λ q. record { bans = q.0; underway = others }) r in
      let t' = t ∙ ap (λ q. is_wrong q.1) r in
      elim (record_pass_fail_own c.bans x now) [
        | inl (counted, kept, few) ↦ inl (
          subst (IsOpen x) (sym s')
              (record { free = kept ∙ v.free; below = omega (arith, counted, few); wrong = ws }),
          ap (λ n. fails n.bans.pass_fails x) s' ∙ omega (arith, counted, t'),
        )
        | inr (banned, many) ↦ inr (
          subst (λ n. IsShut (start + ban_duration) n.bans x) (sym s')
              (now + ban_duration, banned, omega (arith, from)),
          t',
          omega (arith, ap (λ n. own x n.underway) s', size),
        )
      ]

  ends-IsCounted :
      (start : ℕ) (x : String) (c : Checks) (i now : ℕ)
      → IsOpen x c
      → start ≤ now
      → IsCounted start x c (ends i now)
  ends-IsCounted start x c i now v from = elim (Option-cases (pick i c.underway)) [
    | inl n ↦
        let (s, t) = ends_nothing sha256 x c i now n in
        inl (subst (IsOpen x) (sym s) v, ap (λ n. fails n.bans.pass_fails x) s ∙ omega (arith, t))
    | inr ((a, others), n) ↦
        let (w, ws) =
          All-Picked (IsWrongOf sha256 x) (pick-Picked i c.underway a others n) v.wrong in
        elim (Bool-cases (a.ip == x)) [
          | inr other ↦
              let (same, left, size, silent) = ends_other sha256 x c i now a others n other in
              inl (
                record {
                  free = same.1 ∙ v.free;
                  below = omega (arith, same.0, v.below);
                  wrong = subst (All (IsWrongOf sha256 x)) (sym left) ws;
                },
                omega (arith, same.0, silent),
              )
          | inl mine ↦ elim w [
            | inl other ↦ absurd (cc (mine, other))
            | inr wrong ↦ fails-IsCounted start x c i now a others v from n mine wrong ws
          ]
        ]
  ]

  event-IsCounted :
      (start : ℕ) (x : String) (c : Checks) (e : Event)
      → IsOpen x c
      → IsTry sha256 start x e
      → IsCounted start x c e
  event-IsCounted start x c (begins a now) v w = begins-IsCounted start x c a now v w
  event-IsCounted start x c (ends i now) v w = ends-IsCounted start x c i now v w

  guesses_open :
      (start : ℕ) (x : String) (c : Checks) (es : List Event)
      → IsOpen x c
      → All (IsTry sha256 start x) es
      → guesses sha256 x c es + fails c.bans.pass_fails x
        ≤ max_password_attempts + (width sha256 x c es - 1)
  unfolding guesses
  guesses_open start x c [] v w = omega (arith, v.below)
  guesses_open start x c (e ∷ es) v (w, ws) = elim (event-IsCounted start x c e v w) [
    | inl (next, counted) ↦
        omega
          (arith, counted, guesses_open start x (step sha256 c e) es next ws, width_later x c e es)
    | inr (shut, one, size) ↦ omega (
      arith,
      one,
      size,
      v.below,
      guesses_shut sha256 start x (step sha256 c e) es shut ws,
      width_now x c (e ∷ es),
    )
  ]

  -- An address that is not banned, has `n` failed passwords so far, fewer than
  -- `max_password_attempts`, and no attempt underway is told at most `max_password_attempts + (k - 1)`
  -- less `n` times that a password is wrong, where `k` is the largest number of its attempts that are
  -- underway at once. This is over any interleaving of attempts of any addresses and nothing else,
  -- where its own ones have a wrong password and begin within a window as long as a ban, and where no
  -- attempt ends before the window.
  pub guesses_bounded :
      (start : ℕ) (x : String) (b : Bans) (es : List Event)
      → lookup x b.banned_until ≡ none
      → fails b.pass_fails x < max_password_attempts
      → All (IsTry sha256 start x) es
      → guesses sha256 x (record { bans = b; underway = [] }) es + fails b.pass_fails x
        ≤ max_password_attempts + (width sha256 x (record { bans = b; underway = [] }) es - 1)
  guesses_bounded start x b es free below w =
      guesses_open start x (record { bans = b; underway = [] }) es
        (record { free = free; below = below; wrong = tt }) w
