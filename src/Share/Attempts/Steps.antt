-- ===== src/Share/Attempts/Steps.antt =====
-- What one section of an attempt does (`CheckPassword` of core/share/manager.go).
use mathlib.Core.Path.{subst}
use lanos.Common.{
  ℕ, suc, ◌+◌, ◌-◌, ◌≤◌, ◌<◌, ◌≡◌, refl, sym, ap, ◌∙◌, Bool, true, false, String, Option, none,
  some, List, [], ◌∷◌, arith, if◌then◌else◌, string_eq, nat_eq, ◌==◌, Bool-cases, inl, inr, All,
}
use lanos.Common.Map.{lookup}
use lanos.Share.{Bytes, Share, ShareError, bad_password, ban_duration, verify_password}
use lanos.Share.Manager.{
  Bans, fails, record_pass_fail, clear_pass_fails, check_banned, answer_password,
}
use lanos.Share.Bans.{
  check_banned_other, check_banned_free, check_banned_until, record_pass_fail_other,
  record_pass_fail_own, clear_pass_fails_other,
}
use lanos.Share.Attempts.{
  Attempt, Checks, begins, ends, aside, pick, let_in, by, own, is_wrong, finish, step, told,
}

-- The list is the picked attempt and the others.
pub data Picked : List Attempt → Attempt → List Attempt → Type 0 where
  here : {a : Attempt} {l : List Attempt} → Picked (a ∷ l) a l
  there :
      {a b : Attempt} {l others : List Attempt} → Picked l a others → Picked (b ∷ l) a (b ∷ others)

aside-Picked :
    (b : Attempt) (l : List Attempt) (o : Option (Attempt × List Attempt)) (a : Attempt)
    (others : List Attempt)
    → ((a : Attempt) (others : List Attempt) → o ≡ some (a, others) → Picked l a others)
    → aside b o ≡ some (a, others)
    → Picked (b ∷ l) a others
unfolding aside
aside-Picked b l none a others h e = cc e
aside-Picked b l (some (c, rest)) a others h e =
    subst (λ o. elim o [ none ↦ Unit | some p ↦ Picked (b ∷ l) p.0 p.1 ]) e (there (h c rest refl))

pub pick-Picked :
    (i : ℕ) (l : List Attempt) (a : Attempt) (others : List Attempt)
    → pick i l ≡ some (a, others)
    → Picked l a others
unfolding pick
pick-Picked i [] a others e = cc e
pick-Picked i (b ∷ rest) a others e = elim (Bool-cases (i == 0)) [
  | inl z ↦
      subst (λ o. elim o [ none ↦ Unit | some p ↦ Picked (b ∷ rest) p.0 p.1 ]) (rw (pick, z) at e)
        here
  | inr z ↦
      aside-Picked b rest (pick (i - 1) rest) a others
        (λ a' o' e'. pick-Picked (i - 1) rest a' o' e') (rw (pick, z) at e)
]

pub own-Picked :
    {l : List Attempt} {a : Attempt} {others : List Attempt} (x : String)
    → Picked l a others
    → own x l ≡ by x a + own x others
unfolding own
own-Picked x here = refl
own-Picked x (there p) = omega (arith, own-Picked x p)

pub All-Picked :
    {l : List Attempt} {a : Attempt} {others : List Attempt} (P : Attempt → Type 0)
    → Picked l a others
    → All P l
    → P a × All P others
All-Picked P here (h, hs) = (h, hs)
All-Picked P (there p) (h, hs) = let (k, ks) = All-Picked P p hs in (k, (h, ks))

-- What the bans keep of an address.
abbrev pub IsSame : String → Bans → Bans → Type 0
IsSame x b b' =
    (fails b'.pass_fails x ≡ fails b.pass_fails x)
    × (lookup x b'.banned_until ≡ lookup x b.banned_until)

let_in_bans : (a : Attempt) (l : List Attempt) (r : Bans × Bool) → (let_in a l r).0.bans ≡ r.0
unfolding let_in
let_in_bans a l (b, true) = refl
let_in_bans a l (b, false) = refl

let_in_other :
    (x : String) (a : Attempt) (l : List Attempt) (r : Bans × Bool)
    → (a.ip == x) ≡ false
    → own x (let_in a l r).0.underway ≡ own x l
unfolding let_in own
let_in_other x a l (b, true) other = refl
let_in_other x a l (b, false) other = rw (own, other) (omega arith)

pub let_in_All :
    (P : Attempt → Type 0) (a : Attempt) (l : List Attempt) (r : Bans × Bool)
    → P a
    → All P l
    → All P (let_in a l r).0.underway
unfolding let_in
let_in_All P a l (b, true) h hs = hs
let_in_All P a l (b, false) h hs = (h, hs)

-- The address is banned until `end` at least.
abbrev pub IsShut : ℕ → Bans → String → Type 0
IsShut end b x = (u : ℕ) × (lookup x b.banned_until ≡ some u) × (end ≤ u)

pub is_wrong_le : (e : Option ShareError) → is_wrong e ≤ 1
is_wrong_le e = ground arith

module _ (sha256 : Bytes → Bytes) where
  answer_password_other :
      (b : Bans) (s : Share) (p : Bytes) (x y : String) (now : ℕ)
      → (y == x) ≡ false
      → IsSame x b (answer_password sha256 b s p y now).0
  unfolding answer_password clear_pass_fails
  answer_password_other b s p x y now apart =
      ground (arith, record_pass_fail_other b x y now apart, clear_pass_fails_other b x y apart)

  abbrev ended : Checks → Attempt → ℕ → Bans × Option ShareError
  ended c a now = answer_password sha256 c.bans a.share a.password a.ip now

  pub ends_nothing :
      (x : String) (c : Checks) (i now : ℕ)
      → pick i c.underway ≡ none
      → (step sha256 c (ends i now) ≡ c) × (told sha256 x c (ends i now) ≡ 0)
  unfolding step told finish
  ends_nothing x c i now e = (rw (step, e) refl, rw (told, e) refl)

  ends_one :
      (x : String) (c : Checks) (i now : ℕ) (a : Attempt) (others : List Attempt)
      → pick i c.underway ≡ some (a, others)
      → (step sha256 c (ends i now) ≡ record { bans = (ended c a now).0; underway = others })
        × (told sha256 x c (ends i now) ≡ (if a.ip == x then is_wrong (ended c a now).1 else 0))
  unfolding step told finish
  ends_one x c i now a others e = (rw (step, e) refl, rw (told, e) refl)

  pub begins_other :
      (x : String) (c : Checks) (a : Attempt) (now : ℕ)
      → (a.ip == x) ≡ false
      → IsSame x c.bans (step sha256 c (begins a now)).bans
        × (own x (step sha256 c (begins a now)).underway ≡ own x c.underway)
        × (told sha256 x c (begins a now) ≡ 0)
  unfolding step told
  begins_other x c a now other =
      let r = check_banned c.bans a.ip now in
      (
        subst (λ b. IsSame x c.bans b) (sym (let_in_bans a c.underway r))
            (check_banned_other c.bans x a.ip now other),
        let_in_other x a c.underway r other,
        rw (other) refl,
      )

  pub begins_shut :
      (x : String) (c : Checks) (a : Attempt) (now u : ℕ)
      → lookup x c.bans.banned_until ≡ some u
      → now < u
      → (a.ip == x) ≡ true
      → (step sha256 c (begins a now) ≡ c) × (told sha256 x c (begins a now) ≡ 0)
  unfolding step told let_in
  begins_shut x c a now u found early same =
      let at =
        check_banned_until c.bans a.ip now u
          (subst (λ y. lookup y c.bans.banned_until ≡ some u)
            (sym ((string_eq.beq_iff a.ip x).0 same)) found)
          early in
      (ap (λ r. (let_in a c.underway r).0) at, rw (told, same, at) refl)

  pub begins_free :
      (x : String) (c : Checks) (a : Attempt) (now : ℕ)
      → lookup x c.bans.banned_until ≡ none
      → (a.ip == x) ≡ true
      → (step sha256 c (begins a now) ≡ record { bans = c.bans; underway = a ∷ c.underway })
        × (told sha256 x c (begins a now) ≡ 0)
  unfolding step told let_in
  begins_free x c a now free same =
      let at = check_banned_free c.bans a.ip now (
        subst (λ y. lookup y c.bans.banned_until ≡ none) (sym ((string_eq.beq_iff a.ip x).0 same))
          free) in
      (ap (λ r. (let_in a c.underway r).0) at, rw (told, same, at) refl)

  -- An answer leaves a ban that is there, or sets a later one.
  pub answer_password-IsShut :
      (start : ℕ) (x : String) (b : Bans) (s : Share) (p : Bytes) (now : ℕ)
      → start ≤ now
      → IsShut (start + ban_duration) b x
      → IsShut (start + ban_duration) (answer_password sha256 b s p x now).0 x
  unfolding answer_password clear_pass_fails
  answer_password-IsShut start x b s p now from (u, found, late) =
      elim (Bool-cases (verify_password sha256 s p)) [
        | inl right ↦ rw (answer_password, right) (u, found, late)
        | inr wrong ↦ elim (record_pass_fail_own b x now) [
          | inl (counted, kept, few) ↦ rw (answer_password, wrong) (u, (kept ∙ found), late)
          | inr (banned, many) ↦
              rw (answer_password, wrong) (now + ban_duration, banned, omega (arith, from))
        ]
      ]

  pub answer_password_wrong :
      (b : Bans) (s : Share) (p : Bytes) (x : String) (now : ℕ)
      → verify_password sha256 s p ≡ false
      → answer_password sha256 b s p x now ≡ (record_pass_fail b x now, some bad_password)
  unfolding answer_password
  answer_password_wrong b s p x now wrong = rw (answer_password, wrong) refl

  pub ends_own :
      (x : String) (c : Checks) (i now : ℕ) (a : Attempt) (others : List Attempt)
      → pick i c.underway ≡ some (a, others)
      → (a.ip == x) ≡ true
      → (step sha256 c (ends i now) ≡ record {
        bans = (answer_password sha256 c.bans a.share a.password x now).0;
        underway = others;
      })
        × (told sha256 x c (ends i now)
            ≡ is_wrong (answer_password sha256 c.bans a.share a.password x now).1)
        × (own x c.underway ≡ suc (own x others))
  ends_own x c i now a others e same =
      let (s, t) = ends_one x c i now a others e in
      let own_ip = (string_eq.beq_iff a.ip x).0 same in
      let r = λ (y : String). answer_password sha256 c.bans a.share a.password y now in
      (
        s ∙ ap (λ y. record { bans = (r y).0; underway = others }) own_ip,
        t ∙ rw same (ap (λ y. is_wrong (r y).1) own_ip),
        own-Picked x (pick-Picked i c.underway a others e) ∙ rw same (omega arith),
      )

  pub ends_other :
      (x : String) (c : Checks) (i now : ℕ) (a : Attempt) (others : List Attempt)
      → pick i c.underway ≡ some (a, others)
      → (a.ip == x) ≡ false
      → IsSame x c.bans (step sha256 c (ends i now)).bans
        × ((step sha256 c (ends i now)).underway ≡ others)
        × (own x others ≡ own x c.underway)
        × (told sha256 x c (ends i now) ≡ 0)
  ends_other x c i now a others e other =
      let (s, t) = ends_one x c i now a others e in
      (
        subst (λ n. IsSame x c.bans n.bans) (sym s)
            (answer_password_other c.bans a.share a.password x a.ip now other),
        ap (λ n. n.underway) s,
        sym (own-Picked x (pick-Picked i c.underway a others e) ∙ rw other (omega arith)),
        t ∙ rw other refl,
      )
