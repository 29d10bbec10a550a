-- ===== src/Share/Attempts.antt =====
-- How many passwords an address can try (`CheckPassword` of core/share/manager.go). The method locks
-- the bans once in `checkBanned` and once more in `recordPassFail` or `clearPassFails`, so the sections
-- of attempts that run at the same time can come in any order.
pub mod Steps
pub mod Shut
pub mod Bound
use lanos.Common.{
  ℕ, ◌+◌, ◌-◌, ◌≤◌, ◌<◌, ◌≡◌, Bool, true, false, String, Option, none, some, List, [], ◌∷◌,
  if◌then◌else◌, string_eq, nat_eq, ◌==◌, leb, ◌⊎◌,
}
use lanos.Share.{Bytes, Share, ShareError, bad_password, ip_banned, ban_duration, verify_password}
use lanos.Share.Manager.{Bans, check_banned, answer_password}

-- An attempt at a password.
pub record Attempt : Type 0 where
  pub share : Share
  pub password : Bytes
  pub ip : String

-- The bans, and the attempts that `checkBanned` let through and that have no answer yet.
pub record Checks : Type 0 where
  pub bans : Bans
  pub underway : List Attempt

-- An attempt begins with `checkBanned`, or the one at a place of those underway gets its answer.
pub data Event : Type 0 where
  begins : Attempt → ℕ → Event
  ends : ℕ → ℕ → Event

-- The attempt at a place, and the others; `aside` puts an attempt that was passed over back.
unfoldable pub aside : Attempt → Option (Attempt × List Attempt) → Option (Attempt × List Attempt)
aside b none = none
aside b (some (a, others)) = some (a, b ∷ others)

unfoldable pub pick : ℕ → List Attempt → Option (Attempt × List Attempt)
pick i [] = none
pick i (a ∷ rest) =
    let later = aside a (pick (i - 1) rest) in if i == 0 then some (a, rest) else later

-- `checkBanned` of an attempt: the answer, if it is banned.
unfoldable pub let_in : Attempt → List Attempt → Bans × Bool → Checks × Option ShareError
let_in a others (b, true) = (record { bans = b; underway = others }, some ip_banned)
let_in a others (b, false) = (record { bans = b; underway = a ∷ others }, none)

-- Whether an attempt is one of the address, as a number.
abbrev pub by : String → Attempt → ℕ
by x a = if a.ip == x then 1 else 0

-- How many attempts of an address there are.
unfoldable pub own : String → List Attempt → ℕ
own x [] = 0
own x (a ∷ rest) = by x a + own x rest

abbrev pub is_wrong : Option ShareError → ℕ
is_wrong e = elim e [ some bad_password ↦ 1 | _ ↦ 0 ]

module _ (sha256 : Bytes → Bytes) where
  -- The second section of an attempt, with its answer.
  unfoldable pub finish :
      Checks → Option (Attempt × List Attempt) → ℕ → Checks × Option (Attempt × Option ShareError)
  finish c none now = (c, none)
  finish c (some (a, others)) now =
      let (b, e) = answer_password sha256 c.bans a.share a.password a.ip now in
      (record { bans = b; underway = others }, some (a, e))

  unfoldable pub step : Checks → Event → Checks
  step c (begins a now) = (let_in a c.underway (check_banned c.bans a.ip now)).0
  step c (ends i now) = (finish c (pick i c.underway) now).0

  -- 1 if the event tells the address that its password is wrong.
  unfoldable pub told : String → Checks → Event → ℕ
  told x c (begins a now) =
      if a.ip == x then is_wrong (let_in a c.underway (check_banned c.bans a.ip now)).1 else 0
  told x c (ends i now) = elim (finish c (pick i c.underway) now).1 [
    | none ↦ 0
    | some (a, e) ↦ if a.ip == x then is_wrong e else 0
  ]

  -- How often the address is told so.
  unfoldable pub guesses : String → Checks → List Event → ℕ
  guesses x c [] = 0
  guesses x c (e ∷ es) = told x c e + guesses x (step c e) es

  -- How many attempts of the address are underway at once, at most.
  unfoldable pub width : String → Checks → List Event → ℕ
  width x c [] = own x c.underway
  width x c (e ∷ es) =
      let rest = width x (step c e) es in
      if leb rest (own x c.underway) then own x c.underway else rest

  abbrev pub IsWrongOf : String → Attempt → Type 0
  IsWrongOf x a = ((a.ip == x) ≡ false) ⊎ (verify_password sha256 a.share a.password ≡ false)

  -- An attempt of the address has a wrong password and begins within the window from `start` on that is
  -- as long as a ban; nothing ends before the window.
  abbrev pub IsTry : ℕ → String → Event → Type 0
  IsTry start x e = elim e [
    | begins a now ↦
        ((a.ip == x) ≡ false)
        ⊎ (start ≤ now)
          × (now < start + ban_duration)
          × (verify_password sha256 a.share a.password ≡ false)
    | ends i now ↦ start ≤ now
  ]
