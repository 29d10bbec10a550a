-- ===== src/Share/Bans.antt =====
-- The bans of core/share/manager.go: what they keep of each address, and what a ban
-- does to the search for tokens.
use lanos.Common.{
  ℕ, suc, ◌+◌, ◌≤◌, ◌<◌, ◌≡◌, true, false, String, none, some, arith, string_eq, nat_eq, list_eq,
  ◌==◌, ◌⊎◌, beq_refl,
}
use lanos.Common.Map.{lookup, lookup-insert, lookup-delete}
use lanos.Share.{Bytes, max_password_attempts, ban_duration}
use lanos.Share.Manager.{
  Bans, Manager, fails, record_pass_fail, clear_pass_fails, forget, check_banned, get_share,
}

-- `GetShare` gives the same answer whatever bans there are, so an address that is banned for trying
-- tokens goes on trying.
pub get_share_ignores_bans :
    (m : Manager) (b b' : Bans) (token : Bytes) (ip : String) (now : ℕ)
    → (get_share (record m { bans = b }) token ip now).1
      ≡ (get_share (record m { bans = b' }) token ip now).1
unfolding get_share
get_share_ignores_bans m b b' token ip now = ground arith

pub check_banned_other :
    (b : Bans) (x y : String) (now : ℕ)
    → (y == x) ≡ false
    → (fails (check_banned b y now).0.pass_fails x ≡ fails b.pass_fails x)
      × (lookup x (check_banned b y now).0.banned_until ≡ lookup x b.banned_until)
unfolding check_banned forget fails
check_banned_other b x y now apart =
    ground (arith, lookup-delete y x b.pass_fails, lookup-delete y x b.banned_until)

pub check_banned_free :
    (b : Bans) (x : String) (now : ℕ)
    → lookup x b.banned_until ≡ none
    → check_banned b x now ≡ (b, false)
unfolding check_banned
check_banned_free b x now free = ground (arith, free)

pub check_banned_until :
    (b : Bans) (x : String) (now u : ℕ)
    → lookup x b.banned_until ≡ some u
    → now < u
    → check_banned b x now ≡ (b, true)
unfolding check_banned
check_banned_until b x now u found early = ground (arith, found)

pub record_pass_fail_other :
    (b : Bans) (x y : String) (now : ℕ)
    → (y == x) ≡ false
    → (fails (record_pass_fail b y now).pass_fails x ≡ fails b.pass_fails x)
      × (lookup x (record_pass_fail b y now).banned_until ≡ lookup x b.banned_until)
unfolding record_pass_fail fails
record_pass_fail_other b x y now apart = ground (
  arith,
  lookup-delete y x b.pass_fails,
  lookup-insert y x (suc (fails b.pass_fails y)) b.pass_fails,
  lookup-insert y x (now + ban_duration) b.banned_until,
)

pub clear_pass_fails_other :
    (b : Bans) (x y : String)
    → (y == x) ≡ false
    → fails (clear_pass_fails b y).pass_fails x ≡ fails b.pass_fails x
unfolding clear_pass_fails fails
clear_pass_fails_other b x y apart = ground (arith, lookup-delete y x b.pass_fails)

pub record_pass_fail_own :
    (b : Bans) (x : String) (now : ℕ)
    → (fails (record_pass_fail b x now).pass_fails x ≡ suc (fails b.pass_fails x))
        × (lookup x (record_pass_fail b x now).banned_until ≡ lookup x b.banned_until)
        × (suc (fails b.pass_fails x) < max_password_attempts)
      ⊎ (lookup x (record_pass_fail b x now).banned_until ≡ some (now + ban_duration))
        × (max_password_attempts ≤ suc (fails b.pass_fails x))
unfolding record_pass_fail fails
record_pass_fail_own b x now = ground (
  arith,
  beq_refl x,
  lookup-insert x x (suc (fails b.pass_fails x)) b.pass_fails,
  lookup-insert x x (now + ban_duration) b.banned_until,
)
