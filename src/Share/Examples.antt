-- ===== src/Share/Examples.antt =====
-- Calls of core/share/manager.go and server.go, and the theorems at them. The hash is the identity.
use mathlib.Core.Logic.{inr}
use lanos.Common.{
  ◌+◌, ◌-◌, ◌++◌, ◌≤◌, ◌<◌, ◌≡◌, refl, ◌⊎◌, true, false, string_eq, nat_eq, list_eq, none, some,
  List, [], ◌∷◌, replicate, length, arith,
}
use lanos.Common.Int.{pos}
use lanos.Common.Map.{lookup, insert, delete}
use lanos.Share.{
  Bytes, Share, Offer, max_password_attempts, active, is_expired, exhausted, hash_password,
  verify_password, new_share, plain_share, with_password,
}
use lanos.Share.Manager.{
  Bans, Manager, new_manager, fails, check_banned, check_password, clear_pass_fails,
  clear_token_fails, get_share, record_download, record_pass_fail, answer_password, create_share,
  store_share, validate_token, all_url_safe, is_url_safe_base64,
}
use lanos.Share.Server.{
  Request, handle_download, download_share, checked, with_share, answered, serve_download,
}
use lanos.Share.Access.{served, handle_download_serves}
use lanos.Share.History
use lanos.Share.Attempts.{
  Attempt, Checks, Event, begins, ends, IsTry, guesses, width, step, told, finish, let_in, pick,
  aside,
}
use lanos.Share.Attempts.Bound.{guesses_bounded}
use lanos.Share.History.{Call, creates, downloads, records, recorded, excess_of, run, limits_kept}

abbrev hash : Bytes → Bytes
hash bs = bs

abbrev token : Bytes
token = replicate 43 65

-- One download, with a password.
abbrev offer : Offer
offer = record {
  path = "/a";
  is_dir = false;
  name = "a";
  size = pos 5;
  password = 1 ∷ 2 ∷ 3 ∷ 4 ∷ [];
  expiry = 100;
  max_downloads = pos 1;
}

abbrev request : Request
request = record {
  token = token;
  ip = "10.0.0.1";
  dl = false;
  password = 1 ∷ 2 ∷ 3 ∷ 4 ∷ [];
  tls = false;
  host = "h";
}

abbrev offered : Share
offered = record {
  token = token;
  path = "/a";
  is_dir = false;
  name = "a";
  size = pos 5;
  password_hash = 1 ∷ 2 ∷ 3 ∷ 4 ∷ 7 ∷ [];
  salt = 7 ∷ [];
  has_password = true;
  expiry = 100;
  max_downloads = pos 1;
  downloads = 0;
  created_at = 1;
  stopped = false;
}

abbrev stored : Manager
stored = (create_share hash (new_manager (pos 2)) (some token) (some (7 ∷ [])) offer 1).0

serves_offered : served (handle_download hash stored request 2).1 ≡ some offered
unfolding create_share new_manager store_share new_share plain_share with_password hash_password
    handle_download with_share answered download_share checked serve_download get_share
    check_password answer_password verify_password check_banned active is_expired exhausted
    validate_token all_url_safe is_url_safe_base64 clear_token_fails clear_pass_fails lookup insert
    delete record_download
serves_offered = refl

handle_download_serves_example :
    (validate_token token ≡ true)
    × (lookup token stored.shares ≡ some offered)
    × (active offered 2 ≡ true)
    × ((offered.has_password ≡ false)
        ⊎ (verify_password hash offered request.password ≡ true)
          × ((check_banned stored.bans "10.0.0.1" 2).1 ≡ false))
handle_download_serves_example = handle_download_serves hash stored request 2 offered serves_offered

abbrev no_bans : Bans
no_bans = record { token_fails = []; pass_fails = []; banned_until = [] }

-- Until 50 the address is banned.
abbrev banned : Bans
banned = record { token_fails = []; pass_fails = []; banned_until = ("10.0.0.1", 50) ∷ [] }

-- An attempt with a wrong password.
abbrev wrong : Attempt
wrong = record { share = offered; password = 9 ∷ []; ip = "10.0.0.1" }

is_wrong_password : verify_password hash offered (9 ∷ []) ≡ false
unfolding verify_password hash_password
is_wrong_password = refl

free : lookup "10.0.0.1" no_bans.banned_until ≡ none
unfolding lookup
free = refl

few : fails no_bans.pass_fails "10.0.0.1" < max_password_attempts
unfolding fails lookup
few = omega arith

at_one : IsTry hash 1 "10.0.0.1" (begins wrong 1)
at_one = inr (omega arith, omega arith, is_wrong_password)

-- Two attempts of which the second begins before the first one is counted.
abbrev overlapping : List Event
overlapping = begins wrong 1 ∷ begins wrong 1 ∷ ends 1 2 ∷ ends 0 2 ∷ []

abbrev unasked : Checks
unasked = record { bans = no_bans; underway = [] }

guesses_bounded_example :
    guesses hash "10.0.0.1" unasked overlapping + fails no_bans.pass_fails "10.0.0.1"
    ≤ max_password_attempts + (width hash "10.0.0.1" unasked overlapping - 1)
guesses_bounded_example =
    guesses_bounded hash 1 "10.0.0.1" no_bans overlapping free few
      (at_one, (at_one, (omega arith, (omega arith, tt))))

-- Twelve attempts that overlap are all told that the password is wrong, two more than the limit.
abbrev many : List Event
many = replicate 12 (begins wrong 1) ++ replicate 12 (ends 0 2)

overrun : guesses hash "10.0.0.1" unasked many ≡ max_password_attempts + 2
unfolding guesses step told finish let_in pick aside answer_password record_pass_fail
    clear_pass_fails check_banned verify_password hash_password fails lookup insert delete
overrun = refl

-- The share is made, downloaded and counted once more.
abbrev calls : List (Call hash)
calls = creates (some token) (some (7 ∷ [])) offer 1 ∷ downloads request 2 ∷ records token ∷ []

limits_kept_example :
    (length (run hash (new_manager (pos 2)) calls).shares
      ≤ (run hash (new_manager (pos 2)) calls).max_shares)
    × (excess_of (run hash (new_manager (pos 2)) calls) token ≤ recorded hash token calls)
limits_kept_example = limits_kept hash (pos 2) calls token

exceeds_by_one : excess_of (run hash (new_manager (pos 2)) calls) token ≡ 1
unfolding excess_of run History.step create_share new_manager store_share new_share plain_share
    with_password hash_password handle_download with_share answered download_share checked
    serve_download get_share check_password answer_password verify_password check_banned active
    is_expired exhausted validate_token all_url_safe is_url_safe_base64 clear_token_fails
    clear_pass_fails lookup insert delete record_download
exceeds_by_one = refl
