-- ===== src/Share.antt =====
-- core/share/types.go: a web share, its password and its limits.
-- `sha256` (crypto/sha256) is a parameter. The bytes of crypto/rand are arguments, `none` where it
-- fails. A time is a number of nanoseconds. A token and a password are their bytes.
mod Examples
pub mod Manager
pub mod Server
pub mod Access
pub mod Attempts
pub mod Bans
pub mod Limits
pub mod History
use lanos.Common.{
  ℕ, ◌+◌, ◌-◌, Bool, true, false, not, ◌&&◌, ◌||◌, String, Option, none, some, List, [], ◌∷◌, ◌++◌,
  if◌then◌else◌, nat_eq, list_eq, ◌==◌, ltb, leb, length, Result, ok, err,
}
use lanos.Common.Int.{ℤ, pos, negsuc}

abbrev pub Bytes : Type 0
Bytes = List ℕ

abbrev pub token_url_length : ℕ
token_url_length = 43

abbrev pub default_max_shares : ℕ
default_max_shares = 64

abbrev pub password_min_length : ℕ
password_min_length = 4

abbrev pub password_max_length : ℕ
password_max_length = 32

abbrev pub max_password_attempts : ℕ
max_password_attempts = 10

abbrev pub max_token_attempts : ℕ
max_token_attempts = 10

-- 5 minutes.
abbrev pub ban_duration : ℕ
ban_duration = 300000000000

pub record Share : Type 0 where
  pub token : Bytes
  pub path : String
  pub is_dir : Bool
  pub name : String
  pub size : ℤ
  pub password_hash : Bytes
  pub salt : Bytes
  pub has_password : Bool
  pub expiry : ℕ
  pub max_downloads : ℤ
  pub downloads : ℕ
  pub created_at : ℕ
  pub stopped : Bool

pub data ShareError : Type 0 where
  not_found limit_reached ip_banned bad_password random_failed password_length : ShareError

-- What a caller asks for. `expiry` is when the share ends: the time of the call and the duration.
pub record Offer : Type 0 where
  pub path : String
  pub is_dir : Bool
  pub name : String
  pub size : ℤ
  pub password : Bytes
  pub expiry : ℕ
  pub max_downloads : ℤ

-- `Exhausted`: a limit of 0 or less is no limit.
unfoldable pub exhausted : Share → Bool
exhausted s = elim s.max_downloads [ negsuc n ↦ false | pos n ↦ ltb 0 n && leb n s.downloads ]

unfoldable pub is_expired : Share → ℕ → Bool
is_expired s now = ltb s.expiry now

unfoldable pub active : Share → ℕ → Bool
active s now = not s.stopped && not (is_expired s now) && not (exhausted s)

-- `none` where there is no limit, for the -1 of the code.
unfoldable pub remaining_downloads : Share → Option ℕ
remaining_downloads s = elim s.max_downloads [
  | negsuc n ↦ none
  | pos n ↦ if n == 0 then none else some (n - s.downloads)
]

unfoldable pub remaining_time : Share → ℕ → ℕ
remaining_time s now = s.expiry - now

unfoldable pub plain_share : Bytes → Offer → ℕ → Share
plain_share token o now = record {
  token = token;
  path = o.path;
  is_dir = o.is_dir;
  name = o.name;
  size = o.size;
  password_hash = [];
  salt = [];
  has_password = false;
  expiry = o.expiry;
  max_downloads = o.max_downloads;
  downloads = 0;
  created_at = now;
  stopped = false;
}

module _ (sha256 : Bytes → Bytes) where
  unfoldable pub hash_password : Bytes → Bytes → Bytes
  hash_password password salt = sha256 (password ++ salt)

  -- The comparison in constant time gives the answer of `==`.
  unfoldable pub verify_password : Share → Bytes → Bool
  verify_password s password =
      if not s.has_password then true else s.password_hash == hash_password password s.salt

  -- The part of `NewShare` for a password.
  unfoldable pub with_password : Share → Bytes → Option Bytes → Result ShareError Share
  with_password s password salt =
      if ltb (length password) password_min_length || ltb password_max_length (length password)
      then err password_length
      else elim salt [
        | none ↦ err random_failed
        | some b ↦
            ok
              (record s { salt = b; password_hash = hash_password password b; has_password = true })
      ]

  unfoldable pub new_share : Option Bytes → Option Bytes → Offer → ℕ → Result ShareError Share
  new_share token salt o now = elim token [
    | none ↦ err random_failed
    | some t ↦
        if length o.password == 0
        then ok (plain_share t o now)
        else with_password (plain_share t o now) o.password salt
  ]
