-- ===== src/Share/Manager.antt =====
-- core/share/manager.go: the active shares and the bans of addresses. The time is an argument.
-- A `*Share` that a caller holds is a copy here: the callers read only the fields that no method
-- changes, and change the counter through the map. `CreateShare` is the only use of `sha256`.
use lanos.Common.{
  ℕ, suc, ◌+◌, Bool, true, false, not, ◌&&◌, ◌||◌, String, Option, none, some, List, [], ◌∷◌,
  if◌then◌else◌, string_eq, nat_eq, list_eq, ◌==◌, ltb, leb, length, Result, ok, err,
}
use lanos.Common.Int.{ℤ, pos, negsuc}
use lanos.Common.Map.{Map, lookup, insert, delete, count_by, filter_values, keep_by}
use lanos.Share.{
  Bytes, Share, ShareError, not_found, limit_reached, ip_banned, bad_password, Offer,
  default_max_shares, token_url_length, max_password_attempts, max_token_attempts, ban_duration,
  exhausted, active, verify_password, new_share,
}

-- The bans: failed attempts by address, and until when an address is banned.
pub record Bans : Type 0 where
  pub token_fails : Map String ℕ
  pub pass_fails : Map String ℕ
  pub banned_until : Map String ℕ

pub record Manager : Type 0 where
  pub shares : Map Bytes Share
  pub max_shares : ℕ
  pub bans : Bans
  pub stopped : Bool

unfoldable pub new_manager : ℤ → Manager
new_manager max_shares = record {
  shares = [];
  max_shares = elim max_shares [
    | pos n ↦ if n == 0 then default_max_shares else n
    | negsuc n ↦ default_max_shares
  ];
  bans = record { token_fails = []; pass_fails = []; banned_until = [] };
  stopped = false;
}

-- `Stop`.
unfoldable pub stop : Manager → Manager
stop m = record m { stopped = true }

-- The counter of an address, 0 where there is none.
unfoldable pub fails : Map String ℕ → String → ℕ
fails m ip = elim (lookup ip m) [ none ↦ 0 | some n ↦ n ]

unfoldable pub record_token_fail : Bans → String → ℕ → Bans
record_token_fail b ip now =
    let n = suc (fails b.token_fails ip) in
    if leb max_token_attempts n
    then record b {
      token_fails = delete ip b.token_fails;
      banned_until = insert ip (now + ban_duration) b.banned_until;
    }
    else record b { token_fails = insert ip n b.token_fails }

unfoldable pub record_pass_fail : Bans → String → ℕ → Bans
record_pass_fail b ip now =
    let n = suc (fails b.pass_fails ip) in
    if leb max_password_attempts n
    then record b {
      pass_fails = delete ip b.pass_fails;
      banned_until = insert ip (now + ban_duration) b.banned_until;
    }
    else record b { pass_fails = insert ip n b.pass_fails }

unfoldable pub clear_token_fails : Bans → String → Bans
clear_token_fails b ip = record b { token_fails = delete ip b.token_fails }

unfoldable pub clear_pass_fails : Bans → String → Bans
clear_pass_fails b ip = record b { pass_fails = delete ip b.pass_fails }

-- What is known of an address is forgotten.
unfoldable pub forget : Bans → String → Bans
forget b ip = record {
  token_fails = delete ip b.token_fails;
  pass_fails = delete ip b.pass_fails;
  banned_until = delete ip b.banned_until;
}

-- `checkBanned`: an expired ban is cleared. The answer is whether the address is banned.
unfoldable pub check_banned : Bans → String → ℕ → Bans × Bool
check_banned b ip now = elim (lookup ip b.banned_until) [
  | none ↦ (b, false)
  | some until ↦ if ltb now until then (b, true) else (forget b ip, false)
]

unfoldable pub get_share : Manager → Bytes → String → ℕ → Manager × Result ShareError Share
get_share m token ip now =
    let missed : Manager × Result ShareError Share =
      (record m { bans = record_token_fail m.bans ip now }, err not_found) in
    elim (lookup token m.shares) [
      | none ↦ missed
      | some s ↦
          if active s now then (record m { bans = clear_token_fails m.bans ip }, ok s) else missed
    ]

unfoldable pub stop_share : Manager → Bytes → Manager × Bool
stop_share m token = elim (lookup token m.shares) [
  | none ↦ (m, false)
  | some s ↦ (record m { shares = delete token m.shares }, true)
]

unfoldable pub stop_all : Manager → Manager
stop_all m = record m { shares = [] }

-- `ListShares`, in the order of the map's entries.
unfoldable pub list_shares : Manager → ℕ → List Share
list_shares m now = filter_values (λ s. active s now) m.shares

unfoldable pub active_count : Manager → ℕ → ℕ
active_count m now = count_by (λ s. active s now) m.shares

abbrev pub downloaded : Share → Share
downloaded s = record s { downloads = suc s.downloads }

unfoldable pub record_download : Manager → Bytes → Manager
record_download m token = elim (lookup token m.shares) [
  | none ↦ m
  | some s ↦ record m { shares = insert token (downloaded s) m.shares }
]

-- The test of `cleanup`.
abbrev pub is_over : ℕ → Share → Bool
is_over now s = s.stopped || ltb s.expiry now || exhausted s

-- The loop of `cleanup` over the bans.
unfoldable pub expire_bans : Map String ℕ → ℕ → Bans → Bans
expire_bans [] now b = b
expire_bans ((ip, until) ∷ rest) now b =
    let others = expire_bans rest now b in if ltb until now then forget others ip else others

unfoldable pub cleanup : Manager → ℕ → Manager
cleanup m now = record m {
  shares = keep_by (λ s. not (is_over now s)) m.shares;
  bans = expire_bans m.bans.banned_until now m.bans;
}

abbrev is_between : ℕ → ℕ → ℕ → Bool
is_between lo hi c = leb lo c && leb c hi

-- 'A' to 'Z', 'a' to 'z', '0' to '9', '-' and '_'.
unfoldable pub is_url_safe_base64 : ℕ → Bool
is_url_safe_base64 c =
    is_between 65 90 c || is_between 97 122 c || is_between 48 57 c || c == 45 || c == 95

unfoldable pub all_url_safe : Bytes → Bool
all_url_safe [] = true
all_url_safe (c ∷ cs) = if is_url_safe_base64 c then all_url_safe cs else false

-- `ValidateToken`. It ranges over runes: a rune of several bytes is refused as its bytes are.
unfoldable pub validate_token : Bytes → Bool
validate_token token = length token == token_url_length && all_url_safe token

-- The end of `CreateShare`.
unfoldable pub store_share : Manager → Result ShareError Share → Manager × Result ShareError Share
store_share m (err e) = (m, err e)
store_share m (ok s) = (record m { shares = insert s.token s m.shares }, ok s)

module _ (sha256 : Bytes → Bytes) where
  unfoldable pub create_share :
      Manager → Option Bytes → Option Bytes → Offer → ℕ → Manager × Result ShareError Share
  create_share m token salt o now =
      if leb m.max_shares (length m.shares)
      then (m, err limit_reached)
      else store_share m (new_share sha256 token salt o now)

  -- What `CheckPassword` does for an address that `checkBanned` let through.
  unfoldable pub answer_password : Bans → Share → Bytes → String → ℕ → Bans × Option ShareError
  answer_password b s password ip now =
      if verify_password sha256 s password
      then (clear_pass_fails b ip, none)
      else (record_pass_fail b ip now, some bad_password)

  -- `CheckPassword`, where nothing comes between its two locked sections.
  unfoldable pub check_password : Bans → Share → Bytes → String → ℕ → Bans × Option ShareError
  check_password b s password ip now =
      let (b', banned) = check_banned b ip now in
      if banned then (b', some ip_banned) else answer_password b' s password ip now
