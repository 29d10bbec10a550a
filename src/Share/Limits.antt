-- ===== src/Share/Limits.antt =====
-- The limits of core/share/manager.go: how many shares there are, and how often one is downloaded.
pub mod Handlers
use mathlib.Core.Path.{subst}
use lanos.Common.{
  ℕ, ◌+◌, ◌≤◌, ◌≡◌, refl, sym, ap, ◌∙◌, true, String, some, List, [], ◌∷◌, arith, string_eq, nat_eq,
  list_eq, length, ◌⊎◌, inl, inr, suc, Option-cases, All, beq_refl, Result, ok,
}
use lanos.Common.Int.{pos, negsuc}
use lanos.Common.Map.{
  lookup, insert, lookup-insert, length-insert_present, Each, Each-insert, Distinct,
  insert-Distinct,
}
use lanos.Share.{Bytes, Share, ShareError, active, exhausted}
use lanos.Share.Manager.{Bans, Manager, get_share, record_download, downloaded, clear_token_fails}

-- Any number of requests for one share, of which each gets through `GetShare` before the first is
-- counted: the manager behind them, and the shares that they got.
unfoldable pub admit : Manager → Bytes → ℕ → List String → Manager × List (Result ShareError Share)
admit m token now [] = (m, [])
admit m token now (ip ∷ ips) =
    let (n, got) = get_share m token ip now in
    let (o, rest) = admit n token now ips in (o, got ∷ rest)

-- Then each of them is counted.
unfoldable pub count_all : Manager → Bytes → List String → Manager
count_all m token [] = m
count_all m token (ip ∷ ips) = count_all (record_download m token) token ips

get_share-active :
    (m : Manager) (token : Bytes) (ip : String) (now : ℕ) (s : Share)
    → lookup token m.shares ≡ some s
    → active s now ≡ true
    → get_share m token ip now ≡ (record m { bans = clear_token_fails m.bans ip }, ok s)
unfolding get_share
get_share-active m token ip now s found live = ground (arith, found, live)

admit-All :
    (m : Manager) (token : Bytes) (now : ℕ) (ips : List String) (s : Share)
    → lookup token m.shares ≡ some s
    → active s now ≡ true
    → ((admit m token now ips).0.shares ≡ m.shares)
      × All (λ got. got ≡ ok s) (admit m token now ips).1
unfolding admit
admit-All m token now [] s found live = (refl, tt)
admit-All m token now (ip ∷ ips) s found live =
    let n : Manager = record m { bans = clear_token_fails m.bans ip } in
    let e = get_share-active m token ip now s found live in
    let (same, all) = admit-All n token now ips s found live in rw (admit, e) (same, (refl, all))

-- The share after `n` more downloads.
abbrev pub counted : Share → ℕ → Share
counted s n = record s { downloads = s.downloads + n }

record_download_found :
    (m : Manager) (token : Bytes) (s : Share)
    → lookup token m.shares ≡ some s
    → record_download m token ≡ record m { shares = insert token (downloaded s) m.shares }
unfolding record_download
record_download_found m token s found = ground (arith, found)

count_all-counted :
    (m : Manager) (token : Bytes) (s : Share) (ips : List String)
    → lookup token m.shares ≡ some s
    → lookup token (count_all m token ips).shares ≡ some (counted s (length ips))
unfolding count_all
count_all-counted m token s [] found =
    found ∙ ap (λ n. some (record s { downloads = n })) (omega arith)
count_all-counted m token s (ip ∷ ips) found =
    let next : Manager = record m { shares = insert token (downloaded s) m.shares } in
    let at : lookup token next.shares ≡ some (downloaded s) =
      ground (arith, lookup-insert token token (downloaded s) m.shares, beq_refl token) in
    ap (λ n. lookup token (count_all n token ips).shares) (record_download_found m token s found)
    ∙ count_all-counted next token (downloaded s) ips at
    ∙ ap (λ n. some (record s { downloads = n })) (omega arith)

-- `GetShare` and `RecordDownload` are two steps: any number of requests that all get through the first
-- before one is counted get an active share, whatever its limit, and its counter grows by their number.
pub admit_past_limit :
    (m : Manager) (token : Bytes) (now : ℕ) (ips : List String) (s : Share)
    → lookup token m.shares ≡ some s
    → active s now ≡ true
    → All (λ got. got ≡ ok s) (admit m token now ips).1
      × (lookup token (count_all (admit m token now ips).0 token ips).shares
          ≡ some (counted s (length ips)))
admit_past_limit m token now ips s found live =
    let (same, all) = admit-All m token now ips s found live in
    (
      all,
      count_all-counted (admit m token now ips).0 token s ips
          (ap (λ x. lookup token x) same ∙ found),
    )

-- The counter is above the limit, if there is one, by no more than `over`.
abbrev pub Within : ℕ → Share → Type 0
Within over s = elim s.max_downloads [
  | negsuc n ↦ Unit
  | pos n ↦ (n ≡ 0) ⊎ (s.downloads ≤ n + over)
]

abbrev pub IsKept : (Bytes → ℕ) → Bytes → Share → Type 0
IsKept over token s = (s.token ≡ token) × Within (over token) s

pub record IsSound (over : Bytes → ℕ) (m : Manager) : Type 0 where
  pub distinct : Distinct m.shares
  pub each : Each (IsKept over) m.shares
  pub room : length m.shares ≤ m.max_shares

Within-mono : (x y : ℕ) (s : Share) → x ≤ y → Within x s → Within y s
Within-mono x y s le w = ground (arith, le, w)

pub IsSound-mono :
    (x y : Bytes → ℕ) (m : Manager) → ((t : Bytes) → x t ≤ y t) → IsSound x m → IsSound y m
IsSound-mono x y m le v = record {
  distinct = v.distinct;
  each = λ k s found. let (own, w) = v.each k s found in (own, Within-mono (x k) (y k) s (le k) w);
  room = v.room;
}

downloaded-Within :
    (over : ℕ) (s : Share) (now : ℕ)
    → active s now ≡ true
    → Within over s
    → Within over (downloaded s)
unfolding active exhausted
downloaded-Within over s now live w = ground (arith, live, w)

downloaded-over : (over : ℕ) (s : Share) → Within over s → Within (suc over) (downloaded s)
downloaded-over over s w = ground (arith, w)

insert_downloaded-IsSound :
    (over : Bytes → ℕ) (m : Manager) (token : Bytes) (s : Share)
    → IsSound over m
    → lookup token m.shares ≡ some s
    → Within (over token) (downloaded s)
    → IsSound over (record_download m token)
insert_downloaded-IsSound over m token s v found w =
    subst (IsSound over) (sym (record_download_found m token s found)) (record {
      distinct = insert-Distinct token (downloaded s) m.shares v.distinct;
      each =
          Each-insert (IsKept over) token (downloaded s) m.shares v.each
            ((v.each token s found).0, w);
      room = omega (arith, length-insert_present token (downloaded s) s m.shares found, v.room);
    })

-- A download of an active share keeps any bound on what the counters exceed their limits by.
pub record_download-IsSound :
    (over : Bytes → ℕ) (m : Manager) (token : Bytes) (s : Share) (now : ℕ)
    → IsSound over m
    → lookup token m.shares ≡ some s
    → active s now ≡ true
    → IsSound over (record_download m token)
record_download-IsSound over m token s now v found live =
    insert_downloaded-IsSound over m token s v found
      (downloaded-Within (over token) s now live (v.each token s found).1)

-- A download that nothing is known of can exceed the limit of its share by one more.
pub record_download-over :
    (x y : Bytes → ℕ) (m : Manager) (token : Bytes)
    → ((t : Bytes) → x t ≤ y t)
    → suc (x token) ≤ y token
    → IsSound x m
    → IsSound y (record_download m token)
unfolding record_download
record_download-over x y m token le more v = elim (Option-cases (lookup token m.shares)) [
  | inl n ↦ rw (record_download, n) (IsSound-mono x y m le v)
  | inr (s, n) ↦ insert_downloaded-IsSound y m token s (IsSound-mono x y m le v) n (
      Within-mono (suc (x token)) (y token) (downloaded s) more
        (downloaded-over (x token) s (v.each token s n).1))
]

pub with_bans :
    (over : Bytes → ℕ) (m : Manager) (b : Bans)
    → IsSound over m
    → IsSound over (record m { bans = b })
with_bans over m b v = record { distinct = v.distinct; each = v.each; room = v.room }
