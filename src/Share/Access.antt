-- ===== src/Share/Access.antt =====
-- Who gets a share from the handlers of core/share/server.go.
use mathlib.Core.Path.{subst}
use mathlib.Core.Option.{some-injective}
use lanos.Common.{
  ℕ, ◌≡◌, refl, sym, ap, ◌∙◌, Bool, true, false, not, ◌&&◌, ◌⊎◌, String, Option, none, some, arith,
  if◌then◌else◌, string_eq, nat_eq, list_eq, Bool-cases, Option-cases, inl, inr, ok, err,
}
use lanos.Common.Map.{lookup}
use lanos.Share.{Bytes, Share, ShareError, not_found, active, verify_password}
use lanos.Share.Manager.{
  Bans, Manager, record_token_fail, clear_token_fails, check_banned, check_password,
  answer_password, get_share, validate_token,
}
use lanos.Share.Server.{
  Request, Response, file, zip, serve_download, with_share, answered, checked, handle_download_page,
  handle_download, download_share,
}

-- The share whose content a response carries.
abbrev pub served : Response → Option Share
served r = elim r [ file s ↦ some s | zip s ↦ some s | _ ↦ none ]

-- The share that a handler goes on with behind `GetShare`.
abbrev Found : Manager → Request → ℕ → Share → Type 0
Found m r now s =
    (validate_token r.token ≡ true) × (lookup r.token m.shares ≡ some s) × (active s now ≡ true)

pub get_share_cases :
    (m : Manager) (token : Bytes) (ip : String) (now : ℕ)
    → ((s : Share) × (lookup token m.shares ≡ some s)
        × (active s now ≡ true)
        × (get_share m token ip now ≡ (record m { bans = clear_token_fails m.bans ip }, ok s)))
      ⊎ (get_share m token ip now
          ≡ (record m { bans = record_token_fail m.bans ip now }, err not_found))
unfolding get_share
get_share_cases m token ip now = elim (Option-cases (lookup token m.shares)) [
  | inl n ↦ inr (ground (arith, n))
  | inr (s, n) ↦ elim (Bool-cases (active s now)) [
    | inl a ↦ inl (s, n, a, ground (arith, n, a))
    | inr a ↦ inr (ground (arith, n, a))
  ]
]

with_share_cases :
    (asks : Bool) (m : Manager) (r : Request) (now : ℕ)
    (handle : Manager → Share → Manager × Response) (s : Share)
    → served (with_share asks m r now handle).1 ≡ some s
    → (f : Share) × Found m r now f
      × (served (handle (record m { bans = clear_token_fails m.bans r.ip }) f).1 ≡ some s)
unfolding with_share answered
with_share_cases asks m r now handle s h = elim (Bool-cases (validate_token r.token)) [
  | inr bad ↦ absurd (cc (rw (with_share, bad) at h))
  | inl good ↦ elim (get_share_cases m r.token r.ip now) [
    | inl (f, found, live, e) ↦ (f, (good, found, live), rw (with_share, good, e) at h)
    | inr e ↦ absurd (cc (rw (with_share, good, e) at h))
  ]
]

served-serve_download : (m : Manager) (s : Share) → served (serve_download m s).1 ≡ some s
unfolding serve_download
served-serve_download m s = ground arith

checked_serves :
    (m : Manager) (f s : Share) (r : Bans × Option ShareError)
    → served (checked m f r).1 ≡ some s
    → (f ≡ s) × (r.1 ≡ none)
unfolding checked
checked_serves m f s (b, none) h =
    (some-injective f s (sym (served-serve_download (record m { bans = b }) f) ∙ h), refl)
checked_serves m f s (b, some e) h = absurd (ground (arith, h))

if_true :
    (m : Manager × Response) (n : Manager × Response) (b : Bool)
    → b ≡ true
    → (if b then m else n) ≡ m
if_true m n b e = ground (arith, e)

if_false :
    (m : Manager × Response) (n : Manager × Response) (b : Bool)
    → b ≡ false
    → (if b then m else n) ≡ n
if_false m n b e = ground (arith, e)

-- What lets a request have the content of a share.
abbrev Admits : (Bytes → Bytes) → Bans → Request → ℕ → Share → Type 0
Admits sha256 b r now s =
    (s.has_password ≡ false)
    ⊎ (verify_password sha256 s r.password ≡ true) × ((check_banned b r.ip now).1 ≡ false)

check_password_passes :
    (sha256 : Bytes → Bytes) (b : Bans) (s : Share) (p : Bytes) (ip : String) (now : ℕ)
    → (check_password sha256 b s p ip now).1 ≡ none
    → (verify_password sha256 s p ≡ true) × ((check_banned b ip now).1 ≡ false)
unfolding check_password answer_password
check_password_passes sha256 b s p ip now h = ground (arith, h)

download_share_serves :
    (sha256 : Bytes → Bytes) (r : Request) (now : ℕ) (m : Manager) (f s : Share)
    → served (download_share sha256 r now m f).1 ≡ some s
    → (f ≡ s) × Admits sha256 m.bans r now f
unfolding download_share
download_share_serves sha256 r now m f s h =
    let got = check_password sha256 m.bans f r.password r.ip now in
    elim (Bool-cases f.has_password) [
      | inr open_ ↦
          let same = if_false (checked m f got) (serve_download m f) f.has_password open_ in
          (
            some-injective f s
                (sym (served-serve_download m f) ∙ sym (ap (λ x. served x.1) same) ∙ h),
            inl open_,
          )
      | inl closed_ ↦
          let same = if_true (checked m f got) (serve_download m f) f.has_password closed_ in
          let (own, passed) = checked_serves m f s got (sym (ap (λ x. served x.1) same) ∙ h) in
          (own, inr (check_password_passes sha256 m.bans f r.password r.ip now passed))
    ]

Admits-after :
    (sha256 : Bytes → Bytes) (b : Bans) (r : Request) (now : ℕ) (s : Share)
    → Admits sha256 (clear_token_fails b r.ip) r now s
    → Admits sha256 b r now s
unfolding clear_token_fails check_banned
Admits-after sha256 b r now s h = ground (arith, h)

-- `handleDownload` sends a share's content only for a well-formed token under which the share is
-- stored, while the share is active, and only where the share has no password, or the request has a
-- password that the share's hash confirms and its address is not banned.
pub handle_download_serves :
    (sha256 : Bytes → Bytes) (m : Manager) (r : Request) (now : ℕ) (s : Share)
    → served (handle_download sha256 m r now).1 ≡ some s
    → (validate_token r.token ≡ true)
      × (lookup r.token m.shares ≡ some s)
      × (active s now ≡ true)
      × ((s.has_password ≡ false)
          ⊎ (verify_password sha256 s r.password ≡ true)
            × ((check_banned m.bans r.ip now).1 ≡ false))
unfolding handle_download
handle_download_serves sha256 m r now s h =
    let (f, (good, found, live), got) =
      with_share_cases true m r now (download_share sha256 r now) s h in
    let (same, admits) = download_share_serves sha256 r now _ f s got in
    subst
      (λ x.
        (validate_token r.token ≡ true)
        × (lookup r.token m.shares ≡ some x)
        × (active x now ≡ true)
        × Admits sha256 m.bans r now x)
      same (good, found, live, Admits-after sha256 m.bans r now f admits)

-- `handleDownloadPage` sends a share's content only for a well-formed token under which the share is
-- stored, while the share is active, and only where the share has no password.
pub handle_download_page_serves :
    (m : Manager) (r : Request) (now : ℕ) (s : Share)
    → served (handle_download_page m r now).1 ≡ some s
    → (validate_token r.token ≡ true)
      × (lookup r.token m.shares ≡ some s)
      × (active s now ≡ true)
      × (s.has_password ≡ false)
unfolding handle_download_page serve_download
handle_download_page_serves m r now s h =
    let (f, (good, found, live), got) = with_share_cases true m r now _ s h in
    elim (Bool-cases (not f.has_password && r.dl)) [
      | inl direct ↦
          let same = some-injective f s (
            sym (served-serve_download (record m { bans = clear_token_fails m.bans r.ip }) f)
            ∙ (rw (direct) at got)) in
          subst
            (λ x.
              (validate_token r.token ≡ true)
              × (lookup r.token m.shares ≡ some x)
              × (active x now ≡ true)
              × (x.has_password ≡ false))
            same (good, found, live, ground (arith, direct))
      | inr asks ↦ absurd (cc (rw (asks) at got))
    ]
