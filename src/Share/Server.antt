-- ===== src/Share/Server.antt =====
-- core/share/server.go: the handlers of the share server, as functions of the manager, the request
-- and the time. What a handler writes is a value. Opening files, the zip stream and the page's text
-- are not modelled; a download is counted before the file is opened.
use lanos.Common.{
  ℕ, Bool, true, false, not, ◌&&◌, String, Option, none, some, if◌then◌else◌, string_eq, ◌==◌,
  Result, ok, err,
}
use lanos.Share.{Bytes, Share, ShareError, ip_banned, remaining_downloads, remaining_time}
use lanos.Share.Manager.{
  Bans, Manager, get_share, record_download, check_password, validate_token, stop_all,
}

-- `dl` is whether the query has dl=1.
pub record Request : Type 0 where
  pub token : Bytes
  pub ip : String
  pub dl : Bool
  pub password : Bytes
  pub tls : Bool
  pub host : String

-- The page of a share, with whether it says that the password is wrong; a file or a zip stream; the
-- status, with the downloads and the time that remain; the URL of a share.
pub data Response : Type 0 where
  bad_request too_many_requests not_found : Response
  page : Share → Bool → Response
  file : Share → Response
  zip : Share → Response
  status : Share → Option ℕ → ℕ → Response
  url : String → String → Bytes → Response

-- The error branch behind `GetShare`; `handleQR` does not ask for a ban.
abbrev refused : Bool → ShareError → Response
refused asks e = elim e [
  | ip_banned ↦ (if asks then too_many_requests else not_found)
  | _ ↦ not_found
]

unfoldable pub serve_download : Manager → Share → Manager × Response
serve_download m s = (record_download m s.token, if s.is_dir then zip s else file s)

-- What is done with the answer of `GetShare`.
unfoldable pub answered :
    Bool
    → Manager × Result ShareError Share
    → (Manager → Share → Manager × Response)
    → Manager × Response
answered asks (n, err e) handle = (n, refused asks e)
answered asks (n, ok s) handle = handle n s

-- The check of the token, and `GetShare` behind it.
unfoldable pub with_share :
    Bool → Manager → Request → ℕ → (Manager → Share → Manager × Response) → Manager × Response
with_share asks m r now handle =
    if not (validate_token r.token)
    then (m, bad_request)
    else answered asks (get_share m r.token r.ip now) handle

unfoldable pub handle_download_page : Manager → Request → ℕ → Manager × Response
handle_download_page m r now =
    with_share true m r now
      (λ n s. if not s.has_password && r.dl then serve_download n s else (n, page s false))

unfoldable pub handle_status : Manager → Request → ℕ → Manager × Response
handle_status m r now =
    with_share true m r now (λ n s. (n, status s (remaining_downloads s) (remaining_time s now)))

-- `localhost` is "localhost:" and the port, for a request without a host.
unfoldable pub handle_qr : Manager → String → Request → ℕ → Manager × Response
handle_qr m localhost r now = with_share false m r now (λ n s. (
  n,
  url (if r.tls then "https" else "http") (if r.host == "" then localhost else r.host) s.token,
))

-- What `handleDownload` does with the answer of `CheckPassword`.
unfoldable pub checked : Manager → Share → Bans × Option ShareError → Manager × Response
checked m s (b, none) = serve_download (record m { bans = b }) s
checked m s (b, some e) =
    (record m { bans = b }, elim e [ ip_banned ↦ too_many_requests | _ ↦ page s true ])

module _ (sha256 : Bytes → Bytes) where
  -- The part of `handleDownload` for a share that was found.
  unfoldable pub download_share : Request → ℕ → Manager → Share → Manager × Response
  download_share r now m s =
      if s.has_password
      then checked m s (check_password sha256 m.bans s r.password r.ip now)
      else serve_download m s

  unfoldable pub handle_download : Manager → Request → ℕ → Manager × Response
  handle_download m r now = with_share true m r now (download_share r now)

-- `Close` of the server.
unfoldable pub close : Manager → Manager
close m = stop_all m
