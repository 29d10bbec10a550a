-- ===== src/Share/Limits/Handlers.antt =====
-- What the methods of core/share/manager.go and the handlers of core/share/server.go do to the limits.
use mathlib.Core.Path.{subst}
use lanos.Common.{
  ℕ, ◌<◌, ◌≡◌, refl, sym, Bool, true, false, not, ◌&&◌, String, Option, none, some, arith,
  if◌then◌else◌, string_eq, nat_eq, list_eq, leb, length, Bool-cases, Option-cases, inl, inr,
  Result, ok, err,
}
use lanos.Common.Map.{
  lookup, length-insert, length-delete, length-keep_by, Each-insert, Each-delete, insert-Distinct,
  delete-Distinct, keep_by-Distinct, Each-keep_by,
}
use lanos.Share.{Bytes, Share, ShareError, Offer, active, new_share, plain_share, with_password}
use lanos.Share.Manager.{
  Bans, Manager, record_download, stop_share, cleanup, is_over, create_share, store_share,
  check_password, validate_token, get_share,
}
use lanos.Share.Access.{get_share_cases}
use lanos.Share.Limits.{Within, IsKept, IsSound, record_download-IsSound, with_bans}
use lanos.Share.Server.{
  Request, Response, serve_download, with_share, page, answered, checked, download_share,
}

module _ (sha256 : Bytes → Bytes) where
  -- A handler that keeps the limits with a share that it was given.
  abbrev Keeps :
      (Bytes → ℕ) → Manager → Request → ℕ → (Manager → Share → Manager × Response) → Type 0
  Keeps over m r now handle =
      (n : Manager) (s : Share)
      → IsSound over n
      → lookup r.token n.shares ≡ some s
      → active s now ≡ true
      → IsSound over (handle n s).0

  pub with_share-IsSound :
      (over : Bytes → ℕ) (asks : Bool) (m : Manager) (r : Request) (now : ℕ)
      (handle : Manager → Share → Manager × Response)
      → Keeps over m r now handle
      → IsSound over m
      → IsSound over (with_share asks m r now handle).0
  unfolding with_share answered
  with_share-IsSound over asks m r now handle keeps v = elim (Bool-cases (validate_token r.token)) [
    | inr bad ↦ rw (with_share, bad) v
    | inl good ↦ elim (get_share_cases m r.token r.ip now) [
      | inl (f, found, live, e) ↦
          rw (with_share, good, e) (keeps _ f (with_bans over m _ v) found live)
      | inr e ↦ rw (with_share, good, e) (with_bans over m _ v)
    ]
  ]

  serve_download-IsSound :
      (over : Bytes → ℕ) (m : Manager) (r : Request) (now : ℕ) (s : Share)
      → IsSound over m
      → lookup r.token m.shares ≡ some s
      → active s now ≡ true
      → IsSound over (serve_download m s).0
  unfolding serve_download
  serve_download-IsSound over m r now s v found live =
      subst (λ t. IsSound over (record_download m t)) (sym (v.each r.token s found).0)
        (record_download-IsSound over m r.token s now v found live)

  new_share-fresh :
      (token salt : Option Bytes) (o : Offer) (now : ℕ) (s : Share)
      → new_share sha256 token salt o now ≡ ok s
      → s.downloads ≡ 0
  unfolding new_share plain_share with_password
  new_share-fresh token salt o now s e = ground (arith, e)

  fresh-Within : (over : ℕ) (s : Share) → s.downloads ≡ 0 → Within over s
  fresh-Within over s e = ground (arith, e)

  store_share-IsSound :
      (over : Bytes → ℕ) (m : Manager) (r : Result ShareError Share)
      → IsSound over m
      → length m.shares < m.max_shares
      → ((s : Share) → r ≡ ok s → s.downloads ≡ 0)
      → IsSound over (store_share m r).0
  unfolding store_share
  store_share-IsSound over m (err e) v space h = v
  store_share-IsSound over m (ok s) v space h = record {
    distinct = insert-Distinct s.token s m.shares v.distinct;
    each =
        Each-insert (IsKept over) s.token s m.shares v.each
          (refl, fresh-Within (over s.token) s (h s refl));
    room = omega (arith, length-insert s.token s m.shares, space);
  }

  pub create_share-IsSound :
      (over : Bytes → ℕ) (m : Manager) (token salt : Option Bytes) (o : Offer) (now : ℕ)
      → IsSound over m
      → IsSound over (create_share sha256 m token salt o now).0
  unfolding create_share
  create_share-IsSound over m token salt o now v =
      elim (Bool-cases (leb m.max_shares (length m.shares))) [
        | inl full ↦ rw (create_share, full) v
        | inr space ↦
            rw (create_share, space)
              (store_share-IsSound over m (new_share sha256 token salt o now) v
                (ground (arith, space)) (λ s h. new_share-fresh token salt o now s h))
      ]

  pub stop_share-IsSound :
      (over : Bytes → ℕ) (m : Manager) (token : Bytes)
      → IsSound over m
      → IsSound over (stop_share m token).0
  unfolding stop_share
  stop_share-IsSound over m token v = elim (Option-cases (lookup token m.shares)) [
    | inl n ↦ rw (stop_share, n) v
    | inr (s, n) ↦
        rw (stop_share, n)
          (record {
            distinct = delete-Distinct token m.shares v.distinct;
            each = Each-delete (IsKept over) token m.shares v.each;
            room = omega (arith, length-delete token m.shares, v.room);
          })
  ]

  pub cleanup-IsSound :
      (over : Bytes → ℕ) (m : Manager) (now : ℕ) → IsSound over m → IsSound over (cleanup m now)
  unfolding cleanup
  cleanup-IsSound over m now v = record {
    distinct = keep_by-Distinct _ m.shares v.distinct;
    each = Each-keep_by (IsKept over) _ m.shares v.distinct v.each;
    room = omega (arith, length-keep_by (λ s. not (is_over now s)) m.shares, v.room);
  }

  pub handle_download_page-Keeps :
      (over : Bytes → ℕ) (m : Manager) (r : Request) (now : ℕ)
      → Keeps over m r now
          (λ n s. if not s.has_password && r.dl then serve_download n s else (n, page s false))
  handle_download_page-Keeps over m r now n s v found live =
      elim (Bool-cases (not s.has_password && r.dl)) [
        | inl direct ↦ rw (direct) (serve_download-IsSound over n r now s v found live)
        | inr asks ↦ rw (asks) v
      ]

  checked-IsSound :
      (over : Bytes → ℕ) (m : Manager) (r : Request) (now : ℕ) (s : Share)
      (answer : Bans × Option ShareError)
      → IsSound over m
      → lookup r.token m.shares ≡ some s
      → active s now ≡ true
      → IsSound over (checked m s answer).0
  unfolding checked
  checked-IsSound over m r now s (b, none) v found live =
      serve_download-IsSound over (record m { bans = b }) r now s (with_bans over m b v) found live
  checked-IsSound over m r now s (b, some e) v found live = with_bans over m b v

  either-IsSound :
      (over : Bytes → ℕ) (b : Bool) (x y : Manager × Response)
      → IsSound over x.0
      → IsSound over y.0
      → IsSound over (if b then x else y).0
  either-IsSound over true x y v w = v
  either-IsSound over false x y v w = w

  pub download_share-Keeps :
      (over : Bytes → ℕ) (m : Manager) (r : Request) (now : ℕ)
      → Keeps over m r now (download_share sha256 r now)
  unfolding download_share
  download_share-Keeps over m r now n s v found live =
      either-IsSound over s.has_password _ _
        (checked-IsSound over n r now s (check_password sha256 n.bans s r.password r.ip now) v found
          live)
        (serve_download-IsSound over n r now s v found live)

  pub get_share-IsSound :
      (over : Bytes → ℕ) (m : Manager) (token : Bytes) (ip : String) (now : ℕ)
      → IsSound over m
      → IsSound over (get_share m token ip now).0
  get_share-IsSound over m token ip now v = elim (get_share_cases m token ip now) [
    | inl (f, found, live, e) ↦ subst (λ p. IsSound over p.0) (sym e) (with_bans over m _ v)
    | inr e ↦ subst (λ p. IsSound over p.0) (sym e) (with_bans over m _ v)
  ]
