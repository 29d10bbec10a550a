-- ===== src/Share/History.antt =====
-- The limits of a share server whose methods and handlers are called one after the other
-- (core/share/manager.go and server.go).
use lanos.Common.{
  ℕ, ◌+◌, ◌-◌, ◌≤◌, ◌≡◌, true, false, ◌==◌, beq_refl, String, Option, none, some, List, [], ◌∷◌,
  arith, if◌then◌else◌, string_eq, nat_eq, list_eq, length, Option-cases, inl, inr,
}
use lanos.Common.Int.{ℤ, pos, negsuc}
use lanos.Common.Map.{lookup}
use lanos.Share.{Bytes, Share, Offer}
use lanos.Share.Manager.{
  Manager, new_manager, record_download, stop_share, stop_all, cleanup, create_share,
  check_password, get_share,
}
use lanos.Share.Limits.{Within, IsSound, IsSound-mono, record_download-over, with_bans}
use lanos.Share.Server.{Request, handle_download_page, handle_download, handle_status, handle_qr}
use lanos.Share.Limits.Handlers.{
  with_share-IsSound, create_share-IsSound, stop_share-IsSound, cleanup-IsSound,
  handle_download_page-Keeps, download_share-Keeps, get_share-IsSound,
}

nothing : (k : Bytes) (s : Share) → lookup k [] ≡ some s → ⊥
unfolding lookup
nothing k s e = cc e

-- By how much the counter of a share is above its limit, if it has one.
abbrev pub excess : Share → ℕ
excess s = elim s.max_downloads [ negsuc n ↦ 0 | pos n ↦ if n == 0 then 0 else s.downloads - n ]

excess-Within : (over : ℕ) (s : Share) → Within over s → excess s ≤ over
excess-Within over s w = ground (arith, w)

-- The same of the share under a token, if there is one.
unfoldable pub excess_of : Manager → Bytes → ℕ
excess_of m token = elim (lookup token m.shares) [ none ↦ 0 | some s ↦ excess s ]

excess_of-IsSound :
    (over : Bytes → ℕ) (m : Manager) (token : Bytes)
    → IsSound over m
    → excess_of m token ≤ over token
unfolding excess_of
excess_of-IsSound over m token v = elim (Option-cases (lookup token m.shares)) [
  | inl n ↦ rw (excess_of, n) (omega arith)
  | inr (s, n) ↦ rw (excess_of, n) (excess-Within (over token) s (v.each token s n).1)
]

module _ (sha256 : Bytes → Bytes) where
  -- A call of a public method, of a handler, or of the cleanup loop.
  pub data Call : Type 0 where
    creates : Option Bytes → Option Bytes → Offer → ℕ → Call
    pages : Request → ℕ → Call
    downloads : Request → ℕ → Call
    gets : Bytes → String → ℕ → Call
    checks : Share → Bytes → String → ℕ → Call
    records : Bytes → Call
    asks_status : Request → ℕ → Call
    asks_qr : String → Request → ℕ → Call
    stops : Bytes → Call
    stops_all : Call
    cleans : ℕ → Call

  unfoldable pub step : Manager → Call → Manager
  step m (creates token salt o now) = (create_share sha256 m token salt o now).0
  step m (pages r now) = (handle_download_page m r now).0
  step m (downloads r now) = (handle_download sha256 m r now).0
  step m (asks_status r now) = (handle_status m r now).0
  step m (asks_qr localhost r now) = (handle_qr m localhost r now).0
  step m (gets token ip now) = (get_share m token ip now).0
  step m (checks s password ip now) = record m {
    bans = (check_password sha256 m.bans s password ip now).0;
  }
  step m (records token) = record_download m token
  step m (stops token) = (stop_share m token).0
  step m stops_all = stop_all m
  step m (cleans now) = cleanup m now

  unfoldable pub run : Manager → List Call → Manager
  run m [] = m
  run m (c ∷ cs) = run (step m c) cs

  -- How many of the calls are `RecordDownload` itself for the token.
  abbrev one : Bytes → Call → ℕ
  one token c = elim c [ records t ↦ if t == token then 1 else 0 | _ ↦ 0 ]

  unfoldable pub recorded : Bytes → List Call → ℕ
  recorded token [] = 0
  recorded token (c ∷ cs) = one token c + recorded token cs

  -- A call that is no `RecordDownload`.
  keeps : (over : Bytes → ℕ) (m : Manager) → IsSound over m → IsSound (λ t. 0 + over t) m
  keeps over m v = IsSound-mono over (λ t. 0 + over t) m (λ t. omega arith) v

  -- A step that is no `RecordDownload` for the token keeps its bound; one that is raises it by one.
  step-IsSound :
      (over : Bytes → ℕ) (m : Manager) (c : Call)
      → IsSound over m
      → IsSound (λ t. one t c + over t) (step m c)
  unfolding step handle_download handle_download_page handle_status handle_qr stop_all
  step-IsSound over m (creates token salt o now) v =
      keeps over _ (create_share-IsSound sha256 over m token salt o now v)
  step-IsSound over m (pages r now) v = keeps over _ (
      with_share-IsSound sha256 over true m r now _ (handle_download_page-Keeps sha256 over m r now)
        v)
  step-IsSound over m (downloads r now) v =
      keeps over _
        (with_share-IsSound sha256 over true m r now _ (download_share-Keeps sha256 over m r now) v)
  step-IsSound over m (gets token ip now) v =
      keeps over _ (get_share-IsSound sha256 over m token ip now v)
  step-IsSound over m (checks s password ip now) v = keeps over _ (with_bans over m _ v)
  step-IsSound over m (records token) v =
      record_download-over over _ m token (λ t. omega arith) (rw (beq_refl token) (omega arith)) v
  step-IsSound over m (asks_status r now) v =
      keeps over _ (with_share-IsSound sha256 over true m r now _ (λ n s w found live. w) v)
  step-IsSound over m (asks_qr localhost r now) v =
      keeps over _ (with_share-IsSound sha256 over false m r now _ (λ n s w found live. w) v)
  step-IsSound over m (stops token) v = keeps over _ (stop_share-IsSound sha256 over m token v)
  step-IsSound over m stops_all v = record {
    distinct = tt;
    each = λ k s found. absurd (nothing k s found);
    room = omega arith;
  }
  step-IsSound over m (cleans now) v = keeps over _ (cleanup-IsSound sha256 over m now v)

  run-IsSound :
      (over : Bytes → ℕ) (m : Manager) (cs : List Call)
      → IsSound over m
      → IsSound (λ t. recorded t cs + over t) (run m cs)
  unfolding run recorded
  run-IsSound over m [] v = keeps over m v
  run-IsSound over m (c ∷ cs) v =
      IsSound-mono (λ t. recorded t cs + (one t c + over t)) _ (run (step m c) cs)
        (λ t. omega arith)
        (run-IsSound (λ t. one t c + over t) (step m c) cs (step-IsSound over m c v))

  new_manager-IsSound : (n : ℤ) → IsSound (λ t. 0) (new_manager n)
  unfolding new_manager
  new_manager-IsSound n = record {
    distinct = tt;
    each = λ k s found. absurd (nothing k s found);
    room = omega arith;
  }

  -- Over any calls on a new manager, one after the other, there are never more shares than the
  -- manager's limit, and the counter of a share is above its limit of downloads, if it has one, by no
  -- more than the calls of `RecordDownload` for its token that are not made by the handlers.
  pub limits_kept :
      (max_shares : ℤ) (cs : List Call) (token : Bytes)
      → (length (run (new_manager max_shares) cs).shares
          ≤ (run (new_manager max_shares) cs).max_shares)
        × (excess_of (run (new_manager max_shares) cs) token ≤ recorded token cs)
  limits_kept max_shares cs token =
      let v = run-IsSound (λ t. 0) (new_manager max_shares) cs (new_manager-IsSound max_shares) in
      (
        v.room,
        omega (
          arith,
          excess_of-IsSound (λ t. recorded t cs + 0) (run (new_manager max_shares) cs) token v,
        ),
      )
