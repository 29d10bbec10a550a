-- ===== src/Transfer/Path/Within.antt =====
-- `JoinSavePath` of core/transfer/path.go stays in the save directory.
use lanos.Common.{
  ℕ, ◌≡◌, refl, sym, ap, ◌∙◌, Bool, true, false, some, List, [], ◌∷◌, ◌++◌, arith, nat_eq, list_eq,
  ◌==◌, All, All-append, append_assoc, ok, err,
}
use lanos.Common.Text.{
  Text, slash, split_slash, join_slash, IsPlain, init, clean_pieces, render, join_path,
  split_slash-join_slash,
}
use lanos.Common.Text.Paths.{
  clean_pieces-plain, join_path-render, lacks_slash-All, has_prefix-render,
}
use lanos.Transfer.Path.{
  path_escape, last, base_of, dir_of, numbered, candidate, de_conflict, is_within, join_within,
  join_save_path, or_else, unnamed, sanitize_relative_path,
}
use lanos.Transfer.Path.Sanitized.{IsSafe, segments_of, segments_of-AllSafe}
use lanos.Transfer.Path.Conflict.{numbered-IsPlain, Origin, itself, number, de_conflict-Origin}

split_slash-render :
    (s : Text) (ss : List Text) → All IsPlain (s ∷ ss) → split_slash (render (s ∷ ss)) ≡ [] ∷ s ∷ ss
unfolding render split_slash
split_slash-render s ss h =
    ap (λ x. [] ∷ x) (split_slash-join_slash s ss (lacks_slash-All (s ∷ ss) h))

init-AllPlain : (ss : List Text) → All IsPlain ss → All IsPlain (init ss)
init-AllPlain [] h = tt
init-AllPlain (s ∷ []) h = tt
init-AllPlain (s ∷ t ∷ ss) (h, hs) = (h, init-AllPlain (t ∷ ss) hs)

last-IsPlain : (s : Text) (ss : List Text) → All IsPlain (s ∷ ss) → IsPlain (last (s ∷ ss))
last-IsPlain s [] (h, _) = h
last-IsPlain s (t ∷ ss) (_, hs) = last-IsPlain t ss hs

base_of-render :
    (s : Text) (ss : List Text) → All IsPlain (s ∷ ss) → base_of (render (s ∷ ss)) ≡ last (s ∷ ss)
unfolding base_of
base_of-render s ss h = ap last (split_slash-render s ss h)

clean_empty : (ss : List Text) → clean_pieces [] ([] ∷ ss) ≡ clean_pieces [] ss
unfolding clean_pieces
clean_empty ss = refl

dir_of-render :
    (s : Text) (ss : List Text)
    → All IsPlain (s ∷ ss)
    → dir_of (render (s ∷ ss)) ≡ render (init (s ∷ ss))
unfolding dir_of
dir_of-render s ss h =
    ap (λ x. render (clean_pieces [] (init x))) (split_slash-render s ss h)
    ∙ ap render (
        clean_empty (init (s ∷ ss))
        ∙ clean_pieces-plain [] (init (s ∷ ss)) (init-AllPlain (s ∷ ss) h))

join_one : (s : Text) → join_slash (s ∷ []) ≡ s
unfolding join_slash
join_one s = refl

-- A candidate lies in the directory of the path.
candidate-render :
    (s : Text) (ss : List Text) (i : ℕ)
    → All IsPlain (s ∷ ss)
    → candidate (render (s ∷ ss)) i ≡ render (init (s ∷ ss) ++ numbered (last (s ∷ ss)) i ∷ [])
unfolding candidate
candidate-render s ss i h =
    let name = numbered (last (s ∷ ss)) i in
    ap (λ d. join_path d (numbered (base_of (render (s ∷ ss))) i)) (dir_of-render s ss h)
    ∙ ap (λ b. join_path (render (init (s ∷ ss))) (numbered b i)) (base_of-render s ss h)
    ∙ ap (join_path (render (init (s ∷ ss)))) (sym (join_one name))
    ∙ join_path-render (init (s ∷ ss)) (name ∷ []) (init-AllPlain (s ∷ ss) h)
        (numbered-IsPlain (last (s ∷ ss)) i (last-IsPlain s ss h).0, tt)

init-append :
    (ss : List Text) (t : Text) (ts : List Text) → init (ss ++ (t ∷ ts)) ≡ ss ++ init (t ∷ ts)
init-append [] t ts = refl
init-append (s ∷ []) t ts = refl
init-append (s ∷ r ∷ ss) t ts = ap (λ x. s ∷ x) (init-append (r ∷ ss) t ts)

-- A path below the directory is within it.
below-IsWithin :
    (s : Text) (ss : List Text) (t : Text) (ts : List Text)
    → is_within (render ((s ∷ ss) ++ (t ∷ ts))) (render (s ∷ ss)) ≡ true
unfolding is_within render
below-IsWithin s ss t ts = ground (arith, has_prefix-render s ss t ts)

IsSafe-IsPlain : (ss : List Text) → All IsSafe ss → All IsPlain ss
IsSafe-IsPlain [] h = tt
IsSafe-IsPlain (s ∷ ss) (h, hs) = (h.0, IsSafe-IsPlain ss hs)

joined-nonempty : (s : Text) (ss : List Text) → IsPlain s → join_slash (s ∷ ss) == [] ≡ false
unfolding join_slash
joined-nonempty s [] h = h.1
joined-nonempty [] (t ∷ ss) h = refl
joined-nonempty (c ∷ s) (t ∷ ss) h = refl

or_else-joined :
    (s : Text) (ss : List Text) (t : Text)
    → IsPlain s
    → or_else (join_slash (s ∷ ss)) t ≡ join_slash (s ∷ ss)
unfolding or_else
or_else-joined s ss t h = rw (or_else, joined-nonempty s ss h) refl

-- The relative path that is joined: plain pieces, at least one.
chosen :
    (a b : List Text)
    → All IsPlain a
    → All IsPlain b
    → (t : Text) × (ts : List Text) × All IsPlain (t ∷ ts)
      × (or_else (or_else (join_slash a) (join_slash b)) unnamed ≡ join_slash (t ∷ ts))
unfolding or_else join_slash
chosen [] [] ha hb = (unnamed, [], ((refl, refl, refl, refl), tt), refl)
chosen [] (b ∷ bs) ha hb = (b, bs, hb, or_else-joined b bs unnamed hb.0)
chosen (a ∷ as_) b ha hb = (
  a,
  as_,
  ha,
  ap (λ x. or_else x unnamed) (or_else-joined a as_ (join_slash b) ha.0)
      ∙ or_else-joined a as_ unnamed ha.0,
)

-- A path with one more piece, written with that piece in front.
front : (ss : List Text) (t : Text) → (r : Text) × (rs : List Text) × (ss ++ (t ∷ []) ≡ r ∷ rs)
front [] t = (t, [], refl)
front (s ∷ ss) t = (s, ss ++ (t ∷ []), refl)

module _ (exists_ : Text → Bool) (s : Text) (ss : List Text) where
  -- Below the directory, and so within it.
  abbrev Below : Text → Type 0
  Below p = (t : Text) × (ts : List Text) × (p ≡ render ((s ∷ ss) ++ (t ∷ ts)))

  Below-IsWithin : (p : Text) → Below p → is_within p (render (s ∷ ss)) ≡ true
  Below-IsWithin p (t, ts, e) = ap (λ x. is_within x (render (s ∷ ss))) e ∙ below-IsWithin s ss t ts

  candidate-Below :
      (t : Text) (ts : List Text) (i : ℕ)
      → All IsPlain ((s ∷ ss) ++ (t ∷ ts))
      → Below (candidate (render ((s ∷ ss) ++ (t ∷ ts))) i)
  candidate-Below t ts i h =
      let name = numbered (last ((s ∷ ss) ++ (t ∷ ts))) i in
      let (r, rs, e) = front (init (t ∷ ts)) name in
      (
        r,
        rs,
        candidate-render s (ss ++ (t ∷ ts)) i h
            ∙ ap (λ x. render (x ++ (name ∷ []))) (init-append (s ∷ ss) t ts)
            ∙ ap render
                (append_assoc (s ∷ ss) (init (t ∷ ts)) (name ∷ []) ∙ ap (λ x. (s ∷ ss) ++ x) e),
      )

  Origin-Below :
      (t : Text) (ts : List Text) (p : Text)
      → All IsPlain ((s ∷ ss) ++ (t ∷ ts))
      → Origin (render ((s ∷ ss) ++ (t ∷ ts))) p
      → Below p
  Origin-Below t ts p h itself = (t, ts, refl)
  Origin-Below t ts p h (number i) = candidate-Below t ts i h

  join_within-plain :
      (t : Text) (ts : List Text)
      → All IsPlain (s ∷ ss)
      → All IsPlain (t ∷ ts)
      → join_within exists_ (render (s ∷ ss)) (join_slash (t ∷ ts))
        ≡ ok (de_conflict exists_ (render ((s ∷ ss) ++ (t ∷ ts))))
  unfolding join_within
  join_within-plain t ts hs ht =
      rw (join_within, join_path-render (s ∷ ss) (t ∷ ts) hs ht, below-IsWithin s ss t ts) refl

  -- For a save directory that is an absolute path of at least one plain piece, `JoinSavePath` succeeds
  -- whatever path and name the sender gives and whatever files exist, and the path it returns is
  -- within the save directory.
  pub join_save_path_within :
      (rel base : Text)
      → All IsPlain (s ∷ ss)
      → (p : Text) × (join_save_path exists_ (some (render (s ∷ ss))) rel base ≡ ok p)
        × (is_within p (render (s ∷ ss)) ≡ true)
  unfolding join_save_path sanitize_relative_path
  join_save_path_within rel base h =
      let (t, ts, ht, e) =
        chosen (segments_of rel) (segments_of base)
          (IsSafe-IsPlain (segments_of rel) (segments_of-AllSafe rel))
          (IsSafe-IsPlain (segments_of base) (segments_of-AllSafe base)) in
      let joined = render ((s ∷ ss) ++ (t ∷ ts)) in
      (
        de_conflict exists_ joined,
        ap (join_within exists_ (render (s ∷ ss))) e ∙ join_within-plain t ts h ht,
        Below-IsWithin (de_conflict exists_ joined) (
            Origin-Below t ts (de_conflict exists_ joined)
              (All-append IsPlain (s ∷ ss) (t ∷ ts) h ht) (de_conflict-Origin exists_ joined)),
      )

-- What is below the root directory has no prefix "//".
below_root :
    (t : Text) (ts : List Text) → IsPlain t → is_within (render (t ∷ ts)) (render []) ≡ false
unfolding is_within render join_slash
below_root [] ts h = absurd (ground (arith, h.1))
below_root (c ∷ t) [] h = ground (arith, h.0)
below_root (c ∷ t) (u ∷ ts) h = ground (arith, h.0)

root_joined :
    (exists_ : Text → Bool) (t : Text) (ts : List Text)
    → All IsPlain (t ∷ ts)
    → join_within exists_ (render []) (join_slash (t ∷ ts)) ≡ err path_escape
unfolding join_within
root_joined exists_ t ts h =
    rw (join_within, join_path-render [] (t ∷ ts) tt h, below_root t ts h.0) refl

-- Where the save directory is the root directory, `JoinSavePath` refuses every path and name as a
-- path escape.
pub join_save_path_root :
    (exists_ : Text → Bool) (rel base : Text)
    → join_save_path exists_ (some (slash ∷ [])) rel base ≡ err path_escape
unfolding join_save_path sanitize_relative_path render join_slash
join_save_path_root exists_ rel base =
    let (t, ts, ht, e) =
      chosen (segments_of rel) (segments_of base)
        (IsSafe-IsPlain (segments_of rel) (segments_of-AllSafe rel))
        (IsSafe-IsPlain (segments_of base) (segments_of-AllSafe base)) in
    ap (join_within exists_ (render [])) e ∙ root_joined exists_ t ts ht
