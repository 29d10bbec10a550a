-- ===== src/Common/Text/Paths.antt =====
-- Cleaning and joining absolute paths made of plain pieces.
use lanos.Common.Tests.{◌==◌, if◌then◌else◌, nat_eq, list_eq, Bool-cases, beq_refl}
use lanos.Common.Lists.{All}
use lanos.Common.Text.{
  Text, slash, has_prefix, onto_first, split_slash, join_slash, lacks_slash, init, clean_pieces,
  render, clean_path, join_path, IsPlain, split_slash-join_slash,
}
use mathlib.Core.Path.{◌≡◌, refl, sym, ap, ◌∙◌}
use mathlib.Core.Logic.{inl, inr}
use mathlib.Core.Bool.{true}
use mathlib.Core.List.{List, [], ◌∷◌, ◌++◌, append-nil, append_assoc}
use native.Mathlib.Omega.{arith}
use Prim.Native.Nat.{ℕ}

onto_first-append :
    (c : ℕ) (s t : Text)
    → onto_first c (split_slash s ++ split_slash t) ≡ onto_first c (split_slash s) ++ split_slash t
unfolding split_slash
onto_first-append c [] t = refl
onto_first-append c (d ∷ s) t = elim (Bool-cases (d == slash)) [
  | inl here ↦ rw (here) refl
  | inr there ↦ onto_twice (split_slash s)
]
  where
    onto_twice :
        (ss : List Text)
        → onto_first c ((if d == slash then [] ∷ ss else onto_first d ss) ++ split_slash t)
          ≡ onto_first c (if d == slash then [] ∷ ss else onto_first d ss) ++ split_slash t
    onto_twice [] = ground arith
    onto_twice (s ∷ ss) = ground arith

pub split_slash-middle :
    (s t : Text) → split_slash (s ++ (slash ∷ t)) ≡ split_slash s ++ split_slash t
unfolding split_slash
split_slash-middle [] t = refl
split_slash-middle (c ∷ s) t = elim (Bool-cases (c == slash)) [
  | inl here ↦ rw (here) (ap (λ x. [] ∷ x) (split_slash-middle s t))
  | inr there ↦ rw (there, split_slash-middle s t) (onto_first-append c s t)
]

clean_pieces-append :
    (done ss ts : List Text) → clean_pieces done (ss ++ ts) ≡ clean_pieces (clean_pieces done ss) ts
unfolding clean_pieces
clean_pieces-append done [] ts = refl
clean_pieces-append done (s ∷ ss) ts = ground (
  arith,
  clean_pieces-append done ss ts,
  clean_pieces-append (init done) ss ts,
  clean_pieces-append (done ++ s ∷ []) ss ts,
)

pub clean_pieces-plain : (done ss : List Text) → All IsPlain ss → clean_pieces done ss ≡ done ++ ss
unfolding clean_pieces
clean_pieces-plain done [] h = sym (append-nil done)
clean_pieces-plain done (s ∷ ss) ((_, a, b, c), hs) =
    rw (clean_pieces, a, b, c)
      (clean_pieces-plain (done ++ s ∷ []) ss hs ∙ append_assoc done (s ∷ []) ss)

pub lacks_slash-All : (ss : List Text) → All IsPlain ss → All (λ p. lacks_slash p ≡ true) ss
lacks_slash-All [] h = tt
lacks_slash-All (s ∷ ss) (h, hs) = (h.0, lacks_slash-All ss hs)

-- What `Clean` makes of the pieces of a joined list behind `done`.
pub clean_pieces-joined :
    (done ss : List Text)
    → All IsPlain ss
    → clean_pieces done (split_slash (join_slash ss)) ≡ done ++ ss
unfolding clean_pieces join_slash split_slash
clean_pieces-joined done [] h = sym (append-nil done)
clean_pieces-joined done (s ∷ ss) h =
    ap (clean_pieces done) (split_slash-join_slash s ss (lacks_slash-All (s ∷ ss) h))
    ∙ clean_pieces-plain done (s ∷ ss) h

slash_first :
    (t : Text) → clean_pieces [] (split_slash (slash ∷ t)) ≡ clean_pieces [] (split_slash t)
unfolding clean_pieces split_slash
slash_first t = refl

clean_pieces-render :
    (ss : List Text) → All IsPlain ss → clean_pieces [] (split_slash (render ss)) ≡ ss
unfolding render
clean_pieces-render ss h = slash_first (join_slash ss) ∙ clean_pieces-joined [] ss h

-- Cleaning leaves a path of plain pieces as it is.
pub clean_path-render : (ss : List Text) → All IsPlain ss → clean_path (render ss) ≡ render ss
unfolding clean_path
clean_path-render ss h = ap render (clean_pieces-render ss h)

-- Joining puts plain pieces behind plain pieces.
pub join_path-render :
    (ss ts : List Text)
    → All IsPlain ss
    → All IsPlain ts
    → join_path (render ss) (join_slash ts) ≡ render (ss ++ ts)
unfolding join_path clean_path
join_path-render ss ts hs ht =
    ap (λ x. render (clean_pieces [] x)) (split_slash-middle (render ss) (join_slash ts))
    ∙ ap render (
        clean_pieces-append [] (split_slash (render ss)) (split_slash (join_slash ts))
        ∙ ap (λ x. clean_pieces x (split_slash (join_slash ts))) (clean_pieces-render ss hs)
        ∙ clean_pieces-joined ss ts ht)

pub join_slash-append :
    (s : Text) (ss : List Text) (t : Text) (ts : List Text)
    → join_slash ((s ∷ ss) ++ (t ∷ ts)) ≡ join_slash (s ∷ ss) ++ (slash ∷ join_slash (t ∷ ts))
unfolding join_slash
join_slash-append s [] t ts = refl
join_slash-append s (r ∷ ss) t ts =
    ap (λ x. s ++ (slash ∷ x)) (join_slash-append r ss t ts)
    ∙ sym (append_assoc s (slash ∷ join_slash (r ∷ ss)) (slash ∷ join_slash (t ∷ ts)))

has_prefix-append : (p q : Text) → has_prefix (p ++ q) p ≡ true
has_prefix-append [] q = refl
has_prefix-append (c ∷ p) q = ground (arith, has_prefix-append p q, beq_refl c)

-- A path of more pieces starts with the path of the first ones and a slash.
pub has_prefix-render :
    (s : Text) (ss : List Text) (t : Text) (ts : List Text)
    → has_prefix (render ((s ∷ ss) ++ (t ∷ ts))) (render (s ∷ ss) ++ (slash ∷ [])) ≡ true
unfolding render
has_prefix-render s ss t ts =
    ap (λ x. has_prefix (slash ∷ x) ((slash ∷ join_slash (s ∷ ss)) ++ (slash ∷ [])))
      (join_slash-append s ss t ts
        ∙ sym (append_assoc (join_slash (s ∷ ss)) (slash ∷ []) (join_slash (t ∷ ts))))
    ∙ has_prefix-append (slash ∷ join_slash (s ∷ ss) ++ (slash ∷ [])) (join_slash (t ∷ ts))
