-- ===== src/Common/Text.antt =====
-- Texts as lists of code points, with what the code uses of Go's packages strings and path/filepath:
-- trimming, splitting and joining at slashes, and the cleaning of absolute Unix paths.
pub mod Paths
use lanos.Common.Tests.{
  Eq, ◌==◌, if◌then◌else◌, nat_eq, list_eq, ltb, leb, Bool-cases, beq_refl, list_beq,
}
use lanos.Common.Lists.{All, length}
use Prim.Native.Nat.{ℕ, zero, suc, ◌+◌, ◌*◌, ◌/◌, ◌%◌, ◌≤◌, ◌<◌}
use mathlib.Core.Path.{◌≡◌, refl, sym, ap, ◌∙◌}
use mathlib.Core.Logic.{inl, inr}
use mathlib.Core.Bool.{Bool, true, false, not, ◌&&◌, ◌||◌}
use mathlib.Core.Option.{Option, none, some}
use mathlib.Core.List.{List, [], ◌∷◌, ◌++◌, append-nil, append_assoc}
use native.Mathlib.Omega.{arith}

abbrev pub Text : Type 0
Text = List ℕ

abbrev pub slash : ℕ
slash = 47

abbrev pub backslash : ℕ
backslash = 92

abbrev pub dot : ℕ
dot = 46

-- `strings.HasPrefix(s, p)`.
abbrev pub has_prefix : Text → Text → Bool
has_prefix s [] = true
has_prefix [] (c ∷ p) = false
has_prefix (d ∷ s) (c ∷ p) = if d == c then has_prefix s p else false

-- `strings.TrimLeftFunc` and `strings.TrimRightFunc`.
unfoldable pub trim_left : (ℕ → Bool) → Text → Text
trim_left p [] = []
trim_left p (c ∷ s) = if p c then trim_left p s else c ∷ s

unfoldable pub trim_right : (ℕ → Bool) → Text → Text
trim_right p [] = []
trim_right p (c ∷ s) = elim (trim_right p s) [ [] ↦ if p c then [] else c ∷ [] | d ∷ t ↦ c ∷ d ∷ t ]

-- `unicode.IsSpace`.
unfoldable pub is_space : ℕ → Bool
is_space c =
    (leb 9 c && leb c 13)
    || c == 32
    || c == 133
    || c == 160
    || c == 5760
    || (leb 8192 c && leb c 8202)
    || c == 8232
    || c == 8233
    || c == 8239
    || c == 8287
    || c == 12288

unfoldable pub trim_space : Text → Text
trim_space s = trim_right is_space (trim_left is_space s)

-- A first piece put in front of what is split.
abbrev pub onto_first : ℕ → List Text → List Text
onto_first c [] = (c ∷ []) ∷ []
onto_first c (s ∷ ss) = (c ∷ s) ∷ ss

-- `%d` of a number of at most `k` digits.
unfoldable pub decimal : ℕ → ℕ → Text
decimal zero n = []
decimal (suc k) n =
    let rest = decimal k (n / 10) in (if n / 10 == 0 then [] else rest) ++ (48 + n % 10) ∷ []

-- The text before the first occurrence of a character, and the text behind it.
unfoldable pub cut : ℕ → Text → Option (Text × Text)
cut c [] = none
cut c (d ∷ s) =
    let rest = cut c s in
    if d == c then some ([], s) else elim rest [ none ↦ none | some (a, b) ↦ some (d ∷ a, b) ]

-- `strings.Split(s, "/")`.
unfoldable pub split_slash : Text → List Text
split_slash [] = [] ∷ []
split_slash (c ∷ s) =
    let rest = split_slash s in if c == slash then [] ∷ rest else onto_first c rest

-- `strings.Join(ss, "/")`.
unfoldable pub join_slash : List Text → Text
join_slash [] = []
join_slash (s ∷ []) = s
join_slash (s ∷ t ∷ ss) = s ++ (slash ∷ join_slash (t ∷ ss))

abbrev pub lacks_slash : Text → Bool
lacks_slash [] = true
lacks_slash (c ∷ s) = if c == slash then false else lacks_slash s

-- Without the last element.
abbrev pub init : List Text → List Text
init [] = []
init (s ∷ []) = []
init (s ∷ t ∷ ss) = s ∷ init (t ∷ ss)

-- `filepath.Clean` of an absolute path, piece by piece, behind the pieces that were kept.
unfoldable pub clean_pieces : List Text → List Text → List Text
clean_pieces done [] = done
clean_pieces done (s ∷ ss) =
    if s == [] || s == dot ∷ []
    then clean_pieces done ss
    else if s == dot ∷ dot ∷ []
    then clean_pieces (init done) ss
    else clean_pieces (done ++ s ∷ []) ss

-- The absolute path of some pieces.
unfoldable pub render : List Text → Text
render ss = slash ∷ join_slash ss

unfoldable pub clean_path : Text → Text
clean_path p = render (clean_pieces [] (split_slash p))

-- `filepath.Join(dir, rel)` for an absolute `dir` and texts that are not empty.
unfoldable pub join_path : Text → Text → Text
join_path dir rel = clean_path (dir ++ (slash ∷ rel))

-- A piece that `Clean` keeps.
abbrev pub IsPlain : Text → Type 0
IsPlain s =
    (lacks_slash s ≡ true)
    × (s == [] ≡ false)
    × (s == dot ∷ [] ≡ false)
    × (s == dot ∷ dot ∷ [] ≡ false)

pub split_slash-plain : (s : Text) → lacks_slash s ≡ true → split_slash s ≡ s ∷ []
unfolding split_slash
split_slash-plain [] h = refl
split_slash-plain (c ∷ s) h = ground (arith, split_slash-plain s)

pub split_slash-append :
    (s t : Text) → lacks_slash s ≡ true → split_slash (s ++ (slash ∷ t)) ≡ s ∷ split_slash t
unfolding split_slash
split_slash-append [] t h = refl
split_slash-append (c ∷ s) t h = ground (arith, split_slash-append s t)

-- Splitting takes back the joining of pieces that have no slash.
pub split_slash-join_slash :
    (s : Text) (ss : List Text)
    → All (λ p. lacks_slash p ≡ true) (s ∷ ss)
    → split_slash (join_slash (s ∷ ss)) ≡ s ∷ ss
unfolding join_slash
split_slash-join_slash s [] (h, _) = split_slash-plain s h
split_slash-join_slash s (t ∷ ss) (h, hs) =
    split_slash-append s (join_slash (t ∷ ss)) h ∙ ap (λ x. s ∷ x) (split_slash-join_slash t ss hs)
