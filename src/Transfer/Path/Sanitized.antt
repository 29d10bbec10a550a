-- ===== src/Transfer/Path/Sanitized.antt =====
-- What core/transfer/path.go leaves of a path that a sender gives.
use lanos.Common.{
  ℕ, ◌≡◌, ◌≢◌, ◌⊎◌, refl, sym, ap, ◌∙◌, Bool, true, false, not, ◌&&◌, some, List, [], ◌∷◌, arith,
  if◌then◌else◌, nat_eq, list_eq, ◌==◌, Bool-cases, Option-cases, inl, inr, All,
}
use mathlib.Core.Path.{subst}
use lanos.Common.Text.{
  Text, slash, backslash, dot, trim_left, trim_right, trim_space, is_space, split_slash, join_slash,
  onto_first, lacks_slash, IsPlain, split_slash-join_slash,
}
use lanos.Transfer.Path.{
  is_illegal, is_dot_or_space, to_slashes, replace_illegal, trim_tail, sanitize_segment,
  sanitize_segments, sanitize_relative_path, strip_drive_or_unc,
}

abbrev pub all_chars : (ℕ → Bool) → Text → Bool
all_chars p [] = true
all_chars p (c ∷ s) = if p c then all_chars p s else false

-- A character that may stand in a saved name.
abbrev pub is_allowed : ℕ → Bool
is_allowed c = not (is_illegal c) && not (c == slash) && not (c == backslash)

-- A name that can be saved on any system, and is no step to another directory.
abbrev pub IsSafe : Text → Type 0
IsSafe s = IsPlain s × (all_chars is_allowed s ≡ true) × (trim_right is_dot_or_space s ≡ s)

all_chars-trim_left :
    (p q : ℕ → Bool) (s : Text) → all_chars p s ≡ true → all_chars p (trim_left q s) ≡ true
unfolding trim_left
all_chars-trim_left p q [] h = refl
all_chars-trim_left p q (c ∷ s) h = ground (arith, all_chars-trim_left p q s)

all_chars-trim_right :
    (p q : ℕ → Bool) (s : Text) → all_chars p s ≡ true → all_chars p (trim_right q s) ≡ true
unfolding trim_right
all_chars-trim_right p q [] h = refl
all_chars-trim_right p q (c ∷ s) h = ground (arith, all_chars-trim_right p q s)

trim_right_again : (q : ℕ → Bool) (s : Text) → trim_right q (trim_right q s) ≡ trim_right q s
unfolding trim_right
trim_right_again q [] = refl
trim_right_again q (c ∷ s) = ground (arith, trim_right_again q s)

-- Neither kind of separator.
abbrev no_sep : ℕ → Bool
no_sep c = not (c == slash) && not (c == backslash)

split_slash-to_slashes :
    (s : Text) → All (λ t. all_chars no_sep t ≡ true) (split_slash (to_slashes s))
unfolding split_slash to_slashes
split_slash-to_slashes [] = (refl, tt)
split_slash-to_slashes (c ∷ s) = step (split_slash (to_slashes s)) (split_slash-to_slashes s)
  where
    step :
        (ss : List Text)
        → All (λ t. all_chars no_sep t ≡ true) ss
        → All
            (λ t. all_chars no_sep t ≡ true)
            (let d = if c == backslash then slash else c in
              if d == slash then [] ∷ ss else onto_first d ss)
    step [] h = ground arith
    step (t ∷ ss) h = ground (arith, h)

all_allowed-replace_illegal :
    (s : Text) → all_chars no_sep s ≡ true → all_chars is_allowed (replace_illegal s) ≡ true
unfolding replace_illegal is_illegal
all_allowed-replace_illegal [] h = refl
all_allowed-replace_illegal (c ∷ s) h = ground (arith, all_allowed-replace_illegal s)

lacks_slash-allowed : (s : Text) → all_chars is_allowed s ≡ true → lacks_slash s ≡ true
lacks_slash-allowed [] h = refl
lacks_slash-allowed (c ∷ s) h = ground (arith, lacks_slash-allowed s)

trimmed-not-dot : trim_right is_dot_or_space (dot ∷ []) ≡ []
unfolding trim_right
trimmed-not-dot = refl

trimmed-not-dots : trim_right is_dot_or_space (dot ∷ dot ∷ []) ≡ []
unfolding trim_right
trimmed-not-dots = refl

nothing_trimmed : (s : Text) → s == [] ≡ false → s ≢ []
nothing_trimmed [] h e = absurd (cc h)
nothing_trimmed (c ∷ s) h e = absurd (cc e)

not_trimmed :
    (s d : Text)
    → s == [] ≡ false
    → trim_right is_dot_or_space s ≡ s
    → trim_right is_dot_or_space d ≡ []
    → s == d ≡ false
not_trimmed s d nonempty t e = elim (Bool-cases (s == d)) [
  | inr differs ↦ differs
  | inl equal ↦ absurd (
      nothing_trimmed s nonempty
        (sym t ∙ ap (trim_right is_dot_or_space) ((list_eq.beq_iff s d).0 equal) ∙ e))
]

-- A text that is not empty and ends in neither a dot nor a space is no dot segment.
trimmed-IsPlain :
    (s : Text)
    → lacks_slash s ≡ true
    → s == [] ≡ false
    → trim_right is_dot_or_space s ≡ s
    → IsPlain s
trimmed-IsPlain s a b t = (
  a,
  b,
  not_trimmed s (dot ∷ []) b t trimmed-not-dot,
  not_trimmed s (dot ∷ dot ∷ []) b t trimmed-not-dots,
)

trim_tail-some :
    (s t : Text) → trim_tail s ≡ some t → (trim_right is_dot_or_space s ≡ t) × (t == [] ≡ false)
unfolding trim_tail
trim_tail-some s t e = ground (arith, e)

trim_tail-IsSafe : (s t : Text) → all_chars is_allowed s ≡ true → trim_tail s ≡ some t → IsSafe t
trim_tail-IsSafe s t h e =
    let (cut, nonempty) = trim_tail-some s t e in
    let allowed =
      subst (λ x. all_chars is_allowed x ≡ true) cut
        (all_chars-trim_right is_allowed is_dot_or_space s h) in
    let again =
      subst (λ x. trim_right is_dot_or_space x ≡ x) cut (trim_right_again is_dot_or_space s) in
    (trimmed-IsPlain t (lacks_slash-allowed t allowed) nonempty again, allowed, again)

sanitize_segment-IsSafe :
    (s t : Text) → all_chars no_sep s ≡ true → sanitize_segment s ≡ some t → IsSafe t
unfolding sanitize_segment trim_space
sanitize_segment-IsSafe s t h e =
    trim_tail-IsSafe (trim_space (replace_illegal s)) t
      (all_chars-trim_right is_allowed is_space (trim_left is_space (replace_illegal s)) (
        all_chars-trim_left is_allowed is_space (replace_illegal s)
          (all_allowed-replace_illegal s h)))
      e

sanitize_segments-AllSafe :
    (ss : List Text) → All (λ t. all_chars no_sep t ≡ true) ss → All IsSafe (sanitize_segments ss)
unfolding sanitize_segments
sanitize_segments-AllSafe [] h = tt
sanitize_segments-AllSafe (s ∷ ss) (h, hs) = elim (Option-cases (sanitize_segment s)) [
  | inl n ↦ rw (sanitize_segments, n) (sanitize_segments-AllSafe ss hs)
  | inr (t, n) ↦
      rw (sanitize_segments, n) (sanitize_segment-IsSafe s t h n, sanitize_segments-AllSafe ss hs)
]

-- The segments that `SanitizeRelativePath` joins.
abbrev pub segments_of : Text → List Text
segments_of rel = sanitize_segments (split_slash (to_slashes (strip_drive_or_unc (trim_space rel))))

pub segments_of-AllSafe : (rel : Text) → All IsSafe (segments_of rel)
segments_of-AllSafe rel =
    sanitize_segments-AllSafe _ (split_slash-to_slashes (strip_drive_or_unc (trim_space rel)))

All-lacks_slash : (ss : List Text) → All IsSafe ss → All (λ p. lacks_slash p ≡ true) ss
All-lacks_slash [] h = tt
All-lacks_slash (s ∷ ss) (h, hs) = ((h.0).0, All-lacks_slash ss hs)

split_joined :
    (ss : List Text)
    → All IsSafe ss
    → (join_slash ss ≡ []) ⊎ All IsSafe (split_slash (join_slash ss))
unfolding join_slash
split_joined [] h = inl refl
split_joined (s ∷ ss) h =
    inr (subst (All IsSafe) (sym (split_slash-join_slash s ss (All-lacks_slash (s ∷ ss) h))) h)

-- What `SanitizeRelativePath` returns, for any input, is empty, or splits at its slashes into names
-- that are not empty, are no "." or "..", have no character that is illegal on any system and no
-- separator, and end in neither a dot nor a space.
pub sanitize_relative_path-IsSafe :
    (rel : Text)
    → (sanitize_relative_path rel ≡ []) ⊎ All IsSafe (split_slash (sanitize_relative_path rel))
unfolding sanitize_relative_path
sanitize_relative_path-IsSafe rel = split_joined (segments_of rel) (segments_of-AllSafe rel)
