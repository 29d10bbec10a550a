-- ===== src/Transfer/Path/Conflict.antt =====
-- `deConflict` of core/transfer/path.go: a free name in the same directory.
use lanos.Common.{
  ℕ, zero, suc, ◌+◌, ◌-◌, ◌/◌, ◌%◌, ◌≡◌, ◌⊎◌, refl, sym, Bool, true, false, [], ◌∷◌, ◌++◌, arith,
  if◌then◌else◌, nat_eq, list_eq, ◌==◌, length, take, Bool-cases, inl, inr, append_assoc,
}
use mathlib.Core.Path.{subst}
use lanos.Common.Text.{Text, decimal, lacks_slash, IsPlain}
use lanos.Transfer.Path.{ext_of, stem_of, numbered, candidate, try_numbers, de_conflict}

pub lacks_slash-append :
    (s t : Text) → lacks_slash s ≡ true → lacks_slash t ≡ true → lacks_slash (s ++ t) ≡ true
lacks_slash-append [] t h k = k
lacks_slash-append (c ∷ s) t h k = ground (arith, lacks_slash-append s t)

lacks_slash-take : (n : ℕ) (s : Text) → lacks_slash s ≡ true → lacks_slash (take n s) ≡ true
unfolding take
lacks_slash-take zero s h = refl
lacks_slash-take (suc n) [] h = refl
lacks_slash-take (suc n) (c ∷ s) h = ground (arith, lacks_slash-take n s)

lacks_slash-ext_of : (s : Text) → lacks_slash s ≡ true → lacks_slash (ext_of s) ≡ true
unfolding ext_of
lacks_slash-ext_of [] h = refl
lacks_slash-ext_of (c ∷ s) h = ground (arith, lacks_slash-ext_of s)

lacks_slash-decimal : (k n : ℕ) → lacks_slash (decimal k n) ≡ true
unfolding decimal
lacks_slash-decimal zero n = refl
lacks_slash-decimal (suc k) n =
    lacks_slash-append (if n / 10 == 0 then [] else decimal k (n / 10)) ((48 + n % 10) ∷ [])
      (ground (arith, lacks_slash-decimal k (n / 10))) (ground arith)

-- A text with a space in it is no dot segment.
spaced : (s t : Text) → lacks_slash (s ++ (32 ∷ t)) ≡ true → IsPlain (s ++ (32 ∷ t))
spaced [] t h = ground arith
spaced (a ∷ []) t h = ground arith
spaced (a ∷ b ∷ []) t h = ground arith
spaced (a ∷ b ∷ c ∷ s) t h = ground arith

-- A name that can be joined to a directory.
pub numbered-IsPlain : (s : Text) (i : ℕ) → lacks_slash s ≡ true → IsPlain (numbered s i)
unfolding numbered stem_of
numbered-IsPlain s i h =
    let front = stem_of s in
    let back = decimal 5 i ++ (41 ∷ ext_of s) in
    subst IsPlain (sym (append_assoc front (32 ∷ 40 ∷ decimal 5 i) (41 ∷ ext_of s))) (
      spaced front (40 ∷ back) (
        lacks_slash-append front (32 ∷ 40 ∷ back)
          (lacks_slash-take (length s - length (ext_of s)) s h)
          (lacks_slash-append (decimal 5 i) (41 ∷ ext_of s) (lacks_slash-decimal 5 i)
            (lacks_slash-ext_of s h))))

-- What `deConflict` gives is the path or one of its candidates.
pub data Origin (path : Text) : Text → Type 0 where
  itself : Origin path path
  number : (i : ℕ) → Origin path (candidate path i)

module _ (exists_ : Text → Bool) where
  -- Each of the `k` candidates from number `i` on exists.
  unfoldable pub all_taken : Text → ℕ → ℕ → Bool
  all_taken path zero i = true
  all_taken path (suc k) i =
      let rest = all_taken path k (i + 1) in if exists_ (candidate path i) then rest else false

  try_numbers_cases :
      (path : Text) (k i : ℕ)
      → (exists_ (try_numbers exists_ path k i) ≡ false)
        ⊎ (all_taken path k i ≡ true) × (try_numbers exists_ path k i ≡ path)
  unfolding try_numbers all_taken
  try_numbers_cases path zero i = inr (refl, refl)
  try_numbers_cases path (suc k) i = ground (arith, try_numbers_cases path k (i + 1))

  -- The path that `deConflict` gives does not exist, or the path and all the numbered candidates exist
  -- and it gives the path itself.
  pub de_conflict_free :
      (path : Text)
      → (exists_ (de_conflict exists_ path) ≡ false)
        ⊎ (exists_ path ≡ true) × (all_taken path 9999 1 ≡ true) × (de_conflict exists_ path ≡ path)
  unfolding de_conflict
  de_conflict_free path = ground (arith, try_numbers_cases path 9999 1)

  try_numbers-Origin : (path : Text) (k i : ℕ) → Origin path (try_numbers exists_ path k i)
  unfolding try_numbers
  try_numbers-Origin path zero i = itself
  try_numbers-Origin path (suc k) i = elim (Bool-cases (exists_ (candidate path i))) [
    | inl used ↦ rw (try_numbers, used) (try_numbers-Origin path k (i + 1))
    | inr free ↦ rw (try_numbers, free) (number i)
  ]

  pub de_conflict-Origin : (path : Text) → Origin path (de_conflict exists_ path)
  unfolding de_conflict
  de_conflict-Origin path = elim (Bool-cases (exists_ path)) [
    | inl used ↦ rw (de_conflict, used) (try_numbers-Origin path 9999 1)
    | inr free ↦ rw (de_conflict, free) itself
  ]
