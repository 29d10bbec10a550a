-- ===== src/Transfer/Path.antt =====
-- core/transfer/path.go: where a received file is saved. A text is the list of its code points, on
-- Unix. Whether a path exists (`os.Stat`) and the absolute path of the save directory
-- (`filepath.Abs`, `none` where it fails) are parameters.
mod Examples
pub mod Sanitized
pub mod Within
pub mod Conflict
use lanos.Common.{
  ℕ, zero, suc, ◌+◌, ◌-◌, ◌/◌, ◌%◌, Bool, true, false, not, ◌&&◌, ◌||◌, Option, none, some, List,
  [], ◌∷◌, ◌++◌, if◌then◌else◌, nat_eq, list_eq, ◌==◌, leb, length, take, Result, ok, err,
}
use lanos.Common.Text.{
  Text, slash, backslash, dot, has_prefix, trim_left, trim_right, trim_space, split_slash,
  join_slash, init, clean_pieces, render, clean_path, join_path, decimal,
}

pub data PathError : Type 0 where
  path_escape abs_failed : PathError

-- < > : " | ? * and the control characters.
unfoldable pub is_illegal : ℕ → Bool
is_illegal c =
    leb c 31 || c == 60 || c == 62 || c == 58 || c == 34 || c == 124 || c == 63 || c == 42

abbrev pub is_sep : ℕ → Bool
is_sep c = c == slash || c == backslash

-- Where the loop over a UNC path stands: before the first run of separators, in it, or behind it.
pub data Seek : Type 0 where
  server separators share : Seek

-- What follows the second separator, if there is one.
unfoldable pub behind_share : Seek → Text → Option Text
behind_share k [] = none
behind_share server (c ∷ s) = if is_sep c then behind_share separators s else behind_share server s
behind_share separators (c ∷ s) =
    if is_sep c then behind_share separators s else behind_share share s
behind_share share (c ∷ s) = if is_sep c then some s else behind_share share s

unfoldable pub is_ascii_letter : ℕ → Bool
is_ascii_letter b = (leb 97 b && leb b 122) || (leb 65 b && leb b 90)

-- The branch of `stripDriveOrUNC` for a drive letter.
unfoldable pub strip_drive : Text → Text
strip_drive [] = []
strip_drive (c ∷ []) = c ∷ []
strip_drive (c ∷ d ∷ rest) =
    if is_ascii_letter c && d == 58 then trim_left is_sep rest else c ∷ d ∷ rest

-- The prefix is two backslashes or two slashes, with something behind it.
unfoldable pub strip_drive_or_unc : Text → Text
strip_drive_or_unc (c ∷ d ∷ e ∷ s) =
    if (c == backslash && d == backslash) || (c == slash && d == slash)
    then elim (behind_share server (e ∷ s)) [ none ↦ e ∷ s | some t ↦ t ]
    else strip_drive (c ∷ d ∷ e ∷ s)
strip_drive_or_unc p = strip_drive p

-- `strings.ReplaceAll(rel, "\\", "/")`.
unfoldable pub to_slashes : Text → Text
to_slashes [] = []
to_slashes (c ∷ s) = (if c == backslash then slash else c) ∷ to_slashes s

-- `illegalCharsRe.ReplaceAllString(s, "_")`.
unfoldable pub replace_illegal : Text → Text
replace_illegal [] = []
replace_illegal (c ∷ s) = (if is_illegal c then 95 else c) ∷ replace_illegal s

abbrev pub is_dot_or_space : ℕ → Bool
is_dot_or_space c = c == dot || c == 32

-- The end of the loop's body: what is left of a segment, if it is not dropped.
unfoldable pub trim_tail : Text → Option Text
trim_tail s =
    let t = trim_right is_dot_or_space s in
    if s == [] || s == dot ∷ [] || s == dot ∷ dot ∷ [] || t == [] then none else some t

unfoldable pub sanitize_segment : Text → Option Text
sanitize_segment s = trim_tail (trim_space (replace_illegal s))

-- The loop of `SanitizeRelativePath`.
unfoldable pub sanitize_segments : List Text → List Text
sanitize_segments [] = []
sanitize_segments (s ∷ ss) = elim (sanitize_segment s) [
  | none ↦ sanitize_segments ss
  | some t ↦ t ∷ sanitize_segments ss
]

unfoldable pub sanitize_relative_path : Text → Text
sanitize_relative_path rel =
    join_slash (sanitize_segments (split_slash (to_slashes (strip_drive_or_unc (trim_space rel)))))

-- "unnamed".
abbrev pub unnamed : Text
unnamed = 117 ∷ 110 ∷ 110 ∷ 97 ∷ 109 ∷ 101 ∷ 100 ∷ []

unfoldable pub or_else : Text → Text → Text
or_else s t = if s == [] then t else s

unfoldable pub is_within : Text → Text → Bool
is_within target base =
    if base == [] then false else target == base || has_prefix target (base ++ slash ∷ [])

-- `filepath.Base` and `filepath.Dir`, of an absolute path that does not end in a slash.
abbrev pub last : List Text → Text
last [] = []
last (s ∷ []) = s
last (s ∷ t ∷ ss) = last (t ∷ ss)

unfoldable pub base_of : Text → Text
base_of p = last (split_slash p)

unfoldable pub dir_of : Text → Text
dir_of p = render (clean_pieces [] (init (split_slash p)))

-- `filepath.Ext`: from the last dot of the last element on.
unfoldable pub ext_of : Text → Text
ext_of [] = []
ext_of (c ∷ s) = elim (ext_of s) [ [] ↦ if c == dot then c ∷ s else [] | d ∷ t ↦ d ∷ t ]

-- `strings.TrimSuffix(base, ext)` for the extension of that base.
unfoldable pub stem_of : Text → Text
stem_of s = take (length s - length (ext_of s)) s

-- " (N)" between the stem and the extension.
unfoldable pub numbered : Text → ℕ → Text
numbered base i = stem_of base ++ (32 ∷ 40 ∷ decimal 5 i) ++ (41 ∷ ext_of base)

unfoldable pub candidate : Text → ℕ → Text
candidate path i = join_path (dir_of path) (numbered (base_of path) i)

module _ (exists_ : Text → Bool) where
  -- The loop of `deConflict`, from `i` on for `k` rounds.
  unfoldable pub try_numbers : Text → ℕ → ℕ → Text
  try_numbers path zero i = path
  try_numbers path (suc k) i =
      let rest = try_numbers path k (i + 1) in
      if exists_ (candidate path i) then rest else candidate path i

  unfoldable pub de_conflict : Text → Text
  de_conflict path = if exists_ path then try_numbers path 9999 1 else path

  -- The part of `JoinSavePath` behind the sanitizing.
  unfoldable pub join_within : Text → Text → Result PathError Text
  join_within dir rel =
      let joined = join_path dir rel in
      if is_within joined dir then ok (de_conflict joined) else err path_escape

  unfoldable pub join_save_path : Option Text → Text → Text → Result PathError Text
  join_save_path abs_dir rel_path base_name =
      let rel =
        or_else (or_else (sanitize_relative_path rel_path) (sanitize_relative_path base_name))
          unnamed in
      elim abs_dir [ none ↦ err abs_failed | some dir ↦ join_within dir rel ]
