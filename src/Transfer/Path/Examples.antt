-- ===== src/Transfer/Path/Examples.antt =====
-- Paths that core/transfer/path.go is given, and the theorems at them.
use lanos.Common.{◌≡◌, refl, ◌⊎◌, Bool, true, nat_eq, list_eq, ◌==◌, some, [], ◌∷◌, All, ok}
use lanos.Common.Text.{Text, slash, render, split_slash}
use lanos.Transfer.Path.{sanitize_relative_path, is_within, join_save_path}
use lanos.Transfer.Path.Sanitized.{IsSafe, sanitize_relative_path-IsSafe}
use lanos.Transfer.Path.Within.{join_save_path_within}

-- "C:\..\a*".
abbrev given : Text
given = 67 ∷ 58 ∷ 92 ∷ 46 ∷ 46 ∷ 92 ∷ 97 ∷ 42 ∷ []

-- The directory "/s".
abbrev save_dir : Text
save_dir = 115 ∷ []

abbrev is_taken : Text → Bool
is_taken p = p == slash ∷ 115 ∷ slash ∷ 97 ∷ 95 ∷ []

sanitize_relative_path-IsSafe_example :
    (sanitize_relative_path given ≡ []) ⊎ All IsSafe (split_slash (sanitize_relative_path given))
sanitize_relative_path-IsSafe_example = sanitize_relative_path-IsSafe given

join_save_path_within_example :
    (p : Text) × (join_save_path is_taken (some (render (save_dir ∷ []))) given [] ≡ ok p)
    × (is_within p (render (save_dir ∷ [])) ≡ true)
join_save_path_within_example =
    join_save_path_within is_taken save_dir [] given [] ((refl, refl, refl, refl), tt)
