-- ===== src/Tests/Registries.antt =====
-- The registry's fold at concrete inputs.
use git_lex.Base.{◌≡◌, refl, true, some, [], ◌∷◌}
use git_lex.Text.{Text, codes}
use git_lex.Registry.{Json, Row, entry_path, path, fold_same_directory}
use git_lex.Registry.Fold.{
  OnePerPath, listed, fold_same_directory-OnePerPath, fold_same_directory-listed,
}

-- Every path resolves to the same directory.
abbrev resolve : Text → Text
resolve _ = codes "/f00/repo"

abbrev old_row : Row
old_row =
    (path, Json.string (codes "/home/repo")) ∷ (codes "last_used", Json.string (codes "2026")) ∷ []

abbrev new_row : Row
new_row = (path, Json.string (codes "/f00/repo")) ∷ (codes "genesis", Json.string (codes "aa")) ∷ []

fold_same_directory-OnePerPath_example :
    OnePerPath (fold_same_directory resolve (old_row ∷ new_row ∷ []))
fold_same_directory-OnePerPath_example =
    fold_same_directory-OnePerPath resolve (old_row ∷ new_row ∷ [])

old_path : entry_path old_row ≡ some (codes "/home/repo")
unfolding entry_path
old_path = refl

fold_same_directory-listed_example :
    listed (codes "/f00/repo") (fold_same_directory resolve (new_row ∷ old_row ∷ [])) ≡ true
fold_same_directory-listed_example =
    fold_same_directory-listed resolve (codes "/home/repo") old_row (new_row ∷ []) [] old_path
