-- ===== src/GitRecords/Agree.antt =====
-- The renames that the three readers of name-status records return.
use git_lex.Base.{◌≡◌, refl, List, [], ◌∷◌, arith}
use git_lex.Text.{Text}
use git_lex.GitRecords.{
  fields, status_loop, staged_loop, rename_loop, parse_name_status_z, parse_staged_md_changes,
  parse_rename_records,
}

status-staged : (fs : List Text) → (staged_loop fs).renames ≡ (status_loop fs).renames
unfolding status_loop staged_loop
status-staged [] = refl
status-staged (s ∷ []) = refl
status-staged (s ∷ a ∷ []) = ground arith
status-staged (s ∷ a ∷ b ∷ rest) = ground (arith, status-staged rest, status-staged (b ∷ rest))

rename-status : (fs : List Text) → rename_loop fs ≡ (status_loop fs).renames
unfolding status_loop rename_loop
rename-status [] = refl
rename-status (s ∷ []) = refl
rename-status (s ∷ a ∷ []) = ground arith
rename-status (s ∷ a ∷ b ∷ rest) = ground (arith, rename-status rest, rename-status (b ∷ rest))

-- On every output of git, well formed or cut off, the history walk, the sidecar cleanup and the
-- link healing read the same renames, in the same order.
pub renames_agree :
    (raw : Text)
    → ((parse_staged_md_changes raw).renames ≡ (parse_name_status_z raw).renames)
      × (parse_rename_records raw ≡ (parse_name_status_z raw).renames)
unfolding parse_name_status_z parse_staged_md_changes parse_rename_records
renames_agree raw = (status-staged (fields raw), rename-status (fields raw))
