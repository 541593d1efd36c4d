-- ===== src/Cleanup.antt =====
-- `cleanup_sidecars_for_staged_changes` of src/spo_events.rs: the sidecars of deleted and renamed
-- documents follow them within one commit. Git and its index are parameters.
pub mod Settled
pub mod Followed
use git_lex.Base.{
  Bool, true, false, not, ◌&&◌, ◌||◌, ◌≡◌, List, [], ◌∷◌, ◌++◌, map, Result, ok, err, keep, Option,
  none, some, if◌then◌else◌,
}
use git_lex.Text.{Text, codes, same}
use git_lex.GitRecords.{parse_staged_md_changes}
use git_lex.Walk.Sidecars.{spo_extractor_suffixes, extract_prefix, sidecar_path}

pub record CleanupReport (E : Type 0) : Type 0 where
  pub deleted : List Text
  pub renamed : List (Text × Text)
  pub errors : List E

-- Git's index, which is read again after each change: `readable` says whether libgit2 opens the
-- repository and reads the index, `entry` what is in it. A failed command changes nothing.
pub record GitIndex (S E : Type 0) : Type 0 where
  pub readable : S → Bool
  pub entry : Text → S → Bool
  pub git_rm : Text → S → Result E S
  pub git_mv : Text → Text → S → Result E S
  pub rm_law :
      (p q : Text) (s t : S) → git_rm p s ≡ ok t → entry q t ≡ (entry q s && not (same q p))
  pub mv_law :
      (a b q : Text) (s t : S)
      → git_mv a b s ≡ ok t
      → entry q t ≡ ((entry q s && not (same q a)) || same q b)

-- `IndexProbe::tracked`: an index that cannot be read tracks nothing.
abbrev pub tracked : {S E : Type 0} → GitIndex S E → Text → S → Bool
tracked index path s = index.readable s && index.entry path s

-- `format!(".lex/extract/{}.meta", md)`
unfoldable pub meta_path : Text → Text
meta_path md = extract_prefix ++ (md ++ codes ".meta")

module _ {S E : Type 0} (index : GitIndex S E) where
  abbrev pub Cleaning : Type 0
  Cleaning = CleanupReport E × S

  abbrev pub removed : Text → Cleaning → Result E S → Cleaning
  removed path (report, s) (ok t) = (record report { deleted = report.deleted ++ path ∷ [] }, t)
  removed path (report, s) (err e) = (record report { errors = report.errors ++ e ∷ [] }, s)

  unfoldable pub remove_path : Text → Cleaning → Cleaning
  remove_path path c = removed path c (index.git_rm path c.1)

  abbrev pub moved : Text → Text → Cleaning → Result E S → Cleaning
  moved old new (report, s) (ok t) =
      (record report { renamed = report.renamed ++ (old, new) ∷ [] }, t)
  moved old new (report, s) (err e) = (record report { errors = report.errors ++ e ∷ [] }, s)

  unfoldable pub move_path : Text → Text → Cleaning → Cleaning
  move_path old new c = moved old new c (index.git_mv old new c.1)

  unfoldable pub sidecar_paths_for_md : S → Text → List Text
  unfolding sidecar_path
  sidecar_paths_for_md s md =
      keep (λ path. tracked index path s) (map (sidecar_path md) spo_extractor_suffixes)

  abbrev pub remove_paths : List Text → Cleaning → Cleaning
  remove_paths [] c = c
  remove_paths (path ∷ paths) c = remove_paths paths (remove_path path c)

  abbrev pub remove_tracked : Text → Cleaning → Cleaning
  remove_tracked path c = if tracked index path c.1 then remove_path path c else c

  -- One deleted document: its sidecars, then the `.meta` file of the jsonl extractor.
  unfoldable pub delete_md : Text → Cleaning → Cleaning
  unfolding remove_path sidecar_paths_for_md meta_path
  delete_md md c = remove_tracked (meta_path md) (remove_paths (sidecar_paths_for_md c.1 md) c)

  -- The old path moves, or goes when the new one is tracked already.
  unfoldable pub follow : Text → Text → Cleaning → Cleaning
  unfolding remove_path move_path
  follow old new c =
      if not (tracked index old c.1)
      then c
      else if tracked index new c.1 && not (same new old)
      then remove_path old c
      else move_path old new c

  abbrev pub follow_all : Text → Text → List Text → Cleaning → Cleaning
  follow_all old_md new_md [] c = c
  follow_all old_md new_md (suffix ∷ suffixes) c =
      follow_all old_md new_md suffixes
        (follow (sidecar_path old_md suffix) (sidecar_path new_md suffix) c)

  unfoldable pub rename_md : Text → Text → Cleaning → Cleaning
  unfolding follow sidecar_path meta_path
  rename_md old_md new_md c =
      follow (meta_path old_md) (meta_path new_md)
        (follow_all old_md new_md spo_extractor_suffixes c)

  abbrev pub delete_all : List Text → Cleaning → Cleaning
  delete_all [] c = c
  delete_all (md ∷ mds) c = delete_all mds (delete_md md c)

  abbrev pub rename_all : List (Text × Text) → Cleaning → Cleaning
  rename_all [] c = c
  rename_all ((old_md, new_md) ∷ mds) c = rename_all mds (rename_md old_md new_md c)

  -- `staged` is `git_staged_md_changes`: what git prints, or its error.
  unfoldable pub cleanup_sidecars_for_staged_changes : Result E Text → S → Cleaning
  unfolding delete_md rename_md parse_staged_md_changes
  cleanup_sidecars_for_staged_changes (err e) s =
      (record { deleted = []; renamed = []; errors = e ∷ [] }, s)
  cleanup_sidecars_for_staged_changes (ok raw) s =
      let changes = parse_staged_md_changes raw in
      rename_all changes.renames
        (delete_all changes.touched (record { deleted = []; renamed = []; errors = [] }, s))
