-- ===== src/Walk/Commits.antt =====
-- `collect_commits_from_shas` of src/spo_events.rs: the commits of a walk, each with the base it is
-- diffed against and the sidecars it touched. Git is a parameter, so are the texts of its errors.
use git_lex.Base.{
  ◌≡◌, refl, ap, ◌∙◌, Bool, false, Option, none, some, List, [], ◌∷◌, ◌++◌, map, Result, ok, err,
  length, if◌then◌else◌, arith,
}
use git_lex.Text.{Text, codes, same}
use git_lex.Fallible.{and_then}
use git_lex.GitRecords.{NameStatus, DiffTreeError, parse_name_status_z, split_diff_tree_stdin}
use git_lex.GitRecords.Blocks.{split_diff_tree_stdin-length}
use git_lex.Walk.{WalkCommit}
use git_lex.Walk.Now.{IsChain}

abbrev pub empty_tree_sha : Text
empty_tree_sha = codes "4b825dc642cb6eb9a060e54bf8d69288fbee4904"

abbrev pub base_of : Option Text → Text
base_of none = empty_tree_sha
base_of (some parent) = parent

-- What git is asked: the first parent of a commit, one `git diff-tree --stdin` over lines of a
-- commit and its base, and the difference of a commit from the empty tree.
pub record WalkGit (E : Type 0) : Type 0 where
  pub first_parent : Text → Result E (Option Text)
  pub diff_tree_stdin : Text → Result E Text
  pub empty_tree_diff : Text → Result E Text
  pub diff_tree_error : DiffTreeError → E

abbrev pub input_line : Text → Text → Text
input_line sha base = (if same base empty_tree_sha then sha else sha ++ (b' ' ∷ base)) ++ b'\n' ∷ []

abbrev pub input_of : List Text → List Text → Text
input_of [] bases = []
input_of (sha ∷ shas) [] = []
input_of (sha ∷ shas) (base ∷ bases) = input_line sha base ++ input_of shas bases

abbrev pub commit_of : Text → Text → NameStatus → WalkCommit
commit_of sha base status = record {
  sha = sha;
  parent_sha = base;
  touched = status.touched;
  renames = status.renames;
}

abbrev pub is_horizon : Option Text → Text → Bool
is_horizon none sha = false
is_horizon (some start) sha = same start sha

module _ {E : Type 0} (git : WalkGit E) where
  unfoldable pub bases_of : List Text → Result E (List Text)
  bases_of [] = ok []
  bases_of (sha ∷ shas) =
      and_then (git.first_parent sha)
        (λ parent. and_then (bases_of shas) (λ bases. ok (base_of parent ∷ bases)))

  abbrev pub split_answer : Result DiffTreeError (List Text) → Result E (List Text)
  split_answer (err e) = err (git.diff_tree_error e)
  split_answer (ok blocks) = ok blocks

  unfoldable pub rebuild_against_empty_tree : Text → Result E WalkCommit
  unfolding parse_name_status_z
  rebuild_against_empty_tree sha =
      and_then (git.empty_tree_diff sha)
        (λ raw. ok (commit_of sha empty_tree_sha (parse_name_status_z raw)))

  abbrev pub commit_for : Option Text → Text → Text → Text → Result E WalkCommit
  commit_for horizon_start sha base records =
      if is_horizon horizon_start sha
      then rebuild_against_empty_tree sha
      else ok (commit_of sha base (parse_name_status_z records))

  -- `zip` ends with the shortest of the three.
  unfoldable pub commits_of :
      Option Text → List Text → List Text → List Text → Result E (List WalkCommit)
  unfolding rebuild_against_empty_tree parse_name_status_z
  commits_of horizon_start [] bases blocks = ok []
  commits_of horizon_start (sha ∷ shas) [] blocks = ok []
  commits_of horizon_start (sha ∷ shas) (base ∷ bases) [] = ok []
  commits_of horizon_start (sha ∷ shas) (base ∷ bases) (records ∷ blocks) =
      and_then (commit_for horizon_start sha base records) (λ commit.
        and_then (commits_of horizon_start shas bases blocks) (λ commits. ok (commit ∷ commits)))

  unfoldable pub collect_commits_from_shas : List Text → Option Text → Result E (List WalkCommit)
  unfolding bases_of commits_of split_diff_tree_stdin
  collect_commits_from_shas shas horizon_start = and_then (bases_of shas) (λ bases.
      and_then (git.diff_tree_stdin (input_of shas bases)) (λ raw.
        and_then (split_answer (split_diff_tree_stdin raw shas))
          (λ per_commit. commits_of horizon_start shas bases per_commit)))

  -- Each commit's first parent is the one listed before it.
  abbrev pub IsLine : Text → List Text → Type 0
  IsLine base [] = Unit
  IsLine base (sha ∷ shas) = (git.first_parent sha ≡ ok (some base)) × IsLine sha shas

  abbrev pub line_bases : Text → List Text → List Text
  line_bases base [] = []
  line_bases base (sha ∷ shas) = base ∷ line_bases sha shas

  bases_of-IsLine :
      (base : Text) (shas : List Text)
      → IsLine base shas
      → bases_of shas ≡ ok (line_bases base shas)
  unfolding bases_of
  bases_of-IsLine base [] h = refl
  bases_of-IsLine base (sha ∷ shas) (p, h) =
      ap
        (λ r.
          and_then r (λ parent. and_then (bases_of shas) (λ bases. ok (base_of parent ∷ bases))))
        p
      ∙ ap (λ r. and_then r (λ bases. ok (base ∷ bases))) (bases_of-IsLine sha shas h)

  commits_of-IsChain :
      (base : Text) (shas blocks : List Text)
      → length blocks ≡ length shas
      → (commits : List WalkCommit) × (commits_of none shas (line_bases base shas) blocks
          ≡ ok commits)
        × IsChain base commits
        × (map (λ c. c.sha) commits ≡ shas)
  unfolding commits_of
  commits_of-IsChain base [] blocks h = ([], refl, tt, refl)
  commits_of-IsChain base (sha ∷ shas) [] h = absurd (omega (arith, h))
  commits_of-IsChain base (sha ∷ shas) (records ∷ blocks) h =
      let c : WalkCommit = commit_of sha base (parse_name_status_z records) in
      let (commits, e, chain, named) = commits_of-IsChain sha shas blocks (omega (arith, h)) in
      (
        c ∷ commits,
        ap (λ r. and_then r (λ commits. ok (c ∷ commits))) e,
        (refl, chain),
        ap (λ ss. sha ∷ ss) named,
      )

  -- When each listed commit's first parent is the one before it, git's one answer splits into a
  -- block for each, and no horizon is set, the walk gets a commit for each, in the order of the
  -- list, and each is diffed against the commit walked before it.
  pub collect_commits_from_shas-IsChain :
      (base : Text) (shas : List Text) (raw : Text) (per_commit : List Text)
      → IsLine base shas
      → git.diff_tree_stdin (input_of shas (line_bases base shas)) ≡ ok raw
      → split_diff_tree_stdin raw shas ≡ ok per_commit
      → (commits : List WalkCommit) × (collect_commits_from_shas shas none ≡ ok commits)
        × IsChain base commits
        × (map (λ c. c.sha) commits ≡ shas)
  unfolding collect_commits_from_shas
  collect_commits_from_shas-IsChain base shas raw per_commit line asked split =
      let (commits, e, chain, named) =
        commits_of-IsChain base shas per_commit (split_diff_tree_stdin-length raw shas split) in
      (
        commits,
        ap
              (λ r. and_then r (λ bases.
                and_then (git.diff_tree_stdin (input_of shas bases)) (λ raw.
                  and_then (split_answer (split_diff_tree_stdin raw shas))
                    (λ blocks. commits_of none shas bases blocks))))
              (bases_of-IsLine base shas line)
            ∙ ap
                (λ r. and_then r (λ raw.
                  and_then (split_answer (split_diff_tree_stdin raw shas))
                    (λ blocks. commits_of none shas (line_bases base shas) blocks)))
                asked
            ∙ ap
                (λ r.
                  and_then (split_answer r)
                    (λ blocks. commits_of none shas (line_bases base shas) blocks))
                split
            ∙ e,
        chain,
        named,
      )
