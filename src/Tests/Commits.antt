-- ===== src/Tests/Commits.antt =====
-- The commits of a walk at a concrete history.
use git_lex.Base.{◌≡◌, refl, some, none, List, [], ◌∷◌, ◌++◌, map, ok, if◌then◌else◌}
use git_lex.Text.{Text, codes, same, is_space}
use git_lex.GitRecords.{split_diff_tree_stdin}
use git_lex.Walk.{WalkCommit}
use git_lex.Walk.Now.{IsChain}
use git_lex.Walk.Commits.{WalkGit, collect_commits_from_shas, collect_commits_from_shas-IsChain}

abbrev two_blocks : Text
two_blocks =
    codes "1\n"
    ++ (0
        ∷ (codes "A"
            ++ (0
                ∷ (codes ".lex/extract/a.md.fm.spo"
                    ++ (0
                        ∷ (codes "2\n"
                            ++ (0
                                ∷ (codes "D"
                                    ++ (0 ∷ (codes ".lex/extract/a.md.fm.spo" ++ 0 ∷ []))))))))))

abbrev git : WalkGit Text
git = record {
  first_parent = λ sha. ok (some (if same sha (codes "1") then codes "0" else codes "1"));
  diff_tree_stdin = λ input. ok two_blocks;
  empty_tree_diff = λ sha. ok [];
  diff_tree_error = λ e. codes "git diff-tree";
}

abbrev one_file : Text
one_file = codes "A" ++ (0 ∷ (codes ".lex/extract/a.md.fm.spo" ++ 0 ∷ []))

abbrev gone_file : Text
gone_file = codes "D" ++ (0 ∷ (codes ".lex/extract/a.md.fm.spo" ++ 0 ∷ []))

splits :
    split_diff_tree_stdin two_blocks (codes "1" ∷ codes "2" ∷ []) ≡ ok (one_file ∷ gone_file ∷ [])
unfolding split_diff_tree_stdin is_space
splits = refl

collect_commits_from_shas-IsChain_example :
    (commits : List WalkCommit) × (collect_commits_from_shas git (codes "1" ∷ codes "2" ∷ []) none
      ≡ ok commits)
    × IsChain (codes "0") commits
    × (map (λ c. c.sha) commits ≡ codes "1" ∷ codes "2" ∷ [])
collect_commits_from_shas-IsChain_example =
    collect_commits_from_shas-IsChain git (codes "0") (codes "1" ∷ codes "2" ∷ []) two_blocks
      (one_file ∷ gone_file ∷ []) (refl, (refl, tt)) refl splits
