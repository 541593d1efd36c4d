-- ===== src/Tests/Documents.antt =====
-- A document's head at a concrete input.
use git_lex.Base.{◌≡◌, refl, some, ◌++◌}
use git_lex.Text.{Text, codes}
use git_lex.Text.Lines.{split_inclusive}
use git_lex.Frontmatter.{split_frontmatter, glue}
use git_lex.Frontmatter.Lossless.{IsOpener, IsSplit, split_frontmatter-IsSplit}

abbrev note : Text
note = codes "---\na: 1\n--- \nbody\n"

note_splits : split_frontmatter note ≡ (some (codes "a: 1\n"), codes "body\n")
unfolding split_frontmatter git_lex.Text.is_space
note_splits = refl

split_frontmatter-IsSplit_example :
    (opener : Text) × (after : Text) × IsOpener opener
    × (note ≡ opener ++ after)
    × (glue (split_inclusive after) ≡ after)
    × IsSplit (split_inclusive after) (codes "a: 1\n") (codes "body\n")
split_frontmatter-IsSplit_example =
    split_frontmatter-IsSplit note (codes "a: 1\n") (codes "body\n") note_splits
