-- ===== src/Frontmatter.antt =====
-- `split_frontmatter` of src/lib.rs: the fenced block at a document's head.
pub mod Lossless
use git_lex.Base.{Bool, true, false, Option, none, some, List, [], ◌∷◌, ◌++◌, ◌==◌}
use git_lex.Text.{Text, codes, same, trim_end, strip_prefix}
use git_lex.Text.Lines.{split_inclusive}

abbrev pub glue : List Text → Text
glue [] = []
glue (line ∷ lines) = line ++ glue lines

abbrev pub closes : Text → Bool
closes line = same (trim_end line) (codes "---")

-- `offset` is the end of the lines passed, `&after[..offset]`.
unfoldable pub fence_loop : Text → List Text → Option (Text × Text)
fence_loop passed [] = none
fence_loop passed (line ∷ rest) = elim (closes line) [
  | true ↦ some (passed, glue rest)
  | false ↦ fence_loop (passed ++ line) rest
]

abbrev pub either : Option Text → Option Text → Option Text
either none b = b
either (some a) b = some a

abbrev pub or_whole : Text → Option (Text × Text) → Option Text × Text
or_whole content none = (none, content)
or_whole content (some (yaml, body)) = (some yaml, body)

abbrev pub after_opener : Text → Option Text → Option Text × Text
after_opener content none = (none, content)
after_opener content (some after) = or_whole content (fence_loop [] (split_inclusive after))

unfoldable pub split_frontmatter : Text → Option Text × Text
unfolding fence_loop split_inclusive
split_frontmatter content =
    after_opener content
      (either (strip_prefix (codes "---\n") content) (strip_prefix (codes "---\r\n") content))
