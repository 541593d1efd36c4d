-- ===== src/LinkPath.antt =====
-- `normalize_wikilink_path` (src/extraction.rs): a link target resolved against the directory of
-- the document that holds it.
pub mod Canonical
use git_lex.Base.{Option, none, some, List, [], ◌∷◌, ◌++◌, ◌||◌, reverse, if◌then◌else◌, ◌>>=◌}
use git_lex.Text.{Text, codes, same, has, strip_prefix, is_empty}
use git_lex.Text.Split.{split, join}

-- The text whose segments are walked: a leading `/` means the repo root.
abbrev pub combined_from : Option Text → Text → Text → Text
combined_from (some rest) target source_dir = rest
combined_from none target source_dir =
    if is_empty source_dir then target else source_dir ++ (b'/' ∷ target)

abbrev pub combined : Text → Text → Text
combined target source_dir = combined_from (strip_prefix (b'/' ∷ []) target) target source_dir

-- The loop over the segments; the top of the stack is the head of the list.
unfoldable pub collapse : List Text → List Text → Option (List Text)
collapse [] stack = some stack
collapse (seg ∷ segs) stack =
    let skipped = collapse segs stack in
    let pushed = collapse segs (seg ∷ stack) in
    let popped : Option (List Text) = elim stack [ [] ↦ none | _ ∷ below ↦ collapse segs below ] in
    if is_empty seg || same seg (codes ".")
    then skipped
    else if same seg (codes "..")
    then popped
    else pushed

-- The stack joined, with `.md` behind a last segment that has no dot.
unfoldable pub finish : List Text → Option Text
unfolding join
finish [] = none
finish (last ∷ below) =
    let joined = join (b'/' ∷ []) (reverse (last ∷ below)) in
    if has b'.' last then some joined else some (joined ++ codes ".md")

unfoldable pub normalize_wikilink_path : Text → Text → Option Text
unfolding collapse finish split
normalize_wikilink_path target source_dir = do
  stack ← collapse (split b'/' (combined target source_dir)) []
  finish stack
