-- ===== src/GitRecords.antt =====
-- What git prints about changed files: the parsers of `--name-status -z` records
-- (src/spo_events.rs, src/heal.rs) and the splitter of `diff-tree --stdin` (src/spo_events.rs).
pub mod Agree
pub mod RoundTrip
pub mod Blocks
use git_lex.Base.{
  ℕ, Bool, true, false, ◌||◌, Option, none, some, List, [], ◌∷◌, ◌++◌, ◌==◌, if◌then◌else◌, not,
  keep, Result, ok, err, length,
}
use git_lex.Text.{Text, is_empty, same, trim}
use git_lex.Text.Split.{split}

pub record NameStatus : Type 0 where
  pub touched : List Text
  pub renames : List (Text × Text)

-- `raw.split('\0').filter(|s| !s.is_empty())`
unfoldable pub fields : Text → List Text
unfolding split
fields raw = keep (λ f. not (is_empty f)) (split 0 raw)

-- `fields[i].chars().next() == Some(c)`
abbrev pub first_is : ℕ → Text → Bool
first_is c [] = false
first_is c (d ∷ _) = d == c

abbrev pub add_touched : Text → NameStatus → NameStatus
add_touched p r = record r { touched = p ∷ r.touched }

abbrev pub add_rename : Text → Text → NameStatus → NameStatus
add_rename old new r = record r { renames = (old, new) ∷ r.renames }

abbrev pub nothing : NameStatus
nothing = record { touched = []; renames = [] }

-- The loop of `parse_name_status_z`, on the fields from `i` on. A record whose paths are cut off
-- adds nothing, and the index passes the end.
unfoldable pub status_loop : List Text → NameStatus
status_loop [] = nothing
status_loop (status ∷ []) = nothing
status_loop (status ∷ old ∷ []) =
    if first_is b'R' status || first_is b'C' status then nothing else add_touched old nothing
status_loop (status ∷ old ∷ new ∷ rest) =
    let two = status_loop rest in
    let one = status_loop (new ∷ rest) in
    if first_is b'R' status
    then add_rename old new two
    else if first_is b'C' status
    then add_touched new two
    else add_touched old one

unfoldable pub parse_name_status_z : Text → NameStatus
unfolding status_loop fields
parse_name_status_z raw = status_loop (fields raw)

-- The loop of `parse_staged_md_changes`: `touched` holds the deleted paths here.
unfoldable pub staged_loop : List Text → NameStatus
staged_loop [] = nothing
staged_loop (status ∷ []) = nothing
staged_loop (status ∷ path ∷ []) =
    if first_is b'R' status || first_is b'C' status
    then nothing
    else if first_is b'D' status
    then add_touched path nothing
    else nothing
staged_loop (status ∷ path ∷ new ∷ rest) =
    let two = staged_loop rest in
    let one = staged_loop (new ∷ rest) in
    if first_is b'R' status || first_is b'C' status
    then (if first_is b'R' status then add_rename path new two else two)
    else if first_is b'D' status
    then add_touched path one
    else one

unfoldable pub parse_staged_md_changes : Text → NameStatus
unfolding staged_loop fields
parse_staged_md_changes raw = staged_loop (fields raw)

-- The loop of `parse_rename_records`, which takes fields from an iterator.
unfoldable pub rename_loop : List Text → List (Text × Text)
rename_loop [] = []
rename_loop (status ∷ []) = []
rename_loop (status ∷ path ∷ []) = []
rename_loop (status ∷ path ∷ new ∷ rest) =
    let two = rename_loop rest in
    let one = rename_loop (new ∷ rest) in
    if first_is b'R' status then (path, new) ∷ two else if first_is b'C' status then two else one

unfoldable pub parse_rename_records : Text → List (Text × Text)
unfolding rename_loop fields
parse_rename_records raw = rename_loop (fields raw)

-- Why `split_diff_tree_stdin` stops: a field before any header, or a missing header.
pub data DiffTreeError : Type 0 where
  before_header : Text → DiffTreeError
  answered : ℕ → ℕ → DiffTreeError

-- `blocks.push(done)` where a block is open.
abbrev pub close : Option Text → List Text → List Text
close none blocks = blocks
close (some done) blocks = blocks ++ done ∷ []

abbrev pub is_header : Text → List Text → Bool
is_header field [] = false
is_header field (sha ∷ _) = same (trim field) sha

abbrev pub rest_of : List Text → List Text
rest_of [] = []
rest_of (_ ∷ shas) = shas

-- The loop of `split_diff_tree_stdin`: the fields left, the shas not met yet (`shas[next..]`),
-- `current` and `blocks`.
unfoldable pub block_loop :
    List Text → List Text → Option Text → List Text → Result DiffTreeError (List Text)
block_loop [] shas current blocks = ok (close current blocks)
block_loop (field ∷ fs) shas current blocks =
    let opened = block_loop fs (rest_of shas) (some []) (close current blocks) in
    let skipped = block_loop fs shas current blocks in
    let grown = λ (block : Text). block_loop fs shas (some (block ++ (field ++ 0 ∷ []))) blocks in
    if is_header field shas
    then opened
    else if is_empty field
    then skipped
    else (elim current [ none ↦ err (before_header field) | some block ↦ grown block ])

abbrev check_count : List Text → List Text → Result DiffTreeError (List Text)
check_count shas blocks =
    if length blocks == length shas then ok blocks else err (answered (length shas) (length blocks))

abbrev count_blocks :
    List Text → Result DiffTreeError (List Text) → Result DiffTreeError (List Text)
count_blocks shas (err e) = err e
count_blocks shas (ok blocks) = check_count shas blocks

unfoldable pub split_diff_tree_stdin : Text → List Text → Result DiffTreeError (List Text)
unfolding block_loop split
split_diff_tree_stdin raw shas = count_blocks shas (block_loop (split 0 raw) shas none [])
