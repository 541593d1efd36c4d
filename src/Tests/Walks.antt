-- ===== src/Tests/Walks.antt =====
-- A walk over two commits: a document with two sidecars, then one of them changes.
use git_lex.Base.{
  ℕ, Bool, true, false, Option, none, some, List, [], ◌∷◌, ◌++◌, Result, ok, err, if◌then◌else◌,
}
use git_lex.Text.{Text, codes, same}
use git_lex.Sets.{member}
use git_lex.Walk.{WalkCommit}
use git_lex.Walk.Sidecars.{SidecarReader, resolve_sidecar_at}
use git_lex.Walk.Engine.{WalkState}
use git_lex.Walk.Whole.{onegraph_walk_engine_with, fresh_state}
use git_lex.Tests.Graphs.{memory}

abbrev statement : Text → Text
statement value =
    codes "<https://repolex.ai/git-lex/File/a> <p> \""
    ++ (value ++ codes "\" <https://repolex.ai/git-lex/LexHistoryGraph> .")

-- The two versions of the statement.
abbrev version : Bool → Text
version true = statement (codes "x")
version false = statement (codes "y")

-- The emitter of the document `a`: one statement for each version of a sidecar.
abbrev emitted_for : Bool → Bool → Result Text (List Text)
emitted_for true b = ok (version b ∷ [])
emitted_for false b = err (codes "unknown")

abbrev resolve_lines : List Text → Text → Text → Result Text (List Text)
resolve_lines ls path doc = emitted_for (same doc (codes "a")) (member (codes "x") ls)

abbrev never : Text → Bool
never iri = false

abbrev fm_path : Text
fm_path = codes ".lex/extract/a.fm.spo"

abbrev md_path : Text
md_path = codes ".lex/extract/a.md.spo"

abbrev fm_blob : Text → Option (List Text)
fm_blob sha =
    if same sha (codes "1")
    then some (codes "x" ∷ [])
    else if same sha (codes "2")
    then some (codes "y" ∷ [])
    else none

abbrev md_blob : Text → Option (List Text)
md_blob sha = if same sha (codes "0") then none else some (codes "x" ∷ [])

abbrev blob_for : Bool → Bool → Text → Option (List Text)
blob_for true b sha = fm_blob sha
blob_for false true sha = md_blob sha
blob_for false false sha = none

abbrev reader : SidecarReader (List Text) Text
reader = record {
  blob_at = λ sha path. ok (blob_for (same path fm_path) (same path md_path) sha);
  blob_lines = λ lines. ok lines;
}

abbrev resolve : Text → Text → Result Text (List Text)
resolve = resolve_sidecar_at reader resolve_lines

abbrev first_commit : WalkCommit
first_commit = record {
  sha = codes "1";
  parent_sha = codes "0";
  touched = fm_path ∷ md_path ∷ [];
  renames = [];
}

abbrev second_commit : WalkCommit
second_commit = record {
  sha = codes "2";
  parent_sha = codes "1";
  touched = fm_path ∷ [];
  renames = [];
}

abbrev state_of :
    WalkState (List Text) → Option (Result Text (WalkState (List Text))) → WalkState (List Text)
state_of d (some (ok st)) = st
state_of d _ = d

abbrev walked :
    List WalkCommit → List Text → Bool → ℕ → Option (Result Text (WalkState (List Text)))
walked commits store clear_first batch_quads =
    onegraph_walk_engine_with some never (λ key. key) memory reader resolve_lines commits store
      (codes "<https://repolex.ai/git-lex/LexHistoryGraph>") clear_first batch_quads

abbrev end_of : List WalkCommit → List Text → Bool → ℕ → WalkState (List Text)
end_of commits store clear_first batch_quads =
    state_of (fresh_state store [] clear_first batch_quads)
      (walked commits store clear_first batch_quads)
