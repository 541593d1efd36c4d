-- ===== src/Walk/Sidecars.antt =====
-- The names of sidecars, `derive_source_document`, and what a sidecar says at a commit:
-- `resolve_sidecar_at` of src/spo_events.rs. Git's objects are a parameter.
use git_lex.Base.{Option, none, some, ◌>>=◌, List, [], ◌∷◌, ◌++◌, Result, ok}
use git_lex.Text.{Text, codes, strip_prefix, strip_suffix}
use git_lex.Fallible.{and_then}

abbrev pub spo_extractor_suffixes : List Text
spo_extractor_suffixes = codes "fm" ∷ codes "md" ∷ codes "cc" ∷ codes "gliner" ∷ codes "haiku" ∷ []

abbrev pub extract_prefix : Text
extract_prefix = codes ".lex/extract/"

-- `format!(".{}.spo", suffix)`
abbrev pub spo_ending : Text → Text
spo_ending suffix = b'.' ∷ (suffix ++ codes ".spo")

-- `format!(".lex/extract/{}.{}.spo", doc, suffix)`
unfoldable pub sidecar_path : Text → Text → Text
sidecar_path doc suffix = extract_prefix ++ (doc ++ spo_ending suffix)

abbrev pub or_next : Option Text → Option Text → Option Text
or_next none later = later
or_next (some base) later = some base

abbrev pub first_base : Text → List Text → Option Text
first_base after [] = none
first_base after (suffix ∷ suffixes) =
    or_next (strip_suffix (spo_ending suffix) after) (first_base after suffixes)

unfoldable pub derive_source_document : Text → Option Text
derive_source_document path =
    strip_prefix extract_prefix path >>= λ after. first_base after spo_extractor_suffixes

-- Git's objects, read by libgit2: the blob a path holds at a commit, and its lines.
pub record SidecarReader (O E : Type 0) : Type 0 where
  pub blob_at : Text → Text → Result E (Option O)
  pub blob_lines : O → Result E (List Text)

module _ {O E : Type 0} (reader : SidecarReader O E) where
  abbrev pub lines_of : Option O → Result E (List Text)
  lines_of none = ok []
  lines_of (some oid) = reader.blob_lines oid

  unfoldable pub lines_at : Text → Text → Result E (List Text)
  lines_at sha path = and_then (reader.blob_at sha path) lines_of

  -- `resolve_lines` is `resolve_sidecar_lines`.
  module _ (resolve_lines : List Text → Text → Text → Result E (List Text)) where
    abbrev pub resolve_present : Text → Text → List Text → Result E (List Text)
    resolve_present path doc [] = ok []
    resolve_present path doc (l ∷ ls) = resolve_lines (l ∷ ls) path doc

    abbrev pub resolve_for : Text → Text → Option Text → Result E (List Text)
    resolve_for commit path none = ok []
    resolve_for commit path (some doc) = and_then (lines_at commit path) (resolve_present path doc)

    unfoldable pub resolve_sidecar_at : Text → Text → Result E (List Text)
    unfolding derive_source_document lines_at
    resolve_sidecar_at commit path = resolve_for commit path (derive_source_document path)
