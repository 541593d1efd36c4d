-- ===== src/Walk/Guard.antt =====
-- `retracts_still_live` of src/spo_events.rs: the retract candidates that an untouched sidecar still
-- asserts. Its memo of resolved blobs is left out: it changes no answer.
use git_lex.Base.{
  ℕ, Bool, true, false, Option, none, some, List, [], ◌∷◌, ◌++◌, map, Result, ok, length, ◌==◌,
  if◌then◌else◌,
}
use git_lex.Text.{Text}
use git_lex.Sets.{member, insert_new, lookup, put}
use git_lex.Fallible.{and_then}
use git_lex.Walk.{WalkCommit, GraphStore}
use git_lex.Walk.Terms.{Op, take_term, unbracketed, file_iri_document}
use git_lex.Walk.Sidecars.{spo_extractor_suffixes, sidecar_path, SidecarReader, resolve_present}
use git_lex.Walk.Engine.{WalkState}

abbrev pub with_document : Option Text → List Text → List Text
with_document none docs = docs
with_document (some doc) docs = insert_new doc docs

-- The files of the store, all asserted, and over them those the walk has changed.
abbrev pub asserted : List Text → List (Text × Op)
asserted [] = []
asserted (f ∷ fs) = put f Op.assert_op (asserted fs)

abbrev pub overlaid : List (Text × Op) → List (Text × Op) → List (Text × Op)
overlaid files [] = files
overlaid files ((f, op) ∷ changed) = put f op (overlaid files changed)

abbrev pub known : Option (List (Text × Op)) → List (Text × Op)
known none = []
known (some files) = files

-- The candidates that the set holds join the live ones; `true` when all are live.
abbrev pub mark_live : ℕ → List Text → List Text → List Text → List Text × Bool
mark_live total [] found live = (live, false)
mark_live total (cand ∷ cands) found live =
    let more = insert_new cand live in
    let on = mark_live total cands found more in
    let off = mark_live total cands found live in
    if member cand found then (if length more == total then (more, true) else on) else off

abbrev pub places : List Text → List (Text × Text)
places [] = []
places (doc ∷ docs) = map (λ suffix. (doc, suffix)) spo_extractor_suffixes ++ places docs

module _ {O E : Type 0} (reader : SidecarReader O E)
    (resolve_lines : List Text → Text → Text → Result E (List Text)) where
  abbrev pub blob_triples : Text → Text → Option O → Result E (List Text)
  blob_triples path doc none = ok []
  blob_triples path doc (some oid) =
      and_then (reader.blob_lines oid) (resolve_present reader resolve_lines path doc)

  abbrev pub untouched_triples : List Text → Text → Text → Text → Result E (List Text)
  untouched_triples touched_any sha path doc =
      if member path touched_any
      then ok []
      else and_then (reader.blob_at sha path) (blob_triples path doc)

  -- The scan of the documents' sidecars, which stops when every candidate is live.
  unfoldable pub scan :
      List Text → List Text → Text → List (Text × Text) → List Text → Result E (List Text)
  unfolding sidecar_path
  scan retracts touched_any sha [] live = ok live
  scan retracts touched_any sha ((doc, suffix) ∷ places) live =
      and_then (untouched_triples touched_any sha (sidecar_path doc suffix) doc) (λ found.
        let (more, stop) = mark_live (length retracts) retracts found live in
        elim stop [ true ↦ ok more | false ↦ scan retracts touched_any sha places more ])

module _ (from_utf8 : Text → Option Text) (is_iri : Text → Bool) where
  abbrev pub file_documents : List (Text × Op) → List Text → List Text
  file_documents [] docs = docs
  file_documents ((f, Op.assert_op) ∷ files) docs =
      file_documents files (with_document (file_iri_document from_utf8 (unbracketed f)) docs)
  file_documents ((f, Op.retract_op) ∷ files) docs = file_documents files docs

  module _ {S E : Type 0} (graph : GraphStore S E) where
    abbrev pub stored_files : Text → S → Result E (List Text)
    stored_files iri s = if is_iri iri then graph.file_ids iri s else ok []

    abbrev pub subject_documents : Text → WalkState S → List Text → Result E (List Text)
    subject_documents subject st docs =
        and_then (stored_files (unbracketed subject) st.store) (λ files. ok (
          file_documents (overlaid (asserted files) (known (lookup subject st.walk_file_ids)))
            (with_document (file_iri_document from_utf8 (unbracketed subject)) docs)))

    -- The documents of the candidates' subjects, each subject once.
    unfoldable pub guard_documents :
        List Text → WalkState S → List Text → List Text → Result E (List Text)
    unfolding take_term file_iri_document
    guard_documents [] st seen docs = ok docs
    guard_documents (cand ∷ cands) st seen docs = elim (take_term cand) [
      | none ↦ guard_documents cands st seen docs
      | some (subject, _) ↦ elim (member subject seen) [
        | true ↦ guard_documents cands st seen docs
        | false ↦
            and_then (subject_documents subject st docs)
              (λ docs. guard_documents cands st (seen ++ subject ∷ []) docs)
      ]
    ]

    module _ {O : Type 0} (reader : SidecarReader O E)
        (resolve_lines : List Text → Text → Text → Result E (List Text)) where
      unfoldable pub retracts_still_live :
          List Text → List Text → WalkCommit → WalkState S → Result E (List Text)
      unfolding guard_documents scan
      retracts_still_live retracts touched_any c st =
          and_then (guard_documents retracts st [] [])
            (λ docs. scan reader resolve_lines retracts touched_any c.sha (places docs) [])
