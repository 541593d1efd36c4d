-- ===== src/Walk/Documents.antt =====
-- One subject's turn of the retract guard: the documents that it reads.
use git_lex.Base.{
  ◌≡◌, refl, ap, sym, ◌∙◌, inl, inr, Bool, true, false, ◌||◌, Option, none, some, List, [], ◌∷◌, ok,
  Bool-cases, if◌then◌else◌,
}
use git_lex.Text.{Text, same, same-eq, same_refl}
use git_lex.Sets.{member, lookup, lookup-put, member-insert_new}
use git_lex.Sets.Counting.{Within}
use git_lex.Fallible.{and_then-ok, ok-eq}
use git_lex.Walk.{GraphStore}
use git_lex.Walk.Terms.{Op, unbracketed, file_iri_document, file_id_of, file_id_line}
use git_lex.Walk.Engine.{WalkState}
use git_lex.Walk.Batch.{view, over}
use git_lex.Walk.Guard.{
  with_document, asserted, overlaid, known, file_documents, stored_files, subject_documents,
}

or_left : (a b : Bool) → a ≡ true → (a || b) ≡ true
or_left true b h = refl
or_left false b h = cc

or_right : (a b : Bool) → b ≡ true → (a || b) ≡ true
or_right true b h = refl
or_right false b h = h

with_document-kept : (o : Option Text) (docs : List Text) → Within docs (with_document o docs)
with_document-kept none docs z m = m
with_document-kept (some doc) docs z m =
    member-insert_new z doc docs ∙ or_left (member z docs) (same z doc) m

with_document-new :
    (doc : Text) (docs : List Text) → member doc (with_document (some doc) docs) ≡ true
with_document-new doc docs =
    member-insert_new doc doc docs ∙ or_right (member doc docs) (same doc doc) (same_refl doc)

lookup-asserted :
    (file : Text) (files : List Text)
    → member file files ≡ true
    → lookup file (asserted files) ≡ some Op.assert_op
lookup-asserted file [] m = cc
lookup-asserted file (f ∷ files) m =
    lookup-put file f Op.assert_op (asserted files)
    ∙ chosen (same file f) (member file files) (lookup file (asserted files)) m
        (lookup-asserted file files)
  where
    chosen :
        (a b : Bool) (o : Option Op)
        → (a || b) ≡ true
        → (b ≡ true → o ≡ some Op.assert_op)
        → (if a then some Op.assert_op else o) ≡ some Op.assert_op
    chosen true b o m k = refl
    chosen false b o m k = k m

abbrev first_of : Option Op → Option Op → Option Op
first_of none o = o
first_of (some op) o = some op

lookup-overlaid :
    (file : Text) (files changed : List (Text × Op))
    → lookup file (overlaid files changed) ≡ first_of (lookup file changed) (lookup file files)
lookup-overlaid file files [] = refl
lookup-overlaid file files ((f, op) ∷ changed) =
    lookup-put file f op (overlaid files changed)
    ∙ ap (λ o. if same file f then some op else o) (lookup-overlaid file files changed)
    ∙ through (same file f) (lookup file changed) (lookup file files) op
  where
    through :
        (a : Bool) (o p : Option Op) (op : Op)
        → (if a then some op else first_of o p) ≡ first_of (if a then some op else o) p
    through true o p op = refl
    through false o p op = refl

-- The walk's own record of the file edges follows its pending effects.
abbrev pub FollowsEdge : {S : Type 0} → Text → Text → WalkState S → Type 0
FollowsEdge term file st =
    lookup file (known (lookup term st.walk_file_ids))
    ≡ lookup (file_id_line term file) st.base_final

module _ (from_utf8 : Text → Option Text) (is_iri : Text → Bool) where
  abbrev document_of : Text → Option Text
  document_of term = file_iri_document from_utf8 (unbracketed term)

  file_documents-kept :
      (files : List (Text × Op)) (docs : List Text)
      → Within docs (file_documents from_utf8 is_iri files docs)
  file_documents-kept [] docs z m = m
  file_documents-kept ((f, Op.assert_op) ∷ files) docs z m =
      file_documents-kept files (with_document (document_of f) docs) z
        (with_document-kept (document_of f) docs z m)
  file_documents-kept ((f, Op.retract_op) ∷ files) docs z m = file_documents-kept files docs z m

  file_documents-finds :
      (files : List (Text × Op)) (docs : List Text) (file doc : Text)
      → lookup file files ≡ some Op.assert_op
      → document_of file ≡ some doc
      → member doc (file_documents from_utf8 is_iri files docs) ≡ true
  file_documents-finds [] docs file doc l d = cc
  file_documents-finds ((f, Op.assert_op) ∷ files) docs file doc l d =
      elim (Bool-cases (same file f)) [
        | inl e ↦ file_documents-kept files (with_document (document_of f) docs) doc (
            ap (λ o. member doc (with_document o docs))
              (ap document_of (sym (same-eq file f e)) ∙ d)
            ∙ with_document-new doc docs)
        | inr e ↦
            file_documents-finds files (with_document (document_of f) docs) file doc
              (ap (λ b. if b then some Op.assert_op else lookup file files) (sym e) ∙ l) d
      ]
  file_documents-finds ((f, Op.retract_op) ∷ files) docs file doc l d =
      elim (Bool-cases (same file f)) [
        | inl e ↦
            let g = ap (λ b. if b then some Op.retract_op else lookup file files) (sym e) ∙ l in cc
        | inr e ↦
            file_documents-finds files docs file doc
              (ap (λ b. if b then some Op.retract_op else lookup file files) (sym e) ∙ l) d
      ]

  module _ {S E : Type 0} (graph : GraphStore S E) where
    abbrev found_documents : Text → WalkState S → List Text → List Text → List Text
    found_documents subject st docs files =
        file_documents from_utf8 is_iri
          (overlaid (asserted files) (known (lookup subject st.walk_file_ids)))
          (with_document (document_of subject) docs)

    pub subject_documents-kept :
        (subject : Text) (st : WalkState S) (docs out : List Text)
        → subject_documents from_utf8 is_iri graph subject st docs ≡ ok out
        → Within docs out
    subject_documents-kept subject st docs out h z m =
        let (files, _, e) =
          and_then-ok (stored_files from_utf8 is_iri graph (unbracketed subject) st.store)
            (λ files. ok (found_documents subject st docs files)) out h in
        rw (sym (ok-eq (found_documents subject st docs files) out e)) (
          file_documents-kept (overlaid (asserted files) (known (lookup subject st.walk_file_ids)))
            (with_document (document_of subject) docs) z
            (with_document-kept (document_of subject) docs z m))

    -- A file that the state ties to the subject has its document read.
    pub subject_documents-finds :
        (subject file doc : Text) (st : WalkState S) (docs out : List Text)
        → is_iri (unbracketed subject) ≡ true
        → file_id_of (file_id_line subject file) ≡ some (subject, file)
        → FollowsEdge subject file st
        → view graph (file_id_line subject file) st ≡ true
        → document_of file ≡ some doc
        → subject_documents from_utf8 is_iri graph subject st docs ≡ ok out
        → member doc out ≡ true
    subject_documents-finds subject file doc st docs out i edge follows held d h =
        let (files, stored, e) =
          and_then-ok (stored_files from_utf8 is_iri graph (unbracketed subject) st.store)
            (λ files. ok (found_documents subject st docs files)) out h in
        let asked : graph.file_ids (unbracketed subject) st.store ≡ ok files =
          ap (λ b. if b then graph.file_ids (unbracketed subject) st.store else ok []) (sym i)
          ∙ stored in
        let line = file_id_line subject file in
        rw (sym (ok-eq (found_documents subject st docs files) out e)) (
          file_documents-finds (overlaid (asserted files) (known (lookup subject st.walk_file_ids)))
            (with_document (document_of subject) docs) file doc
            (lookup-overlaid file (asserted files) (known (lookup subject st.walk_file_ids))
              ∙ ap (λ o. first_of o (lookup file (asserted files))) follows
              ∙ live (lookup line st.base_final) (graph.holds line st.store)
                  (lookup file (asserted files)) held
                  (λ k.
                    lookup-asserted file files
                      (graph.file_ids_law subject file st.store files edge asked k)))
            d)
      where
        live :
            (o : Option Op) (b : Bool) (p : Option Op)
            → over o b ≡ true
            → (b ≡ true → p ≡ some Op.assert_op)
            → first_of o p ≡ some Op.assert_op
        live none b p h k = k h
        live (some Op.assert_op) b p h k = refl
        live (some Op.retract_op) b p h k = cc

    pub subject_documents-own :
        (subject doc : Text) (st : WalkState S) (docs out : List Text)
        → document_of subject ≡ some doc
        → subject_documents from_utf8 is_iri graph subject st docs ≡ ok out
        → member doc out ≡ true
    subject_documents-own subject doc st docs out d h =
        let (files, _, e) =
          and_then-ok (stored_files from_utf8 is_iri graph (unbracketed subject) st.store)
            (λ files. ok (found_documents subject st docs files)) out h in
        rw (sym (ok-eq (found_documents subject st docs files) out e)) (
          file_documents-kept (overlaid (asserted files) (known (lookup subject st.walk_file_ids)))
            (with_document (document_of subject) docs) doc
            (ap (λ o. member doc (with_document o docs)) d ∙ with_document-new doc docs))
