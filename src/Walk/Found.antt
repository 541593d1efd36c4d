-- ===== src/Walk/Found.antt =====
-- The documents that the retract guard reads for its candidates.
use git_lex.Base.{
  ◌≡◌, ap, sym, ◌∙◌, inl, inr, Bool, true, false, ◌||◌, Option, some, List, [], ◌∷◌, ◌++◌, ok,
  Bool-cases, Option-cases,
}
use git_lex.Text.{Text, same, same-eq}
use git_lex.Sets.{member, member-append, or_false}
use git_lex.Sets.Counting.{Within}
use git_lex.Fallible.{and_then-ok, ok-eq}
use git_lex.Walk.{GraphStore}
use git_lex.Walk.Terms.{take_term}
use git_lex.Walk.Engine.{WalkState}
use git_lex.Walk.Guard.{subject_documents, guard_documents}
use git_lex.Walk.Documents.{subject_documents-kept}

module _ (from_utf8 : Text → Option Text) (is_iri : Text → Bool) where
  module _ {S E : Type 0} (graph : GraphStore S E) where
    guard_documents-kept :
        (cands : List Text) (st : WalkState S) (seen docs out : List Text)
        → guard_documents from_utf8 is_iri graph cands st seen docs ≡ ok out
        → Within docs out
    unfolding guard_documents
    guard_documents-kept [] st seen docs out h z m = rw (sym (ok-eq docs out h)) m
    guard_documents-kept (cand ∷ cands) st seen docs out h z m =
        elim (Option-cases (take_term cand)) [
          | inl e ↦ guard_documents-kept cands st seen docs out (rw (e, guard_documents) at h) z m
          | inr ((subject, rest), e) ↦ elim (Bool-cases (member subject seen)) [
            | inl f ↦
                guard_documents-kept cands st seen docs out (rw (e, f, guard_documents) at h) z m
            | inr f ↦
                let (more, found, later) =
                  and_then-ok (subject_documents from_utf8 is_iri graph subject st docs)
                    (λ docs.
                      guard_documents from_utf8 is_iri graph cands st (seen ++ subject ∷ []) docs)
                    out (rw (e, f, guard_documents) at h) in
                guard_documents-kept cands st (seen ++ subject ∷ []) more out later z
                  (subject_documents-kept from_utf8 is_iri graph subject st docs more found z m)
          ]
        ]

    member-snoc :
        (x y : Text) (s : List Text) → same x y ≡ false → member x (s ++ y ∷ []) ≡ member x s
    member-snoc x y s n =
        member-append x s (y ∷ []) ∙ ap (λ b. member x s || (b || false)) n ∙ or_false (member x s)

    -- When the subject's turn always reads the document, the document is read.
    pub guard_documents-finds :
        (subject doc cand rest : Text) (cands : List Text) (st : WalkState S)
        (seen docs out : List Text)
        → ((docs out : List Text)
            → subject_documents from_utf8 is_iri graph subject st docs ≡ ok out
            → member doc out ≡ true)
        → take_term cand ≡ some (subject, rest)
        → member cand cands ≡ true
        → (member subject seen ≡ true → member doc docs ≡ true)
        → guard_documents from_utf8 is_iri graph cands st seen docs ≡ ok out
        → member doc out ≡ true
    unfolding guard_documents
    guard_documents-finds subject doc cand rest [] st seen docs out finds t m old h = cc
    guard_documents-finds subject doc cand rest (first ∷ cands) st seen docs out finds t m old h =
        elim (Bool-cases (same cand first)) [
          | inl here ↦
              let e : take_term first ≡ some (subject, rest) =
                ap take_term (sym (same-eq cand first here)) ∙ t in
              elim (Bool-cases (member subject seen)) [
                | inl f ↦
                    guard_documents-kept cands st seen docs out (rw (e, f, guard_documents) at h)
                      doc (old f)
                | inr f ↦
                    let (more, found, later) =
                      and_then-ok (subject_documents from_utf8 is_iri graph subject st docs)
                        (λ docs.
                          guard_documents from_utf8 is_iri graph cands st (seen ++ subject ∷ [])
                            docs)
                        out (rw (e, f, guard_documents) at h) in
                    guard_documents-kept cands st (seen ++ subject ∷ []) more out later doc
                      (finds docs more found)
              ]
          | inr past ↦
              let m = ap (λ b. b || member cand cands) (sym past) ∙ m in
              elim (Option-cases (take_term first)) [
                | inl e ↦
                    guard_documents-finds subject doc cand rest cands st seen docs out finds t m old
                      (rw (e, guard_documents) at h)
                | inr ((other, _), e) ↦ elim (Bool-cases (member other seen)) [
                  | inl f ↦
                      guard_documents-finds subject doc cand rest cands st seen docs out finds t m
                        old (rw (e, f, guard_documents) at h)
                  | inr f ↦
                      let (more, found, later) =
                        and_then-ok (subject_documents from_utf8 is_iri graph other st docs)
                          (λ docs.
                            guard_documents from_utf8 is_iri graph cands st (seen ++ other ∷ [])
                              docs)
                          out (rw (e, f, guard_documents) at h) in
                      guard_documents-finds subject doc cand rest cands st (seen ++ other ∷ []) more
                        out finds t m
                        (λ k. elim (Bool-cases (same subject other)) [
                          | inl g ↦ finds docs more (
                              ap (λ s. subject_documents from_utf8 is_iri graph s st docs)
                                (same-eq subject other g)
                              ∙ found)
                          | inr g ↦
                              subject_documents-kept from_utf8 is_iri graph other st docs more found
                                doc (old (sym (member-snoc subject other seen g) ∙ k))
                        ])
                        later
                ]
              ]
        ]
