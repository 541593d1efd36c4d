-- ===== src/Walk/Answered.antt =====
-- The errors of the retract guard and of the loop over the commits.
use git_lex.Base.{
  refl, Bool, Option, List, [], ◌∷◌, ◌++◌, Result, ok, length, Option-cases, inl, inr,
}
use git_lex.Text.{Text}
use git_lex.Sets.{member, extend, difference}
use git_lex.Walk.{WalkCommit, GraphStore}
use git_lex.Walk.Terms.{Op, take_term, unbracketed}
use git_lex.Walk.Sidecars.{SidecarReader, sidecar_path}
use git_lex.Walk.Engine.{
  WalkState, CommitSides, resolve_commit_sides, record_events, still_live, commit_events,
  walk_commits,
}
use git_lex.Walk.Guard.{
  mark_live, untouched_triples, scan, places, stored_files, subject_documents, guard_documents,
  retracts_still_live,
}
use git_lex.Walk.Reliable.{
  Answers, Total, and_then-Total, resolve, if-Total, record_events-Total, choice-Total,
  resolve_commit_sides-Total, untouched_triples-Total,
}

module _ {S O E : Type 0} (Failed : E → Type 0) (graph : GraphStore S E)
    (reader : SidecarReader O E) (resolve_lines : List Text → Text → Text → Result E (List Text))
    (fine : Answers Failed graph reader resolve_lines) where
  scan-Total :
      (retracts touched_any : List Text) (sha : Text) (ps : List (Text × Text)) (live : List Text)
      → Total Failed (scan reader resolve_lines retracts touched_any sha ps live)
  unfolding scan
  scan-Total retracts touched_any sha [] live = inl (live, refl)
  scan-Total retracts touched_any sha ((doc, suffix) ∷ ps) live =
      and_then-Total Failed
        (untouched_triples reader resolve_lines touched_any sha (sidecar_path doc suffix) doc) _
        ((untouched_triples-Total Failed graph reader resolve_lines fine) touched_any sha
          (sidecar_path doc suffix) doc)
        (λ found.
          let marks = mark_live (length retracts) retracts found live in
          (choice-Total Failed graph reader resolve_lines fine) marks.1 (ok marks.0) _
            (inl (_, refl)) (scan-Total retracts touched_any sha ps marks.0))

  module _ (from_utf8 : Text → Option Text) (is_iri : Text → Bool) where
    subject_documents-Total :
        (subject : Text) (st : WalkState S) (docs : List Text)
        → Total Failed (subject_documents from_utf8 is_iri graph subject st docs)
    subject_documents-Total subject st docs =
        and_then-Total Failed (stored_files from_utf8 is_iri graph (unbracketed subject) st.store) _
          ((if-Total Failed graph reader resolve_lines fine) (is_iri (unbracketed subject)) _ _
            (fine.asks (unbracketed subject) st.store) (inl ([], refl)))
          (λ files. inl (_, refl))

    guard_documents-Total :
        (cands : List Text) (st : WalkState S) (seen docs : List Text)
        → Total Failed (guard_documents from_utf8 is_iri graph cands st seen docs)
    unfolding guard_documents
    guard_documents-Total [] st seen docs = inl (docs, refl)
    guard_documents-Total (cand ∷ cands) st seen docs = elim (Option-cases (take_term cand)) [
      | inl e ↦ rw (e, guard_documents) (guard_documents-Total cands st seen docs)
      | inr ((subject, rest), e) ↦
          rw (e, guard_documents)
            ((choice-Total Failed graph reader resolve_lines fine) (member subject seen) _ _
              (guard_documents-Total cands st seen docs)
              (and_then-Total Failed (subject_documents from_utf8 is_iri graph subject st docs) _
                (subject_documents-Total subject st docs)
                (λ docs. guard_documents-Total cands st (seen ++ subject ∷ []) docs)))
    ]

    abbrev pub guard : List Text → List Text → WalkCommit → WalkState S → Result E (List Text)
    guard = retracts_still_live from_utf8 is_iri graph reader resolve_lines

    guard-Total :
        (retracts touched_any : List Text) (c : WalkCommit) (st : WalkState S)
        → Total Failed (guard retracts touched_any c st)
    unfolding retracts_still_live
    guard-Total retracts touched_any c st =
        and_then-Total Failed (guard_documents from_utf8 is_iri graph retracts st [] []) _
          (guard_documents-Total retracts st [] [])
          (λ docs. scan-Total retracts touched_any c.sha (places docs) [])

    module _ (digest : Text → Text) where
      still_live-Total :
          (retracts touched_any : List Text) (c : WalkCommit) (st : WalkState S)
          → Total Failed (
              still_live graph digest
                (resolve Failed graph reader resolve_lines fine)
                guard
                retracts
                touched_any
                c
                st)
      still_live-Total [] touched_any c st = inl ([], refl)
      still_live-Total (l ∷ ls) touched_any c st = guard-Total (l ∷ ls) touched_any c st

      commit_events-Total :
          (c : WalkCommit) (st : WalkState S) (sides : CommitSides)
          → Total Failed (
              commit_events graph digest
                (resolve Failed graph reader resolve_lines fine)
                guard
                c
                st
                sides)
      commit_events-Total c st sides =
          let retracts = difference sides.old_triples sides.new_triples in
          let touched_any = extend sides.old_side sides.new_side in
          and_then-Total Failed
            (still_live graph digest (resolve Failed graph reader resolve_lines fine) guard retracts
              touched_any c st)
            _ (still_live-Total retracts touched_any c st)
            (λ live.
              and_then-Total Failed
                (record_events graph digest (difference retracts live) Op.retract_op c.sha st) _
                ((record_events-Total Failed graph reader resolve_lines fine) digest
                  (difference retracts live) Op.retract_op c.sha st)
                (λ st.
                  (record_events-Total Failed graph reader resolve_lines fine) digest
                    (difference sides.new_triples sides.old_triples) Op.assert_op c.sha st))

      pub walk_commits-Total :
          (cs : List WalkCommit) (st : WalkState S)
          → Total Failed (
              walk_commits graph digest
                (resolve Failed graph reader resolve_lines fine)
                guard
                cs
                st)
      unfolding walk_commits
      walk_commits-Total [] st = inl (st, refl)
      walk_commits-Total (c ∷ cs) st =
          and_then-Total Failed
            (resolve_commit_sides (resolve Failed graph reader resolve_lines fine) c) _
            ((resolve_commit_sides-Total Failed graph reader resolve_lines fine) c)
            (λ sides.
              and_then-Total Failed
                (commit_events graph digest (resolve Failed graph reader resolve_lines fine) guard c
                  st sides)
                _ (commit_events-Total c st sides) (λ st. walk_commits-Total cs st))
