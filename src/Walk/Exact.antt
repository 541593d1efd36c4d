-- ===== src/Walk/Exact.antt =====
-- The answer of the retract guard, against what the untouched sidecars state.
use git_lex.Base.{
  ◌≡◌, ◌↔◌, ◌⊎◌, refl, ap, sym, ◌∙◌, inl, inr, Bool, true, false, ◌||◌, Option, some, List, [],
  Result, ok,
}
use git_lex.Text.{Text}
use git_lex.Sets.{member, extend, member-extend}
use git_lex.Fallible.{and_then-ok}
use git_lex.Walk.{WalkCommit, GraphStore}
use git_lex.Walk.Terms.{take_term, unbracketed, file_iri_document, file_id_of, file_id_line}
use git_lex.Walk.Sidecars.{SidecarReader, derive_source_document, resolve_sidecar_at}
use git_lex.Walk.Names.{derive_source_document-eq_some}
use git_lex.Walk.World.{Says, Anywhere, Untouched, IsDiff}
use git_lex.Walk.Engine.{WalkState, old_paths, new_paths}
use git_lex.Walk.Batch.{IsFact, view}
use git_lex.Walk.Events.{IsStatement}
use git_lex.Walk.Guard.{subject_documents, guard_documents, scan, places, retracts_still_live}
use git_lex.Walk.Found.{guard_documents-finds}
use git_lex.Walk.Documents.{FollowsEdge, subject_documents-finds, subject_documents-own}
use git_lex.Walk.Places.{Outside}
use git_lex.Walk.Scanned.{scan-places}

module _ (from_utf8 : Text → Option Text) (is_iri : Text → Bool) where
  -- What ties a statement to its document: its subject is the document's file, or a thing whose
  -- file edge stands beside it.
  abbrev pub IsAnchored : Text → List Text → Text → Type 0
  IsAnchored doc lines subject =
      (file_iri_document from_utf8 (unbracketed subject) ≡ some doc)
      ⊎ ((file : Text) × (member (file_id_line subject file) lines ≡ true)
          × (file_id_of (file_id_line subject file) ≡ some (subject, file))
          × (is_iri (unbracketed subject) ≡ true)
          × (file_iri_document from_utf8 (unbracketed file) ≡ some doc))

  -- What holds of a line that a document's sidecar states.
  pub record IsEmitted (doc : Text) (lines : List Text) (q : Text) : Type 0 where
    pub statement : IsStatement q
    pub fact : IsFact q
    pub plain : (term file : Text) → file_id_of q ≡ some (term, file) → q ≡ file_id_line term file
    pub subject : Text
    pub rest : Text
    pub starts : take_term q ≡ some (subject, rest)
    pub anchored : IsAnchored doc lines subject

  -- Every line that a sidecar states at some commit is a plain statement of the document that the
  -- sidecar's name gives.
  abbrev pub IsAnchoredHistory :
      {O E : Type 0} → SidecarReader O E → (List Text → Text → Text → Result E (List Text)) → Type 0
  IsAnchoredHistory reader resolve_lines =
      (sha path q : Text) (lines : List Text)
      → resolve_sidecar_at reader resolve_lines sha path ≡ ok lines
      → member q lines ≡ true
      → (doc : Text) × (derive_source_document path ≡ some doc) × IsEmitted doc lines q

  module _ {S O E : Type 0} (graph : GraphStore S E) (reader : SidecarReader O E)
      (resolve_lines : List Text → Text → Text → Result E (List Text))
      (anchored : IsAnchoredHistory reader resolve_lines) where
    abbrev resolve : Text → Text → Result E (List Text)
    resolve = resolve_sidecar_at reader resolve_lines

    -- What a sidecar states was emitted for the document in the sidecar's name.
    pub resolve-IsEmitted :
        (sha path q : Text) (lines : List Text)
        → resolve sha path ≡ ok lines
        → member q lines ≡ true
        → (doc : Text) × (derive_source_document path ≡ some doc) × IsEmitted doc lines q
    resolve-IsEmitted sha path q lines e m = anchored sha path q lines e m

    abbrev pub touched_by : WalkCommit → List Text
    touched_by c = extend (old_paths c) (new_paths c)

    neither : (a b c : Bool) → c ≡ (a || b) → c ≡ false → (a ≡ false) × (b ≡ false)
    neither true b c e h = let g : true ≡ false = sym e ∙ h in cc
    neither false b c e h = (refl, sym e ∙ h)

    -- The subject's turn reads the document that an untouched sidecar states it for.
    finds :
        (c : WalkCommit) (st : WalkState S)
        → IsDiff resolve c
        → ((q : Text) → IsFact q → Says resolve Anywhere c.parent_sha q → view graph q st ≡ true)
        → ((term file : Text)
            → file_id_of (file_id_line term file) ≡ some (term, file)
            → FollowsEdge term file st)
        → (path doc : Text) (lines : List Text) (subject : Text) → Untouched c path
        → resolve c.sha path ≡ ok lines
        → IsAnchored doc lines subject
        → (docs out : List Text) → subject_documents from_utf8 is_iri graph subject st docs ≡ ok out
        → member doc out ≡ true
    finds c st d held follows path doc lines subject (a, b) e (inl own) docs out h =
        subject_documents-own from_utf8 is_iri graph subject doc st docs out own h
    finds c st d held follows path doc lines subject (a, b) e (inr (file, m, edge, iri, names)) docs
          out h =
        let line = file_id_line subject file in
        let (_, _, emitted) = resolve-IsEmitted c.sha path line lines e m in
        subject_documents-finds from_utf8 is_iri graph subject file doc st docs out iri edge
          (follows subject file edge)
          (held line emitted.fact (path, lines, tt, sym (d.kept path a b) ∙ e, m)) names h

    -- The hypotheses that the walk keeps: what the base says holds, and the file edges are followed.
    pub retracts_still_live-exact :
        (c : WalkCommit) (st : WalkState S) (retracts live : List Text) (z : Text)
        → IsDiff resolve c
        → ((q : Text) → IsFact q → Says resolve Anywhere c.parent_sha q → view graph q st ≡ true)
        → ((term file : Text)
            → file_id_of (file_id_line term file) ≡ some (term, file)
            → FollowsEdge term file st)
        → retracts_still_live from_utf8 is_iri graph reader resolve_lines retracts
            (touched_by c)
            c
            st
          ≡ ok live
        → member z retracts ≡ true
        → (member z live ≡ true) ↔ Says resolve (Untouched c) c.sha z
    unfolding retracts_still_live
    retracts_still_live-exact c st retracts live z d held follows h m =
        let (docs, listed, scanned) =
          and_then-ok (guard_documents from_utf8 is_iri graph retracts st [] [])
            (λ docs. scan reader resolve_lines retracts (touched_by c) c.sha (places docs) []) live
            h in
        let (sound, complete) =
          scan-places reader resolve_lines retracts (touched_by c) docs c.sha live z scanned in
        (
          λ k.
              let (path, lines, o, e, n) = sound k in
              (
                path,
                lines,
                neither (member path (old_paths c)) (member path (new_paths c)) _
                    (member-extend path (old_paths c) (new_paths c)) o,
                e,
                n,
              ),
          λ (path, lines, (a, b), e, n).
              let (doc, named, emitted) = resolve-IsEmitted c.sha path z lines e n in
              let (suffix, s, eq) = derive_source_document-eq_some path doc named in
              let untouched : Outside (touched_by c) path =
                member-extend path (old_paths c) (new_paths c)
                ∙ ap (λ x. x || member path (new_paths c)) a
                ∙ b in
              complete doc suffix lines
                (guard_documents-finds from_utf8 is_iri graph emitted.subject doc z emitted.rest
                  retracts st [] [] docs
                  (finds c st d held follows path doc lines emitted.subject (a, b) e
                    emitted.anchored)
                  emitted.starts m (λ g. cc) listed)
                s (ap (λ p. member p (touched_by c)) (sym eq) ∙ untouched)
                (ap (resolve c.sha) (sym eq) ∙ e) n m,
        )
