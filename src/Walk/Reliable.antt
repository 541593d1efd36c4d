-- ===== src/Walk/Reliable.antt =====
-- The errors of the reads of sidecars and of the writes of a walk.
use git_lex.Base.{
  ℕ, suc, ◌+◌, ◌≡◌, refl, ap, ◌∙◌, Bool, true, false, leb, Option, none, some, List, [], ◌∷◌, ◌++◌,
  Result, ok, err, inl, inr, ◌⊎◌, length, if◌then◌else◌,
}
use git_lex.Text.{Text}
use git_lex.Fallible.{and_then}
use git_lex.Sets.{member, extend}
use git_lex.Walk.{WalkCommit, GraphStore}
use git_lex.Walk.Terms.{Op, onegraph_event}
use git_lex.Walk.Sidecars.{
  SidecarReader, derive_source_document, lines_of, lines_at, resolve_present, resolve_for,
  resolve_sidecar_at,
}
use git_lex.Walk.Engine.{
  WalkState, old_paths, new_paths, resolve_side, resolve_commit_sides, drain, load_buffer,
  write_walk_batch, write_batch, emit, record_event, record_events,
}
use git_lex.Walk.Guard.{blob_triples, untouched_triples}

module _ {E : Type 0} (Failed : E → Type 0) where
  -- A result is a success, or the error of a call.
  abbrev pub Total : {A : Type 0} → Result E A → Type 0
  Total {A = A} r = ((a : A) × (r ≡ ok a)) ⊎ ((e : E) × (r ≡ err e) × Failed e)

  pub and_then-Total :
      {A B : Type 0}
      → (r : Result E A) (f : A → Result E B) → Total r
      → ((a : A) → Total (f a))
      → Total (and_then r f)
  and_then-Total r f (inr (e, h, c)) g = inr (e, ap (λ r. and_then r f) h, c)
  and_then-Total r f (inl (a, e)) g = elim (g a) [
    | inl (b, h) ↦ inl (b, ap (λ r. and_then r f) e ∙ h)
    | inr (x, h, c) ↦ inr (x, ap (λ r. and_then r f) e ∙ h, c)
  ]

  -- The calls of the store, of git and of the reader of lines.
  pub record Answers {S O : Type 0} (graph : GraphStore S E) (reader : SidecarReader O E)
      (resolve_lines : List Text → Text → Text → Result E (List Text)) : Type 0 where
    pub removes : (l : Text) (s : S) → Total (graph.remove_line l s)
    pub loads : (ls : List Text) (s : S) → Total (graph.load_lines ls s)
    pub asks : (term : Text) (s : S) → Total (graph.file_ids term s)
    pub lists : (n : ℕ) (s : S) → Total (graph.some_quads n s)
    pub clears : (qs : List Text) (s : S) → Total (graph.remove_quads qs s)
    pub finds : (sha path : Text) → Total (reader.blob_at sha path)
    pub reads : (oid : O) → Total (reader.blob_lines oid)
    pub resolves : (ls : List Text) (path doc : Text) → Total (resolve_lines ls path doc)

  module _ {S O : Type 0} (graph : GraphStore S E) (reader : SidecarReader O E)
      (resolve_lines : List Text → Text → Text → Result E (List Text))
      (fine : Answers graph reader resolve_lines) where
    pub drain-Total :
        (m : List (Text × Op)) (buffer : List Text) (s : S) → Total (drain graph m buffer s)
    unfolding drain
    drain-Total [] buffer s = inl (_, refl)
    drain-Total ((line, Op.assert_op) ∷ m) buffer s = drain-Total m (buffer ++ line ∷ []) s
    drain-Total ((line, Op.retract_op) ∷ m) buffer s =
        and_then-Total (graph.remove_line line s) _ (fine.removes line s)
          (λ s. drain-Total m buffer s)

    pub load_buffer-Total : (p : List Text × S) → Total (load_buffer graph p)
    load_buffer-Total ([], s) = inl (s, refl)
    load_buffer-Total (l ∷ ls, s) = fine.loads (l ∷ ls) s

    pub write_batch-Total : (st : WalkState S) → Total (write_batch graph st)
    unfolding write_batch write_walk_batch
    write_batch-Total st =
        and_then-Total (write_walk_batch graph st.store st.nq_buffer st.base_final) _
          (and_then-Total (drain graph st.base_final st.nq_buffer st.store) _
            (drain-Total st.base_final st.nq_buffer st.store) load_buffer-Total)
          (λ s. inl (_, refl))

    pub if-Total :
        {A : Type 0}
        → (b : Bool) (r t : Result E A) → Total r
        → Total t
        → Total (if b then r else t)
    if-Total true r t x y = x
    if-Total false r t x y = y

    module _ (digest : Text → Text) where
      pub record_event-Total :
          (line : Text) (op : Op) (sha : Text) (st : WalkState S)
          → Total (record_event graph digest line op sha st)
      unfolding record_event
      record_event-Total line op sha st =
          let next =
            emit graph digest line op (onegraph_event digest line op sha st.one_graph)
              (record st { events_seen = suc st.events_seen }) in
          if-Total (leb next.batch_quads (next.pending_quads + length next.base_final)) _ _
            (and_then-Total (write_batch graph next) _ (write_batch-Total next)
              (λ st. inl (_, refl)))
            (inl (_, refl))

      pub record_events-Total :
          (lines : List Text) (op : Op) (sha : Text) (st : WalkState S)
          → Total (record_events graph digest lines op sha st)
      unfolding record_events
      record_events-Total [] op sha st = inl (st, refl)
      record_events-Total (line ∷ lines) op sha st =
          and_then-Total (record_event graph digest line op sha st) _
            (record_event-Total line op sha st) (λ st. record_events-Total lines op sha st)

    pub choice-Total :
        {A : Type 0}
        → (b : Bool) (r t : Result E A) → Total r
        → Total t
        → Total (elim b [ true ↦ r | false ↦ t ])
    choice-Total true r t x y = x
    choice-Total false r t x y = y

    pub resolve_present-Total :
        (path doc : Text) (ls : List Text)
        → Total (resolve_present reader resolve_lines path doc ls)
    resolve_present-Total path doc [] = inl ([], refl)
    resolve_present-Total path doc (l ∷ ls) = fine.resolves (l ∷ ls) path doc

    pub lines_of-Total : (o : Option O) → Total (lines_of reader o)
    lines_of-Total none = inl ([], refl)
    lines_of-Total (some oid) = fine.reads oid

    pub resolve_for-Total :
        (sha path : Text) (o : Option Text) → Total (resolve_for reader resolve_lines sha path o)
    unfolding lines_at
    resolve_for-Total sha path none = inl ([], refl)
    resolve_for-Total sha path (some doc) =
        and_then-Total (lines_at reader sha path) _
          (and_then-Total (reader.blob_at sha path) _ (fine.finds sha path) lines_of-Total)
          (resolve_present-Total path doc)

    abbrev pub resolve : Text → Text → Result E (List Text)
    resolve = resolve_sidecar_at reader resolve_lines

    pub resolve-Total : (sha path : Text) → Total (resolve sha path)
    unfolding resolve_sidecar_at
    resolve-Total sha path = resolve_for-Total sha path (derive_source_document path)

    pub resolve_side-Total :
        (sha : Text) (paths triples : List Text) → Total (resolve_side resolve sha paths triples)
    unfolding resolve_side
    resolve_side-Total sha [] triples = inl (triples, refl)
    resolve_side-Total sha (path ∷ paths) triples =
        and_then-Total (resolve sha path) _ (resolve-Total sha path)
          (λ lines. resolve_side-Total sha paths (extend triples lines))

    pub resolve_commit_sides-Total : (c : WalkCommit) → Total (resolve_commit_sides resolve c)
    unfolding resolve_commit_sides
    resolve_commit_sides-Total c =
        and_then-Total (resolve_side resolve c.parent_sha (old_paths c) []) _
          (resolve_side-Total c.parent_sha (old_paths c) [])
          (λ old_triples.
            and_then-Total (resolve_side resolve c.sha (new_paths c) []) _
              (resolve_side-Total c.sha (new_paths c) []) (λ new_triples. inl (_, refl)))

    pub blob_triples-Total :
        (path doc : Text) (o : Option O) → Total (blob_triples reader resolve_lines path doc o)
    blob_triples-Total path doc none = inl ([], refl)
    blob_triples-Total path doc (some oid) =
        and_then-Total (reader.blob_lines oid) _ (fine.reads oid) (resolve_present-Total path doc)

    pub untouched_triples-Total :
        (touched_any : List Text) (sha path doc : Text)
        → Total (untouched_triples reader resolve_lines touched_any sha path doc)
    untouched_triples-Total touched_any sha path doc =
        if-Total (member path touched_any) _ _ (inl ([], refl)) (
          and_then-Total (reader.blob_at sha path) _ (fine.finds sha path)
            (blob_triples-Total path doc))
