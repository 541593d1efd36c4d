-- ===== src/Walk/Events.antt =====
-- What recorded events do to the statements that hold, whenever the batches are written.
use git_lex.Base.{
  suc, ◌+◌, ◌≡◌, refl, ap, sym, ◌∙◌, inl, inr, Bool, true, false, ◌||◌, Option, some, ◌>>=◌, List,
  [], ◌∷◌, ok, leb, length, if◌then◌else◌, Bool-cases, All,
}
use git_lex.Text.{Text, same}
use git_lex.Sets.{member, lookup, lookup-put, put-NodupKeys, member-append}
use git_lex.Fallible.{and_then, and_then-ok, ok-eq}
use git_lex.Walk.{GraphStore}
use git_lex.Walk.Terms.{Op, statement_of, onegraph_event, event_quads}
use git_lex.Walk.Engine.{WalkState, write_batch, emit, write_full, record_event, record_events}
use git_lex.Walk.Batch.{
  IsFact, over, is_assert, event_quads-NoFacts, view, IsTidy, write_batch-view,
}

-- The walk can read the line as a statement.
abbrev pub IsStatement : Text → Type 0
IsStatement line = (spo : Text × Text × Text) × (statement_of line ≡ some spo)

over_op : (op : Op) (h : Bool) → over (some op) h ≡ is_assert op
over_op Op.assert_op h = refl
over_op Op.retract_op h = refl

over_if :
    (b : Bool) (op : Op) (o : Option Op) (h : Bool)
    → over (if b then some op else o) h ≡ (if b then is_assert op else over o h)
over_if true op o h = over_op op h
over_if false op o h = refl

later_wins :
    (a b p v w x : Bool)
    → w ≡ (if a then p else v)
    → x ≡ (if b then p else w)
    → x ≡ (if a || b then p else v)
later_wins true true p v w x e f = f
later_wins true false p v w x e f = f ∙ e
later_wins false true p v w x e f = f
later_wins false false p v w x e f = f ∙ e

module _ {S E : Type 0} (graph : GraphStore S E) (digest : Text → Text) where
  write_full-view :
      (st after : WalkState S) (q : Text)
      → IsTidy graph st
      → IsFact q
      → write_full graph digest st ≡ ok after
      → (view graph q after ≡ view graph q st) × IsTidy graph after
  write_full-view st after q tidy f h =
      elim (Bool-cases (leb st.batch_quads (st.pending_quads + length st.base_final))) [
        | inl e ↦
            let (mid, wrote, reset) =
              and_then-ok (write_batch graph st) (λ st. ok (record st { pending_quads = 0 })) after
                (ap
                    (λ b.
                      if b
                      then and_then (write_batch graph st)
                          (λ st. ok (record st { pending_quads = 0 }))
                      else ok st)
                    (sym e)
                  ∙ h) in
            rw (sym (ok-eq (record mid { pending_quads = 0 }) after reset))
              (write_batch-view graph st mid q tidy f wrote)
        | inr e ↦
            let same_state = ok-eq st after (
              ap
                (λ b.
                  if b
                  then and_then (write_batch graph st) (λ st. ok (record st { pending_quads = 0 }))
                  else ok st)
                (sym e)
              ∙ h) in
            rw (sym same_state) (refl, tidy)
      ]

  emit-view :
      (line : Text) (op : Op) (sha : Text) (spo : Text × Text × Text) (st : WalkState S) (q : Text)
      → IsTidy graph st
      → let after =
          emit graph digest line op (some (event_quads digest op sha st.one_graph spo)) st in
        (view graph q after ≡ (if same q line then is_assert op else view graph q st))
        × IsTidy graph after
  emit-view line op sha spo st q (d, n) = (
    ap (λ o. over o (graph.holds q st.store)) (lookup-put q line op st.base_final)
        ∙ over_if (same q line) op (lookup q st.base_final) (graph.holds q st.store),
    (
      put-NodupKeys line op st.base_final d,
      λ q f.
          member-append q st.nq_buffer (event_quads digest op sha st.one_graph spo)
          ∙ ap (λ b. b || member q (event_quads digest op sha st.one_graph spo)) (n q f)
          ∙ event_quads-NoFacts digest op sha st.one_graph spo q f,
    ),
  )

  pub record_event-view :
      (line : Text) (op : Op) (sha : Text) (st after : WalkState S) (q : Text)
      → IsStatement line
      → IsTidy graph st
      → IsFact q
      → record_event graph digest line op sha st ≡ ok after
      → (view graph q after ≡ (if same q line then is_assert op else view graph q st))
        × IsTidy graph after
  unfolding record_event onegraph_event
  record_event-view line op sha st after q (spo, s) tidy f h =
      let start = record st { events_seen = suc st.events_seen } in
      let made = ap (λ o. o >>= λ spo. some (event_quads digest op sha st.one_graph spo)) s in
      let full : write_full graph digest
            (emit graph digest line op (some (event_quads digest op sha st.one_graph spo)) start)
          ≡ ok after =
        ap (λ o. write_full graph digest (emit graph digest line op o start)) (sym made) ∙ h in
      let (seen, tidy) = emit-view line op sha spo start q tidy in
      let (kept, tidy) =
        write_full-view
          (emit graph digest line op (some (event_quads digest op sha st.one_graph spo)) start)
          after q tidy f full in
      (kept ∙ seen, tidy)

  pub record_events-view :
      (lines : List Text) (op : Op) (sha : Text) (st after : WalkState S) (q : Text)
      → All IsStatement lines
      → IsTidy graph st
      → IsFact q
      → record_events graph digest lines op sha st ≡ ok after
      → (view graph q after ≡ (if member q lines then is_assert op else view graph q st))
        × IsTidy graph after
  unfolding record_events
  record_events-view [] op sha st after q s tidy f h = rw (sym (ok-eq st after h)) (refl, tidy)
  record_events-view (line ∷ lines) op sha st after q (here, s) tidy f h =
      let (mid, first, rest) =
        and_then-ok (record_event graph digest line op sha st)
          (λ st. record_events graph digest lines op sha st) after h in
      let (seen, tidy) = record_event-view line op sha st mid q here tidy f first in
      let (last, tidy) = record_events-view lines op sha mid after q s tidy f rest in
      (later_wins (same q line) (member q lines) (is_assert op) _ _ _ seen last, tidy)
