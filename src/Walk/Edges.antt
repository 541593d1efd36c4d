-- ===== src/Walk/Edges.antt =====
-- The walk's record of the file edges follows its pending effects through every event and write.
use mathlib.Core.Option.{some-injective}
use git_lex.Base.{
  Result, ◌≡◌, refl, ap, sym, ◌∙◌, inl, inr, Bool, true, false, Option, none, some, ◌>>=◌, List, [],
  ◌∷◌, ok, suc, leb, length, ◌+◌, Bool-cases, All, if◌then◌else◌,
}
use git_lex.Text.{Text, same, same-eq, same_refl}
use git_lex.Sets.{lookup, put, lookup-put}
use git_lex.Fallible.{and_then, and_then-ok, ok-eq}
use git_lex.Walk.{GraphStore}
use git_lex.Walk.Terms.{
  Op, onegraph_event, event_quads, noted, note_file_id, file_id_of, file_id_line,
}
use git_lex.Walk.Engine.{
  WalkState, write_walk_batch, write_batch, written, emit, write_full, record_event, record_events,
}
use git_lex.Walk.Events.{IsStatement}
use git_lex.Walk.Guard.{known}
use git_lex.Walk.Documents.{FollowsEdge}

-- A line that reads as a file edge is the edge's own line.
abbrev pub IsPlain : Text → Type 0
IsPlain q = (term file : Text) → file_id_of q ≡ some (term, file) → q ≡ file_id_line term file

abbrev pub IsEdge : Text → Text → Type 0
IsEdge term file = file_id_of (file_id_line term file) ≡ some (term, file)

abbrev pub Follows : {S : Type 0} → WalkState S → Type 0
Follows st = (term file : Text) → IsEdge term file → FollowsEdge term file st

abbrev Ids : Type 0
Ids = List (Text × List (Text × Op))

none-some : (p : Text × Text) → ◌≡◌ {A = Option (Text × Text)} none (some p) → true ≡ false
none-some p e = cc

edge-apart :
    (term file t f line : Text)
    → IsEdge term file
    → file_id_of line ≡ some (t, f)
    → same (file_id_line term file) line ≡ true
    → (term ≡ t) × (file ≡ f)
edge-apart term file t f line e l s =
    let both : some (term, file) ≡ some (t, f) =
      sym e ∙ ap file_id_of (same-eq (file_id_line term file) line s) ∙ l in
    let pair = some-injective (term, file) (t, f) both in
    (ap (λ (p : Text × Text). p.0) pair, ap (λ (p : Text × Text). p.1) pair)

edge-differs :
    (term file t f line : Text)
    → IsEdge term file
    → file_id_of line ≡ some (t, f)
    → (term ≡ t → file ≡ f → true ≡ false)
    → same (file_id_line term file) line ≡ false
edge-differs term file t f line e l n = elim (Bool-cases (same (file_id_line term file) line)) [
  | inl s ↦ let (a, b) = edge-apart term file t f line e l s in let g = n a b in cc
  | inr s ↦ s
]

noted-follows :
    (ids : Ids) (base : List (Text × Op)) (line : Text) (op : Op) (term file : Text)
    → IsPlain line
    → IsEdge term file
    → lookup file (known (lookup term ids)) ≡ lookup (file_id_line term file) base
    → (o : Option (Text × Text)) → file_id_of line ≡ o
    → lookup file (known (lookup term (noted ids op o))) ≡ (
        if same (file_id_line term file) line
        then some op
        else lookup (file_id_line term file) base)
noted-follows ids base line op term file plain edge old none l =
    elim (Bool-cases (same (file_id_line term file) line)) [
      | inl s ↦
          let g =
            none-some (term, file)
              (sym l ∙ sym (ap file_id_of (same-eq (file_id_line term file) line s)) ∙ edge) in
          cc
      | inr s ↦ rw s old
    ]
noted-follows ids base line op term file plain edge old (some (t, f)) l =
    let inner = put f op (known (lookup t ids)) in
    let right = lookup (file_id_line term file) base in
    elim (Bool-cases (same term t)) [
      | inl a ↦
          let here : lookup term (put t inner ids) ≡ some inner =
            lookup-put term t inner ids ∙ ap (λ b. if b then some inner else lookup term ids) a in
          let read : lookup file (known (lookup term (put t inner ids)))
              ≡ (if same file f then some op else lookup file (known (lookup t ids))) =
            ap (λ o. lookup file (known o)) here ∙ lookup-put file f op (known (lookup t ids)) in
          elim (Bool-cases (same file f)) [
            | inl b ↦
                let whole : same (file_id_line term file) line ≡ true =
                  ap (λ x. same (file_id_line x file) line) (same-eq term t a)
                  ∙ ap (λ x. same (file_id_line t x) line) (same-eq file f b)
                  ∙ ap (same (file_id_line t f)) (plain t f l)
                  ∙ same_refl (file_id_line t f) in
                read
                ∙ ap (λ x. if x then some op else lookup file (known (lookup t ids))) b
                ∙ ap (λ x. if x then some op else right) (sym whole)
            | inr b ↦
                read
                ∙ ap (λ x. if x then some op else lookup file (known (lookup t ids))) b
                ∙ ap (λ x. lookup file (known (lookup x ids))) (sym (same-eq term t a))
                ∙ old
                ∙ ap (λ x. if x then some op else right)
                    (sym (
                      edge-differs term file t f line edge l
                        (λ _ e. sym (ap (same file) (sym e) ∙ same_refl file) ∙ b)))
          ]
      | inr a ↦
          ap (λ o. lookup file (known o))
            (lookup-put term t inner ids ∙ ap (λ b. if b then some inner else lookup term ids) a)
          ∙ old
          ∙ ap (λ x. if x then some op else right)
              (sym (
                edge-differs term file t f line edge l
                  (λ e _. sym (ap (same term) (sym e) ∙ same_refl term) ∙ a)))
    ]

module _ {S E : Type 0} (graph : GraphStore S E) where
  write_batch-Follows : (st after : WalkState S) → write_batch graph st ≡ ok after → Follows after
  unfolding write_batch
  write_batch-Follows st after h =
      let (s, _, e) =
        and_then-ok (write_walk_batch graph st.store st.nq_buffer st.base_final)
          (λ s. ok (written graph st s)) after h in
      rw (sym (ok-eq (written graph st s) after e)) (λ term file edge. refl)

  module _ (digest : Text → Text) where
    write_full-Follows :
        (st after : WalkState S)
        → Follows st
        → write_full graph digest st ≡ ok after
        → Follows after
    write_full-Follows st after follows h =
        let choose : Bool → Result E (WalkState S) = λ b.
          if b
          then and_then (write_batch graph st) (λ st. ok (record st { pending_quads = 0 }))
          else ok st in
        elim (Bool-cases (leb st.batch_quads (st.pending_quads + length st.base_final))) [
          | inl e ↦
              let (mid, wrote, reset) =
                and_then-ok (write_batch graph st) (λ st. ok (record st { pending_quads = 0 }))
                  after (ap choose (sym e) ∙ h) in
              rw (sym (ok-eq (record mid { pending_quads = 0 }) after reset))
                (write_batch-Follows st mid wrote)
          | inr e ↦ rw (sym (ok-eq st after (ap choose (sym e) ∙ h))) follows
        ]

    emit-Follows :
        (line : Text) (op : Op) (quads : List Text) (st : WalkState S)
        → IsPlain line
        → Follows st
        → Follows (emit graph digest line op (some quads) st)
    unfolding note_file_id
    emit-Follows line op quads st plain follows term file edge =
        noted-follows st.walk_file_ids st.base_final line op term file plain edge
          (follows term file edge) (file_id_of line) refl
        ∙ sym (lookup-put (file_id_line term file) line op st.base_final)

    record_event-Follows :
        (line : Text) (op : Op) (sha : Text) (st after : WalkState S)
        → IsStatement line
        → IsPlain line
        → Follows st
        → record_event graph digest line op sha st ≡ ok after
        → Follows after
    unfolding record_event onegraph_event
    record_event-Follows line op sha st after (spo, s) plain follows h =
        let start = record st { events_seen = suc st.events_seen } in
        let quads = event_quads digest op sha st.one_graph spo in
        let made = ap (λ o. o >>= λ spo. some (event_quads digest op sha st.one_graph spo)) s in
        write_full-Follows (emit graph digest line op (some quads) start) after
          (emit-Follows line op quads start plain follows)
          (ap (λ o. write_full graph digest (emit graph digest line op o start)) (sym made) ∙ h)

    pub record_events-Follows :
        (lines : List Text) (op : Op) (sha : Text) (st after : WalkState S)
        → All IsStatement lines
        → All IsPlain lines
        → Follows st
        → record_events graph digest lines op sha st ≡ ok after
        → Follows after
    unfolding record_events
    record_events-Follows [] op sha st after s p follows h = rw (sym (ok-eq st after h)) follows
    record_events-Follows (line ∷ lines) op sha st after (s, ss) (p, ps) follows h =
        let (mid, first, rest) =
          and_then-ok (record_event graph digest line op sha st)
            (λ st. record_events graph digest lines op sha st) after h in
        record_events-Follows lines op sha mid after ss ps
          (record_event-Follows line op sha st mid s p follows first) rest
