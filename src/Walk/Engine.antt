-- ===== src/Walk/Engine.antt =====
-- `WalkState`, `write_walk_batch`, `resolve_commit_sides` and the loop over the commits. Sets of
-- statements are walked in the order of insertion, where the program's order is arbitrary.
use git_lex.Base.{
  ℕ, suc, ◌+◌, Bool, Option, none, some, List, [], ◌∷◌, ◌++◌, map, Result, ok, leb, length,
  if◌then◌else◌,
}
use git_lex.Text.{Text}
use git_lex.Sets.{insert_new, extend, difference, put}
use git_lex.Fallible.{and_then}
use git_lex.Walk.{WalkCommit, GraphStore}
use git_lex.Walk.Terms.{Op, take_term, onegraph_event, note_file_id}

pub record WalkState (S : Type 0) : Type 0 where
  pub store : S
  pub one_graph : Text
  pub clear_first : Bool
  pub batch_quads : ℕ
  pub nq_buffer : List Text
  pub pending_quads : ℕ
  pub base_final : List (Text × Op)
  pub walk_file_ids : List (Text × List (Text × Op))
  pub changed_subjects : List Text
  pub changed_statements : List Text
  pub events_seen : ℕ
  pub events_emitted : ℕ

pub record CommitSides : Type 0 where
  pub old_side : List Text
  pub new_side : List Text
  pub old_triples : List Text
  pub new_triples : List Text

abbrev pub keys : List (Text × Op) → List Text
keys m = map (λ (k, _). k) m

abbrev subject_of : Option (Text × Text) → List Text → List Text
subject_of none s = s
subject_of (some (subject, _)) s = insert_new subject s

abbrev add_subjects : List Text → List Text → List Text
add_subjects s [] = s
add_subjects s (line ∷ lines) = add_subjects (subject_of (take_term line) s) lines

abbrev pub old_paths : WalkCommit → List Text
old_paths c = extend (extend [] c.touched) (map (λ (old_p, _). old_p) c.renames)

abbrev pub new_paths : WalkCommit → List Text
new_paths c = extend (extend [] c.touched) (map (λ (_, new_p). new_p) c.renames)

-- `resolve` is `resolve_sidecar_at`: what a sidecar says at a commit, nothing when it is absent.
module _ {E : Type 0} (resolve : Text → Text → Result E (List Text)) where
  unfoldable pub resolve_side : Text → List Text → List Text → Result E (List Text)
  resolve_side sha [] triples = ok triples
  resolve_side sha (path ∷ paths) triples =
      and_then (resolve sha path) (λ lines. resolve_side sha paths (extend triples lines))

  unfoldable pub resolve_commit_sides : WalkCommit → Result E CommitSides
  unfolding resolve_side
  resolve_commit_sides c = and_then (resolve_side c.parent_sha (old_paths c) []) (λ old_triples.
      and_then (resolve_side c.sha (new_paths c) []) (λ new_triples. ok (record {
        old_side = old_paths c;
        new_side = new_paths c;
        old_triples = old_triples;
        new_triples = new_triples;
      })))

module _ {S E : Type 0} (graph : GraphStore S E) where
  -- The net effects, oldest first: an asserted line joins the buffer, a retracted one is removed.
  unfoldable pub drain : List (Text × Op) → List Text → S → Result E (List Text × S)
  drain [] buffer s = ok (buffer, s)
  drain ((line, Op.assert_op) ∷ m) buffer s = drain m (buffer ++ line ∷ []) s
  drain ((line, Op.retract_op) ∷ m) buffer s =
      and_then (graph.remove_line line s) (λ s. drain m buffer s)

  abbrev pub load_buffer : List Text × S → Result E S
  load_buffer ([], s) = ok s
  load_buffer (l ∷ ls, s) = graph.load_lines (l ∷ ls) s

  -- Both buffers come back empty, which is the caller's record.
  unfoldable pub write_walk_batch : S → List Text → List (Text × Op) → Result E S
  unfolding drain
  write_walk_batch s buffer base_final = and_then (drain base_final buffer s) load_buffer

  abbrev pub list_changes : WalkState S → WalkState S
  list_changes st = if st.clear_first then st else record st {
    changed_subjects = add_subjects st.changed_subjects (keys st.base_final);
    changed_statements = extend st.changed_statements (keys st.base_final);
  }

  abbrev pub written : WalkState S → S → WalkState S
  written st s = record (list_changes st) {
    store = s;
    nq_buffer = [];
    base_final = [];
    walk_file_ids = [];
  }

  unfoldable pub write_batch : WalkState S → Result E (WalkState S)
  unfolding write_walk_batch
  write_batch st =
      and_then (write_walk_batch st.store st.nq_buffer st.base_final) (λ s. ok (written st s))

  module _ (digest : Text → Text) where
    abbrev pub emit : Text → Op → Option (List Text) → WalkState S → WalkState S
    emit line op none st = st
    emit line op (some quads) st = record st {
      nq_buffer = st.nq_buffer ++ quads;
      pending_quads = st.pending_quads + length quads;
      events_emitted = suc st.events_emitted;
      walk_file_ids = note_file_id st.walk_file_ids line op;
      base_final = put line op st.base_final;
    }

    abbrev pub write_full : WalkState S → Result E (WalkState S)
    write_full st =
        if leb st.batch_quads (st.pending_quads + length st.base_final)
        then and_then (write_batch st) (λ st. ok (record st { pending_quads = 0 }))
        else ok st

    unfoldable pub record_event : Text → Op → Text → WalkState S → Result E (WalkState S)
    unfolding write_batch onegraph_event note_file_id
    record_event line op sha st = write_full (
        emit line op (onegraph_event digest line op sha st.one_graph)
          (record st { events_seen = suc st.events_seen }))

    unfoldable pub record_events : List Text → Op → Text → WalkState S → Result E (WalkState S)
    unfolding record_event
    record_events [] op sha st = ok st
    record_events (line ∷ lines) op sha st =
        and_then (record_event line op sha st) (λ st. record_events lines op sha st)

    -- `guard` is `retracts_still_live`.
    module _ (resolve : Text → Text → Result E (List Text))
        (guard : List Text → List Text → WalkCommit → WalkState S → Result E (List Text)) where
      abbrev pub still_live :
          List Text → List Text → WalkCommit → WalkState S → Result E (List Text)
      still_live [] touched_any c st = ok []
      still_live (l ∷ ls) touched_any c st = guard (l ∷ ls) touched_any c st

      abbrev pub commit_events : WalkCommit → WalkState S → CommitSides → Result E (WalkState S)
      commit_events c st sides =
          let retracts = difference sides.old_triples sides.new_triples in
          and_then (still_live retracts (extend sides.old_side sides.new_side) c st) (λ live.
            and_then (record_events (difference retracts live) Op.retract_op c.sha st) (λ st.
              record_events (difference sides.new_triples sides.old_triples) Op.assert_op c.sha st))

      unfoldable pub walk_commits : List WalkCommit → WalkState S → Result E (WalkState S)
      unfolding resolve_commit_sides record_events
      walk_commits [] st = ok st
      walk_commits (c ∷ cs) st =
          and_then (resolve_commit_sides resolve c)
            (λ sides. and_then (commit_events c st sides) (λ st. walk_commits cs st))
