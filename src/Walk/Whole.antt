-- ===== src/Walk/Whole.antt =====
-- `onegraph_walk_engine_with` from the clearing to the last write, and what a whole walk leaves.
use git_lex.Base.{ℕ, ◌≡◌, ◌↔◌, Bool, true, false, Option, none, some, List, [], Result, ok, err}
use git_lex.Text.{Text}
use git_lex.Fallible.{and_then}
use git_lex.Walk.{WalkCommit, GraphStore}
use git_lex.Walk.Terms.{unbracketed}
use git_lex.Walk.Sidecars.{SidecarReader, resolve_sidecar_at}
use git_lex.Walk.World.{Says, Anywhere}
use git_lex.Walk.Engine.{WalkState, walk_commits, write_batch}
use git_lex.Walk.Batch.{IsFact}
use git_lex.Walk.Guard.{retracts_still_live}
use git_lex.Walk.Exact.{IsAnchoredHistory}
use git_lex.Walk.Clear.{clear_graph_in_batches}

abbrev pub fresh_state : {S : Type 0} → S → Text → Bool → ℕ → WalkState S
fresh_state store one_graph clear_first batch_quads = record {
  store = store;
  one_graph = one_graph;
  clear_first = clear_first;
  batch_quads = batch_quads;
  nq_buffer = [];
  pending_quads = 0;
  base_final = [];
  walk_file_ids = [];
  changed_subjects = [];
  changed_statements = [];
  events_seen = 0;
  events_emitted = 0;
}

module _ (from_utf8 : Text → Option Text) (is_iri : Text → Bool) (digest : Text → Text)
    {S O E : Type 0} (graph : GraphStore S E) (reader : SidecarReader O E)
    (resolve_lines : List Text → Text → Text → Result E (List Text)) where
  abbrev resolve : Text → Text → Result E (List Text)
  resolve = resolve_sidecar_at reader resolve_lines

  -- From the store that the walk starts on to its last write.
  abbrev pub walk_from : List WalkCommit → Text → Bool → ℕ → S → Result E (WalkState S)
  walk_from commits one_graph clear_first batch_quads store =
      and_then
        (walk_commits graph digest resolve
          (retracts_still_live from_utf8 is_iri graph reader resolve_lines) commits
          (fresh_state store one_graph clear_first batch_quads))
        (write_batch graph)

  abbrev pub walk_cleared :
      List WalkCommit → Text → ℕ → Option (Result E S) → Option (Result E (WalkState S))
  walk_cleared commits one_graph batch_quads none = none
  walk_cleared commits one_graph batch_quads (some (err e)) = some (err e)
  walk_cleared commits one_graph batch_quads (some (ok store)) =
      some (walk_from commits one_graph true batch_quads store)

  abbrev pub when_named :
      Result E Text → Option (Result E (WalkState S)) → Option (Result E (WalkState S))
  when_named (err e) walk = some (err e)
  when_named (ok _) walk = walk

  -- `none` would be a clearing that does not end.
  unfoldable pub onegraph_walk_engine_with :
      List WalkCommit → S → Text → Bool → ℕ → Option (Result E (WalkState S))
  unfolding clear_graph_in_batches walk_commits write_batch retracts_still_live
  onegraph_walk_engine_with commits store one_graph true batch_quads =
      when_named (graph.graph_name (unbracketed one_graph)) (
        walk_cleared commits one_graph batch_quads (clear_graph_in_batches graph store batch_quads))
  onegraph_walk_engine_with commits store one_graph false batch_quads =
      when_named (graph.graph_name (unbracketed one_graph))
        (some (walk_from commits one_graph false batch_quads store))

  module _ (anchored : IsAnchoredHistory from_utf8 is_iri reader resolve_lines) where
    -- The one graph's statements are exactly those that the sidecars of the commit make.
    abbrev pub IsNow : Text → S → Type 0
    IsNow sha store =
        (q : Text) → IsFact q → (graph.holds q store ≡ true) ↔ Says resolve Anywhere sha q
