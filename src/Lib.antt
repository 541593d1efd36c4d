-- ===== src/Lib.antt =====
-- git-lex: a git repository as a knowledge graph. `git lex sync` (src/sync.rs) reads a repository's
-- history and documents into an RDF store; gitlexd (src/gitlexd) serves the stores of a machine's
-- repositories ("souls") and syncs each one in a copy that it swaps in; the rest of the program
-- reads documents, links and names (src/nquad.rs, src/extraction.rs, src/resolve.rs) and keeps
-- their statements in files beside them (src/spo_events.rs).
--
-- The parts, by file:
--   Base, Text: shared names, lists, Booleans; Rust's `str` as a list of code points. Fallible: `?`
--     on a result. Sets: `HashSet` and `HashMap` as lists.
--   GitRecords: the readers of git's NUL-terminated records, `parse_name_status_z`,
--     `parse_staged_md_changes` and `split_diff_tree_stdin` (src/spo_events.rs),
--     `parse_rename_records` (src/heal.rs).
--   Encode: `nq_escape`, `uri_encode_path`, `uri_encode_url` (src/nquad.rs) and `percent_decode`
--     (src/extraction.rs), the last one down to its bytes, before `from_utf8_lossy`.
--   LinkPath: `normalize_wikilink_path` (src/extraction.rs).
--   Identity: `parse_universal_id` (src/nquad.rs) and the two resolvers of src/resolve.rs;
--     Identity/Subjects: `derive_file_subjects` and what it calls (src/nquad.rs, src/ontology.rs).
--     The installed ontologies are the fields of a record, read by the caller.
--   Daemon/Tickets: `request_sync`, `wait_for` and `sync_loop` (src/gitlexd/daemon.rs), each atomic
--     operation a step, the steps of all tasks interleaved.
--   Daemon/Swap: `swap_in`, `recover_swap`, `open_existing`, and the disk's side of `sync_once` and
--     `copy_store` (src/gitlexd/daemon.rs), as functions on three directories and as a step
--     relation in which the process may die between any two changes or inside a removal.
--   Daemon/Souls: the list of souls, `open`, `adopt`, `refresh`, `forget`, `find`
--     (src/gitlexd/daemon.rs).
--   Daemon/Http: `is_local_host`, `is_local_origin`, `local_only` (src/gitlexd/http.rs).
--   Registry: `fold_same_directory`, Frontmatter: `split_frontmatter` (src/lib.rs).
--   Sync/Loader: `MarkerLastLoader`, Sync/NowView: `refresh_now_view`, Sync/Resume: the choice
--     between nothing, an append and a rebuild (src/sync.rs).
--   Sync/History: `history_counts` (src/sync.rs), over the quads of three predicates.
--   Walk (src/spo_events.rs): the walk that turns a range of commits into the one graph.
--     Commits: `collect_commits_from_shas`; Terms: `take_term`, `onegraph_event`, `note_file_id`,
--     `file_iri_document`; Gate: `validate_sidecar_v1`, `blob_lines`, `resolve_sidecar_lines`;
--     Sidecars: the names and `resolve_sidecar_at`; Engine: `resolve_commit_sides`,
--     `record_event`, `write_batch` and the commit loop; Guard: `retracts_still_live`; Clear:
--     `clear_graph_in_batches`; Whole: `onegraph_walk_engine_with`. The other files of the folder
--     hold the proofs: World what the sidecars of a commit state, Batch and Events what the
--     pending writes come to, Documents to Exact the guard, Edges and Now the invariant of the
--     loop, Reliable, Answered and Success that a walk ends and adds no failure to those of its calls.
--   Cleanup: `cleanup_sidecars_for_staged_changes` (src/spo_events.rs).
--   Clock: `civil_from_days` (src/clock.rs), its first addition wrapping around.
--   Tests: the theorems at concrete inputs.
--
-- How the parts meet: the loader writes the ordinals that Sync/Resume asks for, so its order of
-- writes is what makes the marker of a finished sync trustworthy; a sync writes the copy that
-- Daemon/Swap puts in place, inside one turn of the loop of Daemon/Tickets; the encoders of Encode
-- write the addresses that Identity and LinkPath read back. The cleanup moves the sidecars that
-- the walk reads, under names that the walk takes the document from; the walk writes the events
-- that Sync/History counts.
--
-- The store (oxigraph), git and the file system's contents are not modelled: the store is a
-- parameter with the laws of its operations (`Additive`, `QuadStore`, `GraphStore`), git and
-- the store's queries are the fields of `Probes`, the trees and blobs of commits those of
-- `SidecarReader`, git's index that of `GitIndex`. In the walk, the emitters of src/nquad.rs
-- are a parameter, with a condition on what the sidecars of the history come to
-- (`IsAnchoredHistory`); git's diff of a commit names every path that differs (`IsDiff`), and
-- SHA-256 is any function. Numbers are natural numbers, or integers in Clock; no counter of
-- the modelled code comes near the bound of its machine type. Every loop but one is recursion
-- on the structure that it walks; the clearing of a graph takes the number of its quads and
-- one as fuel, since a round removes at least one. The memo of resolved blobs in the walk is
-- left out, a cache that changes no answer. Not modelled: printing and logging, the counts of
-- dropped lines, SPARQL texts, `sync_onegraph_walk` and `verify_onegraph` around the walk,
-- kits and shapes, the saving of documents, the command line, a rename of the swap's recovery
-- that fails.
pub mod Base
pub mod Fallible
pub mod Sets
pub mod Text
pub mod GitRecords
pub mod Encode
pub mod LinkPath
pub mod Identity
pub mod Daemon
pub mod Sync
pub mod Walk
pub mod Cleanup
pub mod Clock
pub mod Registry
pub mod Frontmatter
pub mod Tests
