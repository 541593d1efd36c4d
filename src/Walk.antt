-- ===== src/Walk.antt =====
-- The one-graph walk of src/spo_events.rs: the events of the statements that each commit asserts or
-- retracts, and the base layer of the statements that hold now. The store and git are parameters.
pub mod Terms
pub mod Gate
pub mod Sidecars
pub mod Names
pub mod Engine
pub mod Guard
pub mod Batch
pub mod Events
pub mod World
pub mod Documents
pub mod Found
pub mod Places
pub mod Marked
pub mod Scanned
pub mod Exact
pub mod Edges
pub mod Now
pub mod Commits
pub mod Clear
pub mod Whole
pub mod Reliable
pub mod Answered
pub mod Success
use git_lex.Base.{
  ℕ, some, suc, ◌<◌, false, [], ◌∷◌, ◌≡◌, Bool, true, not, ◌&&◌, ◌||◌, List, Result, ok,
}
use git_lex.Text.{Text, same}
use git_lex.Sets.{member}
use git_lex.Walk.Terms.{unbracketed, file_id_of, file_id_line}

pub record WalkCommit : Type 0 where
  pub sha : Text
  pub parent_sha : Text
  pub touched : List Text
  pub renames : List (Text × Text)

-- The one graph in a store. A quad is named by the line that prints it: `holds` says which quads are
-- there, the other fields are the calls of the walk, the laws what it relies on.
pub record GraphStore (S E : Type 0) : Type 0 where
  pub holds : Text → S → Bool
  -- `NamedNode::new` of the graph's name
  pub graph_name : Text → Result E Text
  -- `RdfParser::for_reader` of one line, and `remove` of what it reads
  pub remove_line : Text → S → Result E S
  -- `load_from_reader`
  pub load_lines : List Text → S → Result E S
  -- the objects of `quads_for_pattern(subject, fileId, None, graph)`
  pub file_ids : Text → S → Result E (List Text)
  -- the first quads of the graph, and their removal in one transaction
  pub some_quads : ℕ → S → Result E (List Text)
  pub remove_quads : List Text → S → Result E S
  -- how many quads the graph has
  pub size : S → ℕ
  pub remove_law :
      (l q : Text) (s t : S) → remove_line l s ≡ ok t → holds q t ≡ (holds q s && not (same q l))
  pub load_law :
      (ls : List Text) (q : Text) (s t : S)
      → load_lines ls s ≡ ok t
      → holds q t ≡ (holds q s || member q ls)
  pub file_ids_law :
      (term file : Text) (s : S) (files : List Text)
      → file_id_of (file_id_line term file) ≡ some (term, file)
      → file_ids (unbracketed term) s ≡ ok files
      → holds (file_id_line term file) s ≡ true
      → member file files ≡ true
  pub none_law : (n : ℕ) (s : S) (q : Text) → some_quads (suc n) s ≡ ok [] → holds q s ≡ false
  pub shrink_law :
      (n : ℕ) (q : Text) (qs : List Text) (s t : S)
      → some_quads n s ≡ ok (q ∷ qs)
      → remove_quads (q ∷ qs) s ≡ ok t
      → size t < size s
