-- ===== src/Walk/Success.antt =====
-- How a walk ends.
use git_lex.Base.{err, ℕ, ◌≡◌, Bool, Option, some, List, Result}
use git_lex.Text.{Text}
use git_lex.Walk.{GraphStore}
use git_lex.Walk.Sidecars.{SidecarReader}
use git_lex.Walk.Engine.{WalkState}
use git_lex.Walk.Reliable.{Answers, Total}

module _ {S O E : Type 0} (Failed : E → Type 0) (graph : GraphStore S E)
    (reader : SidecarReader O E) (resolve_lines : List Text → Text → Text → Result E (List Text))
    (fine : Answers Failed graph reader resolve_lines) where
  -- A clearing that ends, in a success or with the error of a call.
  abbrev Finished : Option (Result E S) → Type 0
  Finished o = (r : Result E S) × (o ≡ some r) × Total Failed r

  module _ (from_utf8 : Text → Option Text) (is_iri : Text → Bool) (digest : Text → Text) where
    abbrev Walked : Option (Result E (WalkState S)) → Type 0
    Walked o = (r : Result E (WalkState S)) × (o ≡ some r) × Total Failed r

module _ {S O E : Type 0} (graph : GraphStore S E) (reader : SidecarReader O E)
    (resolve_lines : List Text → Text → Text → Result E (List Text)) where
  -- The error is what a call of the store, of git or of the reader of lines answers.
  pub data IsCallError : E → Type 0 where
    from_name : (iri : Text) (e : E) → graph.graph_name iri ≡ err e → IsCallError e
    from_remove : (l : Text) (s : S) (e : E) → graph.remove_line l s ≡ err e → IsCallError e
    from_load : (ls : List Text) (s : S) (e : E) → graph.load_lines ls s ≡ err e → IsCallError e
    from_ask : (term : Text) (s : S) (e : E) → graph.file_ids term s ≡ err e → IsCallError e
    from_list : (n : ℕ) (s : S) (e : E) → graph.some_quads n s ≡ err e → IsCallError e
    from_clear : (qs : List Text) (s : S) (e : E) → graph.remove_quads qs s ≡ err e → IsCallError e
    from_find : (sha path : Text) (e : E) → reader.blob_at sha path ≡ err e → IsCallError e
    from_read : (oid : O) (e : E) → reader.blob_lines oid ≡ err e → IsCallError e
    from_lines :
        (ls : List Text) (path doc : Text) (e : E)
        → resolve_lines ls path doc ≡ err e
        → IsCallError e
