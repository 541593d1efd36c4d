-- ===== src/Sync/NowView.antt =====
-- `refresh_now_view` of src/sync.rs over a store that is a parameter: its
-- operations and their errors are the fields of `QuadStore`, and what they promise are its laws.
mod Listing
pub mod Copy
use git_lex.Base.{
  ℕ, ◌+◌, ◌≡◌, ◌↔◌, Bool, true, false, not, ◌&&◌, ◌||◌, Option, none, some, List, [], ◌∷◌, reverse,
  ◌++◌, Result, ok, err, leb, length, ◌==◌, if◌then◌else◌,
}
use git_lex.Text.{Text, codes, same, starts_with, strip_prefix}

pub record Quad : Type 0 where
  pub subject : Text
  pub predicate : Text
  pub object : Text
  pub graph : Text

abbrev pub same_quad : Quad → Quad → Bool
same_quad p q =
    same p.subject q.subject
    && (same p.predicate q.predicate && (same p.object q.object && same p.graph q.graph))

-- `quads_for_pattern(subject, None, None, Some(graph))`
abbrev pub matches : Option Text → Text → Quad → Bool
matches none graph q = same q.graph graph
matches (some subject) graph q = same q.subject subject && same q.graph graph

abbrev pub among : Quad → List Quad → Bool
among q [] = false
among q (r ∷ rs) = same_quad q r || among q rs

-- `holds` says what a store contains; the other fields are what the program calls.
pub record QuadStore (S E : Type 0) : Type 0 where
  pub holds : Quad → S → Bool
  pub contains : Quad → S → Result E Bool
  pub quads_for_pattern : Option Text → Text → S → Result E (List Quad)
  pub remove : Quad → S → Result E S
  pub insert : Quad → S → Result E S
  pub contains_law : (q : Quad) (s : S) (b : Bool) → contains q s ≡ ok b → b ≡ holds q s
  pub quads_law :
      (subject : Option Text) (graph : Text) (s : S) (qs : List Quad) (q : Quad)
      → quads_for_pattern subject graph s ≡ ok qs
      → among q qs ≡ (holds q s && matches subject graph q)
  pub remove_law :
      (r q : Quad) (s t : S) → remove r s ≡ ok t → holds q t ≡ (holds q s && not (same_quad q r))
  pub insert_law :
      (r q : Quad) (s t : S) → insert r s ≡ ok t → holds q t ≡ (holds q s || same_quad q r)

pub data Failure (E : Type 0) : Type 0 where
  not_an_iri : Text → Failure E
  store_failed : E → Failure E

abbrev pub now : Text
now = codes "https://repolex.ai/git-lex/NamedGraph/now"

abbrev pub one : Text
one = codes "https://repolex.ai/git-lex/LexHistoryGraph"

abbrev pub rdf_type : Text
rdf_type = codes "http://www.w3.org/1999/02/22-rdf-syntax-ns#type"

abbrev pub reifies : Text
reifies = codes "http://www.w3.org/1999/02/22-rdf-syntax-ns#reifies"

abbrev pub spo_event : Text
spo_event = codes "https://repolex.ai/ontology/git-lex/SpoEvent"

abbrev pub event_mark : Text → Quad
event_mark subject = record {
  subject = subject;
  predicate = rdf_type;
  object = spo_event;
  graph = one;
}

-- `Quad::new(q.subject, q.predicate, q.object, now)`
abbrev pub copied : Quad → Quad
copied q = record q { graph = now }

-- `trim_start_matches` of one character
abbrev trim_start_matches : ℕ → Text → Text
trim_start_matches c [] = []
trim_start_matches c (x ∷ s) = let rest = trim_start_matches c s in if x == c then rest else x ∷ s

abbrev pub subject_iri : Text → Text
subject_iri term = reverse (trim_start_matches b'>' (reverse (trim_start_matches b'<' term)))

module _ {S E A : Type 0} where
  abbrev pub bind_store : Result E A → (A → Result (Failure E) S) → Result (Failure E) S
  bind_store (err e) f = err (Failure.store_failed e)
  bind_store (ok a) f = f a

module _ {S E : Type 0} where
  abbrev pub and_then : Result (Failure E) S → (S → Result (Failure E) S) → Result (Failure E) S
  and_then (err e) f = err e
  and_then (ok a) f = f a

-- `NamedNodeRef::new` accepts what `is_iri` says.
module _ {S E : Type 0} (store : QuadStore S E) (is_iri : Text → Bool) where
  unfoldable pub remove_all : List Quad → S → Result (Failure E) S
  remove_all [] s = ok s
  remove_all (q ∷ qs) s = bind_store (store.remove q s) (λ s. remove_all qs s)

  unfoldable pub copy_all : List Quad → S → Result (Failure E) S
  copy_all [] s = ok s
  copy_all (q ∷ qs) s = elim (same q.predicate reifies) [
    | true ↦ copy_all qs s
    | false ↦ bind_store (store.insert (copied q) s) (λ s. copy_all qs s)
  ]

  abbrev pub copy_current : Text → S → Bool → Result (Failure E) S
  copy_current subject s true = ok s
  copy_current subject s false =
      bind_store (store.quads_for_pattern (some subject) one s) (λ qs. copy_all qs s)

  abbrev pub copy_unless_event : Text → S → Result (Failure E) S
  copy_unless_event subject s =
      bind_store (store.contains (event_mark subject) s) (λ b. copy_current subject s b)

  -- One pass of the loop over the subjects.
  unfoldable pub refresh_subject : Text → S → Result (Failure E) S
  unfolding remove_all copy_all
  refresh_subject term s = elim (is_iri (subject_iri term)) [
    | false ↦ err (Failure.not_an_iri term)
    | true ↦
        bind_store (store.quads_for_pattern (some (subject_iri term)) now s)
          (λ stale. and_then (remove_all stale s) (λ s. copy_unless_event (subject_iri term) s))
  ]

  unfoldable pub refresh_now_view : List Text → S → Result (Failure E) S
  unfolding refresh_subject
  refresh_now_view [] s = ok s
  refresh_now_view (term ∷ terms) s =
      and_then (refresh_subject term s) (λ s. refresh_now_view terms s)
