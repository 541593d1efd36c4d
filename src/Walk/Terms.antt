-- ===== src/Walk/Terms.antt =====
-- Reading a statement's line, and the event quads made of it: `take_term`, `onegraph_event`,
-- `note_file_id` and `file_iri_document` of src/spo_events.rs.
use git_lex.Base.{
  ℕ, ◌||◌, Option, none, some, ◌>>=◌, List, [], ◌∷◌, ◌++◌, reverse, ◌==◌, if◌then◌else◌,
}
use git_lex.Text.{Text, codes, same, is_empty, is_space, trim, trim_start, strip_prefix}
use git_lex.Text.Split.{split_once, rsplit_once}
use git_lex.Sets.{lookup, put}
use git_lex.Encode.{radix_16}
use git_lex.Text.Utf8.{encode}

-- The operator character of an event: `'+'` or `'-'`.
pub data Op : Type 0 where
  assert_op : Op
  retract_op : Op

abbrev pub op_char : Op → ℕ
op_char assert_op = b'+'
op_char retract_op = b'-'

-- Put one character in front of the term.
abbrev pub longer : ℕ → Option (Text × Text) → Option (Text × Text)
longer c none = none
longer c (some (term, rest)) = some (c ∷ term, rest)

-- The `^^<...>` behind a closing quote, when there is one.
abbrev datatype_end : Text → Text → Option (Text × Text) → Text × Text
datatype_end s start none = ([], s)
datatype_end s start (some (iri, rest)) = (start ++ (iri ++ b'>' ∷ []), rest)

abbrev with_datatype : Text → Option Text → Text × Text
with_datatype s none = ([], s)
with_datatype s (some rest) = datatype_end s (codes "^^<") (split_once b'>' rest)

abbrev close_quote : Text → Text × Text → Option (Text × Text)
close_quote s (suffix, rest) = some (b'"' ∷ suffix, rest)

-- The text behind an opening quote, up to the quote that closes it and its datatype.
unfoldable pub quoted : Text → Option (Text × Text)
unfolding split_once
quoted [] = none
quoted (c ∷ []) = if c == b'\\' then none else if c == b'"' then some (c ∷ [], []) else none
quoted (c ∷ d ∷ s) =
    let skipped = quoted s in
    let next = quoted (d ∷ s) in
    if c == b'\\'
    then longer c (longer d skipped)
    else if c == b'"'
    then close_quote (d ∷ s) (with_datatype (d ∷ s) (strip_prefix (codes "^^<") (d ∷ s)))
    else longer c next

-- The text up to a character of white space.
abbrev pub bare : Text → Text × Text
bare [] = ([], [])
bare (c ∷ s) = let (term, rest) = bare s in if is_space c then ([], c ∷ s) else (c ∷ term, rest)

abbrev closed_iri : Option (Text × Text) → Option (Text × Text)
closed_iri none = none
closed_iri (some (term, rest)) = some (term ++ b'>' ∷ [], rest)

abbrev term_at : Text → Option (Text × Text)
term_at [] = some ([], [])
term_at (c ∷ s) =
    if c == b'<'
    then closed_iri (split_once b'>' (c ∷ s))
    else if c == b'"'
    then longer c (quoted s)
    else some (bare (c ∷ s))

unfoldable pub take_term : Text → Option (Text × Text)
unfolding split_once quoted
take_term s = term_at (trim_start s)

-- `trim_start_matches` and `trim_end_matches` of one character
abbrev pub trim_start_matches : ℕ → Text → Text
trim_start_matches c [] = []
trim_start_matches c (x ∷ s) = let rest = trim_start_matches c s in if x == c then rest else x ∷ s

abbrev pub trim_end_matches : ℕ → Text → Text
trim_end_matches c s = reverse (trim_start_matches c (reverse s))

-- `trim_start_matches('<').trim_end_matches('>')`
abbrev pub unbracketed : Text → Text
unbracketed s = trim_end_matches b'>' (trim_start_matches b'<' s)

abbrev whole_statement : Text → Text → Text → Option (Text × Text × Text)
whole_statement s p o = if is_empty s || (is_empty p || is_empty o) then none else some (s, p, o)

-- The subject, the predicate and the object of a line `<S> <P> O <G> .`.
unfoldable pub statement_of : Text → Option (Text × Text × Text)
unfolding take_term rsplit_once
statement_of triple_nq = rsplit_once b' ' (trim (trim_end_matches b'.' triple_nq)) >>= λ (kept, _).
    take_term (trim kept) >>= λ (s, rest).
    take_term (trim rest) >>= λ (p, rest). whole_statement s p (trim rest)

abbrev pub spo_event_base : Text
spo_event_base = codes "<https://repolex.ai/git-lex/SpoEvent/"

abbrev pub onegraph_asserted_in : Text
onegraph_asserted_in = codes "https://repolex.ai/ontology/git-lex/assertedIn"

abbrev pub onegraph_retracted_in : Text
onegraph_retracted_in = codes "https://repolex.ai/ontology/git-lex/retractedIn"

abbrev event_pred : Op → Text
event_pred assert_op = onegraph_asserted_in
event_pred retract_op = onegraph_retracted_in

abbrev pub git2_uri : Text → Text
git2_uri path = codes "https://repolex.ai/git-lex/git2/" ++ path

abbrev pub reifies_iri : Text
reifies_iri = codes "http://www.w3.org/1999/02/22-rdf-syntax-ns#reifies"

abbrev type_words : Text
type_words =
    codes
      " <http://www.w3.org/1999/02/22-rdf-syntax-ns#type> <https://repolex.ai/ontology/git-lex/SpoEvent> "

-- What follows the event's name in each of its three quads.
abbrev pub event_tails : Op → Text → Text → Text × Text × Text → List Text
event_tails op sha graph (s, p, o) =
    (type_words ++ (graph ++ codes " ."))
    ∷ (codes " <"
        ++ (reifies_iri
            ++ (codes "> <<( "
                ++ (s ++ b' ' ∷ (p ++ b' ' ∷ (o ++ (codes " )>> " ++ (graph ++ codes " ."))))))))
    ∷ (codes " <"
        ++ (event_pred op
            ++ (codes "> <"
                ++ (git2_uri (codes "Commit/" ++ sha) ++ (codes "> " ++ (graph ++ codes " ."))))))
    ∷ []

abbrev pub named_event : Text → List Text → List Text
named_event name [] = []
named_event name (tail ∷ tails) = (spo_event_base ++ (name ++ b'>' ∷ tail)) ∷ named_event name tails

-- `digest` is the first 16 hex digits of a text's SHA-256.
module _ (digest : Text → Text) where
  abbrev event_key : Op → Text → Text → Text → Text → Text
  event_key op sha s p o = op_char op ∷ b'|' ∷ (sha ++ b'|' ∷ (s ++ b'|' ∷ (p ++ b'|' ∷ o)))

  unfoldable pub event_quads : Op → Text → Text → Text × Text × Text → List Text
  event_quads op sha graph (s, p, o) =
      named_event (digest (event_key op sha s p o)) (event_tails op sha graph (s, p, o))

  unfoldable pub onegraph_event : Text → Op → Text → Text → Option (List Text)
  unfolding statement_of event_quads
  onegraph_event triple_nq op sha graph =
      statement_of triple_nq >>= λ spo. some (event_quads op sha graph spo)

abbrev pub onegraph_file_id : Text
onegraph_file_id = codes "https://repolex.ai/ontology/git-lex/fileId"

abbrev FileIds : Type 0
FileIds = List (Text × List (Text × Op))

abbrev known : Option (List (Text × Op)) → List (Text × Op)
known none = []
known (some files) = files

-- The subject and the file of a line `<Thing> fileId <File> ...`.
unfoldable pub file_id_of : Text → Option (Text × Text)
unfolding take_term
file_id_of line = take_term line >>= λ (subject, rest). take_term rest >>= λ (predicate, rest).
    if same (unbracketed predicate) onegraph_file_id
    then (take_term rest >>= λ (file, _). some (subject, file))
    else none

abbrev pub noted :
    List (Text × List (Text × Op)) → Op → Option (Text × Text) → List (Text × List (Text × Op))
noted ids op none = ids
noted ids op (some (subject, file)) = put subject (put file op (known (lookup subject ids))) ids

unfoldable pub note_file_id :
    List (Text × List (Text × Op)) → Text → Op → List (Text × List (Text × Op))
unfolding file_id_of
note_file_id ids line op = noted ids op (file_id_of line)

abbrev pub lexhistory_graph_iri : Text
lexhistory_graph_iri = codes "https://repolex.ai/git-lex/LexHistoryGraph"

-- The line that prints the quad `<Thing> fileId <File>` of the one graph.
unfoldable pub file_id_line : Text → Text → Text
file_id_line term file =
    term
    ++ (codes " <"
        ++ (onegraph_file_id
            ++ (codes "> " ++ (file ++ (codes " <" ++ (lexhistory_graph_iri ++ codes "> ."))))))

-- The bytes that the percent escapes of an IRI stand for.
abbrev radix_byte : Option ℕ → Option Text → Option Text
radix_byte none rest = none
radix_byte (some b) none = none
radix_byte (some b) (some bs) = some (b ∷ bs)

unfoldable pub document_bytes : Text → Option Text
unfolding radix_16
document_bytes [] = some []
document_bytes (c ∷ []) = some (c ∷ [])
document_bytes (c ∷ a ∷ []) = some (c ∷ a ∷ [])
document_bytes (c ∷ a ∷ b ∷ s) =
    let behind = document_bytes s in
    let next = document_bytes (a ∷ b ∷ s) in
    if c == b'%' then radix_byte (radix_16 a b) behind else radix_byte (some c) next

abbrev pub file_base : Text
file_base = codes "https://repolex.ai/git-lex/File/"

-- `from_utf8` is the one of Rust's `String`.
unfoldable pub file_iri_document : (Text → Option Text) → Text → Option Text
unfolding document_bytes encode
file_iri_document from_utf8 iri =
    strip_prefix file_base iri >>= λ encoded. document_bytes (encode encoded) >>= from_utf8
