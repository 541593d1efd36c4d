-- ===== src/Tests/Ids.antt =====
-- References and subjects at concrete inputs.
use git_lex.Base.{◌≡◌, refl, true, List, [], ◌∷◌, ◌++◌, some, ok}
use git_lex.Text.{Text, codes, same}
use git_lex.Tests.Facts.{Lacks-of}
use git_lex.Identity.{
  UniversalId, parse_universal_id, thing_address, resolve_thing_reference, ResolveResult,
  resolve_frontmatter_value,
}
use git_lex.Identity.Join.{thing_reference_agrees, universal_id-is_reference}
use git_lex.Identity.Subjects.{
  Ontology, derive_file_subjects, convention_lane, thing_iri_from_range, id_key_matches,
  resolve_class_segment, dotted, find_value, first_anchor, id_property, kit_ns, declares,
}
use git_lex.Identity.Subjects.Anchor.{
  reference-derive_file_subjects, range-convention_lane, id_key_matches-resolve_class_segment,
}

abbrev authored : Text
authored = codes "<people/Person/ada>"

abbrev ada : UniversalId
ada = record {
  namespace = codes "people";
  class = codes "Person";
  identifier = codes "ada";
  inner = codes "people/Person/ada";
}

ada_parses : parse_universal_id authored ≡ ok ada
unfolding parse_universal_id git_lex.Text.is_space
ada_parses = refl

ada_address : resolve_thing_reference authored ≡ ok (thing_address (codes "people/Person/ada"))
ada_address = universal_id-is_reference authored ada ada_parses

thing_reference_agrees_example :
    resolve_frontmatter_value (codes "https://x/") (codes "people") authored
    ≡ ResolveResult.iri (thing_address (codes "people/Person/ada"))
thing_reference_agrees_example =
    thing_reference_agrees (codes "https://x/") (codes "people") authored
      (thing_address (codes "people/Person/ada")) ada_address

abbrev people : Ontology
people = record {
  classes = λ _. codes "Person" ∷ [];
  declared_props = codes "people/Person/personId" ∷ [];
  obj_props = [];
  kit_namespaces = [];
}

abbrev document : List Text
document = codes "people.Person.id | hasValue | <people/Person/ada>" ∷ []

document_anchor : first_anchor document ≡ some (codes "people", codes "Person")
unfolding first_anchor git_lex.Text.is_space
document_anchor = refl

document_id :
    find_value
      (λ key. same key (
        dotted
          (codes "people")
          (resolve_class_segment (people.classes (codes "people")) (codes "Person"))
          (codes "id")))
      document
    ≡ some authored
unfolding find_value resolve_class_segment git_lex.Text.is_space
document_id = refl

reference-derive_file_subjects_example :
    ((derive_file_subjects people document (codes "ada.md")).thing_uri
      ≡ some (thing_address ada.inner))
    × (resolve_thing_reference authored ≡ ok (thing_address ada.inner))
    × (resolve_frontmatter_value (codes "b") (codes "s") authored
        ≡ ResolveResult.iri (thing_address ada.inner))
reference-derive_file_subjects_example =
    reference-derive_file_subjects people document (codes "ada.md") (codes "people")
      (codes "Person") authored authored (codes "b") (codes "s") ada ada document_anchor document_id
      ada_parses ada_parses refl

abbrev own_line : List Text
own_line = codes "people.person.personId | hasValue | ada" ∷ []

own_id :
    find_value
      (λ key. id_key_matches key (codes "people") (codes "Person") (id_property (codes "Person")))
      own_line
    ≡ some (codes "ada")
unfolding find_value id_key_matches git_lex.Text.is_space
own_id = refl

own_declared :
    declares people
      (codes "people" ++ (b'/' ∷ (codes "Person" ++ (b'/' ∷ id_property (codes "Person")))))
    ≡ true
unfolding git_lex.Text.lower_ascii
own_declared = refl

abbrev people_ns : Text
people_ns = codes "https://repolex.ai/ontology/people"

own_ns : kit_ns people (codes "people") ≡ people_ns ++ b'/' ∷ []
own_ns = refl

range-convention_lane_example :
    (convention_lane people own_line (codes "u") (codes "people") (codes "Person")).thing_uri
    ≡ thing_iri_from_range (people_ns ++ b'/' ∷ codes "Person") (codes "ada")
range-convention_lane_example =
    range-convention_lane people own_line (codes "u") (codes "people") (codes "Person") people_ns
      (codes "ada") own_declared own_id own_ns (λ e. cc) (Lacks-of b'/' (codes "Person") refl)

id_key_matches-resolve_class_segment_example :
    id_key_matches
      (dotted (codes "people") (codes "pErSon") (codes "personId"))
      (codes "people")
      (resolve_class_segment (codes "Person" ∷ []) (codes "pErSon"))
      (codes "personId")
    ≡ true
id_key_matches-resolve_class_segment_example =
    id_key_matches-resolve_class_segment (codes "Person" ∷ []) (codes "people") (codes "pErSon")
      (codes "personId") (Lacks-of b'.' (codes "pErSon") refl)
      (Lacks-of b'.' (codes "personId") refl)
