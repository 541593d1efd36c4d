-- ===== src/Identity/Subjects.antt =====
-- The two subjects of a file, its File node and its Thing node: `derive_file_subjects` and its
-- helpers (src/nquad.rs), and the class rule of src/ontology.rs.
pub mod Anchor
use git_lex.Base.{
  ℕ, Bool, true, false, ◌&&◌, ◌||◌, Option, none, some, List, [], ◌∷◌, ◌++◌, if◌then◌else◌, not,
  any, Result, ok, err,
}
use git_lex.Text.{Text, codes, same, trim, is_empty, lower_ascii, same_ignoring_case}
use git_lex.Text.Split.{split_text, split_once, three_at_text, three_at, rsplit_once}
use git_lex.Encode.{uri_encode_path}
use git_lex.Identity.{Refusal, angle, UniversalId, parse_universal_id, thing_address}

pub data ClassMatch : Type 0 where
  exact pass_through : Text → ClassMatch
  case_only : Text → Text → ClassMatch
  no_match : ClassMatch

-- `classes.iter().find(|c| c.eq_ignore_ascii_case(seg))`
abbrev pub find_ignoring_case : Text → List Text → Option Text
find_ignoring_case seg [] = none
find_ignoring_case seg (c ∷ cs) =
    let rest = find_ignoring_case seg cs in if same_ignoring_case c seg then some c else rest

abbrev or_no_match : Text → Option Text → ClassMatch
or_no_match seg none = no_match
or_no_match seg (some canonical) = case_only canonical seg

unfoldable pub resolve_class_against : List Text → Text → ClassMatch
unfolding lower_ascii
resolve_class_against [] seg = pass_through seg
resolve_class_against (c ∷ cs) seg =
    if any (λ d. same d seg) (c ∷ cs)
    then exact seg
    else or_no_match seg (find_ignoring_case seg (c ∷ cs))

abbrev class_named : ClassMatch → Text → Text
class_named (exact name) seg = name
class_named (pass_through name) seg = name
class_named (case_only canonical given) seg = canonical
class_named no_match seg = seg

-- `resolve_class_segment`, on the classes that the kit's shapes declare.
unfoldable pub resolve_class_segment : List Text → Text → Text
unfolding resolve_class_against
resolve_class_segment classes seg = class_named (resolve_class_against classes seg) seg

pub record FileSubjects : Type 0 where
  pub file_uri : Text
  pub thing_uri : Option Text
  pub thing_key : Option (Text × Text)

abbrev app_base_of : Text → Option (Text × Text) → Text
app_base_of kit_ns none = kit_ns
app_base_of kit_ns (some (before, after)) = before ++ (b'/' ∷ after)

unfoldable pub app_base_from_kit_ns : Text → Text
unfolding split_text
app_base_from_kit_ns kit_ns = app_base_of kit_ns (split_text (codes "/ontology/") kit_ns)

abbrev range_thing : Text → Option (Text × Text) → Option Text
range_thing id none = none
range_thing id (some (ns, class)) =
    if is_empty class
    then none
    else some
        (angle (app_base_from_kit_ns (ns ++ b'/' ∷ []) ++ (class ++ (b'/' ∷ uri_encode_path id))))

unfoldable pub thing_iri_from_range : Text → Text → Option Text
unfolding rsplit_once
thing_iri_from_range range id = range_thing id (rsplit_once b'/' range)

abbrev pub conventional_kit_namespace : Text → Text
conventional_kit_namespace short = codes "https://repolex.ai/ontology/" ++ (short ++ b'/' ∷ [])

abbrev pub file_iri : Text → Text
file_iri encoded = codes "https://repolex.ai/git-lex/File/" ++ encoded

-- `format!("{}.{}.{}", kit, class, prop)`
abbrev pub dotted : Text → Text → Text → Text
dotted kit class prop = kit ++ (b'.' ∷ (class ++ (b'.' ∷ prop)))

abbrev key_segments : Text → Text → Text → Option (Text × Text) → Text → Bool
key_segments kit class id_prop none prop = false
key_segments kit class id_prop (some (a_kit, a_class)) prop =
    same a_kit kit && (same prop id_prop && same_ignoring_case a_class class)

abbrev key_parts : Text → Text → Text → Option (Text × Text) → Bool
key_parts kit class id_prop none = false
key_parts kit class id_prop (some (rest, prop)) =
    key_segments kit class id_prop (rsplit_once b'.' rest) prop

unfoldable pub id_key_matches : Text → Text → Text → Text → Bool
unfolding rsplit_once lower_ascii
id_key_matches authored kit class id_prop =
    same authored (dotted kit class id_prop)
    || key_parts kit class id_prop (rsplit_once b'.' authored)

abbrev pub bar : Text
bar = codes " | "

-- A `hasValue` line: its key and its value.
abbrev value_line : Option (Text × Text × Text) → Option (Text × Text)
value_line none = none
value_line (some (key, op, value)) = if same op (codes "hasValue") then some (key, value) else none

unfoldable pub has_value : Text → Option (Text × Text)
unfolding three_at_text
has_value line = value_line (three_at_text bar line)

-- The kit and the class of a key with three segments.
abbrev kit_class : Option (Text × Text × Text) → Option (Text × Text)
kit_class none = none
kit_class (some (kit, class, prop)) = some (kit, class)

abbrev kit_of_line : Option (Text × Text) → Option (Text × Text)
kit_of_line none = none
kit_of_line (some (key, value)) = kit_class (three_at b'.' key)

abbrev or_later {ℓ} : {A : Type ℓ} → Option A → Option A → Option A
or_later none later = later
or_later (some a) later = some a

-- The first kit-classed line decides the file's kit and class (as written).
unfoldable pub first_anchor : List Text → Option (Text × Text)
unfolding has_value three_at
first_anchor [] = none
first_anchor (line ∷ rest) = or_later (kit_of_line (has_value line)) (first_anchor rest)

-- The trimmed value of a line whose key passes the test, if it is not blank.
abbrev value_where : (Text → Bool) → Option (Text × Text) → Option Text
value_where test none = none
value_where test (some (key, value)) =
    if test key && not (is_empty (trim value)) then some (trim value) else none

unfoldable pub find_value : (Text → Bool) → List Text → Option Text
unfolding has_value
find_value test [] = none
find_value test (line ∷ rest) = or_later (value_where test (has_value line)) (find_value test rest)

-- lowerFirst(Class) + "Id"
abbrev pub lower_first : Text → Text
lower_first [] = []
lower_first (c ∷ s) = lower_ascii c ∷ s

abbrev pub id_property : Text → Text
id_property class = lower_first class ++ codes "Id"

abbrev pub lookup_ns : Text → List (Text × Text) → Option Text
lookup_ns kit [] = none
lookup_ns kit ((k, ns) ∷ rest) =
    let later = lookup_ns kit rest in if same k kit then some ns else later

abbrev ns_or : Text → Option Text → Text
ns_or kit none = conventional_kit_namespace kit
ns_or kit (some ns) = ns

-- What the derivation reads of the installed ontologies.
pub record Ontology : Type 0 where
  pub classes : Text → List Text
  pub declared_props : List Text
  pub obj_props : List Text
  pub kit_namespaces : List (Text × Text)

abbrev pub kit_ns : Ontology → Text → Text
kit_ns o kit = ns_or kit (lookup_ns kit o.kit_namespaces)

abbrev pub declares : Ontology → Text → Bool
declares o key = any (λ p. same p key) o.declared_props || any (λ p. same p key) o.obj_props

abbrev file_only : Text → FileSubjects
file_only uri = record { file_uri = uri; thing_uri = none; thing_key = none }

abbrev with_thing : Text → Text → Text → Text → FileSubjects
with_thing uri thing kit class = record {
  file_uri = uri;
  thing_uri = some thing;
  thing_key = some (kit, class);
}

abbrev convention_thing : Ontology → Text → Text → Text → Option Text → FileSubjects
convention_thing o uri kit class none = file_only uri
convention_thing o uri kit class (some id) =
    with_thing uri
      (angle (app_base_from_kit_ns (kit_ns o kit) ++ (class ++ (b'/' ∷ uri_encode_path id)))) kit
      class

-- The lane of the per-class id property.
unfoldable pub convention_lane : Ontology → List Text → Text → Text → Text → FileSubjects
unfolding app_base_from_kit_ns find_value id_key_matches
convention_lane o lines uri kit class =
    if not (declares o (kit ++ (b'/' ∷ (class ++ (b'/' ∷ id_property class)))))
    then file_only uri
    else convention_thing o uri kit class
        (find_value (λ key. id_key_matches key kit class (id_property class)) lines)

-- The lane of the universal id; a malformed one falls through.
abbrev universal_thing :
    Ontology → List Text → Text → Text → Text → Result Refusal UniversalId → FileSubjects
universal_thing o lines uri kit class (err e) = convention_lane o lines uri kit class
universal_thing o lines uri kit class (ok id) =
    with_thing uri (thing_address id.inner) id.namespace id.class

abbrev universal_lane : Ontology → List Text → Text → Text → Text → Option Text → FileSubjects
universal_lane o lines uri kit class none = convention_lane o lines uri kit class
universal_lane o lines uri kit class (some raw) =
    universal_thing o lines uri kit class (parse_universal_id raw)

abbrev anchored : Ontology → List Text → Text → Option (Text × Text) → FileSubjects
anchored o lines uri none = file_only uri
anchored o lines uri (some (kit, seg)) =
    let class = resolve_class_segment (o.classes kit) seg in
    universal_lane o lines uri kit class
      (find_value (λ key. same key (dotted kit class (codes "id"))) lines)

unfoldable pub derive_file_subjects : Ontology → List Text → Text → FileSubjects
unfolding first_anchor find_value resolve_class_segment convention_lane
derive_file_subjects o lines relpath =
    anchored o lines (angle (file_iri (uri_encode_path relpath))) (first_anchor lines)
