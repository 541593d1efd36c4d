-- ===== src/Identity/Subjects/Anchor.antt =====
-- Where a document's Thing is anchored, and where references to it resolve.
use git_lex.Base.{
  Bool, true, ◌≡◌, ◌≢◌, refl, sym, ap, ◌∙◌, inl, inr, ◌||◌, some, List, [], ◌∷◌, ◌++◌, arith,
  append_assoc, ok, Bool-cases, Option-cases, any, map,
}
use git_lex.Text.{Text, codes, same, same_refl, same_ignoring_case, lower_ascii}
use git_lex.Text.Split.{Lacks, rsplit_once, rsplit_once-append}
use git_lex.Identity.{
  UniversalId, iri, thing_address, parse_universal_id, resolve_thing_reference,
  resolve_frontmatter_value,
}
use git_lex.Identity.Join.{thing_reference_agrees, universal_id-is_reference}
use git_lex.Identity.Subjects.{
  Ontology, resolve_class_segment, find_ignoring_case, dotted, id_key_matches, first_anchor,
  find_value, derive_file_subjects, convention_lane, declares, id_property, kit_ns,
  thing_iri_from_range,
}

-- A document whose universal id is well formed anchors at the address of that id, and every
-- reference that spells the same address, in the property lane or the Thing lane of any kit,
-- resolves to that very Thing.
pub reference-derive_file_subjects :
    (o : Ontology) (lines : List Text) (relpath kit seg raw other base scaffold : Text)
    (id : UniversalId) (id' : UniversalId)
    → first_anchor lines ≡ some (kit, seg)
    → find_value
        (λ key. same key (dotted kit (resolve_class_segment (o.classes kit) seg) (codes "id")))
        lines
      ≡ some raw
    → parse_universal_id raw ≡ ok id
    → parse_universal_id other ≡ ok id'
    → id'.inner ≡ id.inner
    → ((derive_file_subjects o lines relpath).thing_uri ≡ some (thing_address id.inner))
      × (resolve_thing_reference other ≡ ok (thing_address id.inner))
      × (resolve_frontmatter_value base scaffold other ≡ iri (thing_address id.inner))
unfolding derive_file_subjects
reference-derive_file_subjects o lines relpath kit seg raw other base scaffold id id' a v p q e =
    let thing : resolve_thing_reference other ≡ ok (thing_address id.inner) =
      universal_id-is_reference other id' q ∙ ap (λ (t : Text). ok (thing_address t)) e in
    (rw (a, v, p), thing, thing_reference_agrees base scaffold other (thing_address id.inner) thing)

-- A Thing anchored by its class's own declared id property has the IRI that the same id resolves to
-- under the declared range of that class, when the kit's namespace ends in a slash, and the class is
-- not empty and has none.
pub range-convention_lane :
    (o : Ontology) (lines : List Text) (uri kit class ns id : Text)
    → declares o (kit ++ (b'/' ∷ (class ++ (b'/' ∷ id_property class)))) ≡ true
    → find_value (λ key. id_key_matches key kit class (id_property class)) lines ≡ some id
    → kit_ns o kit ≡ ns ++ b'/' ∷ []
    → class ≢ []
    → Lacks b'/' class
    → (convention_lane o lines uri kit class).thing_uri
      ≡ thing_iri_from_range (ns ++ b'/' ∷ class) id
unfolding convention_lane thing_iri_from_range
range-convention_lane o lines uri kit [] ns id d v n ne l = absurd (ne refl)
range-convention_lane o lines uri kit (c ∷ class) ns id d v n ne l =
    rw (d, v, n, rsplit_once-append b'/' ns (c ∷ class) l)

same_sym : (s t : Text) → same s t ≡ same t s
same_sym [] [] = refl
same_sym [] (b ∷ t) = refl
same_sym (a ∷ s) [] = refl
same_sym (a ∷ s) (b ∷ t) = ground (arith, same_sym s t)

find-same :
    (seg : Text) (cs : List Text) (c : Text)
    → find_ignoring_case seg cs ≡ some c
    → same_ignoring_case seg c ≡ true
find-same seg [] c h = cc
find-same seg (d ∷ cs) c h = elim (Bool-cases (same_ignoring_case d seg)) [
  | inl t ↦
      let e : d ≡ c = cc (rw t at h) in
      same_sym (map lower_ascii seg) (map lower_ascii c)
      ∙ ap (λ (x : Text). same_ignoring_case x seg) (sym e)
      ∙ t
  | inr f ↦ find-same seg cs c (rw f at h)
]

resolve-same :
    (cs : List Text) (seg : Text) → same_ignoring_case seg (resolve_class_segment cs seg) ≡ true
unfolding resolve_class_segment
resolve-same [] seg = same_refl (map lower_ascii seg)
resolve-same (c ∷ cs) seg = elim (Bool-cases (any (λ d. same d seg) (c ∷ cs))) [
  | inl exact ↦ rw exact (same_refl (map lower_ascii seg))
  | inr other ↦ elim (Option-cases (find_ignoring_case seg (c ∷ cs))) [
    | inl missing ↦ rw (other, missing) (same_refl (map lower_ascii seg))
    | inr (d, found) ↦ rw (other, found) (find-same seg (c ∷ cs) d found)
  ]
]

-- Splitting a key from the right gives its three segments.
rsplit_dotted :
    (kit seg prop : Text)
    → Lacks b'.' prop
    → rsplit_once b'.' (dotted kit seg prop) ≡ some (kit ++ b'.' ∷ seg, prop)
rsplit_dotted kit seg prop l =
    ap (rsplit_once b'.') (sym (append_assoc kit (b'.' ∷ seg) (b'.' ∷ prop)))
    ∙ rsplit_once-append b'.' (kit ++ b'.' ∷ seg) prop l

or_right : (a b : Bool) → b ≡ true → (a || b) ≡ true
or_right a b h = ground arith

-- The lookup of an id by class grants the class segment the tolerance of the class resolver: a key
-- of a kit, a segment and the id property matches the class that the resolver gives for the segment,
-- when neither the segment nor the property has a dot.
pub id_key_matches-resolve_class_segment :
    (classes : List Text) (kit seg prop : Text)
    → Lacks b'.' seg
    → Lacks b'.' prop
    → id_key_matches (dotted kit seg prop) kit (resolve_class_segment classes seg) prop ≡ true
unfolding id_key_matches
id_key_matches-resolve_class_segment classes kit seg prop ls lp =
    or_right (same (dotted kit seg prop) (dotted kit (resolve_class_segment classes seg) prop)) _ (
      rw
        (
          rsplit_dotted kit seg prop lp,
          rsplit_once-append b'.' kit seg ls,
          same_refl kit,
          same_refl prop,
        )
        (resolve-same classes seg))
