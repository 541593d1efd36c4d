-- ===== src/Walk/Places.antt =====
-- The sidecars that the retract guard reads, and what it finds in one of them.
use git_lex.Base.{
  ◌≡◌, ◌⊎◌, refl, ap, sym, ◌∙◌, inl, inr, true, false, ◌||◌, Option, none, some, List, [], ◌∷◌,
  ◌++◌, map, Result, ok, err, length, Bool-cases, All, if◌then◌else◌,
}
use git_lex.Text.{Text, same, same-eq}
use git_lex.Sets.{member}
use git_lex.Sets.Counting.{Within, Nodup}
use git_lex.Fallible.{and_then, ok-eq}
use git_lex.Walk.Sidecars.{
  SidecarReader, spo_extractor_suffixes, sidecar_path, lines_of, resolve_present, resolve_for,
  resolve_sidecar_at,
}
use git_lex.Walk.Names.{derive_source_document-sidecar_path}
use git_lex.Walk.World.{Says}
use git_lex.Walk.Guard.{mark_live, blob_triples, untouched_triples, places}
use git_lex.Walk.Marked.{Marked, mark_live-Marked}

abbrev pub IsPlace : Text × Text → Type 0
IsPlace (_, suffix) = member suffix spo_extractor_suffixes ≡ true

pub places-All : (docs : List Text) → All IsPlace (places docs)
places-All [] = tt
places-All (doc ∷ docs) = (refl, (refl, (refl, (refl, (refl, places-All docs)))))

abbrev pub In : Text → Text → List (Text × Text) → Type 0
In doc suffix [] = ⊥
In doc suffix ((d, s) ∷ ps) = ((doc ≡ d) × (suffix ≡ s)) ⊎ In doc suffix ps

In-map :
    (doc suffix : Text) (ss : List Text) (ps : List (Text × Text))
    → (member suffix ss ≡ true) ⊎ In doc suffix ps
    → In doc suffix (map (λ s. (doc, s)) ss ++ ps)
In-map doc suffix [] ps (inl m) = cc
In-map doc suffix [] ps (inr i) = i
In-map doc suffix (s ∷ ss) ps (inr i) = inr (In-map doc suffix ss ps (inr i))
In-map doc suffix (s ∷ ss) ps (inl m) = elim (Bool-cases (same suffix s)) [
  | inl e ↦ inl (refl, same-eq suffix s e)
  | inr e ↦ inr (In-map doc suffix ss ps (inl (ap (λ b. b || member suffix ss) (sym e) ∙ m)))
]

In-skip :
    (doc suffix d : Text) (ss : List Text) (ps : List (Text × Text))
    → In doc suffix ps
    → In doc suffix (map (λ s. (d, s)) ss ++ ps)
In-skip doc suffix d [] ps i = i
In-skip doc suffix d (s ∷ ss) ps i = inr (In-skip doc suffix d ss ps i)

pub In-places :
    (doc suffix : Text) (docs : List Text)
    → member doc docs ≡ true
    → member suffix spo_extractor_suffixes ≡ true
    → In doc suffix (places docs)
In-places doc suffix [] m k = cc
In-places doc suffix (d ∷ docs) m k = elim (Bool-cases (same doc d)) [
  | inl e ↦
      rw (sym (same-eq doc d e)) (In-map doc suffix spo_extractor_suffixes (places docs) (inl k))
  | inr e ↦
      In-skip doc suffix d spo_extractor_suffixes (places docs)
        (In-places doc suffix docs (ap (λ b. b || member doc docs) (sym e) ∙ m) k)
]

abbrev pub Outside : List Text → Text → Type 0
Outside touched_any path = member path touched_any ≡ false

module _ {O E : Type 0} (reader : SidecarReader O E)
    (resolve_lines : List Text → Text → Text → Result E (List Text)) where
  abbrev pub resolve : Text → Text → Result E (List Text)
  resolve = resolve_sidecar_at reader resolve_lines

  read-agrees :
      (path doc : Text) (r : Result E (Option O))
      → and_then r (blob_triples reader resolve_lines path doc)
        ≡ and_then (and_then r (lines_of reader)) (resolve_present reader resolve_lines path doc)
  read-agrees path doc (err e) = refl
  read-agrees path doc (ok none) = refl
  read-agrees path doc (ok (some oid)) = refl

  pub untouched_triples-resolve :
      (touched_any : List Text) (sha doc suffix : Text)
      → Outside touched_any (sidecar_path doc suffix)
      → member suffix spo_extractor_suffixes ≡ true
      → untouched_triples reader resolve_lines touched_any sha (sidecar_path doc suffix) doc
        ≡ resolve sha (sidecar_path doc suffix)
  unfolding resolve_sidecar_at
  untouched_triples-resolve touched_any sha doc suffix o m =
      ap
        (λ b.
          if b
          then ok []
          else and_then (reader.blob_at sha (sidecar_path doc suffix))
              (blob_triples reader resolve_lines (sidecar_path doc suffix) doc))
        o
      ∙ read-agrees (sidecar_path doc suffix) doc (reader.blob_at sha (sidecar_path doc suffix))
      ∙ ap (resolve_for reader resolve_lines sha (sidecar_path doc suffix))
          (sym (derive_source_document-sidecar_path doc suffix m))

  pub marked :
      (retracts found live : List Text)
      → Nodup live
      → Within live retracts
      → Marked
          (length retracts)
          retracts
          retracts
          found
          live
          (mark_live (length retracts) retracts found live)
  marked retracts found live d w =
      mark_live-Marked (length retracts) retracts retracts found live d w (λ z m. m)

  -- A place that is read yields what the sidecar states, one that is touched nothing.
  pub found-Says :
      (touched_any : List Text) (sha doc suffix : Text) (found : List Text) (z : Text)
      → member suffix spo_extractor_suffixes ≡ true
      → untouched_triples reader resolve_lines touched_any sha (sidecar_path doc suffix) doc
        ≡ ok found
      → member z found ≡ true
      → Says resolve (Outside touched_any) sha z
  found-Says touched_any sha doc suffix found z k e m =
      elim (Bool-cases (member (sidecar_path doc suffix) touched_any)) [
        | inl t ↦
            let nothing : [] ≡ found = ok-eq [] found (
              ap
                (λ b.
                  if b
                  then ok []
                  else and_then (reader.blob_at sha (sidecar_path doc suffix))
                      (blob_triples reader resolve_lines (sidecar_path doc suffix) doc))
                (sym t)
              ∙ e) in
            let g : false ≡ true = ap (member z) nothing ∙ m in cc
        | inr o ↦ (
          sidecar_path doc suffix,
          found,
          o,
          sym (untouched_triples-resolve touched_any sha doc suffix o k) ∙ e,
          m,
        )
      ]
