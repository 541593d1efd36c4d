-- ===== src/Walk/Scanned.antt =====
-- The guard's scan of the sidecars of its documents.
use git_lex.Base.{
  ◌≡◌, ◌⊎◌, refl, ap, sym, ◌∙◌, inl, inr, true, false, List, [], ◌∷◌, Result, ok, length,
  Bool-cases, All,
}
use git_lex.Text.{Text}
use git_lex.Sets.{member}
use git_lex.Sets.Counting.{Within, Within-all, Nodup}
use git_lex.Fallible.{and_then-ok, ok-eq}
use git_lex.Walk.Sidecars.{SidecarReader, spo_extractor_suffixes, sidecar_path}
use git_lex.Walk.World.{Says}
use git_lex.Walk.Guard.{mark_live, untouched_triples, scan, places}
use git_lex.Walk.Places.{
  IsPlace, places-All, In, In-places, Outside, resolve, untouched_triples-resolve, marked,
  found-Says,
}

module _ {O E : Type 0} (reader : SidecarReader O E)
    (resolve_lines : List Text → Text → Text → Result E (List Text)) where
  abbrev step :
      List Text
      → List Text
      → Text
      → List (Text × Text)
      → List Text
      → List Text
      → Result E (List Text)
  step retracts touched_any sha ps live found =
      let (more, stop) = mark_live (length retracts) retracts found live in
      elim stop [
        | true ↦ ok more
        | false ↦ scan reader resolve_lines retracts touched_any sha ps more
      ]

  scan_sound :
      (retracts touched_any : List Text) (sha : Text) (ps : List (Text × Text))
      (live out : List Text)
      → All IsPlace ps
      → Nodup live
      → Within live retracts
      → scan reader resolve_lines retracts touched_any sha ps live ≡ ok out
      → (z : Text) → member z out ≡ true
      → (member z live ≡ true) ⊎ Says (resolve reader resolve_lines) (Outside touched_any) sha z
  unfolding scan
  scan_sound retracts touched_any sha [] live out p d w h z m = inl (rw (ok-eq live out h) m)
  scan_sound retracts touched_any sha ((doc, suffix) ∷ ps) live out (k, p) d w h z m =
      let (found, e, rest) =
        and_then-ok
          (untouched_triples reader resolve_lines touched_any sha (sidecar_path doc suffix) doc)
          (step retracts touched_any sha ps live) out h in
      let made = (marked reader resolve_lines) retracts found live d w in
      let more = (mark_live (length retracts) retracts found live).0 in
      let inside : member z more ≡ true
          → (member z live ≡ true)
            ⊎ Says (resolve reader resolve_lines) (Outside touched_any) sha z =
        λ m. elim (made.sound z m) [
          | inl old ↦ inl old
          | inr new ↦
              inr ((found-Says reader resolve_lines) touched_any sha doc suffix found z k e new)
        ] in
      elim (Bool-cases (mark_live (length retracts) retracts found live).1) [
        | inl stop ↦ inside (rw (ok-eq more out (rw (stop, step) at rest)) m)
        | inr on ↦
            elim (scan_sound retracts touched_any sha ps more out p made.nodup made.within
              (rw (on, step) at rest) z m) [ inl old ↦ inside old | inr says ↦ inr says ]
      ]

  scan-kept :
      (retracts touched_any : List Text) (sha : Text) (ps : List (Text × Text))
      (live out : List Text)
      → Nodup live
      → Within live retracts
      → scan reader resolve_lines retracts touched_any sha ps live ≡ ok out
      → Within live out
  unfolding scan
  scan-kept retracts touched_any sha [] live out d w h z m = rw (sym (ok-eq live out h)) m
  scan-kept retracts touched_any sha ((doc, suffix) ∷ ps) live out d w h z m =
      let (found, _, rest) =
        and_then-ok
          (untouched_triples reader resolve_lines touched_any sha (sidecar_path doc suffix) doc)
          (step retracts touched_any sha ps live) out h in
      let made = (marked reader resolve_lines) retracts found live d w in
      let more = (mark_live (length retracts) retracts found live).0 in
      elim (Bool-cases (mark_live (length retracts) retracts found live).1) [
        | inl stop ↦ rw (sym (ok-eq more out (rw (stop, step) at rest))) (made.kept z m)
        | inr on ↦
            scan-kept retracts touched_any sha ps more out made.nodup made.within
              (rw (on, step) at rest) z (made.kept z m)
      ]

  -- A candidate that a place's sidecar states is live, also when the scan stops before the place.
  scan_complete :
      (retracts touched_any : List Text) (sha doc suffix : Text) (lines : List Text) (z : Text)
      (ps : List (Text × Text)) (live out : List Text)
      → Nodup live
      → Within live retracts
      → scan reader resolve_lines retracts touched_any sha ps live ≡ ok out
      → In doc suffix ps
      → untouched_triples reader resolve_lines touched_any sha (sidecar_path doc suffix) doc
        ≡ ok lines
      → member z lines ≡ true
      → member z retracts ≡ true
      → member z out ≡ true
  unfolding scan
  scan_complete retracts touched_any sha doc suffix lines z [] live out d w h i e k m = absurd i
  scan_complete retracts touched_any sha doc suffix lines z ((d0, s0) ∷ ps) live out d w h i e k m =
      let (found, read, rest) =
        and_then-ok (untouched_triples reader resolve_lines touched_any sha (sidecar_path d0 s0) d0)
          (step retracts touched_any sha ps live) out h in
      let made = (marked reader resolve_lines) retracts found live d w in
      let more = (mark_live (length retracts) retracts found live).0 in
      elim (Bool-cases (mark_live (length retracts) retracts found live).1) [
        | inl stop ↦
            rw (sym (ok-eq more out (rw (stop, step) at rest)))
              (Within-all more retracts made.nodup made.within (made.stop stop) z m)
        | inr on ↦ elim i [
          | inl (same_doc, same_suffix) ↦
              let equal : lines ≡ found =
                ok-eq lines found
                  (sym e ∙ place-eq touched_any sha doc d0 suffix s0 same_doc same_suffix ∙ read) in
              scan-kept retracts touched_any sha ps more out made.nodup made.within
                (rw (on, step) at rest) z (made.marks on z m (sym (ap (member z) equal) ∙ k))
          | inr i ↦
              scan_complete retracts touched_any sha doc suffix lines z ps more out made.nodup
                made.within (rw (on, step) at rest) i e k m
        ]
      ]
    where
      place-eq :
          (touched_any : List Text) (sha doc d0 suffix s0 : Text)
          → doc ≡ d0
          → suffix ≡ s0
          → untouched_triples reader resolve_lines touched_any sha (sidecar_path doc suffix) doc
            ≡ untouched_triples reader resolve_lines touched_any sha (sidecar_path d0 s0) d0
      place-eq touched_any sha doc d0 suffix s0 e f = rw (e, f) refl

  -- The scan over the sidecars of some documents: what it finds live an unnamed sidecar states, and
  -- what a sidecar of one of them states it finds.
  pub scan-places :
      (retracts touched_any docs : List Text) (sha : Text) (out : List Text) (z : Text)
      → scan reader resolve_lines retracts touched_any sha (places docs) [] ≡ ok out
      → (member z out ≡ true → Says (resolve reader resolve_lines) (Outside touched_any) sha z)
        × ((doc suffix : Text) (lines : List Text)
            → member doc docs ≡ true
            → member suffix spo_extractor_suffixes ≡ true
            → Outside touched_any (sidecar_path doc suffix)
            → (resolve reader resolve_lines) sha (sidecar_path doc suffix) ≡ ok lines
            → member z lines ≡ true
            → member z retracts ≡ true
            → member z out ≡ true)
  scan-places retracts touched_any docs sha out z h = (
    λ m.
        elim (scan_sound retracts touched_any sha (places docs) [] out (places-All docs) tt
          (λ z e. cc) h z m) [ inl e ↦ cc | inr says ↦ says ],
    λ doc suffix lines there s o e k m.
        scan_complete retracts touched_any sha doc suffix lines z (places docs) [] out tt
          (λ z e. cc) h (In-places doc suffix docs there s)
          ((untouched_triples-resolve reader resolve_lines) touched_any sha doc suffix o s ∙ e) k m,
  )
