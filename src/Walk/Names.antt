-- ===== src/Walk/Names.antt =====
-- The names of sidecars and the documents that they give.
use mathlib.Core.List.{reverse-append}
use mathlib.Core.Option.{some-injective}
use git_lex.Base.{
  ◌≡◌, ◌≢◌, refl, ap, sym, ◌∙◌, inl, inr, Bool, true, ◌||◌, false, Option, none, some, ◌>>=◌, List,
  [], ◌∷◌, ◌++◌, reverse, Option-cases, if◌then◌else◌, arith, length, length-append, ℕ,
}
use git_lex.Text.{
  Text, codes, starts_with, is_some, same, same_refl, same-ne, strip_prefix, strip_suffix,
  extend_some, strip_prefix-append, strip_prefix-eq_some, strip_suffix-eq_some,
}
use git_lex.Sets.{member, member-All}
use git_lex.Walk.Sidecars.{
  spo_extractor_suffixes, extract_prefix, spo_ending, sidecar_path, or_next, first_base,
  derive_source_document,
}

longer-ne : (c : ℕ) (s p : Text) → c ∷ (s ++ p) ≢ p
longer-ne c s p e = let n = ap length e in omega (arith, n, length-append s p)

strip_suffix-append : (s p : Text) → p ≢ [] → strip_suffix p (s ++ p) ≡ some s
strip_suffix-append [] [] h = absurd (h refl)
strip_suffix-append [] (c ∷ p) h =
    ap (λ b. if b then some [] else extend_some c (strip_suffix (c ∷ p) p)) (same_refl (c ∷ p))
strip_suffix-append (c ∷ s) p h =
    ap (λ b. if b then some [] else extend_some c (strip_suffix p (s ++ p)))
      (same-ne (c ∷ (s ++ p)) p (longer-ne c s p))
    ∙ ap (extend_some c) (strip_suffix-append s p h)

strip_suffix-none : (s p q : Text) → ((d : Text) → s ++ p ≢ d ++ q) → strip_suffix q (s ++ p) ≡ none
strip_suffix-none s p q h = elim (Option-cases (strip_suffix q (s ++ p))) [
  | inl e ↦ e
  | inr (d, e) ↦ absurd (h d (strip_suffix-eq_some q (s ++ p) d e))
]

-- Two texts that end alike.
ends : (a b p q : Text) → a ++ p ≡ b ++ q → reverse p ++ reverse a ≡ reverse q ++ reverse b
ends a b p q e = sym (reverse-append a p) ∙ ap reverse e ∙ reverse-append b q

true-ne-false : true ≢ false
true-ne-false e = cc

-- No text ends in both.
pub clash :
    (a p q : Text)
    → starts_with (reverse q) (reverse p ++ reverse a) ≡ false
    → (b : Text) → a ++ p ≢ b ++ q
clash a p q h b e = true-ne-false (
    ap is_some (sym (strip_prefix-append (reverse q) (reverse b)))
    ∙ ap (starts_with (reverse q)) (sym (ends a b p q e))
    ∙ h)

abbrev fm : Text
fm = spo_ending (codes "fm")

abbrev md : Text
md = spo_ending (codes "md")

abbrev cc_ending : Text
cc_ending = spo_ending (codes "cc")

abbrev gliner : Text
gliner = spo_ending (codes "gliner")

abbrev haiku : Text
haiku = spo_ending (codes "haiku")

skip :
    (doc p q : Text) (later : Option Text)
    → starts_with (reverse q) (reverse p ++ reverse doc) ≡ false
    → or_next (strip_suffix q (doc ++ p)) later ≡ later
skip doc p q later h =
    ap (λ o. or_next o later) (strip_suffix-none doc p q (λ b. clash doc p q h b))

found :
    (doc p : Text) (later : Option Text) (n : p ≢ [])
    → or_next (strip_suffix p (doc ++ p)) later ≡ some doc
found doc p later n = ap (λ o. or_next o later) (strip_suffix-append doc p n)

first_base-fm : (doc : Text) → first_base (doc ++ fm) spo_extractor_suffixes ≡ some doc
first_base-fm doc = found doc fm _ (λ e. cc)

first_base-haiku : (doc : Text) → first_base (doc ++ haiku) spo_extractor_suffixes ≡ some doc
first_base-haiku doc =
    skip doc haiku fm _ refl
    ∙ skip doc haiku md _ refl
    ∙ skip doc haiku cc_ending _ refl
    ∙ skip doc haiku gliner _ refl
    ∙ found doc haiku _ (λ e. cc)

first_base-md : (doc : Text) → first_base (doc ++ md) spo_extractor_suffixes ≡ some doc
first_base-md doc = skip doc md fm _ refl ∙ found doc md _ (λ e. cc)

first_base-cc : (doc : Text) → first_base (doc ++ cc_ending) spo_extractor_suffixes ≡ some doc
first_base-cc doc =
    skip doc cc_ending fm _ refl ∙ skip doc cc_ending md _ refl ∙ found doc cc_ending _ (λ e. cc)

first_base-gliner : (doc : Text) → first_base (doc ++ gliner) spo_extractor_suffixes ≡ some doc
first_base-gliner doc =
    skip doc gliner fm _ refl
    ∙ skip doc gliner md _ refl
    ∙ skip doc gliner cc_ending _ refl
    ∙ found doc gliner _ (λ e. cc)

first_base-suffix :
    (doc suffix : Text)
    → member suffix spo_extractor_suffixes ≡ true
    → first_base (doc ++ spo_ending suffix) spo_extractor_suffixes ≡ some doc
first_base-suffix doc suffix h =
    member-All (λ s. first_base (doc ++ spo_ending s) spo_extractor_suffixes ≡ some doc) suffix
      spo_extractor_suffixes
      (
        first_base-fm doc,
        (
          first_base-md doc,
          (first_base-cc doc, (first_base-gliner doc, (first_base-haiku doc, tt))),
        ),
      )
      h

-- The name of a document's sidecar gives the document back, for every extractor.
pub derive_source_document-sidecar_path :
    (doc suffix : Text)
    → member suffix spo_extractor_suffixes ≡ true
    → derive_source_document (sidecar_path doc suffix) ≡ some doc
unfolding derive_source_document sidecar_path
derive_source_document-sidecar_path doc suffix h =
    ap (λ o. o >>= λ after. first_base after spo_extractor_suffixes)
      (strip_prefix-append extract_prefix (doc ++ spo_ending suffix))
    ∙ first_base-suffix doc suffix h

first_base-eq_some :
    (after doc : Text) (suffixes : List Text)
    → first_base after suffixes ≡ some doc
    → (suffix : Text) × (member suffix suffixes ≡ true) × (after ≡ doc ++ spo_ending suffix)
first_base-eq_some after doc [] h = cc
first_base-eq_some after doc (suffix ∷ suffixes) h =
    elim (Option-cases (strip_suffix (spo_ending suffix) after)) [
      | inl e ↦
          let (s, m, eq) =
            first_base-eq_some after doc suffixes
              (ap (λ o. or_next o (first_base after suffixes)) (sym e) ∙ h) in
          (s, weaken (same s suffix) (member s suffixes) m, eq)
      | inr (base, e) ↦
          let same_doc : base ≡ doc =
            some-injective base doc (ap (λ o. or_next o (first_base after suffixes)) (sym e) ∙ h) in
          (
            suffix,
            ap (λ b. b || member suffix suffixes) (same_refl suffix),
            strip_suffix-eq_some (spo_ending suffix) after base e
                ∙ ap (λ (d : Text). d ++ spo_ending suffix) same_doc,
          )
    ]
  where
    weaken : (a b : Bool) → b ≡ true → (a || b) ≡ true
    weaken true b h = refl
    weaken false b h = h

-- Only the name of a document's sidecar gives a document.
pub derive_source_document-eq_some :
    (path doc : Text)
    → derive_source_document path ≡ some doc
    → (suffix : Text) × (member suffix spo_extractor_suffixes ≡ true)
      × (path ≡ sidecar_path doc suffix)
unfolding derive_source_document sidecar_path
derive_source_document-eq_some path doc h = elim (Option-cases (strip_prefix extract_prefix path)) [
  | inl e ↦
      let g = ap (λ o. o >>= λ after. first_base after spo_extractor_suffixes) (sym e) ∙ h in cc
  | inr (after, e) ↦
      let (suffix, m, eq) =
        first_base-eq_some after doc spo_extractor_suffixes
          (ap (λ o. o >>= λ after. first_base after spo_extractor_suffixes) (sym e) ∙ h) in
      (
        suffix,
        m,
        strip_prefix-eq_some extract_prefix path after e
            ∙ ap (λ (t : Text). extract_prefix ++ t) eq,
      )
]
