-- ===== src/Identity/Join.antt =====
-- The two resolvers of src/resolve.rs on one authored address.
use mathlib.Core.List.{reverse-append}
use git_lex.Base.{
  ℕ, true, false, ◌≡◌, ◌≢◌, refl, sym, ap, ◌∙◌, inl, inr, ◌⊎◌, Option, none, some, List, [], ◌∷◌,
  ◌++◌, reverse, if◌then◌else◌, arith, append_assoc, ok, err, Bool-cases, Option-cases, ◌==◌, ◌>>=◌,
}
use git_lex.Text.{
  Text, codes, trim, trim_end, trim_start-snoc, trim_end-snoc, is_space, starts_with, ends_with,
  strip_prefix, strip_suffix, strip_prefix-eq_some, strip_suffix-eq_some, has, is_some, is_empty,
  has_text,
}
use git_lex.Text.Split.{split, Lacks, split-Lacks}
use git_lex.Identity.{
  Refusal, UniversalId, iri, brackets, scheme_mark, thing_address, parse_universal_id,
  resolve_thing_reference, resolve_frontmatter_value, id_of, id_from, thing_from, bracketed,
}

last_eq : (s t : Text) (a b : ℕ) → s ++ a ∷ [] ≡ t ++ b ∷ [] → a ≡ b
last_eq s t a b e = cc (reverse-append s (a ∷ []), reverse-append t (b ∷ []), ap reverse e)

brackets-eq_some :
    (raw between : Text) → brackets raw ≡ some between → trim raw ≡ b'<' ∷ (between ++ b'>' ∷ [])
unfolding brackets
brackets-eq_some raw between e = opened (strip_prefix (b'<' ∷ []) (trim raw)) refl e
  where
    opened :
        (o : Option Text)
        → strip_prefix (b'<' ∷ []) (trim raw) ≡ o
        → (o >>= strip_suffix (b'>' ∷ [])) ≡ some between
        → trim raw ≡ b'<' ∷ (between ++ b'>' ∷ [])
    opened none p q = cc
    opened (some r) p q =
        strip_prefix-eq_some (b'<' ∷ []) (trim raw) r p
        ∙ ap (◌∷◌ b'<') (strip_suffix-eq_some (b'>' ∷ []) r between q)

first_char : (c d : ℕ) (s rest : Text) → is_space c ≡ false → trim (c ∷ s) ≡ d ∷ rest → c ≡ d
first_char c d s rest h e = shape (trim_end s) (rw (h, h) at e)
  where
    shape : (t : Text) → c ∷ t ≡ d ∷ rest → c ≡ d
    shape t e = cc

-- A bracketed value does not begin like a wikilink or a mention.
starts_elsewhere :
    (raw between p : Text) (c : ℕ)
    → is_space c ≡ false
    → c ≢ b'<'
    → brackets raw ≡ some between
    → starts_with (c ∷ p) raw ≡ false
starts_elsewhere [] between p c h ne e = refl
starts_elsewhere (d ∷ raw) between p c h ne e = elim (Bool-cases (c == d)) [
  | inl same ↦
      let e' : c ≡ d = ground arith in
      let space : is_space d ≡ false = cc in
      absurd (ne (e' ∙ first_char d b'<' raw _ space (brackets-eq_some (d ∷ raw) between e)))
  | inr other ↦ rw other
]

-- It does not end like one either.
ends_elsewhere :
    (raw between : Text) → brackets raw ≡ some between → ends_with (codes "]]") raw ≡ false
ends_elsewhere raw between e = elim (Option-cases (strip_suffix (codes "]]") raw)) [
  | inl no_suffix ↦ ap is_some no_suffix
  | inr (t, suffix) ↦ absurd (clash t (strip_suffix-eq_some (codes "]]") raw t suffix))
]
  where
    clash : (t : Text) → raw ≡ t ++ codes "]]" → ⊥
    clash t spelled =
        let spelled' : raw ≡ (t ++ b']' ∷ []) ++ b']' ∷ [] = spelled ∙ rw append_assoc in
        let (u, trimmed) = trim_start-snoc (t ++ b']' ∷ []) b']' (unfold is_space in refl) in
        let whole : trim raw ≡ u ++ b']' ∷ [] =
          ap trim spelled' ∙ ap trim_end trimmed ∙ trim_end-snoc u b']' (unfold is_space in refl) in
        let closed : (b'<' ∷ between) ++ b'>' ∷ [] ≡ u ++ b']' ∷ [] =
          sym (brackets-eq_some raw between e) ∙ whole in
        absurd (omega (arith, last_eq (b'<' ∷ between) u b'>' b']' closed))

resolve-bracketed :
    (base scaffold raw between : Text)
    → brackets raw ≡ some between
    → resolve_frontmatter_value base scaffold raw ≡ bracketed between
unfolding resolve_frontmatter_value
resolve-bracketed base scaffold raw between e = rw (
  starts_elsewhere raw between (codes "[") b'[' (unfold is_space in refl) (omega arith) e,
  ends_elsewhere raw between e,
  starts_elsewhere raw between [] b'@' (unfold is_space in refl) (omega arith) e,
  e,
)

bracketed-thing :
    (between address : Text)
    → thing_from (some between) ≡ ok address
    → bracketed between ≡ iri address
bracketed-thing between address h = ground arith

has-Lacks : (c : ℕ) (s : Text) → has c s ≡ false → Lacks c s
has-Lacks c [] h = tt
has-Lacks c (d ∷ s) h = (ground arith, has-Lacks c s (ground arith))

id_of-inner :
    (inner : Text) (segs : List Text) (id : UniversalId)
    → id_of inner segs ≡ ok id
    → id.inner ≡ inner
id_of-inner inner [] id h = cc
id_of-inner inner (a ∷ []) id h = cc
id_of-inner inner (a ∷ b ∷ []) id h = cc
id_of-inner inner (a ∷ b ∷ c ∷ more) id h = ground arith

-- Three segments need a slash, and something to split.
id_of-slash :
    (inner : Text) (id : UniversalId)
    → id_of inner (split b'/' inner) ≡ ok id
    → (is_empty inner ≡ false) × (has b'/' inner ≡ true)
id_of-slash [] id h = unfold split in cc h
id_of-slash (c ∷ s) id h = (refl, slash (Bool-cases (has b'/' (c ∷ s))))
  where
    slash : (has b'/' (c ∷ s) ≡ true) ⊎ (has b'/' (c ∷ s) ≡ false) → has b'/' (c ∷ s) ≡ true
    slash (inl yes') = yes'
    slash (inr none') =
        absurd (refused (rw (split-Lacks b'/' (c ∷ s) (has-Lacks b'/' (c ∷ s) none')) at h))
      where
        refused : id_of (c ∷ s) ((c ∷ s) ∷ []) ≡ ok id → ⊥
        refused e = cc

thing-id :
    (between : Text) (id : UniversalId)
    → id_from (some between) ≡ ok id
    → thing_from (some between) ≡ ok (thing_address id.inner)
thing-id between id h =
    let inner = trim between in
    let absolute : has_text scheme_mark inner ≡ false = not_absolute inner (Bool-cases _) h in
    let found : id_of inner (split b'/' inner) ≡ ok id = rw absolute at h in
    let (full, slash) = id_of-slash inner id found in
    rw (full, absolute, slash, id_of-inner inner (split b'/' inner) id found)
  where
    not_absolute :
        (inner : Text)
        → (has_text scheme_mark inner ≡ true) ⊎ (has_text scheme_mark inner ≡ false)
        → (if has_text scheme_mark inner
            then err Refusal.absolute_url
            else id_of inner (split b'/' inner))
          ≡ ok id
        → has_text scheme_mark inner ≡ false
    not_absolute inner (inl t) k = absurd (cc (rw t at k))
    not_absolute inner (inr f) k = f

thing-eq_some :
    (raw address : Text)
    → resolve_thing_reference raw ≡ ok address
    → (between : Text) × (brackets raw ≡ some between) × (thing_from (some between) ≡ ok address)
unfolding resolve_thing_reference
thing-eq_some raw address h = from (brackets raw) refl h
  where
    from :
        (o : Option Text)
        → brackets raw ≡ o
        → thing_from o ≡ ok address
        → (between : Text) × (brackets raw ≡ some between)
          × (thing_from (some between) ≡ ok address)
    from none e k = cc
    from (some between) e k = (between, e, k)

-- Whatever the Thing lane resolves, the property lane resolves to the same IRI, and the kit of the
-- writing document (its base and scaffold folder) has no part in it.
pub thing_reference_agrees :
    (base scaffold raw address : Text)
    → resolve_thing_reference raw ≡ ok address
    → resolve_frontmatter_value base scaffold raw ≡ iri address
thing_reference_agrees base scaffold raw address h =
    let (between, e, k) = thing-eq_some raw address h in
    resolve-bracketed base scaffold raw between e ∙ bracketed-thing between address k

-- A well-formed universal id is a Thing reference to its own address.
pub universal_id-is_reference :
    (raw : Text) (id : UniversalId)
    → parse_universal_id raw ≡ ok id
    → resolve_thing_reference raw ≡ ok (thing_address id.inner)
unfolding parse_universal_id resolve_thing_reference
universal_id-is_reference raw id h = from (brackets raw) h
  where
    from : (o : Option Text) → id_from o ≡ ok id → thing_from o ≡ ok (thing_address id.inner)
    from none k = cc
    from (some between) k = thing-id between id k
