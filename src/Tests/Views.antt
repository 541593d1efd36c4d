-- ===== src/Tests/Views.antt =====
-- The now view of a store that is a list of quads.
use git_lex.Base.{
  ℕ, ◌≡◌, refl, ap, sym, ◌∙◌, inl, inr, Bool, true, false, not, ◌&&◌, ◌||◌, List, [], ◌∷◌, Result,
  ok, any, keep, keep-true, keep-false, Bool-cases,
}
use git_lex.Text.{Text, codes, same, same-eq}
use git_lex.Sync.NowView.{
  Quad, QuadStore, same_quad, among, matches, reifies, now, one, subject_iri, refresh_now_view,
}
use git_lex.Sync.NowView.Copy.{refresh_now_view-IsCurrent, IsCurrent}

pair_true : (a b : Bool) → (a && b) ≡ true → (a ≡ true) × (b ≡ true)
pair_true true b h = (refl, h)
pair_true false b h = cc

same_quad-eq : (q r : Quad) → same_quad q r ≡ true → q ≡ r
same_quad-eq q r h =
    let (a, h1) =
      pair_true (same q.subject r.subject)
        (same q.predicate r.predicate && (same q.object r.object && same q.graph r.graph)) h in
    let (b, h2) =
      pair_true (same q.predicate r.predicate) (same q.object r.object && same q.graph r.graph)
        h1 in
    let (c, d) = pair_true (same q.object r.object) (same q.graph r.graph) h2 in
    let e1 = same-eq q.subject r.subject a in
    let e2 = same-eq q.predicate r.predicate b in
    let e3 = same-eq q.object r.object c in
    let e4 = same-eq q.graph r.graph d in
    ap (λ x. record q { subject = x }) e1
    ∙ ap (λ x. record q { subject = r.subject; predicate = x }) e2
    ∙ ap (λ x. record q { subject = r.subject; predicate = r.predicate; object = x }) e3
    ∙ ap (λ x. record r { graph = x }) e4

-- One more quad that the test keeps, or drops.
with_kept : (a m f p : Bool) → (a ≡ true → f ≡ true) → m ≡ (p && f) → (a || m) ≡ ((a || p) && f)
with_kept true m f p d h = sym (d refl)
with_kept false m f p d h = h

with_dropped : (a m f p : Bool) → (a ≡ true → f ≡ false) → m ≡ (p && f) → m ≡ ((a || p) && f)
with_dropped true m f true d h = h
with_dropped true m f false d h = h ∙ sym (d refl)
with_dropped false m f p d h = h

among-keep : (f : Quad → Bool) (q : Quad) (s : List Quad) → among q (keep f s) ≡ (among q s && f q)
among-keep f q [] = refl
among-keep f q (r ∷ s) = elim (Bool-cases (f r)) [
  | inl e ↦
      ap (among q) (keep-true f r s e)
      ∙ with_kept (same_quad q r) (among q (keep f s)) (f q) (among q s)
          (λ g. ap f (same_quad-eq q r g) ∙ e) (among-keep f q s)
  | inr e ↦
      ap (among q) (keep-false f r s e)
      ∙ with_dropped (same_quad q r) (among q (keep f s)) (f q) (among q s)
          (λ g. ap f (same_quad-eq q r g) ∙ e) (among-keep f q s)
]

or_comm : (a b : Bool) → (a || b) ≡ (b || a)
or_comm true true = refl
or_comm true false = refl
or_comm false true = refl
or_comm false false = refl

ok-same : (s t : List Quad) → ◌≡◌ {A = Result ℕ (List Quad)} (ok s) (ok t) → s ≡ t
ok-same s t h = cc

ok-bool : (s t : Bool) → ◌≡◌ {A = Result ℕ Bool} (ok s) (ok t) → t ≡ s
ok-bool s t h = cc

same_comm : (q r : Quad) → not (same_quad r q) ≡ not (same_quad q r)
same_comm q r = elim (Bool-cases (same_quad q r)) [
  | inl e ↦
      ap (λ x. not (same_quad r x)) (same_quad-eq q r e)
      ∙ ap (λ x. not (same_quad x r)) (sym (same_quad-eq q r e))
  | inr e ↦ elim (Bool-cases (same_quad r q)) [
    | inl g ↦
        ap (λ x. not (same_quad x q)) (same_quad-eq r q g)
        ∙ ap (λ x. not (same_quad q x)) (sym (same_quad-eq r q g))
    | inr g ↦ ap not g ∙ ap not (sym e)
  ]
]

abbrev list_store : QuadStore (List Quad) ℕ
list_store = record {
  holds = among;
  contains = λ q s. ok (among q s);
  quads_for_pattern = λ subject graph s. ok (keep (matches subject graph) s);
  remove = λ r s. ok (keep (λ q. not (same_quad q r)) s);
  insert = λ r s. ok (r ∷ s);
  contains_law = λ q s b h. ok-bool (among q s) b h;
  quads_law = λ subject graph s qs q h.
      ap (among q) (sym (ok-same (keep (matches subject graph) s) qs h))
      ∙ among-keep (matches subject graph) q s;
  remove_law = λ r q s t h.
      ap (among q) (sym (ok-same (keep (λ q. not (same_quad q r)) s) t h))
      ∙ among-keep (λ q. not (same_quad q r)) q s;
  insert_law =
      λ r q s t h. ap (among q) (sym (ok-same (r ∷ s) t h)) ∙ or_comm (same_quad q r) (among q s);
}

abbrev fact : Text → Quad
fact graph = record {
  subject = codes "a";
  predicate = codes "p";
  object = codes "o";
  graph = graph;
}

abbrev stale_fact : Quad
stale_fact = record (fact now) { object = codes "old" }

abbrev before : List Quad
before = stale_fact ∷ fact one ∷ []

abbrev after : List Quad
after = fact now ∷ fact one ∷ []

any_iri : Text → Bool
any_iri _ = true

refreshed : refresh_now_view list_store any_iri (codes "<a>" ∷ []) before ≡ ok after
unfolding refresh_now_view any_iri
refreshed = refl

subject_a : subject_iri (codes "<a>") ≡ codes "a"
subject_a = refl

both_no : (a b : Bool) → (a || b) ≡ false → (a ≡ false) × (b ≡ false)
both_no true b h = cc
both_no false b h = (refl, h)

no_and : (a : Bool) → false ≡ (a && false)
no_and true = refl
no_and false = refl

others :
    (q : Quad)
    → q.graph ≡ now
    → any (λ term. same q.subject (subject_iri term)) (codes "<a>" ∷ []) ≡ false
    → IsCurrent list_store any_iri q before
others q n h =
    let (f, _) = both_no (same q.subject (codes "a")) false h in
    rw f (no_and (not (same q.predicate reifies)))

refresh_now_view-IsCurrent_example : IsCurrent list_store any_iri (fact now) after
refresh_now_view-IsCurrent_example =
    refresh_now_view-IsCurrent list_store any_iri (codes "<a>" ∷ []) before after refreshed others
      (fact now) refl

iri_a : any_iri (subject_iri (codes "<a>")) ≡ true
unfolding any_iri
iri_a = refl
