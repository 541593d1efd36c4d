-- ===== src/Sync/NowView/Listing.antt =====
-- The Booleans of `refresh_now_view`: what a list of quads is copied to, and what one subject's turn
-- leaves.
use git_lex.Base.{
  ◌≡◌, refl, ap, sym, ◌∙◌, inl, inr, Bool, true, false, not, ◌&&◌, ◌||◌, List, [], ◌∷◌, Result, ok,
  err, any, arith, Bool-cases, All, if◌then◌else◌,
}
use git_lex.Text.{Text, same, same-eq, same_refl}
use git_lex.Sync.NowView.{
  Quad, Failure, same_quad, among, now, one, reifies, copied, bind_store, and_then,
}

pub same_quad_refl : (q : Quad) → same_quad q q ≡ true
same_quad_refl q =
    rw (same_refl q.subject, same_refl q.predicate, same_refl q.object, same_refl q.graph) refl

module _ {S E : Type 0} where
  pub bind_store-ok :
      {A : Type 0} (r : Result E A) (f : A → Result (Failure E) S) (t : S)
      → bind_store r f ≡ ok t
      → (a : A) × (r ≡ ok a) × (f a ≡ ok t)
  bind_store-ok (ok a) f t h = (a, refl, h)
  bind_store-ok (err e) f t h = cc

  pub and_then-ok :
      (r : Result (Failure E) S) (f : S → Result (Failure E) S) (t : S)
      → and_then r f ≡ ok t
      → (a : S) × (r ≡ ok a) × (f a ≡ ok t)
  and_then-ok (ok a) f t h = (a, refl, h)
  and_then-ok (err e) f t h = cc

-- A quad that some listed quad, not a `rdf:reifies`, is copied to.
abbrev pub copied_from : Quad → List Quad → Bool
copied_from q qs = any (λ r. not (same r.predicate reifies) && same_quad q (copied r)) qs

pub and_not : (a b r s t : Bool) → r ≡ (s && not a) → t ≡ (r && not b) → t ≡ (s && not (a || b))
and_not true b r s t e f = ground arith
and_not false b r s t e f = ground arith

pub or_or : (a b r s t : Bool) → r ≡ (s || a) → t ≡ (r || b) → t ≡ (s || (a || b))
or_or true b r true t e f = ground arith
or_or true b r false t e f = ground arith
or_or false b r true t e f = ground arith
or_or false b r false t e f = ground arith

pub and_true : (b : Bool) → b ≡ (b && true)
and_true true = refl
and_true false = refl

pub or_false : (b : Bool) → b ≡ (b || false)
or_false true = refl
or_false false = refl

pub final_event :
    (g u h t w : Bool)
    → t ≡ (h && not (h && (u && g)))
    → (u ≡ true → w ≡ false)
    → t ≡ (if g && u then w else h)
final_event true true true t w e f = e ∙ sym (f refl)
final_event true true false t w e f = e ∙ sym (f refl)
final_event true false true t w e f = e
final_event true false false t w e f = e
final_event false true true t w e f = e
final_event false true false t w e f = e
final_event false false true t w e f = e
final_event false false false t w e f = e

pub final_fact :
    (g u h t w x : Bool)
    → t ≡ ((h && not (h && (u && g))) || (g && x))
    → (u ≡ true → w ≡ x)
    → (u ≡ false → x ≡ false)
    → t ≡ (if g && u then w else h)
final_fact true true true t w x e f k = e ∙ sym (f refl)
final_fact true true false t w x e f k = e ∙ sym (f refl)
final_fact true false true t w x e f k = e
final_fact true false false t w x e f k = e ∙ k refl
final_fact false true true t w x e f k = e
final_fact false true false t w x e f k = e
final_fact false false true t w x e f k = e
final_fact false false false t w x e f k = e

pub and_kept : (a : Bool) (b : Bool) → (a && not (a && (b && false))) ≡ a
and_kept true true = refl
and_kept true false = refl
and_kept false b = refl

pub in_view : (g : Text) (b : Bool) → g ≡ now → (same g now && b) ≡ b
in_view g b e = rw e refl

pub ok-eq : {S E : Type 0} → (s t : S) → ◌≡◌ {A = Result (Failure E) S} (ok s) (ok t) → s ≡ t
ok-eq s t h = cc

abbrev pub IsOne : Quad → Type 0
IsOne r = r.graph ≡ one

-- The quad of the one graph that a quad of the now view is the copy of.
abbrev pub source : Quad → Quad
source q = record q { graph = one }

pub and_right : (a b c : Bool) → (a && (b && c)) ≡ true → c ≡ true
and_right true true c h = h
and_right true false c h = cc
and_right false b c h = cc

pub shuffle :
    (a b c d : Bool) → (a && (b && (true && (c && d)))) ≡ (d && (a && (b && (true && (c && true)))))
shuffle true true true true = refl
shuffle true true true false = refl
shuffle true true false true = refl
shuffle true true false false = refl
shuffle true false c true = refl
shuffle true false c false = refl
shuffle false b c true = refl
shuffle false b c false = refl

pub nothing : (a b c d e f : Bool) → (a && (b && (false && c))) ≡ (d && (e && (b && (false && f))))
nothing true true c true true f = refl
nothing true true c true false f = refl
nothing true true c false e f = refl
nothing true false c true true f = refl
nothing true false c true false f = refl
nothing true false c false e f = refl
nothing false b c true true f = ground arith
nothing false b c true false f = refl
nothing false b c false e f = refl

pub distribute : (d a x y : Bool) → ((d && (a && x)) || (d && (a && y))) ≡ (d && (a && (x || y)))
distribute true true x y = refl
distribute true false x y = refl
distribute false a x y = refl

pub copied-step :
    (q r : Quad)
    → r.graph ≡ one
    → (not (same r.predicate reifies) && same_quad q (copied r))
      ≡ (same q.graph now && (not (same q.predicate reifies) && same_quad (source q) r))
copied-step q r e = elim (Bool-cases (same q.predicate r.predicate)) [
  | inl f ↦
      rw (f, e, sym (same-eq q.predicate r.predicate f))
        (shuffle (not (same q.predicate reifies)) (same q.subject r.subject)
          (same q.object r.object) (same q.graph now))
  | inr f ↦ rw f (
      nothing (not (same r.predicate reifies)) (same q.subject r.subject)
        (same q.object r.object && same q.graph now) (same q.graph now)
        (not (same q.predicate reifies)) (same q.object r.object && same one r.graph))
]

pub false_and : (d a : Bool) → false ≡ (d && (a && false))
false_and true true = refl
false_and true false = refl
false_and false a = refl

pub copied_from-among :
    (q : Quad) (qs : List Quad)
    → All IsOne qs
    → copied_from q qs
      ≡ (same q.graph now && (not (same q.predicate reifies) && among (source q) qs))
copied_from-among q [] h = false_and (same q.graph now) (not (same q.predicate reifies))
copied_from-among q (r ∷ qs) (e, h) =
    ap (λ b. b || copied_from q qs) (copied-step q r e)
    ∙ ap
        (λ b. (same q.graph now && (not (same q.predicate reifies) && same_quad (source q) r)) || b)
        (copied_from-among q qs h)
    ∙ distribute (same q.graph now) (not (same q.predicate reifies)) (same_quad (source q) r)
        (among (source q) qs)

pub graphs-All : (qs : List Quad) → ((q : Quad) → among q qs ≡ true → q.graph ≡ one) → All IsOne qs
graphs-All [] f = tt
graphs-All (r ∷ qs) f =
    (f r (ap (λ b. b || among r qs) (same_quad_refl r)), graphs-All qs (λ q e. f q (ground arith)))
