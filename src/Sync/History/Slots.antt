-- ===== src/Sync/History/Slots.antt =====
-- The latest assertion and retraction of a statement, from the loop over the events.
use mathlib.Core.Path.{ap₂}
use git_lex.Base.{
  ℕ, ◌≡◌, refl, ap, sym, ◌∙◌, inl, inr, Bool, true, false, ◌&&◌, ◌||◌, Option, none, some, List, [],
  ◌∷◌, ◌++◌, Result, ok, ltb, any, all, Bool-cases, arith, if◌then◌else◌,
}
use git_lex.Text.{Text, same, same-eq}
use git_lex.Sets.{lookup, NodupKeys, lookup-put, put-NodupKeys}
use git_lex.Fallible.{and_then, and_then-ok, ok-eq}
use git_lex.Sync.History.{
  max, raised, or_default, raise_assert, raise_retract, event_order, latest_loop, is_live,
  Unordered, Scan,
}

abbrev pub order_list : Result Unordered (Option ℕ) → List ℕ
order_list (ok (some o)) = o ∷ []
order_list _ = []

-- The ordinals of one direction's commits, over the events of the statement.
abbrev pub orders : List (Text × Option ℕ) → Scan → Text → Scan → List ℕ
orders ordinal scan stmt [] = []
orders ordinal scan stmt ((event, (s, _)) ∷ events) =
    (if same stmt s then order_list (event_order ordinal (lookup event scan)) else [])
    ++ orders ordinal scan stmt events

-- Some assertion has no retraction at or after it.
abbrev pub live_since : List ℕ → List ℕ → Bool
live_since asserts retracts = any (λ a. all (λ r. ltb r a) retracts) asserts

abbrev pub raise_all : Option ℕ → List ℕ → Option ℕ
raise_all m [] = m
raise_all m (o ∷ os) = raise_all (raised m o) os

abbrev highest : ℕ → List ℕ → ℕ
highest m [] = m
highest m (o ∷ os) = highest (max m o) os

raise_all-some : (m : ℕ) (os : List ℕ) → raise_all (some m) os ≡ some (highest m os)
raise_all-some m [] = refl
raise_all-some m (o ∷ os) = raise_all-some (max m o) os

all-highest : (a r : ℕ) (rs : List ℕ) → all (λ x. ltb x a) (r ∷ rs) ≡ ltb (highest r rs) a
all-highest a r [] = ground arith
all-highest a r (x ∷ rs) =
    combine (ltb r a) (ltb x a) (ltb (max r x) a) (all (λ y. ltb y a) rs) _ (two a r x)
      (all-highest a (max r x) rs)
  where
    two : (a r x : ℕ) → ltb (max r x) a ≡ (ltb r a && ltb x a)
    two a r x = ground arith

    combine : (p q m t h : Bool) → m ≡ (p && q) → (m && t) ≡ h → (p && (q && t)) ≡ h
    combine true true m t h e f = ap (λ b. b && t) (sym e) ∙ f
    combine true false m t h e f = ap (λ b. b && t) (sym e) ∙ f
    combine false q m t h e f = ap (λ b. b && t) (sym e) ∙ f

any-highest : (r a : ℕ) (os : List ℕ) → any (λ x. ltb r x) (a ∷ os) ≡ ltb r (highest a os)
any-highest r a [] = ground arith
any-highest r a (x ∷ os) =
    combine (ltb r a) (ltb r x) (ltb r (max a x)) (any (λ y. ltb r y) os) _ (two r a x)
      (any-highest r (max a x) os)
  where
    two : (r a x : ℕ) → ltb r (max a x) ≡ (ltb r a || ltb r x)
    two r a x = ground arith

    combine : (p q m t h : Bool) → m ≡ (p || q) → (m || t) ≡ h → (p || (q || t)) ≡ h
    combine true q m t h e f = ap (λ b. b || t) (sym e) ∙ f
    combine false true m t h e f = ap (λ b. b || t) (sym e) ∙ f
    combine false false m t h e f = ap (λ b. b || t) (sym e) ∙ f

any-pointwise : (p q : ℕ → Bool) (os : List ℕ) → ((o : ℕ) → p o ≡ q o) → any p os ≡ any q os
any-pointwise p q [] e = refl
any-pointwise p q (o ∷ os) e =
    ap (λ b. b || any p os) (e o) ∙ ap (λ b. q o || b) (any-pointwise p q os e)

pub is_live-since :
    (asserts retracts : List ℕ)
    → is_live (raise_all none asserts, raise_all none retracts) ≡ live_since asserts retracts
is_live-since [] retracts = refl
is_live-since (a ∷ later) [] = ap (λ o. is_live (o, none)) (raise_all-some a later)
is_live-since (a ∷ later) (r ∷ rs) =
    ap (λ o. is_live (o, raise_all (some r) rs)) (raise_all-some a later)
    ∙ ap (λ o. is_live (some (highest a later), o)) (raise_all-some r rs)
    ∙ sym (any-highest (highest r rs) a later)
    ∙ any-pointwise (λ x. ltb (highest r rs) x) (λ x. all (λ y. ltb y x) (r ∷ rs)) (a ∷ later)
        (λ x. sym (all-highest x r rs))

abbrev pub Latest : Type 0
Latest = List (Text × (Option ℕ × Option ℕ))

abbrev pub slot : Text → Latest → Option ℕ × Option ℕ
slot stmt latest = or_default (lookup stmt latest)

abbrev here : Text → Text → Result Unordered (Option ℕ) → List ℕ
here stmt s o = if same stmt s then order_list o else []

-- The slot of a statement after one event of its own or another's.
raise_assert-slot :
    (stmt s : Text) (o : Option ℕ) (latest : Latest)
    → slot stmt (raise_assert s o latest)
      ≡ (raise_all (slot stmt latest).0 (here stmt s (ok o)), (slot stmt latest).1)
raise_assert-slot stmt s none latest = elim (Bool-cases (same stmt s)) [
  | inl e ↦ rw e refl
  | inr e ↦ rw e refl
]
raise_assert-slot stmt s (some o) latest =
    let value : Option ℕ × Option ℕ = (raised (slot s latest).0 o, (slot s latest).1) in
    elim (Bool-cases (same stmt s)) [
      | inl e ↦ rw e (
          ap or_default (
            lookup-put stmt s value latest
            ∙ ap (λ b. if b then some value else lookup stmt latest) e)
          ∙ ap (λ t. (raised (slot t latest).0 o, (slot t latest).1)) (sym (same-eq stmt s e)))
      | inr e ↦ rw e (
          ap or_default (
            lookup-put stmt s value latest
            ∙ ap (λ b. if b then some value else lookup stmt latest) e))
    ]

raise_retract-slot :
    (stmt s : Text) (o : Option ℕ) (latest : Latest)
    → slot stmt (raise_retract s o latest)
      ≡ ((slot stmt latest).0, raise_all (slot stmt latest).1 (here stmt s (ok o)))
raise_retract-slot stmt s none latest = elim (Bool-cases (same stmt s)) [
  | inl e ↦ rw e refl
  | inr e ↦ rw e refl
]
raise_retract-slot stmt s (some o) latest =
    let value : Option ℕ × Option ℕ = ((slot s latest).0, raised (slot s latest).1 o) in
    elim (Bool-cases (same stmt s)) [
      | inl e ↦ rw e (
          ap or_default (
            lookup-put stmt s value latest
            ∙ ap (λ b. if b then some value else lookup stmt latest) e)
          ∙ ap (λ t. ((slot t latest).0, raised (slot t latest).1 o)) (sym (same-eq stmt s e)))
      | inr e ↦ rw e (
          ap or_default (
            lookup-put stmt s value latest
            ∙ ap (λ b. if b then some value else lookup stmt latest) e))
    ]

raise_all-append :
    (m : Option ℕ) (xs ys : List ℕ) → raise_all m (xs ++ ys) ≡ raise_all (raise_all m xs) ys
raise_all-append m [] ys = refl
raise_all-append m (x ∷ xs) ys = raise_all-append (raised m x) xs ys

pub latest_loop-slot :
    (ordinal : List (Text × Option ℕ)) (asserted retracted events : Scan) (latest m : Latest)
    (stmt : Text)
    → latest_loop ordinal asserted retracted events latest ≡ ok m
    → slot stmt m ≡ (
      raise_all (slot stmt latest).0 (orders ordinal asserted stmt events),
      raise_all (slot stmt latest).1 (orders ordinal retracted stmt events),
    )
unfolding latest_loop
latest_loop-slot ordinal asserted retracted [] latest m stmt h =
    ap (slot stmt) (sym (ok-eq latest m h))
latest_loop-slot ordinal asserted retracted ((event, (s, _)) ∷ events) latest m stmt h =
    let (a, ea, h1) =
      and_then-ok (event_order ordinal (lookup event asserted))
        (λ a. and_then (event_order ordinal (lookup event retracted)) (λ r.
          latest_loop ordinal asserted retracted events
            (raise_retract s r (raise_assert s a latest))))
        m h in
    let (r, er, h2) =
      and_then-ok (event_order ordinal (lookup event retracted))
        (λ r.
          latest_loop ordinal asserted retracted events
            (raise_retract s r (raise_assert s a latest)))
        m h1 in
    let mid = raise_assert s a latest in
    let next = raise_retract s r mid in
    latest_loop-slot ordinal asserted retracted events next m stmt h2
    ∙ ap
        (λ (p : Option ℕ × Option ℕ). (
          raise_all p.0 (orders ordinal asserted stmt events),
          raise_all p.1 (orders ordinal retracted stmt events),
        ))
        (raise_retract-slot stmt s r mid
          ∙ ap (λ (p : Option ℕ × Option ℕ). (p.0, raise_all p.1 (here stmt s (ok r))))
              (raise_assert-slot stmt s a latest))
    ∙ ap₂ (λ (x y : Option ℕ). (x, y))
        (sym (
            raise_all-append (slot stmt latest).0 (here stmt s (ok a))
              (orders ordinal asserted stmt events))
          ∙ ap
              (λ o.
                raise_all (slot stmt latest).0
                  (here stmt s o ++ orders ordinal asserted stmt events))
              (sym ea))
        (sym (
            raise_all-append (slot stmt latest).1 (here stmt s (ok r))
              (orders ordinal retracted stmt events))
          ∙ ap
              (λ o.
                raise_all (slot stmt latest).1
                  (here stmt s o ++ orders ordinal retracted stmt events))
              (sym er))

pub latest_loop-NodupKeys :
    (ordinal : List (Text × Option ℕ)) (asserted retracted events : Scan) (latest m : Latest)
    → NodupKeys latest
    → latest_loop ordinal asserted retracted events latest ≡ ok m
    → NodupKeys m
unfolding latest_loop
latest_loop-NodupKeys ordinal asserted retracted [] latest m d h = rw (sym (ok-eq latest m h)) d
latest_loop-NodupKeys ordinal asserted retracted ((event, (s, _)) ∷ events) latest m d h =
    let (a, _, h1) =
      and_then-ok (event_order ordinal (lookup event asserted))
        (λ a. and_then (event_order ordinal (lookup event retracted)) (λ r.
          latest_loop ordinal asserted retracted events
            (raise_retract s r (raise_assert s a latest))))
        m h in
    let (r, _, h2) =
      and_then-ok (event_order ordinal (lookup event retracted))
        (λ r.
          latest_loop ordinal asserted retracted events
            (raise_retract s r (raise_assert s a latest)))
        m h1 in
    latest_loop-NodupKeys ordinal asserted retracted events
      (raise_retract s r (raise_assert s a latest)) m
      (raise_retract-NodupKeys s r (raise_assert s a latest) (raise_assert-NodupKeys s a latest d))
      h2
  where
    raise_assert-NodupKeys :
        (s : Text) (o : Option ℕ) (latest : Latest)
        → NodupKeys latest
        → NodupKeys (raise_assert s o latest)
    raise_assert-NodupKeys s none latest d = d
    raise_assert-NodupKeys s (some o) latest d = put-NodupKeys s _ latest d

    raise_retract-NodupKeys :
        (s : Text) (o : Option ℕ) (latest : Latest)
        → NodupKeys latest
        → NodupKeys (raise_retract s o latest)
    raise_retract-NodupKeys s none latest d = d
    raise_retract-NodupKeys s (some o) latest d = put-NodupKeys s _ latest d
