-- ===== src/Walk/World.antt =====
-- The statements that the sidecars of a commit make, and how one commit's events change them.
use git_lex.Base.{
  ◌≡◌, ◌↔◌, ◌⊎◌, refl, ap, sym, ◌∙◌, inl, inr, Bool, true, false, not, ◌&&◌, ◌||◌, List, [], ◌∷◌,
  Result, ok, Bool-cases, if◌then◌else◌, arith,
}
use git_lex.Text.{Text, same, same-eq, same_refl}
use git_lex.Sets.{member, extend, difference, member-extend, member-difference}
use git_lex.Fallible.{and_then-ok, ok-eq}
use git_lex.Walk.{WalkCommit}
use git_lex.Walk.Engine.{old_paths, new_paths, resolve_side}

or_right : (a b : Bool) → b ≡ true → (a || b) ≡ true
or_right true b h = refl
or_right false b h = h

abbrev pub Anywhere : Text → Type 0
Anywhere path = Unit

abbrev pub Untouched : WalkCommit → Text → Type 0
Untouched c path = (member path (old_paths c) ≡ false) × (member path (new_paths c) ≡ false)

module _ {E : Type 0} (resolve : Text → Text → Result E (List Text)) where
  -- Some sidecar among those of `P` states the line at the commit.
  abbrev pub Says : (Text → Type 0) → Text → Text → Type 0
  Says P sha q =
      (path : Text) × (lines : List Text) × P path
      × (resolve sha path ≡ ok lines)
      × (member q lines ≡ true)

  -- What `git diff` promises of a commit and its base: an unnamed path is as it was, the old path of
  -- a rename is gone, the new one was not there.
  pub record IsDiff (c : WalkCommit) : Type 0 where
    pub kept :
        (path : Text)
        → member path (old_paths c) ≡ false
        → member path (new_paths c) ≡ false
        → resolve c.sha path ≡ resolve c.parent_sha path
    pub gone :
        (path : Text)
        → member path (old_paths c) ≡ true
        → member path (new_paths c) ≡ false
        → resolve c.sha path ≡ ok []
    pub fresh :
        (path : Text)
        → member path (old_paths c) ≡ false
        → member path (new_paths c) ≡ true
        → resolve c.parent_sha path ≡ ok []

  abbrev pub Among : List Text → Text → Type 0
  Among paths path = member path paths ≡ true

  either_way : (a b c : Bool) → (a || b) ≡ c → (c ≡ true) ↔ ((a ≡ true) ⊎ (b ≡ true))
  either_way a b c e = ground arith

  pub resolve_side-kept :
      (sha : Text) (paths triples out : List Text) (q : Text)
      → resolve_side resolve sha paths triples ≡ ok out
      → member q triples ≡ true
      → member q out ≡ true
  unfolding resolve_side
  resolve_side-kept sha [] triples out q h m = rw (sym (ok-eq triples out h)) m
  resolve_side-kept sha (path ∷ paths) triples out q h m =
      let (lines, e, rest) =
        and_then-ok (resolve sha path)
          (λ lines. resolve_side resolve sha paths (extend triples lines)) out h in
      resolve_side-kept sha paths (extend triples lines) out q rest
        (member-extend q triples lines ∙ ap (λ b. b || member q lines) m)

  -- Every line that a resolved side holds is stated by one of its sidecars.
  pub resolve_side-Says :
      (sha : Text) (paths triples out : List Text) (q : Text)
      → resolve_side resolve sha paths triples ≡ ok out
      → member q out ≡ true
      → (member q triples ≡ true) ⊎ Says (Among paths) sha q
  unfolding resolve_side
  resolve_side-Says sha [] triples out q h m = inl (rw (ok-eq triples out h) m)
  resolve_side-Says sha (path ∷ paths) triples out q h m =
      let (lines, e, rest) =
        and_then-ok (resolve sha path)
          (λ lines. resolve_side resolve sha paths (extend triples lines)) out h in
      elim (resolve_side-Says sha paths (extend triples lines) out q rest m) [
        | inl there ↦
            elim ((either_way (member q triples) (member q lines) _
                (sym (member-extend q triples lines))).0
              there) [
                | inl before ↦ inl before
                | inr here ↦
                    inr (path, lines, ap (λ b. b || member path paths) (same_refl path), e, here)
              ]
        | inr (p, found, m, e, k) ↦ inr (p, found, or_right (same p path) (member p paths) m, e, k)
      ]

  -- And every line that one of its sidecars states is in it.
  pub resolve_side-all :
      (sha : Text) (paths triples out : List Text) (q : Text)
      → resolve_side resolve sha paths triples ≡ ok out
      → Says (Among paths) sha q
      → member q out ≡ true
  unfolding resolve_side
  resolve_side-all sha [] triples out q h (path, lines, m, e, k) = cc
  resolve_side-all sha (path ∷ paths) triples out q h (p, found, m, e, k) =
      let (lines, f, rest) =
        and_then-ok (resolve sha path)
          (λ lines. resolve_side resolve sha paths (extend triples lines)) out h in
      elim ((either_way (same p path) (member p paths) _ refl).0 m) [
        | inl here ↦
            let equal : lines ≡ found =
              ok-eq lines found (sym f ∙ ap (resolve sha) (sym (same-eq p path here)) ∙ e) in
            resolve_side-kept sha paths (extend triples lines) out q rest (
              member-extend q triples lines
              ∙ ap (λ (ls : List Text). member q triples || member q ls) equal
              ∙ or_right (member q triples) (member q found) k)
        | inr later ↦
            resolve_side-all sha paths (extend triples lines) out q rest (p, found, later, e, k)
      ]

  both_ways :
      (o n l v : Bool) (P N U : Type 0)
      → (v ≡ true) ↔ P
      → (o ≡ true → P)
      → (n ≡ true → N)
      → (P → (o ≡ true) ⊎ U)
      → (N → (n ≡ true) ⊎ U)
      → (U → P × N)
      → (o ≡ true → n ≡ false → (l ≡ true) ↔ U)
      → ((if n && not o then true else if (o && not n) && not l then false else v) ≡ true) ↔ N
  both_ways true true l v P N U (to, from) fo fn cp cn u g = (λ _. fn refl, λ _. from (fo refl))
  both_ways true false true v P N U (to, from) fo fn cp cn u g =
      (λ _. (u ((g refl refl).0 refl)).1, λ _. from (fo refl))
  both_ways true false false v P N U (to, from) fo fn cp cn u g =
      (λ e. cc, λ y. elim (cn y) [ inl e ↦ cc | inr x ↦ (g refl refl).1 x ])
  both_ways false true l v P N U (to, from) fo fn cp cn u g = (λ _. fn refl, λ _. refl)
  both_ways false false l v P N U (to, from) fo fn cp cn u g = (
    λ e. elim (cp (to e)) [ inl f ↦ cc | inr x ↦ (u x).1 ],
    λ y. elim (cn y) [ inl f ↦ cc | inr x ↦ from (u x).0 ],
  )

  pub side-Says :
      (sha : Text) (paths out : List Text) (q : Text)
      → resolve_side resolve sha paths [] ≡ ok out
      → member q out ≡ true
      → Says Anywhere sha q
  side-Says sha paths out q h m = elim (resolve_side-Says sha paths [] out q h m) [
    | inl e ↦ cc
    | inr (path, lines, _, e, k) ↦ (path, lines, tt, e, k)
  ]

  nothing_said :
      (sha path q : Text) (lines : List Text)
      → resolve sha path ≡ ok []
      → resolve sha path ≡ ok lines
      → member q lines ≡ true
      → true ≡ false
  nothing_said sha path q lines e f k = sym k ∙ ap (member q) (ok-eq lines [] (sym f ∙ e))

  base-Says :
      (c : WalkCommit) (olds : List Text) (q : Text)
      → IsDiff c
      → resolve_side resolve c.parent_sha (old_paths c) [] ≡ ok olds
      → Says Anywhere c.parent_sha q
      → (member q olds ≡ true) ⊎ Says (Untouched c) c.sha q
  base-Says c olds q d eo (path, lines, _, e, k) = elim (Bool-cases (member path (old_paths c))) [
    | inl m ↦ inl (resolve_side-all c.parent_sha (old_paths c) [] olds q eo (path, lines, m, e, k))
    | inr m ↦ elim (Bool-cases (member path (new_paths c))) [
      | inl n ↦ let g = nothing_said c.parent_sha path q lines (d.fresh path m n) e k in cc
      | inr n ↦ inr (path, lines, (m, n), d.kept path m n ∙ e, k)
    ]
  ]

  tree-Says :
      (c : WalkCommit) (news : List Text) (q : Text)
      → IsDiff c
      → resolve_side resolve c.sha (new_paths c) [] ≡ ok news
      → Says Anywhere c.sha q
      → (member q news ≡ true) ⊎ Says (Untouched c) c.sha q
  tree-Says c news q d en (path, lines, _, e, k) = elim (Bool-cases (member path (new_paths c))) [
    | inl n ↦ inl (resolve_side-all c.sha (new_paths c) [] news q en (path, lines, n, e, k))
    | inr n ↦ elim (Bool-cases (member path (old_paths c))) [
      | inl m ↦ let g = nothing_said c.sha path q lines (d.gone path m n) e k in cc
      | inr m ↦ inr (path, lines, (m, n), e, k)
    ]
  ]

  Untouched-Says :
      (c : WalkCommit) (q : Text)
      → IsDiff c
      → Says (Untouched c) c.sha q
      → Says Anywhere c.parent_sha q × Says Anywhere c.sha q
  Untouched-Says c q d (path, lines, (m, n), e, k) =
      ((path, lines, tt, sym (d.kept path m n) ∙ e, k), (path, lines, tt, e, k))

  -- One commit: when what holds is what the base says, then after the events it is what the commit
  -- says.
  pub commit-Says :
      (c : WalkCommit) (olds news live : List Text) (q : Text) (v : Bool)
      → IsDiff c
      → resolve_side resolve c.parent_sha (old_paths c) [] ≡ ok olds
      → resolve_side resolve c.sha (new_paths c) [] ≡ ok news
      → (member q (difference olds news) ≡ true
          → (member q live ≡ true) ↔ Says (Untouched c) c.sha q)
      → (v ≡ true) ↔ Says Anywhere c.parent_sha q
      → ((if member q (difference news olds)
            then true
            else if member q (difference (difference olds news) live)
            then false
            else v)
          ≡ true)
        ↔ Says Anywhere c.sha q
  commit-Says c olds news live q v d eo en exact holds =
      rw
        (
          member-difference q news olds,
          member-difference q (difference olds news) live,
          member-difference q olds news,
        )
        (both_ways (member q olds) (member q news) (member q live) v (Says Anywhere c.parent_sha q)
          (Says Anywhere c.sha q) (Says (Untouched c) c.sha q) holds
          (side-Says c.parent_sha (old_paths c) olds q eo) (side-Says c.sha (new_paths c) news q en)
          (base-Says c olds q d eo) (tree-Says c news q d en) (Untouched-Says c q d)
          (λ o n.
            exact
              (member-difference q olds news ∙ ap (λ b. b && not (member q news)) o ∙ ap not n)))
