-- ===== src/Cleanup/Settled.antt =====
-- The steps of a cleanup that adds no error: what each leaves in git's index.
use git_lex.Base.{
  ◌≡◌, ◌≢◌, ◌⊎◌, refl, ap, sym, ◌∙◌, inl, inr, Bool, true, false, not, ◌&&◌, ◌||◌, List, [], ◌∷◌,
  ◌++◌, map, Result, ok, err, keep, keep-true, keep-false, Bool-cases,
}
use git_lex.Text.{Text, same, same-eq, same_refl}
use git_lex.Sets.{member}
use git_lex.Walk.Sidecars.{spo_extractor_suffixes, sidecar_path}
use git_lex.Cleanup.{
  GitIndex, tracked, Cleaning, removed, moved, remove_path, move_path, remove_paths, remove_tracked,
  sidecar_paths_for_md, meta_path, delete_md, follow,
}

snoc-ne-nil : {A : Type 0} (x : A) (xs : List A) → xs ++ x ∷ [] ≢ []
snoc-ne-nil x [] h = cc
snoc-ne-nil x (y ∷ xs) h = cc

or_right : (a b : Bool) → b ≡ true → (a || b) ≡ true
or_right true b h = refl
or_right false b h = h

and_false : (a : Bool) → (a && not true) ≡ false
and_false true = refl
and_false false = refl

module _ {S E : Type 0} (index : GitIndex S E) where
  abbrev pub Clean : Cleaning index → Type 0
  Clean c = c.0.errors ≡ []

  abbrev pub Gone : Text → Cleaning index → Type 0
  Gone q c = tracked index q c.1 ≡ false

  -- A step that ends without errors had none before, and does not bring the path back.
  abbrev pub Keeps : Text → (Cleaning index → Cleaning index) → Type 0
  Keeps q f = (c : Cleaning index) → Clean (f c) → Clean c × (Gone q c → Gone q (f c))

module _ {S E : Type 0} (index : GitIndex S E) (reads : (s : S) → index.readable s ≡ true) where
  rm_tracked :
      (p q : Text) (s t : S)
      → index.git_rm p s ≡ ok t
      → tracked index q t ≡ (tracked index q s && not (same q p))
  rm_tracked p q s t e = rw (reads t, reads s) (index.rm_law p q s t e)

  mv_tracked :
      (a b q : Text) (s t : S)
      → index.git_mv a b s ≡ ok t
      → tracked index q t ≡ ((tracked index q s && not (same q a)) || same q b)
  mv_tracked a b q s t e = rw (reads t, reads s) (index.mv_law a b q s t e)

  remove_path-tracked :
      (p q : Text) (c : Cleaning index)
      → Clean index (remove_path index p c)
      → Clean index c
        × (tracked index q (remove_path index p c).1 ≡ (tracked index q c.1 && not (same q p)))
  unfolding remove_path
  remove_path-tracked p q c h = of_result (index.git_rm p c.1) refl h
    where
      of_result :
          (r : Result E S)
          → index.git_rm p c.1 ≡ r
          → Clean index (removed index p c r)
          → Clean index c
            × (tracked index q (removed index p c r).1 ≡ (tracked index q c.1 && not (same q p)))
      of_result (ok t) e h = (h, rm_tracked p q c.1 t e)
      of_result (err x) e h = absurd (snoc-ne-nil x c.0.errors h)

  move_path-tracked :
      (a b q : Text) (c : Cleaning index)
      → Clean index (move_path index a b c)
      → Clean index c
        × (tracked index q (move_path index a b c).1
            ≡ ((tracked index q c.1 && not (same q a)) || same q b))
  unfolding move_path
  move_path-tracked a b q c h = of_result (index.git_mv a b c.1) refl h
    where
      of_result :
          (r : Result E S)
          → index.git_mv a b c.1 ≡ r
          → Clean index (moved index a b c r)
          → Clean index c
            × (tracked index q (moved index a b c r).1
                ≡ ((tracked index q c.1 && not (same q a)) || same q b))
      of_result (ok t) e h = (h, mv_tracked a b q c.1 t e)
      of_result (err x) e h = absurd (snoc-ne-nil x c.0.errors h)

  still_gone : (t x : Bool) → t ≡ false → (t && x) ≡ false
  still_gone true x h = cc
  still_gone false x h = refl

  Keeps-remove_path : (p q : Text) → Keeps index q (remove_path index p)
  Keeps-remove_path p q c h =
      let (clean, e) = remove_path-tracked p q c h in
      (clean, λ g. e ∙ still_gone (tracked index q c.1) (not (same q p)) g)

  Keeps-move_path : (a b q : Text) → same q b ≡ false → Keeps index q (move_path index a b)
  Keeps-move_path a b q n c h =
      let (clean, e) = move_path-tracked a b q c h in
      (
        clean,
        λ g.
            e
            ∙ ap (λ x. (tracked index q c.1 && not (same q a)) || x) n
            ∙ ap (λ x. x || false) (still_gone (tracked index q c.1) (not (same q a)) g),
      )

  Keeps-remove_paths : (ps : List Text) (q : Text) → Keeps index q (remove_paths index ps)
  Keeps-remove_paths [] q c h = (h, λ g. g)
  Keeps-remove_paths (p ∷ ps) q c h =
      let (mid, later) = Keeps-remove_paths ps q (remove_path index p c) h in
      let (clean, first) = Keeps-remove_path p q c mid in (clean, λ g. later (first g))

  Keeps-remove_tracked : (p q : Text) → Keeps index q (remove_tracked index p)
  Keeps-remove_tracked p q c h = elim (Bool-cases (tracked index p c.1)) [
    | inl e ↦ rw e (Keeps-remove_path p q c (rw e at h))
    | inr e ↦ rw e (rw e at h, λ g. g)
  ]

  -- A listed path is gone after the removals.
  remove_paths-Gone :
      (ps : List Text) (q : Text) (c : Cleaning index)
      → Clean index (remove_paths index ps c)
      → member q ps ≡ true
      → Gone index q (remove_paths index ps c)
  remove_paths-Gone [] q c h m = cc
  remove_paths-Gone (p ∷ ps) q c h m = elim (Bool-cases (same q p)) [
    | inl e ↦
        let (mid, later) = Keeps-remove_paths ps q (remove_path index p c) h in
        later (
          (remove_path-tracked p q c mid).1
          ∙ ap (λ b. tracked index q c.1 && not b) e
          ∙ and_false (tracked index q c.1))
    | inr e ↦
        remove_paths-Gone ps q (remove_path index p c) h (ap (λ b. b || member q ps) (sym e) ∙ m)
  ]

  -- A path among some is tracked, and then listed, or it is gone.
  listed-or-gone :
      (q : Text) (s : S) (ps : List Text)
      → member q ps ≡ true
      → (member q (keep (λ p. tracked index p s) ps) ≡ true) ⊎ (tracked index q s ≡ false)
  listed-or-gone q s [] m = cc
  listed-or-gone q s (p ∷ ps) m = elim (Bool-cases (same q p)) [
    | inl e ↦ elim (Bool-cases (tracked index p s)) [
      | inl f ↦ inl (
          ap (member q) (keep-true (λ p. tracked index p s) p ps f)
          ∙ ap (λ b. b || member q (keep (λ p. tracked index p s) ps)) e)
      | inr f ↦ inr (ap (λ x. tracked index x s) (same-eq q p e) ∙ f)
    ]
    | inr e ↦ elim (listed-or-gone q s ps (ap (λ b. b || member q ps) (sym e) ∙ m)) [
      | inr g ↦ inr g
      | inl k ↦ elim (Bool-cases (tracked index p s)) [
        | inl f ↦ inl (
            ap (member q) (keep-true (λ p. tracked index p s) p ps f)
            ∙ or_right (same q p) (member q (keep (λ p. tracked index p s) ps)) k)
        | inr f ↦ inl (ap (member q) (keep-false (λ p. tracked index p s) p ps f) ∙ k)
      ]
    ]
  ]

  member-map :
      (md suffix : Text) (suffixes : List Text)
      → member suffix suffixes ≡ true
      → member (sidecar_path md suffix) (map (sidecar_path md) suffixes) ≡ true
  member-map md suffix [] m = cc
  member-map md suffix (s ∷ suffixes) m = elim (Bool-cases (same suffix s)) [
    | inl e ↦
        ap
          (λ x.
            same (sidecar_path md suffix) (sidecar_path md x)
            || member (sidecar_path md suffix) (map (sidecar_path md) suffixes))
          (sym (same-eq suffix s e))
        ∙ ap (λ b. b || member (sidecar_path md suffix) (map (sidecar_path md) suffixes))
            (same_refl (sidecar_path md suffix))
    | inr e ↦
        or_right (same (sidecar_path md suffix) (sidecar_path md s))
          (member (sidecar_path md suffix) (map (sidecar_path md) suffixes))
          (member-map md suffix suffixes (ap (λ b. b || member suffix suffixes) (sym e) ∙ m))
  ]

  pub delete_md-Gone :
      (md suffix : Text) (c : Cleaning index)
      → Clean index (delete_md index md c)
      → member suffix spo_extractor_suffixes ≡ true
      → Gone index (sidecar_path md suffix) (delete_md index md c)
  unfolding delete_md sidecar_paths_for_md
  delete_md-Gone md suffix c h s =
      let q = sidecar_path md suffix in
      let ps = sidecar_paths_for_md index c.1 md in
      let (clean, later) = Keeps-remove_tracked (meta_path md) q (remove_paths index ps c) h in
      later
        (elim (listed-or-gone q c.1 (map (sidecar_path md) spo_extractor_suffixes)
          (member-map md suffix spo_extractor_suffixes s)) [
            | inl m ↦ remove_paths-Gone ps q c clean m
            | inr g ↦ (Keeps-remove_paths ps q c clean).1 g
          ])

  pub Keeps-delete_md : (md q : Text) → Keeps index q (delete_md index md)
  unfolding delete_md
  Keeps-delete_md md q c h =
      let ps = sidecar_paths_for_md index c.1 md in
      let (mid, later) = Keeps-remove_tracked (meta_path md) q (remove_paths index ps c) h in
      let (clean, first) = Keeps-remove_paths ps q c mid in (clean, λ g. later (first g))

  pub Keeps-follow : (a b q : Text) → same q b ≡ false → Keeps index q (follow index a b)
  unfolding follow
  Keeps-follow a b q n c h = elim (Bool-cases (tracked index a c.1)) [
    | inr e ↦ rw (e, follow) (rw (e, follow) at h, λ g. g)
    | inl e ↦ elim (Bool-cases (tracked index b c.1 && not (same b a))) [
      | inl f ↦ rw (e, f, follow) (Keeps-remove_path a q c (rw (e, f, follow) at h))
      | inr f ↦ rw (e, f, follow) (Keeps-move_path a b q n c (rw (e, f, follow) at h))
    ]
  ]

  pub follow-Gone :
      (a b : Text) (c : Cleaning index)
      → same a b ≡ false
      → Clean index (follow index a b c)
      → Gone index a (follow index a b c)
  unfolding follow
  follow-Gone a b c n h = elim (Bool-cases (tracked index a c.1)) [
    | inr e ↦ rw (e, follow) e
    | inl e ↦ elim (Bool-cases (tracked index b c.1 && not (same b a))) [
      | inl f ↦
          rw (e, f, follow)
            ((remove_path-tracked a a c (rw (e, f, follow) at h)).1
              ∙ ap (λ x. tracked index a c.1 && not x) (same_refl a)
              ∙ and_false (tracked index a c.1))
      | inr f ↦
          rw (e, f, follow)
            ((move_path-tracked a b a c (rw (e, f, follow) at h)).1
              ∙ ap (λ x. (tracked index a c.1 && not x) || same a b) (same_refl a)
              ∙ ap (λ x. (tracked index a c.1 && not true) || x) n
              ∙ ap (λ x. x || false) (and_false (tracked index a c.1)))
    ]
  ]
