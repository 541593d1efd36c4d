-- ===== src/Daemon/Souls/Complete.antt =====
-- `refresh` of the list of souls against the registry.
use git_lex.Base.{
  ℕ, ◌≡◌, refl, ap, sym, ◌∙◌, inl, inr, true, false, ◌||◌, Option, none, some, List, [], ◌∷◌, ◌++◌,
  map, Result, any, arith, Bool-cases, Option-cases, All,
}
use git_lex.Text.{Text, same, same_refl}
use git_lex.Daemon.Souls.{
  Soul, RegistryEntry, holds, genesis_of, adopt, adopt_as, opened, refresh_loop, refresh, is_held,
  count_joined,
}
use git_lex.Daemon.Souls.Distinct.{holds-snoc, opened-genesis}

module _ {Store E : Type 0} (genesis_sha_at : Text → Option Text)
    (open_existing : Text → Result E (Option Store)) where
  abbrev take_in : RegistryEntry → List (Soul Store E) → Option (Soul Store E) × List (Soul Store E)
  take_in = adopt genesis_sha_at open_existing

  abbrev key : RegistryEntry → Option Text
  key = genesis_of genesis_sha_at open_existing

  -- The entry's repository is held, if it has a first commit.
  abbrev IsHeld : List (Soul Store E) → RegistryEntry → Type 0
  IsHeld souls entry = (g : Text) → key entry ≡ some g → holds g souls ≡ true

  adopt_none :
      (entry : RegistryEntry) (souls : List (Soul Store E))
      → key entry ≡ none
      → take_in entry souls ≡ (none, souls)
  unfolding adopt
  adopt_none entry souls e = rw e refl

  adopt_again :
      (entry : RegistryEntry) (souls : List (Soul Store E)) (g : Text)
      → key entry ≡ some g
      → holds g souls ≡ true
      → take_in entry souls ≡ (none, souls)
  unfolding adopt
  adopt_again entry souls g e f = rw (e, adopt_as, f) refl

  abbrev joining : Text → RegistryEntry → Soul Store E
  joining g entry = opened genesis_sha_at open_existing g entry.path (open_existing entry.path)

  adopt_new :
      (entry : RegistryEntry) (souls : List (Soul Store E)) (g : Text)
      → key entry ≡ some g
      → holds g souls ≡ false
      → take_in entry souls ≡ (some (joining g entry), souls ++ joining g entry ∷ [])
  unfolding adopt
  adopt_new entry souls g e f = rw (e, adopt_as, f) refl

  adopt-holds :
      (entry : RegistryEntry) (souls : List (Soul Store E)) (h : Text)
      → holds h souls ≡ true
      → holds h (take_in entry souls).1 ≡ true
  adopt-holds entry souls h e = elim (Option-cases (key entry)) [
    | inl f ↦ rw (adopt_none entry souls f) e
    | inr (g, f) ↦ elim (Bool-cases (holds g souls)) [
      | inl k ↦ rw (adopt_again entry souls g f k) e
      | inr k ↦
          rw (adopt_new entry souls g f k, holds-snoc h souls (joining g entry)) (ground arith)
    ]
  ]

  adopt-IsHeld :
      (entry : RegistryEntry) (souls : List (Soul Store E)) → IsHeld (take_in entry souls).1 entry
  adopt-IsHeld entry souls g e = elim (Bool-cases (holds g souls)) [
    | inl k ↦ rw (adopt_again entry souls g e k) k
    | inr k ↦
        rw
          (
            adopt_new entry souls g e k,
            holds-snoc g souls (joining g entry),
            opened-genesis genesis_sha_at open_existing g entry.path (open_existing entry.path),
            same_refl g,
          )
          (ground arith)
  ]

  abbrev loop : List Text → List RegistryEntry → ℕ → List (Soul Store E) → ℕ × List (Soul Store E)
  loop = refresh_loop genesis_sha_at open_existing

  loop_skip :
      (held : List Text) (entry : RegistryEntry) (entries : List RegistryEntry) (n : ℕ)
      (souls : List (Soul Store E))
      → is_held genesis_sha_at open_existing held (key entry) ≡ true
      → loop held (entry ∷ entries) n souls ≡ loop held entries n souls
  unfolding refresh_loop
  loop_skip held entry entries n souls e = rw (e, refresh_loop) refl

  loop_take :
      (held : List Text) (entry : RegistryEntry) (entries : List RegistryEntry) (n : ℕ)
      (souls : List (Soul Store E))
      → is_held genesis_sha_at open_existing held (key entry) ≡ false
      → loop held (entry ∷ entries) n souls
        ≡ loop held entries
            (count_joined genesis_sha_at open_existing (take_in entry souls).0 n)
            (take_in entry souls).1
  unfolding refresh_loop
  loop_take held entry entries n souls e = rw (e, refresh_loop) refl

  loop-holds :
      (held : List Text) (entries : List RegistryEntry) (n : ℕ) (souls : List (Soul Store E))
      (h : Text)
      → holds h souls ≡ true
      → holds h (loop held entries n souls).1 ≡ true
  unfolding refresh_loop
  loop-holds held [] n souls h e = e
  loop-holds held (entry ∷ entries) n souls h e =
      elim (Bool-cases (is_held genesis_sha_at open_existing held (key entry))) [
        | inl f ↦ rw (f, refresh_loop) (loop-holds held entries n souls h e)
        | inr f ↦
            rw (f, refresh_loop)
              (loop-holds held entries
                (count_joined genesis_sha_at open_existing (take_in entry souls).0 n)
                (take_in entry souls).1 h (adopt-holds entry souls h e))
      ]

  held-holds :
      (g : Text) (souls : List (Soul Store E))
      → any (λ h. same h g) (map (λ s. s.genesis) souls) ≡ holds g souls
  held-holds g [] = refl
  held-holds g (s ∷ souls) = ap (λ b. same s.genesis g || b) (held-holds g souls)

  -- What the snapshot holds, the list holds.
  Covers : List Text → List (Soul Store E) → Type 0
  Covers held souls = (g : Text) → any (λ h. same h g) held ≡ true → holds g souls ≡ true

  is_held-IsHeld :
      (held : List Text) (souls : List (Soul Store E)) (entry : RegistryEntry)
      → Covers held souls
      → is_held genesis_sha_at open_existing held (key entry) ≡ true
      → IsHeld souls entry
  unfolding Covers
  is_held-IsHeld held souls entry c e g f =
      c g (sym (ap (is_held genesis_sha_at open_existing held) f) ∙ e)

  All-move :
      (x y : ℕ × List (Soul Store E)) (entries : List RegistryEntry)
      → x ≡ y
      → All (IsHeld y.1) entries
      → All (IsHeld x.1) entries
  All-move x y entries e h = rw e h

  loop-IsHeld :
      (held : List Text) (entries : List RegistryEntry) (n : ℕ) (souls : List (Soul Store E))
      → Covers held souls
      → All (IsHeld (loop held entries n souls).1) entries
  unfolding Covers
  loop-IsHeld held [] n souls c = tt
  loop-IsHeld held (entry ∷ entries) n souls c =
      let joined = (take_in entry souls).1 in
      let m = count_joined genesis_sha_at open_existing (take_in entry souls).0 n in
      elim (Bool-cases (is_held genesis_sha_at open_existing held (key entry))) [
        | inl f ↦
            All-move (loop held (entry ∷ entries) n souls) (loop held entries n souls)
              (entry ∷ entries) (loop_skip held entry entries n souls f)
              (
                λ g e. loop-holds held entries n souls g (is_held-IsHeld held souls entry c f g e),
                loop-IsHeld held entries n souls c,
              )
        | inr f ↦
            All-move (loop held (entry ∷ entries) n souls) (loop held entries m joined)
              (entry ∷ entries) (loop_take held entry entries n souls f)
              (
                λ g e. loop-holds held entries m joined g (adopt-IsHeld entry souls g e),
                loop-IsHeld held entries m joined (λ g e. adopt-holds entry souls g (c g e)),
              )
      ]

  adopt-IsHeld_same :
      (entry : RegistryEntry) (souls : List (Soul Store E))
      → IsHeld souls entry
      → take_in entry souls ≡ (none, souls)
  adopt-IsHeld_same entry souls h = elim (Option-cases (key entry)) [
    | inl f ↦ adopt_none entry souls f
    | inr (g, f) ↦ adopt_again entry souls g f (h g f)
  ]

  loop_rests :
      (held : List Text) (entries : List RegistryEntry) (n : ℕ) (souls : List (Soul Store E))
      → All (IsHeld souls) entries
      → loop held entries n souls ≡ (n, souls)
  unfolding refresh_loop
  loop_rests held [] n souls h = refl
  loop_rests held (entry ∷ entries) n souls (e, h) =
      elim (Bool-cases (is_held genesis_sha_at open_existing held (key entry))) [
        | inl f ↦ rw (f, refresh_loop) (loop_rests held entries n souls h)
        | inr f ↦
            rw (f, refresh_loop, adopt-IsHeld_same entry souls e)
              (loop_rests held entries n souls h)
      ]

  refresh-All :
      (entries : List RegistryEntry) (souls : List (Soul Store E))
      → All (IsHeld (refresh genesis_sha_at open_existing entries souls).1) entries
  unfolding refresh Covers
  refresh-All entries souls =
      loop-IsHeld (map (λ s. s.genesis) souls) entries 0 souls (λ g e. sym (held-holds g souls) ∙ e)

  All-middle :
      (souls : List (Soul Store E)) (before after : List RegistryEntry) (entry : RegistryEntry)
      → All (IsHeld souls) (before ++ entry ∷ after)
      → IsHeld souls entry
  All-middle souls [] after entry (e, _) = e
  All-middle souls (x ∷ before) after entry (_, h) = All-middle souls before after entry h

  -- After a refresh, a soul with the first commit of every registry entry that has one is held: the
  -- entry's own repository, or another with the same first commit.
  pub refresh-holds :
      (before after : List RegistryEntry) (entry : RegistryEntry) (souls : List (Soul Store E))
      (g : Text)
      → genesis_of genesis_sha_at open_existing entry ≡ some g
      → holds g (refresh genesis_sha_at open_existing (before ++ entry ∷ after) souls).1 ≡ true
  refresh-holds before after entry souls g e =
      All-middle (refresh genesis_sha_at open_existing (before ++ entry ∷ after) souls).1 before
        after entry (refresh-All (before ++ entry ∷ after) souls) g e

  -- A refresh after a refresh of the same registry, with the repositories and their stores
  -- answering as before, takes nothing in: the list stays, and the count is zero.
  pub refresh_twice :
      (entries : List RegistryEntry) (souls : List (Soul Store E))
      → let after = (refresh genesis_sha_at open_existing entries souls).1 in
        refresh genesis_sha_at open_existing entries after ≡ (0, after)
  unfolding refresh
  refresh_twice entries souls =
      loop_rests (map (λ s. s.genesis) (refresh genesis_sha_at open_existing entries souls).1)
        entries 0 (refresh genesis_sha_at open_existing entries souls).1 (refresh-All entries souls)
