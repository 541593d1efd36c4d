-- ===== src/Daemon/Souls/Distinct.antt =====
-- The first commits of the souls that gitlexd holds.
use git_lex.Base.{
  ℕ, ◌≡◌, refl, ap, sym, ◌∙◌, inl, inr, false, ◌||◌, Option, List, [], ◌∷◌, ◌++◌, Result, ok, err,
  keep, keep-true, keep-false, length, arith, Bool-cases, ◌==◌, ==_iff, Option-cases, All,
}
use git_lex.Text.{same_sym, Text, same, same_refl, same-eq, starts_with}
use git_lex.Daemon.Souls.{
  Soul, RegistryEntry, forget, find, holds, genesis_of, adopt, adopt_as, opened,
}

pub starts_with-same : (p s : Text) → length p ≡ length s → starts_with p s ≡ same s p
starts_with-same [] [] e = refl
starts_with-same [] (c ∷ s) e = ground arith
starts_with-same (a ∷ p) [] e = refl
starts_with-same (a ∷ p) (c ∷ s) e =
    let rest = starts_with-same p s (omega (arith, e)) in
    elim (Bool-cases (a == c)) [
      | inl f ↦ rw f (ground (arith, rest, ==_iff a c))
      | inr f ↦ rw f (ground (arith, ==_iff a c))
    ]

module _ {Store E : Type 0} where
  -- Every soul's first commit is no later soul's.
  abbrev pub IsDistinct : List (Soul Store E) → Type 0
  IsDistinct [] = Unit
  IsDistinct (s ∷ souls) = (holds s.genesis souls ≡ false) × IsDistinct souls

  pub holds-snoc :
      (g : Text) (souls : List (Soul Store E)) (s : Soul Store E)
      → holds g (souls ++ s ∷ []) ≡ (holds g souls || same s.genesis g)
  holds-snoc g [] s = ground arith
  holds-snoc g (t ∷ souls) s = ground (arith, holds-snoc g souls s)

  IsDistinct-snoc :
      (souls : List (Soul Store E)) (s : Soul Store E)
      → IsDistinct souls
      → holds s.genesis souls ≡ false
      → IsDistinct (souls ++ s ∷ [])
  IsDistinct-snoc [] s d h = (refl, tt)
  IsDistinct-snoc (t ∷ souls) s (e, d) h = (
    holds-snoc t.genesis souls s ∙ ground (arith, same_sym s.genesis t.genesis),
    IsDistinct-snoc souls s d (ground arith),
  )

  forget_kept :
      (g h : Text) (souls : List (Soul Store E))
      → holds h souls ≡ false
      → holds h ((forget g souls).1) ≡ false
  unfolding forget
  forget_kept g h [] e = e
  forget_kept g h (s ∷ souls) e = elim (Bool-cases (same s.genesis g)) [
    | inl f ↦ rw (f, forget) ground arith
    | inr f ↦ rw (f, forget) (ground (arith, forget_kept g h souls))
  ]

  -- `forget` keeps the first commits distinct.
  pub forget-IsDistinct :
      (g : Text) (souls : List (Soul Store E)) → IsDistinct souls → IsDistinct ((forget g souls).1)
  unfolding forget
  forget-IsDistinct g [] d = d
  forget-IsDistinct g (s ∷ souls) (e, d) = elim (Bool-cases (same s.genesis g)) [
    | inl f ↦ rw (f, forget) d
    | inr f ↦ rw (f, forget) (forget_kept g s.genesis souls e, forget-IsDistinct g souls d)
  ]

  -- A soul that is forgotten is not held afterwards.
  pub forget_gone :
      (g : Text) (souls : List (Soul Store E))
      → IsDistinct souls
      → holds g ((forget g souls).1) ≡ false
  unfolding forget
  forget_gone g [] d = refl
  forget_gone g (s ∷ souls) (e, d) = elim (Bool-cases (same s.genesis g)) [
    | inl f ↦ rw (f, forget) (rw (sym (same-eq s.genesis g f)) e)
    | inr f ↦ rw (f, forget) (ground (arith, forget_gone g souls d))
  ]

  holds-middle :
      (g : Text) (a b : List (Soul Store E)) (s : Soul Store E)
      → holds g (a ++ s ∷ b) ≡ false
      → same g s.genesis ≡ false
  holds-middle g [] b s h = same_sym g s.genesis ∙ ground arith
  holds-middle g (t ∷ a) b s h = holds-middle g a b s (ground arith)

  -- The souls whose first commit is a prefix's, when all have the prefix's length.
  abbrev HasLength : ℕ → Soul Store E → Type 0
  HasLength n s = length s.genesis ≡ n

  hits : Text → List (Soul Store E) → List (Soul Store E)
  hits prefix souls = keep (λ s. starts_with prefix s.genesis) souls

  hits_none :
      (g : Text) (souls : List (Soul Store E))
      → All (HasLength (length g)) souls
      → holds g souls ≡ false
      → hits g souls ≡ []
  unfolding hits
  hits_none g [] a h = refl
  hits_none g (s ∷ souls) (e, a) h =
      keep-false (λ s. starts_with g s.genesis) s souls
        (starts_with-same g s.genesis (sym e) ∙ ground arith)
      ∙ hits_none g souls a (ground arith)

  hits_one :
      (a b : List (Soul Store E)) (s : Soul Store E)
      → All (HasLength (length s.genesis)) (a ++ s ∷ b)
      → IsDistinct (a ++ s ∷ b)
      → hits s.genesis (a ++ s ∷ b) ≡ s ∷ []
  unfolding hits
  hits_one [] b s (e, h) (d, _) =
      keep-true (λ s'. starts_with s.genesis s'.genesis) s b
        (starts_with-same s.genesis s.genesis refl ∙ same_refl s.genesis)
      ∙ ap (λ t. s ∷ t) (hits_none s.genesis b h d)
  hits_one (t ∷ a) b s (e, h) (d, ds) =
      keep-false (λ s'. starts_with s.genesis s'.genesis) t (a ++ s ∷ b)
        (starts_with-same s.genesis t.genesis (sym e) ∙ holds-middle t.genesis a b s d)
      ∙ hits_one a b s h ds

  -- When the first commits are distinct and are hashes of one length, a soul that is held is found
  -- by its whole hash.
  pub find-held :
      (a b : List (Soul Store E)) (s : Soul Store E)
      → All (HasLength (length s.genesis)) (a ++ s ∷ b)
      → IsDistinct (a ++ s ∷ b)
      → find s.genesis (a ++ s ∷ b) ≡ ok s
  unfolding find hits
  find-held a b s h d = rw (hits_one a b s h d) refl

module _ {Store E : Type 0} (genesis_sha_at : Text → Option Text)
    (open_existing : Text → Result E (Option Store)) where
  pub opened-genesis :
      (g p : Text) (r : Result E (Option Store))
      → (opened genesis_sha_at open_existing g p r).genesis ≡ g
  opened-genesis g p (ok s) = refl
  opened-genesis g p (err e) = refl

  pub adopt-IsDistinct :
      (entry : RegistryEntry) (souls : List (Soul Store E))
      → IsDistinct souls
      → IsDistinct (adopt genesis_sha_at open_existing entry souls).1
  unfolding adopt
  adopt-IsDistinct entry souls d =
      elim (Option-cases (genesis_of genesis_sha_at open_existing entry)) [
        | inl e ↦ rw e d
        | inr (g, e) ↦ elim (Bool-cases (holds g souls)) [
          | inl f ↦ rw (e, adopt_as, f) d
          | inr f ↦
              rw (e, adopt_as, f)
                (IsDistinct-snoc souls
                  (opened genesis_sha_at open_existing g entry.path (open_existing entry.path)) d
                  (rw (opened-genesis g entry.path (open_existing entry.path)) f))
        ]
      ]

  -- The lists of souls that gitlexd's atomic changes lead to: an `adopt` and the list part of a
  -- `forget` each hold the lock, and any number of tasks interleave them.
  pub data Reach : List (Soul Store E) → Type 0 where
    none_held : Reach []
    adopted :
        (entry : RegistryEntry) (souls : List (Soul Store E))
        → Reach souls
        → Reach (adopt genesis_sha_at open_existing entry souls).1
    forgotten : (g : Text) (souls : List (Soul Store E)) → Reach souls → Reach (forget g souls).1

  -- However adopts and forgets interleave, no two souls held share a first commit.
  pub Reach-IsDistinct : (souls : List (Soul Store E)) → Reach souls → IsDistinct souls
  Reach-IsDistinct _ none_held = tt
  Reach-IsDistinct _ (adopted entry souls r) =
      adopt-IsDistinct entry souls (Reach-IsDistinct souls r)
  Reach-IsDistinct _ (forgotten g souls r) = forget-IsDistinct g souls (Reach-IsDistinct souls r)
