-- ===== src/Daemon/Swap/Crash.antt =====
-- What is served after a run of `Step`, wherever the process dies.
use git_lex.Base.{ℕ, ◌≡◌, ◌≢◌, ◌⊎◌, refl, sym, inl, inr, Option, none, some, ok}
use git_lex.Daemon.Swap.{
  Content, Place, Disk, State, Stage, Step, Reach, shown, version_of, remove_dir_all, tear,
  move_aside, land, or_same, restore, clear, recover_swap, open_existing,
}

-- What is served is in place, complete, and `prev` is only there beside it.
abbrev Settled : Disk → Option ℕ → Type 0
Settled d k = (d.live ≡ shown k) × (k ≡ none → d.prev ≡ none)

-- Between the two renames: the store is aside, and the copy is a finished one.
abbrev Between : Disk → Option ℕ → ℕ → Type 0
Between d k m = (d.live ≡ none) × (d.next ≡ some (Content.whole m)) × (d.prev ≡ shown k)

abbrev Holds : Stage → Disk → Option ℕ → ℕ → Type 0
Holds Stage.worked d k m = Settled d k × (d.next ≡ some (Content.whole m))
Holds Stage.moving d k m = (d.live ≡ shown k) × (d.next ≡ some (Content.whole m)) × (d.prev ≡ none)
Holds Stage.landing d k m = Between d k m
Holds Stage.down d k m = Settled d k ⊎ Between d k m
Holds _ d k m = Settled d k

abbrev pub IsSound : State → Type 0
IsSound s = Holds s.stage s.disk s.kept s.made

as_made :
    (d : Disk) (a b c : Option Content)
    → d.live ≡ a
    → d.next ≡ b
    → d.prev ≡ c
    → d ≡ record { live = a; next = b; prev = c }
as_made d a b c e f g = rw (sym e, sym f, sym g) refl

aside-Between :
    (d : Disk) (k : Option ℕ) (m : ℕ)
    → Holds Stage.moving d k m
    → Between (or_same d (move_aside d)) k m
aside-Between d none m (l, n, p) =
    rw (as_made d none (some (Content.whole m)) none l n p) (refl, refl, refl)
aside-Between d (some v) m (l, n, p) =
    rw (as_made d (some (Content.whole v)) (some (Content.whole m)) none l n p) (refl, refl, refl)

land-Settled :
    (d : Disk) (k : Option ℕ) (m : ℕ)
    → Between d k m
    → Settled (or_same d (land d)) (version_of (or_same d (land d)).live)
land-Settled d k m (l, n, p) =
    rw (as_made d none (some (Content.whole m)) (shown k) l n p) (refl, λ e. cc)

restore-still :
    (d : Disk) (n : Option Content)
    → d.live ≡ none
    → d.next ≡ n
    → d.prev ≡ none
    → Settled (restore d) (version_of (restore d).live)
restore-still d n l e p = rw (as_made d none n none l e p) (refl, λ _. refl)

restore-there :
    (d : Disk) (n p : Option Content) (v : ℕ)
    → d.live ≡ some (Content.whole v)
    → d.next ≡ n
    → d.prev ≡ p
    → Settled (restore d) (version_of (restore d).live)
restore-there d n p v l e f = rw (as_made d (some (Content.whole v)) n p l e f) (refl, λ g. cc)

restore-Settled :
    (d : Disk) (k : Option ℕ) (m : ℕ)
    → Holds Stage.down d k m
    → Settled (restore d) (version_of (restore d).live)
restore-Settled d none m (inl (l, p)) = restore-still d d.next l refl (p refl)
restore-Settled d (some v) m (inl (l, p)) = restore-there d d.next d.prev v l refl refl
restore-Settled d none m (inr (l, n, p)) = restore-still d (some (Content.whole m)) l n p
restore-Settled d (some v) m (inr (l, n, p)) =
    rw (as_made d none (some (Content.whole m)) (some (Content.whole v)) l n p) (refl, λ g. cc)

die-Holds :
    (g : Stage) (d : Disk) (k : Option ℕ) (m : ℕ) → Holds g d k m → Settled d k ⊎ Between d k m
die-Holds Stage.idle d k m h = inl h
die-Holds Stage.cleared d k m h = inl h
die-Holds Stage.copied d k m h = inl h
die-Holds Stage.worked d k m (h, _) = inl h
die-Holds Stage.moving d k m (l, n, p) = inl (l, λ _. p)
die-Holds Stage.landing d k m h = inr h
die-Holds Stage.landed d k m h = inl h
die-Holds Stage.cleaning d k m h = inl h
die-Holds Stage.down d k m h = h
die-Holds Stage.restored d k m h = inl h

tear-Settled :
    (d : Disk) (k : Option ℕ) (p : Place) → p ≢ Place.live_dir → Settled d k → Settled (tear p d) k
tear-Settled d k Place.live_dir ne h = elim (ne refl) [ ]
tear-Settled d k Place.next_dir ne h = h
tear-Settled d k Place.prev_dir ne (l, p) = (l, λ e. rw (p e) refl)

clear-same :
    (d : Disk) (k : Option ℕ) (n p : Option Content)
    → d.live ≡ shown k
    → d.next ≡ n
    → d.prev ≡ p
    → (k ≡ none → p ≡ none)
    → Settled (clear Place.prev_dir (clear Place.next_dir d)) k
clear-same d none n p l e f g = rw (as_made d none n p l e f) (refl, g)
clear-same d (some v) n p l e f g =
    rw (as_made d (some (Content.whole v)) n p l e f) (refl, λ _. refl)

clear-Settled :
    (d : Disk) (k : Option ℕ)
    → Settled d k
    → Settled (clear Place.prev_dir (clear Place.next_dir d)) k
clear-Settled d k (l, p) = clear-same d k d.next d.prev l refl refl p

restore-same :
    (d : Disk) (k : Option ℕ) (n p : Option Content)
    → d.live ≡ shown k
    → d.next ≡ n
    → d.prev ≡ p
    → (k ≡ none → p ≡ none)
    → Settled (restore d) k
restore-same d none n none l e f g = rw (as_made d none n none l e f) (refl, g)
restore-same d none n (some c) l e f g = let h = g refl in cc
restore-same d (some v) n p l e f g =
    rw (as_made d (some (Content.whole v)) n p l e f) (refl, λ h. cc)

-- A disk that is settled keeps its store through `recover_swap`.
recover_swap-Settled : (d : Disk) (k : Option ℕ) → Settled d k → Settled (recover_swap d) k
unfolding recover_swap
recover_swap-Settled d k (l, p) =
    clear-Settled (restore d) k (restore-same d k d.next d.prev l refl refl p)

at_stage : (s : State) (g : Stage) → s.stage ≡ g → IsSound s → Holds g s.disk s.kept s.made
at_stage s g e h = rw (sym e) h

cleaned-Settled :
    (d : Disk) (k : Option ℕ)
    → Settled d k
    → Settled (remove_dir_all Place.prev_dir (remove_dir_all Place.next_dir d)) k
cleaned-Settled d k (l, p) = (l, λ _. refl)

-- Every step keeps the invariant.
Step-IsSound : (s t : State) → Step s t → IsSound s → IsSound t
Step-IsSound s _ (Step.clear_next _ e) h = at_stage s Stage.idle e h
Step-IsSound s _ (Step.copying _ e) h = rw e (at_stage s Stage.cleared e h)
Step-IsSound s _ (Step.backed_up _ e) h = at_stage s Stage.cleared e h
Step-IsSound s _ (Step.copy_failed _ e) h = at_stage s Stage.cleared e h
Step-IsSound s _ (Step.working _ e) h = rw e (at_stage s Stage.copied e h)
Step-IsSound s _ (Step.finish _ v e) h = (at_stage s Stage.copied e h, refl)
Step-IsSound s _ (Step.fail _ e) h = at_stage s Stage.copied e h
Step-IsSound s _ (Step.gone _ e) h = (at_stage s Stage.worked e h).0
Step-IsSound s _ (Step.dropping _ e) h =
    let (h, n) = at_stage s Stage.worked e h in
    rw e (tear-Settled s.disk s.kept Place.prev_dir (λ f. cc) h, n)
Step-IsSound s _ (Step.dropped _ e) h =
    let ((l, _), n) = at_stage s Stage.worked e h in (l, n, refl)
Step-IsSound s _ (Step.aside _ e) h =
    aside-Between s.disk s.kept s.made (at_stage s Stage.moving e h)
Step-IsSound s _ (Step.into_place _ e) h =
    land-Settled s.disk s.kept s.made (at_stage s Stage.landing e h)
Step-IsSound s _ (Step.aside_failed _ e) h =
    let (l, _, p) = at_stage s Stage.moving e h in (l, λ _. p)
Step-IsSound s _ (Step.land_failed _ e) h =
    restore-Settled s.disk s.kept s.made (inr (at_stage s Stage.landing e h))
Step-IsSound s _ (Step.reopened _ e) h =
    recover_swap-Settled s.disk s.kept (at_stage s Stage.landed e h)
Step-IsSound s _ (Step.cleaning_up _ p e ne) h =
    rw e (tear-Settled s.disk s.kept p ne (at_stage s Stage.cleaning e h))
Step-IsSound s _ (Step.cleaned _ e) h =
    cleaned-Settled s.disk s.kept (at_stage s Stage.cleaning e h)
Step-IsSound s _ (Step.die _) h = die-Holds s.stage s.disk s.kept s.made h
Step-IsSound s _ (Step.restart _ e) h =
    restore-Settled s.disk s.kept s.made (at_stage s Stage.down e h)
Step-IsSound s _ (Step.recovering _ p e ne _) h =
    rw e (tear-Settled s.disk s.kept p ne (at_stage s Stage.restored e h))
Step-IsSound s _ (Step.recovered _ e) h =
    clear-Settled s.disk s.kept (at_stage s Stage.restored e h)

Reach-IsSound : (s t : State) → Reach s t → IsSound s → IsSound t
Reach-IsSound s _ Reach.here h = h
Reach-IsSound s _ (Reach.next {t} {u} r step) h = Step-IsSound t u step (Reach-IsSound s t r h)

open-Settled :
    (d : Disk) (k : Option ℕ) → (recover_swap d).live ≡ shown k → (open_existing d).1 ≡ ok k
unfolding open_existing
open-Settled d none e = rw e refl
open-Settled d (some v) e = rw e refl

Between-live :
    (d : Disk) (k : Option ℕ) (m : ℕ)
    → Between d k m
    → ((recover_swap d).live ≡ shown k) ⊎ ((recover_swap d).live ≡ shown (some m))
unfolding recover_swap
Between-live d none m (l, n, p) = rw (as_made d none (some (Content.whole m)) none l n p) (inl refl)
Between-live d (some v) m (l, n, p) =
    rw (as_made d none (some (Content.whole m)) (some (Content.whole v)) l n p) (inr refl)

-- From a sound state (the served version is in place and complete, or, between the two renames, the
-- old store and the finished copy both are), through any run with any number of deaths in the middle
-- of a copy, a sync, a swap or a recovery: opening the store then succeeds, and gives the version
-- that was served or the last one that a worker finished.
pub open_existing-Reach :
    (s t : State)
    → IsSound s
    → Reach s t
    → ((open_existing t.disk).1 ≡ ok t.kept) ⊎ ((open_existing t.disk).1 ≡ ok (some t.made))
open_existing-Reach s t h r =
    elim (die-Holds t.stage t.disk t.kept t.made (Reach-IsSound s t r h)) [
      | inl settled ↦
          inl (open-Settled t.disk t.kept (recover_swap-Settled t.disk t.kept settled).0)
      | inr between ↦ elim (Between-live t.disk t.kept t.made between) [
        | inl e ↦ inl (open-Settled t.disk t.kept e)
        | inr e ↦ inr (open-Settled t.disk (some t.made) e)
      ]
    ]
