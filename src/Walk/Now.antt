-- ===== src/Walk/Now.antt =====
-- The base layer along a walk, against what the sidecars of each commit state.
use mathlib.Core.Path.{subst}
use git_lex.Base.{
  ◌≡◌, ◌↔◌, refl, ap, sym, ◌∙◌, Bool, true, false, List, [], ◌∷◌, Result, ok, All, if◌then◌else◌,
  Option,
}
use git_lex.Text.{Text}
use git_lex.Sets.{member, difference, extend, difference-member, All-member}
use git_lex.Fallible.{and_then, and_then-ok, ok-eq}
use git_lex.Walk.{WalkCommit, GraphStore}
use git_lex.Walk.Terms.{Op}
use git_lex.Walk.Sidecars.{SidecarReader, resolve_sidecar_at}
use git_lex.Walk.World.{Says, Untouched, Anywhere, IsDiff, commit-Says, side-Says}
use git_lex.Walk.Engine.{
  WalkState, CommitSides, old_paths, new_paths, resolve_side, resolve_commit_sides, record_events,
  still_live, commit_events, walk_commits,
}
use git_lex.Walk.Batch.{IsFact, IsTidy, view}
use git_lex.Walk.Events.{IsStatement, record_events-view}
use git_lex.Walk.Guard.{retracts_still_live}
use git_lex.Walk.Exact.{IsAnchoredHistory, resolve-IsEmitted, retracts_still_live-exact}
use git_lex.Walk.Edges.{IsPlain, Follows, record_events-Follows}

-- Each commit's diff is taken against the commit walked before it.
abbrev pub IsChain : Text → List WalkCommit → Type 0
IsChain sha [] = Unit
IsChain sha (c ∷ cs) = (c.parent_sha ≡ sha) × IsChain c.sha cs

abbrev pub last_sha : Text → List WalkCommit → Text
last_sha sha [] = sha
last_sha sha (c ∷ cs) = last_sha c.sha cs

module _ (from_utf8 : Text → Option Text) (is_iri : Text → Bool) (digest : Text → Text)
    {S O E : Type 0} (graph : GraphStore S E) (reader : SidecarReader O E)
    (resolve_lines : List Text → Text → Text → Result E (List Text))
    (anchored : IsAnchoredHistory from_utf8 is_iri reader resolve_lines) where
  abbrev resolve : Text → Text → Result E (List Text)
  resolve = resolve_sidecar_at reader resolve_lines

  abbrev guard : List Text → List Text → WalkCommit → WalkState S → Result E (List Text)
  guard = retracts_still_live from_utf8 is_iri graph reader resolve_lines

  -- What holds, with the pending effects, is what the sidecars of the commit say.
  abbrev pub HoldsAt : Text → WalkState S → Type 0
  HoldsAt sha st = (q : Text) → IsFact q → (view graph q st ≡ true) ↔ Says resolve Anywhere sha q

  abbrev pub IsSound : WalkState S → Type 0
  IsSound st = IsTidy graph st × Follows st

  abbrev sides_of : WalkCommit → List Text → List Text → CommitSides
  sides_of c olds news = record {
    old_side = old_paths c;
    new_side = new_paths c;
    old_triples = olds;
    new_triples = news;
  }

  said-emitted :
      (sha : Text) (paths out : List Text) (q : Text)
      → resolve_side resolve sha paths [] ≡ ok out
      → member q out ≡ true
      → IsStatement q × IsPlain q
  said-emitted sha paths out q e m =
      let (path, lines, _, f, k) = side-Says resolve sha paths out q e m in
      let (_, _, emitted) =
        resolve-IsEmitted from_utf8 is_iri graph reader resolve_lines anchored sha path q lines f
          k in
      (emitted.statement, emitted.plain)

  still_live-guard :
      (retracts touched_any : List Text) (c : WalkCommit) (st : WalkState S) (z : Text)
      → member z retracts ≡ true
      → still_live graph digest resolve guard retracts touched_any c st
        ≡ guard retracts touched_any c st
  still_live-guard [] touched_any c st z m = cc
  still_live-guard (r ∷ rs) touched_any c st z m = refl

  live-exact :
      (c : WalkCommit) (st : WalkState S) (retracts live : List Text) (q : Text)
      → IsDiff resolve c
      → ((q : Text) → IsFact q → Says resolve Anywhere c.parent_sha q → view graph q st ≡ true)
      → Follows st
      → still_live graph digest resolve guard retracts (extend (old_paths c) (new_paths c)) c st
        ≡ ok live
      → member q retracts ≡ true
      → (member q live ≡ true) ↔ Says resolve (Untouched c) c.sha q
  live-exact c st retracts live q d held follows found m =
      retracts_still_live-exact from_utf8 is_iri graph reader resolve_lines anchored c st retracts
        live q d held follows
        (sym (still_live-guard retracts (extend (old_paths c) (new_paths c)) c st q m) ∙ found) m

  -- One commit's events.
  commit_events-Says :
      (c : WalkCommit) (st after : WalkState S) (olds news : List Text)
      → IsDiff resolve c
      → resolve_side resolve c.parent_sha (old_paths c) [] ≡ ok olds
      → resolve_side resolve c.sha (new_paths c) [] ≡ ok news
      → IsSound st
      → HoldsAt c.parent_sha st
      → commit_events graph digest resolve guard c st (sides_of c olds news) ≡ ok after
      → IsSound after × HoldsAt c.sha after
  commit_events-Says c st after olds news d eo en (tidy, follows) held h =
      let retracts = difference olds news in
      let touched_any = extend (old_paths c) (new_paths c) in
      let (live, found, r1) =
        and_then-ok (still_live graph digest resolve guard retracts touched_any c st)
          (λ live.
            and_then (record_events graph digest (difference retracts live) Op.retract_op c.sha st)
              (λ st. record_events graph digest (difference news olds) Op.assert_op c.sha st))
          after h in
      let (mid, retracted, asserted) =
        and_then-ok (record_events graph digest (difference retracts live) Op.retract_op c.sha st)
          (λ st. record_events graph digest (difference news olds) Op.assert_op c.sha st) after
          r1 in
      let gone : (q : Text)
          → member q (difference retracts live) ≡ true
          → IsStatement q × IsPlain q =
        λ q m.
          said-emitted c.parent_sha (old_paths c) olds q eo
            (difference-member q olds news (difference-member q retracts live m)) in
      let come : (q : Text) → member q (difference news olds) ≡ true → IsStatement q × IsPlain q =
        λ q m. said-emitted c.sha (new_paths c) news q en (difference-member q news olds m) in
      let gone_s = All-member IsStatement (difference retracts live) (λ q m. (gone q m).0) in
      let come_s = All-member IsStatement (difference news olds) (λ q m. (come q m).0) in
      let gone_p = All-member IsPlain (difference retracts live) (λ q m. (gone q m).1) in
      let come_p = All-member IsPlain (difference news olds) (λ q m. (come q m).1) in
      let first : (q : Text)
          → IsFact q
          → (view graph q mid
              ≡ (if member q (difference retracts live) then false else view graph q st))
            × IsTidy graph mid =
        λ q f.
          record_events-view graph digest (difference retracts live) Op.retract_op c.sha st mid q
            gone_s tidy f retracted in
      let mid_tidy = (first [] refl).1 in
      let second : (q : Text)
          → IsFact q
          → (view graph q after
              ≡ (if member q (difference news olds) then true else view graph q mid))
            × IsTidy graph after =
        λ q f.
          record_events-view graph digest (difference news olds) Op.assert_op c.sha mid after q
            come_s mid_tidy f asserted in
      (
        (
          (second [] refl).1,
          record_events-Follows graph digest (difference news olds) Op.assert_op c.sha mid after
              come_s come_p
              (record_events-Follows graph digest (difference retracts live) Op.retract_op c.sha st
                mid gone_s gone_p follows retracted)
              asserted,
        ),
        λ q f.
            subst (λ b. (b ≡ true) ↔ Says resolve Anywhere c.sha q)
              (sym (
                (second q f).0
                ∙ ap (λ b. if member q (difference news olds) then true else b) (first q f).0))
              (commit-Says resolve c olds news live q (view graph q st) d eo en
                (live-exact c st retracts live q d (λ q f. (held q f).1) follows found) (held q f)),
      )

  -- A whole walk.
  pub walk_commits-Says :
      (sha : Text) (cs : List WalkCommit) (st after : WalkState S)
      → IsChain sha cs
      → All (IsDiff resolve) cs
      → IsSound st
      → HoldsAt sha st
      → walk_commits graph digest resolve guard cs st ≡ ok after
      → IsSound after × HoldsAt (last_sha sha cs) after
  unfolding walk_commits
  walk_commits-Says sha [] st after chain d sound held h = rw (sym (ok-eq st after h)) (sound, held)
  walk_commits-Says sha (c ∷ cs) st after (base, chain) (d, ds) sound held h =
      let (sides, resolved, r1) =
        and_then-ok (resolve_commit_sides resolve c)
          (λ sides.
            and_then (commit_events graph digest resolve guard c st sides)
              (λ st. walk_commits graph digest resolve guard cs st))
          after h in
      let (mid, r2, r3) =
        and_then-ok (commit_events graph digest resolve guard c st sides)
          (λ st. walk_commits graph digest resolve guard cs st) after r1 in
      let (olds, eo, r4) =
        and_then-ok (resolve_side resolve c.parent_sha (old_paths c) [])
          (λ olds.
            and_then (resolve_side resolve c.sha (new_paths c) [])
              (λ news. ok (sides_of c olds news)))
          sides resolved in
      let (news, en, r5) =
        and_then-ok (resolve_side resolve c.sha (new_paths c) [])
          (λ news. ok (sides_of c olds news)) sides r4 in
      let (sound, held) =
        commit_events-Says c st mid olds news d eo en sound
          (subst (λ s. HoldsAt s st) (sym base) held)
          (ap (commit_events graph digest resolve guard c st)
              (ok-eq (sides_of c olds news) sides r5)
            ∙ r2) in
      walk_commits-Says c.sha cs mid after chain ds sound held r3
