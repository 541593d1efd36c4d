-- ===== src/Sync/Resume/Choice.antt =====
-- When a sync appends.
use git_lex.Base.{
  ◌≡◌, refl, ap, sym, ◌∙◌, inl, inr, Bool, true, false, not, ◌&&◌, Option, none, some, List, [],
  ◌∷◌, ◌++◌, keep, keep-true, keep-false, All, Bool-cases, arith, if◌then◌else◌,
}
use git_lex.Text.{Text, same, same-eq, is_empty}
use git_lex.Sync.Resume.{
  Probes, GateError, Plan, gate_default_branch, on_branch, rewound_event_commits, witnessed_shas,
  line_set, contains, not_on, is_nil, fast_path_hit, find, if_typed, resume_point, when_valid,
  validated_resume, from_resume, past_gate, cmd_sync_plan,
}

-- The gate let the sync pass: HEAD is on the default branch.
abbrev pub IsOnDefault : Probes → Type 0
IsOnDefault p = p.current_branch ≡ some p.default_branch

-- Every commit that an event names is among the lines of `git rev-list`.
abbrev pub IsOnLine : Probes → Text → Type 0
IsOnLine p stdout =
    All (λ sha. contains sha (line_set stdout) ≡ true) (witnessed_shas p.witnessed_iris)

find-some :
    (f : Text → Bool) (xs : List Text) (x : Text)
    → find f xs ≡ some x
    → (before : List Text) × (after : List Text) × (xs ≡ before ++ x ∷ after)
      × (f x ≡ true)
      × All (λ y. f y ≡ false) before
find-some f [] x h = cc
find-some f (y ∷ xs) x h = elim (Bool-cases (f y)) [
  | inl e ↦ let s : y ≡ x = ground (arith) in ([], xs, ap (λ z. z ∷ xs) s, ap f (sym s) ∙ e, tt)
  | inr e ↦
      let (before, after, split, at, none_before) = find-some f xs x (ground arith) in
      (y ∷ before, after, ap (λ z. y ∷ z) split, at, (e, none_before))
]

on_branch-none : (o : Option Text) (default : Text) → on_branch o default ≡ none → o ≡ some default
on_branch-none none default h = cc
on_branch-none (some b) default h = elim (Bool-cases (same b default)) [
  | inl e ↦ ap some (same-eq b default e)
  | inr e ↦
      let g : ◌≡◌ {A = Option GateError} (some (GateError.other_branch b)) none =
        ap (λ t. if t then none else some (GateError.other_branch b)) (sym e) ∙ h in
      cc
]

keep-nil :
    (f : Text → Bool) (xs : List Text)
    → is_nil (keep (λ x. not (f x)) xs) ≡ true
    → All (λ x. f x ≡ true) xs
keep-nil f [] h = tt
keep-nil f (x ∷ xs) h = elim (Bool-cases (f x)) [
  | inl e ↦ (e, keep-nil f xs (ap is_nil (sym (keep-false (λ x. not (f x)) x xs (ap not e))) ∙ h))
  | inr e ↦ let g = ap is_nil (sym (keep-true (λ x. not (f x)) x xs (ap not e))) ∙ h in cc
]

rewound-IsOnLine :
    (p : Probes) (head stdout : Text)
    → is_nil (rewound_event_commits p head) ≡ true
    → p.rev_list head ≡ some stdout
    → IsOnLine p stdout
unfolding rewound_event_commits
rewound-IsOnLine p head stdout h e =
    keep-nil (λ sha. contains sha (line_set stdout)) (witnessed_shas p.witnessed_iris)
      (ap (λ o. is_nil (not_on o (witnessed_shas p.witnessed_iris))) (sym e) ∙ h)

past_gate_empty :
    (p : Probes) (head : Text) → is_empty head ≡ true → past_gate none p head ≡ Plan.no_commits
past_gate_empty p head e = rw (past_gate, e) refl

past_gate_hit :
    (p : Probes) (head : Text)
    → is_empty head ≡ false
    → fast_path_hit p head ≡ true
    → past_gate none p head ≡ Plan.already_synced
past_gate_hit p head e f = rw (past_gate, e, f) refl

past_gate_on :
    (p : Probes) (head : Text)
    → is_empty head ≡ false
    → fast_path_hit p head ≡ false
    → past_gate none p head ≡ from_resume (validated_resume p (resume_point p head) head)
past_gate_on p head e f = rw (past_gate, e, f) refl

-- Why a sync appends.
past_gate-append :
    (g : Option GateError) (p : Probes) (head sha : Text)
    → past_gate g p head ≡ Plan.append_from sha
    → (g ≡ none)
      × (from_resume (validated_resume p (resume_point p head) head) ≡ Plan.append_from sha)
past_gate-append (some e) p head sha h = cc
past_gate-append none p head sha h = elim (Bool-cases (is_empty head)) [
  | inl e ↦ let g = past_gate_empty p head e in cc
  | inr e ↦ elim (Bool-cases (fast_path_hit p head)) [
    | inl f ↦ let g = past_gate_hit p head e f in cc
    | inr f ↦ (refl, sym (past_gate_on p head e f) ∙ h)
  ]
]

from_resume-append :
    (o : Option Text) (sha : Text) → from_resume o ≡ Plan.append_from sha → o ≡ some sha
from_resume-append none sha h = cc
from_resume-append (some x) sha h = cc

if_some : (b : Bool) (x y : Text) → (if b then some x else none) ≡ some y → (b ≡ true) × (x ≡ y)
if_some true x y h = (refl, cc)
if_some false x y h = cc

and_both : (a b : Bool) → (a && b) ≡ true → (a ≡ true) × (b ≡ true)
and_both true true h = (refl, refl)
and_both true false h = cc
and_both false b h = cc

guard_some :
    (b : Bool) (o : Option Text) (y : Text)
    → (elim b [ false ↦ none | true ↦ o ]) ≡ some y
    → (b ≡ true) × (o ≡ some y)
guard_some true o y h = (refl, h)
guard_some false o y h = cc

when_valid-some :
    (p : Probes) (head sha : Text) (o : Option Text)
    → when_valid p head o ≡ some sha
    → (o ≡ some sha) × (p.commit_exists sha ≡ true) × (p.is_ancestor sha head ≡ true)
when_valid-some p head sha none h = cc
when_valid-some p head sha (some x) h =
    let (c, x_is) = if_some (p.commit_exists x && p.is_ancestor x head) x sha h in
    let x_is_rev = sym x_is in
    let (a, b) = and_both (p.commit_exists x) (p.is_ancestor x head) c in
    (ap some x_is, ap p.commit_exists (x_is_rev) ∙ a, ap (λ t. p.is_ancestor t head) (x_is_rev) ∙ b)

if_typed-some :
    (b : Bool) (o : Option Text) (sha : Text)
    → if_typed b o ≡ some sha
    → (b ≡ true) × (o ≡ some sha)
if_typed-some true o sha h = (refl, h)
if_typed-some false o sha h = cc

resume_point-some :
    (p : Probes) (head sha : Text)
    → resume_point p head ≡ some sha
    → (is_nil (rewound_event_commits p head) ≡ true)
      × (if_typed p.file_typed (find (λ sha. p.is_ancestor sha head) p.by_ordinal) ≡ some sha)
unfolding resume_point
resume_point-some p head sha h =
    guard_some (is_nil (rewound_event_commits p head))
      (if_typed p.file_typed (find (λ sha. p.is_ancestor sha head) p.by_ordinal)) sha h

-- The commit is the newest of the synced ones that HEAD descends from.
abbrev pub IsNewest : Probes → Text → Text → Type 0
IsNewest p head sha =
    (before : List Text) × (after : List Text) × (p.by_ordinal ≡ before ++ sha ∷ after)
    × (p.is_ancestor sha head ≡ true)
    × All (λ y. p.is_ancestor y head ≡ false) before

-- When git can list HEAD's line, a sync that appends from a commit is on the default branch, its one
-- graph has facts about files and names no commit off that line; the commit still exists, and it is
-- the newest one with an ordinal that is an ancestor of HEAD.
pub cmd_sync_plan-append :
    (p : Probes) (head sha stdout : Text)
    → cmd_sync_plan p head ≡ Plan.append_from sha
    → p.rev_list head ≡ some stdout
    → IsOnDefault p
      × IsOnLine p stdout
      × (p.file_typed ≡ true)
      × (p.commit_exists sha ≡ true)
      × IsNewest p head sha
unfolding cmd_sync_plan gate_default_branch validated_resume
cmd_sync_plan-append p head sha stdout h listed =
    let (g, r) = past_gate-append (gate_default_branch p) p head sha h in
    let (v, e, _) =
      when_valid-some p head sha (resume_point p head)
        (from_resume-append (validated_resume p (resume_point p head) head) sha r) in
    let (line, t) = resume_point-some p head sha v in
    let (typed, found) =
      if_typed-some p.file_typed (find (λ sha. p.is_ancestor sha head) p.by_ordinal) sha t in
    (
      on_branch-none p.current_branch p.default_branch g,
      rewound-IsOnLine p head stdout line listed,
      typed,
      e,
      find-some (λ sha. p.is_ancestor sha head) p.by_ordinal sha found,
    )
