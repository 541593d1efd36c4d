-- ===== src/Sync/Resume.antt =====
-- The choice that a sync makes (src/sync.rs: `gate_default_branch`, `fast_path_hit`,
-- `rewound_event_commits`, `resume_point`, `validated_resume`, and their use in `cmd_sync`). What
-- the store's queries and git answer are the fields of `Probes`.
pub mod Choice
use git_lex.Base.{
  ℕ, ◌≡◌, Bool, true, false, not, ◌&&◌, Option, none, some, List, [], ◌∷◌, map, any, keep, Result,
  ok, err, if◌then◌else◌,
}
use git_lex.Text.{Text, codes, same, is_empty, trim, strip_prefix}
use git_lex.Text.Lines.{lines}

pub record Probes : Type 0 where
  -- HEAD's branch, none when it is detached, and the default branch
  pub current_branch : Option Text
  pub default_branch : Text
  -- a commit has an ordinal in the commits graph
  pub has_ordinal : Text → Bool
  pub onegraph_present : Bool
  -- the one graph has a fact about a file
  pub file_typed : Bool
  -- what `git status --porcelain -- .lex/extract/` prints, also when it fails; none when it cannot
  -- be started
  pub extract_status : Option Text
  -- the commits that events name, as IRIs; none of them when the query fails
  pub witnessed_iris : List Text
  -- `git rev-list`, none when it fails
  pub rev_list : Text → Option Text
  -- the commits with an ordinal, the newest first; none of them when the query fails
  pub by_ordinal : List Text
  -- `git merge-base --is-ancestor` and `git cat-file -e`
  pub is_ancestor : Text → Text → Bool
  pub commit_exists : Text → Bool

pub data GateError : Type 0 where
  other_branch : Text → GateError
  detached : GateError

abbrev pub on_branch : Option Text → Text → Option GateError
on_branch none default = some GateError.detached
on_branch (some b) default = if same b default then none else some (GateError.other_branch b)

-- None is `Ok`.
unfoldable pub gate_default_branch : Probes → Option GateError
gate_default_branch p = on_branch p.current_branch p.default_branch

abbrev commit_prefix : Text
commit_prefix = codes "https://repolex.ai/git-lex/git2/Commit/"

-- `filter_map(|s| s.strip_prefix(..))`
abbrev cons_some : Option Text → List Text → List Text
cons_some none shas = shas
cons_some (some sha) shas = sha ∷ shas

abbrev pub witnessed_shas : List Text → List Text
witnessed_shas [] = []
witnessed_shas (iri ∷ iris) = cons_some (strip_prefix commit_prefix iri) (witnessed_shas iris)

abbrev pub line_set : Text → List Text
line_set stdout = keep (λ l. not (is_empty l)) (map trim (lines stdout))

abbrev pub contains : Text → List Text → Bool
contains sha shas = any (same sha) shas

abbrev pub not_on : Option Text → List Text → List Text
not_on none witnessed = []
not_on (some stdout) witnessed = keep (λ sha. not (contains sha (line_set stdout))) witnessed

unfoldable pub rewound_event_commits : Probes → Text → List Text
rewound_event_commits p head = not_on (p.rev_list head) (witnessed_shas p.witnessed_iris)

abbrev pub is_nil : List Text → Bool
is_nil [] = true
is_nil _ = false

-- Is there something to read, or no answer?
abbrev pub is_dirty : Option Text → Bool
is_dirty none = true
is_dirty (some stdout) = not (is_empty stdout)

unfoldable pub fast_path_hit : Probes → Text → Bool
unfolding rewound_event_commits
fast_path_hit p head =
    p.has_ordinal head
    && (p.onegraph_present
        && (p.file_typed
            && (not (is_dirty p.extract_status) && is_nil (rewound_event_commits p head))))

abbrev pub find : (Text → Bool) → List Text → Option Text
find f [] = none
find f (x ∷ xs) = let rest = find f xs in if f x then some x else rest

abbrev pub if_typed : Bool → Option Text → Option Text
if_typed true sha = sha
if_typed false sha = none

unfoldable pub resume_point : Probes → Text → Option Text
unfolding rewound_event_commits
resume_point p head = elim (is_nil (rewound_event_commits p head)) [
  | false ↦ none
  | true ↦ if_typed p.file_typed (find (λ sha. p.is_ancestor sha head) p.by_ordinal)
]

abbrev pub when_valid : Probes → Text → Option Text → Option Text
when_valid p head none = none
when_valid p head (some sha) =
    if p.commit_exists sha && p.is_ancestor sha head then some sha else none

unfoldable pub validated_resume : Probes → Option Text → Text → Option Text
validated_resume p resume head = when_valid p head resume

-- What `cmd_sync` goes on to do.
pub data Plan : Type 0 where
  refused : GateError → Plan
  already_synced rebuild no_commits : Plan
  append_from : Text → Plan

abbrev pub from_resume : Option Text → Plan
from_resume none = Plan.rebuild
from_resume (some sha) = Plan.append_from sha

abbrev pub past_gate : Option GateError → Probes → Text → Plan
past_gate (some e) p head = Plan.refused e
past_gate none p head = elim (is_empty head) [
  | true ↦ Plan.no_commits
  | false ↦ elim (fast_path_hit p head) [
    | true ↦ Plan.already_synced
    | false ↦ from_resume (validated_resume p (resume_point p head) head)
  ]
]

unfoldable pub cmd_sync_plan : Probes → Text → Plan
unfolding gate_default_branch fast_path_hit resume_point validated_resume
cmd_sync_plan p head = past_gate (gate_default_branch p) p head
