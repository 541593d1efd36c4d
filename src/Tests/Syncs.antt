-- ===== src/Tests/Syncs.antt =====
-- A sync's loader, its plan and its view at concrete inputs.
use git_lex.Base.{
  ℕ, ◌≡◌, ◌↔◌, refl, ap, sym, ◌∙◌, inl, inr, Bool, true, false, ◌||◌, List, [], ◌∷◌, ◌++◌, some,
  Result, ok, err, length, any, keep, arith, append-nil, append_assoc, Bool-cases, if◌then◌else◌,
  ◌==◌,
}
use git_lex.Text.{Text, codes, same, same-eq, same_refl}
use git_lex.Sync.Loader.{new, push_str, finish}
use git_lex.Sync.Loader.Chunks.{push_str-append}
use git_lex.Sync.Loader.Finish.{
  Additive, concat, concat-append, is_fact, is_marker, is_quad, quad_lines, whole, finish_iff,
  finish-err,
}
use git_lex.Sync.Resume.{Probes, Plan, cmd_sync_plan, line_set, witnessed_shas}
use git_lex.Sync.Resume.Choice.{IsOnDefault, IsOnLine, IsNewest, cmd_sync_plan-append}

-- A store that is the text it was given, and refuses an exclamation mark.
abbrev refuses : Text → Bool
refuses t = any (λ c. c == b'!') t

abbrev load_text : Text → Text → Result ℕ Text
load_text t s = if refuses t then err 0 else ok (s ++ t)

any-append : (a b : Text) → refuses (a ++ b) ≡ (refuses a || refuses b)
any-append [] b = refl
any-append (c ∷ a) b = ground (arith, any-append a b)

load_text-ok : (t s u : Text) → load_text t s ≡ ok u → (refuses t ≡ false) × (s ++ t ≡ u)
load_text-ok t s u h = elim (Bool-cases (refuses t)) [
  | inl e ↦
      let g : ◌≡◌ {A = Result ℕ Text} (err 0) (ok u) =
        ap (λ b. if b then err 0 else ok (s ++ t)) (sym e) ∙ h in
      cc
  | inr e ↦
      let g : ◌≡◌ {A = Result ℕ Text} (ok (s ++ t)) (ok u) =
        ap (λ b. if b then err 0 else ok (s ++ t)) (sym e) ∙ h in
      (e, cc)
]

load_text-fine : (t s : Text) → refuses t ≡ false → load_text t s ≡ ok (s ++ t)
load_text-fine t s e = ap (λ b. if b then err 0 else ok (s ++ t)) e

or_no : (a b : Bool) → (a || b) ≡ false → (a ≡ false) × (b ≡ false)
or_no true b h = cc
or_no false b h = (refl, h)

load_text-Additive : Additive load_text
load_text-Additive = record {
  nothing = λ s. ap ok (append-nil s);
  join = λ xs ys s t u lines e f.
      let (a, b) = load_text-ok (concat xs) s t e in
      let (c, d) = load_text-ok (concat ys) t u f in
      rw (concat-append xs ys) (
        load_text-fine (concat xs ++ concat ys) s
          (any-append (concat xs) (concat ys) ∙ ap (λ x. x || refuses (concat ys)) a ∙ c)
        ∙ ap ok (sym (append_assoc s (concat xs) (concat ys)) ∙ ap (λ x. x ++ concat ys) b ∙ d));
  cut = λ xs ys s u lines h.
      let (a, b) =
        load_text-ok (concat xs ++ concat ys) s u
          (ap (λ t. load_text t s) (sym (concat-append xs ys)) ∙ h) in
      let (c, d) =
        or_no (refuses (concat xs)) (refuses (concat ys))
          (sym (any-append (concat xs) (concat ys)) ∙ a) in
      (
        s ++ concat xs,
        load_text-fine (concat xs) s c,
        load_text-fine (concat ys) (s ++ concat xs) d
            ∙ ap ok (append_assoc s (concat xs) (concat ys) ∙ b),
      );
}

abbrev quads_text : Text
quads_text = codes "<a> <b> <c> <g> .\n<d> <e> <f> <g> ."

push_str-append_example :
    push_str load_text (codes "<a> <b" ++ codes "> <c> .\n") (new load_text [] 2)
    ≡ push_str load_text
        (codes "> <c> .\n")
        (push_str load_text (codes "<a> <b") (new load_text [] 2))
push_str-append_example =
    push_str-append load_text (codes "<a> <b") (codes "> <c> .\n") (new load_text [] 2)

finish_iff_example : (whole load_text [] load_text-Additive quads_text 1 ≡ ([], ok 2)) ↔ (
    (load_text
        (concat (keep is_fact (quad_lines quads_text) ++ keep is_marker (quad_lines quads_text)))
        []
      ≡ ok [])
    × (2 ≡ length (keep is_quad (quad_lines quads_text))))
finish_iff_example = finish_iff load_text [] load_text-Additive quads_text 1 2 []

stops : whole load_text [] load_text-Additive (codes "a\n!\nb") 1 ≡ (codes "a\n", err 0)
unfolding finish push_str new quad_lines git_lex.Text.is_space git_lex.Text.Split.split_once
stops = refl

finish-err_example :
    (past : List Text) × (rest : List Text) × (keep is_fact (quad_lines (codes "a\n!\nb"))
      ≡ past ++ rest)
    × (load_text (concat past) [] ≡ ok (codes "a\n"))
finish-err_example =
    finish-err load_text [] load_text-Additive (codes "a\n!\nb") 1 (codes "a\n") 0 stops

-- HEAD is `bb`, one commit after `aa`.
abbrev probes : Probes
probes = record {
  current_branch = some (codes "main");
  default_branch = codes "main";
  has_ordinal = λ sha. same sha (codes "aa");
  onegraph_present = true;
  file_typed = true;
  extract_status = some [];
  witnessed_iris = codes "https://repolex.ai/git-lex/git2/Commit/aa" ∷ [];
  rev_list = λ _. some (codes "bb\naa\n");
  by_ordinal = codes "aa" ∷ [];
  is_ancestor = λ _ _. true;
  commit_exists = λ _. true;
}

appends : cmd_sync_plan probes (codes "bb") ≡ Plan.append_from (codes "aa")
unfolding cmd_sync_plan git_lex.Sync.Resume.rewound_event_commits git_lex.Text.is_space
    git_lex.Text.Lines.lines
appends = refl

cmd_sync_plan-append_example :
    IsOnDefault probes
    × IsOnLine probes (codes "bb\naa\n")
    × (probes.file_typed ≡ true)
    × (probes.commit_exists (codes "aa") ≡ true)
    × IsNewest probes (codes "bb") (codes "aa")
cmd_sync_plan-append_example =
    cmd_sync_plan-append probes (codes "bb") (codes "aa") (codes "bb\naa\n") appends refl

rests : cmd_sync_plan probes (codes "aa") ≡ Plan.already_synced
unfolding cmd_sync_plan git_lex.Sync.Resume.rewound_event_commits git_lex.Text.is_space
    git_lex.Text.Lines.lines
rests = refl
