-- ===== src/GitRecords/RoundTrip.antt =====
-- What the readers return for the records that git prints.
use git_lex.Base.{
  ℕ, ◌≡◌, ◌≢◌, refl, ap, ◌∙◌, List, [], ◌∷◌, ◌++◌, arith, All, not, keep, if◌then◌else◌, ◌==◌,
}
use git_lex.Text.{Text, is_empty}
use git_lex.Text.Split.{split, Lacks, split-append}
use git_lex.GitRecords.{
  NameStatus, add_touched, add_rename, nothing, fields, status_loop, staged_loop,
  parse_name_status_z, parse_staged_md_changes,
}

-- One record: a status letter with its path, a rename or a copy with its score and two paths.
pub data Change : Type 0 where
  single : ℕ → Text → Change
  renamed copied : Text → Text → Text → Change

abbrev pub IsField : Text → Type 0
IsField f = (f ≢ []) × Lacks 0 f

abbrev pub IsRecord : Change → Type 0
IsRecord (single letter path) = (letter ≢ b'R') × (letter ≢ b'C') × (letter ≢ 0) × IsField path
IsRecord (renamed score old new) = Lacks 0 score × IsField old × IsField new
IsRecord (copied score old new) = Lacks 0 score × IsField old × IsField new

abbrev pub field_list : Change → List Text
field_list (single letter path) = (letter ∷ []) ∷ path ∷ []
field_list (renamed score old new) = (b'R' ∷ score) ∷ old ∷ new ∷ []
field_list (copied score old new) = (b'C' ∷ score) ∷ old ∷ new ∷ []

abbrev pub all_fields : List Change → List Text
all_fields [] = []
all_fields (c ∷ cs) = field_list c ++ all_fields cs

-- `-z`: every field is followed by NUL.
abbrev pub terminate : List Text → Text
terminate [] = []
terminate (f ∷ fs) = f ++ 0 ∷ terminate fs

abbrev pub print : List Change → Text
print cs = terminate (all_fields cs)

-- What the records say: the paths touched and the renames.
abbrev pub meaning : List Change → NameStatus
meaning [] = nothing
meaning (single letter path ∷ cs) = add_touched path (meaning cs)
meaning (renamed score old new ∷ cs) = add_rename old new (meaning cs)
meaning (copied score old new ∷ cs) = add_touched new (meaning cs)

-- The deleted paths and the renames.
abbrev pub removals : List Change → NameStatus
removals [] = nothing
removals (single letter path ∷ cs) =
    if letter == b'D' then add_touched path (removals cs) else removals cs
removals (renamed score old new ∷ cs) = add_rename old new (removals cs)
removals (copied score old new ∷ cs) = removals cs

pub split-terminate : (fs : List Text) → All (Lacks 0) fs → split 0 (terminate fs) ≡ fs ++ [] ∷ []
split-terminate [] h = unfold split in refl
split-terminate (f ∷ fs) (hf, hfs) = split-append 0 f _ hf ∙ ap (◌∷◌ f) (split-terminate fs hfs)

keep-IsField : (fs : List Text) → All IsField fs → keep (λ f. not (is_empty f)) (fs ++ [] ∷ []) ≡ fs
keep-IsField [] h = refl
keep-IsField ([] ∷ fs) (hf, hfs) = absurd (hf.0 refl)
keep-IsField ((c ∷ f) ∷ fs) (hf, hfs) = ap (◌∷◌ (c ∷ f)) (keep-IsField fs hfs)

IsField-Lacks : (fs : List Text) → All IsField fs → All (Lacks 0) fs
IsField-Lacks [] h = tt
IsField-Lacks (f ∷ fs) (hf, hfs) = (hf.1, IsField-Lacks fs hfs)

pub fields-terminate : (fs : List Text) → All IsField fs → fields (terminate fs) ≡ fs
unfolding fields
fields-terminate fs h = rw (split-terminate fs (IsField-Lacks fs h)) (keep-IsField fs h)

all_fields-IsField : (cs : List Change) → All IsRecord cs → All IsField (all_fields cs)
all_fields-IsField [] h = tt
all_fields-IsField (single letter path ∷ cs) ((hr, hc, hz, hp), hcs) =
    ((λ e. cc, (hz, tt)), (hp, all_fields-IsField cs hcs))
all_fields-IsField (renamed score old new ∷ cs) ((hs, ho, hn), hcs) =
    ((λ e. cc, (omega arith, hs)), (ho, (hn, all_fields-IsField cs hcs)))
all_fields-IsField (copied score old new ∷ cs) ((hs, ho, hn), hcs) =
    ((λ e. cc, (omega arith, hs)), (ho, (hn, all_fields-IsField cs hcs)))

status-single :
    (letter : ℕ) (path : Text) (fs : List Text)
    → letter ≢ b'R'
    → letter ≢ b'C'
    → status_loop ((letter ∷ []) ∷ path ∷ fs) ≡ add_touched path (status_loop fs)
unfolding status_loop
status-single letter path [] hr hc = ground arith
status-single letter path (f ∷ fs) hr hc = ground arith

status-renamed :
    (score old new : Text) (fs : List Text)
    → status_loop ((b'R' ∷ score) ∷ old ∷ new ∷ fs) ≡ add_rename old new (status_loop fs)
unfolding status_loop
status-renamed score old new fs = refl

status-copied :
    (score old new : Text) (fs : List Text)
    → status_loop ((b'C' ∷ score) ∷ old ∷ new ∷ fs) ≡ add_touched new (status_loop fs)
unfolding status_loop
status-copied score old new fs = refl

status-meaning : (cs : List Change) → All IsRecord cs → status_loop (all_fields cs) ≡ meaning cs
status-meaning [] h = unfold status_loop in refl
status-meaning (single letter path ∷ cs) ((hr, hc, hz, hp), hcs) =
    status-single letter path _ hr hc ∙ ap (add_touched path) (status-meaning cs hcs)
status-meaning (renamed score old new ∷ cs) (_, hcs) =
    status-renamed score old new _ ∙ ap (add_rename old new) (status-meaning cs hcs)
status-meaning (copied score old new ∷ cs) (_, hcs) =
    status-copied score old new _ ∙ ap (add_touched new) (status-meaning cs hcs)

-- The history walk reads every printed record back: a one-path record and the new side of a copy
-- are touched, a rename is a pair, in the order printed, whatever the paths hold but NUL.
pub parse_name_status_z-print :
    (cs : List Change) → All IsRecord cs → parse_name_status_z (print cs) ≡ meaning cs
unfolding parse_name_status_z
parse_name_status_z-print cs h =
    rw (fields-terminate (all_fields cs) (all_fields-IsField cs h)) (status-meaning cs h)

staged-single :
    (letter : ℕ) (path : Text) (fs : List Text)
    → letter ≢ b'R'
    → letter ≢ b'C'
    → staged_loop ((letter ∷ []) ∷ path ∷ fs)
      ≡ (if letter == b'D' then add_touched path (staged_loop fs) else staged_loop fs)
unfolding staged_loop
staged-single letter path [] hr hc = ground arith
staged-single letter path (f ∷ fs) hr hc = ground arith

staged-renamed :
    (score old new : Text) (fs : List Text)
    → staged_loop ((b'R' ∷ score) ∷ old ∷ new ∷ fs) ≡ add_rename old new (staged_loop fs)
unfolding staged_loop
staged-renamed score old new fs = refl

staged-copied :
    (score old new : Text) (fs : List Text)
    → staged_loop ((b'C' ∷ score) ∷ old ∷ new ∷ fs) ≡ staged_loop fs
unfolding staged_loop
staged-copied score old new fs = refl

staged-removals : (cs : List Change) → All IsRecord cs → staged_loop (all_fields cs) ≡ removals cs
staged-removals [] h = unfold staged_loop in refl
staged-removals (single letter path ∷ cs) ((hr, hc, hz, hp), hcs) =
    staged-single letter path _ hr hc
    ∙ ap (λ r. if letter == b'D' then add_touched path r else r) (staged-removals cs hcs)
staged-removals (renamed score old new ∷ cs) (_, hcs) =
    staged-renamed score old new _ ∙ ap (add_rename old new) (staged-removals cs hcs)
staged-removals (copied score old new ∷ cs) (_, hcs) =
    staged-copied score old new _ ∙ staged-removals cs hcs

-- The sidecar cleanup reads back exactly the deletions and the renames of the printed records,
-- and no copy: the source of a copy keeps its sidecar.
pub parse_staged_md_changes-print :
    (cs : List Change) → All IsRecord cs → parse_staged_md_changes (print cs) ≡ removals cs
unfolding parse_staged_md_changes
parse_staged_md_changes-print cs h =
    rw (fields-terminate (all_fields cs) (all_fields-IsField cs h)) (staged-removals cs h)
