-- ===== src/Cleanup/Followed.antt =====
-- The sidecars of deleted and renamed documents through a whole cleanup.
use mathlib.Core.Option.{some-injective}
use git_lex.Base.{
  ◌&&◌, ◌≡◌, ◌≢◌, refl, ap, sym, ◌∙◌, inl, inr, Bool, true, false, ◌||◌, List, [], ◌∷◌, ◌++◌, map,
  ok, some, Bool-cases, reverse, All,
}
use git_lex.Text.{
  Text, codes, same, same-eq, same_refl, same-ne, starts_with, strip_prefix, strip_prefix-append,
}
use git_lex.GitRecords.{parse_staged_md_changes}
use git_lex.Sets.{member, member-All, member-append}
use git_lex.Walk.Sidecars.{
  spo_extractor_suffixes, extract_prefix, spo_ending, sidecar_path, derive_source_document,
}
use git_lex.Walk.Names.{clash, derive_source_document-sidecar_path}
use git_lex.Cleanup.{
  GitIndex, tracked, Cleaning, meta_path, delete_md, follow, follow_all, rename_md, delete_all,
  rename_all, cleanup_sidecars_for_staged_changes,
}
use git_lex.Cleanup.Settled.{
  Clean, Gone, Keeps, delete_md-Gone, Keeps-delete_md, Keeps-follow, follow-Gone,
}

IsSuffix : Text → Type 0
IsSuffix suffix = member suffix spo_extractor_suffixes ≡ true

true-false : (b : Bool) → b ≡ true → b ≡ false → true ≡ false
true-false b e f = sym e ∙ f

sidecar-apart :
    (m n s t : Text)
    → same m n ≡ false
    → IsSuffix s
    → IsSuffix t
    → same (sidecar_path m s) (sidecar_path n t) ≡ false
unfolding IsSuffix
sidecar-apart m n s t d hs ht = same-ne (sidecar_path m s) (sidecar_path n t) (λ e.
    let both = some-injective m n (
      sym (derive_source_document-sidecar_path m s hs)
      ∙ ap derive_source_document e
      ∙ derive_source_document-sidecar_path n t ht) in
    let g = true-false (same m n) (ap (same m) (sym both) ∙ same_refl m) d in absurd (no g))
  where
    no : true ≢ false
    no e = cc

meta-apart : (m n s : Text) → IsSuffix s → same (sidecar_path m s) (meta_path n) ≡ false
unfolding IsSuffix sidecar_path meta_path
meta-apart m n s h = same-ne (sidecar_path m s) (meta_path n) (λ e.
    let tails : some (m ++ spo_ending s) ≡ some (n ++ codes ".meta") =
      sym (strip_prefix-append extract_prefix (m ++ spo_ending s))
      ∙ ap (strip_prefix extract_prefix) e
      ∙ strip_prefix-append extract_prefix (n ++ codes ".meta") in
    clash m (spo_ending s) (codes ".meta") (ends_otherwise s h) n
      (some-injective (m ++ spo_ending s) (n ++ codes ".meta") tails))
  where
    ends_otherwise :
        (s : Text)
        → member s spo_extractor_suffixes ≡ true
        → starts_with (reverse (codes ".meta")) (reverse (spo_ending s) ++ reverse m) ≡ false
    ends_otherwise s h =
        member-All
          (λ s. starts_with (reverse (codes ".meta")) (reverse (spo_ending s) ++ reverse m) ≡ false)
          s spo_extractor_suffixes (refl, (refl, (refl, (refl, (refl, tt))))) h

module _ {S E : Type 0} (index : GitIndex S E) (reads : (s : S) → index.readable s ≡ true) where
  Keeps-follow_all :
      (old new m s : Text) (ss : List Text)
      → same m new ≡ false
      → IsSuffix s
      → All IsSuffix ss
      → Keeps index (sidecar_path m s) (follow_all index old new ss)
  Keeps-follow_all old new m s [] d hs hss c h = (h, λ g. g)
  Keeps-follow_all old new m s (t ∷ ss) d hs (ht, hss) c h =
      let next = follow index (sidecar_path old t) (sidecar_path new t) c in
      let (mid, later) = Keeps-follow_all old new m s ss d hs hss next h in
      let (clean, first) =
        Keeps-follow index reads (sidecar_path old t) (sidecar_path new t) (sidecar_path m s)
          (sidecar-apart m new s t d hs ht) c mid in
      (clean, λ g. later (first g))

  follow_all-Gone :
      (old new s : Text) (ss : List Text) (c : Cleaning index)
      → same old new ≡ false
      → IsSuffix s
      → All IsSuffix ss
      → member s ss ≡ true
      → Clean index (follow_all index old new ss c)
      → Gone index (sidecar_path old s) (follow_all index old new ss c)
  follow_all-Gone old new s [] c d hs hss m h = cc
  follow_all-Gone old new s (t ∷ ss) c d hs (ht, hss) m h =
      let next = follow index (sidecar_path old t) (sidecar_path new t) c in
      elim (Bool-cases (same s t)) [
        | inl e ↦
            let (mid, later) = Keeps-follow_all old new old s ss d hs hss next h in
            later (
              ap (λ x. tracked index (sidecar_path old x) next.1) (same-eq s t e)
              ∙ follow-Gone index reads (sidecar_path old t) (sidecar_path new t) c
                  (sidecar-apart old new t t d ht ht) mid)
        | inr e ↦
            follow_all-Gone old new s ss next d hs hss (ap (λ b. b || member s ss) (sym e) ∙ m) h
      ]

  suffixes-All : All IsSuffix spo_extractor_suffixes
  unfolding IsSuffix
  suffixes-All = (refl, (refl, (refl, (refl, (refl, tt)))))

  Keeps-rename_md :
      (old new m s : Text)
      → same m new ≡ false
      → IsSuffix s
      → Keeps index (sidecar_path m s) (rename_md index old new)
  unfolding rename_md
  Keeps-rename_md old new m s d hs c h =
      let mid_state = follow_all index old new spo_extractor_suffixes c in
      let (mid, later) =
        Keeps-follow index reads (meta_path old) (meta_path new) (sidecar_path m s)
          (meta-apart m new s hs) mid_state h in
      let (clean, first) =
        Keeps-follow_all old new m s spo_extractor_suffixes d hs suffixes-All c mid in
      (clean, λ g. later (first g))

  rename_md-Gone :
      (old new s : Text) (c : Cleaning index)
      → same old new ≡ false
      → IsSuffix s
      → Clean index (rename_md index old new c)
      → Gone index (sidecar_path old s) (rename_md index old new c)
  unfolding rename_md IsSuffix
  rename_md-Gone old new s c d hs h =
      let mid_state = follow_all index old new spo_extractor_suffixes c in
      let (mid, later) =
        Keeps-follow index reads (meta_path old) (meta_path new) (sidecar_path old s)
          (meta-apart old new s hs) mid_state h in
      later (follow_all-Gone old new s spo_extractor_suffixes c d hs suffixes-All hs mid)

  neither : (a b : Bool) → (a || b) ≡ false → (a ≡ false) × (b ≡ false)
  neither true b h = cc
  neither false b h = (refl, h)

  Keeps-rename_all :
      (renames : List (Text × Text)) (m s : Text)
      → member m (map (λ (_, new). new) renames) ≡ false
      → IsSuffix s
      → Keeps index (sidecar_path m s) (rename_all index renames)
  Keeps-rename_all [] m s d hs c h = (h, λ g. g)
  Keeps-rename_all ((old, new) ∷ renames) m s d hs c h =
      let (here, rest) = neither (same m new) (member m (map (λ (_, new). new) renames)) d in
      let (mid, later) = Keeps-rename_all renames m s rest hs (rename_md index old new c) h in
      let (clean, first) = Keeps-rename_md old new m s here hs c mid in
      (clean, λ g. later (first g))

  rename_all-Gone :
      (renames : List (Text × Text)) (m s : Text) (c : Cleaning index)
      → member m (map (λ (_, new). new) renames) ≡ false
      → IsSuffix s
      → member m (map (λ (old, _). old) renames) ≡ true
      → Clean index (rename_all index renames c)
      → Gone index (sidecar_path m s) (rename_all index renames c)
  rename_all-Gone [] m s c d hs k h = cc
  rename_all-Gone ((old, new) ∷ renames) m s c d hs k h =
      let next = rename_md index old new c in
      let (here, rest) = neither (same m new) (member m (map (λ (_, new). new) renames)) d in
      elim (Bool-cases (same m old)) [
        | inl e ↦
            let (mid, later) = Keeps-rename_all renames m s rest hs next h in
            let equal = same-eq m old e in
            later (
              ap (λ x. tracked index (sidecar_path x s) next.1) equal
              ∙ rename_md-Gone old new s c (ap (λ x. same x new) (sym equal) ∙ here) hs mid)
        | inr e ↦
            rename_all-Gone renames m s next rest hs
              (ap (λ b. b || member m (map (λ (old, _). old) renames)) (sym e) ∙ k) h
      ]

  Keeps-delete_all : (mds : List Text) (q : Text) → Keeps index q (delete_all index mds)
  Keeps-delete_all [] q c h = (h, λ g. g)
  Keeps-delete_all (md ∷ mds) q c h =
      let (mid, later) = Keeps-delete_all mds q (delete_md index md c) h in
      let (clean, first) = Keeps-delete_md index reads md q c mid in (clean, λ g. later (first g))

  delete_all-Gone :
      (mds : List Text) (m s : Text) (c : Cleaning index)
      → member s spo_extractor_suffixes ≡ true
      → member m mds ≡ true
      → Clean index (delete_all index mds c)
      → Gone index (sidecar_path m s) (delete_all index mds c)
  delete_all-Gone [] m s c hs k h = cc
  delete_all-Gone (md ∷ mds) m s c hs k h =
      let next = delete_md index md c in
      elim (Bool-cases (same m md)) [
        | inl e ↦
            let (mid, later) = Keeps-delete_all mds (sidecar_path m s) next h in
            later (
              ap (λ x. tracked index (sidecar_path x s) next.1) (same-eq m md e)
              ∙ delete_md-Gone index reads md s c mid hs)
        | inr e ↦ delete_all-Gone mds m s next hs (ap (λ b. b || member m mds) (sym e) ∙ k) h
      ]

  cleanup_sidecars-tracked :
      (raw : Text) (s : S) (md suffix : Text)
      → (cleanup_sidecars_for_staged_changes index (ok raw) s).0.errors ≡ []
      → member suffix spo_extractor_suffixes ≡ true
      → member md (
          (parse_staged_md_changes raw).touched
          ++ map (λ (old, _). old) (parse_staged_md_changes raw).renames)
        ≡ true
      → member md (map (λ (_, new). new) (parse_staged_md_changes raw).renames) ≡ false
      → tracked index
          (sidecar_path md suffix)
          (cleanup_sidecars_for_staged_changes index (ok raw) s).1
        ≡ false
  unfolding cleanup_sidecars_for_staged_changes IsSuffix
  cleanup_sidecars-tracked raw s md suffix h hs m d =
      let changes = parse_staged_md_changes raw in
      let start : Cleaning index = (record { deleted = []; renamed = []; errors = [] }, s) in
      let mid_state = delete_all index changes.touched start in
      let (mid, later) = Keeps-rename_all changes.renames md suffix d hs mid_state h in
      elim (Bool-cases (member md changes.touched)) [
        | inl e ↦ later (delete_all-Gone changes.touched md suffix start hs e mid)
        | inr e ↦
            rename_all-Gone changes.renames md suffix mid_state d hs
              (ap (λ b. b || member md (map (λ (old, _). old) changes.renames)) (sym e)
                ∙ sym (member-append md changes.touched (map (λ (old, _). old) changes.renames))
                ∙ m)
              h
      ]

  -- While the index can be read: when a cleanup reports no error, the index has no sidecar, of any
  -- extractor, of a document that the staged changes delete or rename away, unless another rename
  -- brings one to that path.
  pub cleanup_sidecars-Gone :
      (raw : Text) (s : S) (md suffix : Text)
      → (cleanup_sidecars_for_staged_changes index (ok raw) s).0.errors ≡ []
      → member suffix spo_extractor_suffixes ≡ true
      → member md (
          (parse_staged_md_changes raw).touched
          ++ map (λ (old, _). old) (parse_staged_md_changes raw).renames)
        ≡ true
      → member md (map (λ (_, new). new) (parse_staged_md_changes raw).renames) ≡ false
      → index.entry
          (sidecar_path md suffix)
          (cleanup_sidecars_for_staged_changes index (ok raw) s).1
        ≡ false
  cleanup_sidecars-Gone raw s md suffix h hs m d =
      readable-entry _ _ (reads (cleanup_sidecars_for_staged_changes index (ok raw) s).1)
        (cleanup_sidecars-tracked raw s md suffix h hs m d)
    where
      readable-entry : (a b : Bool) → a ≡ true → (a && b) ≡ false → b ≡ false
      readable-entry true b e f = f
      readable-entry false b e f = cc
