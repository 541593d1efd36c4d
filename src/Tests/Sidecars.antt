-- ===== src/Tests/Sidecars.antt =====
-- Sidecars: their names, the write gate, the cleanup of staged changes, and the store's history.
use git_lex.Base.{
  arith, ℕ, ◌+◌, ◌≤◌, ◌<◌, ◌≡◌, refl, ap, sym, ◌∙◌, Bool, true, false, not, ◌&&◌, ◌||◌, Option,
  some, List, [], ◌∷◌, ◌++◌, map, ok, length,
}
use git_lex.Text.{Text, codes, same}
use git_lex.Sets.{member, member-append, or_false}
use git_lex.Sets.Counting.{Nodup}
use git_lex.Fallible.{ok-eq}
use git_lex.Clock.{ℤ, pos, negsuc, ◌+ℤ◌, times_suc, early, civil_from_days}
use git_lex.Clock.Civil.{days_in_month, days_before, civil_from_days-IsDate}
use git_lex.Walk.Sidecars.{sidecar_path, derive_source_document}
use git_lex.Walk.Names.{derive_source_document-sidecar_path}
use git_lex.GitRecords.{parse_staged_md_changes}
use git_lex.Cleanup.{GitIndex, cleanup_sidecars_for_staged_changes}
use git_lex.Cleanup.Followed.{cleanup_sidecars-Gone}
use git_lex.Sync.History.{HistoryCounts, history_counts, ordinals_of}
use git_lex.Sync.History.Slots.{live_since}
use git_lex.Sync.History.Clean.{orders_in}
use git_lex.Sync.History.Oracle.{history_counts-live_since}
use git_lex.Tests.Graphs.{drop_line, member-drop_line}

derive_source_document-sidecar_path_example :
    derive_source_document (sidecar_path (codes "notes/a.md") (codes "gliner"))
    ≡ some (codes "notes/a.md")
derive_source_document-sidecar_path_example =
    derive_source_document-sidecar_path (codes "notes/a.md") (codes "gliner") refl

abbrev two_lines : Text
two_lines = codes "a | hasValue | x | y\nb | linksTo | c\n"

abbrev no_anchor : List Text → Text → List Text × ℕ
no_anchor ls doc = ([], 0)

abbrev same_line : List Text → Text → Text → ℕ → List Text × ℕ
same_line ls doc line n = (line ∷ [], n)

abbrev list_index : GitIndex (List Text) Text
list_index = record {
  readable = λ s. true;
  entry = member;
  git_rm = λ p s. ok (drop_line p s);
  git_mv = λ a b s. ok (drop_line a s ++ b ∷ []);
  rm_law = λ p q s t e. ap (member q) (sym (ok-eq (drop_line p s) t e)) ∙ member-drop_line q p s;
  mv_law = λ a b q s t e.
      ap (member q) (sym (ok-eq (drop_line a s ++ b ∷ []) t e))
      ∙ member-append q (drop_line a s) (b ∷ [])
      ∙ ap (λ x. x || (same q b || false)) (member-drop_line q a s)
      ∙ ap (λ x. (member q s && not (same q a)) || x) (or_false (same q b));
}

-- One document is deleted, one renamed.
abbrev staged : Text
staged =
    codes "D"
    ++ 0
      ∷ (codes "a.md" ++ 0 ∷ (codes "R100" ++ 0 ∷ (codes "b.md" ++ 0 ∷ (codes "c.md" ++ 0 ∷ []))))

abbrev tracked_paths : List Text
tracked_paths =
    codes ".lex/extract/a.md.fm.spo"
    ∷ codes ".lex/extract/b.md.md.spo"
    ∷ codes ".lex/extract/b.md.meta"
    ∷ []

staged-clean :
    (cleanup_sidecars_for_staged_changes list_index (ok staged) tracked_paths).0.errors ≡ []
unfolding cleanup_sidecars_for_staged_changes
staged-clean = refl

staged-old :
    member (codes "b.md") (
      (parse_staged_md_changes staged).touched
      ++ map (λ (old, _). old) (parse_staged_md_changes staged).renames)
    ≡ true
unfolding parse_staged_md_changes
staged-old = refl

staged-new :
    member (codes "b.md") (map (λ (_, new). new) (parse_staged_md_changes staged).renames) ≡ false
unfolding parse_staged_md_changes
staged-new = refl

cleanup_sidecars-Gone_example :
    member
      (sidecar_path (codes "b.md") (codes "md"))
      (cleanup_sidecars_for_staged_changes list_index (ok staged) tracked_paths).1
    ≡ false
cleanup_sidecars-Gone_example =
    cleanup_sidecars-Gone list_index (λ s. refl) staged tracked_paths (codes "b.md") (codes "md")
      staged-clean refl staged-old staged-new

abbrev commit_ordinals : List (Text × Option ℕ)
commit_ordinals = (codes "c1", some 1) ∷ (codes "c2", some 2) ∷ (codes "c3", some 3) ∷ []

abbrev reified : List (Text × Text)
reified =
    (codes "e1", codes "s")
    ∷ (codes "e2", codes "s")
    ∷ (codes "e3", codes "s")
    ∷ (codes "e4", codes "u")
    ∷ (codes "e5", codes "u")
    ∷ []

abbrev asserted : List (Text × Text)
asserted = (codes "e1", codes "c1") ∷ (codes "e3", codes "c3") ∷ (codes "e4", codes "c2") ∷ []

abbrev retracted : List (Text × Text)
retracted = (codes "e2", codes "c2") ∷ (codes "e5", codes "c2") ∷ []

abbrev present : Text → Bool
present commit = false

abbrev expected : HistoryCounts
expected = record { integrity_bad = 0; dangling = 0; derived_live = 1 }

counts-ok : history_counts commit_ordinals present reified asserted retracted ≡ ok expected
unfolding history_counts
counts-ok = refl

history_counts-live_since_example :
    (live : List Text) × Nodup live
    × (1 ≡ length live)
    × ((s : Text)
        → member s live
          ≡ live_since
              (orders_in (ordinals_of commit_ordinals []) asserted s reified)
              (orders_in (ordinals_of commit_ordinals []) retracted s reified))
history_counts-live_since_example =
    history_counts-live_since commit_ordinals present reified asserted retracted expected
      (refl, (refl, (refl, (refl, (refl, tt))))) (refl, (refl, (refl, tt))) (refl, (refl, tt))
      counts-ok

civil_from_days-IsDate_example :
    (era : ℤ) × (yoe : ℕ) × (yoe < 400)
    × ((civil_from_days (negsuc 0)).0
        ≡ pos yoe +ℤ times_suc era 399 +ℤ pos (early (civil_from_days (negsuc 0)).1))
    × (1 ≤ (civil_from_days (negsuc 0)).1)
    × ((civil_from_days (negsuc 0)).1 ≤ 12)
    × (1 ≤ (civil_from_days (negsuc 0)).2)
    × ((civil_from_days (negsuc 0)).2
        ≤ days_in_month (yoe + early (civil_from_days (negsuc 0)).1) (civil_from_days (negsuc 0)).1)
    × (times_suc era 146096
          +ℤ pos (days_before yoe (civil_from_days (negsuc 0)).1 (civil_from_days (negsuc 0)).2)
        ≡ negsuc 0 +ℤ pos 719468)
civil_from_days-IsDate_example = civil_from_days-IsDate (negsuc 0) (omega arith, omega arith)

-- The tests of the source.
corners :
    (civil_from_days (pos 0) ≡ (pos 1970, 1, 1))
    × (civil_from_days (negsuc 0) ≡ (pos 1969, 12, 31))
    × (civil_from_days (pos 11016) ≡ (pos 2000, 2, 29))
    × (civil_from_days (negsuc 719467) ≡ (pos 0, 3, 1))
unfolding civil_from_days
corners = (refl, refl, refl, refl)
