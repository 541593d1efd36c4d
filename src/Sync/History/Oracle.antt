-- ===== src/Sync/History/Oracle.antt =====
-- The statements that the one pass counts as current, against the assertions and retractions of the
-- events.
use mathlib.Core.Path.{subst}
use mathlib.Core.Path.{ap₂}
use git_lex.Base.{
  ℕ, ◌≡◌, refl, ap, sym, ◌∙◌, inl, inr, Bool, Option, List, [], ◌∷◌, map, ok, length, keep,
  keep-true, keep-false, Bool-cases, arith,
}
use git_lex.Text.{Text, same, same-eq}
use git_lex.Sets.{member, NodupKeys}
use git_lex.Sets.Counting.{Nodup}
use git_lex.Fallible.{and_then-ok, ok-eq}
use git_lex.Sync.History.{
  or_default, latest_loop, is_live, history_counts, HistoryCounts, ordinals_of, scan_objects,
  bad_events, dangling_commits,
}
use git_lex.Sync.History.Clean.{orders_in, orders-scan_objects}
use git_lex.Sync.History.Slots.{
  Latest, slot, is_live-since, latest_loop-slot, latest_loop-NodupKeys, orders, live_since,
}

-- The statements whose slot is live.
abbrev live_statements : Latest → List Text
live_statements latest = map (λ (s, _). s) (keep (λ (_, p). is_live p) latest)

live_statements-member :
    (s : Text) (m : Latest) → NodupKeys m → member s (live_statements m) ≡ is_live (slot s m)
live_statements-member s [] d = refl
live_statements-member s ((k, p) ∷ m) (fresh, d) = elim (Bool-cases (is_live p)) [
  | inl e ↦
      ap (λ l. member s (map (λ (s, _). s) l)) (keep-true (λ (_, p). is_live p) (k, p) m e)
      ∙ elim (Bool-cases (same s k)) [
        | inl f ↦ rw f (sym e)
        | inr f ↦ rw f (live_statements-member s m d)
      ]
  | inr e ↦
      ap (λ l. member s (map (λ (s, _). s) l)) (keep-false (λ (_, p). is_live p) (k, p) m e)
      ∙ live_statements-member s m d
      ∙ elim (Bool-cases (same s k)) [
        | inl f ↦ rw f (
            ap (λ t. is_live (slot t m)) (same-eq s k f)
            ∙ ap (λ o. is_live (or_default o)) fresh
            ∙ sym e)
        | inr f ↦ rw f refl
      ]
]

live_statements-Nodup : (m : Latest) → NodupKeys m → Nodup (live_statements m)
live_statements-Nodup [] d = tt
live_statements-Nodup ((k, p) ∷ m) (fresh, d) = elim (Bool-cases (is_live p)) [
  | inl e ↦
      subst (λ l. Nodup (map (λ (s, _). s) l)) (sym (keep-true (λ (_, p). is_live p) (k, p) m e))
        (
          live_statements-member k m d ∙ ap (λ o. is_live (or_default o)) fresh,
          live_statements-Nodup m d,
        )
  | inr e ↦
      subst (λ l. Nodup (map (λ (s, _). s) l)) (sym (keep-false (λ (_, p). is_live p) (k, p) m e))
        (live_statements-Nodup m d)
]

length-names : (m : Latest) → length m ≡ length (map (λ (s, _). s) m)
length-names [] = refl
length-names (x ∷ m) = omega (arith, length-names m)

history_counts-scanned :
    (ordinals : List (Text × Option ℕ)) (present : Text → Bool)
    (reifies asserted_in retracted_in : List (Text × Text)) (counts : HistoryCounts)
    → history_counts ordinals present reifies asserted_in retracted_in ≡ ok counts
    → (live : List Text) × Nodup live
      × (counts.derived_live ≡ length live)
      × ((s : Text)
          → member s live
            ≡ live_since
                (orders
                  (ordinals_of ordinals [])
                  (scan_objects asserted_in [])
                  s
                  (scan_objects reifies []))
                (orders
                  (ordinals_of ordinals [])
                  (scan_objects retracted_in [])
                  s
                  (scan_objects reifies [])))
unfolding history_counts
history_counts-scanned ordinals present reifies asserted_in retracted_in counts h =
    let ordinal = ordinals_of ordinals [] in
    let statements = scan_objects reifies [] in
    let asserted = scan_objects asserted_in [] in
    let retracted = scan_objects retracted_in [] in
    let count : Latest → HistoryCounts = λ latest. record {
      integrity_bad = length (bad_events statements asserted retracted);
      dangling = length (dangling_commits ordinal present asserted retracted);
      derived_live = length (keep (λ (_, slot). is_live slot) latest);
    } in
    let (m, looped, e) =
      and_then-ok (latest_loop ordinal asserted retracted statements [])
        (λ latest. ok (count latest)) counts h in
    let d = latest_loop-NodupKeys ordinal asserted retracted statements [] m tt looped in
    (
      live_statements m,
      live_statements-Nodup m d,
      ap (λ (c : HistoryCounts). c.derived_live) (sym (ok-eq (count m) counts e))
          ∙ length-names (keep (λ (_, p). is_live p) m),
      λ s.
          live_statements-member s m d
          ∙ ap is_live (latest_loop-slot ordinal asserted retracted statements [] m s looped)
          ∙ is_live-since (orders ordinal asserted s statements)
              (orders ordinal retracted s statements),
    )

-- Over events with at most one statement, one assertion and one retraction each: when no commit that
-- they name lacks an integer ordinal, the derived count is the number of the distinct statements that
-- have some assertion with no retraction at or after it, in the order of the commits.
pub history_counts-live_since :
    (ordinals : List (Text × Option ℕ)) (present : Text → Bool)
    (reifies asserted_in retracted_in : List (Text × Text)) (counts : HistoryCounts)
    → NodupKeys reifies
    → NodupKeys asserted_in
    → NodupKeys retracted_in
    → history_counts ordinals present reifies asserted_in retracted_in ≡ ok counts
    → (live : List Text) × Nodup live
      × (counts.derived_live ≡ length live)
      × ((s : Text)
          → member s live
            ≡ live_since
                (orders_in (ordinals_of ordinals []) asserted_in s reifies)
                (orders_in (ordinals_of ordinals []) retracted_in s reifies))
history_counts-live_since ordinals present reifies asserted_in retracted_in counts dr da dt h =
    let ordinal = ordinals_of ordinals [] in
    let (live, d, n, is_in) =
      history_counts-scanned ordinals present reifies asserted_in retracted_in counts h in
    (
      live,
      d,
      n,
      λ s.
          is_in s
          ∙ ap₂ live_since (orders-scan_objects ordinal asserted_in s reifies da dr)
              (orders-scan_objects ordinal retracted_in s reifies dt dr),
    )
