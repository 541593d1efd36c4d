-- ===== src/Sync/History.antt =====
-- `history_counts` of src/sync.rs over what its scans of the store read: subjects with objects, in
-- the order of the store. The three scans run side by side and read only.
pub mod Slots
pub mod Clean
pub mod Oracle
use git_lex.Base.{
  ℕ, zero, suc, ◌+◌, Bool, true, false, not, ◌&&◌, ◌||◌, Option, none, some, List, [], ◌∷◌, ◌++◌,
  map, Result, ok, err, ltb, leb, length, keep, if◌then◌else◌,
}
use git_lex.Text.{Text}
use git_lex.Sets.{member, insert_new, extend, lookup, put}
use git_lex.Fallible.{and_then}

-- `a.max(b)`
abbrev pub max : ℕ → ℕ → ℕ
max a b = if leb b a then a else b

abbrev pub both : Option ℕ → Option ℕ → Option ℕ
both (some a) (some b) = some (max a b)
both _ _ = none

abbrev pub joined : Option (Option ℕ) → Option ℕ → Option ℕ
joined none v = both v v
joined (some slot) v = both slot v

-- Commit → its ordinal, `none` when it is not an xsd:integer. An `i64` is the natural number that it
-- exceeds the least `i64` by: only its order is asked for.
unfoldable pub ordinals_of :
    List (Text × Option ℕ) → List (Text × Option ℕ) → List (Text × Option ℕ)
ordinals_of [] ordinal = ordinal
ordinals_of ((commit, v) ∷ quads) ordinal =
    ordinals_of quads (put commit (joined (lookup commit ordinal) v) ordinal)

abbrev pub Unordered : Type 0
Unordered = Text

abbrev pub order_found : Text → Option (Option ℕ) → Result Unordered (Option ℕ)
order_found commit none = ok none
order_found commit (some (some o)) = ok (some o)
order_found commit (some none) = err commit

unfoldable pub order_of : List (Text × Option ℕ) → Text → Result Unordered (Option ℕ)
order_of ordinal commit = order_found commit (lookup commit ordinal)

abbrev pub counted : Text → Option (Text × ℕ) → Text × ℕ
counted object none = (object, 1)
counted object (some (seen, n)) = (seen, suc n)

-- Subject → the object seen, how many objects.
unfoldable pub scan_objects :
    List (Text × Text) → List (Text × (Text × ℕ)) → List (Text × (Text × ℕ))
scan_objects [] out = out
scan_objects ((subject, object) ∷ quads) out =
    scan_objects quads (put subject (counted object (lookup subject out)) out)

abbrev pub Scan : Type 0
Scan = List (Text × (Text × ℕ))

abbrev Latest : Type 0
Latest = List (Text × (Option ℕ × Option ℕ))

abbrev pub raised : Option ℕ → ℕ → Option ℕ
raised none o = some o
raised (some m) o = some (max m o)

abbrev pub or_default : Option (Option ℕ × Option ℕ) → Option ℕ × Option ℕ
or_default none = (none, none)
or_default (some slot) = slot

abbrev pub raise_assert : Text → Option ℕ → Latest → Latest
raise_assert stmt none latest = latest
raise_assert stmt (some o) latest =
    let (a, r) = or_default (lookup stmt latest) in put stmt (raised a o, r) latest

abbrev pub raise_retract : Text → Option ℕ → Latest → Latest
raise_retract stmt none latest = latest
raise_retract stmt (some o) latest =
    let (a, r) = or_default (lookup stmt latest) in put stmt (a, raised r o) latest

-- The ordinal of the commit that the event names in one direction, when it has both.
abbrev pub event_order : List (Text × Option ℕ) → Option (Text × ℕ) → Result Unordered (Option ℕ)
event_order ordinal none = ok none
event_order ordinal (some (commit, _)) = order_of ordinal commit

unfoldable pub latest_loop :
    List (Text × Option ℕ) → Scan → Scan → Scan → Latest → Result Unordered Latest
unfolding order_of
latest_loop ordinal asserted retracted [] latest = ok latest
latest_loop ordinal asserted retracted ((event, (stmt, _)) ∷ statements) latest =
    and_then (event_order ordinal (lookup event asserted)) (λ a.
      and_then (event_order ordinal (lookup event retracted)) (λ r.
        latest_loop ordinal asserted retracted statements
          (raise_retract stmt r (raise_assert stmt a latest))))

abbrev pub is_live : Option ℕ × Option ℕ → Bool
is_live (some _, none) = true
is_live (some a, some r) = ltb r a
is_live (none, _) = false

abbrev many : ℕ → Bool
many n = ltb 1 n

abbrev pub names : Scan → List Text
names scan = map (λ (k, _). k) scan

abbrev pub several : Scan → List Text
several scan = names (keep (λ (_, (_, n)). many n) scan)

abbrev has_key : Text → Scan → Bool
has_key k scan = member k (names scan)

-- Events with two statements, two asserts, two retracts, or both directions.
unfoldable pub bad_events : Scan → Scan → Scan → List Text
bad_events statements asserted retracted =
    extend
      (extend (extend [] (several statements))
        (names (keep (λ (e, (_, n)). many n || has_key e retracted) asserted)))
      (several retracted)

abbrev pub commits_named : Scan → Scan → List Text
commits_named asserted retracted =
    extend (extend [] (map (λ (_, (c, _)). c) asserted)) (map (λ (_, (c, _)). c) retracted)

abbrev pub is_present : Option (Option ℕ) → Bool → Bool
is_present none here = here
is_present (some _) here = true

-- Commits that events name and that have no quad in the commits graph.
unfoldable pub dangling_commits : List (Text × Option ℕ) → (Text → Bool) → Scan → Scan → List Text
dangling_commits ordinal present asserted retracted =
    keep (λ c. not (is_present (lookup c ordinal) (present c))) (commits_named asserted retracted)

pub record HistoryCounts : Type 0 where
  pub integrity_bad : ℕ
  pub dangling : ℕ
  pub derived_live : ℕ

unfoldable pub history_counts :
    List (Text × Option ℕ)
    → (Text → Bool)
    → List (Text × Text)
    → List (Text × Text)
    → List (Text × Text)
    → Result Unordered HistoryCounts
unfolding ordinals_of scan_objects latest_loop bad_events dangling_commits
history_counts ordinals present reifies asserted_in retracted_in =
    let ordinal = ordinals_of ordinals [] in
    let statements = scan_objects reifies [] in
    let asserted = scan_objects asserted_in [] in
    let retracted = scan_objects retracted_in [] in
    and_then (latest_loop ordinal asserted retracted statements []) (λ latest. ok (record {
      integrity_bad = length (bad_events statements asserted retracted);
      dangling = length (dangling_commits ordinal present asserted retracted);
      derived_live = length (keep (λ (_, slot). is_live slot) latest);
    }))
