-- ===== src/Registry.antt =====
-- The machine's registry of repositories (src/lib.rs): `fold_same_directory`, which every write
-- ends with. A row is a JSON object, a list of its members; what
-- is no string is `raw`, by a number. `key` resolves a path on the disk.
pub mod Fold
use git_lex.Base.{
  ℕ, Bool, true, false, not, ◌&&◌, Option, none, some, List, [], ◌∷◌, map, keep, ltb, ◌==◌,
  if◌then◌else◌,
}
use git_lex.Text.{Text, codes, same}

pub data Json : Type 0 where
  string : Text → Json
  raw : ℕ → Json

abbrev pub Row : Type 0
Row = List (Text × Json)

abbrev pub get : Text → Row → Option Json
get name [] = none
get name ((n, v) ∷ row) = let rest = get name row in if same n name then some v else rest

-- `row[name] = v`: in its place, or as a new member.
abbrev pub set : Text → Json → Row → Row
set name v [] = (name, v) ∷ []
set name v ((n, w) ∷ row) =
    let rest = set name v row in if same n name then (n, v) ∷ row else (n, w) ∷ rest

abbrev as_str : Option Json → Option Text
as_str (some (Json.string s)) = some s
as_str _ = none

abbrev pub get_str : Text → Row → Option Text
get_str name row = as_str (get name row)

abbrev pub path : Text
path = codes "path"

unfoldable pub entry_path : Row → Option Text
entry_path row = get_str path row

-- `a > b` on texts
abbrev after : Text → Text → Bool
after [] t = false
after (a ∷ s) [] = true
after (a ∷ s) (b ∷ t) =
    let rest = after s t in if ltb b a then true else (if a == b then rest else false)

-- `a > b` on options: none is the least.
abbrev later : Option Text → Option Text → Bool
later none b = false
later (some a) none = true
later (some a) (some b) = after a b

unfoldable pub newer : Row → Row → Bool
newer a b = later (get_str (codes "last_used") a) (get_str (codes "last_used") b)

abbrev fill_from : Option Text → Option Text → Row → Row
fill_from none (some g) kept = set (codes "genesis") (Json.string g) kept
fill_from _ _ kept = kept

unfoldable pub fill_genesis : Row → Row → Row
fill_genesis kept spare =
    fill_from (get_str (codes "genesis") kept) (get_str (codes "genesis") spare) kept

abbrev or_set : Option Json → Text → Json → Row → Row
or_set none name v row = set name v row
or_set (some _) name v row = row

-- `entry(name).or_insert(v)` for each member of the other row
unfoldable pub fill_missing : Row → Row → Row
fill_missing [] kept = kept
fill_missing ((name, v) ∷ spare) kept = fill_missing spare (or_set (get name kept) name v kept)

abbrev pub joined : Text → Row → Row → Row
joined k kept spare = set path (Json.string k) (fill_missing spare (fill_genesis kept spare))

unfoldable pub merge : Text → Row → Row → Row
unfolding newer fill_genesis fill_missing
merge k row old = elim (newer row old) [ true ↦ joined k row old | false ↦ joined k old row ]

-- The folded rows, each with the key that `at` finds it by.
unfoldable pub place : Text → Row → List (Text × Row) → List (Text × Row)
unfolding merge
place k row [] = (k, set path (Json.string k) row) ∷ []
place k row ((h, old) ∷ folded) =
    let rest = place k row folded in
    elim (same h k) [ true ↦ (h, merge k row old) ∷ folded | false ↦ (h, old) ∷ rest ]

module _ (key : Text → Text) where
  abbrev pub fold_row : Option Text → Row → List (Text × Row) → List (Text × Row)
  fold_row none row folded = folded
  fold_row (some p) row folded = place (key p) row folded

  unfoldable pub fold_loop : List Row → List (Text × Row) → List (Text × Row)
  unfolding place entry_path
  fold_loop [] folded = folded
  fold_loop (row ∷ rows) folded = fold_loop rows (fold_row (entry_path row) row folded)

  unfoldable pub fold_same_directory : List Row → List Row
  unfolding fold_loop
  fold_same_directory rows = map (λ p. p.1) (fold_loop rows [])

abbrev pub is_path : Option Text → Text → Bool
is_path none target = false
is_path (some p) target = same p target
