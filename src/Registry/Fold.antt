-- ===== src/Registry/Fold.antt =====
-- The rows that `fold_same_directory` leaves.
use git_lex.Base.{
  ◌≡◌, refl, ap, sym, ◌∙◌, inl, inr, Bool, true, false, ◌||◌, none, some, List, [], ◌∷◌, ◌++◌, map,
  any, Bool-cases, Option-cases, arith, if◌then◌else◌,
}
use git_lex.Text.{Text, same, same-eq, same_refl, same_sym}
use git_lex.Registry.{
  Json, Row, get, set, path, entry_path, merge, newer, place, fold_row, fold_loop,
  fold_same_directory, fill_missing, fill_genesis, is_path,
}

get-set : (name : Text) (v : Json) (row : Row) → get name (set name v row) ≡ some v
get-set name v [] = ap (λ b. if b then some v else none) (same_refl name)
get-set name v ((n, w) ∷ row) = elim (Bool-cases (same n name)) [
  | inl e ↦ rw (e, set, e) refl
  | inr e ↦ rw (e, set, e) (get-set name v row)
]

entry_path-set : (k : Text) (row : Row) → entry_path (set path (Json.string k) row) ≡ some k
unfolding entry_path
entry_path-set k row = rw (get-set path (Json.string k) row) refl

entry_path-merge : (k : Text) (row old : Row) → entry_path (merge k row old) ≡ some k
unfolding merge
entry_path-merge k row old = elim (Bool-cases (newer row old)) [
  | inl e ↦ rw (merge, e) (entry_path-set k (fill_missing old (fill_genesis row old)))
  | inr e ↦ rw (merge, e) (entry_path-set k (fill_missing row (fill_genesis old row)))
]

abbrev has_key : Text → List (Text × Row) → Bool
has_key k folded = any (λ p. same p.0 k) folded

-- The keys are distinct, and each row stands at its key.
abbrev Keyed : List (Text × Row) → Type 0
Keyed [] = Unit
Keyed ((k, row) ∷ folded) = (has_key k folded ≡ false) × (entry_path row ≡ some k) × Keyed folded

found :
    (h g k : Text) (folded : List (Text × Row))
    → g ≡ k
    → (same g h || has_key h folded) ≡ ((same g h || has_key h folded) || same k h)
found h g k folded e = rw e (ground arith)

has_key-place :
    (h k : Text) (row : Row) (folded : List (Text × Row))
    → has_key h (place k row folded) ≡ (has_key h folded || same k h)
unfolding place
has_key-place h k row [] = ground arith
has_key-place h k row ((g, old) ∷ folded) = elim (Bool-cases (same g k)) [
  | inl e ↦ rw (place, e) (found h g k folded (same-eq g k e))
  | inr e ↦ rw (place, e) (ground (arith, has_key-place h k row folded))
]

Keyed-place :
    (k : Text) (row : Row) (folded : List (Text × Row)) → Keyed folded → Keyed (place k row folded)
unfolding place
Keyed-place k row [] h = (refl, entry_path-set k row, tt)
Keyed-place k row ((g, old) ∷ folded) (d, e, h) = elim (Bool-cases (same g k)) [
  | inl f ↦ rw (place, f) (d, entry_path-merge k row old ∙ ap some (sym (same-eq g k f)), h)
  | inr f ↦
      rw (place, f)
        (has_key-place g k row folded ∙ ground (arith, same_sym g k), e, Keyed-place k row folded h)
]

module _ (key : Text → Text) where
  fold_loop-Keyed :
      (rows : List Row) (folded : List (Text × Row))
      → Keyed folded
      → Keyed (fold_loop key rows folded)
  unfolding fold_loop
  fold_loop-Keyed [] folded h = h
  fold_loop-Keyed (row ∷ rows) folded h = elim (Option-cases (entry_path row)) [
    | inl e ↦ rw e (fold_loop-Keyed rows folded h)
    | inr (p, e) ↦
        rw e (fold_loop-Keyed rows (place (key p) row folded) (Keyed-place (key p) row folded h))
  ]

  fold_loop-has_key :
      (h : Text) (rows : List Row) (folded : List (Text × Row))
      → has_key h folded ≡ true
      → has_key h (fold_loop key rows folded) ≡ true
  unfolding fold_loop
  fold_loop-has_key h [] folded e = e
  fold_loop-has_key h (row ∷ rows) folded e = elim (Option-cases (entry_path row)) [
    | inl f ↦ rw f (fold_loop-has_key h rows folded e)
    | inr (p, f) ↦ rw f (
        fold_loop-has_key h rows (place (key p) row folded)
          (has_key-place h (key p) row folded ∙ ground arith))
  ]

  fold_loop-takes :
      (p : Text) (row : Row) (before rest : List Row) (folded : List (Text × Row))
      → entry_path row ≡ some p
      → has_key (key p) (fold_loop key (before ++ row ∷ rest) folded) ≡ true
  unfolding fold_loop
  fold_loop-takes p row [] rest folded e =
      rw (e, fold_loop)
        (fold_loop-has_key (key p) rest (place (key p) row folded)
          (has_key-place (key p) (key p) row folded ∙ ground (arith, same_refl (key p))))
  fold_loop-takes p row (x ∷ before) rest folded e =
      fold_loop-takes p row before rest (fold_row key (entry_path x) x folded) e

-- Is there a row at this path?
abbrev pub listed : Text → List Row → Bool
listed k rows = any (λ r. is_path (entry_path r) k) rows

-- Every row has a path, and no later row has the same.
abbrev pub OnePerPath : List Row → Type 0
OnePerPath [] = Unit
OnePerPath (row ∷ rows) =
    ((k : Text) × (entry_path row ≡ some k) × (listed k rows ≡ false)) × OnePerPath rows

listed-has_key :
    (h : Text) (folded : List (Text × Row))
    → Keyed folded
    → listed h (map (λ p. p.1) folded) ≡ has_key h folded
listed-has_key h [] d = refl
listed-has_key h ((k, row) ∷ folded) (d, e, ds) =
    ap (λ o. is_path o h || listed h (map (λ p. p.1) folded)) e
    ∙ ap (λ b. same k h || b) (listed-has_key h folded ds)

Keyed-OnePerPath : (folded : List (Text × Row)) → Keyed folded → OnePerPath (map (λ p. p.1) folded)
Keyed-OnePerPath [] h = tt
Keyed-OnePerPath ((k, row) ∷ folded) (d, e, h) =
    ((k, e, listed-has_key k folded h ∙ d), Keyed-OnePerPath folded h)

module _ (key : Text → Text) where
  -- Whatever rows the registry held, and however paths resolve, after the fold every row has a path
  -- and no two rows have the same one.
  pub fold_same_directory-OnePerPath : (rows : List Row) → OnePerPath (fold_same_directory key rows)
  unfolding fold_same_directory
  fold_same_directory-OnePerPath rows =
      Keyed-OnePerPath (fold_loop key rows []) (fold_loop-Keyed key rows [] tt)

  -- The fold drops no repository: a row with a path has a row at the resolved path afterwards.
  pub fold_same_directory-listed :
      (p : Text) (row : Row) (before rest : List Row)
      → entry_path row ≡ some p
      → listed (key p) (fold_same_directory key (before ++ row ∷ rest)) ≡ true
  unfolding fold_same_directory
  fold_same_directory-listed p row before rest e =
      listed-has_key (key p) (fold_loop key (before ++ row ∷ rest) [])
        (fold_loop-Keyed key (before ++ row ∷ rest) [] tt)
      ∙ fold_loop-takes key p row before rest [] e
