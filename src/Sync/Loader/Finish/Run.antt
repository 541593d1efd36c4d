-- ===== src/Sync/Loader/Finish/Run.antt =====
-- `MarkerLastLoader::line`, line after line: what is loaded, kept back and counted.
use git_lex.Base.{
  All, All-append, keep-All, ℕ, ◌+◌, ◌≡◌, refl, ap, sym, append_assoc, leb, arith, ◌∙◌, inl, inr,
  Bool, true, false, List, [], ◌∷◌, ◌++◌, append-nil, Option-cases, Result, Bool-cases, keep,
  keep-true, keep-false, length, not, ◌&&◌,
}
use git_lex.Text.{Text, is_empty, trim}
use git_lex.Sync.Loader.Finish.Progress.{
  Additive, IsLine, Loaded, concat, concat-append, Result-cases, load_full-Loaded, take-Loaded,
  Loaded-same,
}
use git_lex.Sync.Loader.{Loader, line, load_batch, load_full, is_sync_marker_line}

abbrev pub is_quad : Text → Bool
is_quad x = not (is_empty (trim x))

-- The lines that go in batches, and those that are kept for the end.
abbrev pub is_fact : Text → Bool
is_fact x = is_quad x && not (is_sync_marker_line x)

abbrev pub is_marker : Text → Bool
is_marker x = is_quad x && is_sync_marker_line x

module _ {S E : Type 0} (load_from_reader : Text → S → Result E S) where
  abbrev pub run : List Text → Loader S E → Loader S E
  run [] l = l
  run (x ∷ xs) l = run xs (line load_from_reader x l)

  line-blank :
      (x : Text) (l : Loader S E) → is_empty (trim x) ≡ true → line load_from_reader x l ≡ l
  unfolding line
  line-blank x l e = rw (e, line) refl

  line-marker :
      (x : Text) (l : Loader S E)
      → is_empty (trim x) ≡ false
      → is_sync_marker_line x ≡ true
      → line load_from_reader x l ≡ record l { lines = l.lines + 1; marker = l.marker ++ x }
  unfolding line
  line-marker x l e f = rw (e, f, line) refl

  line-fact :
      (x : Text) (l : Loader S E)
      → is_empty (trim x) ≡ false
      → is_sync_marker_line x ≡ false
      → line load_from_reader x l
        ≡ load_full load_from_reader
            (record l { lines = l.lines + 1; batch = l.batch ++ x; held = l.held + 1 })
  unfolding line
  line-fact x l e f = rw (e, f, line) refl

  abbrev pub Kept : Loader S E → Loader S E → Type 0
  Kept l m = (m.carry ≡ l.carry) × (m.marker ≡ l.marker) × (m.lines ≡ l.lines)

  pub load_batch-Kept : (l : Loader S E) → Kept l (load_batch load_from_reader l)
  unfolding load_batch
  load_batch-Kept l = elim (Option-cases l.error) [
    | inl e ↦ elim (Result-cases (load_from_reader l.batch l.store)) [
      | inl (t, f) ↦ rw (e, f) (refl, refl, refl)
      | inr (r, f) ↦ rw (e, f) (refl, refl, refl)
    ]
    | inr (r, e) ↦ rw e (refl, refl, refl)
  ]

  load_full-Kept : (l : Loader S E) → Kept l (load_full load_from_reader l)
  load_full-Kept l = elim (Bool-cases (leb l.batch_quads l.held)) [
    | inl e ↦ rw (e, load_full) (load_batch-Kept l)
    | inr e ↦ rw (e, load_full) (refl, refl, refl)
  ]

  pub line-carry : (x : Text) (l : Loader S E) → (line load_from_reader x l).carry ≡ l.carry
  line-carry x l = elim (Bool-cases (is_empty (trim x))) [
    | inl e ↦ rw (line-blank x l e) refl
    | inr e ↦ elim (Bool-cases (is_sync_marker_line x)) [
      | inl f ↦ rw (line-marker x l e f) refl
      | inr f ↦
          let l' : Loader S E = record l {
            lines = l.lines + 1;
            batch = l.batch ++ x;
            held = l.held + 1;
          } in
          let (kc, km, kl) = load_full-Kept l' in rw (line-fact x l e f) kc
    ]
  ]

  -- What the loader has taken: `facts` are loaded or held, `marks` are kept back, `n` were quads.
  unfoldable pub Taken : S → Loader S E → List Text → List Text → ℕ → Type 0
  Taken first l facts marks n =
      Loaded load_from_reader first l facts
      × (l.marker ≡ concat marks)
      × (l.lines ≡ n)
      × (l.carry ≡ [])

  abbrev pub quads : List Text → ℕ
  quads xs = length (keep is_quad xs)

  module _ (first : S) (law : Additive load_from_reader) where
    line-Taken :
        (x : Text) (l : Loader S E) (facts marks : List Text) (n : ℕ)
        → IsLine x
        → All IsLine facts
        → Taken first l facts marks n
        → Taken first
            (line load_from_reader x l)
            (facts ++ keep is_fact (x ∷ []))
            (marks ++ keep is_marker (x ∷ []))
            (n + quads (x ∷ []))
    unfolding Taken
    line-Taken x l facts marks n one lines (h, m, k, c) = elim (Bool-cases (is_empty (trim x))) [
      | inl e ↦
          rw
            (
              keep-false is_fact x [] (rw e refl),
              keep-false is_marker x [] (rw e refl),
              keep-false is_quad x [] (rw e refl),
              append-nil facts,
              append-nil marks,
              line-blank x l e,
            )
            (h, m, omega (arith, k), c)
      | inr e ↦ elim (Bool-cases (is_sync_marker_line x)) [
        | inl f ↦
            rw
              (
                keep-false is_fact x [] (rw (e, f) refl),
                keep-true is_marker x [] (rw (e, f) refl),
                keep-true is_quad x [] (rw e refl),
                append-nil facts,
                line-marker x l e f,
              )
              (
                Loaded-same load_from_reader first l
                    (record l { lines = l.lines + 1; marker = l.marker ++ x }) facts refl refl refl
                    h,
                ap (λ t. t ++ x) m
                    ∙ ap (λ t. concat marks ++ t) (sym (append-nil x))
                    ∙ sym (concat-append marks (x ∷ [])),
                omega (arith, k),
                c,
              )
        | inr f ↦
            let l' : Loader S E = record l {
              lines = l.lines + 1;
              batch = l.batch ++ x;
              held = l.held + 1;
            } in
            let (kc, km, kl) = load_full-Kept l' in
            rw
              (
                keep-true is_fact x [] (rw (e, f) refl),
                keep-false is_marker x [] (rw (e, f) refl),
                keep-true is_quad x [] (rw e refl),
                append-nil marks,
                line-fact x l e f,
              )
              (
                load_full-Loaded load_from_reader first law l' (facts ++ x ∷ [])
                    (All-append IsLine facts (x ∷ []) lines (one, tt))
                    (take-Loaded load_from_reader first law l facts x (l.lines + 1) (l.held + 1) h),
                km ∙ m,
                kl ∙ omega (arith, k),
                kc ∙ c,
              )
      ]
    ]

    keep-append :
        (p : Text → Bool) (x : Text) (xs ys : List Text)
        → (ys ++ keep p (x ∷ [])) ++ keep p xs ≡ ys ++ keep p (x ∷ xs)
    keep-append p x xs ys = elim (Bool-cases (p x)) [
      | inl e ↦ rw (keep-true p x [] e, keep-true p x xs e) (append_assoc ys (x ∷ []) (keep p xs))
      | inr e ↦
          rw (keep-false p x [] e, keep-false p x xs e) (ap (λ t. t ++ keep p xs) (append-nil ys))
    ]

    plus_zero : (n : ℕ) → n + 0 ≡ n
    plus_zero n = omega arith

    quads-cons : (x : Text) (xs : List Text) → quads (x ∷ []) + quads xs ≡ quads (x ∷ xs)
    quads-cons x xs = elim (Bool-cases (is_quad x)) [
      | inl e ↦ rw (keep-true is_quad x [] e, keep-true is_quad x xs e) (omega arith)
      | inr e ↦ rw (keep-false is_quad x [] e, keep-false is_quad x xs e) (omega arith)
    ]

    quads_add :
        (n : ℕ) (x : Text) (xs : List Text) → n + quads (x ∷ xs) ≡ (n + quads (x ∷ [])) + quads xs
    quads_add n x xs = omega (arith, quads-cons x xs)

    pub run-Taken :
        (xs : List Text) (l : Loader S E) (facts marks : List Text) (n : ℕ)
        → All IsLine xs
        → All IsLine facts
        → Taken first l facts marks n
        → Taken first
            (run xs l)
            (facts ++ keep is_fact xs)
            (marks ++ keep is_marker xs)
            (n + quads xs)
    run-Taken [] l facts marks n news lines h =
        rw (append-nil facts, append-nil marks, plus_zero n) h
    run-Taken (x ∷ xs) l facts marks n (one, news) lines h =
        rw
          (
            sym (keep-append is_fact x xs facts),
            sym (keep-append is_marker x xs marks),
            quads_add n x xs,
          )
          (run-Taken xs (line load_from_reader x l) (facts ++ keep is_fact (x ∷ []))
            (marks ++ keep is_marker (x ∷ [])) (n + quads (x ∷ [])) news
            (All-append IsLine facts (keep is_fact (x ∷ [])) lines
              (keep-All IsLine is_fact (x ∷ []) (one, tt)))
            (line-Taken x l facts marks n one lines h))
