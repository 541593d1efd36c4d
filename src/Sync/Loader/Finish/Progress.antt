-- ===== src/Sync/Loader/Finish/Progress.antt =====
-- What a `MarkerLastLoader` that has taken some lines has loaded, holds and keeps back.
use mathlib.Core.Path.{subst}
use git_lex.Base.{
  All, ℕ, ◌≡◌, ◌⊎◌, refl, ap, sym, ◌∙◌, inl, inr, List, [], ◌∷◌, ◌++◌, append-nil, append_assoc,
  none, some, Result, ok, err, leb, Bool-cases,
}
use git_lex.Text.{Text}
use git_lex.Text.Split.{Lacks}
use git_lex.Sync.Loader.{Loader, load_batch, load_full}

abbrev pub concat : List Text → Text
concat [] = []
concat (x ∷ xs) = x ++ concat xs

pub concat-append : (xs ys : List Text) → concat (xs ++ ys) ≡ concat xs ++ concat ys
concat-append [] ys = refl
concat-append (x ∷ xs) ys =
    ap (λ t. x ++ t) (concat-append xs ys) ∙ sym (append_assoc x (concat xs) (concat ys))

pub Result-cases :
    {E A : Type 0} → (r : Result E A) → ((a : A) × (r ≡ ok a)) ⊎ ((e : E) × (r ≡ err e))
Result-cases (ok a) = inl (a, refl)
Result-cases (err e) = inr (e, refl)

-- One line with its line feed.
abbrev pub IsLine : Text → Type 0
IsLine x = (s : Text) × (x ≡ s ++ b'\n' ∷ []) × Lacks b'\n' s

-- A load of some lines and then of more is a load of all of them, and nothing loads nothing.
pub record Additive {S E : Type 0} (load_from_reader : Text → S → Result E S) : Type 0 where
  pub nothing : (s : S) → load_from_reader [] s ≡ ok s
  pub join :
      (xs ys : List Text) (s t u : S)
      → All IsLine (xs ++ ys)
      → load_from_reader (concat xs) s ≡ ok t
      → load_from_reader (concat ys) t ≡ ok u
      → load_from_reader (concat (xs ++ ys)) s ≡ ok u
  pub cut :
      (xs ys : List Text) (s u : S)
      → All IsLine (xs ++ ys)
      → load_from_reader (concat (xs ++ ys)) s ≡ ok u
      → (t : S) × (load_from_reader (concat xs) s ≡ ok t) × (load_from_reader (concat ys) t ≡ ok u)

module _ {S E : Type 0} (load_from_reader : Text → S → Result E S) (first : S) where
  -- No load failed: the lines `past` are in the store, the lines `held` are in the batch.
  pub record Going (l : Loader S E) (past held : List Text) : Type 0 where
    pub error : l.error ≡ none
    pub store : load_from_reader (concat past) first ≡ ok l.store
    pub batch : l.batch ≡ concat held

  -- The lines `past` are in the store, and the lines `bad` were refused.
  pub record Stuck (l : Loader S E) (e : E) (past bad : List Text) : Type 0 where
    pub error : l.error ≡ some e
    pub store : load_from_reader (concat past) first ≡ ok l.store
    pub refused : (r : E) × (load_from_reader (concat bad) l.store ≡ err r)

  abbrev pub Loaded : Loader S E → List Text → Type 0
  Loaded l facts =
      ((past : List Text) × (held : List Text) × (facts ≡ past ++ held) × Going l past held)
      ⊎ ((e : E) × (past : List Text) × (bad : List Text) × (rest : List Text) × (facts
            ≡ past ++ (bad ++ rest))
          × Stuck l e past bad)

  -- The parts of a loader that the store's state depends on.
  pub Loaded-same :
      (l m : Loader S E) (facts : List Text)
      → m.error ≡ l.error
      → m.store ≡ l.store
      → m.batch ≡ l.batch
      → Loaded l facts
      → Loaded m facts
  Loaded-same l m facts e s b (inl (past, held, split, g)) =
      inl (
        past,
        held,
        split,
        record { error = e ∙ g.error; store = rw s g.store; batch = b ∙ g.batch },
      )
  Loaded-same l m facts e s b (inr (r, past, bad, rest, split, st)) = inr (
    r,
    past,
    bad,
    rest,
    split,
    record { error = e ∙ st.error; store = rw s st.store; refused = rw s st.refused },
  )

  pub Loaded-past :
      (l : Loader S E) (past : List Text)
      → l.error ≡ none
      → load_from_reader (concat past) first ≡ ok l.store
      → l.batch ≡ []
      → Loaded l past
  Loaded-past l past e s b =
      inl (past, [], sym (append-nil past), record { error = e; store = s; batch = b })

  -- A batch that goes to the store.
  load_batch-none :
      (l : Loader S E) (t : S)
      → l.error ≡ none
      → load_from_reader l.batch l.store ≡ ok t
      → load_batch load_from_reader l ≡ record l { store = t; batch = []; held = 0 }
  unfolding load_batch
  load_batch-none l t e h = rw (e, h) refl

  load_batch-refused :
      (l : Loader S E) (r : E)
      → l.error ≡ none
      → load_from_reader l.batch l.store ≡ err r
      → load_batch load_from_reader l ≡ record l { error = some r; batch = []; held = 0 }
  unfolding load_batch
  load_batch-refused l r e h = rw (e, h) refl

  load_batch-some :
      (l : Loader S E) (r : E)
      → l.error ≡ some r
      → load_batch load_from_reader l ≡ record l { batch = []; held = 0 }
  unfolding load_batch
  load_batch-some l r e = rw e refl

  -- After a batch, every fact is in the store or a load has failed.
  abbrev pub Flushed : Loader S E → List Text → Type 0
  Flushed l facts =
      ((l.error ≡ none) × (load_from_reader (concat facts) first ≡ ok l.store) × (l.batch ≡ []))
      ⊎ ((e : E) × (past : List Text) × (bad : List Text) × (rest : List Text) × (facts
            ≡ past ++ (bad ++ rest))
          × Stuck l e past bad)

  pub Flushed-Loaded : (l : Loader S E) (facts : List Text) → Flushed l facts → Loaded l facts
  Flushed-Loaded l facts (inl (e, s, b)) = Loaded-past l facts e s b
  Flushed-Loaded l facts (inr h) = inr h

  module _ (law : Additive load_from_reader) where
    flush-Going :
        (l : Loader S E) (facts past held : List Text)
        → All IsLine facts
        → facts ≡ past ++ held
        → Going l past held
        → Flushed (load_batch load_from_reader l) facts
    flush-Going l facts past held lines split g =
        let in_batch = ap (λ b. load_from_reader b l.store) g.batch in
        elim (Result-cases (load_from_reader l.batch l.store)) [
          | inl (t, e) ↦
              rw (load_batch-none l t g.error e, split)
                (inl (
                  g.error,
                  law.join past held first l.store t (subst (All IsLine) split lines) g.store
                      (sym in_batch ∙ e),
                  refl,
                ))
          | inr (r, e) ↦ rw (load_batch-refused l r g.error e) (
              inr (
                r,
                past,
                held,
                [],
                split ∙ ap (λ t. past ++ t) (sym (append-nil held)),
                record { error = refl; store = g.store; refused = (r, sym in_batch ∙ e) },
              ))
        ]

    pub load_batch-Flushed :
        (l : Loader S E) (facts : List Text)
        → All IsLine facts
        → Loaded l facts
        → Flushed (load_batch load_from_reader l) facts
    load_batch-Flushed l facts lines (inl (past, held, split, g)) =
        flush-Going l facts past held lines split g
    load_batch-Flushed l facts lines (inr (e, past, bad, rest, split, st)) =
        rw (load_batch-some l e st.error) (
          inr (
            e,
            past,
            bad,
            rest,
            split,
            record { error = st.error; store = st.store; refused = st.refused },
          ))

    -- One more line in the batch.
    pub take-Loaded :
        (l : Loader S E) (facts : List Text) (text : Text) (n m : ℕ)
        → Loaded l facts
        → Loaded (record l { lines = n; batch = l.batch ++ text; held = m }) (facts ++ text ∷ [])
    take-Loaded l facts text n m (inl (past, held, split, g)) = inl (
      past,
      held ++ text ∷ [],
      ap (λ t. t ++ text ∷ []) split ∙ append_assoc past held (text ∷ []),
      record {
        error = g.error;
        store = g.store;
        batch =
            ap (λ t. t ++ text) g.batch
            ∙ ap (λ t. concat held ++ t) (sym (append-nil text))
            ∙ sym (concat-append held (text ∷ []));
      },
    )
    take-Loaded l facts text n m (inr (e, past, bad, rest, split, st)) = inr (
      e,
      past,
      bad,
      rest ++ text ∷ [],
      ap (λ t. t ++ text ∷ []) split
          ∙ append_assoc past (bad ++ rest) (text ∷ [])
          ∙ ap (λ t. past ++ t) (append_assoc bad rest (text ∷ [])),
      record { error = st.error; store = st.store; refused = st.refused },
    )

    pub load_full-Loaded :
        (l : Loader S E) (facts : List Text)
        → All IsLine facts
        → Loaded l facts
        → Loaded (load_full load_from_reader l) facts
    load_full-Loaded l facts lines h = elim (Bool-cases (leb l.batch_quads l.held)) [
      | inl e ↦
          rw (e, load_full)
            (Flushed-Loaded (load_batch load_from_reader l) facts
              (load_batch-Flushed l facts lines h))
      | inr e ↦ rw (e, load_full) h
    ]
