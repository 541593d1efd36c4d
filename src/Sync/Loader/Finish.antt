-- ===== src/Sync/Loader/Finish.antt =====
-- `MarkerLastLoader` from its first text to `finish`: what the store holds in the end.
mod Progress
mod Run
pub use Progress.{Additive, IsLine, concat, concat-append}
pub use Run.{is_quad, is_fact, is_marker}
use mathlib.Core.Path.{subst}
use git_lex.Base.{
  All, All-append, All-append_right, keep-All, ◌≢◌, ==_iff, ℕ, ◌+◌, ◌≡◌, ◌↔◌, ◌⊎◌, refl, ap, sym,
  ◌∙◌, inl, inr, Bool, true, false, List, [], ◌∷◌, ◌++◌, append-nil, none, some, Option,
  Option-cases, Result, ok, err, ◌==◌, Bool-cases, keep, length, arith, append_assoc,
}
use git_lex.Text.Split.{Lacks}
use git_lex.Text.{Text, codes, is_empty}
use git_lex.Sync.Loader.{
  Loader, new, line, take_line, push_loop, push_str, take_last, load_batch, load_rest, load_marker,
  finish, is_sync_marker_line,
}
use git_lex.Sync.Loader.Finish.Progress.{
  Flushed, load_batch-Flushed, Result-cases, Loaded, Loaded-past, Stuck,
}
use git_lex.Sync.Loader.Finish.Run.{run, line-carry, run-Taken, Taken, quads, load_batch-Kept}

-- The lines of a text, each with its line feed, the last one with the one `finish` gives it.
abbrev pub last_line : Text → List Text
last_line [] = []
last_line (c ∷ s) = ((c ∷ s) ++ codes "\n") ∷ []

unfoldable pub lines_from : Text → Text → List Text
lines_from head [] = last_line head
lines_from head (c ∷ rest) =
    let whole = lines_from [] rest in
    let longer = lines_from (head ++ c ∷ []) rest in
    elim (c == b'\n') [ true ↦ (head ++ c ∷ []) ∷ whole | false ↦ longer ]

unfoldable pub quad_lines : Text → List Text
unfolding lines_from
quad_lines text = lines_from [] text

lines_from-IsLine : (head text : Text) → Lacks b'\n' head → All IsLine (lines_from head text)
unfolding lines_from
lines_from-IsLine [] [] h = tt
lines_from-IsLine (x ∷ xs) [] h = ((x ∷ xs, refl, h), tt)
lines_from-IsLine head (c ∷ rest) h = elim (Bool-cases (c == b'\n')) [
  | inl e ↦
      let feed = (==_iff c b'\n').0 e in
      rw (e, lines_from) ((head, ap (λ b. head ++ b ∷ []) feed, h), lines_from-IsLine [] rest tt)
  | inr e ↦
      rw (e, lines_from)
        (lines_from-IsLine (head ++ c ∷ []) rest
          (All-append (λ b. b ≢ b'\n') head (c ∷ []) h (ground arith, tt)))
]

quad_lines-IsLine : (text : Text) → All IsLine (quad_lines text)
unfolding quad_lines
quad_lines-IsLine text = lines_from-IsLine [] text tt

module _ {S E : Type 0} (load_from_reader : Text → S → Result E S) where
  take_last-end :
      (head : Text) (l : Loader S E)
      → l.carry ≡ []
      → take_last load_from_reader (record l { carry = l.carry ++ head })
        ≡ run load_from_reader (last_line head) l
  take_last-end [] l e =
      ap (λ c. take_last load_from_reader (record l { carry = c ++ [] })) e
      ∙ ap (λ c. record l { carry = c }) (sym e)
  take_last-end (x ∷ xs) l e =
      ap (λ c. take_last load_from_reader (record l { carry = c ++ (x ∷ xs) })) e
      ∙ ap (λ c. line load_from_reader ((x ∷ xs) ++ codes "\n") (record l { carry = c })) (sym e)

  take_line-empty :
      (text : Text) (l : Loader S E)
      → l.carry ≡ []
      → take_line load_from_reader text l ≡ line load_from_reader text l
  take_line-empty text l e =
      ap (λ c. take_line load_from_reader text (record l { carry = c })) e
      ∙ ap (λ c. line load_from_reader text (record l { carry = c })) (sym e)

  -- The walk over a text is `line` on each of its lines.
  walk :
      (text head : Text) (l : Loader S E)
      → l.carry ≡ []
      → take_last load_from_reader (push_loop load_from_reader head text l)
        ≡ run load_from_reader (lines_from head text) l
  unfolding push_loop lines_from
  walk [] head l e = take_last-end head l e
  walk (c ∷ rest) head l e = elim (Bool-cases (c == b'\n')) [
    | inl f ↦
        rw (f, push_loop, lines_from, take_line-empty (head ++ c ∷ []) l e)
          (walk rest [] (line load_from_reader (head ++ c ∷ []) l)
            (line-carry load_from_reader (head ++ c ∷ []) l ∙ e))
    | inr f ↦ rw (f, push_loop, lines_from) (walk rest (head ++ c ∷ []) l e)
  ]

  finish-run :
      (text : Text) (l : Loader S E)
      → l.carry ≡ []
      → finish load_from_reader (push_str load_from_reader text l)
        ≡ load_rest load_from_reader
            (load_batch load_from_reader (run load_from_reader (quad_lines text) l))
  unfolding finish push_str quad_lines
  finish-run text l e =
      ap (λ m. load_rest load_from_reader (load_batch load_from_reader m)) (walk text [] l e)

  module _ (first : S) (law : Additive load_from_reader) where
    -- What `finish` returns: everything is loaded, or leading facts are and the rest cannot be.
    Ends : S × Result E ℕ → List Text → List Text → ℕ → Type 0
    Ends r facts marks n =
        ((u : S) × (r ≡ (u, ok n)) × (load_from_reader (concat (facts ++ marks)) first ≡ ok u))
        ⊎ ((u : S) × (e : E) × (r ≡ (u, err e))
            × ((past : List Text) × (rest : List Text) × (facts ≡ past ++ rest)
                × (load_from_reader (concat past) first ≡ ok u))
            × ((t : S) → ¬ (load_from_reader (concat (facts ++ marks)) first ≡ ok t)))

    load_rest-ok :
        (l : Loader S E) (t : S)
        → l.error ≡ none
        → load_from_reader l.marker l.store ≡ ok t
        → load_rest load_from_reader l ≡ (t, ok l.lines)
    load_rest-ok l t e f = ap (λ o. load_marker load_from_reader o l) e ∙ rw (load_marker, f) refl

    load_rest-refused :
        (l : Loader S E) (r : E)
        → l.error ≡ none
        → load_from_reader l.marker l.store ≡ err r
        → load_rest load_from_reader l ≡ (l.store, err r)
    load_rest-refused l r e f =
        ap (λ o. load_marker load_from_reader o l) e ∙ rw (load_marker, f) refl

    load_rest-error :
        (l : Loader S E) (r : E)
        → l.error ≡ some r
        → load_rest load_from_reader l ≡ (l.store, err r)
    load_rest-error l r e = rw e refl

    refused-never :
        (past bad rest : List Text) (store : S) (r : E)
        → All IsLine (past ++ (bad ++ rest))
        → load_from_reader (concat past) first ≡ ok store
        → load_from_reader (concat bad) store ≡ err r
        → (t : S) → ¬ (load_from_reader (concat (past ++ (bad ++ rest))) first ≡ ok t)
    refused-never past bad rest store r lines s f t all =
        let (a, got, more) = law.cut past (bad ++ rest) first t lines all in
        let (b, got_bad, _) =
          law.cut bad rest a t (All-append_right IsLine past (bad ++ rest) lines) more in
        cc

    Ends-Flushed :
        (l : Loader S E) (facts marks : List Text) (n : ℕ)
        → All IsLine (facts ++ marks)
        → Flushed load_from_reader first l facts
        → l.marker ≡ concat marks
        → l.lines ≡ n
        → Ends (load_rest load_from_reader l) facts marks n
    unfolding Ends
    Ends-Flushed l facts marks n lines (inl (e, s, b)) m k =
        elim (Result-cases (load_from_reader l.marker l.store)) [
          | inl (t, f) ↦ inl (
            t,
            load_rest-ok l t e f ∙ ap (λ i. (t, ok i)) k,
            law.join facts marks first l.store t lines s (rw (sym m) f),
          )
          | inr (r, f) ↦ inr (
            l.store,
            r,
            load_rest-refused l r e f,
            (facts, [], sym (append-nil facts), s),
            λ u all. let (a, got, more) = law.cut facts marks first u lines all in cc,
          )
        ]
    Ends-Flushed l facts marks n lines (inr (e, past, bad, rest, split, st)) m k =
        let (r, bad_err) = st.refused in
        let regroup : facts ++ marks ≡ past ++ (bad ++ (rest ++ marks)) =
          ap (λ t. t ++ marks) split
          ∙ append_assoc past (bad ++ rest) marks
          ∙ ap (λ t. past ++ t) (append_assoc bad rest marks) in
        inr (
          l.store,
          e,
          load_rest-error l e st.error,
          (past, bad ++ rest, split, st.store),
          λ u all.
              refused-never past bad (rest ++ marks) l.store r (subst (All IsLine) regroup lines)
                st.store bad_err u
                (subst (λ ls. load_from_reader (concat ls) first ≡ ok u) regroup all),
        )

    abbrev pub whole : Text → ℕ → S × Result E ℕ
    whole text batch_quads =
        finish load_from_reader
          (push_str load_from_reader text (new load_from_reader first batch_quads))

    finish-Ends :
        (text : Text) (batch_quads : ℕ)
        → Ends
            (finish load_from_reader
              (push_str load_from_reader text (new load_from_reader first batch_quads)))
            (keep is_fact (quad_lines text))
            (keep is_marker (quad_lines text))
            (quads load_from_reader (quad_lines text))
    unfolding Taken new
    finish-Ends text batch_quads =
        let l0 = new load_from_reader first batch_quads in
        let l = run load_from_reader (quad_lines text) l0 in
        let (h, m, k, c) =
          run-Taken load_from_reader first law (quad_lines text) l0 [] [] 0 (quad_lines-IsLine text)
            tt
            (
              Loaded-past load_from_reader first l0 [] refl (law.nothing first) refl,
              refl,
              refl,
              refl,
            ) in
        let (kc, km, kl) = load_batch-Kept load_from_reader l in
        rw (finish-run text l0 refl) (
          Ends-Flushed (load_batch load_from_reader l) (keep is_fact (quad_lines text))
            (keep is_marker (quad_lines text)) (quads load_from_reader (quad_lines text))
            (All-append IsLine (keep is_fact (quad_lines text)) (keep is_marker (quad_lines text))
              (keep-All IsLine is_fact (quad_lines text) (quad_lines-IsLine text))
              (keep-All IsLine is_marker (quad_lines text) (quad_lines-IsLine text)))
            (load_batch-Flushed load_from_reader first law l (keep is_fact (quad_lines text))
              (keep-All IsLine is_fact (quad_lines text) (quad_lines-IsLine text)) h)
            (km ∙ m) (kl ∙ k ∙ omega arith))

    -- For a store whose loads can be cut and joined between lines: feeding the loader a text and
    -- finishing succeeds with the store `u` and the count `n` exactly if one load of all fact lines
    -- followed by all marker lines gives `u`, and `n` is the number of lines that are not blank.
    -- The batch size plays no part.
    pub finish_iff :
        (text : Text) (batch_quads n : ℕ) (u : S)
        → (whole text batch_quads ≡ (u, ok n)) ↔ (
            (load_from_reader
                (concat (keep is_fact (quad_lines text) ++ keep is_marker (quad_lines text)))
                first
              ≡ ok u)
            × (n ≡ length (keep is_quad (quad_lines text))))
    unfolding Ends
    finish_iff text batch_quads n u = elim (finish-Ends text batch_quads) [
      | inl (t, e, f) ↦ (λ h. (cc, cc), λ (h, k). cc)
      | inr (t, r, e, _, never) ↦ (λ h. cc, λ (g, _). elim (never u g) [ ])
    ]

    -- For a store whose loads can be cut and joined between lines: when `finish` fails, the store is
    -- the one that a load of some of the first fact lines gives.
    pub finish-err :
        (text : Text) (batch_quads : ℕ) (u : S) (e : E)
        → whole text batch_quads ≡ (u, err e)
        → (past : List Text) × (rest : List Text) × (keep is_fact (quad_lines text) ≡ past ++ rest)
          × (load_from_reader (concat past) first ≡ ok u)
    unfolding Ends
    finish-err text batch_quads u e h = elim (finish-Ends text batch_quads) [
      | inl (t, f, _) ↦ cc
      | inr (t, r, f, (past, rest, split, g), _) ↦ (past, rest, split, cc)
    ]
