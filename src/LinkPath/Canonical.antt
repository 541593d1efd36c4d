-- ===== src/LinkPath/Canonical.antt =====
-- The paths that `normalize_wikilink_path` returns.
use mathlib.Core.List.{concat-ne-nil, reverse-reverse, reverse-cons, reverse_aux}
use git_lex.Base.{
  ℕ, ◌≡◌, ◌≢◌, refl, sym, ap, ◌∙◌, inl, inr, Bool, true, false, ◌||◌, Option, none, some, List, [],
  ◌∷◌, ◌++◌, reverse, arith, All, All-append, Bool-cases, append_assoc, ◌>>=◌,
}
use git_lex.Text.{Text, codes, same, same-ne, has, is_empty}
use git_lex.Text.Split.{split, join, Lacks, split-join, split-All-Lacks, join-cons}
use git_lex.LinkPath.{combined, collapse, finish, normalize_wikilink_path}

-- A segment that names a file or a folder.
pub record IsSegment (s : Text) : Type 0 where
  pub ne_nil : s ≢ []
  pub ne_dot : s ≢ codes "."
  pub ne_dots : s ≢ codes ".."
  pub no_slash : Lacks b'/' s

-- A repo-relative path: named segments only, so it cannot leave the repo, the last with a dot.
pub record IsCanonical (path : Text) : Type 0 where
  pub last : Text
  pub below : List Text
  pub spells : path ≡ join (b'/' ∷ []) (reverse (last ∷ below))
  pub segments : All IsSegment (last ∷ below)
  pub dotted : has b'.' last ≡ true

abbrev is_skipped : Text → Bool
is_skipped seg = is_empty seg || same seg (codes ".")

collapse-skipped :
    (seg : Text) (segs stack : List Text)
    → is_skipped seg ≡ true
    → collapse (seg ∷ segs) stack ≡ collapse segs stack
unfolding collapse
collapse-skipped seg segs stack h = rw h

collapse-dots :
    (seg : Text) (segs stack : List Text) (top : Text)
    → is_skipped seg ≡ false
    → same seg (codes "..") ≡ true
    → (collapse (seg ∷ segs) [] ≡ none)
      × (collapse (seg ∷ segs) (top ∷ stack) ≡ collapse segs stack)
unfolding collapse
collapse-dots seg segs stack top h k = (rw (h, k), rw (h, k))

collapse-pushed :
    (seg : Text) (segs stack : List Text)
    → is_skipped seg ≡ false
    → same seg (codes "..") ≡ false
    → collapse (seg ∷ segs) stack ≡ collapse segs (seg ∷ stack)
unfolding collapse
collapse-pushed seg segs stack h k = rw (h, k)

IsSegment-of :
    (seg : Text)
    → Lacks b'/' seg
    → is_skipped seg ≡ false
    → same seg (codes "..") ≡ false
    → IsSegment seg
IsSegment-of seg l h k = record {
  ne_nil = λ e. cc (h, ap is_skipped e);
  ne_dot = λ e. cc (h, ap is_skipped e);
  ne_dots = λ e. cc (k, ap (λ t. same t (codes "..")) e);
  no_slash = l;
}

segment_kind :
    (seg : Text) → IsSegment seg → (is_skipped seg ≡ false) × (same seg (codes "..") ≡ false)
segment_kind [] h = absurd (h.ne_nil refl)
segment_kind (c ∷ seg) h =
    (same-ne (c ∷ seg) (codes ".") h.ne_dot, same-ne (c ∷ seg) (codes "..") h.ne_dots)

-- Whatever stack comes out holds segments.
abbrev Yields : Option (List Text) → Type 0
Yields none = Unit
Yields (some out) = All IsSegment out

dots-Yields :
    (seg : Text) (segs stack : List Text)
    → is_skipped seg ≡ false
    → same seg (codes "..") ≡ true
    → ((below : List Text) → All IsSegment below → Yields (collapse segs below))
    → All IsSegment stack
    → Yields (collapse (seg ∷ segs) stack)
dots-Yields seg segs [] go dots ih hs = rw ((collapse-dots seg segs [] seg go dots).0) tt
dots-Yields seg segs (top ∷ below) go dots ih (_, hs) =
    rw ((collapse-dots seg segs below top go dots).1) (ih below hs)

collapse-Yields :
    (segs stack : List Text)
    → All (Lacks b'/') segs
    → All IsSegment stack
    → Yields (collapse segs stack)
collapse-Yields [] stack hl hs = unfold collapse in hs
collapse-Yields (seg ∷ segs) stack (hl, hls) hs = elim (Bool-cases (is_skipped seg)) [
  | inl skip ↦ rw (collapse-skipped seg segs stack skip) (collapse-Yields segs stack hls hs)
  | inr go ↦ elim (Bool-cases (same seg (codes ".."))) [
    | inl dots ↦ dots-Yields seg segs stack go dots (λ below. collapse-Yields segs below hls) hs
    | inr name ↦
        rw (collapse-pushed seg segs stack go name)
          (collapse-Yields segs (seg ∷ stack) hls (IsSegment-of seg hl go name, hs))
  ]
]

collapse-clean :
    (segs stack : List Text)
    → All IsSegment segs
    → collapse segs stack ≡ some (reverse_aux segs stack)
collapse-clean [] stack h = unfold collapse in refl
collapse-clean (seg ∷ segs) stack (h, hs) =
    let (go, name) = segment_kind seg h in
    collapse-pushed seg segs stack go name ∙ collapse-clean segs (seg ∷ stack) hs

All-reverse_aux :
    (segs stack : List Text)
    → All IsSegment segs
    → All IsSegment stack
    → All IsSegment (reverse_aux segs stack)
All-reverse_aux [] stack h k = k
All-reverse_aux (seg ∷ segs) stack (h, hs) k = All-reverse_aux segs (seg ∷ stack) hs (h, k)

All-no_slash : (segs : List Text) → All IsSegment segs → All (Lacks b'/') segs
All-no_slash [] h = tt
All-no_slash (seg ∷ segs) (h, hs) = (h.no_slash, All-no_slash segs hs)

reverse-ne-nil : (x : Text) (xs : List Text) → reverse (x ∷ xs) ≢ []
reverse-ne-nil x xs e = cc (reverse-reverse (x ∷ xs), ap reverse e)

finish-dotted :
    (last : Text) (below : List Text)
    → has b'.' last ≡ true
    → finish (last ∷ below) ≡ some (join (b'/' ∷ []) (reverse (last ∷ below)))
unfolding finish
finish-dotted last below h = rw h

-- A canonical path is read from the repo root as itself, whatever document holds the link.
pub normalize-IsCanonical :
    (path dir : Text) → IsCanonical path → normalize_wikilink_path (b'/' ∷ path) dir ≡ some path
unfolding normalize_wikilink_path
normalize-IsCanonical path dir h =
    let segs = reverse (h.last ∷ h.below) in
    let all = All-reverse_aux (h.last ∷ h.below) [] h.segments tt in
    let pieces : split b'/' path ≡ segs =
      ap (split b'/') h.spells
      ∙ split-join b'/' segs (reverse-ne-nil h.last h.below) (All-no_slash segs all) in
    let walked : collapse segs [] ≡ some (h.last ∷ h.below) =
      collapse-clean segs [] all ∙ ap some (reverse-reverse (h.last ∷ h.below)) in
    rw (pieces, walked) (finish-dotted h.last h.below h.dotted ∙ ap some (sym h.spells))

join-extended :
    (ps : List Text) (p e : Text)
    → join (b'/' ∷ []) (ps ++ p ∷ []) ++ e ≡ join (b'/' ∷ []) (ps ++ (p ++ e) ∷ [])
join-extended [] p e = unfold join in refl
join-extended (q ∷ ps) p e =
    ap (λ (t : Text). t ++ e) (join-cons (b'/' ∷ []) q (ps ++ p ∷ []) (concat-ne-nil p ps))
    ∙ rw append_assoc (ap (λ (t : Text). q ++ (b'/' ∷ t)) (join-extended ps p e))
    ∙ sym (join-cons (b'/' ∷ []) q (ps ++ (p ++ e) ∷ []) (concat-ne-nil (p ++ e) ps))

has-append : (c : ℕ) (s t : Text) → has c t ≡ true → has c (s ++ t) ≡ true
has-append c [] t h = h
has-append c (d ∷ s) t h = ground (arith, has-append c s t h)

with_md-IsSegment : (last : Text) → IsSegment last → IsSegment (last ++ codes ".md")
with_md-IsSegment [] h = absurd (h.ne_nil refl)
with_md-IsSegment (c ∷ last) h = record {
  ne_nil = λ e. cc;
  ne_dot = λ e. long last e;
  ne_dots = λ e. long_two last e;
  no_slash = All-append _ (c ∷ last) (codes ".md") h.no_slash (omega arith);
}
  where
    long : (t : Text) → ◌≢◌ {A = Text} (c ∷ (t ++ codes ".md")) (codes ".")
    long [] e = cc
    long (d ∷ t) e = cc

    long_two : (t : Text) → ◌≢◌ {A = Text} (c ∷ (t ++ codes ".md")) (codes "..")
    long_two [] e = cc
    long_two (d ∷ []) e = cc
    long_two (d ∷ f ∷ t) e = cc

abbrev YieldsPath : Option Text → Type 0
YieldsPath none = Unit
YieldsPath (some path) = IsCanonical path

finish-YieldsPath : (stack : List Text) → All IsSegment stack → YieldsPath (finish stack)
unfolding finish
finish-YieldsPath [] h = tt
finish-YieldsPath (last ∷ below) (h, hs) = elim (Bool-cases (has b'.' last)) [
  | inl dot ↦
      rw dot
        (record { last = last; below = below; spells = refl; segments = (h, hs); dotted = dot })
  | inr bare ↦ rw bare (record {
    last = last ++ codes ".md";
    below = below;
    spells = with_md last below;
    segments = (with_md-IsSegment last h, hs);
    dotted = has-append b'.' last (codes ".md") refl;
  })
]
  where
    with_md :
        (last : Text) (below : List Text)
        → join (b'/' ∷ []) (reverse (last ∷ below)) ++ codes ".md"
          ≡ join (b'/' ∷ []) (reverse ((last ++ codes ".md") ∷ below))
    with_md last below =
        rw (reverse-cons last below, reverse-cons (last ++ codes ".md") below)
          (join-extended (reverse below) last (codes ".md"))

finished-YieldsPath : (o : Option (List Text)) → Yields o → YieldsPath (o >>= finish)
finished-YieldsPath none h = tt
finished-YieldsPath (some stack) h = finish-YieldsPath stack h

normalize-YieldsPath : (target dir : Text) → YieldsPath (normalize_wikilink_path target dir)
unfolding normalize_wikilink_path
normalize-YieldsPath target dir =
    finished-YieldsPath (collapse (split b'/' (combined target dir)) [])
      (collapse-Yields _ [] (split-All-Lacks b'/' (combined target dir)) tt)

-- Every path that link resolution returns is canonical: no empty, `.` or `..` segment, so it
-- stays inside the repo, and a last segment with a dot.
pub IsCanonical-normalize :
    (target dir path : Text) → normalize_wikilink_path target dir ≡ some path → IsCanonical path
IsCanonical-normalize target dir path e = rw e at (normalize-YieldsPath target dir)
