-- ===== src/Frontmatter/Lossless.antt =====
-- The lines of a document that `split_frontmatter` splits.
use git_lex.Base.{
  All, append-nil, ℕ, ◌≡◌, ◌⊎◌, refl, ap, sym, ◌∙◌, inl, inr, true, false, Option, none, some, List,
  [], ◌∷◌, ◌++◌, append_assoc, Bool-cases, ◌==◌,
}
use git_lex.Text.{Text, codes, strip_prefix, strip_prefix-eq_some}
use git_lex.Text.Lines.{split_inclusive}
use git_lex.Text.Split.{extend}
use git_lex.Frontmatter.{
  glue, closes, fence_loop, either, or_whole, after_opener, split_frontmatter,
}

glue-extend : (c : ℕ) (ps : List Text) → glue (extend c ps) ≡ c ∷ glue ps
glue-extend c [] = refl
glue-extend c (p ∷ ps) = refl

glue-split_inclusive : (s : Text) → glue (split_inclusive s) ≡ s
unfolding split_inclusive
glue-split_inclusive [] = refl
glue-split_inclusive (c ∷ s) = elim (Bool-cases (c == b'\n')) [
  | inl e ↦ rw (e, split_inclusive) (ap (λ t. c ∷ t) (glue-split_inclusive s))
  | inr e ↦
      rw (e, split_inclusive)
        (glue-extend c (split_inclusive s) ∙ ap (λ t. c ∷ t) (glue-split_inclusive s))
]

-- The opening fence, with either line end.
abbrev pub IsOpener : Text → Type 0
IsOpener opener = (opener ≡ codes "---\n") ⊎ (opener ≡ codes "---\r\n")

abbrev pub IsOpen : Text → Type 0
IsOpen line = closes line ≡ false

-- Of the lines, the first one that closes ends the block and starts the body.
abbrev pub IsSplit : List Text → Text → Text → Type 0
IsSplit lines yaml body =
    (block : List Text) × (closer : Text) × (rest : List Text) × (lines ≡ block ++ closer ∷ rest)
    × All IsOpen block
    × (closes closer ≡ true)
    × (yaml ≡ glue block)
    × (body ≡ glue rest)

fence_loop-true :
    (passed line : Text) (rest : List Text)
    → closes line ≡ true
    → fence_loop passed (line ∷ rest) ≡ some (passed, glue rest)
unfolding fence_loop
fence_loop-true passed line rest e = rw (e, fence_loop) refl

fence_loop-false :
    (passed line : Text) (rest : List Text)
    → closes line ≡ false
    → fence_loop passed (line ∷ rest) ≡ fence_loop (passed ++ line) rest
unfolding fence_loop
fence_loop-false passed line rest e = rw (e, fence_loop) refl

fence_loop-IsSplit :
    (passed : Text) (lines : List Text) (yaml body : Text)
    → fence_loop passed lines ≡ some (yaml, body)
    → (block : List Text) × (closer : Text) × (rest : List Text) × (lines ≡ block ++ closer ∷ rest)
      × All IsOpen block
      × (closes closer ≡ true)
      × (yaml ≡ passed ++ glue block)
      × (body ≡ glue rest)
unfolding fence_loop
fence_loop-IsSplit passed [] yaml body h = cc
fence_loop-IsSplit passed (line ∷ rest) yaml body h = elim (Bool-cases (closes line)) [
  | inl e ↦
      let g = sym (fence_loop-true passed line rest e) ∙ h in
      let same_yaml : passed ≡ yaml = cc in
      let same_body : glue rest ≡ body = cc in
      ([], line, rest, refl, tt, e, sym (append-nil passed ∙ same_yaml), sym same_body)
  | inr e ↦
      let (block, closer, later, split, o, c, y, b) =
        fence_loop-IsSplit (passed ++ line) rest yaml body
          (sym (fence_loop-false passed line rest e) ∙ h) in
      (
        line ∷ block,
        closer,
        later,
        ap (λ ls. line ∷ ls) split,
        (e, o),
        c,
        y ∙ append_assoc passed line (glue block),
        b,
      )
]

or_whole-some :
    (content : Text) (o : Option (Text × Text)) (yaml body : Text)
    → or_whole content o ≡ (some yaml, body)
    → o ≡ some (yaml, body)
or_whole-some content none yaml body h = let g = ap (λ p. p.0) h in cc
or_whole-some content (some (y, b)) yaml body h =
    let g : ◌≡◌ {A = Option Text} (some y) (some yaml) = ap (λ p. p.0) h in
    let k : b ≡ body = ap (λ p. p.1) h in let m : y ≡ yaml = cc in rw (m, k) refl

after_opener-some :
    (a b : Option Text) (content yaml body : Text)
    → strip_prefix (codes "---\n") content ≡ a
    → strip_prefix (codes "---\r\n") content ≡ b
    → after_opener content (either a b) ≡ (some yaml, body)
    → (opener : Text) × (after : Text) × IsOpener opener
      × (content ≡ opener ++ after)
      × (fence_loop [] (split_inclusive after) ≡ some (yaml, body))
after_opener-some (some after) b content yaml body e f h = (
  codes "---\n",
  after,
  inl refl,
  strip_prefix-eq_some (codes "---\n") content after e,
  or_whole-some content (fence_loop [] (split_inclusive after)) yaml body h,
)
after_opener-some none (some after) content yaml body e f h = (
  codes "---\r\n",
  after,
  inr refl,
  strip_prefix-eq_some (codes "---\r\n") content after f,
  or_whole-some content (fence_loop [] (split_inclusive after)) yaml body h,
)
after_opener-some none none content yaml body e f h = let g = ap (λ p. p.0) h in cc

-- When a document splits, it is an opening fence and lines, with nothing left out: those of the
-- block, none of which trims to a fence, the first one that does, and those of the body.
pub split_frontmatter-IsSplit :
    (content yaml body : Text)
    → split_frontmatter content ≡ (some yaml, body)
    → (opener : Text) × (after : Text) × IsOpener opener
      × (content ≡ opener ++ after)
      × (glue (split_inclusive after) ≡ after)
      × IsSplit (split_inclusive after) yaml body
unfolding split_frontmatter
split_frontmatter-IsSplit content yaml body h =
    let (opener, after, o, whole, found) =
      after_opener-some (strip_prefix (codes "---\n") content)
        (strip_prefix (codes "---\r\n") content) content yaml body refl refl h in
    (
      opener,
      after,
      o,
      whole,
      glue-split_inclusive after,
      fence_loop-IsSplit [] (split_inclusive after) yaml body found,
    )
