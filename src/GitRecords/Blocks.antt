-- ===== src/GitRecords/Blocks.antt =====
-- The blocks that `split_diff_tree_stdin` makes of what git prints.
use git_lex.Base.{
  suc, Bool, ◌≡◌, ◌≢◌, refl, sym, ap, ◌∙◌, Option, none, some, List, [], ◌∷◌, ◌++◌, arith, All,
  append_assoc, append-nil, All-append, Result, ok, err, length, ==_refl,
}
use git_lex.Text.{Text, trim, same_refl, same-ne}
use git_lex.Text.Split.{split, Lacks}
use git_lex.GitRecords.{
  block_loop, is_header, close, count_blocks, split_diff_tree_stdin, DiffTreeError,
}
use git_lex.GitRecords.RoundTrip.{terminate, split-terminate, IsField}

-- What git prints for one commit: a header that trims to its sha, and the record fields.
pub record Block : Type 0 where
  pub sha : Text
  pub header : Text
  pub record_fields : List Text

-- No field of a block reads as the header of the next.
abbrev pub NotNext : List Block → Text → Type 0
NotNext [] f = Unit
NotNext (c ∷ _) f = trim f ≢ c.sha

abbrev pub IsBlocks : List Block → Type 0
IsBlocks [] = Unit
IsBlocks (b ∷ bs) =
    ((trim b.header ≡ b.sha)
      × Lacks 0 b.header
      × All IsField b.record_fields
      × All (NotNext bs) b.record_fields)
    × IsBlocks bs

abbrev pub printed : List Block → List Text
printed [] = []
printed (b ∷ bs) = b.header ∷ (b.record_fields ++ printed bs)

abbrev pub shas : List Block → List Text
shas [] = []
shas (b ∷ bs) = b.sha ∷ shas bs

abbrev pub bodies : List Block → List Text
bodies [] = []
bodies (b ∷ bs) = terminate b.record_fields ∷ bodies bs

IsField-Lacks : (fs : List Text) → All IsField fs → All (Lacks 0) fs
IsField-Lacks [] h = tt
IsField-Lacks (f ∷ fs) (hf, hfs) = (hf.1, IsField-Lacks fs hfs)

printed-Lacks : (bs : List Block) → IsBlocks bs → All (Lacks 0) (printed bs)
printed-Lacks [] h = tt
printed-Lacks (b ∷ bs) ((_, hh, hf, _), hbs) = (
  hh,
  All-append _ b.record_fields (printed bs) (IsField-Lacks b.record_fields hf)
      (printed-Lacks bs hbs),
)

not_header : (bs : List Block) (f : Text) → NotNext bs f → is_header f (shas bs) ≡ Bool.false
not_header [] f h = refl
not_header (c ∷ bs) f h = same-ne (trim f) c.sha h

field_step :
    (f : Text) (fs todo : List Text) (block : Text) (blocks : List Text)
    → is_header f todo ≡ Bool.false
    → f ≢ []
    → block_loop (f ∷ fs) todo (some block) blocks
      ≡ block_loop fs todo (some (block ++ (f ++ 0 ∷ []))) blocks
unfolding block_loop
field_step [] fs todo block blocks h ne = absurd (ne refl)
field_step (c ∷ f) fs todo block blocks h ne = rw h

header_step :
    (b : Block) (fs todo : List Text) (current : Option Text) (blocks : List Text)
    → trim b.header ≡ b.sha
    → block_loop (b.header ∷ fs) (b.sha ∷ todo) current blocks
      ≡ block_loop fs todo (some []) (close current blocks)
unfolding block_loop
header_step b fs todo current blocks h = rw (h, same_refl b.sha)

fields_step :
    (gs fs : List Text) (bs : List Block) (block : Text) (blocks : List Text)
    → All IsField gs
    → All (NotNext bs) gs
    → block_loop (gs ++ fs) (shas bs) (some block) blocks
      ≡ block_loop fs (shas bs) (some (block ++ terminate gs)) blocks
fields_step [] fs bs block blocks h k = rw append-nil
fields_step (g ∷ gs) fs bs block blocks (hg, hgs) (kg, kgs) =
    field_step g (gs ++ fs) (shas bs) block blocks (not_header bs g kg) hg.0
    ∙ fields_step gs fs bs (block ++ (g ++ 0 ∷ [])) blocks hgs kgs
    ∙ ap (λ (t : Text). block_loop fs (shas bs) (some t) blocks)
        (append_assoc block (g ++ 0 ∷ []) (terminate gs)
          ∙ ap (λ (t : Text). block ++ t) (append_assoc g (0 ∷ []) (terminate gs)))

empty_step :
    (current : Option Text) (blocks : List Text)
    → block_loop ([] ∷ []) [] current blocks ≡ ok (close current blocks)
unfolding block_loop
empty_step current blocks = refl

loop_blocks :
    (bs : List Block) (current : Option Text) (blocks : List Text)
    → IsBlocks bs
    → block_loop (printed bs ++ [] ∷ []) (shas bs) current blocks
      ≡ ok (close current blocks ++ bodies bs)
loop_blocks [] current blocks h = empty_step current blocks ∙ ap ok (sym (append-nil _))
loop_blocks (b ∷ bs) current blocks ((hs, hh, hf, hn), hbs) =
    header_step b _ (shas bs) current blocks hs
    ∙ ap (λ (fs : List Text). block_loop fs (shas bs) (some []) (close current blocks))
        (append_assoc b.record_fields (printed bs) ([] ∷ []))
    ∙ fields_step b.record_fields _ bs [] (close current blocks) hf hn
    ∙ loop_blocks bs (some (terminate b.record_fields)) (close current blocks) hbs
    ∙ ap ok (append_assoc (close current blocks) (terminate b.record_fields ∷ []) (bodies bs))

length-bodies : (bs : List Block) → length (bodies bs) ≡ length (shas bs)
length-bodies [] = refl
length-bodies (b ∷ bs) = ap suc (length-bodies bs)

-- For the output of git over these commits, in the order asked, every commit gets back exactly
-- its own record fields, NUL-terminated, and no field is lost or given to another commit.
pub split_diff_tree_stdin-printed :
    (bs : List Block)
    → IsBlocks bs
    → split_diff_tree_stdin (terminate (printed bs)) (shas bs) ≡ ok (bodies bs)
unfolding split_diff_tree_stdin
split_diff_tree_stdin-printed bs h =
    rw (split-terminate (printed bs) (printed-Lacks bs h), loop_blocks bs none [] h)
      (rw (length-bodies bs, ==_refl) refl)

-- An answer is never short: a success has one block for each commit asked.
pub split_diff_tree_stdin-length :
    (raw : Text) (asked : List Text) {blocks : List Text}
    → split_diff_tree_stdin raw asked ≡ ok blocks
    → length blocks ≡ length asked
unfolding split_diff_tree_stdin
split_diff_tree_stdin-length raw asked {blocks} h =
    counted (block_loop (split 0 raw) asked none []) h
  where
    counted :
        (r : Result DiffTreeError (List Text))
        → count_blocks asked r ≡ ok blocks
        → length blocks ≡ length asked
    counted (err e) h = cc
    counted (ok bs) h = ground arith
