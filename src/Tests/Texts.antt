-- ===== src/Tests/Texts.antt =====
-- Git's records, the encodings and the link paths at concrete inputs.
use git_lex.Base.{◌<◌, ◌≡◌, refl, ◌&&◌, List, [], ◌∷◌, some, All, ltb, leb, arith, ok}
use git_lex.Text.{Text, codes, is_hex}
use git_lex.Text.Utf8.{encode}
use git_lex.Tests.Facts.{Lacks-of, All-of}
use git_lex.GitRecords.{
  parse_name_status_z, parse_staged_md_changes, parse_rename_records, split_diff_tree_stdin,
}
use git_lex.GitRecords.Agree.{renames_agree}
use git_lex.GitRecords.RoundTrip.{
  Change, IsRecord, print, meaning, removals, terminate, parse_name_status_z-print,
  parse_staged_md_changes-print,
}
use git_lex.GitRecords.Blocks.{
  Block, IsBlocks, printed, shas, bodies, split_diff_tree_stdin-printed,
}
use git_lex.Encode.{nq_escape, uri_encode_path, uri_encode_url, percent_decode}
use git_lex.Encode.Literal.{read_literal, read_literal-nq_escape}
use git_lex.Encode.Iri.{IsPrinting, IsIriChar, encoders-IsIriChar}
use git_lex.Encode.Decode.{percent_decode-uri_encode_path}
use git_lex.LinkPath.{normalize_wikilink_path}
use git_lex.LinkPath.Canonical.{IsCanonical, IsCanonical-normalize}

abbrev two_changes : List Change
two_changes =
    Change.single b'D' (codes "a.md")
    ∷ Change.renamed (codes "100") (codes "b.md") (codes "c.md")
    ∷ []

two_changes-IsRecord : All IsRecord two_changes
two_changes-IsRecord = (
  (omega arith, omega arith, omega arith, (λ e. cc, Lacks-of 0 (codes "a.md") refl)),
  (
    (
      Lacks-of 0 (codes "100") refl,
      (λ e. cc, Lacks-of 0 (codes "b.md") refl),
      (λ e. cc, Lacks-of 0 (codes "c.md") refl),
    ),
    tt,
  ),
)

renames_agree_example :
    ((parse_staged_md_changes (print two_changes)).renames
      ≡ (parse_name_status_z (print two_changes)).renames)
    × (parse_rename_records (print two_changes) ≡ (parse_name_status_z (print two_changes)).renames)
renames_agree_example = renames_agree (print two_changes)

parse_name_status_z-print_example : parse_name_status_z (print two_changes) ≡ meaning two_changes
parse_name_status_z-print_example = parse_name_status_z-print two_changes two_changes-IsRecord

parse_staged_md_changes-print_example :
    parse_staged_md_changes (print two_changes) ≡ removals two_changes
parse_staged_md_changes-print_example =
    parse_staged_md_changes-print two_changes two_changes-IsRecord

abbrev two_blocks : List Block
two_blocks =
    record { sha = codes "aaa"; header = codes "aaa"; record_fields = codes "M" ∷ codes "x" ∷ [] }
    ∷ record { sha = codes "bbb"; header = codes "\nbbb"; record_fields = [] }
    ∷ []

two_blocks-IsBlocks : IsBlocks two_blocks
unfolding git_lex.Text.is_space
two_blocks-IsBlocks = (
  (
    refl,
    Lacks-of 0 (codes "aaa") refl,
    ((λ e. cc, Lacks-of 0 (codes "M") refl), ((λ e. cc, Lacks-of 0 (codes "x") refl), tt)),
    (λ e. cc, (λ e. cc, tt)),
  ),
  ((refl, Lacks-of 0 (codes "\nbbb") refl, tt, tt), tt),
)

split_diff_tree_stdin-printed_example :
    split_diff_tree_stdin (terminate (printed two_blocks)) (shas two_blocks)
    ≡ ok (bodies two_blocks)
split_diff_tree_stdin-printed_example = split_diff_tree_stdin-printed two_blocks two_blocks-IsBlocks

abbrev quoted : Text
quoted = codes "a \"b\"\n\\c"

read_literal-nq_escape_example : read_literal (nq_escape quoted) ≡ some quoted
read_literal-nq_escape_example = read_literal-nq_escape quoted

abbrev spaced : Text
spaced = codes "notes/a b?<c>é.md"

encoders-IsIriChar_example :
    All IsIriChar (uri_encode_path spaced) × All IsIriChar (uri_encode_url spaced)
encoders-IsIriChar_example =
    encoders-IsIriChar spaced
      (All-of IsPrinting (λ c. leb 32 c && ltb c 0x110000) (λ c h. ground arith) spaced refl)

percent_decode-uri_encode_path_example : percent_decode (uri_encode_path spaced) ≡ encode spaced
percent_decode-uri_encode_path_example =
    percent_decode-uri_encode_path spaced
      (All-of (λ c. c < 0x110000) (λ c. ltb c 0x110000) (λ c h. ground arith) spaced refl)

resolves :
    normalize_wikilink_path (codes "../people/ada") (codes "notes/day")
    ≡ some (codes "notes/people/ada.md")
unfolding normalize_wikilink_path
resolves = refl

IsCanonical-normalize_example : IsCanonical (codes "notes/people/ada.md")
IsCanonical-normalize_example =
    IsCanonical-normalize (codes "../people/ada") (codes "notes/day") (codes "notes/people/ada.md")
      resolves
