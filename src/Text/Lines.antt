-- ===== src/Text/Lines.antt =====
-- `str::lines` and `split_inclusive('\n')`.
use git_lex.Base.{List, [], ◌∷◌, reverse, ◌==◌, if◌then◌else◌, map}
use git_lex.Text.{Text}
use git_lex.Text.Split.{extend}

-- Pieces that keep their line feed; an empty rest is no piece.
unfoldable pub split_inclusive : Text → List Text
split_inclusive [] = []
split_inclusive (c ∷ s) =
    let rest = split_inclusive s in if c == b'\n' then (c ∷ []) ∷ rest else extend c rest

-- A line without its `\n` or `\r\n`.
drop_cr : Text → Text
drop_cr [] = []
drop_cr (c ∷ r) = if c == b'\r' then r else c ∷ r

drop_lf : Text → Text
drop_lf [] = []
drop_lf (c ∷ r) = if c == b'\n' then drop_cr r else c ∷ r

unfoldable pub drop_end : Text → Text
unfolding drop_cr drop_lf
drop_end line = reverse (drop_lf (reverse line))

unfoldable pub lines : Text → List Text
unfolding split_inclusive drop_end
lines s = map drop_end (split_inclusive s)
