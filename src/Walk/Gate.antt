-- ===== src/Walk/Gate.antt =====
-- The write gate of a sidecar, `validate_sidecar_v1`, and the reader of the walk behind it:
-- `blob_lines` of a text and `resolve_sidecar_lines` of src/spo_events.rs. The emitters of
-- src/nquad.rs are parameters, as are the types they have stated.
pub mod Accepted
use git_lex.Base.{
  ℕ, suc, ◌+◌, Bool, true, false, not, ◌&&◌, ◌||◌, Option, none, some, List, [], ◌∷◌, ◌++◌, map,
  Result, ok, err, leb, ltb, keep, if◌then◌else◌,
}
use git_lex.Text.{Text, codes, same, is_empty, trim, starts_with}
use git_lex.Text.Split.{three_at_text}
use git_lex.Text.Lines.{lines}
use git_lex.Sets.{extend, member}
use git_lex.Fallible.{and_then}

pub data GateError : Type 0 where
  blank_line : GateError
  malformed_line : Text → GateError
  empty_subject : GateError
  unknown_operator : Text → GateError
  control_character : ℕ → GateError
  empty_target : GateError

abbrev pub spo_operators_v1 : List Text
spo_operators_v1 = codes "hasValue" ∷ codes "linksTo" ∷ []

-- `char::is_control`, the Unicode class Cc
abbrev pub is_control : ℕ → Bool
is_control c = ltb c 32 || (leb 127 c && leb c 159)

abbrev pub first_control : Text → Option ℕ
first_control [] = none
first_control (c ∷ s) = let rest = first_control s in if is_control c then some c else rest

abbrev pub when : Bool → GateError → List GateError
when b e = if b then e ∷ [] else []

abbrev pub control_error : Option ℕ → List GateError
control_error none = []
control_error (some c) = control_character c ∷ []

abbrev pub field_errors : Text → Option (Text × Text × Text) → List GateError
field_errors line none = malformed_line line ∷ []
field_errors line (some (subject, operator, object)) =
    when (is_empty (trim subject)) empty_subject
    ++ (when (not (member operator spo_operators_v1)) (unknown_operator operator)
        ++ (control_error (first_control object)
            ++ when (same operator (codes "linksTo") && is_empty (trim object)) empty_target))

unfoldable pub line_errors : Text → List GateError
line_errors line =
    if is_empty (trim line)
    then blank_line ∷ []
    else field_errors line (three_at_text (codes " | ") line)

abbrev pub numbered : ℕ → List GateError → List (ℕ × GateError)
numbered n [] = []
numbered n (e ∷ es) = (n, e) ∷ numbered n es

abbrev pub errors_from : ℕ → List Text → List (ℕ × GateError)
errors_from n [] = []
errors_from n (line ∷ rest) = numbered n (line_errors line) ++ errors_from (suc n) rest

unfoldable pub validate_sidecar_v1 : Text → List (ℕ × GateError)
unfolding line_errors
validate_sidecar_v1 content = errors_from 1 (lines content)

-- The lines of a blob's text that are no comment.
unfoldable pub blob_lines : Text → List Text
blob_lines content = keep (λ l. not (is_empty l) && not (starts_with (codes "#") l)) (lines content)

module _ {T : Type 0} (emit_file_anchor : List Text → Text → List Text × T)
    (emit_spo_line : List Text → Text → Text → T → List Text × T) where
  abbrev pub emitted_line : List Text → Text → Text → Text → T → List Text × T
  emitted_line ls doc line object types =
      if is_empty (trim object) then ([], types) else emit_spo_line ls doc line types

  -- `Err` names the malformed line.
  unfoldable pub read_lines : List Text → Text → List Text → T → List Text → Result Text (List Text)
  read_lines ls doc [] types triples = ok triples
  read_lines ls doc (line ∷ rest) types triples = elim (three_at_text (codes " | ") line) [
    | none ↦ err line
    | some (_, _, object) ↦
        let (made, next) = emitted_line ls doc line object types in
        read_lines ls doc rest next (extend triples made)
  ]

  unfoldable pub resolve_sidecar_lines : List Text → Text → Text → Result Text (List Text)
  unfolding read_lines
  resolve_sidecar_lines ls path doc =
      let (anchors, types) = emit_file_anchor ls doc in
      read_lines ls doc ls types (extend [] anchors)
