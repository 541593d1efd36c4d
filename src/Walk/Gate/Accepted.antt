-- ===== src/Walk/Gate/Accepted.antt =====
-- The lines of an accepted sidecar in `resolve_sidecar_lines`.
use git_lex.Base.{true, ◌≡◌, some, List, All}
use git_lex.Text.{Text, codes}
use git_lex.Text.Split.{three_at_text}
use git_lex.Sets.{member}
use git_lex.Walk.Gate.{emitted_line}

abbrev HasFields : Text → Type 0
HasFields line = (fields : Text × Text × Text) × (three_at_text (codes " | ") line ≡ some fields)

-- The first set is part of the second.
abbrev pub Among : List Text → List Text → Type 0
Among xs ys = All (λ x. member x ys ≡ true) xs

module _ {T : Type 0} (emit_file_anchor : List Text → Text → List Text × T)
    (emit_spo_line : List Text → Text → Text → T → List Text × T) where
  abbrev pub emitted : List Text → Text → Text → Text → T → List Text × T
  emitted = emitted_line emit_file_anchor emit_spo_line

  -- What the emitter makes of a line, its fields and the types emitted before it, is in the result.
  abbrev pub IsRead : List Text → Text → Text → List Text → Type 0
  IsRead all_lines doc line out =
      (subject : Text) × (operator : Text) × (object : Text) × (types : T) × (three_at_text
          (codes " | ") line
        ≡ some (subject, operator, object))
      × Among (emitted all_lines doc line object types).0 out
