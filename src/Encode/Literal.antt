-- ===== src/Encode/Literal.antt =====
-- The literals that `nq_escape` writes, read by the N-Quads grammar.
use git_lex.Base.{
  ℕ, Bool, false, ◌⊎◌, inl, inr, ◌≡◌, refl, ap, ◌∙◌, Option, none, some, [], ◌∷◌, ◌++◌, ◌==◌,
  if◌then◌else◌, ◌||◌, arith, append_assoc, ◌>>=◌,
}
use git_lex.Text.{Text}
use git_lex.Encode.{replace, nq_escape}

-- What the character behind a backslash stands for (ECHAR).
abbrev escape_char : ℕ → Option ℕ
escape_char c =
    if c == b'n'
    then some b'\n'
    else if c == b'r'
    then some b'\r'
    else if c == b't'
    then some b'\t'
    else if c == b'"'
    then some b'"'
    else if c == b'\\'
    then some b'\\'
    else none

-- The text between the quotes of an N-Quads string: escapes, and any character but a quote, a
-- backslash and the line ends.
unfoldable pub read_literal : Text → Option Text
read_literal [] = some []
read_literal (c ∷ []) =
    if c == b'\\' || (c == b'"' || (c == b'\n' || c == b'\r')) then none else some (c ∷ [])
read_literal (c ∷ d ∷ s) =
    let escaped = (do v ← escape_char d; r ← read_literal s; some (v ∷ r)) in
    let plain = (do r ← read_literal (d ∷ s); some (c ∷ r)) in
    if c == b'\\' then escaped else if c == b'"' || (c == b'\n' || c == b'\r') then none else plain

replace-append :
    (c : ℕ) (with a b : Text) → replace c with (a ++ b) ≡ replace c with a ++ replace c with b
replace-append c with [] b = refl
replace-append c with (d ∷ a) b =
    ap (λ (t : Text). (if d == c then with else d ∷ []) ++ t) (replace-append c with a b)
    ∙ sym_assoc (if d == c then with else d ∷ []) _ _
  where
    sym_assoc : (x y z : Text) → x ++ (y ++ z) ≡ (x ++ y) ++ z
    sym_assoc x y z = rw append_assoc

nq_escape-cons : (c : ℕ) (s : Text) → nq_escape (c ∷ s) ≡ nq_escape (c ∷ []) ++ nq_escape s
unfolding nq_escape
nq_escape-cons c s = simp (replace-append, append_assoc)

abbrev is_special : ℕ → Bool
is_special c = c == b'\\' || (c == b'"' || (c == b'\n' || c == b'\r'))

read-plain :
    (c : ℕ) (t r : Text)
    → is_special c ≡ false
    → read_literal t ≡ some r
    → read_literal (c ∷ t) ≡ some (c ∷ r)
unfolding read_literal
read-plain c [] r h e = ground arith
read-plain c (d ∷ t) r h e = ground arith

special-cases :
    (c : ℕ) → (is_special c ≡ false) ⊎ (c ≡ b'\\') ⊎ (c ≡ b'"') ⊎ (c ≡ b'\n') ⊎ (c ≡ b'\r')
special-cases c = ground arith

nq_escape-plain : (c : ℕ) → is_special c ≡ false → nq_escape (c ∷ []) ≡ c ∷ []
unfolding nq_escape
nq_escape-plain c h = ground arith

read-escape :
    (c : ℕ) (t r : Text)
    → read_literal t ≡ some r
    → read_literal (nq_escape (c ∷ []) ++ t) ≡ some (c ∷ r)
unfolding read_literal nq_escape
read-escape c t r e = elim (special-cases c) [
  | inl plain ↦ rw (nq_escape-plain c plain) (read-plain c t r plain e)
  | inr (inl b) ↦ rw (b, e)
  | inr (inr (inl q)) ↦ rw (q, e)
  | inr (inr (inr (inl n))) ↦ rw (n, e)
  | inr (inr (inr (inr r'))) ↦ rw (r', e)
]

-- Every text comes back from its escaped form by the N-Quads rules for string literals, so the
-- escaped form holds no bare quote and no line end, and two texts never share a form.
pub read_literal-nq_escape : (s : Text) → read_literal (nq_escape s) ≡ some s
read_literal-nq_escape [] = unfold read_literal nq_escape in refl
read_literal-nq_escape (c ∷ s) =
    rw nq_escape-cons (read-escape c (nq_escape s) s (read_literal-nq_escape s))
