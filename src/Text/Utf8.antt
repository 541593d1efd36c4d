-- ===== src/Text/Utf8.antt =====
-- The UTF-8 bytes of a text (`encode_utf8`, `as_bytes`).
use git_lex.Base.{ℕ, ◌+◌, ◌/◌, ◌%◌, ◌<◌, [], ◌∷◌, ◌++◌, arith, ltb, if◌then◌else◌, All}
use git_lex.Text.{Text}

unfoldable pub encode_char : ℕ → Text
encode_char c =
    if ltb c 0x80
    then c ∷ []
    else if ltb c 0x800
    then (0xc0 + c / 64) ∷ (0x80 + c % 64) ∷ []
    else if ltb c 0x10000
    then (0xe0 + c / 4096) ∷ (0x80 + c / 64 % 64) ∷ (0x80 + c % 64) ∷ []
    else (0xf0 + c / 262144) ∷ (0x80 + c / 4096 % 64) ∷ (0x80 + c / 64 % 64) ∷ (0x80 + c % 64) ∷ []

unfoldable pub encode : Text → Text
unfolding encode_char
encode [] = []
encode (c ∷ s) = encode_char c ++ encode s

abbrev pub IsByte : ℕ → Type 0
IsByte b = b < 256

-- Every character yields bytes.
pub encode_char-IsByte : (c : ℕ) → c < 0x110000 → All IsByte (encode_char c)
unfolding encode_char
encode_char-IsByte c h = ground arith
