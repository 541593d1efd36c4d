-- ===== src/Encode.antt =====
-- The encoders of src/nquad.rs (literals and IRIs) and the percent decoder of src/extraction.rs.
pub mod Literal
pub mod Iri
pub mod Decode
pub mod Url
use git_lex.Base.{
  ℕ, ◌+◌, ◌-◌, ◌*◌, ◌/◌, ◌%◌, Bool, true, false, ◌&&◌, Option, none, some, List, [], ◌∷◌, ◌++◌, ltb,
  leb, ◌==◌, if◌then◌else◌, ◌>>=◌,
}
use git_lex.Text.{Text, codes, is_hex}
use git_lex.Text.Utf8.{encode_char, encode}

-- `s.replace(c, with)`
abbrev pub replace : ℕ → Text → Text → Text
replace c with [] = []
replace c with (d ∷ s) = (if d == c then with else d ∷ []) ++ replace c with s

unfoldable pub nq_escape : Text → Text
nq_escape s =
    replace b'\r' (codes "\\r")
      (replace b'\n' (codes "\\n") (replace b'"' (codes "\\\"") (replace b'\\' (codes "\\\\") s)))

-- One digit of `{:02X}`.
unfoldable pub hex_digit : ℕ → ℕ
hex_digit n = if ltb n 10 then b'0' + n else b'A' + (n - 10)

-- `format!("%{:02X}", b)`
unfoldable pub percent_byte : ℕ → Text
unfolding hex_digit
percent_byte b = b'%' ∷ hex_digit (b / 16) ∷ hex_digit (b % 16) ∷ []

abbrev pub percent_bytes : List ℕ → Text
percent_bytes [] = []
percent_bytes (b ∷ bs) = percent_byte b ++ percent_bytes bs

-- What `push_uri_encoded` appends for one character.
unfoldable pub push_uri_encoded : ℕ → Text
push_uri_encoded c =
    if c == b'%'
    then codes "%25"
    else if c == b'"'
    then codes "%22"
    else if c == b'\\'
    then codes "%5C"
    else if c == b' '
    then codes "%20"
    else if c == b'<'
    then codes "%3C"
    else if c == b'>'
    then codes "%3E"
    else if c == b'{'
    then codes "%7B"
    else if c == b'}'
    then codes "%7D"
    else if c == b'|'
    then codes "%7C"
    else if c == b'^'
    then codes "%5E"
    else if c == b'`'
    then codes "%60"
    else if c == b'['
    then codes "%5B"
    else if c == b']'
    then codes "%5D"
    else if leb 128 c
    then percent_bytes (encode_char c)
    else c ∷ []

unfoldable pub uri_encode_path : Text → Text
unfolding push_uri_encoded
uri_encode_path [] = []
uri_encode_path (c ∷ s) = push_uri_encoded c ++ uri_encode_path s

-- `i + 2 < chars.len()` and both characters behind the `%` are hex digits.
abbrev pub two_hex : Text → Bool
two_hex (a ∷ b ∷ _) = is_hex a && is_hex b
two_hex _ = false

unfoldable pub uri_encode_url : Text → Text
unfolding push_uri_encoded is_hex
uri_encode_url [] = []
uri_encode_url (c ∷ s) =
    (if c == b'%' && two_hex s then b'%' ∷ [] else push_uri_encoded c) ++ uri_encode_url s

unfoldable pub hex_value : ℕ → ℕ
hex_value c = if leb c b'9' then c - b'0' else if leb b'a' c then c - b'a' + 10 else c - b'A' + 10

-- `u8::from_str_radix(_, 16)` of a two-byte text: two digits, or a plus sign and one.
unfoldable pub radix_16 : ℕ → ℕ → Option ℕ
unfolding is_hex hex_value
radix_16 a b =
    if is_hex a && is_hex b
    then some (16 * hex_value a + hex_value b)
    else if a == b'+' && is_hex b
    then some (hex_value b)
    else none

abbrev pub pick : Option ℕ → ℕ → ℕ → ℕ → Text → Text → Text
pick none p a b decoded whole = whole
pick (some v) p a b decoded whole = if p == b'%' then v ∷ decoded else whole

-- The byte loop of `percent_decode`.
unfoldable pub percent_decode : Text → Text
unfolding radix_16
percent_decode [] = []
percent_decode (p ∷ []) = p ∷ []
percent_decode (p ∷ a ∷ []) = p ∷ percent_decode (a ∷ [])
percent_decode (p ∷ a ∷ b ∷ s) =
    let decoded = percent_decode s in
    let whole = p ∷ percent_decode (a ∷ b ∷ s) in pick (radix_16 a b) p a b decoded whole
