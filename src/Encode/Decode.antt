-- ===== src/Encode/Decode.antt =====
-- `percent_decode` on what `uri_encode_path` writes, on the bytes of the text.
use git_lex.Base.{
  ℕ, ◌≡◌, refl, ap, ◌∙◌, inl, inr, some, ◌<◌, ◌/◌, ◌%◌, [], ◌∷◌, ◌++◌, arith, All, true, false,
  append_assoc, leb, ◌≢◌,
}
use git_lex.Text.{Text, is_hex}
use git_lex.Text.Utf8.{encode_char, encode, IsByte, encode_char-IsByte}
use git_lex.Encode.{
  hex_digit, hex_value, percent_byte, percent_bytes, push_uri_encoded, uri_encode_path,
  percent_decode, radix_16,
}
use git_lex.Encode.Iri.{is_reserved, push-cases}

pub hex_digit-is_hex : (n : ℕ) → n < 16 → is_hex (hex_digit n) ≡ true
unfolding hex_digit is_hex
hex_digit-is_hex n h = ground arith

hex_value-hex_digit : (n : ℕ) → n < 16 → hex_value (hex_digit n) ≡ n
unfolding hex_digit hex_value
hex_value-hex_digit n h = ground arith

radix_16-hex_digit :
    (b : ℕ) → IsByte b → radix_16 (hex_digit (b / 16)) (hex_digit (b % 16)) ≡ some b
unfolding radix_16
radix_16-hex_digit b h = ground (
  arith,
  hex_digit-is_hex (b / 16) (omega arith),
  hex_digit-is_hex (b % 16) (omega arith),
  hex_value-hex_digit (b / 16) (omega arith),
  hex_value-hex_digit (b % 16) (omega arith),
)

decode-percent_byte :
    (b : ℕ) (t : Text) → IsByte b → percent_decode (percent_byte b ++ t) ≡ b ∷ percent_decode t
unfolding percent_decode percent_byte
decode-percent_byte b t h = rw (radix_16-hex_digit b h)

decode-percent_bytes :
    (bs t : Text) → All IsByte bs → percent_decode (percent_bytes bs ++ t) ≡ bs ++ percent_decode t
decode-percent_bytes [] t h = refl
decode-percent_bytes (b ∷ bs) t (hb, hbs) =
    ap percent_decode (append_assoc (percent_byte b) (percent_bytes bs) t)
    ∙ decode-percent_byte b _ hb
    ∙ ap (◌∷◌ b) (decode-percent_bytes bs t hbs)

decode-plain : (c : ℕ) (t : Text) → c ≢ b'%' → percent_decode (c ∷ t) ≡ c ∷ percent_decode t
unfolding percent_decode
decode-plain c [] h = refl
decode-plain c (a ∷ []) h = refl
decode-plain c (a ∷ b ∷ t) h = ground arith

reserved-encode_char : (c : ℕ) → is_reserved c ≡ true → (c ∷ [] ≡ encode_char c) × IsByte c
unfolding encode_char
reserved-encode_char c h = ground arith

narrow-encode_char : (c : ℕ) → leb 128 c ≡ false → encode_char c ≡ c ∷ []
unfolding encode_char
narrow-encode_char c h = ground arith

decode-push :
    (c : ℕ) (t : Text)
    → c < 0x110000
    → percent_decode (push_uri_encoded c ++ t) ≡ encode_char c ++ percent_decode t
decode-push c t h = elim (push-cases c) [
  | inl (r, e) ↦
      let (one, byte) = reserved-encode_char c r in rw (e, ← one) (decode-percent_byte c t byte)
  | inr (inl (w, e)) ↦ rw e (decode-percent_bytes (encode_char c) t (encode_char-IsByte c h))
  | inr (inr (r, w, e)) ↦ rw (e, narrow-encode_char c w) (decode-plain c t (ground arith))
]

-- Decoding an encoded path gives the UTF-8 bytes of the path, for every path of code
-- points.
pub percent_decode-uri_encode_path :
    (s : Text) → All (λ c. c < 0x110000) s → percent_decode (uri_encode_path s) ≡ encode s
unfolding uri_encode_path encode
percent_decode-uri_encode_path [] h = unfold percent_decode in refl
percent_decode-uri_encode_path (c ∷ s) (hc, hs) =
    decode-push c (uri_encode_path s) hc
    ∙ ap (λ (t : Text). encode_char c ++ t) (percent_decode-uri_encode_path s hs)

-- A plus sign and one digit behind a `%` are decoded too, as that digit, though they are no two
-- digits: the escape does not pass through unchanged.
pub percent_decode_plus :
    (d : ℕ) (t : Text)
    → is_hex d ≡ true
    → percent_decode (b'%' ∷ b'+' ∷ d ∷ t) ≡ hex_value d ∷ percent_decode t
unfolding percent_decode radix_16
percent_decode_plus d t h = ground arith
