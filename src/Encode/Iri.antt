-- ===== src/Encode/Iri.antt =====
-- The IRIs that the two encoders write.
use git_lex.Base.{
  ℕ, Bool, true, false, ◌≡◌, ◌≢◌, ◌⊎◌, inl, inr, ◌<◌, ◌≤◌, ◌/◌, ◌%◌, [], ◌∷◌, arith, All,
  All-append, ◌==◌, ◌&&◌, ◌||◌, Bool-cases, leb,
}
use git_lex.Text.{Text}
use git_lex.Text.Utf8.{encode_char, IsByte, encode_char-IsByte}
use git_lex.Encode.{
  hex_digit, percent_byte, percent_bytes, push_uri_encoded, uri_encode_path, two_hex,
  uri_encode_url,
}

-- A character that may stand between the angle brackets of an IRI (IRIREF of N-Quads).
pub record IsIriChar (c : ℕ) : Type 0 where
  pub visible : 0x20 < c
  pub not_open : c ≢ b'<'
  pub not_close : c ≢ b'>'
  pub not_quote : c ≢ b'"'
  pub not_brace : c ≢ b'{'
  pub not_brace_end : c ≢ b'}'
  pub not_bar : c ≢ b'|'
  pub not_caret : c ≢ b'^'
  pub not_tick : c ≢ b'`'
  pub not_backslash : c ≢ b'\\'

-- A code point that is no control character of the range below the space.
abbrev pub IsPrinting : ℕ → Type 0
IsPrinting c = (0x20 ≤ c) × (c < 0x110000)

hex_digit-IsIriChar : (n : ℕ) → n < 16 → IsIriChar (hex_digit n)
unfolding hex_digit
hex_digit-IsIriChar n h = ground arith

percent_byte-IsIriChar : (b : ℕ) → IsByte b → All IsIriChar (percent_byte b)
unfolding percent_byte
percent_byte-IsIriChar b h =
    let high = hex_digit-IsIriChar (b / 16) (omega arith) in
    let low = hex_digit-IsIriChar (b % 16) (omega arith) in (omega arith, (high, (low, tt)))

percent_bytes-IsIriChar : (bs : Text) → All IsByte bs → All IsIriChar (percent_bytes bs)
percent_bytes-IsIriChar [] h = tt
percent_bytes-IsIriChar (b ∷ bs) (hb, hbs) =
    All-append IsIriChar (percent_byte b) (percent_bytes bs) (percent_byte-IsIriChar b hb)
      (percent_bytes-IsIriChar bs hbs)

-- The fourteen characters with a row of their own, the other ASCII, and the rest.
abbrev pub is_reserved : ℕ → Bool
is_reserved c =
    c == b'%'
    || (c == b'"'
        || (c == b'\\'
            || (c == b' '
                || (c == b'<'
                    || (c == b'>'
                        || (c == b'{'
                            || (c == b'}'
                                || (c == b'|'
                                    || (c == b'^'
                                        || (c == b'`' || (c == b'[' || c == b']')))))))))))

reserved-cases :
    (c : ℕ)
    → (is_reserved c ≡ false)
      ⊎ (c ≡ b'%')
      ⊎ (c ≡ b'"')
      ⊎ (c ≡ b'\\')
      ⊎ (c ≡ b' ')
      ⊎ (c ≡ b'<')
      ⊎ (c ≡ b'>')
      ⊎ (c ≡ b'{')
      ⊎ (c ≡ b'}')
      ⊎ (c ≡ b'|')
      ⊎ (c ≡ b'^')
      ⊎ (c ≡ b'`')
      ⊎ (c ≡ b'[')
      ⊎ (c ≡ b']')
reserved-cases c = ground arith

-- The literal rows of the table are the percent forms of their characters.
push-reserved : (c : ℕ) → is_reserved c ≡ true → push_uri_encoded c ≡ percent_byte c
unfolding push_uri_encoded percent_byte hex_digit
push-reserved c h = elim (reserved-cases c) [
  | inl n ↦ cc
  | inr (inl e) ↦ rw e
  | inr (inr (inl e)) ↦ rw e
  | inr (inr (inr (inl e))) ↦ rw e
  | inr (inr (inr (inr (inl e)))) ↦ rw e
  | inr (inr (inr (inr (inr (inl e))))) ↦ rw e
  | inr (inr (inr (inr (inr (inr (inl e)))))) ↦ rw e
  | inr (inr (inr (inr (inr (inr (inr (inl e))))))) ↦ rw e
  | inr (inr (inr (inr (inr (inr (inr (inr (inl e)))))))) ↦ rw e
  | inr (inr (inr (inr (inr (inr (inr (inr (inr (inl e))))))))) ↦ rw e
  | inr (inr (inr (inr (inr (inr (inr (inr (inr (inr (inl e)))))))))) ↦ rw e
  | inr (inr (inr (inr (inr (inr (inr (inr (inr (inr (inr (inl e))))))))))) ↦ rw e
  | inr (inr (inr (inr (inr (inr (inr (inr (inr (inr (inr (inr (inl e)))))))))))) ↦ rw e
  | inr (inr (inr (inr (inr (inr (inr (inr (inr (inr (inr (inr (inr e)))))))))))) ↦ rw e
]

push-wide : (c : ℕ) → leb 128 c ≡ true → push_uri_encoded c ≡ percent_bytes (encode_char c)
unfolding push_uri_encoded
push-wide c h = ground arith

pub push-plain : (c : ℕ) → is_reserved c ≡ false → leb 128 c ≡ false → push_uri_encoded c ≡ c ∷ []
unfolding push_uri_encoded
push-plain c h k = ground arith

-- The three kinds of character: escaped by its row, escaped by its bytes, and kept.
pub push-cases :
    (c : ℕ)
    → ((is_reserved c ≡ true) × (push_uri_encoded c ≡ percent_byte c))
      ⊎ ((leb 128 c ≡ true) × (push_uri_encoded c ≡ percent_bytes (encode_char c)))
      ⊎ ((is_reserved c ≡ false) × (leb 128 c ≡ false) × (push_uri_encoded c ≡ c ∷ []))
push-cases c = elim (Bool-cases (is_reserved c)) [
  | inl r ↦ inl (r, push-reserved c r)
  | inr r ↦ elim (Bool-cases (leb 128 c)) [
    | inl w ↦ inr (inl (w, push-wide c w))
    | inr w ↦ inr (inr (r, w, push-plain c r w))
  ]
]

reserved-IsByte : (c : ℕ) → is_reserved c ≡ true → IsByte c
reserved-IsByte c h = ground arith

push-IsIriChar : (c : ℕ) → IsPrinting c → All IsIriChar (push_uri_encoded c)
push-IsIriChar c (low, high) = elim (push-cases c) [
  | inl (r, e) ↦ rw e (percent_byte-IsIriChar c (reserved-IsByte c r))
  | inr (inl (w, e)) ↦ rw e (percent_bytes-IsIriChar _ (encode_char-IsByte c high))
  | inr (inr (r, w, e)) ↦ rw e (ground arith)
]

path-IsIriChar : (s : Text) → All IsPrinting s → All IsIriChar (uri_encode_path s)
unfolding uri_encode_path
path-IsIriChar [] h = tt
path-IsIriChar (c ∷ s) (hc, hs) =
    All-append IsIriChar (push_uri_encoded c) _ (push-IsIriChar c hc) (path-IsIriChar s hs)

url-IsIriChar : (s : Text) → All IsPrinting s → All IsIriChar (uri_encode_url s)
unfolding uri_encode_url
url-IsIriChar [] h = tt
url-IsIriChar (c ∷ s) (hc, hs) = elim (Bool-cases (c == b'%' && two_hex s)) [
  | inl keep ↦ rw keep (omega arith, url-IsIriChar s hs)
  | inr push ↦
      rw push
        (All-append IsIriChar (push_uri_encoded c) _ (push-IsIriChar c hc) (url-IsIriChar s hs))
]

-- From a text with no control character below the space, both encoders write only characters
-- that may stand in an IRI, whatever else the text holds.
pub encoders-IsIriChar :
    (s : Text)
    → All IsPrinting s
    → All IsIriChar (uri_encode_path s) × All IsIriChar (uri_encode_url s)
encoders-IsIriChar s h = (path-IsIriChar s h, url-IsIriChar s h)
