-- ===== src/Encode/Url.antt =====
-- `uri_encode_url` changes nothing the second time.
use git_lex.Base.{
  ℕ, ◌≡◌, refl, ap, ◌∙◌, inl, inr, ◌<◌, ◌/◌, ◌%◌, [], ◌∷◌, ◌++◌, arith, All, Bool, true, false,
  append_assoc, ◌==◌, leb, ◌&&◌, Bool-cases,
}
use git_lex.Text.{Text, is_hex}
use git_lex.Text.Utf8.{encode_char, IsByte, encode_char-IsByte}
use git_lex.Encode.{
  hex_digit, percent_byte, percent_bytes, push_uri_encoded, two_hex, uri_encode_url,
}
use git_lex.Encode.Decode.{hex_digit-is_hex}
use git_lex.Encode.Iri.{is_reserved, push-cases, push-plain}

reserved-ne_percent : (c : ℕ) → is_reserved c ≡ false → (c == b'%') ≡ false
reserved-ne_percent c h = ground arith

url-plain :
    (c : ℕ) (t : Text)
    → is_reserved c ≡ false
    → leb 128 c ≡ false
    → uri_encode_url (c ∷ t) ≡ c ∷ uri_encode_url t
unfolding uri_encode_url
url-plain c t r w = rw (push-plain c r w, reserved-ne_percent c r)

hex-is_plain : (c : ℕ) → is_hex c ≡ true → (is_reserved c ≡ false) × (leb 128 c ≡ false)
unfolding is_hex
hex-is_plain c h = ground arith

url-hex : (c : ℕ) (t : Text) → is_hex c ≡ true → uri_encode_url (c ∷ t) ≡ c ∷ uri_encode_url t
url-hex c t h = let (r, w) = hex-is_plain c h in url-plain c t r w

-- A `%` with two digits behind it is kept.
url-escape : (s : Text) → two_hex s ≡ true → uri_encode_url (b'%' ∷ s) ≡ b'%' ∷ uri_encode_url s
unfolding uri_encode_url
url-escape s h = rw h

url-percent_byte :
    (b : ℕ) (t : Text)
    → IsByte b
    → uri_encode_url (percent_byte b ++ t) ≡ percent_byte b ++ uri_encode_url t
unfolding percent_byte
url-percent_byte b t h =
    let high = hex_digit-is_hex (b / 16) (omega arith) in
    let low = hex_digit-is_hex (b % 16) (omega arith) in
    url-escape (hex_digit (b / 16) ∷ hex_digit (b % 16) ∷ t) (rw (high, low))
    ∙ ap (λ (u : Text). b'%' ∷ u)
        (url-hex (hex_digit (b / 16)) _ high
          ∙ ap (λ (u : Text). hex_digit (b / 16) ∷ u) (url-hex (hex_digit (b % 16)) t low))

url-percent_bytes :
    (bs t : Text)
    → All IsByte bs
    → uri_encode_url (percent_bytes bs ++ t) ≡ percent_bytes bs ++ uri_encode_url t
url-percent_bytes [] t h = refl
url-percent_bytes (b ∷ bs) t (hb, hbs) =
    ap uri_encode_url (append_assoc (percent_byte b) (percent_bytes bs) t)
    ∙ url-percent_byte b _ hb
    ∙ ap (λ (u : Text). percent_byte b ++ u) (url-percent_bytes bs t hbs)
    ∙ rw append_assoc

reserved-IsByte : (c : ℕ) → is_reserved c ≡ true → IsByte c
reserved-IsByte c h = ground arith

url-push :
    (c : ℕ) (t : Text)
    → c < 0x110000
    → uri_encode_url (push_uri_encoded c ++ t) ≡ push_uri_encoded c ++ uri_encode_url t
url-push c t h = elim (push-cases c) [
  | inl (r, e) ↦ rw e (url-percent_byte c t (reserved-IsByte c r))
  | inr (inl (w, e)) ↦ rw e (url-percent_bytes (encode_char c) t (encode_char-IsByte c h))
  | inr (inr (r, w, e)) ↦ rw e (url-plain c t r w)
]

two_hex-url : (s : Text) → two_hex s ≡ true → two_hex (uri_encode_url s) ≡ true
two_hex-url [] h = cc
two_hex-url (a ∷ []) h = cc
two_hex-url (a ∷ b ∷ s) h =
    let both : (is_hex a ≡ true) × (is_hex b ≡ true) = ground arith in
    rw (url-hex a (b ∷ s) both.0, url-hex b s both.1) h

url-kept :
    (c : ℕ) (s : Text)
    → (c == b'%' && two_hex s) ≡ true
    → uri_encode_url (c ∷ s) ≡ b'%' ∷ uri_encode_url s
unfolding uri_encode_url
url-kept c s h = rw h

url-pushed :
    (c : ℕ) (s : Text)
    → (c == b'%' && two_hex s) ≡ false
    → uri_encode_url (c ∷ s) ≡ push_uri_encoded c ++ uri_encode_url s
unfolding uri_encode_url
url-pushed c s h = rw h

right_of_and : (a b : Bool) → (a && b) ≡ true → b ≡ true
right_of_and a b h = ground arith

-- Encoding a URL twice is encoding it once: an address that is written back and read again never
-- turns into another address.
pub uri_encode_url_idem :
    (s : Text) → All (λ c. c < 0x110000) s → uri_encode_url (uri_encode_url s) ≡ uri_encode_url s
uri_encode_url_idem [] h = unfold uri_encode_url in refl
uri_encode_url_idem (c ∷ s) (hc, hs) = elim (Bool-cases (c == b'%' && two_hex s)) [
  | inl kept ↦
      let digits = two_hex-url s (right_of_and _ (two_hex s) kept) in
      rw (url-kept c s kept)
        (url-escape _ digits ∙ ap (λ (u : Text). b'%' ∷ u) (uri_encode_url_idem s hs))
  | inr push ↦
      rw (url-pushed c s push)
        (url-push c _ hc ∙ ap (λ (u : Text). push_uri_encoded c ++ u) (uri_encode_url_idem s hs))
]
