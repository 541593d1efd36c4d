-- ===== src/Text.antt =====
-- Rust's `str` and the functions of its standard library that the program calls: a text is the
-- list of its code points.
pub mod Split
pub mod Lines
pub mod Utf8
use Prim.Native.Char.{code}
use git_lex.Base.{
  ℕ, ◌+◌, String, ◌≡◌, ◌≢◌, ◌↔◌, refl, ap, sym, ◌∙◌, ◌⊎◌, inl, inr, Bool, true, false, ◌&&◌, ◌||◌,
  Option, none, some, List, [], ◌∷◌, ◌++◌, map, reverse, arith, leb, ◌==◌, if◌then◌else◌, any, all,
  ==_iff, ==_refl, Bool-cases,
}

abbrev pub Text : Type 0
Text = List ℕ

abbrev pub codes : String → Text
codes String.[] = []
codes (String.◌∷◌ c s) = code c ∷ codes s

-- `a == b` on texts
abbrev pub same : Text → Text → Bool
same [] [] = true
same (a ∷ s) (b ∷ t) = a == b && same s t
same _ _ = false

pub same-eq : (s t : Text) → same s t ≡ true → s ≡ t
same-eq [] [] h = refl
same-eq [] (b ∷ t) h = cc
same-eq (a ∷ s) [] h = cc
same-eq (a ∷ s) (b ∷ t) h = ground (arith, same-eq s t)

pub same_refl : (s : Text) → same s s ≡ true
same_refl [] = refl
same_refl (a ∷ s) = ground (arith, same_refl s, ==_refl a)

pub same_iff : (s t : Text) → (same s t ≡ true) ↔ (s ≡ t)
same_iff s t = (same-eq s t, λ e. rw e (same_refl t))

pub same-ne : (s t : Text) → s ≢ t → same s t ≡ false
same-ne s t h = ground (arith, same-eq s t)

pub same_sym : (s t : Text) → same s t ≡ same t s
same_sym [] [] = refl
same_sym [] (b ∷ t) = refl
same_sym (a ∷ s) [] = refl
same_sym (a ∷ s) (b ∷ t) = ground (arith, same_sym s t)

-- `is_empty`
abbrev pub is_empty : Text → Bool
is_empty [] = true
is_empty _ = false

-- `strip_prefix`, the prefix first
abbrev pub strip_prefix : Text → Text → Option Text
strip_prefix [] s = some s
strip_prefix (p ∷ ps) [] = none
strip_prefix (p ∷ ps) (c ∷ s) = let rest = strip_prefix ps s in if p == c then rest else none

abbrev pub is_some {ℓ} : {A : Type ℓ} → Option A → Bool
is_some none = false
is_some (some _) = true

abbrev pub starts_with : Text → Text → Bool
starts_with p s = is_some (strip_prefix p s)

abbrev pub extend_some : ℕ → Option Text → Option Text
extend_some c none = none
extend_some c (some r) = some (c ∷ r)

-- `strip_suffix` and `ends_with`, the suffix first
abbrev pub strip_suffix : Text → Text → Option Text
strip_suffix p [] = if is_empty p then some [] else none
strip_suffix p (c ∷ s) =
    let rest = strip_suffix p s in if same (c ∷ s) p then some [] else extend_some c rest

abbrev pub ends_with : Text → Text → Bool
ends_with p s = is_some (strip_suffix p s)

pub strip_prefix-append : (p s : Text) → strip_prefix p (p ++ s) ≡ some s
strip_prefix-append [] s = refl
strip_prefix-append (c ∷ p) s = ground (arith, strip_prefix-append p s, ==_refl c)

pub strip_prefix-eq_some : (p s r : Text) → strip_prefix p s ≡ some r → s ≡ p ++ r
strip_prefix-eq_some [] s r h = cc
strip_prefix-eq_some (p ∷ ps) [] r h = cc
strip_prefix-eq_some (p ∷ ps) (c ∷ s) r h = ground (arith, strip_prefix-eq_some ps s r)

-- `contains` of one character
abbrev pub has : ℕ → Text → Bool
has c = any (λ d. d == c)

-- `contains` of a text
abbrev pub has_text : Text → Text → Bool
has_text p [] = is_empty p
has_text p (c ∷ s) = starts_with p (c ∷ s) || has_text p s

-- `char::is_whitespace`, the Unicode property White_Space
unfoldable pub is_space : ℕ → Bool
is_space c =
    leb 9 c && leb c 13
    || (c == 32
        || (c == 0x85
            || (c == 0xa0
                || (c == 0x1680
                    || (leb 0x2000 c && leb c 0x200a
                        || (c == 0x2028
                            || (c == 0x2029 || (c == 0x202f || (c == 0x205f || c == 0x3000)))))))))

abbrev pub trim_start : Text → Text
trim_start [] = []
trim_start (c ∷ s) = let rest = trim_start s in if is_space c then rest else c ∷ s

abbrev pub trim_end : Text → Text
trim_end [] = []
trim_end (c ∷ s) = let rest = trim_end s in if is_space c && is_empty rest then [] else c ∷ rest

abbrev pub trim : Text → Text
trim s = trim_end (trim_start s)

-- `is_ascii_digit`, `is_ascii_hexdigit`
unfoldable pub is_digit : ℕ → Bool
is_digit c = leb b'0' c && leb c b'9'

unfoldable pub is_hex : ℕ → Bool
is_hex c = leb b'0' c && leb c b'9' || (leb b'a' c && leb c b'f' || leb b'A' c && leb c b'F')

extend_some-eq :
    (p s : Text) (c : ℕ) (o : Option Text) (r : Text)
    → ((q : Text) → o ≡ some q → s ≡ q ++ p)
    → extend_some c o ≡ some r
    → c ∷ s ≡ r ++ p
extend_some-eq p s c none r ih k = cc
extend_some-eq p s c (some q) r ih k =
    let e : c ∷ q ≡ r = ground arith in ap (◌∷◌ c) (ih q refl) ∙ ap (λ (t : Text). t ++ p) e

pub strip_suffix-eq_some : (p s r : Text) → strip_suffix p s ≡ some r → s ≡ r ++ p
strip_suffix-eq_some [] [] r h = ground arith
strip_suffix-eq_some (a ∷ p) [] r h = cc
strip_suffix-eq_some p (c ∷ s) r h = elim (Bool-cases (same (c ∷ s) p)) [
  | inl whole ↦
      let e : [] ≡ r = cc (rw whole at h) in same-eq (c ∷ s) p whole ∙ ap (λ (t : Text). t ++ p) e
  | inr part ↦
      extend_some-eq p s c (strip_suffix p s) r (λ q. strip_suffix-eq_some p s q) (rw part at h)
]

-- A character that is no space stops the trimming.
pub trim_start-snoc :
    (s : Text) (c : ℕ) → is_space c ≡ false → (t : Text) × (trim_start (s ++ c ∷ []) ≡ t ++ c ∷ [])
trim_start-snoc [] c h = ([], rw h)
trim_start-snoc (d ∷ s) c h = elim (Bool-cases (is_space d)) [
  | inl blank ↦ rw blank (trim_start-snoc s c h)
  | inr stays ↦ (d ∷ s, rw stays)
]

pub trim_end-snoc : (s : Text) (c : ℕ) → is_space c ≡ false → trim_end (s ++ c ∷ []) ≡ s ++ c ∷ []
trim_end-snoc [] c h = rw h
trim_end-snoc (d ∷ s) c h = rw (trim_end-snoc s c h) (nonempty d s c)
  where
    nonempty :
        (d : ℕ) (s : Text) (c : ℕ)
        → (if is_space d && is_empty (s ++ c ∷ []) then [] else d ∷ (s ++ c ∷ []))
          ≡ d ∷ (s ++ c ∷ [])
    nonempty d [] c = ground arith
    nonempty d (e ∷ s) c = ground arith

pub trim-cons : (c : ℕ) (s : Text) → is_space c ≡ false → trim (c ∷ s) ≡ c ∷ trim_end s
trim-cons c s h = rw (h, h)

-- `to_ascii_lowercase` of one character, and `eq_ignore_ascii_case`
unfoldable pub lower_ascii : ℕ → ℕ
lower_ascii c = if leb b'A' c && leb c b'Z' then c + 32 else c

abbrev pub same_ignoring_case : Text → Text → Bool
same_ignoring_case s t = same (map lower_ascii s) (map lower_ascii t)
