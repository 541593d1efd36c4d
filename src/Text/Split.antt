-- ===== src/Text/Split.antt =====
-- `split` and `split_once` at one character, at a text, and `join`.
use mathlib.Core.Path.{ap₂}
use mathlib.Core.List.{reverse_aux, reverse-append, reverse-cons, reverse-reverse}
use git_lex.Base.{
  Bool-cases, ==_iff, inl, inr, append_assoc, reverse, ℕ, ◌≡◌, ◌≢◌, refl, ap, ◌∙◌, Option, none,
  some, List, [], ◌∷◌, ◌++◌, arith, ◌==◌, if◌then◌else◌, All, ==_refl, ==-eq_false, sym,
}
use git_lex.Text.{Text, strip_prefix}

-- Put one character in front of the first piece.
abbrev pub extend : ℕ → List Text → List Text
extend c [] = (c ∷ []) ∷ []
extend c (p ∷ ps) = (c ∷ p) ∷ ps

-- `s.split(sep)`: one piece more than there are separators.
unfoldable pub split : ℕ → Text → List Text
split sep [] = [] ∷ []
split sep (c ∷ s) = let rest = split sep s in if c == sep then [] ∷ rest else extend c rest

-- `parts.join(sep)`
unfoldable pub join : Text → List Text → Text
join sep [] = []
join sep (p ∷ []) = p
join sep (p ∷ q ∷ ps) = p ++ (sep ++ join sep (q ∷ ps))

abbrev extend_head : ℕ → Option (Text × Text) → Option (Text × Text)
extend_head c none = none
extend_head c (some (a, b)) = some (c ∷ a, b)

-- `s.split_once(sep)`
unfoldable pub split_once : ℕ → Text → Option (Text × Text)
split_once sep [] = none
split_once sep (c ∷ s) =
    let rest = split_once sep s in if c == sep then some ([], s) else extend_head c rest

extend_head-eq_some :
    (c : ℕ) (o : Option (Text × Text)) (a b : Text)
    → extend_head c o ≡ some (a, b)
    → (r : Text) × (a ≡ c ∷ r) × (o ≡ some (r, b))
extend_head-eq_some c none a b h = cc
extend_head-eq_some c (some (r, t)) a b h = (r, cc, cc)

pub split_once-eq_some :
    (sep : ℕ) (s a b : Text) → split_once sep s ≡ some (a, b) → s ≡ a ++ sep ∷ b
unfolding split_once
split_once-eq_some sep [] a b h = cc
split_once-eq_some sep (c ∷ s) a b h = elim (Bool-cases (c == sep)) [
  | inl e ↦
      let g = ap (λ t. if t then some ([], s) else extend_head c (split_once sep s)) (sym e) ∙ h in
      let nil : [] ≡ a = cc in
      let tail : s ≡ b = cc in rw (sym nil, sym tail, (==_iff c sep).0 e) refl
  | inr e ↦
      let g = ap (λ t. if t then some ([], s) else extend_head c (split_once sep s)) (sym e) ∙ h in
      let (r, head, rest) = extend_head-eq_some c (split_once sep s) a b g in
      rw head (ap (λ t. c ∷ t) (split_once-eq_some sep s r b rest))
]

abbrev or_else : Option Text → Option (Text × Text) → Option (Text × Text)
or_else none later = later
or_else (some after) later = some ([], after)

-- `s.split_once(sep)` at a text that is not empty
unfoldable pub split_text : Text → Text → Option (Text × Text)
split_text sep [] = none
split_text sep (c ∷ s) =
    let rest = split_text sep s in or_else (strip_prefix sep (c ∷ s)) (extend_head c rest)

-- The text holds no such character.
abbrev pub Lacks : ℕ → Text → Type 0
Lacks sep = All (λ c. c ≢ sep)

split_step-ne-nil : (c sep : ℕ) (ps : List Text) → (if c == sep then [] ∷ ps else extend c ps) ≢ []
split_step-ne-nil c sep [] = ground arith
split_step-ne-nil c sep (p ∷ ps) = ground arith

pub split-ne-nil : (sep : ℕ) (s : Text) → split sep s ≢ []
unfolding split
split-ne-nil sep [] h = cc
split-ne-nil sep (c ∷ s) h = split_step-ne-nil c sep (split sep s) h

pub split-Lacks : (sep : ℕ) (s : Text) → Lacks sep s → split sep s ≡ s ∷ []
unfolding split
split-Lacks sep [] h = refl
split-Lacks sep (c ∷ s) (hc, hs) = rw (==-eq_false c sep hc, split-Lacks sep s hs)

pub split-append : (sep : ℕ) (p s : Text) → Lacks sep p → split sep (p ++ sep ∷ s) ≡ p ∷ split sep s
unfolding split
split-append sep [] s h = rw ==_refl
split-append sep (c ∷ p) s (hc, hp) = rw (==-eq_false c sep hc, split-append sep p s hp)

pub join-cons :
    (sep p : Text) (ps : List Text) → ps ≢ [] → join sep (p ∷ ps) ≡ p ++ (sep ++ join sep ps)
unfolding join
join-cons sep p [] h = absurd (h refl)
join-cons sep p (q ∷ ps) h = refl

-- Splitting a join gives the pieces back.
pub split-join :
    (sep : ℕ) (ps : List Text) → ps ≢ [] → All (Lacks sep) ps → split sep (join (sep ∷ []) ps) ≡ ps
unfolding join
split-join sep [] h _ = absurd (h refl)
split-join sep (p ∷ []) h (hp, _) = split-Lacks sep p hp
split-join sep (p ∷ q ∷ ps) h (hp, hps) =
    split-append sep p _ hp ∙ ap (◌∷◌ p) (split-join sep (q ∷ ps) (λ e. cc) hps)

split_step-Lacks :
    (sep c : ℕ) (ps : List Text)
    → All (Lacks sep) ps
    → All (Lacks sep) (if c == sep then [] ∷ ps else extend c ps)
split_step-Lacks sep c [] h = ground arith
split_step-Lacks sep c (p ∷ ps) h = ground arith

-- No piece holds the separator.
pub split-All-Lacks : (sep : ℕ) (s : Text) → All (Lacks sep) (split sep s)
unfolding split
split-All-Lacks sep [] = (tt, tt)
split-All-Lacks sep (c ∷ s) = split_step-Lacks sep c (split sep s) (split-All-Lacks sep s)

-- `s.splitn(3, sep)` where it yields three fields: at a text, and at a character.
abbrev three_of : Text → Option (Text × Text) → Option (Text × Text × Text)
three_of a none = none
three_of a (some (b, c)) = some (a, b, c)

abbrev three_text : Text → Option (Text × Text) → Option (Text × Text × Text)
three_text sep none = none
three_text sep (some (a, rest)) = three_of a (split_text sep rest)

abbrev three_char : ℕ → Option (Text × Text) → Option (Text × Text × Text)
three_char sep none = none
three_char sep (some (a, rest)) = three_of a (split_once sep rest)

unfoldable pub three_at_text : Text → Text → Option (Text × Text × Text)
unfolding split_text
three_at_text sep s = three_text sep (split_text sep s)

unfoldable pub three_at : ℕ → Text → Option (Text × Text × Text)
unfolding split_once
three_at sep s = three_char sep (split_once sep s)

abbrev flip_pair : Option (Text × Text) → Option (Text × Text)
flip_pair none = none
flip_pair (some (a, b)) = some (reverse b, reverse a)

-- `s.rsplit_once(sep)`
unfoldable pub rsplit_once : ℕ → Text → Option (Text × Text)
unfolding split_once
rsplit_once sep s = flip_pair (split_once sep (reverse s))

pub split_once-append :
    (sep : ℕ) (a b : Text) → Lacks sep a → split_once sep (a ++ sep ∷ b) ≡ some (a, b)
unfolding split_once
split_once-append sep [] b h = rw ==_refl
split_once-append sep (c ∷ a) b (hc, ha) = rw (==-eq_false c sep hc, split_once-append sep a b ha)

reverse_aux-Lacks : (sep : ℕ) (s t : Text) → Lacks sep s → Lacks sep t → Lacks sep (reverse_aux s t)
reverse_aux-Lacks sep [] t h k = k
reverse_aux-Lacks sep (c ∷ s) t (hc, hs) k = reverse_aux-Lacks sep s (c ∷ t) hs (hc, k)

pub rsplit_once-append :
    (sep : ℕ) (a b : Text) → Lacks sep b → rsplit_once sep (a ++ sep ∷ b) ≡ some (a, b)
unfolding rsplit_once
rsplit_once-append sep a b h =
    let turned : reverse (a ++ sep ∷ b) ≡ reverse b ++ sep ∷ reverse a =
      reverse-append a (sep ∷ b)
      ∙ ap (λ (t : Text). t ++ reverse a) (reverse-cons sep b)
      ∙ append_assoc (reverse b) (sep ∷ []) (reverse a) in
    ap (λ (t : Text). flip_pair (split_once sep t)) turned
    ∙ ap flip_pair (split_once-append sep (reverse b) (reverse a) (reverse_aux-Lacks sep b [] h tt))
    ∙ ap₂ (λ (x y : Text). some (x, y)) (reverse-reverse a) (reverse-reverse b)
