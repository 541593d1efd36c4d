-- ===== src/Sets.antt =====
-- `HashSet` and `HashMap` keyed by texts: lists in the order of insertion.
pub mod Counting
use mathlib.Core.Path.{subst}
use git_lex.Base.{
  ◌≡◌, refl, ap, sym, ◌∙◌, inl, inr, Bool, true, false, not, ◌&&◌, ◌||◌, Option, none, some, List,
  [], ◌∷◌, ◌++◌, arith, keep, keep-true, keep-false, Bool-cases, All, if◌then◌else◌,
}
use git_lex.Text.{Text, same, same-eq, same_refl, same_sym}

-- `contains`
abbrev pub member : Text → List Text → Bool
member x [] = false
member x (y ∷ ys) = same x y || member x ys

-- `insert` into a set
abbrev pub insert_new : Text → List Text → List Text
insert_new x s = elim (member x s) [ true ↦ s | false ↦ s ++ x ∷ [] ]

-- `extend` of a set
abbrev pub extend : List Text → List Text → List Text
extend s [] = s
extend s (x ∷ xs) = extend (insert_new x s) xs

-- `difference`
abbrev pub difference : List Text → List Text → List Text
difference s t = keep (λ x. not (member x t)) s

module _ {V : Type 0} where
  -- `get`
  abbrev pub lookup : Text → List (Text × V) → Option V
  lookup k [] = none
  lookup k ((j, v) ∷ m) = if same k j then some v else lookup k m

  -- `insert` into a map
  abbrev pub put : Text → V → List (Text × V) → List (Text × V)
  put k v [] = (k, v) ∷ []
  put k v ((j, w) ∷ m) = if same k j then (k, v) ∷ m else (j, w) ∷ put k v m

  -- Every key stands once.
  abbrev pub NodupKeys : List (Text × V) → Type 0
  NodupKeys [] = Unit
  NodupKeys ((k, _) ∷ m) = (lookup k m ≡ none) × NodupKeys m

  pub lookup-put :
      (j k : Text) (v : V) (m : List (Text × V))
      → lookup j (put k v m) ≡ (if same j k then some v else lookup j m)
  lookup-put j k v [] = refl
  lookup-put j k v ((i, w) ∷ m) = elim (Bool-cases (same k i)) [
    | inl e ↦ rw (e, sym (same-eq k i e)) (cover (same j k) (lookup j m))
    | inr e ↦ elim (Bool-cases (same j i)) [
      | inl f ↦
          rw (e, f)
            (ap (λ b. if b then some v else some w)
              (sym e ∙ same_sym k i ∙ ap (λ x. same x k) (sym (same-eq j i f))))
      | inr f ↦ rw (e, f) (lookup-put j k v m)
    ]
  ]
    where
      cover :
          (b : Bool) (o : Option V)
          → (if b then some v else o) ≡ (if b then some v else if b then some w else o)
      cover true o = refl
      cover false o = refl

  pub put-NodupKeys : (k : Text) (v : V) (m : List (Text × V)) → NodupKeys m → NodupKeys (put k v m)
  put-NodupKeys k v [] h = (refl, tt)
  put-NodupKeys k v ((i, w) ∷ m) (fresh, h) = elim (Bool-cases (same k i)) [
    | inl e ↦ rw e (rw (same-eq k i e) fresh, h)
    | inr e ↦ rw e (
      lookup-put i k v m ∙ ap (λ b. if b then some v else lookup i m) (same_sym i k ∙ e) ∙ fresh,
      put-NodupKeys k v m h,
    )
  ]

pub member-append : (x : Text) (s t : List Text) → member x (s ++ t) ≡ (member x s || member x t)
member-append x [] t = refl
member-append x (y ∷ s) t = ground (arith, member-append x s t)

pub or_false : (b : Bool) → (b || false) ≡ b
or_false true = refl
or_false false = refl

pub member-same : (x y : Text) (s : List Text) → same x y ≡ true → member x s ≡ member y s
member-same x y s e = ap (λ z. member z s) (same-eq x y e)

pub member-insert_new :
    (x y : Text) (s : List Text) → member x (insert_new y s) ≡ (member x s || same x y)
member-insert_new x y s = elim (Bool-cases (member y s)) [
  | inl e ↦ rw (e, insert_new) (absorb (same x y) (member x s) (λ f. member-same x y s f ∙ e))
  | inr e ↦
      rw (e, insert_new)
        (member-append x s (y ∷ []) ∙ ap (λ b. member x s || b) (or_false (same x y)))
]
  where
    absorb : (b m : Bool) → (b ≡ true → m ≡ true) → m ≡ (m || b)
    absorb true m h = h refl ∙ ap (λ n. n || true) (sym (h refl))
    absorb false true h = refl
    absorb false false h = refl

pub member-extend :
    (x : Text) (s xs : List Text) → member x (extend s xs) ≡ (member x s || member x xs)
member-extend x s [] = sym (or_false (member x s))
member-extend x s (y ∷ xs) =
    member-extend x (insert_new y s) xs
    ∙ ap (λ b. b || member x xs) (member-insert_new x y s)
    ∙ or_assoc (member x s) (same x y) (member x xs)
  where
    or_assoc : (a b c : Bool) → ((a || b) || c) ≡ (a || (b || c))
    or_assoc true b c = refl
    or_assoc false b c = refl

pub member-difference :
    (x : Text) (s t : List Text) → member x (difference s t) ≡ (member x s && not (member x t))
member-difference x [] t = refl
member-difference x (y ∷ s) t = elim (Bool-cases (member y t)) [
  | inl e ↦
      ap (member x) (keep-false (λ z. not (member z t)) y s (ap not e))
      ∙ member-difference x s t
      ∙ drop (same x y) (member x s) (member x t) (λ f. member-same x y t f ∙ e)
  | inr e ↦
      ap (member x) (keep-true (λ z. not (member z t)) y s (ap not e))
      ∙ ap (λ b. same x y || b) (member-difference x s t)
      ∙ stay (same x y) (member x s) (member x t) (λ f. member-same x y t f ∙ e)
]
  where
    drop : (a m n : Bool) → (a ≡ true → n ≡ true) → (m && not n) ≡ ((a || m) && not n)
    drop true m true h = ground arith
    drop true m false h = ground (arith, h)
    drop false m n h = refl

    stay : (a m n : Bool) → (a ≡ true → n ≡ false) → (a || (m && not n)) ≡ ((a || m) && not n)
    stay true m true h = ground (arith, h)
    stay true m false h = refl
    stay false m n h = refl

pub member-All :
    (P : Text → Type 0) (x : Text) (xs : List Text) → All P xs → member x xs ≡ true → P x
member-All P x [] h m = let g : true ≡ false = sym m in cc
member-All P x (y ∷ ys) (py, h) m = elim (Bool-cases (same x y)) [
  | inl e ↦ subst P (sym (same-eq x y e)) py
  | inr e ↦ member-All P x ys h (ap (λ b. b || member x ys) (sym e) ∙ m)
]

pub All-member :
    (P : Text → Type 0) (xs : List Text) → ((x : Text) → member x xs ≡ true → P x) → All P xs
All-member P [] f = tt
All-member P (x ∷ xs) f = (
  f x (ap (λ b. b || member x xs) (same_refl x)),
  All-member P xs (λ y m. f y (later (same y x) (member y xs) m)),
)
  where
    later : (a b : Bool) → b ≡ true → (a || b) ≡ true
    later true b m = refl
    later false b m = m

pub difference-member :
    (x : Text) (s t : List Text) → member x (difference s t) ≡ true → member x s ≡ true
difference-member x s t m = first (member x s) (member x t) (sym (member-difference x s t) ∙ m)
  where
    first : (a b : Bool) → (a && not b) ≡ true → a ≡ true
    first true b h = refl
    first false b h = h
