-- ===== src/Sets/Counting.antt =====
-- A set with as many members as a list that holds them all has all that the list holds.
use git_lex.Base.{
  suc, ◌≡◌, refl, ap, sym, ◌∙◌, inl, inr, Bool, true, false, ◌||◌, List, [], ◌∷◌, ◌++◌, length,
  arith, Bool-cases, if◌then◌else◌,
}
use git_lex.Text.{Text, same, same-eq, same_sym, same_refl}
use git_lex.Sets.{member, insert_new, member-append}

abbrev pub Nodup : List Text → Type 0
Nodup [] = Unit
Nodup (x ∷ xs) = (member x xs ≡ false) × Nodup xs

abbrev pub Within : List Text → List Text → Type 0
Within xs ys = (z : Text) → member z xs ≡ true → member z ys ≡ true

Nodup-snoc : (xs : List Text) (x : Text) → member x xs ≡ false → Nodup xs → Nodup (xs ++ x ∷ [])
Nodup-snoc [] x h d = (refl, tt)
Nodup-snoc (y ∷ xs) x h (fresh, d) =
    let (a, b) = neither (same x y) (member x xs) h in
    (
      member-append y xs (x ∷ [])
          ∙ ap (λ b. b || (same y x || false)) fresh
          ∙ ap (λ b. b || false) (same_sym y x ∙ a),
      Nodup-snoc xs x b d,
    )
  where
    neither : (a b : Bool) → (a || b) ≡ false → (a ≡ false) × (b ≡ false)
    neither true b h = cc
    neither false b h = (refl, h)

pub insert_new-Nodup : (x : Text) (xs : List Text) → Nodup xs → Nodup (insert_new x xs)
insert_new-Nodup x xs d = elim (Bool-cases (member x xs)) [
  | inl e ↦ rw (e, insert_new) d
  | inr e ↦ rw (e, insert_new) (Nodup-snoc xs x e d)
]

abbrev without : Text → List Text → List Text
without x [] = []
without x (y ∷ ys) = let rest = without x ys in if same x y then ys else y ∷ rest

length-without :
    (x : Text) (ys : List Text) → member x ys ≡ true → length ys ≡ suc (length (without x ys))
length-without x [] h = cc
length-without x (y ∷ ys) h = elim (Bool-cases (same x y)) [
  | inl e ↦ rw e refl
  | inr e ↦ rw e (ap suc (length-without x ys (ap (λ b. b || member x ys) (sym e) ∙ h)))
]

member-without :
    (z x : Text) (ys : List Text) → same z x ≡ false → member z (without x ys) ≡ member z ys
member-without z x [] n = refl
member-without z x (y ∷ ys) n = elim (Bool-cases (same x y)) [
  | inl e ↦ rw e (ap (λ b. b || member z ys) (sym n ∙ ap (same z) (same-eq x y e)))
  | inr e ↦ rw e (ap (λ b. same z y || b) (member-without z x ys n))
]

pub Within-all :
    (xs ys : List Text) → Nodup xs → Within xs ys → length xs ≡ length ys → Within ys xs
Within-all [] [] d w n z h = h
Within-all [] (y ∷ ys) d w n z h = ground (arith, n)
Within-all (x ∷ xs) ys (fresh, d) w n z h = elim (Bool-cases (same z x)) [
  | inl e ↦ ap (λ b. b || member z xs) e
  | inr e ↦
      let there = w x (ap (λ b. b || member x xs) (same_refl x)) in
      let inner : Within xs (without x ys) =
        λ y m. member-without y x ys (other y m) ∙ w y (or_right (same y x) (member y xs) m) in
      let shorter : length xs ≡ length (without x ys) =
        omega (arith, n, length-without x ys there) in
      or_right (same z x) (member z xs)
        (Within-all xs (without x ys) d inner shorter z (member-without z x ys e ∙ h))
]
  where
    or_right : (a b : Bool) → b ≡ true → (a || b) ≡ true
    or_right true b h = refl
    or_right false b h = h

    other : (y : Text) → member y xs ≡ true → same y x ≡ false
    other y m = elim (Bool-cases (same y x)) [
      | inl e ↦ let g : true ≡ false = sym m ∙ ap (λ t. member t xs) (same-eq y x e) ∙ fresh in cc
      | inr e ↦ e
    ]
