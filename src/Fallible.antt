-- ===== src/Fallible.antt =====
-- The `?` operator on the program's results, and what a success says of the parts.
use git_lex.Base.{◌≡◌, refl, Result, ok, err}

module _ {E A B : Type 0} where
  -- `let a = r?; f(a)`
  abbrev pub and_then : Result E A → (A → Result E B) → Result E B
  and_then (err e) f = err e
  and_then (ok a) f = f a

  pub and_then-ok :
      (r : Result E A) (f : A → Result E B) (b : B)
      → and_then r f ≡ ok b
      → (a : A) × (r ≡ ok a) × (f a ≡ ok b)
  and_then-ok (ok a) f b h = (a, refl, h)
  and_then-ok (err e) f b h = cc

pub ok-eq : {E A : Type 0} → (a b : A) → ◌≡◌ {A = Result E A} (ok a) (ok b) → a ≡ b
ok-eq a b h = cc
