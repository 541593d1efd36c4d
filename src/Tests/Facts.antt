-- ===== src/Tests/Facts.antt =====
-- Conditions on concrete texts, by a Boolean test.
use git_lex.Base.{ℕ, ◌≡◌, Bool, true, not, List, [], ◌∷◌, all, All, ◌==◌, arith}
use git_lex.Text.{Text}
use git_lex.Text.Split.{Lacks}

pub Lacks-of : (sep : ℕ) (s : Text) → all (λ c. not (c == sep)) s ≡ true → Lacks sep s
Lacks-of sep [] h = tt
Lacks-of sep (c ∷ s) h = (ground arith, Lacks-of sep s (ground arith))

pub All-of {ℓ κ} :
    {A : Type ℓ} (P : A → Type κ) (p : A → Bool)
    → ((x : A) → p x ≡ true → P x)
    → (xs : List A) → all p xs ≡ true
    → All P xs
All-of P p f [] h = tt
All-of P p f (x ∷ xs) h = (f x (ground arith), All-of P p f xs (ground arith))
