-- ===== src/Walk/Clear.antt =====
-- `clear_graph_in_batches` of src/spo_events.rs, on fuel that the graph's size bounds.
use git_lex.Base.{
  ℕ, zero, suc, ◌<◌, ◌≡◌, refl, Option, none, some, List, [], ◌∷◌, false, Result, ok, err, arith,
}
use git_lex.Text.{Text}
use git_lex.Walk.{GraphStore}

-- `batch_quads.max(1)`
abbrev pub at_least_one : ℕ → ℕ
at_least_one zero = 1
at_least_one (suc n) = suc n

module _ {S E : Type 0} (graph : GraphStore S E) where
  abbrev pub after_removal : Result E S → (S → Option (Result E S)) → Option (Result E S)
  after_removal (err e) next = some (err e)
  after_removal (ok s) next = next s

  abbrev pub clear_round :
      S → Result E (List Text) → (S → Option (Result E S)) → Option (Result E S)
  clear_round s (err e) next = some (err e)
  clear_round s (ok []) next = some (ok s)
  clear_round s (ok (q ∷ qs)) next = after_removal (graph.remove_quads (q ∷ qs) s) next

  unfoldable pub clear_loop : ℕ → ℕ → S → Option (Result E S)
  clear_loop zero batch s = none
  clear_loop (suc fuel) batch s =
      clear_round s (graph.some_quads batch s) (λ s. clear_loop fuel batch s)

  unfoldable pub clear_graph_in_batches : S → ℕ → Option (Result E S)
  unfolding clear_loop
  clear_graph_in_batches s batch_quads =
      clear_loop (suc (graph.size s)) (at_least_one batch_quads) s

  abbrev pub IsEmptied : Result E S → Type 0
  IsEmptied (err e) = Unit
  IsEmptied (ok s) = (q : Text) → graph.holds q s ≡ false

  -- A finished clearing gives an error, or a store where the graph is empty.
  abbrev pub IsCleared : Option (Result E S) → Type 0
  IsCleared o = (r : Result E S) × (o ≡ some r) × IsEmptied r

  -- `next` clears every smaller store.
  removal-IsCleared :
      (n : ℕ) (next : S → Option (Result E S)) (r : Result E S)
      → ((t : S) → graph.size t < n → IsCleared (next t))
      → ((t : S) → r ≡ ok t → graph.size t < n)
      → IsCleared (after_removal r next)
  removal-IsCleared n next (err e) ih less = (err e, refl, tt)
  removal-IsCleared n next (ok t) ih less = ih t (less t refl)

  round-IsCleared :
      (batch : ℕ) (s : S) (next : S → Option (Result E S)) (r : Result E (List Text))
      → ((t : S) → graph.size t < graph.size s → IsCleared (next t))
      → graph.some_quads (suc batch) s ≡ r
      → IsCleared (clear_round s r next)
  round-IsCleared batch s next (err e) ih k = (err e, refl, tt)
  round-IsCleared batch s next (ok []) ih k = (ok s, refl, λ q. graph.none_law batch s q k)
  round-IsCleared batch s next (ok (q ∷ qs)) ih k =
      removal-IsCleared (graph.size s) next (graph.remove_quads (q ∷ qs) s) ih
        (λ t f. graph.shrink_law (suc batch) q qs s t k f)

  clear_loop-IsCleared :
      (fuel batch : ℕ) (s : S) → graph.size s < fuel → IsCleared (clear_loop fuel (suc batch) s)
  unfolding clear_loop
  clear_loop-IsCleared zero batch s h = absurd (omega (arith, h))
  clear_loop-IsCleared (suc fuel) batch s h =
      round-IsCleared batch s (λ s. clear_loop fuel (suc batch) s) (graph.some_quads (suc batch) s)
        (λ t less. clear_loop-IsCleared fuel batch t (omega (arith, less, h))) refl

  -- Clearing a graph ends, whatever the batch size, also at zero; when no call fails, no quad of the
  -- graph is left.
  pub clear_graph_in_batches-IsCleared :
      (s : S) (batch_quads : ℕ) → IsCleared (clear_graph_in_batches s batch_quads)
  unfolding clear_graph_in_batches
  clear_graph_in_batches-IsCleared s zero =
      clear_loop-IsCleared (suc (graph.size s)) 0 s (omega arith)
  clear_graph_in_batches-IsCleared s (suc n) =
      clear_loop-IsCleared (suc (graph.size s)) n s (omega arith)
