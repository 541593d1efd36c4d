-- ===== src/Daemon/Souls.antt =====
-- The souls that gitlexd holds (src/gitlexd/daemon.rs: `open` (here `open_all`), `forget`, `adopt`, `refresh` and
-- `find`). Parameters: `genesis_sha_at` asks git for a repository's first commit, `open_existing`
-- opens its store. What is only logged is left out.
pub mod Distinct
pub mod Complete
use git_lex.Base.{
  ℕ, suc, ◌+◌, Bool, true, false, not, Option, none, some, List, [], ◌∷◌, ◌++◌, map, Result, ok,
  err, any, keep,
}
use git_lex.Text.{Text, same, starts_with}

pub record RegistryEntry : Type 0 where
  pub path : Text
  pub genesis : Option Text

pub record Soul (Store E : Type 0) : Type 0 where
  pub genesis : Text
  pub path : Text
  pub store : Option Store
  pub open_error : Option E

pub data FindError : Type 0 where
  not_found : FindError
  ambiguous : List Text → FindError

module _ {Store E : Type 0} where
  -- `forget` takes the first soul of that genesis off the list.
  unfoldable pub forget : Text → List (Soul Store E) → Option (Soul Store E) × List (Soul Store E)
  forget genesis [] = (none, [])
  forget genesis (s ∷ souls) =
      let (found, rest) = forget genesis souls in
      elim (same s.genesis genesis) [ true ↦ (some s, souls) | false ↦ (found, s ∷ rest) ]

  abbrev found_one : List (Soul Store E) → Result FindError (Soul Store E)
  found_one [] = err FindError.not_found
  found_one (one ∷ []) = ok one
  found_one (a ∷ b ∷ many) = err (FindError.ambiguous (map (λ s. s.genesis) (a ∷ b ∷ many)))

  unfoldable pub find : Text → List (Soul Store E) → Result FindError (Soul Store E)
  find prefix souls = found_one (keep (λ s. starts_with prefix s.genesis) souls)

  abbrev pub holds : Text → List (Soul Store E) → Bool
  holds genesis souls = any (λ s. same s.genesis genesis) souls

module _ {Store E : Type 0} (genesis_sha_at : Text → Option Text)
    (open_existing : Text → Result E (Option Store)) where
  abbrev or_else : Option Text → Option Text → Option Text
  or_else none b = b
  or_else (some a) b = some a

  unfoldable pub genesis_of : RegistryEntry → Option Text
  genesis_of entry = or_else entry.genesis (genesis_sha_at entry.path)

  abbrev pub opened : Text → Text → Result E (Option Store) → Soul Store E
  opened genesis path (ok store) = record {
    genesis = genesis;
    path = path;
    store = store;
    open_error = none;
  }
  opened genesis path (err e) = record {
    genesis = genesis;
    path = path;
    store = none;
    open_error = some e;
  }

  abbrev pub adopt_as :
      Option Text
      → RegistryEntry
      → List (Soul Store E)
      → Option (Soul Store E) × List (Soul Store E)
  adopt_as none entry souls = (none, souls)
  adopt_as (some genesis) entry souls = elim (holds genesis souls) [
    | true ↦ (none, souls)
    | false ↦
        let soul = opened genesis entry.path (open_existing entry.path) in
        (some soul, souls ++ soul ∷ [])
  ]

  -- The soul that joined, if one did, and the souls held.
  unfoldable pub adopt :
      RegistryEntry → List (Soul Store E) → Option (Soul Store E) × List (Soul Store E)
  unfolding genesis_of
  adopt entry souls = adopt_as (genesis_of entry) entry souls

  unfoldable pub open_all : List RegistryEntry → List (Soul Store E) → List (Soul Store E)
  unfolding adopt
  open_all [] souls = souls
  open_all (entry ∷ entries) souls = let (_, souls) = adopt entry souls in open_all entries souls

  abbrev pub is_held : List Text → Option Text → Bool
  is_held held none = false
  is_held held (some g) = any (λ h. same h g) held

  abbrev pub count_joined : Option (Soul Store E) → ℕ → ℕ
  count_joined none n = n
  count_joined (some _) n = n + 1

  unfoldable pub refresh_loop :
      List Text → List RegistryEntry → ℕ → List (Soul Store E) → ℕ × List (Soul Store E)
  unfolding adopt genesis_of
  refresh_loop held [] joined souls = (joined, souls)
  refresh_loop held (entry ∷ entries) joined souls = elim (is_held held (genesis_of entry)) [
    | true ↦ refresh_loop held entries joined souls
    | false ↦
        let (soul, souls) = adopt entry souls in
        refresh_loop held entries (count_joined soul joined) souls
  ]

  unfoldable pub refresh : List RegistryEntry → List (Soul Store E) → ℕ × List (Soul Store E)
  unfolding refresh_loop
  refresh entries souls = refresh_loop (map (λ s. s.genesis) souls) entries 0 souls
