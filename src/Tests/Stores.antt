-- ===== src/Tests/Stores.antt =====
-- gitlexd's store swap, its souls and its gate at concrete inputs.
use git_lex.Base.{ℕ, ◌≡◌, refl, ◌⊎◌, true, false, [], ◌∷◌, Option, none, some, Result, ok, any}
use git_lex.Text.{Text, codes, same}
use git_lex.Daemon.Swap.{Disk, Content, State, Stage, Step, Reach, open_existing}
use git_lex.Daemon.Swap.Crash.{open_existing-Reach, IsSound}
use git_lex.Daemon.Souls as Souls
use git_lex.Daemon.Souls.{Soul, RegistryEntry, find, forget, refresh, holds, adopt}
use git_lex.Daemon.Souls.Distinct as Distinct
use git_lex.Daemon.Souls.Distinct.{IsDistinct, Reach-IsDistinct, find-held, forget_gone}
use git_lex.Daemon.Souls.Complete.{refresh-holds, refresh_twice}
use git_lex.Daemon.Http.{Request, readable, to_str, local_only, own_hosts, or_empty}
use git_lex.Daemon.Http.Local.{local_only-IsTrusted, IsTrusted, reaches_route}

-- A soul at version 7 whose worker has finished version 8, between the two renames.
abbrev torn_apart : State
torn_apart = record {
  disk = record { live = none; next = some (Content.whole 8); prev = some (Content.whole 7) };
  stage = Stage.landing;
  kept = some 7;
  made = 8;
}

torn_apart-IsSound : IsSound torn_apart
torn_apart-IsSound = (refl, refl, refl)

open_existing-Reach_example :
    ((open_existing torn_apart.disk).1 ≡ ok (some 7))
    ⊎ ((open_existing torn_apart.disk).1 ≡ ok (some 8))
open_existing-Reach_example =
    open_existing-Reach torn_apart (record torn_apart { stage = Stage.down }) torn_apart-IsSound
      (Reach.next Reach.here (Step.die torn_apart))

abbrev finished : Disk
finished = record { live = some (Content.whole 7); next = some (Content.whole 8); prev = none }

abbrev no_git : Text → Option Text
no_git _ = none

abbrev empty_store : Text → Result ℕ (Option ℕ)
empty_store _ = ok none

abbrev ada_entry : RegistryEntry
ada_entry = record { path = codes "/ada"; genesis = some (codes "aa") }

abbrev bob_entry : RegistryEntry
bob_entry = record { path = codes "/bob"; genesis = some (codes "bb") }

abbrev bob : Soul ℕ ℕ
bob = record { genesis = codes "bb"; path = codes "/bob"; store = none; open_error = none }

abbrev ada : Soul ℕ ℕ
ada = record { genesis = codes "aa"; path = codes "/ada"; store = none; open_error = none }

both_held : Distinct.Reach no_git empty_store (ada ∷ bob ∷ [])
unfolding adopt
both_held =
    Distinct.Reach.adopted bob_entry (ada ∷ [])
      (Distinct.Reach.adopted ada_entry [] Distinct.Reach.none_held)

Reach-IsDistinct_example : IsDistinct (ada ∷ bob ∷ [])
Reach-IsDistinct_example = Reach-IsDistinct no_git empty_store (ada ∷ bob ∷ []) both_held

refresh-holds_example :
    holds (codes "bb") (refresh no_git empty_store (ada_entry ∷ bob_entry ∷ []) (ada ∷ [])).1 ≡ true
unfolding Souls.genesis_of
refresh-holds_example =
    refresh-holds no_git empty_store (ada_entry ∷ []) [] bob_entry (ada ∷ []) (codes "bb") refl

abbrev answer : ℕ
answer = 5

abbrev page : Request
page = record {
  host = some (readable (codes "localhost:7880"));
  origin = some (readable (codes "http://localhost:3000"));
  is_options = false;
}

page_reaches : reaches_route answer (local_only answer page) ≡ true
unfolding local_only git_lex.Daemon.Http.is_local_host git_lex.Daemon.Http.is_local_origin
    git_lex.Text.is_digit git_lex.Text.Split.split_once
page_reaches = refl

local_only-IsTrusted_example :
    (any (λ h. same h (or_empty (to_str page.host))) own_hosts ≡ true)
    × IsTrusted answer page.origin
local_only-IsTrusted_example = local_only-IsTrusted answer page page_reaches

refresh_twice_example :
    refresh no_git empty_store
      (bob_entry ∷ [])
      (refresh no_git empty_store (bob_entry ∷ []) (ada ∷ [])).1
    ≡ (0, (refresh no_git empty_store (bob_entry ∷ []) (ada ∷ [])).1)
refresh_twice_example = refresh_twice no_git empty_store (bob_entry ∷ []) (ada ∷ [])
