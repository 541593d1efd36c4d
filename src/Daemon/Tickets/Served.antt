-- ===== src/Daemon/Tickets/Served.antt =====
-- What has happened when a wait for a ticket returns.
use mathlib.Core.Path.{subst}
use native.Mathlib.Decide.{dec_le}
use git_lex.Base.{ℕ, ◌+◌, ◌<◌, ◌≤◌, ◌≡◌, ◌⊎◌, inl, inr, List, [], ◌∷◌, arith}
use git_lex.Daemon.Tickets.{
  Phase, waiting, loaded, syncing, synced, Event, request, started, finished, skipped, Soul, fresh,
  Step, ask, notify, forget, vanish, take, leave, stay, load, start, skip, finish, send, again,
  rest, Reach, here, next, Resolves,
}

-- Ticket `n` was handed out.
abbrev pub Asked : ℕ → List Event → Type 0
Asked n [] = ⊥
Asked n (request m ∷ tr) = (m ≡ n) ⊎ Asked n tr
Asked n (_ ∷ tr) = Asked n tr

-- A sync started after ticket `n` was handed out.
abbrev pub Begun : ℕ → List Event → Type 0
Begun n [] = ⊥
Begun n (started ∷ tr) = Asked n tr ⊎ Begun n tr
Begun n (_ ∷ tr) = Begun n tr

-- Such a sync finished, or the loop came to it and left it out for a soul that git-lex has left.
abbrev pub Ended : ℕ → List Event → Type 0
Ended n [] = ⊥
Ended n (finished ∷ tr) = Begun n tr ⊎ Ended n tr
Ended n (skipped ∷ tr) = Asked n tr ⊎ Ended n tr
Ended n (_ ∷ tr) = Ended n tr

-- What the loop knows at each place.
abbrev Knows : Phase → ℕ → List Event → Type 0
Knows (loaded t) asked tr = t ≤ asked
Knows (syncing t) asked tr = (t ≤ asked) × ((n : ℕ) → 0 < n → n ≤ t → Begun n tr)
Knows (synced t) asked tr = (t ≤ asked) × ((n : ℕ) → 0 < n → n ≤ t → Ended n tr)
Knows _ asked tr = Unit

record IsSound (s : Soul) : Type 0 where
  asked : (n : ℕ) → 0 < n → n ≤ s.requested → Asked n s.trace
  knows : Knows s.phase s.requested s.trace
  ended : (n : ℕ) → 0 < n → n ≤ s.completed → Ended n s.trace

Asked-more :
    (s : Soul)
    → IsSound s
    → (n : ℕ) → 0 < n
    → n ≤ s.requested + 1
    → Asked n (request (s.requested + 1) ∷ s.trace)
Asked-more s h n pos le = elim (dec_le n s.requested) [
  | yes old ↦ inr (h.asked n pos old)
  | no new ↦ inl (omega arith)
]

-- A new ticket keeps what the loop knows.
Knows-more :
    (p : Phase) (n : ℕ) (tr : List Event) → Knows p n tr → Knows p (n + 1) (request (n + 1) ∷ tr)
Knows-more (loaded t) n tr k = omega arith
Knows-more (syncing t) n tr (k, b) = (omega arith, b)
Knows-more (synced t) n tr (k, b) = (omega arith, b)
Knows-more waiting n tr k = tt
Knows-more _ n tr k = tt

Step-IsSound : {s u : Soul} → Step s u → IsSound s → IsSound u
Step-IsSound (ask s) h = record {
  asked = Asked-more s h;
  knows = Knows-more s.phase s.requested s.trace h.knows;
  ended = h.ended;
}
Step-IsSound (notify s n e) h = record { asked = h.asked; knows = h.knows; ended = h.ended }
Step-IsSound (forget s) h = record { asked = h.asked; knows = h.knows; ended = h.ended }
Step-IsSound (vanish s) h = record { asked = h.asked; knows = h.knows; ended = h.ended }
Step-IsSound (take s p e) h = record { asked = h.asked; knows = tt; ended = h.ended }
Step-IsSound (leave s p e) h = record { asked = h.asked; knows = tt; ended = h.ended }
Step-IsSound (stay s p e) h = record { asked = h.asked; knows = tt; ended = h.ended }
Step-IsSound (load s p) h = record { asked = h.asked; knows = omega arith; ended = h.ended }
Step-IsSound (start s t p e) h =
    let k : t ≤ s.requested = subst (λ q. Knows q s.requested s.trace) p h.knows in
    record {
      asked = h.asked;
      knows = (k, λ n pos le. inl (h.asked n pos (omega arith)));
      ended = h.ended;
    }
Step-IsSound (skip s t p e) h =
    let k : t ≤ s.requested = subst (λ q. Knows q s.requested s.trace) p h.knows in
    record {
      asked = h.asked;
      knows = (k, λ n pos le. inl (h.asked n pos (omega arith)));
      ended = λ n pos le. inr (h.ended n pos le);
    }
Step-IsSound (finish s t p) h =
    let k : Knows (syncing t) s.requested s.trace =
      subst (λ q. Knows q s.requested s.trace) p h.knows in
    record {
      asked = h.asked;
      knows = (k.0, λ n pos le. inl (k.1 n pos le));
      ended = λ n pos le. inr (h.ended n pos le);
    }
Step-IsSound (send s t p) h =
    let k : Knows (synced t) s.requested s.trace =
      subst (λ q. Knows q s.requested s.trace) p h.knows in
    record { asked = h.asked; knows = tt; ended = k.1 }
Step-IsSound (again s t p e) h = record { asked = h.asked; knows = tt; ended = h.ended }
Step-IsSound (rest s t p e) h = record { asked = h.asked; knows = tt; ended = h.ended }

Reach-IsSound : {s u : Soul} → IsSound s → Reach s u → IsSound u
Reach-IsSound h here = h
Reach-IsSound h (next r st) = Step-IsSound st (Reach-IsSound h r)

fresh-IsSound : IsSound fresh
fresh-IsSound = record {
  asked = λ n pos le. absurd (omega arith);
  knows = tt;
  ended = λ n pos le. absurd (omega arith);
}

-- However the tasks interleave, when a wait for a ticket returns, a sync that started after the
-- ticket was handed out has finished, or the loop reached that sync and left it out because the
-- soul is dropped or its `.lex/` is gone.
pub Resolves-Ended :
    (s : Soul) (ticket : ℕ) → Reach fresh s → 0 < ticket → Resolves ticket s → Ended ticket s.trace
Resolves-Ended s ticket r pos done = (Reach-IsSound fresh-IsSound r).ended ticket pos done
