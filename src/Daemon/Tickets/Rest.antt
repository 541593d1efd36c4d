-- ===== src/Daemon/Tickets/Rest.antt =====
-- The waiting loop of a soul and the requests that it has answered.
use mathlib.Core.Path.{subst}
use git_lex.Base.{ℕ, ◌<◌, ◌≤◌, ◌≡◌, refl, ◌∙◌, ◌⊎◌, inl, inr, true, false, arith}
use git_lex.Daemon.Tickets.{
  Phase, waiting, woken, sent, Soul, fresh, Step, ask, notify, forget, vanish, take, leave, stay,
  load, start, skip, finish, send, again, rest, Reach, here, next, Resolves,
}

-- Resting with no permit and no notifier on its way, the loop has answered every ticket.
abbrev Rests : Phase → Soul → Type 0
Rests waiting s = (s.requested ≤ s.completed) ⊎ (s.notified ≡ true) ⊎ (0 < s.announcing)
Rests (sent t) s = s.completed ≡ t
Rests _ s = Unit

-- The permit, the notifiers and the counters after a step that wakes the loop.
Rests-awake :
    (p : Phase) (s u : Soul)
    → u.completed ≡ s.completed
    → (0 < u.announcing) ⊎ (u.notified ≡ true)
    → Rests p s
    → Rests p u
Rests-awake waiting s u c (inl a) h = inr (inr a)
Rests-awake waiting s u c (inr n) h = inr (inl n)
Rests-awake (sent t) s u c a h = c ∙ h
Rests-awake woken s u c a h = tt
Rests-awake _ s u c a h = tt

Step-Rests : {s u : Soul} → Step s u → Rests s.phase s → Rests u.phase u
Step-Rests (ask s) h = Rests-awake s.phase s _ refl (inl (omega arith)) h
Step-Rests (notify s n e) h = Rests-awake s.phase s _ refl (inr refl) h
Step-Rests (forget s) h = Rests-awake s.phase s _ refl (inl (omega arith)) h
Step-Rests (vanish s) h = same_counters s.phase h
  where
    same_counters : (p : Phase) → Rests p s → Rests p (record s { lex = false })
    same_counters waiting k = k
    same_counters (sent t) k = k
    same_counters _ k = tt
Step-Rests (take s p e) h = tt
Step-Rests (leave s p e) h = tt
Step-Rests (stay s p e) h = tt
Step-Rests (load s p) h = tt
Step-Rests (start s t p e) h = tt
Step-Rests (skip s t p e) h = tt
Step-Rests (finish s t p) h = tt
Step-Rests (send s t p) h = refl
Step-Rests (again s t p e) h = tt
Step-Rests (rest s t p e) h =
    let c : s.completed ≡ t = subst (λ q. Rests q s) p h in inl (omega arith)

Reach-Rests : {s : Soul} → Reach fresh s → Rests s.phase s
Reach-Rests here = inl (omega arith)
Reach-Rests (next r st) = Step-Rests st (Reach-Rests r)

-- A loop that waits, with no permit and no notifier on its way, has answered every ticket: no
-- wake-up is lost between the last look at the counter and the wait.
pub waiting-Resolves :
    (s : Soul) (ticket : ℕ)
    → Reach fresh s
    → s.phase ≡ waiting
    → s.notified ≡ false
    → s.announcing ≡ 0
    → ticket ≤ s.requested
    → Resolves ticket s
waiting-Resolves s ticket r p n a le = answered (subst (λ q. Rests q s) p (Reach-Rests r))
  where
    answered : Rests waiting s → Resolves ticket s
    answered (inl all) = omega arith
    answered (inr (inl permit)) = cc
    answered (inr (inr notifier)) = absurd (omega arith)
