-- ===== src/Daemon/Tickets.antt =====
-- `request_sync`, `wait_for` and `sync_loop` of one soul, with `sync_once` as its start and its end:
-- every atomic operation is one step, and the steps of all tasks interleave.
pub mod Served
pub mod Rest
use git_lex.Base.{ℕ, suc, ◌+◌, ◌<◌, ◌≤◌, ◌≡◌, ◌⊎◌, Bool, true, false, List, [], ◌∷◌}

-- Where `sync_loop` stands. The number is its local `target`.
pub data Phase : Type 0 where
  waiting woken ready exited : Phase
  loaded syncing synced sent : ℕ → Phase

-- What happened: a ticket was handed out, a sync started, finished, or was left out.
pub data Event : Type 0 where
  request : ℕ → Event
  started finished skipped : Event

pub record Soul : Type 0 where
  pub requested : ℕ
  pub completed : ℕ
  -- the permit that `wake` keeps
  pub notified : Bool
  -- tasks between their write and their `notify_one`
  pub announcing : ℕ
  pub gone : Bool
  -- `.lex/` is a directory
  pub lex : Bool
  pub phase : Phase
  -- the latest event first
  pub trace : List Event

abbrev pub fresh : Soul
fresh = record {
  requested = 0;
  completed = 0;
  notified = false;
  announcing = 0;
  gone = false;
  lex = true;
  phase = waiting;
  trace = [];
}

pub data Step : Soul → Soul → Type 0 where
  -- `requested.fetch_add(1)`: the ticket is the new count
  ask :
      (s : Soul)
      → Step s (record s {
        requested = s.requested + 1;
        announcing = s.announcing + 1;
        trace = request (s.requested + 1) ∷ s.trace;
      })
  -- `wake.notify_one()`
  notify :
      (s : Soul) (n : ℕ)
      → s.announcing ≡ n + 1
      → Step s (record s { announcing = n; notified = true })
  -- `forget`: `gone` is set, and a `notify_one` follows
  forget : (s : Soul) → Step s (record s { gone = true; announcing = s.announcing + 1 })
  -- `.lex/` is deleted by another program
  vanish : (s : Soul) → Step s (record s { lex = false })
  -- `wake.notified().await` returns
  take :
      (s : Soul)
      → s.phase ≡ waiting
      → s.notified ≡ true
      → Step s (record s { phase = woken; notified = false })
  leave : (s : Soul) → s.phase ≡ woken → s.gone ≡ true → Step s (record s { phase = exited })
  stay : (s : Soul) → s.phase ≡ woken → s.gone ≡ false → Step s (record s { phase = ready })
  -- `let target = requested.load()`
  load : (s : Soul) → s.phase ≡ ready → Step s (record s { phase = loaded s.requested })
  start :
      (s : Soul) (t : ℕ)
      → s.phase ≡ loaded t
      → s.gone ≡ false
      → Step s (record s { phase = syncing t; trace = started ∷ s.trace })
  -- `sync_once` returns at one of its two tests
  skip :
      (s : Soul) (t : ℕ)
      → s.phase ≡ loaded t
      → (s.gone ≡ true) ⊎ (s.lex ≡ false)
      → Step s (record s { phase = synced t; trace = skipped ∷ s.trace })
  finish :
      (s : Soul) (t : ℕ)
      → s.phase ≡ syncing t
      → Step s (record s { phase = synced t; trace = finished ∷ s.trace })
  -- `completed_tx.send(target)`
  send :
      (s : Soul) (t : ℕ) → s.phase ≡ synced t → Step s (record s { phase = sent t; completed = t })
  again :
      (s : Soul) (t : ℕ) → s.phase ≡ sent t → t < s.requested → Step s (record s { phase = ready })
  rest :
      (s : Soul) (t : ℕ)
      → s.phase ≡ sent t
      → s.requested ≤ t
      → Step s (record s { phase = waiting })

pub data Reach (s : Soul) : Soul → Type 0 where
  here : Reach s s
  next : {t u : Soul} → Reach s t → Step t u → Reach s u

-- `*rx.borrow() < ticket` is false: `wait_for(ticket)` returns.
abbrev pub Resolves : ℕ → Soul → Type 0
Resolves ticket s = ticket ≤ s.completed
