-- ===== src/Daemon/Swap.antt =====
-- The store swap (src/gitlexd/daemon.rs: `swap_in`, `recover_swap`, `open_existing`, and the disk's
-- side of `sync_once` and `copy_store`), with a process that may die at any moment. A rename is
-- atomic; a directory that is written or removed is torn meanwhile.
pub mod Crash
use git_lex.Base.{
  ℕ, ◌≡◌, ◌≢◌, ◌⊎◌, Bool, true, false, not, ◌&&◌, Option, none, some, Result, ok, err,
  if◌then◌else◌,
}
use git_lex.Text.{is_some}

-- A store's directory: complete, in some version, or half written or half removed.
pub data Content : Type 0 where
  whole : ℕ → Content
  torn : Content

-- `store_path_at`, `store_next_dir` and `store_prev_dir`
pub data Place : Type 0 where
  live_dir next_dir prev_dir : Place

pub record Disk : Type 0 where
  pub live : Option Content
  pub next : Option Content
  pub prev : Option Content

abbrev pub get : Place → Disk → Option Content
get Place.live_dir d = d.live
get Place.next_dir d = d.next
get Place.prev_dir d = d.prev

abbrev pub put : Place → Option Content → Disk → Disk
put Place.live_dir c d = record d { live = c }
put Place.next_dir c d = record d { next = c }
put Place.prev_dir c d = record d { prev = c }

pub data RenameError : Type 0 where
  missing occupied : RenameError

abbrev pub is_there : Place → Disk → Bool
is_there p d = is_some (get p d)

abbrev pub remove_dir_all : Place → Disk → Disk
remove_dir_all p d = put p none d

-- A removal that the process dies in.
abbrev half_gone : Option Content → Option Content
half_gone none = none
half_gone (some _) = some Content.torn

abbrev pub tear : Place → Disk → Disk
tear p d = put p (half_gone (get p d)) d

abbrev pub move : Option Content → Option Content → Place → Place → Disk → Result RenameError Disk
move none _ a b d = err RenameError.missing
move (some c) (some _) a b d = err RenameError.occupied
move (some c) none a b d = ok (put a none (put b (some c) d))

abbrev pub rename : Place → Place → Disk → Result RenameError Disk
rename a b d = move (get a d) (get b d) a b d

-- The three changes of `swap_in`.
abbrev pub drop_prev : Disk → Disk
drop_prev d = remove_dir_all Place.prev_dir d

abbrev pub move_aside : Disk → Result RenameError Disk
move_aside d = elim (is_there Place.live_dir d) [
  | true ↦ rename Place.live_dir Place.prev_dir d
  | false ↦ ok d
]

abbrev pub land : Disk → Result RenameError Disk
land d = rename Place.next_dir Place.live_dir d

abbrev or_keep : Disk → Result RenameError Disk → Disk × Result RenameError (Unit {0})
or_keep d (ok d') = (d', ok tt)
or_keep d (err e) = (d, err e)

abbrev landing_on : Disk → Result RenameError Disk → Disk × Result RenameError (Unit {0})
landing_on d (err e) = (d, err e)
landing_on d (ok aside) = or_keep aside (land aside)

unfoldable pub swap_in : Disk → Disk × Result RenameError (Unit {0})
swap_in d = landing_on (drop_prev d) (move_aside (drop_prev d))

-- The three changes of `recover_swap`.
abbrev pub or_same : Disk → Result RenameError Disk → Disk
or_same d (ok d') = d'
or_same d (err e) = d

abbrev pub restore : Disk → Disk
restore d = elim (not (is_there Place.live_dir d) && is_there Place.prev_dir d) [
  | true ↦ or_same d (
      rename (if is_there Place.next_dir d then Place.next_dir else Place.prev_dir) Place.live_dir
        d)
  | false ↦ d
]

abbrev pub clear : Place → Disk → Disk
clear p d = elim (is_there Place.live_dir d) [ true ↦ remove_dir_all p d | false ↦ d ]

unfoldable pub recover_swap : Disk → Disk
recover_swap d = clear Place.prev_dir (clear Place.next_dir (restore d))

-- What is opened, after the recovery; opening a torn directory fails.
abbrev store_open : Option Content → Result (Unit {0}) (Option ℕ)
store_open none = ok none
store_open (some (Content.whole v)) = ok (some v)
store_open (some Content.torn) = err tt

unfoldable pub open_existing : Disk → Disk × Result (Unit {0}) (Option ℕ)
unfolding recover_swap
open_existing d = let d' = recover_swap d in (d', store_open d'.live)

-- Where a round of `sync_once` stands, or the start of the daemon.
pub data Stage : Type 0 where
  -- no round runs; the copy is about to be made; it is made; the worker writes it
  idle cleared copied : Stage
  -- the worker succeeded; `prev` is removed; the store is aside; the copy is in its place
  worked moving landing landed : Stage
  -- the worker failed, or the swap is over
  cleaning : Stage
  -- no process; the restart has put a store back
  down restored : Stage

pub record State : Type 0 where
  pub disk : Disk
  pub stage : Stage
  -- the version that is served, and the last one that a worker finished
  pub kept : Option ℕ
  pub made : ℕ

abbrev pub shown : Option ℕ → Option Content
shown none = none
shown (some v) = some (Content.whole v)

abbrev pub version_of : Option Content → Option ℕ
version_of (some (Content.whole v)) = some v
version_of _ = none

pub data Step : State → State → Type 0 where
  -- `copy_store`: `next` is removed, then written
  clear_next :
      (s : State)
      → s.stage ≡ Stage.idle
      → Step s (record s { disk = remove_dir_all Place.next_dir s.disk; stage = Stage.cleared })
  copying :
      (s : State)
      → s.stage ≡ Stage.cleared
      → Step s (record s { disk = put Place.next_dir (some Content.torn) s.disk })
  backed_up :
      (s : State)
      → s.stage ≡ Stage.cleared
      → Step s (record s { disk = put Place.next_dir s.disk.live s.disk; stage = Stage.copied })
  copy_failed : (s : State) → s.stage ≡ Stage.cleared → Step s (record s { stage = Stage.cleaning })
  -- the worker writes `next`, and finishes it in a new version or fails
  working :
      (s : State)
      → s.stage ≡ Stage.copied
      → Step s (record s { disk = put Place.next_dir (some Content.torn) s.disk })
  finish :
      (s : State) (v : ℕ)
      → s.stage ≡ Stage.copied
      → Step s (record s {
        disk = put Place.next_dir (some (Content.whole v)) s.disk;
        stage = Stage.worked;
        made = v;
      })
  fail : (s : State) → s.stage ≡ Stage.copied → Step s (record s { stage = Stage.cleaning })
  -- the soul was dropped while the worker ran
  gone : (s : State) → s.stage ≡ Stage.worked → Step s (record s { stage = Stage.cleaning })
  -- `swap_in`
  dropping :
      (s : State) → s.stage ≡ Stage.worked → Step s (record s { disk = tear Place.prev_dir s.disk })
  dropped :
      (s : State)
      → s.stage ≡ Stage.worked
      → Step s (record s { disk = drop_prev s.disk; stage = Stage.moving })
  aside :
      (s : State)
      → s.stage ≡ Stage.moving
      → Step s (record s { disk = or_same s.disk (move_aside s.disk); stage = Stage.landing })
  into_place :
      (s : State)
      → s.stage ≡ Stage.landing
      → Step s (record s {
        disk = or_same s.disk (land s.disk);
        stage = Stage.landed;
        kept = version_of (or_same s.disk (land s.disk)).live;
      })
  -- a rename that fails; `open_existing` moves back what is aside
  aside_failed : (s : State) → s.stage ≡ Stage.moving → Step s (record s { stage = Stage.landed })
  land_failed :
      (s : State)
      → s.stage ≡ Stage.landing
      → Step s (record s {
        disk = restore s.disk;
        stage = Stage.landed;
        kept = version_of (restore s.disk).live;
      })
  -- `open_existing` after the swap, and the end of `sync_once`
  reopened :
      (s : State)
      → s.stage ≡ Stage.landed
      → Step s (record s { disk = recover_swap s.disk; stage = Stage.cleaning })
  cleaning_up :
      (s : State) (p : Place)
      → s.stage ≡ Stage.cleaning
      → p ≢ Place.live_dir
      → Step s (record s { disk = tear p s.disk })
  cleaned :
      (s : State)
      → s.stage ≡ Stage.cleaning
      → Step s (record s {
        disk = remove_dir_all Place.prev_dir (remove_dir_all Place.next_dir s.disk);
        stage = Stage.idle;
      })
  -- the process dies; the next one runs `recover_swap`, and may die in it
  die : (s : State) → Step s (record s { stage = Stage.down })
  restart :
      (s : State)
      → s.stage ≡ Stage.down
      → Step s (record s {
        disk = restore s.disk;
        stage = Stage.restored;
        kept = version_of (restore s.disk).live;
      })
  recovering :
      (s : State) (p : Place)
      → s.stage ≡ Stage.restored
      → p ≢ Place.live_dir
      → is_there Place.live_dir s.disk ≡ true
      → Step s (record s { disk = tear p s.disk })
  recovered :
      (s : State)
      → s.stage ≡ Stage.restored
      → Step s (record s {
        disk = clear Place.prev_dir (clear Place.next_dir s.disk);
        stage = Stage.idle;
      })

pub data Reach (s : State) : State → Type 0 where
  here : Reach s s
  next : {t u : State} → Reach s t → Step t u → Reach s u
