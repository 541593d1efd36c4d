-- ===== src/Tests/Gitlexd.antt =====
-- The ticket loop on a concrete run.
use git_lex.Base.{◌≤◌, ◌≡◌, refl, true, false, arith}
use git_lex.Daemon.Tickets.{
  Soul, Reach, Resolves, fresh, ask, notify, take, stay, load, start, finish, send, rest, here,
  next, exited, waiting,
}
use git_lex.Daemon.Tickets.Served.{Ended, Resolves-Ended}
use git_lex.Daemon.Tickets.Rest.{waiting-Resolves}

-- One request, served.
ran :
    (s : Soul) × Reach fresh s
    × (s.phase ≡ waiting)
    × (s.notified ≡ false)
    × (s.announcing ≡ 0)
    × (1 ≤ s.completed)
    × (1 ≤ s.requested)
ran = (
  _,
  next
      (next
        (next
          (next
            (next
              (next (next (next (next here (ask fresh)) (notify _ 0 refl)) (take _ refl refl))
                (stay _ refl refl))
              (load _ refl))
            (start _ 1 refl refl))
          (finish _ 1 refl))
        (send _ 1 refl))
      (rest _ 1 refl (omega arith)),
  refl,
  refl,
  refl,
  omega arith,
  omega arith,
)

Resolves-Ended_example : Ended 1 (ran.0).trace
Resolves-Ended_example = Resolves-Ended ran.0 1 ran.1 (omega arith) ran.5

waiting-Resolves_example : Resolves 1 ran.0
waiting-Resolves_example = waiting-Resolves ran.0 1 ran.1 ran.2 ran.3 ran.4 ran.6

abbrev dropped : Soul
dropped = record fresh { requested = 1; gone = true; phase = exited }
