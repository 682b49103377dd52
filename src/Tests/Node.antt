-- ===== src/Tests/Node.antt =====
-- The theorems on the server, at small inputs.
use dqlited.Base.{◌≤◌, ◌+◌, ◌≢◌, refl, codes, arith}
use dqlited.Text.{equal}
use dqlited.Node.Shutdown.{
  Serving, waiting, signalled, closed, sends, takes_requests, Reach, here, next, ask, arrive,
  signal, started, shutdown_stuck,
}
use dqlited.Node.Shutdown.Stops.{GoesOn, rest, more, shutdown_terminates}

-- Two requests ask for the end.
abbrev asked_twice : Serving
asked_twice = record { main = waiting; running = 0; sending = 2 }

asked_twice-Reach : Reach started asked_twice
unfolding takes_requests sends equal
asked_twice-Reach =
    next (next here (ask (codes "DELETE") refl refl refl)) (ask (codes "DELETE") refl refl refl)

shutdown_stuck_example : signalled ≢ closed
shutdown_stuck_example =
    shutdown_stuck {s = asked_twice} {t = record asked_twice { main = signalled }} asked_twice-Reach
      (omega arith) (next here (signal refl refl))

-- One request is in progress.
abbrev one_running : Serving
one_running = record { main = waiting; running = 1; sending = 0 }

shutdown_terminates_example :
    (1 ≤ 5 + 1) × GoesOn (record { main = signalled; running = 1; sending = 0 })
unfolding takes_requests
shutdown_terminates_example =
    shutdown_terminates {s = one_running} {t = record one_running { main = signalled }} {k = 1}
      (next here (arrive refl refl)) refl (more rest (signal refl refl) tt)
