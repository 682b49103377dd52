-- ===== src/Tests/Cache.antt =====
-- The theorems on the cache of db.go, at small inputs.
use dqlited.Base.{◌+◌, ◌∷◌, ℕ, ◌≡◌, ◌≢◌, refl, true, [], codes, Option, none, some}
use dqlited.Text.{equal}
use dqlited.Go.{ok, value, Message}
use dqlited.Client.{KeyPair}
use dqlited.Cache.{Driver, Pool, Connection, lookup, set_up, get_db, new_connection, close}
use dqlited.Cache.Reopen.{reopen-ne-ok}
use dqlited.Cache.Sharing.{shared_close}
use dqlited.Tests.World.{remote, driver, Net, empty_pool, net, registry}

abbrev pair : Option KeyPair
pair = some (record { cert = codes "c.pem"; key = codes "k.pem" })

abbrev dx : Connection ℕ
dx = record { db = 4; name = codes "db" }

reopen-ne-ok_example :
    (new_connection remote driver none
      (codes "other")
      []
      (close remote driver dx (new_connection remote driver pair (codes "db") [] empty_pool).1).1).0
    ≢ ok dx
unfolding new_connection get_db lookup set_up equal
reopen-ne-ok_example =
    reopen-ne-ok remote driver (λ w. w.registered ≡ true) registry pair none (codes "db")
      (codes "other") [] [] net dx dx refl

-- Each database is a number of its own, and the closings are counted.
abbrev numbering : Driver Net Message ℕ
numbering = record driver {
  open_database = λ name w. (value w.opened, record w { opened = w.opened + 1 });
  close_database = λ db w. (value tt, record w { closed = w.closed + 1 });
}

abbrev two_open : Pool Net ℕ
two_open = record {
  cache = (codes "db", 1) ∷ (codes "log", 0) ∷ [];
  world = record { opened = 2; closed = 0; registered = true };
}

shared_close_example :
    let own : Connection ℕ = record { db = 1; name = codes "db" } in
    let first = new_connection remote numbering none (codes "db") [] two_open in
    let second = new_connection remote numbering none (codes "db") [] first.1 in
    let third =
      new_connection remote numbering none
        (codes "db")
        []
        (close remote numbering own second.1).1 in
    let behind = (close remote numbering own third.1).1 in
    (first.0 ≡ ok own)
    × (second.0 ≡ ok own)
    × (third.0 ≡ ok (record { db = 2; name = codes "db" }))
    × (behind.world ≡ record { opened = 3; closed = 2; registered = true })
    × (lookup (codes "db") behind.cache ≡ none)
unfolding lookup equal
shared_close_example =
    shared_close remote numbering none (codes "db") (codes "log") [] two_open 1 0 2
      (record { opened = 3; closed = 1; registered = true }) refl (λ p. cc) refl refl
