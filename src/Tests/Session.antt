-- ===== src/Tests/Session.antt =====
-- The theorems on the one-shot commands and the cache, at small inputs.
use dqlited.Base.{ℕ, ◌≡◌, refl, true, false, [], ◌∷◌, Bytes, codes, none}
use dqlited.Text.{equal}
use dqlited.Go.{ok}
use dqlited.Cache.{Connection, Pool, lookup, set_up, get_db, new_connection, close}
use dqlited.Cache.Entries.{IsUpdated, set_entry, cache-IsUpdated}
use dqlited.Session.{db_cmd, db_file, db_report}
use dqlited.Session.Closing.{Forgot, one_shot-Forgot, db_report_keeps_closed}
use dqlited.Tests.World.{remote, driver, net, Net, quiet_host, disk, process}

abbrev name : Bytes
name = codes "db"

abbrev pool : Pool Net ℕ
pool = record { cache = (codes "other", 9) ∷ []; world = net }

abbrev dx : Connection ℕ
dx = record { db = 4; name = codes "db" }

one_shot-Forgot_example :
    Forgot remote driver quiet_host disk none name [] process
      (db_cmd remote driver quiet_host disk none name [] true false (codes "SELECT 1") process).1
    × Forgot remote driver quiet_host disk none name [] process
        (db_file remote driver quiet_host disk none (codes "f") name true [] process).1
one_shot-Forgot_example =
    one_shot-Forgot remote driver quiet_host disk none name [] process true false true
      (codes "SELECT 1") (codes "f")

db_report_keeps_closed_example :
    let q =
      (db_report remote driver quiet_host disk none (codes "f") name true false [] process).1 in
    (((new_connection remote driver none name [] q.pool).0 ≡ ok dx)
      × ((new_connection remote driver none name [] q.pool).1 ≡ q.pool))
    × ((w : Net) × (q.pool.world ≡ (driver.close_database 4 w).1))
unfolding new_connection get_db lookup set_up equal
db_report_keeps_closed_example =
    db_report_keeps_closed remote driver quiet_host disk none name [] process dx refl none []
      (codes "f") true false

cache-IsUpdated_example :
    IsUpdated remote driver name pool.cache
      (get_db remote driver none name [] pool).0
      (get_db remote driver none name [] pool).1.cache
    × ((key : Bytes)
        → lookup key (close remote driver dx pool).1.cache
          ≡ set_entry (codes "db") none pool.cache key)
cache-IsUpdated_example = cache-IsUpdated remote driver none name [] pool dx
