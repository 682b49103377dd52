-- ===== src/Tests/Loading.antt =====
-- The theorems on the goroutines of a load, on what a load says, and on dumps, at small inputs.
use dqlited.Base.{
  false, Option, some, none, ◌+◌, ◌*◌, ◌≡◌, ◌≤◌, ◌⊎◌, refl, true, List, [], ◌∷◌, Bytes, codes,
  length, if◌then◌else◌, arith, ℕ,
}
use dqlited.Text.{equal}
use dqlited.Go.{ok, fail, value, error, Message}
use dqlited.Db.Transact.{transact}
use dqlited.Db.Transact.Ends.{Runs}
use dqlited.Db.Transact.Feeding.{
  Feed, offering, left, closed, begin_value, pass, scan_end, close_channel, exec_value, range_end,
  commit, close_file, Run, here, next, scan, started,
}
use dqlited.Db.Transact.Feeding.Refines.{GoesOn, Agrees, feeding-transact}
use dqlited.Db.Transact.Feeding.Leaks.{IsBlocked, liner_leaks}
use dqlited.Client.{Remote, File, get_leader}
use dqlited.Dump.{db_dump, old_db_dump}
use dqlited.Dump.Files.{IsDirectory, OnSuccess, db_dump-written}
use dqlited.Cache.{lookup, set_up, get_db, new_connection}
use dqlited.Commands.{exit_code, load_command}
use dqlited.Commands.Loading.{load_silent}
use dqlited.Tests.World.{busy, result}
use dqlited.Tests.Store.{
  Store, store_host, store_host-IsDatabase, store, store_disk, store_driver, store_remote,
  store_process,
}

-- Both goroutines are done with a file of one line, but for its closing by the goroutine of `liner`.
abbrev fed : Feed Store Message
fed = record {
  producer = closed;
  consumer = left (ok tt);
  world = record { contents = codes "b" ∷ codes "a" ∷ []; view = codes "b" ∷ codes "a" ∷ [] };
  open_file = false;
}

abbrev feeding : Run store_host (started (codes "b" ∷ []) store.world) 9 fed
unfolding equal
feeding =
    next
      (next
        (next
          (next
            (next
              (next
                (next
                  (next (next here (scan (codes "b") [] refl refl))
                    (begin_value 7 (record store.world { view = codes "a" ∷ [] }) refl refl refl))
                  (pass 7 (codes "b") [] refl refl refl))
                (scan_end refl refl))
              (close_channel refl refl))
            (exec_value 7 (codes "b") (record store.world { view = codes "b" ∷ codes "a" ∷ [] })
              result refl refl refl))
          (range_end 7 tt refl refl))
        (commit 7 refl refl))
      (close_file (ok tt) refl refl)

feeding-transact_example :
    (9 ≤ 4 * length (codes "b" ∷ []) + 7)
    × GoesOn store_host fed
    × Agrees store_host fed.consumer fed.world
        (transact store_host (codes "b" ∷ []) store).0
        (transact store_host (codes "b" ∷ []) store).1.world
feeding-transact_example = feeding-transact store_host (codes "b" ∷ []) store feeding

liner_leaks_example :
    (t : Feed Store Message) × (k : ℕ) × Run store_host
      (started ([] ∷ codes "c" ∷ []) store.world)
      k
      t
    × (t.consumer ≡ left (fail busy))
    × (t.producer ≡ offering (codes "c") [])
    × IsBlocked store_host t
unfolding equal
liner_leaks_example =
    liner_leaks store_host 7 [] [] (codes "c") [] store.world
      (record store.world { view = codes "a" ∷ [] }) (record store.world { view = codes "a" ∷ [] })
      (record store.world { view = codes "a" ∷ [] }) busy refl Runs.nil refl

load_silent_example :
    let r =
      load_command store_remote store_driver
        (λ db. store_host)
        store_disk
        (codes "f")
        (codes "db")
        true
        []
        store_process in
    (exit_code r.0 ≡ 0)
    × ((r.1.pool.world.contents ≡ codes "c" ∷ codes "b" ∷ codes "a" ∷ [])
        ⊎ (r.1.pool.world.contents ≡ codes "a" ∷ []))
unfolding new_connection get_db lookup set_up equal
load_silent_example =
    load_silent store_remote store_driver (λ db. store_host) store_disk (λ w. w.contents)
      (λ tx w. w.view) (λ q c. q ∷ c) (codes "db") [] store_process
      (record { db = 4; name = codes "db" })
      (record { lines = codes "b" ∷ codes "c" ∷ []; stopped_by = some busy }) store.world
      (codes "f") (λ p. cc) refl refl store_host-IsDatabase (λ w. refl)

-- The file of a name in a directory, whose newest entries stand first.
stored : Bytes → List File → Option Bytes
stored key [] = none
stored key (file ∷ files) = if equal file.name key then some file.contents else stored key files

-- The leader sends two files of one name.
abbrev sent : List File
sent =
    record { name = codes "db"; contents = codes "x" }
    ∷ record { name = codes "db-wal"; contents = codes "y" }
    ∷ record { name = codes "db"; contents = codes "z" }
    ∷ []

abbrev directory_remote : Remote (List File) Message ℕ
directory_remote = record {
  errorf = λ m. m;
  wrap = λ m e. m;
  load_key_pair = λ a b w. (value tt, w);
  read_file = λ a w. (value [], w);
  append_certs = λ a. true;
  find_leader = λ tls peers w. (value 1, w);
  close = λ c w. w;
  leader = λ c w. (error busy, w);
  cluster = λ c w. (value [], w);
  assign = λ c id r w. (value tt, w);
  transfer = λ c id w. (value tt, w);
  remove = λ c id w. (value tt, w);
  add = λ c n w. (value tt, w);
  dump = λ c n w. (value sent, w);
  create = λ n w. (value tt, record { name = n; contents = [] } ∷ w);
  write = λ n d w. (value tt, record { name = n; contents = d } ∷ w);
}

directory_remote-IsDirectory : IsDirectory directory_remote stored
unfolding stored
directory_remote-IsDirectory = record {
  creates = λ name key w w' x. ground arith;
  writes = λ name key contents w w' x y. ground arith;
}

db_dump-written_example :
    let r = db_dump directory_remote none (codes "db") [] [] in
    let old = old_db_dump directory_remote none (codes "db") [] [] in
    OnSuccess r.0 (stored (codes "db") r.1) (some (codes "z"))
    × OnSuccess old.0 (stored (codes "db") old.1) (some (codes "z"))
unfolding get_leader equal
db_dump-written_example =
    db_dump-written directory_remote stored directory_remote-IsDirectory none (codes "db") [] [] []
      [] 1 sent refl refl (codes "db")
