-- ===== src/Tests/Atomic.antt =====
-- The theorems on transactions, and on files that are loaded, at small inputs.
use dqlited.Base.{some, refl, true, false, List, [], ◌∷◌, Bytes, codes, none, arith}
use dqlited.Text.{
  split, trim_space, trim_right_space, trim_left_space, is_space, starts_with, contains, equal,
}
use dqlited.Go.{value, error, Message, Host}
use dqlited.Db.{State}
use dqlited.Db.Transact.{transact}
use dqlited.Db.Transact.Atomic.{IsAtomic, transact-IsAtomic}
use dqlited.Db.Batch.{batch}
use dqlited.Db.Clean.{clean_text}
use dqlited.Db.Batch.Commands.{commands, kind, read_line, script}
use dqlited.Db.Batch.Commands.Transactions.{IsTally, Tallied, batch-Tallied}
use dqlited.Cache.{lookup, set_up, get_db, new_connection}
use dqlited.Session.{db_file}
use dqlited.Session.Loading.{AllOrNone, db_file-AllOrNone}
use dqlited.Db.Batch.Applies.{Applied}
use dqlited.Db.Batch.Applies.Scripts.{batch-Applied}
use dqlited.Tests.World.{dbx, busy, result, table}
use dqlited.Tests.Store.{
  store_host-IsSql, store_host, store_host-IsDatabase, store, store_disk, store_driver,
  store_remote, store_process,
}

transact-IsAtomic_example :
    let r = transact store_host (codes "b" ∷ [] ∷ []) store in
    IsAtomic store_host r.0 r.1.world
      ([] ∷ codes "b" ∷ codes "a" ∷ [])
      (codes "a" ∷ [])
      r.1.world.contents
transact-IsAtomic_example =
    transact-IsAtomic store_host (λ w. w.contents) (λ tx w. w.view) (λ q c. q ∷ c)
      store_host-IsDatabase (codes "b" ∷ [] ∷ []) store

-- The events of a database: a begin, a commit, and a rollback.
data Event : Type 0 where
  begun committed rolled_back : Event

-- Each statement fails but for queries.
abbrev journal : Host (List Event) Message
journal = record {
  errorf = λ m. m;
  wrap = λ m e. m;
  driver_code = λ e. none;
  exec_context = λ ctx q w. (value result, w);
  query = λ q w. (value (record { head = table; rest = [] }), w);
  begin = λ w. (value 7, begun ∷ w);
  tx_exec = λ tx q w. (error busy, w);
  tx_commit = λ tx w. (value tt, committed ∷ w);
  tx_rollback = λ tx w. (value tt, rolled_back ∷ w);
  sleep = λ d w. w;
  tabulate = λ b t. t;
}

journal-IsTally : IsTally journal (λ w. w) (λ w. begun ∷ w) (λ w. committed ∷ w)
journal-IsTally = record {
  exec_keeps = λ q w. refl;
  query_keeps = λ q w. refl;
  sleep_keeps = λ d w. refl;
  tx_exec_keeps = λ tx q w. refl;
  begin_value = λ w w' tx x. ground arith;
  begin_error = λ w w' e x. ground arith;
  commit_value = λ tx w w' x. ground arith;
  commit_error = λ tx w w' e x. ground arith;
}

abbrev journal_script : Bytes
journal_script =
    codes "BEGIN TRANSACTION;\nCOMMIT;\nBEGIN TRANSACTION;\nINSERT INTO t VALUES(1);\nCOMMIT;"

abbrev journal_state : State (List Event)
journal_state = record { world = []; disabled = false; out = [] }

batch-Tallied_example :
    let r = batch journal dbx journal_script journal_state in
    Tallied journal
      (λ w. w)
      (λ w. begun ∷ w)
      (λ w. committed ∷ w)
      (script journal_script)
      []
      r.0
      r.1.world
batch-Tallied_example =
    batch-Tallied journal (λ w. w) (λ w. begun ∷ w) (λ w. committed ∷ w) journal-IsTally dbx
      journal_script journal_state

db_file-AllOrNone_example :
    let r =
      db_file store_remote store_driver
        (λ db. store_host)
        store_disk
        none
        (codes "f")
        (codes "db")
        true
        []
        store_process in
    AllOrNone r.0 (codes "c" ∷ codes "b" ∷ codes "a" ∷ []) (codes "a" ∷ []) r.1.pool.world.contents
unfolding new_connection get_db lookup set_up equal
db_file-AllOrNone_example =
    db_file-AllOrNone store_remote store_driver (λ db. store_host) store_disk (λ w. w.contents)
      (λ tx w. w.view) (λ q c. q ∷ c) none (codes "db") (codes "f") [] store_process
      (record { db = 4; name = codes "db" })
      (record { lines = codes "b" ∷ codes "c" ∷ []; stopped_by = some busy }) store.world refl refl
      store_host-IsDatabase (λ w. refl)

-- A write, a query, and a transaction.
abbrev mixed_script : Bytes
mixed_script = codes "INSERT;\nSELECT 1;\nBEGIN TRANSACTION;\nDELETE;\nCOMMIT;\n"

batch-Applied_example :
    let r = batch store_host dbx mixed_script store in
    Applied (λ q c. q ∷ c) (script mixed_script) (codes "a" ∷ [], none) r.0 r.1.world.contents
unfolding script commands split clean_text read_line trim_space trim_right_space trim_left_space
    is_space kind starts_with contains
batch-Applied_example =
    batch-Applied store_host (λ w. w.contents) (λ tx w. w.view) (λ q c. q ∷ c) store_host-IsSql dbx
      mixed_script store (refl, tt)
