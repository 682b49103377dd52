-- ===== src/Tests/Store.antt =====
-- A database of one table, which keeps what its transactions promise, and a process over it.
use dqlited.Base.{
  inl, some, ℕ, refl, Bool, true, false, List, [], ◌∷◌, Bytes, codes, none, if◌then◌else◌, arith,
}
use dqlited.Text.{equal}
use dqlited.Go.{ok, value, error, Message, Host}
use dqlited.Db.{State}
use dqlited.Db.Transact.Atomic.{IsDatabase}
use dqlited.Client.{Remote}
use dqlited.Cache.{Driver}
use dqlited.Session.{Disk, Process}
use dqlited.Db.Batch.Applies.{IsSql}
use dqlited.Db.Exec.{is_sql_failure}
use dqlited.Db.Exec.Repeats.{IsLossy}
use dqlited.Tests.World.{busy, result, table}

-- A table is the list of the statements that changed it, the last one first.
pub record Store : Type 0 where
  pub contents : List Bytes
  pub view : List Bytes

-- The empty statement fails, and so does the commit of a table that is empty.
abbrev pub store_host : Host Store Message
store_host = record {
  errorf = λ m. m;
  wrap = λ m e. m;
  driver_code = λ e. none;
  exec_context = λ ctx q w. (
    if equal q [] then error busy else value result,
    if equal q [] then w else record w { contents = q ∷ w.contents },
  );
  query = λ q w. (value (record { head = table; rest = [] }), w);
  begin = λ w. (value 7, record w { view = w.contents });
  tx_exec = λ tx q w. (
    if equal q [] then error busy else value result,
    if equal q [] then w else record w { view = q ∷ w.view },
  );
  tx_commit = λ tx w. (
    if is_empty w.view then error busy else value tt,
    if is_empty w.view then w else record w { contents = w.view },
  );
  tx_rollback = λ tx w. (value tt, w);
  sleep = λ d w. w;
  tabulate = λ b t. t;
}
  where
    is_empty : List Bytes → Bool
    is_empty [] = true
    is_empty (c ∷ s) = false

pub store_host-IsDatabase : IsDatabase store_host (λ w. w.contents) (λ tx w. w.view) (λ q c. q ∷ c)
store_host-IsDatabase = record {
  begin_value = λ w w' tx x. ground arith;
  begin_error = λ w w' e x. ground arith;
  exec_value = λ tx q w w' r x. ground arith;
  exec_error = λ tx q w w' e x. ground arith;
  commit_value = λ tx w w' x. ground arith;
  commit_error = λ tx w w' e x. ground arith;
  rollback = λ tx w. refl;
}

store_host-IsLossy : IsLossy store_host (λ w. w.contents) (λ q c. q ∷ c)
unfolding is_sql_failure
store_host-IsLossy = record {
  answered = λ q w w' r x. ground arith;
  rejected = λ q w w' e x f. ground arith;
  lost = λ q w w' e x f. inl (ground arith);
  sleeps = λ d w. refl;
}

pub store_host-IsSql : IsSql store_host (λ w. w.contents) (λ tx w. w.view) (λ q c. q ∷ c)
store_host-IsSql = record {
  transactions = store_host-IsDatabase;
  alone = store_host-IsLossy;
  query_contents = λ q w. refl;
}

abbrev pub store : State Store
store = record {
  world = record { contents = codes "a" ∷ []; view = [] };
  disabled = false;
  out = [];
}

-- A process over the store, whose file holds two statements.
abbrev pub store_disk : Disk Store Message
store_disk = record {
  scan_file =
      λ name w. (value (record { lines = codes "b" ∷ codes "c" ∷ []; stopped_by = some busy }), w);
  read_whole = λ name w. (value [], w);
}

abbrev pub store_driver : Driver Store Message ℕ
store_driver = record {
  create = λ tls peers w. (value tt, w);
  register = λ w. (ok tt, w);
  open_database = λ name w. (value 4, w);
  set_max_open = λ db w. w;
  close_database = λ db w. (value tt, w);
}

abbrev pub store_remote : Remote Store Message ℕ
store_remote = record {
  errorf = λ m. m;
  wrap = λ m e. m;
  load_key_pair = λ a b w. (value tt, w);
  read_file = λ a w. (value [], w);
  append_certs = λ a. true;
  find_leader = λ tls peers w. (value 1, w);
  close = λ c w. w;
  leader = λ c w. (error busy, w);
  cluster = λ c w. (value [], w);
  assign = λ c id r w. (value tt, w);
  transfer = λ c id w. (value tt, w);
  remove = λ c id w. (value tt, w);
  add = λ c n w. (value tt, w);
  dump = λ c n w. (value [], w);
  create = λ n w. (value tt, w);
  write = λ n d w. (value tt, w);
}

abbrev pub store_process : Process Store ℕ
store_process = record {
  pool = record { cache = []; world = store.world };
  disabled = false;
  out = [];
}
