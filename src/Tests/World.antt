-- ===== src/Tests/World.antt =====
-- A scripted database and a scripted cluster.
use dqlited.Base.{
  ℕ, ◌+◌, ◌-◌, Bool, true, false, [], ◌∷◌, codes, none, some, ltb, refl, ◌≡◌, arith, if◌then◌else◌,
}
use dqlited.Base.Int.{pos}
use dqlited.Text.{equal}
use dqlited.Go.{ok, panic, value, error, Message, msg, Host, ExecResult, ResultSet}
use dqlited.Db.{State, Dbx}
use dqlited.Client.{Remote, NodeInfo, voter}
use dqlited.Cluster.Pool.{IsMeter}
use dqlited.Cache.{Driver, Pool}
use dqlited.Cache.Reopen.{IsRegistry}
use dqlited.Web.{Server}
use dqlited.Session.{Disk, Process}
use dqlited.Node.{Machine, network, other}

-- The next `failing` writes fail; `refuses` tells whether a commit fails; `opened` and `closed` count
-- what the server does.
pub record World : Type 0 where
  pub calls : ℕ
  pub slept : ℕ
  pub failing : ℕ
  pub refuses : Bool
  pub opened : ℕ
  pub closed : ℕ

abbrev pub busy : Message
busy = msg "busy" []

abbrev pub result : ExecResult Message
result = record { last_insert_id = value (pos 5); last_id_value = pos 5; rows_affected = pos 1 }

abbrev pub table : ResultSet Message
table = record {
  columns = value (codes "id" ∷ codes "name" ∷ []);
  types = value (codes "INTEGER" ∷ codes "TEXT" ∷ []);
  rows = value (codes "1" ∷ codes "a" ∷ []) ∷ value (codes "2" ∷ codes "b" ∷ []) ∷ [];
}

abbrev pub host : Host World Message
host = record {
  errorf = λ m. m;
  wrap = λ m e. m;
  driver_code = λ e. none;
  exec_context = λ ctx q w. (
    if ltb 0 w.failing then error busy else value result,
    record w { calls = w.calls + 1; failing = w.failing - 1 },
  );
  query = λ q w. (value (record { head = table; rest = [] }), w);
  begin = λ w. (value 7, w);
  tx_exec =
      λ tx q w. (if equal q [] then error busy else value result, record w { calls = w.calls + 1 });
  tx_commit = λ tx w. (if w.refuses then error busy else value tt, w);
  tx_rollback = λ tx w. (value tt, w);
  sleep = λ d w. record w { slept = w.slept + d };
  tabulate = λ b t. t;
}

abbrev pub world : World
world = record { calls = 0; slept = 0; failing = 2; refuses = true; opened = 0; closed = 0 }

abbrev pub state : State World
state = record { world = world; disabled = false; out = [] }

abbrev pub dbx : Dbx
dbx = record { header = true; lines = false }

-- The connections that were opened and closed, and whether a driver is registered.
pub record Net : Type 0 where
  pub opened : ℕ
  pub closed : ℕ
  pub registered : Bool

abbrev pub net : Net
net = record { opened = 0; closed = 0; registered = false }

abbrev pub node : ℕ → NodeInfo
node id = record { id = id; address = codes "127.0.0.1:9181"; role = voter }

abbrev pub remote : Remote Net Message ℕ
remote = record {
  errorf = λ m. m;
  wrap = λ m e. m;
  load_key_pair = λ a b w. (value tt, w);
  read_file = λ a w. (value (codes "pem"), w);
  append_certs = λ a. true;
  find_leader = λ tls peers w. (value 1, record w { opened = w.opened + 1 });
  close = λ c w. record w { closed = w.closed + 1 };
  leader = λ c w. (value (node 1), w);
  cluster = λ c w. (value (node 3 ∷ node 1 ∷ []), w);
  assign = λ c id r w. (value tt, w);
  transfer = λ c id w. (value tt, w);
  remove = λ c id w. (error busy, w);
  add = λ c n w. (value tt, w);
  dump = λ c n w. (value (record { name = codes "db"; contents = codes "x" } ∷ []), w);
  create = λ n w. (value tt, w);
  write = λ n d w. (value tt, w);
}

-- The counters of `net` follow the connections.
pub meter : IsMeter remote (λ w. w.opened) (λ w. w.closed)
meter = record {
  find_value = λ tls peers w w' c e. ground arith;
  find_error = λ tls peers w w' x e. ground arith;
  close_opened = λ c w. refl;
  close_closed = λ c w. refl;
  load_key_pair-Quiet = λ a b. record { opens = λ w. refl; closes = λ w. refl };
  read_file-Quiet = λ a. record { opens = λ w. refl; closes = λ w. refl };
  leader-Quiet = λ c. record { opens = λ w. refl; closes = λ w. refl };
  cluster-Quiet = λ c. record { opens = λ w. refl; closes = λ w. refl };
  assign-Quiet = λ c id r. record { opens = λ w. refl; closes = λ w. refl };
  transfer-Quiet = λ c id. record { opens = λ w. refl; closes = λ w. refl };
  remove-Quiet = λ c id. record { opens = λ w. refl; closes = λ w. refl };
  add-Quiet = λ c n. record { opens = λ w. refl; closes = λ w. refl };
  dump-Quiet = λ c n. record { opens = λ w. refl; closes = λ w. refl };
  create-Quiet = λ n. record { opens = λ w. refl; closes = λ w. refl };
  write-Quiet = λ n d. record { opens = λ w. refl; closes = λ w. refl };
}

-- Every body is a list of one query, and every duration is zero.
abbrev pub server : Server World Message
server = record {
  open_db = λ name w. (value tt, record w { opened = w.opened + 1 });
  close_db = λ w. record w { closed = w.closed + 1 };
  decode = λ body. value (codes "SELECT 1" ∷ []);
  decode_first = λ body. value (codes "SELECT 1" ∷ []);
  parse_duration = λ t. value (pos 0);
}

abbrev pub driver : Driver Net Message ℕ
driver = record {
  create = λ tls peers w. (value tt, w);
  register = λ w. if w.registered then (panic, w) else (ok tt, record w { registered = true });
  open_database = λ name w. (value 4, w);
  set_max_open = λ db w. w;
  close_database = λ db w. (value tt, w);
}

abbrev pub empty_pool : Pool Net ℕ
empty_pool = record { cache = []; world = net }

-- `net` remembers a registration.
pub registry : IsRegistry remote driver (λ w. w.registered ≡ true)
registry = record {
  register_once = λ w h. ground arith;
  register_twice = λ w q. ground arith;
  load_key_pair-Keeps = λ a b. record { kept = λ w q. q };
  read_file-Keeps = λ a. record { kept = λ w q. q };
  create-Keeps = λ tls peers. record { kept = λ w q. q };
  open_database-Keeps = λ name. record { kept = λ w q. q };
  close_database-Keeps = λ db. record { kept = λ w q. q };
  set_max_open-Keeps = λ db w q. q;
}

-- A database over `net`: each statement succeeds.
abbrev pub quiet_host : ℕ → Host Net Message
quiet_host db = record {
  errorf = λ m. m;
  wrap = λ m e. m;
  driver_code = λ e. none;
  exec_context = λ ctx q w. (value result, w);
  query = λ q w. (value (record { head = table; rest = [] }), w);
  begin = λ w. (value 7, w);
  tx_exec = λ tx q w. (value result, w);
  tx_commit = λ tx w. (value tt, w);
  tx_rollback = λ tx w. (value tt, w);
  sleep = λ d w. w;
  tabulate = λ b t. t;
}

-- Every file is a query.
abbrev pub disk : Disk Net Message
disk = record {
  scan_file = λ name w. (value (record { lines = codes "INSERT" ∷ []; stopped_by = none }), w);
  read_whole = λ name w. (value (codes "SELECT 1"), w);
}

abbrev pub process : Process Net ℕ
process = record { pool = empty_pool; disabled = false; out = [] }

-- A machine with no address but that of its loopback, where no port can be listened at.
abbrev pub machine : Machine Net Message ℕ ℕ ℕ
machine = record {
  interfaces = λ w. (value (network true (some (codes "127.0.0.1")) ∷ other ∷ []), w);
  make_dirs = λ dir w. (value tt, w);
  join_path = λ a b. a;
  print = λ n. codes "1";
  split_host_port = λ a. value (a, a);
  join_host_port = λ a b. a;
  resolve = λ a w. (value a, w);
  new_node = λ id a dir b w. (value 0, w);
  start_node = λ n w. (value tt, w);
  new_app = λ dir a cluster tls w. (value 3, record w { opened = w.opened + 1 });
  listen = λ a w. (error busy, w);
  serve_until_signal = λ app l w. w;
  close_listener = λ l w. w;
  shut_down = λ w. w;
  close_app = λ app w. record w { closed = w.closed + 1 };
}
