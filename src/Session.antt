-- ===== src/Session.antt =====
-- The one-shot commands of db.go: `dbCmd`, `dbFile` and `dbReport` open a connection through the
-- cache, run a statement or a file over it, and close it again.
pub mod Closing
pub mod Loading
use dqlited.Base.{Bool, true, false, List, [], ◌∷◌, Bytes, Option, if◌then◌else◌}
use dqlited.Go.{
  Act, Outcome, ok, fail, panic, wrapping, continue, ◌>>=◌, ◌>>◌, Reply, from_reply, Host, msg,
  text,
}
use dqlited.Client.{KeyPair, Remote}
use dqlited.Cache.{Driver, Pool, Connection, new_connection, close}
use dqlited.Db.{State, Dbx, call}
use dqlited.Db.Eval.{eval}
use dqlited.Db.Batch.{batch}
use dqlited.Db.Query.{query}
use dqlited.Db.Transact.{transact}

-- What a `bufio.Scanner` over a file yields, and the error that ends it, if any.
pub record Scanned (E : Type 0) : Type 0 where
  pub lines : List Bytes
  pub stopped_by : Option E

-- Code outside the repository: `os.Open` with a scanner, and `ioutil.ReadFile`. Nothing is assumed
-- of it here.
pub record Disk (W E : Type 0) : Type 0 where
  pub scan_file : Bytes → W → Reply (Scanned E) E × W
  pub read_whole : Bytes → W → Reply Bytes E × W

-- The state of the process: `dbxDB` with the world outside, `dbxDisabled`, and the output.
pub record Process (W D : Type 0) : Type 0 where
  pub pool : Pool W D
  pub disabled : Bool
  pub out : Bytes

-- `liner` logs the error of its scanner, and what follows sees the lines before it.
unfoldable pub liner : {E : Type 0} → Scanned E → List Bytes
liner scanned = scanned.lines

module _ {W E D A : Type 0} where
  -- An action on the database, within the process.
  abbrev pub on_state : Act (State W) E A → Act (Process W D) E A
  on_state m p =
      let (o, s) = m (record { world = p.pool.world; disabled = p.disabled; out = p.out }) in
      (o, record { pool = record p.pool { world = s.world }; disabled = s.disabled; out = s.out })

  -- An action on the cache, within the process.
  abbrev pub on_pool : Act (Pool W D) E A → Act (Process W D) E A
  on_pool m p = let (o, pool) = m p.pool in (o, record p { pool = pool })

  -- `defer`: the second action runs however the first one ends, and its result is dropped.
  abbrev pub deferring :
      Act (Process W D) E (Unit {0}) → Act (Process W D) E A → Act (Process W D) E A
  deferring last m p = let (o, p') = m p in (o, (last p').1)

module _ {W E : Type 0} (H : Host W E) (K : Disk W E) where
  open H use {wrap}
  open K use {scan_file, read_whole}

  -- `DBX.loadFile`
  unfoldable pub load_file : Dbx → Bytes → Bool → Act (State W) E (Unit {0})
  load_file dx file_name batched =
      if batched
      then (call (scan_file file_name) >>= λ scanned. transact H (liner scanned))
      else (wrapping (wrap (msg "error reading file: %s" (text file_name ∷ [])))
            (call (read_whole file_name))
          >>= λ buffer. batch H dx buffer)

  -- `DBX.queryFile`
  unfoldable pub query_file : Dbx → Bytes → Act (State W) E (Unit {0})
  query_file dx file_name = do
    buffer ←
        wrapping (wrap (msg "error reading file: %s" (text file_name ∷ [])))
          (call (read_whole file_name))
    query H dx buffer

module _ {W E C D : Type 0} (R : Remote W E C) (G : Driver W E D) (H : D → Host W E)
    (K : Disk W E) where
  -- `dx.db.Close()`, which leaves the cache alone
  abbrev pub close_only : Connection D → Act (Process W D) E (Unit {0})
  close_only dx = on_pool λ pool.
      let (r, w) = G.close_database dx.db pool.world in (from_reply r, record pool { world = w })

  -- `dbCmd`
  unfoldable pub db_cmd :
      Option KeyPair → Bytes → List Bytes → Bool → Bool → Bytes → Act (Process W D) E (Unit {0})
  db_cmd pair name cluster header divs statement =
      on_pool (new_connection R G pair name cluster) >>= λ dx.
      deferring (on_pool (close R G dx))
        (on_state (eval (H dx.db) (record { header = header; lines = divs }) statement))

  -- `dbFile`: `dx.db.Close()` was deferred last and runs first.
  unfoldable pub db_file :
      Option KeyPair → Bytes → Bytes → Bool → List Bytes → Act (Process W D) E (Unit {0})
  db_file pair file_name name batched cluster =
      on_pool (new_connection R G pair name cluster) >>= λ dx. deferring (on_pool (close R G dx)) (
        deferring (close_only dx) (
          on_state
            (load_file (H dx.db) K (record { header = true; lines = false }) file_name batched)))

  -- `dbReport`, which does not call `dx.Close()`
  unfoldable pub db_report :
      Option KeyPair → Bytes → Bytes → Bool → Bool → List Bytes → Act (Process W D) E (Unit {0})
  db_report pair file_name name header lines cluster =
      on_pool (new_connection R G pair name cluster) >>= λ dx.
      deferring (close_only dx)
        (on_state (query_file (H dx.db) K (record { header = header; lines = lines }) file_name))
