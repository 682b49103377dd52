-- ===== src/Db.antt =====
-- db.go: the state of the process that its functions use, the circuit breaker, and the handle
-- `DBX`. The other functions stand in the children.
pub mod Exec
pub mod Query
pub mod Queryer
pub mod QueryRows
pub mod Execute
pub mod Eval
pub mod Transact
pub mod Clean
pub mod Batch
use dqlited.Base.{ℕ, Bool, not, [], Bytes}
use dqlited.Go.{Act, Outcome, Reply, from_reply, Host, msg}

-- `world` is the database and all else outside; `disabled` is `dbxDisabled`; `out` is what the
-- writer `dx.w` has received.
pub record State (W : Type 0) : Type 0 where
  pub world : W
  pub disabled : Bool
  pub out : Bytes

-- `DBX`: its display options. `db` and `w` are in `State`; `name` matters to the cache only, and
-- `verbose` to the log.
pub record Dbx : Type 0 where
  pub header : Bool
  pub lines : Bool

module _ {W : Type 0} where
  -- `EnableDatabase`
  unfoldable pub enable_database : Bool → State W → State W
  enable_database enable s = record s { disabled = not enable }

  -- `DatabaseDisabled`
  unfoldable pub database_disabled : State W → Bool
  database_disabled s = s.disabled

module _ {W E A : Type 0} where
  -- A call of foreign code, whose error is returned as it is.
  abbrev pub call : (W → Reply A E × W) → Act (State W) E A
  call f s = let (r, w) = f s.world in (from_reply r, record s { world = w })

module _ {W E : Type 0} (H : Host W E) where
  open H use {errorf}

  -- `ErrDatabaseUnavailable`
  abbrev pub unavailable : E
  unavailable = errorf (msg "database is unavailable" [])
