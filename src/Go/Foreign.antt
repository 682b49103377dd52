-- ===== src/Go/Foreign.antt =====
-- Code outside the repository, as one record of operations: `database/sql` over the dqlite driver,
-- `github.com/pkg/errors`, the writer of `text/tabwriter`, and `time.Sleep`. Nothing is assumed of
-- them here. `W` is the database and all else outside the process, `E` the type of errors.
use dqlited.Base.{ℕ, Bool, String, List, Bytes, Option, none}
use dqlited.Base.Int.{ℤ}
use dqlited.Go.Monad.{Reply}

-- A text with its arguments, as `fmt.Errorf` and `errors.Wrapf` take them.
pub data Arg : Type 0 where
  text : Bytes → Arg
  num : ℕ → Arg

pub record Message : Type 0 where
  pub format : String
  pub args : List Arg

abbrev pub msg : String → List Arg → Message
msg format args = record { format = format; args = args }

-- A context, by its deadline; a cancelled request is the business of `W`.
abbrev pub Context : Type 0
Context = Option ℕ

abbrev pub background : Context
background = none

-- `sql.Result`
pub record ExecResult (E : Type 0) : Type 0 where
  pub last_insert_id : Reply ℤ E
  pub last_id_value : ℤ
  pub rows_affected : ℤ

-- One result set of `sql.Rows`: `Columns`, `ColumnTypes`, and what `Scan` answers for each row
-- that `Next` gives. A cell stands for its value by the text that `fmt` prints for it.
pub record ResultSet (E : Type 0) : Type 0 where
  pub columns : Reply (List Bytes) E
  pub types : Reply (List Bytes) E
  pub rows : List (Reply (List Bytes) E)

-- `sql.Rows`: the first result set, and those that `NextResultSet` leads to.
pub record Rows (E : Type 0) : Type 0 where
  pub head : ResultSet E
  pub rest : List (ResultSet E)

-- A transaction is known by a number.
pub record Host (W E : Type 0) : Type 0 where
  -- `fmt.Errorf`, `errors.New`
  pub errorf : Message → E
  -- `errors.Wrap`, `errors.Wrapf` of an error that is not nil
  pub wrap : Message → E → E
  -- the field `Code` where the error is a `driver.Error`
  pub driver_code : E → Option ℤ
  pub exec_context : Context → Bytes → W → Reply (ExecResult E) E × W
  pub query : Bytes → W → Reply (Rows E) E × W
  pub begin : W → Reply ℕ E × W
  pub tx_exec : ℕ → Bytes → W → Reply (ExecResult E) E × W
  pub tx_commit : ℕ → W → Reply (Unit {0}) E × W
  pub tx_rollback : ℕ → W → Reply (Unit {0}) E × W
  pub sleep : ℕ → W → W
  -- what a `tabwriter` of the program's settings writes for a text; the flag is `Debug`
  pub tabulate : Bool → Bytes → Bytes
