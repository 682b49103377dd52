-- ===== src/Db/Eval.antt =====
-- `DBX.Eval` of db.go: one statement or dot command of the command line.
pub mod Routes
use dqlited.Base.{Bool, true, false, List, [], ◌∷◌, Bytes, codes, Option, none, some, if◌then◌else◌}
use dqlited.Text.{equal, fields, to_upper, contains}
use dqlited.Go.{
  Act, Outcome, ok, fail, panic, map_fail, wrapping, ◌>>=◌, ◌>>◌, pure, Host, ExecResult, msg, text,
}
use dqlited.Db.{State, Dbx}
use dqlited.Db.Exec.{exec}
use dqlited.Db.Query.{query}
use dqlited.Db.QueryRows.{action_of}

-- The dot commands; any other statement stays.
unfoldable pub expand : Bytes → Bytes
expand statement =
    if equal statement (codes ".schema")
    then codes "select sql || ';' from sqlite_master"
    else if equal statement (codes ".tables")
    then codes "select name from sqlite_master where type='table' order by name"
    else statement

-- What a statement is run by.
pub data Way : Type 0 where
  reading pragma_writing pragma_reading writing : Way

-- The switch on the first word, with the test of a pragma.
unfoldable pub way_of : Bytes → Bytes → Way
way_of action statement =
    if equal action (codes "SELECT")
    then reading
    else if equal action (codes "PRAGMA")
    then (if contains statement (codes "=") then pragma_writing else pragma_reading)
    else writing

module _ {W E : Type 0} (H : Host W E) where
  open H use {errorf, wrap}

  -- `_, err := dx.exec(statement)`
  abbrev pub exec_only : Bytes → Act (State W) E (Unit {0})
  exec_only statement = exec H statement >>= λ _. pure tt

  -- `errors.Wrapf` leaves a nil error nil.
  abbrev pub dispatch : Dbx → Bytes → Way → Act (State W) E (Unit {0})
  dispatch dx statement reading =
      wrapping (wrap (msg "dx.Eval query failed: %q" (text statement ∷ []))) (query H dx statement)
  dispatch dx statement pragma_writing =
      wrapping (wrap (msg "dx.Eval pragma exec failed: %q" (text statement ∷ [])))
        (exec_only statement)
  dispatch dx statement pragma_reading =
      wrapping (wrap (msg "dx.Eval pragma query failed: %q" (text statement ∷ [])))
        (query H dx statement)
  dispatch dx statement writing =
      wrapping (wrap (msg "dx.Eval exec fail (%T): %q" (text statement ∷ []))) (exec_only statement)

  abbrev eval_as : Dbx → Bytes → Outcome Bytes E → Act (State W) E (Unit {0})
  eval_as dx statement (ok action) s = dispatch dx statement (way_of action statement) s
  eval_as dx statement (fail e) s = (fail e, s)
  eval_as dx statement panic s = (panic, s)

  unfoldable pub eval : Dbx → Bytes → Act (State W) E (Unit {0})
  eval dx [] s = (fail (errorf (msg "no statements given" [])), s)
  eval dx (c ∷ statement) s =
      let expanded = expand (c ∷ statement) in eval_as dx expanded (action_of expanded) s
