-- ===== src/Db/Batch.antt =====
-- `DBX.Batch` of db.go: a script, read line by line and run as it is read.
pub mod Commands
pub mod Applies
use dqlited.Base.{
  ℕ, Bool, true, false, not, List, [], ◌∷◌, ◌++◌, Bytes, codes, Option, none, some, if◌then◌else◌,
}
use dqlited.Text.{trim_space, contains, split, starts_with}
use dqlited.Go.{
  Act, Outcome, ok, fail, panic, pure, crash, wrapping, ◌>>=◌, ◌>>◌, Reply, Host, msg, text,
}
use dqlited.Db.{State, Dbx, call}
use dqlited.Db.Clean.{clean_text}
use dqlited.Db.Exec.{exec}
use dqlited.Db.Query.{query}

-- The variables of the loop: `statement`, `trigger` and `tx`. (`echo` stays false.)
pub record Reader : Type 0 where
  pub statement : Bytes
  pub trigger : Bool
  pub tx : Option ℕ

abbrev pub initial : Reader
initial = record { statement = []; trigger = false; tx = none }

abbrev pub semicolon : Bytes
semicolon = b';' ∷ []

module _ {W E : Type 0} (H : Host W E) (dx : Dbx) where
  open H use {wrap, begin, tx_exec, tx_commit}

  -- `dx.query(stmt)`, whose error is dropped. This is the call where it returns: while a transaction is
  -- open it waits for ever, since `getDB` allows one connection and the transaction holds it.
  abbrev pub query_only : Bytes → Act (State W) E (Unit {0})
  query_only stmt s = let (o, s') = query H dx stmt s in (ok tt, s')

  -- the second `switch`, for a complete statement
  abbrev pub run_statement : Option ℕ → Bytes → Bytes → Act (State W) E (Unit {0})
  run_statement (some tx) line stmt =
      if starts_with stmt (codes "SELECT")
      then query_only stmt
      else (call (tx_exec tx stmt) >>= λ _. pure tt)
  run_statement none line stmt =
      if starts_with stmt (codes "SELECT")
      then query_only stmt
      else wrapping (wrap (msg "EXEC QUERY: %s FILE: %s" (text line ∷ text (codes "mydb") ∷ [])))
          (exec H stmt >>= λ _. pure tt)

  -- what stands behind the first `switch`
  abbrev finish_line : Reader → Bytes → Act (State W) E Reader
  finish_line b line =
      if not (contains line semicolon)
      then pure b
      else (run_statement b.tx line b.statement >>= λ _. pure (record b { statement = [] }))

  -- `tx.Commit()` panics on a nil `tx`
  abbrev pub commit : Option ℕ → Act (State W) E (Unit {0})
  commit none = crash
  commit (some tx) = wrapping (wrap (msg "could not close transaction" [])) (call (tx_commit tx))

  abbrev pub begin_tx : Act (State W) E ℕ
  begin_tx = wrapping (wrap (msg "could not create transaction" [])) (call begin)

  -- The body of the loop, for a trimmed line that is not empty.
  unfoldable pub batch_line : Reader → Bytes → Act (State W) E Reader
  batch_line b line =
      let b' = record b { statement = b.statement ++ (line ++ 10 ∷ []) } in
      if starts_with line (codes "BEGIN TRANSACTION")
      then (begin_tx >>= λ tx. pure (record b' { statement = []; tx = some tx }))
      else if starts_with line (codes "COMMIT;")
      then (commit b.tx >>= λ _. pure (record b' { statement = []; tx = none }))
      else if starts_with line (codes "CREATE TRIGGER")
      then (if not (contains line semicolon)
          then pure (record b' { trigger = true })
          else finish_line b' line)
      else if starts_with line (codes "END;")
      then finish_line (record b' { trigger = false }) line
      else if b.trigger
      then pure b'
      else finish_line b' line

  abbrev pub batch_trimmed : Reader → Bytes → Act (State W) E Reader
  batch_trimmed b [] = pure b
  batch_trimmed b (c ∷ line) = batch_line b (c ∷ line)

  -- The loop over the lines.
  unfoldable pub batch_lines : Reader → List Bytes → Act (State W) E (Unit {0})
  batch_lines b [] = pure tt
  batch_lines b (line ∷ lines) = batch_trimmed b (trim_space line) >>= λ b'. batch_lines b' lines

  unfoldable pub batch : Bytes → Act (State W) E (Unit {0})
  batch buffer = batch_lines initial (split (clean_text buffer) 10)
