-- ===== src/Db/Execute.antt =====
-- `DBX.Execute`, `MakeExec` and `ExecuteContext` of db.go: a series of writes, up to the first one
-- that fails. The time that each reply carries is left out, and so is the log.
pub mod Runs
use dqlited.Base.{ℕ, suc, ◌+◌, Bool, List, [], ◌∷◌, ◌++◌, length, Bytes, if◌then◌else◌}
use dqlited.Base.Int.{ℤ}
use dqlited.Go.{
  Act, Outcome, ok, fail, Reply, value, error, Host, ExecResult, Context, background, msg, text,
  num,
}
use dqlited.Db.{State, database_disabled, unavailable}

-- `Result`; no function of the program sets its `Error`.
pub record Result : Type 0 where
  pub last_insert_id : ℤ
  pub rows_affected : ℤ

-- `ExecuteResponse`
pub record ExecuteResponse : Type 0 where
  pub results : List Result

module _ {W E : Type 0} (H : Host W E) where
  open H use {wrap, exec_context}

  -- `LastInsertId` and `RowsAffected`, with their errors dropped.
  abbrev pub to_result : ExecResult E → Result
  to_result r = record { last_insert_id = r.last_id_value; rows_affected = r.rows_affected }

  abbrev pub execute_failed : ℕ → ℕ → Bytes → E → E
  execute_failed i total statement =
      wrap (msg "DBX.Execute fail (%d/%d): %q" (num (i + 1) ∷ num total ∷ text statement ∷ []))

  -- The loop of `DBX.Execute`, which calls `db.Exec`; `i` statements were done.
  unfoldable pub execute_loop : ℕ → ℕ → List Result → List Bytes → W → Outcome ExecuteResponse E × W
  execute_loop total i results [] w = (ok (record { results = results }), w)
  execute_loop total i results (statement ∷ statements) w =
      let (r, w') = exec_context background statement w in
      elim r [
        | value resp ↦ execute_loop total (i + 1) (results ++ to_result resp ∷ []) statements w'
        | error e ↦ (fail (execute_failed i total statement e), w')
      ]

  -- `DBX.Execute`
  unfoldable pub execute : List Bytes → Act (State W) E ExecuteResponse
  unfolding database_disabled
  execute statements s =
      let (o, w) = execute_loop (length statements) 0 [] statements s.world in
      if database_disabled s then (fail (unavailable H), s) else (o, record s { world = w })

  -- The loop of `ExecuteContext` and of the closure of `MakeExec`, which call `db.ExecContext`.
  unfoldable pub execute_context_loop :
      Context → ℕ → ℕ → List Result → List Bytes → W → Outcome ExecuteResponse E × W
  execute_context_loop ctx total i results [] w = (ok (record { results = results }), w)
  execute_context_loop ctx total i results (statement ∷ statements) w =
      let (r, w') = exec_context ctx statement w in
      elim r [
        | value resp ↦
            execute_context_loop ctx total (i + 1) (results ++ to_result resp ∷ []) statements w'
        | error e ↦ (fail (execute_failed i total statement e), w')
      ]

  -- `ExecuteContext`
  unfoldable pub execute_context : Context → List Bytes → Act (State W) E ExecuteResponse
  unfolding database_disabled
  execute_context ctx statements s =
      let (o, w) = execute_context_loop ctx (length statements) 0 [] statements s.world in
      if database_disabled s then (fail (unavailable H), s) else (o, record s { world = w })

  -- `MakeExec`; its flag `verbose` matters to the log only.
  unfoldable pub make_exec : Bool → Context → List Bytes → Act (State W) E ExecuteResponse
  unfolding database_disabled
  make_exec verbose ctx statements s =
      let (o, w) = execute_context_loop ctx (length statements) 0 [] statements s.world in
      if database_disabled s then (fail (unavailable H), s) else (o, record s { world = w })
