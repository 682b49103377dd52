-- ===== src/Web/Handlers.antt =====
-- The handlers of web.go that `makeHandleExec` and `makeHandleQuery` return.
pub mod Answers
pub mod Pool
pub mod Effects
use dqlited.Base.{
  ℕ, ◌+◌, Bool, true, false, not, ◌&&◌, List, [], ◌∷◌, ◌++◌, Bytes, codes, Option, none, some, leb,
  if◌then◌else◌,
}
use dqlited.Text.{equal, join}
use dqlited.Go.{Outcome, ok, fail, panic, Reply, value, error, Host, Context}
use dqlited.Db.{State}
use dqlited.Db.Execute.{ExecuteResponse, execute_context}
use dqlited.Db.QueryRows.{Reading, query_rows_context}
use dqlited.Web.{Request, Server, Write, status, http_error, executed, rows, crashed}
use dqlited.Web.Queries.{db_name, request_queries}

-- `time.Minute`, in nanoseconds
abbrev pub minute : ℕ
minute = 60000000000

-- `context.WithDeadline`, which keeps the earlier deadline.
abbrev pub with_deadline : Context → ℕ → Context
with_deadline none d = some d
with_deadline (some dead) d = if leb dead d then some dead else some d

-- The context of a call, `ctx2`: with a deadline, a minute is added to it.
unfoldable pub extended : Context → Context
extended none = none
extended (some dead) = with_deadline (some dead) (dead + minute)

module _ {W E : Type 0} (H : Host W E) (S : Server W E) where
  open S use {open_db, close_db, decode_first}

  -- `defer db.Close()`
  abbrev pub closed : List (Write E) × State W → List (Write E) × State W
  closed (writes, s) = (writes, record s { world = close_db s.world })

  abbrev pub exec_answer : Outcome ExecuteResponse E → List (Write E)
  exec_answer (ok resp) = executed resp ∷ []
  exec_answer (fail e) = http_error 400 e ∷ []
  exec_answer panic = crashed ∷ []

  abbrev pub body_statements : Reply Bytes E → Reply (List Bytes) E
  body_statements (value b) = decode_first b
  body_statements (error e) = error e

  abbrev pub exec_statements : Context → Reply (List Bytes) E → State W → List (Write E) × State W
  exec_statements ctx (error e) s = (http_error 400 e ∷ [], s)
  exec_statements ctx (value statements) s =
      let (o, s') = execute_context H ctx (join statements (codes "\n") ∷ []) s in
      (exec_answer o, s')

  -- What the handler of `/db/execute/` does with an open database.
  unfoldable pub exec_opened : Request E → State W → List (Write E) × State W
  exec_opened r s = exec_statements (extended r.deadline) (body_statements r.body) s

  abbrev pub exec_reply : Request E → State W → Reply (Unit {0}) E × W → List (Write E) × State W
  exec_reply r s (value _, w) = closed (exec_opened r (record s { world = w }))
  exec_reply r s (error e, w) = (http_error 400 e ∷ [], record s { world = w })

  -- `makeHandleExec`
  unfoldable pub handle_exec : Request E → State W → List (Write E) × State W
  handle_exec r s =
      if not (equal r.method (codes "POST"))
      then (status 405 ∷ [], s)
      else exec_reply r s (open_db (db_name r.path) s.world)

  abbrev behind : Write E → List (Write E) × State W → List (Write E) × State W
  behind x (writes, s) = (x ∷ writes, s)

  abbrev pub next_query :
      Outcome (List Reading) E × State W
      → (State W → List (Write E) × State W)
      → List (Write E) × State W
  next_query (ok resp, s) others = behind (rows resp) (others s)
  next_query (fail e, s) others = (status 500 ∷ [], s)
  next_query (panic, s) others = (crashed ∷ [], s)

  -- The loop over the queries.
  unfoldable pub query_loop : Context → List Bytes → State W → List (Write E) × State W
  query_loop ctx [] s = ([], s)
  query_loop ctx (q ∷ qs) s =
      next_query (query_rows_context H (extended ctx) q s) (query_loop ctx qs)

  abbrev pub run_queries : Context → Outcome (List Bytes) E → State W → List (Write E) × State W
  run_queries ctx (ok queries) s = query_loop ctx queries s
  run_queries ctx (fail e) s = (status 400 ∷ [], s)
  run_queries ctx panic s = (crashed ∷ [], s)

  -- What the handler of `/db/query/` does with an open database.
  unfoldable pub query_opened : Request E → State W → List (Write E) × State W
  query_opened r s = run_queries r.deadline (request_queries H S r) s

  abbrev pub query_reply : Request E → State W → Reply (Unit {0}) E × W → List (Write E) × State W
  query_reply r s (value _, w) = closed (query_opened r (record s { world = w }))
  query_reply r s (error e, w) = (status 400 ∷ [], record s { world = w })

  -- `makeHandleQuery`
  unfoldable pub handle_query : Request E → State W → List (Write E) × State W
  handle_query r s =
      if not (equal r.method (codes "GET")) && not (equal r.method (codes "POST"))
      then (status 405 ∷ [], s)
      else query_reply r s (open_db (db_name r.path) s.world)
