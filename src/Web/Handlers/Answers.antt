-- ===== src/Web/Handlers/Answers.antt =====
-- What the handlers of web.go write.
use dqlited.Base.{
  ℕ, zero, suc, ◌≡◌, ◌≢◌, refl, List, [], ◌∷◌, length, Bytes, codes, arith, none, some, inl, inr,
  Bool-cases,
}
use dqlited.Text.{equal}
use dqlited.Go.{Outcome, ok, fail, panic, Reply, value, error, Host, Context}
use dqlited.Db.{State}
use dqlited.Db.Execute.{ExecuteResponse}
use dqlited.Db.Execute.Runs.{execute_context-length}
use dqlited.Db.QueryRows.{Reading, query_rows_context}
use dqlited.Web.{Request, Server, Write, status, executed, rows, crashed}
use dqlited.Web.Handlers.{
  extended, exec_answer, exec_statements, exec_opened, exec_reply, handle_exec, next_query,
  query_loop,
}

-- The minute that the handlers add to a deadline changes nothing: the context keeps the deadline of
-- the request.
extended_id : (ctx : Context) → extended ctx ≡ ctx
unfolding extended
extended_id none = refl
extended_id (some dead) = ground arith

-- What the handler of `/db/query/` may write for `n` queries: a JSON value for each up to the first
-- that fails, and then the status 500, or nothing more where the handler panics.
abbrev pub IsAnswer : {E : Type 0} → ℕ → List (Write E) → Type 0
IsAnswer zero [] = Unit
IsAnswer (suc n) (rows r ∷ ws) = IsAnswer n ws
IsAnswer (suc n) (status code ∷ []) = code ≡ 500
IsAnswer (suc n) (crashed ∷ []) = Unit
IsAnswer _ _ = ⊥

module _ {W E : Type 0} (H : Host W E) (S : Server W E) where
  exec_answer-ok :
      (o : Outcome ExecuteResponse E) (resp : ExecuteResponse)
      → exec_answer H S o ≡ executed resp ∷ []
      → o ≡ ok resp
  exec_answer-ok (ok r) resp h = ground arith
  exec_answer-ok (fail e) resp h = cc
  exec_answer-ok panic resp h = cc

  exec_statements-length :
      (ctx : Context) (statements : Reply (List Bytes) E) (s : State W) (resp : ExecuteResponse)
      → (exec_statements H S ctx statements s).0 ≡ executed resp ∷ []
      → length resp.results ≡ 1
  exec_statements-length ctx (error e) s resp h = cc
  exec_statements-length ctx (value statements) s resp h =
      execute_context-length H ctx _ s resp (exec_answer-ok _ resp h)

  exec_reply-length :
      (r : Request E) (s : State W) (p : Reply (Unit {0}) E × W) (resp : ExecuteResponse)
      → (exec_reply H S r s p).0 ≡ executed resp ∷ []
      → length resp.results ≡ 1
  unfolding exec_opened
  exec_reply-length r s (value _, w) resp h = exec_statements-length _ _ _ resp h
  exec_reply-length r s (error e, w) resp h = cc

  status-ne-executed :
      {code : ℕ} {resp : ExecuteResponse}
      → ◌≢◌ {A = List (Write E)} (status code ∷ []) (executed resp ∷ [])
  status-ne-executed = λ e. cc

  -- A request to `/db/execute/` that succeeds is answered with one result, however many statements
  -- it holds: they are run as one.
  handle_exec_one_result :
      (r : Request E) (s : State W) (resp : ExecuteResponse)
      → (handle_exec H S r s).0 ≡ executed resp ∷ []
      → length resp.results ≡ 1
  unfolding handle_exec
  handle_exec_one_result r s resp h = elim (Bool-cases (equal r.method (codes "POST"))) [
    | inl post ↦ exec_reply-length r s _ resp (rw post at h)
    | inr other ↦ absurd (status-ne-executed (rw other at h))
  ]

  next_query-IsAnswer :
      (n : ℕ) (p : Outcome (List Reading) E × State W) (others : State W → List (Write E) × State W)
      → ((s : State W) → IsAnswer n (others s).0)
      → IsAnswer (suc n) (next_query H S p others).0
  next_query-IsAnswer n (ok resp, s) others h = h s
  next_query-IsAnswer n (fail e, s) others h = refl
  next_query-IsAnswer n (panic, s) others h = tt

  -- For the queries of a request the handler of `/db/query/` writes a JSON value for each, in
  -- their order, up to the first that does not succeed; for an error it writes the status 500
  -- then, and it stops there.
  query_loop-IsAnswer :
      (ctx : Context) (queries : List Bytes) (s : State W)
      → IsAnswer (length queries) (query_loop H S ctx queries s).0
  unfolding query_loop
  query_loop-IsAnswer ctx [] s = tt
  query_loop-IsAnswer ctx (q ∷ qs) s =
      next_query-IsAnswer (length qs) (query_rows_context H (extended ctx) q s)
        (query_loop H S ctx qs) (query_loop-IsAnswer ctx qs)
