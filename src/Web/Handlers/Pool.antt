-- ===== src/Web/Handlers/Pool.antt =====
-- The handlers of web.go close each database that they open.
use dqlited.Base.{
  ℕ, ◌+◌, ◌≡◌, refl, ◌∙◌, Bool, true, false, not, ◌&&◌, List, [], ◌∷◌, ◌++◌, length, Bytes, codes,
  arith, inl, inr, Bool-cases, if◌then◌else◌,
}
use dqlited.Text.{equal, join}
use dqlited.Go.{Outcome, ok, fail, panic, Reply, value, error, Reply-cases, Host, Context}
use dqlited.Db.{State}
use dqlited.Db.Execute.{Result, execute_context, execute_context_loop, to_result}
use dqlited.Db.QueryRows.{Reading, query_rows_context}
use dqlited.Web.{Request, Server, Write}
use dqlited.Web.Queries.{db_name, request_queries}
use dqlited.Web.Handlers.{
  extended, closed, body_statements, exec_statements, exec_opened, exec_reply, handle_exec,
  next_query, query_loop, run_queries, query_opened, query_reply, handle_query,
}

module _ {W E : Type 0} (H : Host W E) (S : Server W E) (opened closings : W → ℕ) where
  -- The counters are the same before and after.
  abbrev Same : W → W → Type 0
  Same w w' = (opened w' ≡ opened w) × (closings w' ≡ closings w)

  -- As many are closed as are opened.
  abbrev pub Balanced : W → W → Type 0
  Balanced w w' = opened w' + closings w ≡ opened w + closings w'

  -- The two counters follow the databases: only `dq.Open` opens one, where it succeeds, and only
  -- `Close` closes one.
  pub record IsMeter : Type 0 where
    pub open_value :
        (name : Bytes) (w w' : W)
        → S.open_db name w ≡ (value tt, w')
        → (opened w' ≡ opened w + 1) × (closings w' ≡ closings w)
    pub open_error :
        (name : Bytes) (w w' : W) (e : E) → S.open_db name w ≡ (error e, w') → Same w w'
    pub close_opened : (w : W) → opened (S.close_db w) ≡ opened w
    pub close_closings : (w : W) → closings (S.close_db w) ≡ closings w + 1
    pub exec-Same : (ctx : Context) (q : Bytes) (w : W) → Same w (H.exec_context ctx q w).1
    pub query-Same : (q : Bytes) (w : W) → Same w (H.query q w).1

  module _ (m : IsMeter) where
    loop-Same :
        (ctx : Context) (total i : ℕ) (results : List Result) (statements : List Bytes) (w : W)
        → Same w (execute_context_loop H ctx total i results statements w).1
    unfolding execute_context_loop
    loop-Same ctx total i results [] w = (refl, refl)
    loop-Same ctx total i results (statement ∷ statements) w =
        elim (Reply-cases (H.exec_context ctx statement w)) [
          | inl (r, w', x) ↦
              let here : Same w w' = rw x at (m.exec-Same ctx statement w) in
              let later =
                loop-Same ctx total (i + 1) (results ++ to_result H r ∷ []) statements w' in
              ground (arith, x, here, later)
          | inr (e, w', x) ↦
              let here : Same w w' = rw x at (m.exec-Same ctx statement w) in
              ground (arith, x, here)
        ]

    execute-Same :
        (ctx : Context) (statements : List Bytes) (s : State W)
        → Same s.world (execute_context H ctx statements s).1.world
    unfolding execute_context
    execute-Same ctx statements s = elim (Bool-cases s.disabled) [
      | inl off ↦ rw off (refl, refl)
      | inr on ↦ rw on (loop-Same ctx (length statements) 0 [] statements s.world)
    ]

    read-Same :
        (ctx : Context) (q : Bytes) (s : State W)
        → Same s.world (query_rows_context H ctx q s).1.world
    unfolding query_rows_context
    read-Same ctx q s = ground (arith, m.query-Same q s.world)

    next_query-Same :
        (w : W) (o : Outcome (List Reading) E) (s : State W)
        (others : State W → List (Write E) × State W)
        → Same w s.world
        → ((t : State W) → Same t.world (others t).1.world)
        → Same w (next_query H S (o, s) others).1.world
    next_query-Same w (ok resp) s others h k = let later = k s in (later.0 ∙ h.0, later.1 ∙ h.1)
    next_query-Same w (fail e) s others h k = h
    next_query-Same w panic s others h k = h

    query_loop-Same :
        (ctx : Context) (queries : List Bytes) (s : State W)
        → Same s.world (query_loop H S ctx queries s).1.world
    unfolding query_loop
    query_loop-Same ctx [] s = (refl, refl)
    query_loop-Same ctx (q ∷ queries) s =
        let (o, s') = query_rows_context H (extended ctx) q s in
        next_query-Same s.world _ _ (query_loop H S ctx queries) (read-Same (extended ctx) q s)
          (λ t. query_loop-Same ctx queries t)

    run_queries-Same :
        (ctx : Context) (o : Outcome (List Bytes) E) (s : State W)
        → Same s.world (run_queries H S ctx o s).1.world
    run_queries-Same ctx (ok queries) s = query_loop-Same ctx queries s
    run_queries-Same ctx (fail e) s = (refl, refl)
    run_queries-Same ctx panic s = (refl, refl)

    exec_statements-Same :
        (ctx : Context) (statements : Reply (List Bytes) E) (s : State W)
        → Same s.world (exec_statements H S ctx statements s).1.world
    exec_statements-Same ctx (value statements) s =
        execute-Same ctx (join statements (codes "\n") ∷ []) s
    exec_statements-Same ctx (error e) s = (refl, refl)

    closed-Balanced :
        (name : Bytes) (w w' : W) (p : List (Write E) × State W)
        → S.open_db name w ≡ (value tt, w')
        → Same w' p.1.world
        → Balanced w (closed H S p).1.world
    closed-Balanced name w w' (writes, s) x h =
        let first = m.open_value name w w' x in
        omega (arith, m.close_opened s.world, m.close_closings s.world)

    refused-Balanced :
        (name : Bytes) (w w' : W) (e : E) → S.open_db name w ≡ (error e, w') → Balanced w w'
    refused-Balanced name w w' e x = let first = m.open_error name w w' e x in omega arith

    exec_reply-Balanced :
        (r : Request E) (s : State W)
        → Balanced s.world (exec_reply H S r s (S.open_db (db_name r.path) s.world)).1.world
    unfolding exec_opened
    exec_reply-Balanced r s = elim (Reply-cases (S.open_db (db_name r.path) s.world)) [
      | inl (u, w', x) ↦ rw x (
          closed-Balanced (db_name r.path) s.world w' (exec_opened H S r (record s { world = w' }))
            x
            (exec_statements-Same (extended r.deadline) (body_statements H S r.body)
              (record s { world = w' })))
      | inr (e, w', x) ↦ rw x (refused-Balanced (db_name r.path) s.world w' e x)
    ]

    query_reply-Balanced :
        (r : Request E) (s : State W)
        → Balanced s.world (query_reply H S r s (S.open_db (db_name r.path) s.world)).1.world
    unfolding query_opened
    query_reply-Balanced r s = elim (Reply-cases (S.open_db (db_name r.path) s.world)) [
      | inl (u, w', x) ↦ rw x (
          closed-Balanced (db_name r.path) s.world w' (query_opened H S r (record s { world = w' }))
            x (run_queries-Same r.deadline (request_queries H S r) (record s { world = w' })))
      | inr (e, w', x) ↦ rw x (refused-Balanced (db_name r.path) s.world w' e x)
    ]

    if-Balanced :
        (b : Bool) (w : W) (p q : List (Write E) × State W)
        → Balanced w p.1.world
        → Balanced w q.1.world
        → Balanced w (if b then p else q).1.world
    if-Balanced true w p q h k = h
    if-Balanced false w p q h k = k

    -- By counters that follow the databases, the handlers of `/db/execute/` and `/db/query/` close
    -- as many databases as they open, whatever the request is and however they end, also where a
    -- query makes them panic.
    pub handlers-Balanced :
        (r : Request E) (s : State W)
        → Balanced s.world (handle_exec H S r s).1.world
          × Balanced s.world (handle_query H S r s).1.world
    unfolding handle_exec handle_query
    handlers-Balanced r s = (
      if-Balanced (not (equal r.method (codes "POST"))) s.world _ _ refl (exec_reply-Balanced r s),
      if-Balanced (not (equal r.method (codes "GET")) && not (equal r.method (codes "POST")))
          s.world _ _ refl (query_reply-Balanced r s),
    )
