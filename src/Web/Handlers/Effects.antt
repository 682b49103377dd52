-- ===== src/Web/Handlers/Effects.antt =====
-- What a request to `/db/execute/` does to a database, by what it is answered.
use dqlited.Base.{◌⊎◌, ◌≡◌, refl, List, [], ◌∷◌, Bytes, codes, arith, inl, inr, Bool-cases}
use dqlited.Text.{equal, join}
use dqlited.Go.{
  Outcome, ok, fail, panic, Reply, value, error, Reply-cases, Host, ExecResult, Context,
}
use dqlited.Db.{State, database_disabled}
use dqlited.Db.Execute.{
  ExecuteResponse, to_result, execute_failed, execute_context, execute_context_loop,
}
use dqlited.Web.{Request, Server, Write, http_error, executed}
use dqlited.Web.Queries.{db_name}
use dqlited.Web.Handlers.{
  extended, exec_answer, body_statements, exec_statements, exec_opened, exec_reply, handle_exec,
}

module _ {W E S : Type 0} (H : Host W E) (V : Server W E) (contents : W → S) (apply : Bytes → S → S)
    (Partly : Bytes → S → S → Type 0) where
  -- A database where a text of statements that succeeds has its effect, and one that fails may have left
  -- a part of it, by `Partly`: the statements before the one that fails, or all where only the reply got
  -- lost. The database is opened and closed with no effect.
  pub record IsServed : Type 0 where
    pub exec_value :
        (ctx : Context) (q : Bytes) (w w' : W) (r : ExecResult E)
        → H.exec_context ctx q w ≡ (value r, w')
        → contents w' ≡ apply q (contents w)
    pub exec_error :
        (ctx : Context) (q : Bytes) (w w' : W) (e : E)
        → H.exec_context ctx q w ≡ (error e, w')
        → Partly q (contents w) (contents w')
    pub opens : (name : Bytes) (w : W) → contents (V.open_db name w).1 ≡ contents w
    pub closes : (w : W) → contents (V.close_db w) ≡ contents w

  -- The statements of a body, joined to one text.
  abbrev pub Joined : Reply Bytes E → Bytes → Type 0
  Joined body q =
      (text : Bytes) × (statements : List Bytes) × (body ≡ value text)
      × (V.decode_first text ≡ value statements)
      × (q ≡ join statements (codes "\n"))

  -- An answer that is a result means that the joined statements of the request have had their effect.
  -- An answer with an error means that nothing has changed, or that they failed. Any other answer means
  -- that nothing has changed.
  abbrev pub Effect : Reply Bytes E → List (Write E) → S → S → Type 0
  Effect body (executed j ∷ []) before after =
      (q : Bytes) × Joined body q × (after ≡ apply q before)
  Effect body (http_error code e ∷ []) before after =
      (after ≡ before) ⊎ ((q : Bytes) × Joined body q × Partly q before after)
  Effect body writes before after = after ≡ before

  -- A series has had the effect of its one text, or a part of it, or none.
  abbrev Had : Bytes → Outcome ExecuteResponse E → S → S → Type 0
  Had q (ok j) before after = after ≡ apply q before
  Had q (fail e) before after = (after ≡ before) ⊎ Partly q before after
  Had q panic before after = after ≡ before

  one_value :
      (ctx : Context) (q : Bytes) (v w : W) (r : ExecResult E)
      → H.exec_context ctx q v ≡ (value r, w)
      → execute_context_loop H ctx 1 0 [] (q ∷ []) v
        ≡ (ok (record { results = to_result H r ∷ [] }), w)
  unfolding execute_context_loop
  one_value ctx q v w r x = ground arith

  one_error :
      (ctx : Context) (q : Bytes) (v w : W) (e : E)
      → H.exec_context ctx q v ≡ (error e, w)
      → execute_context_loop H ctx 1 0 [] (q ∷ []) v ≡ (fail (execute_failed H 0 1 q e), w)
  unfolding execute_context_loop
  one_error ctx q v w e x = ground arith

  module _ (d : IsServed) where
    execute_context-Had :
        (ctx : Context) (q : Bytes) (s : State W)
        → Had q
            (execute_context H ctx (q ∷ []) s).0
            (contents s.world)
            (contents (execute_context H ctx (q ∷ []) s).1.world)
    unfolding execute_context database_disabled
    execute_context-Had ctx q s = elim (Bool-cases s.disabled) [
      | inl off ↦ rw off (inl refl)
      | inr on ↦ elim (Reply-cases (H.exec_context ctx q s.world)) [
        | inl (r, w, x) ↦ rw (on, one_value ctx q s.world w r x) (d.exec_value ctx q s.world w r x)
        | inr (e, w, x) ↦
            rw (on, one_error ctx q s.world w e x) (inr (d.exec_error ctx q s.world w e x))
      ]
    ]

    answer-Effect :
        (text : Bytes) (statements : List Bytes) (o : Outcome ExecuteResponse E) (before after : S)
        → V.decode_first text ≡ value statements
        → Had (join statements (codes "\n")) o before after
        → Effect (value text) (exec_answer H V o) before after
    answer-Effect text statements (ok j) before after decoded h =
        (join statements (codes "\n"), (text, statements, refl, decoded, refl), h)
    answer-Effect text statements (fail e) before after decoded (inl same) = inl same
    answer-Effect text statements (fail e) before after decoded (inr part) =
        inr (join statements (codes "\n"), (text, statements, refl, decoded, refl), part)
    answer-Effect text statements panic before after decoded h = h

    statements-Effect :
        (ctx : Context) (text : Bytes) (b : Reply (List Bytes) E) (s : State W)
        → V.decode_first text ≡ b
        → Effect
            (value text)
            (exec_statements H V ctx b s).0
            (contents s.world)
            (contents (exec_statements H V ctx b s).1.world)
    statements-Effect ctx text (error e) s decoded = inl refl
    statements-Effect ctx text (value statements) s decoded =
        answer-Effect text statements
          (execute_context H ctx (join statements (codes "\n") ∷ []) s).0 (contents s.world) _
          decoded (execute_context-Had ctx (join statements (codes "\n")) s)

    body-Effect :
        (ctx : Context) (body : Reply Bytes E) (s : State W)
        → Effect body
            (exec_statements H V ctx (body_statements H V body) s).0
            (contents s.world)
            (contents (exec_statements H V ctx (body_statements H V body) s).1.world)
    body-Effect ctx (value text) s = statements-Effect ctx text (V.decode_first text) s refl
    body-Effect ctx (error e) s = inl refl

    reply-Effect :
        (r : Request E) (s : State W) (p : Reply (Unit {0}) E × W)
        → contents p.1 ≡ contents s.world
        → Effect r.body
            (exec_reply H V r s p).0
            (contents s.world)
            (contents (exec_reply H V r s p).1.world)
    unfolding exec_opened
    reply-Effect r s (error e, w) h = inl h
    reply-Effect r s (value _, w) h =
        rw (d.closes (exec_opened H V r (record s { world = w })).1.world)
          (rw h at (body-Effect (extended r.deadline) r.body (record s { world = w })))

    -- Over a database that keeps the promises of `IsServed`, the handler of `/db/execute/` that answers
    -- with a result has applied the joined statements of the body, once. Where it answers with the text of
    -- an error, it has changed nothing, or it has run the joined statements, once, and they failed. With any
    -- other answer, also where it panics, it has changed nothing.
    pub handle_exec-Effect :
        (r : Request E) (s : State W)
        → Effect r.body
            (handle_exec H V r s).0
            (contents s.world)
            (contents (handle_exec H V r s).1.world)
    unfolding handle_exec
    handle_exec-Effect r s = elim (Bool-cases (equal r.method (codes "POST"))) [
      | inl post ↦
          rw post (
            reply-Effect r s (V.open_db (db_name r.path) s.world)
              (d.opens (db_name r.path) s.world))
      | inr other ↦ rw other refl
    ]
