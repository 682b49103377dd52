-- ===== src/Db/Execute/Runs.antt =====
-- What `Execute`, `MakeExec` and `ExecuteContext` return, as a relation between the database before
-- and after.
use dqlited.Base.{
  ℕ, suc, ◌+◌, ◌≡◌, refl, sym, ap, ◌∙◌, Bool, false, List, [], ◌∷◌, ◌++◌, length, length-append,
  append_assoc, append-nil, Bytes, arith, inl, inr, Bool-cases,
}
use dqlited.Go.{
  msg, num, text, Outcome, ok, fail, value, error, Host, ExecResult, Context, background,
  Reply-cases,
}
use dqlited.Db.{State}
use dqlited.Db.Execute.{
  Result, ExecuteResponse, to_result, execute_failed, execute_loop, execute, execute_context_loop,
  execute_context, make_exec,
}

module _ {W E : Type 0} (H : Host W E) (ctx : Context) where
  open H use {exec_context}

  -- All statements succeed, in their order, with these results.
  pub data Runs : List Bytes → W → List Result → W → Type 0 where
    nil : {w : W} → Runs [] w [] w
    cons :
        {statement : Bytes} {statements : List Bytes} {w w' w'' : W} {r : ExecResult E}
        {results : List Result}
        → exec_context ctx statement w ≡ (value r, w')
        → Runs statements w' results w''
        → Runs
            (statement ∷ statements)
            w
            (record { last_insert_id = r.last_id_value; rows_affected = r.rows_affected } ∷ results)
            w''

  -- A series ends with all its results, or at the first statement that fails, with an error that tells
  -- its place, counted from 1, the number of the statements, and its text.
  pub data Ends (i : ℕ) (total : ℕ) (old : List Result) (statements : List Bytes) (w : W)
      (o : Outcome ExecuteResponse E) (w' : W) : Type 0 where
    done :
        {results : List Result}
        → Runs statements w results w'
        → o ≡ ok (record { results = old ++ results })
        → Ends i total old statements w o w'
    stopped :
        (before after : List Bytes) {bad : Bytes} {results : List Result} {w₁ : W} {e : E}
        → statements ≡ before ++ bad ∷ after
        → Runs before w results w₁
        → exec_context ctx bad w₁ ≡ (error e, w')
        → o
          ≡ fail (
              H.wrap
                (msg "DBX.Execute fail (%d/%d): %q"
                  (num (i + length before + 1) ∷ num total ∷ text bad ∷ []))
                e)
        → Ends i total old statements w o w'

  length-Runs :
      {statements : List Bytes} {w w' : W} {results : List Result}
      → Runs statements w results w'
      → length results ≡ length statements
  length-Runs nil = refl
  length-Runs (cons x r) = ap suc (length-Runs r)

  Ends-cons :
      {i total : ℕ} {old : List Result} {statement : Bytes} {statements : List Bytes} {w w' : W}
      {r : ExecResult E} {o : Outcome ExecuteResponse E} {w'' : W}
      → exec_context ctx statement w ≡ (value r, w')
      → Ends (i + 1) total (old ++ to_result H r ∷ []) statements w' o w''
      → Ends i total old (statement ∷ statements) w o w''
  Ends-cons {old} {r} x (done {results} rs e) =
      done (cons x rs)
        (e ∙ ap (λ z. ok (record { results = z })) (append_assoc old (to_result H r ∷ []) results))
  Ends-cons {i} {total} {statement} x (stopped before after {bad = bad} {e = e'} s rs y e) =
      stopped (statement ∷ before) after (ap (◌∷◌ statement) s) (cons x rs) y
        (e ∙ ap (λ k. fail (execute_failed H k total bad e')) (omega arith))

  module _ (total i : ℕ) (old : List Result) (statement : Bytes) (statements : List Bytes)
      (w : W) where
    loop_value :
        (r : ExecResult E) (w' : W)
        → exec_context ctx statement w ≡ (value r, w')
        → execute_context_loop H ctx total i old (statement ∷ statements) w
          ≡ execute_context_loop H ctx total (i + 1) (old ++ to_result H r ∷ []) statements w'
    unfolding execute_context_loop
    loop_value r w' x = ground arith

    loop_error :
        (e : E) (w' : W)
        → exec_context ctx statement w ≡ (error e, w')
        → execute_context_loop H ctx total i old (statement ∷ statements) w
          ≡ (fail (execute_failed H i total statement e), w')
    unfolding execute_context_loop
    loop_error e w' x = ground arith

  execute_context_loop-Ends :
      (total i : ℕ) (old : List Result) (statements : List Bytes) (w : W)
      → Ends i total old statements w
          (execute_context_loop H ctx total i old statements w).0
          (execute_context_loop H ctx total i old statements w).1
  execute_context_loop-Ends total i old [] w =
      unfold execute_context_loop in
      done nil (ap (λ z. ok (record { results = z })) (sym (append-nil old)))
  execute_context_loop-Ends total i old (statement ∷ statements) w =
      elim (Reply-cases (exec_context ctx statement w)) [
        | inl (r, w', x) ↦ rw (loop_value total i old statement statements w r w' x) (
            Ends-cons x
              (execute_context_loop-Ends total (i + 1) (old ++ to_result H r ∷ []) statements w'))
        | inr (e, w', x) ↦ rw (loop_error total i old statement statements w e w' x) (
            stopped [] statements refl nil x
              (ap (λ k. fail (execute_failed H k total statement e)) (omega arith)))
      ]

  -- With the breaker closed, `ExecuteContext` runs the statements in their order. Either all succeed
  -- and it returns for each, in their order, the last ID and the number of rows that the database
  -- answered, or it stops at the first that fails and returns no result but an error that tells this
  -- statement and its place, counted from 1. Nothing else of the state changes.
  pub execute_context-Ends :
      (statements : List Bytes) (s : State W)
      → s.disabled ≡ false
      → Ends 0
          (length statements)
          []
          statements
          s.world
          (execute_context H ctx statements s).0
          (execute_context H ctx statements s).1.world
        × ((execute_context H ctx statements s).1
            ≡ record s { world = (execute_context H ctx statements s).1.world })
  unfolding execute_context
  execute_context-Ends statements s on =
      rw on (execute_context_loop-Ends (length statements) 0 [] statements s.world, refl)

module _ {W E : Type 0} (H : Host W E) where
  execute_loop-context :
      (total i : ℕ) (old : List Result) (statements : List Bytes) (w : W)
      → execute_loop H total i old statements w
        ≡ execute_context_loop H background total i old statements w
  unfolding execute_loop execute_context_loop
  execute_loop-context total i old [] w = refl
  execute_loop-context total i old (statement ∷ statements) w =
      elim (Reply-cases (H.exec_context background statement w)) [
        | inl (r, w', x) ↦
            ground
              (arith, execute_loop-context total (i + 1) (old ++ to_result H r ∷ []) statements w')
        | inr (e, w', x) ↦ ground arith
      ]

  -- `DBX.Execute` and every closure of `MakeExec` do what `ExecuteContext` does, `DBX.Execute` with
  -- a context that has no deadline.
  execute-eq-execute_context :
      (verbose : Bool) (ctx : Context) (statements : List Bytes) (s : State W)
      → (execute H statements s ≡ execute_context H background statements s)
        × (make_exec H verbose ctx statements s ≡ execute_context H ctx statements s)
  unfolding execute execute_context make_exec
  execute-eq-execute_context verbose ctx statements s = (rw execute_loop-context, refl)

ok-results :
    {E : Type 0} {resp : ExecuteResponse} {results : List Result}
    → ◌≡◌ {A = Outcome ExecuteResponse E} (ok resp) (ok (record { results = results }))
    → length resp.results ≡ length results
ok-results e = ground arith

module _ {W E : Type 0} (H : Host W E) (ctx : Context) where
  Ends-length :
      {total i : ℕ} {old : List Result} {statements : List Bytes} {w w' : W}
      {o : Outcome ExecuteResponse E} {resp : ExecuteResponse}
      → Ends H ctx i total old statements w o w'
      → o ≡ ok resp
      → length resp.results ≡ length old + length statements
  Ends-length {old} (done {results} rs e) k =
      omega (arith, length-append old results, length-Runs H ctx rs, ok-results (sym k ∙ e))
  Ends-length (stopped before after s rs y e) k = cc

  -- Whenever `ExecuteContext` returns a response, that has one result for each statement.
  pub execute_context-length :
      (statements : List Bytes) (s : State W) (resp : ExecuteResponse)
      → (execute_context H ctx statements s).0 ≡ ok resp
      → length resp.results ≡ length statements
  execute_context-length statements s resp h = elim (Bool-cases s.disabled) [
    | inl off ↦ unfold execute_context in ground arith
    | inr on ↦ omega (arith, Ends-length (execute_context-Ends H ctx statements s on).0 h)
  ]
