-- ===== src/Db/Batch/Commands/Transactions.antt =====
-- Which transactions `DBX.Batch` begins and commits.
use dqlited.Base.{
  ℕ, zero, suc, ◌+◌, ◌%◌, ◌^◌, ◌≡◌, refl, ap, List, [], ◌∷◌, ◌++◌, Bytes, Option, none, some, arith,
  inl, inr,
}
use dqlited.Go.{
  Outcome, ok, fail, panic, continue, pure, Reply-cases, value, error, Host, background,
}
use dqlited.Db.{State, Dbx}
use dqlited.Db.Exec.{exec, exec_loop, retry_limit, millisecond}
use dqlited.Db.Query.{query}
use dqlited.Db.Batch.{batch, run_statement}
use dqlited.Db.Batch.Commands.{
  Command, begin, commit, run, script, run_command, run_commands, batch-script,
}

module _ {W E T : Type 0} (H : Host W E) (seen : W → T) (on_begin on_commit : T → T) where
  -- What is seen of the world changes only by a begin and by a commit that succeed. Of a rollback
  -- nothing is said.
  pub record IsTally : Type 0 where
    pub exec_keeps : (q : Bytes) (w : W) → seen (H.exec_context background q w).1 ≡ seen w
    pub query_keeps : (q : Bytes) (w : W) → seen (H.query q w).1 ≡ seen w
    pub sleep_keeps : (d : ℕ) (w : W) → seen (H.sleep d w) ≡ seen w
    pub tx_exec_keeps : (tx : ℕ) (q : Bytes) (w : W) → seen (H.tx_exec tx q w).1 ≡ seen w
    pub begin_value : (w w' : W) (tx : ℕ) → H.begin w ≡ (value tx, w') → seen w' ≡ on_begin (seen w)
    pub begin_error : (w w' : W) (e : E) → H.begin w ≡ (error e, w') → seen w' ≡ seen w
    pub commit_value :
        (tx : ℕ) (w w' : W) → H.tx_commit tx w ≡ (value tt, w') → seen w' ≡ on_commit (seen w)
    pub commit_error :
        (tx : ℕ) (w w' : W) (e : E) → H.tx_commit tx w ≡ (error e, w') → seen w' ≡ seen w

  -- What is seen behind a command that succeeds, and behind such commands.
  abbrev behind : Command → T → T
  behind begin t = on_begin t
  behind commit t = on_commit t
  behind (run line stmt) t = t

  abbrev pub behind_all : List Command → T → T
  behind_all [] t = t
  behind_all (c ∷ cs) t = behind_all cs (behind c t)

  -- The commands `done` of the list have succeeded, which are all of them where the outcome is a
  -- success.
  abbrev pub Tallied : {A : Type 0} → List Command → T → Outcome A E → T → Type 0
  Tallied cs t (ok a) t' = t' ≡ behind_all cs t
  Tallied cs t o t' =
      (done others : List Command) × (cs ≡ done ++ others) × (t' ≡ behind_all done t)

  module _ (m : IsTally) where
    exec_loop_keeps :
        (n delay : ℕ) (last : Option E) (q : Bytes) (w : W)
        → seen (exec_loop H n delay last q w).1 ≡ seen w
    unfolding exec_loop
    exec_loop_keeps zero delay last q w = refl
    exec_loop_keeps (suc n) delay last q w = elim (Reply-cases (H.exec_context background q w)) [
      | inl (r, w', x) ↦
          let kept : seen w' ≡ seen w = rw x at (m.exec_keeps q w) in ground (arith, x, kept)
      | inr (e, w', x) ↦
          let kept : seen w' ≡ seen w = rw x at (m.exec_keeps q w) in
          ground (
            arith,
            x,
            kept,
            m.sleep_keeps delay w',
            exec_loop_keeps n ((delay + delay) % 2 ^ 64) (some e) q (H.sleep delay w'),
          )
    ]

    exec_keeps : (q : Bytes) (s : State W) → seen (exec H q s).1.world ≡ seen s.world
    unfolding exec
    exec_keeps q s = ground (arith, exec_loop_keeps retry_limit millisecond none q s.world)

    query_keeps :
        (dx : Dbx) (q : Bytes) (s : State W) → seen (query H dx q s).1.world ≡ seen s.world
    unfolding query
    query_keeps dx q s = ground (arith, m.query_keeps q s.world)

    module _ (dx : Dbx) where
      run_statement_keeps :
          (tx : Option ℕ) (line stmt : Bytes) (s : State W)
          → seen (run_statement H dx tx line stmt s).1.world ≡ seen s.world
      run_statement_keeps none line stmt s =
          ground (arith, query_keeps dx stmt s, exec_keeps stmt s)
      run_statement_keeps (some tx) line stmt s =
          ground (arith, query_keeps dx stmt s, m.tx_exec_keeps tx stmt s.world)

      -- What one command does.
      abbrev Behind : {A : Type 0} → Command → T → Outcome A E → T → Type 0
      Behind c t (ok a) t' = t' ≡ behind c t
      Behind c t o t' = t' ≡ t

      statement-Behind :
          (tx : Option ℕ) (line stmt : Bytes) (t : T) (o : Outcome (Unit {0}) E) (s : State W)
          → seen s.world ≡ t
          → Behind
              (run line stmt)
              t
              (continue o (λ _. pure tx) s).0
              (seen (continue o (λ _. pure tx) s).1.world)
      statement-Behind tx line stmt t (ok _) s e = e
      statement-Behind tx line stmt t (fail x) s e = e
      statement-Behind tx line stmt t panic s e = e

      run_command-Behind :
          (tx : Option ℕ) (c : Command) (s : State W)
          → Behind c
              (seen s.world)
              (run_command H dx tx c s).0
              (seen (run_command H dx tx c s).1.world)
      unfolding run_command
      run_command-Behind tx begin s = elim (Reply-cases (H.begin s.world)) [
        | inl (t, w, x) ↦ rw x (m.begin_value s.world w t x)
        | inr (e, w, x) ↦ rw x (m.begin_error s.world w e x)
      ]
      run_command-Behind none commit s = refl
      run_command-Behind (some tx) commit s = elim (Reply-cases (H.tx_commit tx s.world)) [
        | inl (u, w, x) ↦ rw x (m.commit_value tx s.world w x)
        | inr (e, w, x) ↦ rw x (m.commit_error tx s.world w e x)
      ]
      run_command-Behind tx (run line stmt) s =
          statement-Behind tx line stmt (seen s.world) (run_statement H dx tx line stmt s).0
            (run_statement H dx tx line stmt s).1 (run_statement_keeps tx line stmt s)

      Tallied-cons :
          (c : Command) (cs : List Command) (t t' : T) (o : Outcome (Unit {0}) E)
          → Tallied cs (behind c t) o t'
          → Tallied (c ∷ cs) t o t'
      Tallied-cons c cs t t' (ok _) h = h
      Tallied-cons c cs t t' (fail e) (done, others, p, e') = (c ∷ done, others, ap (◌∷◌ c) p, e')
      Tallied-cons c cs t t' panic (done, others, p, e') = (c ∷ done, others, ap (◌∷◌ c) p, e')

      then-Tallied :
          (c : Command) (cs : List Command) (t : T) (o : Outcome (Option ℕ) E) (s : State W)
          → ((tx : Option ℕ) (s' : State W)
              → Tallied cs
                  (seen s'.world)
                  (run_commands H dx tx cs s').0
                  (seen (run_commands H dx tx cs s').1.world))
          → Behind c t o (seen s.world)
          → Tallied
              (c ∷ cs)
              t
              (continue o (λ tx. run_commands H dx tx cs) s).0
              (seen (continue o (λ tx. run_commands H dx tx cs) s).1.world)
      then-Tallied c cs t (ok tx) s k e = Tallied-cons c cs t _ _ (rw (← e) (k tx s))
      then-Tallied c cs t (fail x) s k e = ([], c ∷ cs, refl, e)
      then-Tallied c cs t panic s k e = ([], c ∷ cs, refl, e)

      run_commands-Tallied :
          (cs : List Command) (tx : Option ℕ) (s : State W)
          → Tallied cs
              (seen s.world)
              (run_commands H dx tx cs s).0
              (seen (run_commands H dx tx cs s).1.world)
      unfolding run_commands
      run_commands-Tallied [] tx s = refl
      run_commands-Tallied (c ∷ cs) tx s =
          then-Tallied c cs (seen s.world) (run_command H dx tx c s).0 (run_command H dx tx c s).1
            (λ tx' s'. run_commands-Tallied cs tx' s') (run_command-Behind tx c s)

      -- By what is seen of the world, where that changes only by a begin and by a commit that
      -- succeed, `DBX.Batch` changes it as the commands of its script say: on success by all of
      -- them, and on an error or a panic by those of a first part of the script. A rollback, of
      -- which nothing is assumed, is not among them.
      pub batch-Tallied :
          (buffer : Bytes) (s : State W)
          → Tallied
              (script buffer)
              (seen s.world)
              (batch H dx buffer s).0
              (seen (batch H dx buffer s).1.world)
      batch-Tallied buffer s =
          rw (batch-script H dx buffer s) (run_commands-Tallied (script buffer) none s)
