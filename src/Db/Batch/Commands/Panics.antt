-- ===== src/Db/Batch/Commands/Panics.antt =====
-- When `DBX.Batch` panics: on a `COMMIT;` with no transaction open, and never else.
use dqlited.Base.{
  ℕ, Bool, true, false, ◌&&◌, ◌≡◌, ◌≢◌, List, [], ◌∷◌, Bytes, Option, none, some, arith, inl, inr,
  Bool-cases,
}
use dqlited.Go.{Outcome, ok, panic, continue-ne-panic, continue-ne-ok, Host, ExecResult}
use dqlited.Db.{State, Dbx}
use dqlited.Db.Exec.{exec}
use dqlited.Db.Exec.Attempts.{Ends, written, refused, exhausted, exec-Ends}
use dqlited.Db.Batch.{batch}
use dqlited.Db.Batch.Commands.{
  Command, begin, commit, run, script, run_command, run_commands, batch-script,
}

-- A commit wants an open transaction.
abbrev allowed : Bool → Command → Bool
allowed open_tx begin = true
allowed open_tx commit = open_tx
allowed open_tx (run line stmt) = true

-- Whether a transaction is open behind a command.
abbrev after : Bool → Command → Bool
after open_tx begin = true
after open_tx commit = false
after open_tx (run line stmt) = open_tx

-- Each commit has an open transaction; the flag tells whether one is open at the start.
abbrev pub safe : Bool → List Command → Bool
safe open_tx [] = true
safe open_tx (c ∷ cs) = allowed open_tx c && safe (after open_tx c) cs

abbrev is_open : Option ℕ → Bool
is_open none = false
is_open (some tx) = true

module _ {W E : Type 0} (H : Host W E) where
  Ends-ne-panic :
      {query : Bytes} {n delay : ℕ} {last : Option E} {w w' : W}
      {o : Outcome (Option (ExecResult E)) E}
      → Ends H query n delay last w o w'
      → o ≢ panic
  Ends-ne-panic (written lt fs x e) k = cc
  Ends-ne-panic (refused lt fs x f e) k = cc
  Ends-ne-panic (exhausted {final} fs e) k = ground arith

  exec-ne-panic : (query : Bytes) (s : State W) → (exec H query s).0 ≢ panic
  exec-ne-panic query s = elim (Bool-cases s.disabled) [
    | inl off ↦ unfold exec in ground arith
    | inr on ↦ Ends-ne-panic (exec-Ends H query s on).0
  ]

  module _ (dx : Dbx) where
    run_command-after :
        (tx tx' : Option ℕ) (c : Command) (s : State W)
        → (run_command H dx tx c s).0 ≡ ok tx'
        → (allowed (is_open tx) c ≡ true) × (is_open tx' ≡ after (is_open tx) c)
    unfolding run_command
    run_command-after tx tx' begin s h = ground arith
    run_command-after tx tx' commit s h = ground arith
    run_command-after tx tx' (run line stmt) s h = ground arith

    run_command-ne-panic :
        (tx : Option ℕ) (c : Command) (s : State W)
        → allowed (is_open tx) c ≡ true
        → (run_command H dx tx c s).0 ≢ panic
    unfolding run_command
    run_command-ne-panic tx begin s h = ground arith
    run_command-ne-panic tx commit s h = ground arith
    run_command-ne-panic tx (run line stmt) s h = ground (arith, exec-ne-panic stmt s)

    run_commands-ne-panic :
        (cs : List Command) (tx : Option ℕ) (s : State W)
        → safe (is_open tx) cs ≡ true
        → (run_commands H dx tx cs s).0 ≢ panic
    unfolding run_commands
    run_commands-ne-panic [] tx s h = λ p. cc
    run_commands-ne-panic (c ∷ cs) tx s h =
        continue-ne-panic (λ tx'. run_commands H dx tx' cs) (run_command H dx tx c s).0
          (run_command H dx tx c s).1 (run_command-ne-panic tx c s (ground arith))
          (λ tx' e.
            run_commands-ne-panic cs tx' (run_command H dx tx c s).1
              (rw ((run_command-after tx tx' c s e).1) (ground arith)))

    run_commands_unsafe :
        (cs : List Command) (tx : Option ℕ) (s : State W)
        → safe (is_open tx) cs ≡ false
        → (run_commands H dx tx cs s).0 ≢ ok tt
    unfolding run_commands
    run_commands_unsafe [] tx s h = λ p. cc
    run_commands_unsafe (c ∷ cs) tx s h =
        continue-ne-ok (λ tx'. run_commands H dx tx' cs) (run_command H dx tx c s).0
          (run_command H dx tx c s).1 tt
          (λ tx' e.
            let (fine, next) = run_command-after tx tx' c s e in
            run_commands_unsafe cs tx' (run_command H dx tx c s).1 (rw next (ground arith)))

    -- A script in which each `COMMIT;` follows a `BEGIN TRANSACTION` does not make `DBX.Batch`
    -- panic, whatever the database answers.
    pub batch-ne-panic :
        (buffer : Bytes) (s : State W)
        → safe false (script buffer) ≡ true
        → (batch H dx buffer s).0 ≢ panic
    batch-ne-panic buffer s h =
        rw (batch-script H dx buffer s) (run_commands-ne-panic (script buffer) none s h)

    -- A script with a `COMMIT;` that has no open transaction never makes `DBX.Batch` succeed.
    batch_unsafe :
        (buffer : Bytes) (s : State W)
        → safe false (script buffer) ≡ false
        → (batch H dx buffer s).0 ≢ ok tt
    batch_unsafe buffer s h =
        rw (batch-script H dx buffer s) (run_commands_unsafe (script buffer) none s h)
