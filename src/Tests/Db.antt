-- ===== src/Tests/Db.antt =====
-- The theorems on db.go but for its scripts, at small inputs.
use dqlited.Base.{
  ℕ, ltb, inr, arith, if◌then◌else◌, ◌+◌, ◌*◌, ◌≡◌, ◌≤◌, refl, true, false, List, [], ◌∷◌, Bytes,
  codes, none, some,
}
use dqlited.Go.{Host, error, ok, value, Message, background}
use dqlited.Db.{State, enable_database, unavailable}
use dqlited.Db.Exec.{is_sql_failure, exec, retry_limit, millisecond}
use dqlited.Db.Exec.Attempts.{Ends, exec-Ends}
use dqlited.Db.Exec.Pauses.{IsMeter, exec-meter}
use dqlited.Db.QueryRows.{Reading, query_rows_context}
use dqlited.Db.QueryRows.Shape.{Reads}
use dqlited.Db.Execute.{execute_context}
use dqlited.Db.Execute.Runs.{execute_context-Ends}
use dqlited.Db.Execute.Runs as Series
use dqlited.Db.Transact.{transact}
use dqlited.Db.Transact.Ends.{Runs, transact-Ends}
use dqlited.Db.Transact.Ends as Transaction
use dqlited.Db.Exec.Repeats.{IsLossy, AtLeastOnce, exec-AtLeastOnce}
use dqlited.Db.Exec.Switching.{
  Race, returned, Run, here, next, admit, enable, retry, pause, succeed, called,
}
use dqlited.Db.Exec.Switching.Reads.{Agrees, CanReturn, run-Agrees}
use dqlited.Tests.World.{World, host, state, world, result, table, busy}

abbrev insert : Bytes
insert = codes "INSERT INTO t VALUES(1)"

abbrev select : Bytes
select = codes "select * from t"

-- The counters of `world` follow the calls and the pauses.
meter : IsMeter host (λ w. w.calls) (λ w. w.slept)
meter = record {
  calls-exec = λ q w. refl;
  slept-exec = λ q w. refl;
  calls-sleep = λ d w. refl;
  slept-sleep = λ d w. refl;
}

exec-Ends_example :
    Ends host insert retry_limit millisecond none world
      (exec host insert state).0
      (exec host insert state).1.world
    × ((exec host insert state).1 ≡ record state { world = (exec host insert state).1.world })
exec-Ends_example = exec-Ends host insert state refl

exec-meter_example :
    (1 + 0 ≤ (exec host insert state).1.world.calls)
    × ((exec host insert state).1.world.calls ≤ 0 + 10)
    × ((exec host insert state).1.world.slept ≤ 0 + 1023 * millisecond)
exec-meter_example = exec-meter host (λ w. w.calls) (λ w. w.slept) meter insert state refl

abbrev readings : List Reading
readings =
    record {
      columns = codes "id" ∷ codes "name" ∷ [];
      types = codes "INTEGER" ∷ codes "TEXT" ∷ [];
      values = (codes "1" ∷ codes "a" ∷ []) ∷ (codes "2" ∷ codes "b" ∷ []) ∷ [];
    }
    ∷ []

execute_context-Ends_example :
    Series.Ends host background 0 1 []
      (insert ∷ [])
      world
      (execute_context host background (insert ∷ []) state).0
      (execute_context host background (insert ∷ []) state).1.world
    × ((execute_context host background (insert ∷ []) state).1
        ≡ record state { world = (execute_context host background (insert ∷ []) state).1.world })
execute_context-Ends_example = execute_context-Ends host background (insert ∷ []) state refl

transact-Ends_example :
    Transaction.Ends host
      (insert ∷ [] ∷ [])
      world
      (transact host (insert ∷ [] ∷ []) state).0
      (transact host (insert ∷ [] ∷ []) state).1.world
    × ((transact host (insert ∷ [] ∷ []) state).1
        ≡ record state { world = (transact host (insert ∷ [] ∷ []) state).1.world })
transact-Ends_example = transact-Ends host (insert ∷ [] ∷ []) state

-- A table of so many rows, of which each statement makes one more: from the second row on, the reply
-- arrives, and before that it is lost.
abbrev lossy : Host ℕ Message
lossy = record {
  errorf = λ m. m;
  wrap = λ m e. m;
  driver_code = λ e. none;
  exec_context = λ ctx q rows. (if ltb rows 1 then error busy else value result, rows + 1);
  query = λ q w. (value (record { head = table; rest = [] }), w);
  begin = λ w. (value 7, w);
  tx_exec = λ tx q w. (error busy, w);
  tx_commit = λ tx w. (value tt, w);
  tx_rollback = λ tx w. (value tt, w);
  sleep = λ d w. w;
  tabulate = λ b t. t;
}

abbrev empty_table : State ℕ
empty_table = record { world = 0; disabled = false; out = [] }

lossy-IsLossy : IsLossy lossy (λ rows. rows) (λ q rows. rows + 1)
unfolding is_sql_failure
lossy-IsLossy = record {
  answered = λ q w w' r x. ground arith;
  rejected = λ q w w' e x f. ground arith;
  lost = λ q w w' e x f. inr (ground arith);
  sleeps = λ d w. refl;
}

exec-AtLeastOnce_example :
    let s : State ℕ = record { world = 0; disabled = false; out = [] } in
    AtLeastOnce lossy
      (λ rows. rows)
      (λ q rows. rows + 1)
      insert
      (exec lossy insert s).0
      0
      (exec lossy insert s).1.world
exec-AtLeastOnce_example =
    exec-AtLeastOnce lossy (λ rows. rows) (λ q rows. rows + 1) lossy-IsLossy insert empty_table refl

-- The breaker is switched off behind the check of a call, which goes on to its second attempt.
abbrev switched : Race ℕ Message
switched = record { position = returned (ok (some result)); disabled = true; world = 2 }

switching :
    Run lossy insert (called empty_table) (true ∷ true ∷ true ∷ true ∷ false ∷ false ∷ []) switched
unfolding is_sql_failure
switching =
    next
      (next
        (next (next (next here (admit refl refl refl)) (enable false refl))
          (retry 9 millisecond none busy 1 refl refl refl refl))
        (pause 9 millisecond busy refl refl))
      (succeed 8 (2 * millisecond) (some busy) result 2 refl refl refl)

run-Agrees_example :
    Agrees lossy insert
      (true ∷ true ∷ true ∷ true ∷ false ∷ false ∷ [])
      empty_table
      switched.position
      2
    × CanReturn lossy insert switched
run-Agrees_example = run-Agrees lossy insert empty_table switching
