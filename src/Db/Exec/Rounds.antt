-- ===== src/Db/Exec/Rounds.antt =====
-- One round of the loop of `DBX.exec`, by what the database answers.
use dqlited.Base.{ℕ, suc, ◌+◌, ◌%◌, ◌^◌, ◌≡◌, true, false, Bytes, Option, some, arith}
use dqlited.Go.{ok, fail, value, error, Host, ExecResult, background}
use dqlited.Db.Exec.{is_sql_failure, exec_loop}

module _ {W E : Type 0} (H : Host W E) (query : Bytes) where
  pub loop_value :
      (n delay : ℕ) (last : Option E) (r : ExecResult E) (v w : W)
      → H.exec_context background query v ≡ (value r, w)
      → exec_loop H (suc n) delay last query v ≡ (ok (some r), w)
  unfolding exec_loop
  loop_value n delay last r v w x = ground arith

  pub loop_refused :
      (n delay : ℕ) (last : Option E) (e : E) (v w : W)
      → H.exec_context background query v ≡ (error e, w)
      → is_sql_failure H e ≡ true
      → exec_loop H (suc n) delay last query v ≡ (fail e, w)
  unfolding exec_loop
  loop_refused n delay last e v w x f = ground arith

  pub loop_failed :
      (n delay : ℕ) (last : Option E) (e : E) (v w : W)
      → H.exec_context background query v ≡ (error e, w)
      → is_sql_failure H e ≡ false
      → exec_loop H (suc n) delay last query v
        ≡ exec_loop H n ((delay + delay) % 2 ^ 64) (some e) query (H.sleep delay w)
  unfolding exec_loop
  loop_failed n delay last e v w x f = ground arith
