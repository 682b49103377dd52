-- ===== src/Db/Exec/Attempts.antt =====
-- What `DBX.exec` returns, as a relation between the database before and after.
use native.Mathlib.Nat.{pow-suc, one-le-pow}
use dqlited.Base.{
  [], ap, ℕ, zero, suc, ◌+◌, ◌*◌, ◌%◌, ◌^◌, ◌<◌, ◌≤◌, ◌≡◌, refl, true, false, Bytes, Option, none,
  some, arith, inl, inr, Bool-cases,
}
use dqlited.Go.{msg, Outcome, ok, fail, value, error, Host, ExecResult, background, Reply-cases}
use dqlited.Db.{State}
use dqlited.Db.Exec.{is_sql_failure, after_loop, exec_loop, exec, retry_limit, millisecond}

-- Doubling a pause does not wrap around while `n` more doublings fit.
pause_fits :
    (n delay : ℕ)
    → delay * 2 ^ suc n < 2 ^ 64
    → ((delay + delay) * 2 ^ n < 2 ^ 64) × ((delay + delay) % 2 ^ 64 ≡ delay + delay)
pause_fits n delay h =
    let double : delay * 2 ^ suc n ≡ (delay + delay) * 2 ^ n =
      omega (arith, ap (λ (t : ℕ). delay * t) (pow-suc 2 n)) in
    let positive : 1 ≤ 2 ^ n = one-le-pow n 2 (omega arith) in
    let wide : delay + delay ≤ (delay + delay) * 2 ^ n = grind arith in (omega arith, omega arith)

module _ {W E : Type 0} (H : Host W E) where
  open H use {wrap, exec_context, sleep}

  -- `n` tries in a row that failed for another reason than SQL, each with its pause, the first one
  -- of length `delay` and each next one twice as long; `last` is the error before them.
  pub data Failures (query : Bytes) : ℕ → ℕ → Option E → W → Option E → W → Type 0 where
    none_yet : {delay : ℕ} {last : Option E} {w : W} → Failures query zero delay last w last w
    again :
        {n delay : ℕ} {last final : Option E} {w w' w'' : W} {e : E}
        → exec_context background query w ≡ (error e, w')
        → is_sql_failure H e ≡ false
        → Failures query n (delay + delay) (some e) (sleep delay w') final w''
        → Failures query (suc n) delay last w final w''

  -- The error of the last try, wrapped. With no try at all there is no error.
  abbrev pub given_up : Option E → Outcome (Option (ExecResult E)) E
  given_up none = ok none
  given_up (some e) = fail (wrap (msg "DBX exec fail" []) e)

  given_up_lem : (last : Option E) → after_loop H last ≡ given_up last
  given_up_lem none = refl
  given_up_lem (some e) = refl

  -- The three ways in which at most `n` tries end.
  pub data Ends (query : Bytes) (n delay : ℕ) (last : Option E) (w : W)
      (o : Outcome (Option (ExecResult E)) E) (w' : W) : Type 0 where
    -- a try after `k` failures succeeds
    written :
        {k : ℕ} {final : Option E} {before : W} {r : ExecResult E}
        → k < n
        → Failures query k delay last w final before
        → exec_context background query before ≡ (value r, w')
        → o ≡ ok (some r)
        → Ends query n delay last w o w'
    -- SQL refuses a try after `k` failures, and that error is returned as it is
    refused :
        {k : ℕ} {final : Option E} {before : W} {e : E}
        → k < n
        → Failures query k delay last w final before
        → exec_context background query before ≡ (error e, w')
        → is_sql_failure H e ≡ true
        → o ≡ fail e
        → Ends query n delay last w o w'
    -- all `n` tries fail, and the last error is returned, wrapped
    exhausted :
        {final : Option E}
        → Failures query n delay last w final w'
        → o ≡ given_up final
        → Ends query n delay last w o w'

  Ends-again :
      {query : Bytes} {n delay : ℕ} {last : Option E} {w w' : W} {e : E}
      {o : Outcome (Option (ExecResult E)) E} {w'' : W}
      → exec_context background query w ≡ (error e, w')
      → is_sql_failure H e ≡ false
      → Ends query n (delay + delay) (some e) (sleep delay w') o w''
      → Ends query (suc n) delay last w o w''
  Ends-again x f (written lt fs y r) = written (omega arith) (again x f fs) y r
  Ends-again x f (refused lt fs y s r) = refused (omega arith) (again x f fs) y s r
  Ends-again x f (exhausted fs r) = exhausted (again x f fs) r

  module _ (n delay : ℕ) (last : Option E) (query : Bytes) (w : W) where
    exec_loop_value :
        (r : ExecResult E) (w' : W)
        → exec_context background query w ≡ (value r, w')
        → exec_loop H (suc n) delay last query w ≡ (ok (some r), w')
    unfolding exec_loop
    exec_loop_value r w' x = ground arith

    exec_loop_refused :
        (e : E) (w' : W)
        → exec_context background query w ≡ (error e, w')
        → is_sql_failure H e ≡ true
        → exec_loop H (suc n) delay last query w ≡ (fail e, w')
    unfolding exec_loop
    exec_loop_refused e w' x f = ground arith

    exec_loop_again :
        (e : E) (w' : W)
        → exec_context background query w ≡ (error e, w')
        → is_sql_failure H e ≡ false
        → exec_loop H (suc n) delay last query w
          ≡ exec_loop H n ((delay + delay) % 2 ^ 64) (some e) query (sleep delay w')
    unfolding exec_loop
    exec_loop_again e w' x f = ground arith

  exec_loop-Ends :
      (n delay : ℕ) (last : Option E) (query : Bytes) (w : W)
      → delay * 2 ^ n < 2 ^ 64
      → Ends query n delay last w
          (exec_loop H n delay last query w).0
          (exec_loop H n delay last query w).1
  exec_loop-Ends zero delay last query w fits =
      unfold exec_loop in exhausted none_yet (given_up_lem last)
  exec_loop-Ends (suc n) delay last query w fits =
      elim (Reply-cases (exec_context background query w)) [
        | inl (r, w', x) ↦
            rw (exec_loop_value n delay last query w r w' x)
              (written {k = zero} (omega arith) none_yet x refl)
        | inr (e, w', x) ↦ elim (Bool-cases (is_sql_failure H e)) [
          | inl sql ↦
              rw (exec_loop_refused n delay last query w e w' x sql)
                (refused {k = zero} (omega arith) none_yet x sql refl)
          | inr other ↦
              let fit = pause_fits n delay fits in
              rw (exec_loop_again n delay last query w e w' x other, fit.1)
                (Ends-again x other
                  (exec_loop-Ends n (delay + delay) (some e) query (sleep delay w') fit.0))
        ]
      ]

  -- With the breaker closed, `DBX.exec` ends in one of the three ways of `Ends` for ten tries, the
  -- first pause a millisecond and no error before the first try; nothing else of the state changes.
  pub exec-Ends :
      (query : Bytes) (s : State W)
      → s.disabled ≡ false
      → Ends query 10 1000000 none s.world (exec H query s).0 (exec H query s).1.world
        × ((exec H query s).1 ≡ record s { world = (exec H query s).1.world })
  unfolding exec
  exec-Ends query s on =
      rw on (exec_loop-Ends retry_limit millisecond none query s.world (omega arith), refl)
