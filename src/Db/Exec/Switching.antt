-- ===== src/Db/Exec/Switching.antt =====
-- `DBX.exec` while other goroutines call `EnableDatabase`: the switch is read once, under its mutex,
-- before the first attempt.
pub mod Reads
use dqlited.Base.{
  ℕ, suc, ◌+◌, ◌%◌, ◌^◌, Bool, true, false, not, ◌≡◌, List, [], ◌∷◌, Bytes, Option, none, some,
}
use dqlited.Go.{Outcome, ok, fail, value, error, Host, ExecResult, background}
use dqlited.Db.{State, unavailable}
use dqlited.Db.Exec.{is_sql_failure, after_loop, retry_limit, millisecond}

-- Where a call stands: before `DatabaseDisabled()`; before an attempt, with the rounds left, the pause
-- and the last error; before `time.Sleep`; and behind its return.
pub data Position (E : Type 0) : Type 0 where
  checking : Position E
  trying : ℕ → ℕ → Option E → Position E
  pausing : ℕ → ℕ → E → Position E
  returned : Outcome (Option (ExecResult E)) E → Position E

-- The call, `dbxDisabled`, and the world outside.
pub record Race (W E : Type 0) : Type 0 where
  pub position : Position E
  pub disabled : Bool
  pub world : W

module _ {W E : Type 0} (H : Host W E) (query : Bytes) where
  open H use {exec_context, sleep}

  pub data Step (s t : Race W E) : Type 0 where
    -- `EnableDatabase(enable)` in another goroutine, at any time
    enable : (on : Bool) → t ≡ record s { disabled = not on } → Step s t
    refuse :
        s.position ≡ checking
        → s.disabled ≡ true
        → t ≡ record s { position = returned (fail (unavailable H)) }
        → Step s t
    admit :
        s.position ≡ checking
        → s.disabled ≡ false
        → t ≡ record s { position = trying retry_limit millisecond none }
        → Step s t
    succeed :
        (n delay : ℕ) (last : Option E) (r : ExecResult E) (w : W)
        → s.position ≡ trying (suc n) delay last
        → exec_context background query s.world ≡ (value r, w)
        → t ≡ record s { position = returned (ok (some r)); world = w }
        → Step s t
    give_up :
        (n delay : ℕ) (last : Option E) (e : E) (w : W)
        → s.position ≡ trying (suc n) delay last
        → exec_context background query s.world ≡ (error e, w)
        → is_sql_failure H e ≡ true
        → t ≡ record s { position = returned (fail e); world = w }
        → Step s t
    retry :
        (n delay : ℕ) (last : Option E) (e : E) (w : W)
        → s.position ≡ trying (suc n) delay last
        → exec_context background query s.world ≡ (error e, w)
        → is_sql_failure H e ≡ false
        → t ≡ record s { position = pausing n delay e; world = w }
        → Step s t
    pause :
        (n delay : ℕ) (e : E)
        → s.position ≡ pausing n delay e
        → t ≡ record s {
          position = trying n ((delay + delay) % 2 ^ 64) (some e);
          world = sleep delay s.world;
        }
        → Step s t
    exhaust :
        (delay : ℕ) (last : Option E)
        → s.position ≡ trying 0 delay last
        → t ≡ record s { position = returned (after_loop H last) }
        → Step s t

  -- Runs, with the values that the switch has had, the last one first.
  pub data Run (s : Race W E) : List Bool → Race W E → Type 0 where
    here : Run s (s.disabled ∷ []) s
    next :
        {values : List Bool} {t u : Race W E}
        → Run s values t
        → Step t u
        → Run s (u.disabled ∷ values) u

-- A call that begins.
abbrev pub called : {W E : Type 0} → State W → Race W E
called s = record { position = checking; disabled = s.disabled; world = s.world }
