-- ===== src/Db/Exec.antt =====
-- `DBX.exec` of db.go: a write that is tried again, with a doubled pause, unless SQL itself failed.
pub mod Attempts
pub mod Pauses
pub mod Repeats
pub mod Rounds
pub mod Switching
use dqlited.Base.{
  ℕ, zero, suc, ◌+◌, ◌%◌, ◌^◌, Bool, true, false, [], ◌∷◌, Bytes, Option, none, some, if◌then◌else◌,
}
use dqlited.Base.Int.{ℤ, positive}
use dqlited.Go.{
  Act, Outcome, ok, fail, panic, throw, Reply, value, error, Host, ExecResult, background, msg,
  text, num,
}
use dqlited.Db.{State, database_disabled, unavailable}

abbrev pub retry_limit : ℕ
retry_limit = 10

-- `time.Millisecond`, in nanoseconds
abbrev pub millisecond : ℕ
millisecond = 1000000

abbrev positive_code : Option ℤ → Bool
positive_code none = false
positive_code (some code) = positive code

module _ {W E : Type 0} (H : Host W E) where
  open H use {wrap, driver_code, exec_context, sleep}

  -- `derr, ok := err.(driver.Error); ok && derr.Code > 0`
  unfoldable pub is_sql_failure : E → Bool
  unfolding positive
  is_sql_failure e = positive_code (driver_code e)

  -- What the loop returns when its rounds are used up: the wrapped `err`, which is nil before the
  -- first round.
  abbrev pub after_loop : Option E → Outcome (Option (ExecResult E)) E
  after_loop none = ok none
  after_loop (some e) = fail (wrap (msg "DBX exec fail" []) e)

  -- The loop, with the rounds left, the pause and the last error. A `time.Duration` is an int64.
  unfoldable pub exec_loop : ℕ → ℕ → Option E → Bytes → W → Outcome (Option (ExecResult E)) E × W
  unfolding is_sql_failure
  exec_loop zero delay last query w = (after_loop last, w)
  exec_loop (suc n) delay last query w =
      let (r, w') = exec_context background query w in
      elim r [
        | value a ↦ (ok (some a), w')
        | error e ↦ elim (is_sql_failure e) [
          | true ↦ (fail e, w')
          | false ↦ exec_loop n ((delay + delay) % 2 ^ 64) (some e) query (sleep delay w')
        ]
      ]

  unfoldable pub exec : Bytes → Act (State W) E (Option (ExecResult E))
  unfolding database_disabled
  exec query s =
      let (o, w) = exec_loop retry_limit millisecond none query s.world in
      if database_disabled s then (fail (unavailable H), s) else (o, record s { world = w })
