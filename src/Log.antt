-- ===== src/Log.antt =====
-- log.go and the loggers of client.go: what a log function prints for a message, if anything.
use dqlited.Base.{ℕ, [], ◌++◌, Bytes, codes, Option, none, some, leb, if◌then◌else◌}
use dqlited.Text.{equal}
use dqlited.Go.{Outcome, ok, panic}
use dqlited.Client.{log_func}

-- What `log.Printf` and `Logger.Printf` are called with: the prefix of the logger, and the format.
-- The level is put in front of the arguments.
pub record Line : Type 0 where
  pub prefix : Bytes
  pub format : Bytes

-- `PanicLogFunc`
unfoldable pub panic_log_func : {E : Type 0} → ℕ → Bytes → ℕ → Bytes → Outcome (Option Line) E
panic_log_func level prefix l format =
    if equal format (codes "panic")
    then panic
    else if leb level l
    then ok (some (record { prefix = prefix; format = codes "[%s] " ++ format }))
    else ok none

-- `DefaultLogger` and `NewLogLog`: `NewLogFunc` with no prefix. Its writer is not used.
unfoldable pub default_logger : ℕ → ℕ → Bytes → Option Bytes
default_logger default_log_level = log_func default_log_level []

unfoldable pub new_log_log : ℕ → ℕ → Bytes → Option Bytes
new_log_log level = log_func level []
